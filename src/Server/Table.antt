-- ===== src/Server/Table.antt =====
-- The table of tickets over the time of the server (knox-proxy/main.go, knox-proxy/jit/db.go).
use mathlib.Core.Path.{subst}
use knox_proxy.Base.{sym, ◌≡◌, Bool-cases, ℕ, lookup, some, inr, inl, []}
use knox_proxy.Server.Events.{
  Runs, started, served, sessions_cleaned, logins_cleaned, timer_fired, teams_read, waited,
}
use knox_proxy.Server.Boot.Ready.{boot_ready}
use knox_proxy.Server.{
  clock, with_teams, serve, fire_timer, App, clean_logins, clean_sessions, Chance, Site,
}
use knox_proxy.Jit.Scheduler.{pending_transitions, init_from_db}
use knox_proxy.World.{World}
use knox_proxy.Jit.Scheduler.Targets.{schedule_all-StartOrEnd, fire-IsTyped, IsTyped, StartOrEnd}
use knox_proxy.Jit.Repository.{query_fails, Db}
use knox_proxy.Credential.Vault.{Vault}
use knox_proxy.Http.{Request}
use knox_proxy.Jit.Schema.Table.{IsTable}
use knox_proxy.Server.Boot.{configured, ready, boot, Started, Machine}
use knox_proxy.Server.Calls.{serve-IsCalled}
use knox_proxy.Jit.Routes.Table.{serve_api-IsTyped}
use knox_proxy.Jit.Migration.{migrate, Database}
use knox_proxy.Retry.{new_db}
use knox_proxy.Retry.Laws.{new_db_iff}

module _ (site : Site) (w : World) where
  serve-IsTyped :
      (chance : Chance) (r : Request) (s : App w)
      → IsTyped s.jit
      → IsTyped (serve site w chance r s).1.jit
  serve-IsTyped chance r s h = elim (serve-IsCalled site w chance r s) [
    | inl same ↦ subst IsTyped (sym same) h
    | inr (user, called) ↦
        subst IsTyped (sym called)
          (serve_api-IsTyped site.api chance.draw (clock site w s) user r s.jit h)
  ]

  Runs-IsTyped : {start s : App w} → Runs site w start s → IsTyped start.jit → IsTyped s.jit
  unfolding clean_sessions clean_logins fire_timer with_teams
  Runs-IsTyped started h = h
  Runs-IsTyped (served s chance r run unused new) h = serve-IsTyped chance r s (Runs-IsTyped run h)
  Runs-IsTyped (sessions_cleaned s run) h = Runs-IsTyped run h
  Runs-IsTyped (logins_cleaned s run) h = Runs-IsTyped run h
  Runs-IsTyped (timer_fired s id run) h =
      fire-IsTyped site.api.uuid site.api.webhook_url id (clock site w s) s.jit (Runs-IsTyped run h)
  Runs-IsTyped (teams_read s vp run) h = Runs-IsTyped run h
  Runs-IsTyped (waited s outside run) h = Runs-IsTyped run h

nothing_set : StartOrEnd []
unfolding lookup
nothing_set k x h = absurd (cc h)

init_from_db-IsTyped :
    (now : ℕ) (db : Db)
    → IsTable db.tickets
    → IsTyped (init_from_db now (record { db = db; timers = []; sent = [] }))
unfolding init_from_db
init_from_db-IsTyped now db h = elim (Bool-cases (query_fails db)) [
  | inl e ↦ rw e (record { table = h; targets = nothing_set })
  | inr e ↦ rw e (record {
    table = h;
    targets = schedule_all-StartOrEnd (pending_transitions db.tickets) now [] nothing_set;
  })
]

-- Since the server has started to listen, whatever requests, timers, ticks and faults of the database
-- there have been, the rows have the types of their columns, no two have the same ID and no two have the
-- same ticket number. The migrated table is such a table, the session ID that a request draws is not in
-- use, and the ID of a new ticket is a UUID in its canonical text.
pub table_typed :
    (site : Site) (w : World) (v : Vault) (m : Machine) (out : w.State) (s : v.State)
    (st : Started w)
    → ((found : Database) (db : Db)
        → new_db m.open_pool m.ping ≡ some found
        → migrate found ≡ some db
        → IsTable db.tickets)
    → boot w v m out s ≡ ready st
    → {app : App w} → Runs (configured w st site) w st.app app
    → IsTable app.jit.db.tickets
table_typed site w v m out s st typed up run =
    let (base, found, db, n, loads, below, first, migrated, around) =
      boot_ready w v m out st s up in
    (Runs-IsTyped (configured w st site) w run (
      subst IsTyped (sym around.scheduled) (
        init_from_db-IsTyped (w.now st.app.outside) db (
          typed found db ((new_db_iff m.open_pool m.ping found).1 (n, below, first))
            migrated)))).table
