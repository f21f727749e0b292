-- ===== src/Server/OnTime.antt =====
-- The timers over the time of the server (knox-proxy/main.go, knox-proxy/jit/scheduler.go).
use mathlib.Core.Path.{subst}
use knox_proxy.Base.{◌⊎◌, refl, ◌<◌, ℕ, sym, Str, ◌≡◌, some, inr, inl, []}
use knox_proxy.Server.Events.{
  Runs, IsNewTicket, started, served, sessions_cleaned, logins_cleaned, timer_fired, teams_read,
  waited,
}
use knox_proxy.Server.Boot.Ready.{boot_ready}
use knox_proxy.Server.{
  clock, serve, with_teams, fire_timer, App, clean_logins, clean_sessions, Chance, Site,
}
use knox_proxy.World.{World}
use knox_proxy.Jit.Repository.Quiet.{IsCanonical}
use knox_proxy.Jit.Repository.{Uuid, find_ticket, Db}
use knox_proxy.Credential.Vault.{Vault}
use knox_proxy.Http.{Request}
use knox_proxy.Server.Boot.{configured, ready, boot, Started, Machine}
use knox_proxy.Jit.Scheduler.Laws.{HasUniqueIds}
use knox_proxy.Jit.Scheduler.Init.{init_from_db-IsOnTime, HasCanonicalIds}
use knox_proxy.Jit.Scheduler.Timed.{IsOnTime}
use knox_proxy.Jit.Scheduler.Firing.{fire-IsOnTime}
use knox_proxy.Server.Calls.{serve-IsCalled}
use knox_proxy.Jit.Ticket.{expired, requested, active, approved, Status, Ticket}
use knox_proxy.Jit.Routes.OnTime.{serve_api-IsOnTime}
use knox_proxy.Jit.Scheduler.{next_transition}
use knox_proxy.Jit.Scheduler.Early.{due_row, ChangesAt, early_row}
use knox_proxy.Jit.Migration.{migrate, Database}
use knox_proxy.Retry.{new_db}
use knox_proxy.Retry.Laws.{new_db_iff}

module _ (site : Site) (w : World) (canonical : IsCanonical site.api.uuid) where
  serve-IsOnTime :
      (chance : Chance) (r : Request) (s : App w)
      → IsNewTicket site w chance
      → IsOnTime site.api.uuid s.jit
      → IsOnTime site.api.uuid (serve site w chance r s).1.jit
  serve-IsOnTime chance r s drawn h = elim (serve-IsCalled site w chance r s) [
    | inl same ↦ subst (IsOnTime site.api.uuid) (sym same) h
    | inr (user, called) ↦
        subst (IsOnTime site.api.uuid) (sym called)
          (serve_api-IsOnTime site.api chance.draw (clock site w s) user r s.jit canonical drawn h)
  ]

  pub Runs-IsOnTime :
      {start s : App w}
      → Runs site w start s
      → IsOnTime site.api.uuid start.jit
      → IsOnTime site.api.uuid s.jit
  unfolding clean_sessions clean_logins fire_timer with_teams
  Runs-IsOnTime started h = h
  Runs-IsOnTime (served s chance r run unused new) h =
      serve-IsOnTime chance r s new (Runs-IsOnTime run h)
  Runs-IsOnTime (sessions_cleaned s run) h = Runs-IsOnTime run h
  Runs-IsOnTime (logins_cleaned s run) h = Runs-IsOnTime run h
  Runs-IsOnTime (timer_fired s id run) h =
      fire-IsOnTime site.api.uuid id site.api.webhook_url (clock site w s) s.jit
        (Runs-IsOnTime run h)
  Runs-IsOnTime (teams_read s vp run) h = Runs-IsOnTime run h
  Runs-IsOnTime (waited s outside run) h = Runs-IsOnTime run h

-- The table can be read, whenever; its IDs are UUIDs in their canonical text, and no two are the same.
pub record IsSound (uuid : Uuid) (db : Db) : Type 0 where
  pub quiet : db.faults ≡ []
  pub unique : HasUniqueIds db.tickets
  pub canonical_ids : HasCanonicalIds uuid db.tickets

-- What a ticket waits for by its status and period: an approved one to become active at its start, an
-- active or a requested one to expire at its end.
abbrev pub WaitsFor : Ticket → Status → ℕ → Type 0
WaitsFor t target at =
    ((t.status ≡ approved) × (target ≡ active) × (at ≡ t.period_start))
    ⊎ (((t.status ≡ active) ⊎ (t.status ≡ requested)) × (target ≡ expired) × (at ≡ t.period_end))

waited_for :
    (t : Ticket) (target : Status) (at : ℕ)
    → WaitsFor t target at
    → next_transition t ≡ some (target, at)
unfolding next_transition
waited_for t target at (inl (s, e, i)) = rw (s, e, i) refl
waited_for t target at (inr (inl s, e, i)) = rw (s, e, i) refl
waited_for t target at (inr (inr s, e, i)) = rw (s, e, i) refl

module _ (site : Site) (w : World) (v : Vault) (m : Machine) (out : w.State) (s : v.State)
    (st : Started w) (canonical : IsCanonical site.api.uuid)
    (sound : (found : Database) (db : Db)
      → new_db m.open_pool m.ping ≡ some found
      → migrate found ≡ some db
      → IsSound site.api.uuid db)
    (up : boot w v m out s ≡ ready st) {app : App w}
    (run : Runs (configured w st site) w st.app app) where
  booted : IsOnTime site.api.uuid st.app.jit
  booted =
      let (base, found, db, n, loads, below, first, migrated, around) =
        boot_ready w v m out st s up in
      let fine =
        sound found db ((new_db_iff m.open_pool m.ping found).1 (n, below, first)) migrated in
      subst (IsOnTime site.api.uuid) (sym around.scheduled) (
        init_from_db-IsOnTime site.api.uuid (w.now st.app.outside) db fine.quiet fine.unique
          fine.canonical_ids)

  running : IsOnTime site.api.uuid app.jit
  unfolding configured
  running = Runs-IsOnTime (configured w st site) w canonical run booted

  module _ (k : Str) (t : Ticket) (target : Status) (at : ℕ)
      (there : find_ticket k app.jit.db.tickets ≡ some t) (waits : WaitsFor t target at) where
    -- Since the server has started to listen, and if each request, timer and tick ends before the next
    -- begins, each ticket that waits - an approved one to become active at the start of its period, an
    -- active or requested one to expire at its end - has the timer for that, which is due no sooner than
    -- that instant, and which gives the ticket that status when it fires then. No query fails, the IDs
    -- in the table are different UUIDs in their canonical text, a canonical text is read as itself, the
    -- session ID that a request draws is not in use, and the ticket ID is such a text.
    pub access_on_time : ChangesAt site.api.uuid st.config.jit_webhook_url k app.jit t target at
    access_on_time =
        due_row site.api.uuid st.config.jit_webhook_url k app.jit t target at running there
          (waited_for t target at waits)

    -- Since the server has started to listen, and if each request, timer and tick ends before the next
    -- begins, no timer, whichever fires, changes an approved ticket before the start of its period, nor
    -- an active or requested one before its end. No query fails, the IDs in the table are different
    -- UUIDs in their canonical text, a canonical text is read as itself, the session ID that a request
    -- draws is not in use, and the ticket ID is such a text.
    pub not_early :
        (id : Str)
        → clock (configured w st site) w app < at
        → find_ticket k (fire_timer (configured w st site) w id app).jit.db.tickets ≡ some t
    unfolding fire_timer configured
    not_early id early =
        early_row site.api.uuid st.config.jit_webhook_url id k (clock site w app) app.jit t target
          at running there (waited_for t target at waits) early
