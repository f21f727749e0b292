-- ===== src/Server/Tickets.antt =====
-- The tickets over the time of the server (knox-proxy/main.go, knox-proxy/jit).
use mathlib.Core.Path.{subst}
use knox_proxy.Server.{
  clock, with_teams, fire_timer, Chance, clean_logins, clean_sessions, serve, App, Site,
}
use knox_proxy.Server.Events.{
  Runs, started, served, sessions_cleaned, logins_cleaned, timer_fired, teams_read, waited,
}
use knox_proxy.Jit.Scheduler.Identity.{fire-Keeps}
use knox_proxy.Base.{sym, ◌≡◌, Str, some, inr, inl}
use knox_proxy.World.{World}
use knox_proxy.Jit.Repository.Identity.{HasVersion, Keeps-trans, Keeps-refl, Keeps}
use knox_proxy.Jit.Ticket.{Ticket}
use knox_proxy.Http.{Request}
use knox_proxy.Jit.Repository.{find_ticket}
use knox_proxy.Jit.Scheduler.{Jit, fire}
use knox_proxy.Jit.Routes.Identity.{serve_api-Keeps}
use knox_proxy.Server.Calls.{serve-IsCalled}

module _ (site : Site) (w : World) where
  -- Each ticket of the one state has a version in the other.
  abbrev KeepsTickets : App w → App w → Type 0
  KeepsTickets s s' = Keeps s.jit.db s'.jit.db

  serve-Keeps :
      (chance : Chance) (r : Request) (s : App w) → KeepsTickets s (serve site w chance r s).1
  serve-Keeps chance r s = elim (serve-IsCalled site w chance r s) [
    | inl same ↦ subst (λ (j : Jit). Keeps s.jit.db j.db) (sym same) (Keeps-refl s.jit.db)
    | inr (user, called) ↦
        subst (λ (j : Jit). Keeps s.jit.db j.db) (sym called)
          (serve_api-Keeps site.api chance.draw (clock site w s) user r s.jit)
  ]

  Runs-Keeps : {start s : App w} → Runs site w start s → KeepsTickets start s
  unfolding clean_sessions clean_logins fire_timer with_teams
  Runs-Keeps {start = start} started = Keeps-refl start.jit.db
  Runs-Keeps {start = start} (served s chance r run unused new) =
      Keeps-trans start.jit.db s.jit.db (serve site w chance r s).1.jit.db (Runs-Keeps run)
        (serve-Keeps chance r s)
  Runs-Keeps (sessions_cleaned s run) = Runs-Keeps run
  Runs-Keeps (logins_cleaned s run) = Runs-Keeps run
  Runs-Keeps {start = start} (timer_fired s id run) =
      Keeps-trans start.jit.db s.jit.db
        (fire site.api.uuid site.api.webhook_url id (clock site w s) s.jit).db (Runs-Keeps run)
        (fire-Keeps site.api.uuid site.api.webhook_url id (clock site w s) s.jit)
  Runs-Keeps (teams_read s vp run) = Runs-Keeps run
  Runs-Keeps (waited s outside run) = Runs-Keeps run

  -- Whatever happens to the server - requests of users and admins, timers, faults of the database - a
  -- ticket stays in the table, and its ID, number, owner, team, workflow, access, description, period
  -- and time of creation stay as they are. The session ID that a request draws is not in
  -- use, and the ticket ID is a UUID in its canonical text.
  pub ticket_stays :
      {start s : App w} (k : Str) (t : Ticket)
      → Runs site w start s
      → find_ticket k start.jit.db.tickets ≡ some t
      → HasVersion k t s.jit.db
  ticket_stays k t run there = Runs-Keeps run k t there
