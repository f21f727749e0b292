-- ===== src/Server/Told.antt =====
-- What the receiver of the webhook knows, over the time of the server (knox-proxy/main.go).
use mathlib.Core.Path.{subst}
use knox_proxy.Base.{sym, ◌++◌, List, ◌≡◌, Str, non_empty, true, inr, inl, refl, []}
use knox_proxy.Server.Events.{
  Runs, started, served, sessions_cleaned, logins_cleaned, timer_fired, teams_read, waited,
}
use knox_proxy.Server.{
  clock, with_teams, serve, fire_timer, clean_logins, clean_sessions, Chance, App, Site,
}
use knox_proxy.World.{World}
use knox_proxy.Jit.Repository.Quiet.{IsCanonical}
use knox_proxy.Jit.Ticket.{Ticket}
use knox_proxy.Jit.Repository.{find_ticket}
use knox_proxy.Http.{Request}
use knox_proxy.Jit.Scheduler.Told.{fire-IsTold, IsTold}
use knox_proxy.Server.Calls.{serve-IsCalled}
use knox_proxy.Jit.Routes.Told.{serve_api-IsTold}

module _ (site : Site) (w : World) (canonical : IsCanonical site.api.uuid)
    (told : non_empty site.api.webhook_url ≡ true) (first : List Ticket) where
  serve-IsTold :
      (chance : Chance) (r : Request) (s : App w)
      → IsTold first s.jit
      → IsTold first (serve site w chance r s).1.jit
  serve-IsTold chance r s h = elim (serve-IsCalled site w chance r s) [
    | inl same ↦ subst (IsTold first) (sym same) h
    | inr (user, called) ↦
        subst (IsTold first) (sym called)
          (serve_api-IsTold first site.api told chance.draw (clock site w s) user r s.jit h)
  ]

  Runs-IsTold :
      {start s : App w} → Runs site w start s → IsTold first start.jit → IsTold first s.jit
  unfolding clean_sessions clean_logins fire_timer with_teams
  Runs-IsTold started h = h
  Runs-IsTold (served s chance r run unused new) h = serve-IsTold chance r s (Runs-IsTold run h)
  Runs-IsTold (sessions_cleaned s run) h = Runs-IsTold run h
  Runs-IsTold (logins_cleaned s run) h = Runs-IsTold run h
  Runs-IsTold (timer_fired s id run) h =
      fire-IsTold first site.api.uuid canonical site.api.webhook_url told id (clock site w s) s.jit
        (Runs-IsTold run h)
  Runs-IsTold (teams_read s vp run) h = Runs-IsTold run h
  Runs-IsTold (waited s outside run) h = Runs-IsTold run h

module _ (site : Site) (w : World) where
  -- If each request, timer and tick ends before the next begins, then whoever takes the tickets of a
  -- state, before any was sent, and then, for each ID, the last ticket for which FireWebhook was called,
  -- has the rows as they are. The webhook has a URL, no query fails, and a UUID's canonical text is read
  -- as itself; the session ID that a request draws is not in use, and the ticket ID is such a text.
  pub webhook_told :
      {start s : App w} (k : Str)
      → IsCanonical site.api.uuid
      → non_empty site.api.webhook_url ≡ true
      → start.jit.db.faults ≡ []
      → start.jit.sent ≡ []
      → Runs site w start s
      → find_ticket k s.jit.db.tickets ≡ find_ticket k (s.jit.sent ++ start.jit.db.tickets)
  webhook_told {start = start} k canonical told ready none_sent run =
      (Runs-IsTold site w canonical told start.jit.db.tickets run
          (record { ready = ready; same_rows = λ i. rw none_sent refl })).same_rows
        k
