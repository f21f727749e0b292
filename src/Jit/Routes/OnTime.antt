-- ===== src/Jit/Routes/OnTime.antt =====
-- The timers under the endpoints of knox-proxy/jit/handler.go, as long as no query fails.
use knox_proxy.Base.{bytes, ◌≡◌, Option, ℕ, some, refl}
use knox_proxy.Jit.Routes.Steps.{IsRead, Answered, looked, made, withdrawn, decided}
use knox_proxy.Jit.Handler.OnTime.{
  ticket_created-IsOnTime, ticket_canceled-IsOnTime, status_updated-IsOnTime,
}
use knox_proxy.Jit.Handler.{with_db, new_ticket, Api}
use knox_proxy.Jit.Repository.{Db, Draw}
use knox_proxy.Context.{RequestUser}
use knox_proxy.Http.{Request}
use knox_proxy.Jit.Scheduler.{Jit}
use knox_proxy.Jit.Repository.Quiet.{IsCanonical}
use knox_proxy.Jit.Scheduler.Timed.{same-IsOnTime, IsOnTime}
use knox_proxy.Jit.Routes.{serve_api}
use knox_proxy.Jit.Routes.Answers.{serve_api-Answered}

module _ (api : Api) (draw : Draw) (now : ℕ) (user : Option RequestUser) (r : Request) (j : Jit)
    (canonical : IsCanonical api.uuid) (drawn : api.uuid draw.id ≡ some draw.id)
    (h : IsOnTime api.uuid j) where
  read-IsOnTime : (db : Db) → IsRead j.db db → IsOnTime api.uuid (with_db db j)
  read-IsOnTime db (same, quiet) =
      same-IsOnTime api.uuid j (with_db db j) h same (quiet h.ready) refl

  Answered-IsOnTime : {j' : Jit} → Answered api draw now user r j j' → IsOnTime api.uuid j'
  Answered-IsOnTime (looked db read) = read-IsOnTime db read
  Answered-IsOnTime (made u req who asked valid) =
      ticket_created-IsOnTime api now j h (new_ticket api u req) draw drawn
  Answered-IsOnTime (withdrawn u id t db who row mine waits read) =
      ticket_canceled-IsOnTime api now (with_db db j) (read-IsOnTime db read) id
        (bytes "Canceled by user") u.email
  Answered-IsOnTime (decided id status reason by text asked named key set admin) =
      status_updated-IsOnTime api now j h id status reason by canonical admin

  pub serve_api-IsOnTime : IsOnTime api.uuid (serve_api api draw user r now j).1
  serve_api-IsOnTime = Answered-IsOnTime (serve_api-Answered api draw now user r j)
