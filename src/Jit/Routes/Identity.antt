-- ===== src/Jit/Routes/Identity.antt =====
-- Whom a ticket belongs to and what it is for, under the endpoints of knox-proxy/jit/handler.go.
use mathlib.Core.Path.{subst}
use knox_proxy.Base.{bytes, Option, ℕ, sym}
use knox_proxy.Jit.Routes.Steps.{withdrawal, Answered, looked, made, withdrawn, decided}
use knox_proxy.Jit.Handler.Rows.{
  same_Keeps, ticket_created-db, ticket_canceled-db, status_updated-db,
}
use knox_proxy.Jit.Handler.{with_db, new_ticket, Api}
use knox_proxy.Jit.Repository.{update_ticket_status, create_ticket, Draw}
use knox_proxy.Context.{RequestUser}
use knox_proxy.Http.{Request}
use knox_proxy.Jit.Scheduler.{Jit}
use knox_proxy.Jit.Repository.Identity.{
  update_ticket_status-Keeps, Keeps-trans, create_ticket-Keeps, Keeps,
}
use knox_proxy.Jit.Routes.{serve_api}
use knox_proxy.Jit.Ticket.{canceled}
use knox_proxy.Jit.Routes.Answers.{serve_api-Answered}

module _ (api : Api) (draw : Draw) (now : ℕ) (user : Option RequestUser) (r : Request)
    (j : Jit) where
  Answered-Keeps : {j' : Jit} → Answered api draw now user r j j' → Keeps j.db j'.db
  Answered-Keeps (looked db (same, _)) = same_Keeps j.db db same
  Answered-Keeps (made u req who asked valid) =
      subst (Keeps j.db)
        (sym (ticket_created-db api now (create_ticket (new_ticket api u req) draw j.db) j))
        (create_ticket-Keeps (new_ticket api u req) draw j.db)
  Answered-Keeps (withdrawn u id t db who row mine waits (same, _)) =
      let done = withdrawal api draw now user r j id u db in
      subst (Keeps j.db) (sym (ticket_canceled-db api now id done (with_db db j))) (
        Keeps-trans j.db db done.1 (same_Keeps j.db db same) (
          update_ticket_status-Keeps api.uuid id canceled (bytes "Canceled by user") u.email now
            db))
  Answered-Keeps (decided id status reason by text asked named key set admin) =
      subst (Keeps j.db)
        (sym (
          status_updated-db api now status
            (update_ticket_status api.uuid id status reason by now j.db) j))
        (update_ticket_status-Keeps api.uuid id status reason by now j.db)

  pub serve_api-Keeps : Keeps j.db (serve_api api draw user r now j).1.db
  serve_api-Keeps = Answered-Keeps (serve_api-Answered api draw now user r j)
