-- ===== src/Jit/Routes/Table.antt =====
-- The rows keep the types of their columns under the endpoints of knox-proxy/jit/handler.go.
use knox_proxy.Base.{bytes, Str, Option, ℕ, none, some}
use knox_proxy.Jit.Routes.Steps.{withdrawal, Answered, looked, made, withdrawn, decided}
use knox_proxy.Jit.Repository.{
  update_ticket_status, create_ticket, Updated, Db, Draw, refused, updated,
}
use knox_proxy.Jit.Ticket.{Status, Ticket, approved, rejected, revoked, canceled}
use knox_proxy.Jit.Handler.{with_db, new_ticket, ticket_canceled, ticket_created, Api}
use knox_proxy.Jit.Scheduler.{schedule, cancel, Jit}
use knox_proxy.Jit.Scheduler.Targets.{
  fire_webhook-IsTyped, cancel-StartOrEnd, schedule-StartOrEnd, IsTyped, StartOrEnd,
}
use knox_proxy.Context.{RequestUser}
use knox_proxy.Jit.Admin.{status_updated, reschedule}
use knox_proxy.Http.{Request}
use knox_proxy.Jit.Routes.{serve_api}
use knox_proxy.Jit.Schema.Table.{IsTable}
use knox_proxy.Jit.Routes.Answers.{serve_api-Answered}
use knox_proxy.Jit.Repository.Table.{update_ticket_status-IsTable, create_ticket-IsTable}

module _ (api : Api) (now : ℕ) (j : Jit) (targets : StartOrEnd j.timers) where
  ticket_created-IsTyped :
      (row : Option Ticket) (db : Db)
      → IsTable db.tickets
      → IsTyped (ticket_created api now (row, db) j).1
  unfolding ticket_created
  ticket_created-IsTyped none db h = record { table = h; targets = targets }
  ticket_created-IsTyped (some t) db h =
      fire_webhook-IsTyped api.webhook_url t
        (record j { db = db; timers = schedule t now j.timers })
        (record { table = h; targets = schedule-StartOrEnd t now j.timers targets })

  ticket_canceled-IsTyped :
      (id : Str) (result : Updated) (db : Db)
      → IsTable db.tickets
      → IsTyped (ticket_canceled api id (result, db) j).1
  unfolding ticket_canceled cancel
  ticket_canceled-IsTyped id (refused e) db h = record { table = h; targets = targets }
  ticket_canceled-IsTyped id (updated none) db h = record { table = h; targets = targets }
  ticket_canceled-IsTyped id (updated (some t)) db h =
      fire_webhook-IsTyped api.webhook_url t (record j { db = db; timers = cancel id j.timers })
        (record { table = h; targets = cancel-StartOrEnd id j.timers targets })

  reschedule-StartOrEnd :
      (status : Status) (t : Ticket) → StartOrEnd (reschedule api status t now j.timers)
  unfolding reschedule cancel
  reschedule-StartOrEnd approved t = schedule-StartOrEnd t now j.timers targets
  reschedule-StartOrEnd rejected t = cancel-StartOrEnd t.id j.timers targets
  reschedule-StartOrEnd revoked t = cancel-StartOrEnd t.id j.timers targets
  reschedule-StartOrEnd _ t = targets

  status_updated-IsTyped :
      (status : Status) (result : Updated) (db : Db)
      → IsTable db.tickets
      → IsTyped (status_updated api status now (result, db) j).1
  unfolding status_updated
  status_updated-IsTyped status (refused e) db h = record { table = h; targets = targets }
  status_updated-IsTyped status (updated none) db h = record { table = h; targets = targets }
  status_updated-IsTyped status (updated (some t)) db h =
      fire_webhook-IsTyped api.webhook_url t
        (record j { db = db; timers = reschedule api status t now j.timers })
        (record { table = h; targets = reschedule-StartOrEnd status t })

module _ (api : Api) (draw : Draw) (now : ℕ) (user : Option RequestUser) (r : Request) (j : Jit)
    (h : IsTyped j) where
  Answered-IsTyped : {j' : Jit} → Answered api draw now user r j j' → IsTyped j'
  Answered-IsTyped (looked db (same, _)) = record { table = rw same h.table; targets = h.targets }
  Answered-IsTyped (made u req who asked valid) =
      let (row, db) = create_ticket (new_ticket api u req) draw j.db in
      ticket_created-IsTyped api now j h.targets row db
        (create_ticket-IsTable (new_ticket api u req) draw j.db h.table)
  Answered-IsTyped (withdrawn u id t db who row mine waits (same, _)) =
      let (result, db') = withdrawal api draw now user r j id u db in
      ticket_canceled-IsTyped api now (with_db db j) h.targets id result db' (
        update_ticket_status-IsTable api.uuid id canceled (bytes "Canceled by user") u.email now db
          (rw same h.table))
  Answered-IsTyped (decided id status reason by text asked named key set admin) =
      let (result, db') = update_ticket_status api.uuid id status reason by now j.db in
      status_updated-IsTyped api now j h.targets status result db'
        (update_ticket_status-IsTable api.uuid id status reason by now j.db h.table)

  pub serve_api-IsTyped : IsTyped (serve_api api draw user r now j).1
  serve_api-IsTyped = Answered-IsTyped (serve_api-Answered api draw now user r j)
