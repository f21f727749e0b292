-- ===== src/Jit/Handler/Rows.antt =====
-- The table behind an answer of the endpoints of knox-proxy/jit/handler.go.
use knox_proxy.Base.{ℕ, Option, ◌≡◌, Str, none, some, refl}
use knox_proxy.Jit.Scheduler.{cancel, schedule, Jit, fire_webhook}
use knox_proxy.Jit.Repository.{updated, refused, Updated, Db}
use knox_proxy.Jit.Handler.{ticket_canceled, ticket_created, Api}
use knox_proxy.Jit.Ticket.{Status, Ticket}
use knox_proxy.Jit.Repository.Identity.{Keeps}
use knox_proxy.Jit.Admin.{reschedule, status_updated}
use knox_proxy.Jit.Scheduler.Laws.{fire_webhook-parts}

pub fire_webhook-db : (url : Str) (t : Ticket) (j : Jit) → (fire_webhook url t j).db ≡ j.db
fire_webhook-db url t j = (fire_webhook-parts url t j).0

-- The same rows.
pub same_Keeps : (db db' : Db) → db'.tickets ≡ db.tickets → Keeps db db'
same_Keeps db db' e k t h = (t, rw e h, refl)

module _ (api : Api) (now : ℕ) where
  pub ticket_created-db :
      (made : Option Ticket × Db) (j : Jit) → (ticket_created api now made j).1.db ≡ made.1
  unfolding ticket_created
  ticket_created-db (none, db) j = refl
  ticket_created-db (some t, db) j =
      fire_webhook-db api.webhook_url t (record j { db = db; timers = schedule t now j.timers })

  pub ticket_canceled-db :
      (id : Str) (change : Updated × Db) (j : Jit)
      → (ticket_canceled api id change j).1.db ≡ change.1
  unfolding ticket_canceled
  ticket_canceled-db id (refused e, db) j = refl
  ticket_canceled-db id (updated none, db) j = refl
  ticket_canceled-db id (updated (some t), db) j =
      fire_webhook-db api.webhook_url t (record j { db = db; timers = cancel id j.timers })

  pub status_updated-db :
      (status : Status) (change : Updated × Db) (j : Jit)
      → (status_updated api status now change j).1.db ≡ change.1
  unfolding status_updated
  status_updated-db status (refused e, db) j = refl
  status_updated-db status (updated none, db) j = refl
  status_updated-db status (updated (some t), db) j =
      fire_webhook-db api.webhook_url t
        (record j { db = db; timers = reschedule api status t now j.timers })
