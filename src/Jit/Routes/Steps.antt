-- ===== src/Jit/Routes/Steps.antt =====
-- What a request to the endpoints of knox-proxy/jit/handler.go does to the process.
use knox_proxy.Base.{bytes, ◌≢◌, ℕ, Option, Str, ◌≡◌, true, some, []}
use knox_proxy.Jit.Repository.{
  create_ticket, same_status, update_ticket_status, select_ticket, Updated, Draw, Db, found,
}
use knox_proxy.Jit.Handler.{body_of, ticket_canceled, new_ticket, ticket_created, with_db, Api}
use knox_proxy.Jit.Ticket.{status_of, Status, requested, canceled, Ticket}
use knox_proxy.Jit.Scheduler.{Jit}
use knox_proxy.Context.{RequestUser}
use knox_proxy.Http.{Request}
use knox_proxy.Jit.Validate.{validate_create_request, CreateTicketRequest}
use knox_proxy.Jit.Admin.{status_updated, is_admin_target, presented_key}

-- The queries were answered, and changed nothing.
abbrev pub IsRead : Db → Db → Type 0
IsRead db db' = (db'.tickets ≡ db.tickets) × (db.faults ≡ [] → db'.faults ≡ [])

module _ (api : Api) (draw : Draw) (now : ℕ) (user : Option RequestUser) (r : Request)
    (j : Jit) where
  abbrev pub withdrawal : Str → RequestUser → Db → Updated × Db
  withdrawal id u db =
      update_ticket_status api.uuid id canceled (bytes "Canceled by user") u.email now db

  -- A request only reads, or a user makes a ticket of a valid body, or a user withdraws a requested
  -- ticket of theirs, or one with the admin key decides on a ticket.
  pub data Answered : Jit → Type 0 where
    looked : (db : Db) → IsRead j.db db → Answered (with_db db j)
    made :
        (u : RequestUser) (req : CreateTicketRequest)
        → user ≡ some u
        → api.decode_create (body_of r) ≡ some req
        → validate_create_request api.parse_time api.max_duration req ≡ []
        → Answered (ticket_created api now (create_ticket (new_ticket api u req) draw j.db) j).1
    withdrawn :
        (u : RequestUser) (id : Str) (t : Ticket) (db : Db)
        → user ≡ some u
        → select_ticket api.uuid id j.db ≡ found t
        → t.email ≡ u.email
        → same_status t.status requested ≡ true
        → IsRead j.db db
        → Answered (ticket_canceled api id (withdrawal id u db) (with_db db j)).1
    decided :
        (id : Str) (status : Status) (reason by text : Str)
        → api.decode_update (body_of r)
          ≡ some (record { status = text; reason = reason; updated_by = by })
        → status ≡ status_of text
        → presented_key api r ≡ api.api_key
        → api.api_key ≢ []
        → is_admin_target api status ≡ true
        → Answered
            (status_updated api status now
              (update_ticket_status api.uuid id status reason by now j.db)
              j).1
