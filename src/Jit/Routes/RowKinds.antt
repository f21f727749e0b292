-- ===== src/Jit/Routes/RowKinds.antt =====
-- What a request to the endpoints of knox-proxy/jit/handler.go may make of a row.
use knox_proxy.Base.{◌-◌, ◌+◌, ◌≢◌, bytes, lookup, ◌⊎◌, ◌≡◌, Str, Option, ℕ, true, some, []}
use knox_proxy.Jit.Handler.{body_of, UpdateStatusRequest, Api}
use knox_proxy.Jit.Repository.{find_ticket, Draw}
use knox_proxy.Context.{RequestUser}
use knox_proxy.Http.{Request}
use knox_proxy.Jit.Ticket.{
  revoked, is_valid_transition, expired, rejected, status_of, canceled, approved, requested, Status,
  Ticket,
}
use knox_proxy.Jit.Admin.{presented_key}
use knox_proxy.Jit.Scheduler.{Jit, Timer}
use knox_proxy.Jit.Validate.{or_zero, validate_create_request, CreateTicketRequest}

module _ (api : Api) (draw : Draw) (now : ℕ) (user : Option RequestUser) (r : Request) where
  -- The row is a new ticket of the user, as a valid body asks for it, which waits for a decision, and
  -- has the timer of its end.
  pub record IsMade (after : Option Ticket) (timer : Option Timer) : Type 0 where
    pub u : RequestUser
    pub req : CreateTicketRequest
    pub t : Ticket
    pub asks : user ≡ some u
    pub body : api.decode_create (body_of r) ≡ some req
    pub valid : validate_create_request api.parse_time api.max_duration req ≡ []
    pub row : after ≡ some t
    pub owner : t.email ≡ u.email
    pub workflow : t.workflow_id ≡ req.workflow_id
    pub starts : t.period_start ≡ or_zero (api.parse_time req.period_start)
    pub ends : t.period_end ≡ or_zero (api.parse_time req.period_end)
    pub waits : t.status ≡ requested
    pub timed : timer ≡ some (record { target_status = expired; due = now + (t.period_end - now) })

  -- The row was a ticket of the user that waits for a decision, and is withdrawn.
  pub record IsWithdrawn (before after : Option Ticket) : Type 0 where
    pub u : RequestUser
    pub t : Ticket
    pub asks : user ≡ some u
    pub row : before ≡ some t
    pub owner : t.email ≡ u.email
    pub waits : t.status ≡ requested
    pub changed :
        after
        ≡ some (record t {
          status = canceled;
          status_reason = bytes "Canceled by user";
          updated_by = u.email;
          updated_at = now;
        })

  -- The request has the key of the admin API, and the row has the status, reason and author of its
  -- body, which is a status that an admin may set and that the row's may become.
  pub record IsDecided (before after : Option Ticket) : Type 0 where
    pub t : Ticket
    pub req : UpdateStatusRequest
    pub status : Status
    pub body : api.decode_update (body_of r) ≡ some req
    pub named : status ≡ status_of req.status
    pub key : presented_key api r ≡ api.api_key
    pub set : api.api_key ≢ []
    pub target : (status ≡ approved) ⊎ (status ≡ rejected) ⊎ (status ≡ revoked)
    pub allowed : is_valid_transition t.status status ≡ true
    pub row : before ≡ some t
    pub changed :
        after
        ≡ some (record t {
          status = status;
          status_reason = req.reason;
          updated_by = req.updated_by;
          updated_at = now;
        })

  abbrev pub RowAfter : Str → Jit → Jit → Type 0
  RowAfter k j j' =
      (find_ticket k j'.db.tickets ≡ find_ticket k j.db.tickets)
      ⊎ IsMade (find_ticket k j'.db.tickets) (lookup k j'.timers)
      ⊎ IsWithdrawn (find_ticket k j.db.tickets) (find_ticket k j'.db.tickets)
      ⊎ IsDecided (find_ticket k j.db.tickets) (find_ticket k j'.db.tickets)
