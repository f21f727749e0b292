-- ===== src/Jit/Handler.antt =====
-- knox-proxy/jit/handler.go: the endpoints, as functions of the process' state. The text of a body is
-- decoded by parameters. The webhook is sent in a goroutine of its own; here it is sent at once.
pub mod Owner
pub mod Rows
pub mod Columns
pub mod OnTime
use knox_proxy.Base.{
  join, ◌++◌, trim_prefix, not, ◌==◌, has_prefix, trim_suffix, Bool, bytes, if◌then◌else◌, String,
  List, Option, false, true, none, some, inr, inl, refl, ◌∷◌, [], ℕ, Str,
}
use knox_proxy.Http.{get, Request}
use knox_proxy.Context.{resolve_team, RequestUser}
use knox_proxy.Jit.Ticket.{
  canceled, revoked, requested, other, rejected, approved, status_of, Ticket, Status, duration,
}
use knox_proxy.Jit.Repository.{
  missing, update_ticket_status, query_failed, updated, same_status, get_ticket_by_id,
  create_ticket, refused, found, Updated, Found, Draw, Db, Uuid,
}
use knox_proxy.Jit.Scheduler.{cancel, schedule, fire_webhook, Timers, Jit}
use knox_proxy.Jit.Validate.{
  zero_time, or_zero, validate_create_request, access_type_text, CreateTicketRequest, ParseTime,
}

pub record UpdateStatusRequest : Type 0 where
  pub status : Str
  pub reason : Str
  pub updated_by : Str

pub record TicketFilter : Type 0 where
  pub email : Str
  pub team : Str
  pub status : Str
  pub workflow_id : Str
  pub limit : ℕ
  pub offset : ℕ

-- The fields of the Handler, and what its code calls outside.
pub record Api : Type 0 where
  pub webhook_url : Str
  pub max_duration : ℕ
  pub api_key : Str
  pub group_prefix : Str
  pub uuid : Uuid
  pub parse_time : ParseTime
  pub decode_create : Str → Option CreateTicketRequest
  pub decode_update : Str → Option UpdateStatusRequest
  -- r.URL.Query().Get(…)
  pub query : Str → Request → Str

pub data Payload : Type 0 where
  error_response : (error message : Str) → Payload
  ticket_response : Ticket → (duration : Str) → Payload
  ticket_list : List Ticket → ℕ → Payload
  user_info : (email display_name team : Str) → Payload
  -- the handler panicked on a nil ticket, and net/http closes the connection
  aborted : Payload

pub record Reply : Type 0 where
  pub status : ℕ
  pub payload : Payload

abbrev pub reply : ℕ → Payload → Reply
reply status payload = record { status = status; payload = payload }

abbrev pub failure : ℕ → String → Str → Reply
failure status error message = reply status (error_response (bytes error) message)

abbrev pub ticket_reply : ℕ → Ticket → Reply
ticket_reply status t = reply status (ticket_response t (duration t))

abbrev pub unauthorized_user : Reply
unauthorized_user = failure 401 "Unauthorized" []

abbrev pub Endpoint : Type 0
Endpoint = Request → ℕ → Jit → Reply × Jit

-- extractPathParam
unfoldable pub extract_path_param : Str → Str → Str
extract_path_param path prefix = if has_prefix path prefix then trim_prefix path prefix else []

abbrev pub with_db : Db → Jit → Jit
with_db db j = record j { db = db }

abbrev pub body_of : Request → Str
body_of r = elim r.body [ none ↦ [] | some b ↦ b ]

module _ (api : Api) where
  -- Behind the checks of handleRequestJIT.
  unfoldable pub new_ticket : RequestUser → CreateTicketRequest → Ticket
  new_ticket user req = record {
    id = [];
    ticket_number = [];
    email = user.email;
    display_name = user.display_name;
    team = resolve_team user.groups api.group_prefix;
    workflow_id = req.workflow_id;
    access_type = access_type_text req.access_type;
    description = req.description;
    period_start = or_zero (api.parse_time req.period_start);
    period_end = or_zero (api.parse_time req.period_end);
    status = other [];
    status_reason = [];
    updated_by = [];
    created_at = zero_time;
    updated_at = zero_time;
  }

  unfoldable pub ticket_created : ℕ → Option Ticket × Db → Jit → Reply × Jit
  ticket_created now (none, db) j = (
    failure 500 "Internal Error" (bytes "Failed to create ticket. Please try again."),
    with_db db j,
  )
  ticket_created now (some t, db) j = (
    ticket_reply 201 t,
    fire_webhook api.webhook_url t (record j { db = db; timers = schedule t now j.timers }),
  )

  unfoldable pub create_validated : RequestUser → CreateTicketRequest → Draw → ℕ → Jit → Reply × Jit
  create_validated user req draw now j =
      elim (validate_create_request api.parse_time api.max_duration req) [
        | [] ↦ ticket_created now (create_ticket (new_ticket user req) draw j.db) j
        | e ∷ es ↦ (failure 400 "Validation Error" (join (bytes "; ") (e ∷ es)), j)
      ]

  unfoldable pub handle_request_jit : Draw → Option RequestUser → Endpoint
  handle_request_jit draw none r now j = (unauthorized_user, j)
  handle_request_jit draw (some user) r now j = elim (api.decode_create (body_of r)) [
    | none ↦ (failure 400 "Bad Request" (bytes "Invalid JSON body"), j)
    | some req ↦ create_validated user req draw now j
  ]

  -- Where a ticket is looked up for its owner: the answers up to the ownership check.
  unfoldable pub owned_ticket :
      Str → Str → Found × Db → (Ticket → Jit → Reply × Jit) → Jit → Reply × Jit
  owned_ticket email message (query_failed, db) next j =
      (failure 500 "Internal Error" (bytes "Failed to get ticket"), with_db db j)
  owned_ticket email message (missing, db) next j = (failure 404 "Not Found" [], with_db db j)
  owned_ticket email message (found t, db) next j =
      if t.email == email
      then next t (with_db db j)
      else (failure 403 "Forbidden" message, with_db db j)

  unfoldable pub handle_get_ticket : Option RequestUser → Endpoint
  handle_get_ticket none r now j = (unauthorized_user, j)
  handle_get_ticket (some user) r now j =
      let id = extract_path_param r.path (bytes "/knox-api/tickets/") in
      if id == []
      then (failure 400 "Bad Request" (bytes "Missing ticket ID"), j)
      else owned_ticket user.email (bytes "You can only view your own tickets")
          (get_ticket_by_id api.uuid id j.db) (λ t j'. (ticket_reply 200 t, j')) j

  -- Behind the update of handleCancelTicket: the timer of the ID in the path is stopped.
  unfoldable pub ticket_canceled : Str → Updated × Db → Jit → Reply × Jit
  ticket_canceled id (refused e, db) j =
      (failure 500 "Internal Error" (bytes "Failed to cancel ticket"), with_db db j)
  ticket_canceled id (updated none, db) j = (reply 0 aborted, with_db db j)
  ticket_canceled id (updated (some t), db) j = (
    ticket_reply 200 t,
    fire_webhook api.webhook_url t (record j { db = db; timers = cancel id j.timers }),
  )

  unfoldable pub cancel_owned : RequestUser → Str → ℕ → Ticket → Jit → Reply × Jit
  cancel_owned user id now t j =
      if not (same_status t.status requested)
      then (failure 400 "Bad Request" (bytes "Only 'requested' tickets can be canceled"), j)
      else ticket_canceled id
          (update_ticket_status api.uuid id canceled (bytes "Canceled by user") user.email now j.db)
          j

  unfoldable pub handle_cancel_ticket : Option RequestUser → Endpoint
  handle_cancel_ticket none r now j = (unauthorized_user, j)
  handle_cancel_ticket (some user) r now j =
      let id =
        extract_path_param (trim_suffix r.path (bytes "/cancel")) (bytes "/knox-api/tickets/") in
      if id == []
      then (failure 400 "Bad Request" (bytes "Missing ticket ID"), j)
      else owned_ticket user.email (bytes "You can only cancel your own tickets")
          (get_ticket_by_id api.uuid id j.db) (cancel_owned user id now) j

  unfoldable pub handle_user_info : Option RequestUser → Endpoint
  handle_user_info none r now j = (unauthorized_user, j)
  handle_user_info (some user) r now j = (
    reply 200 (user_info user.email user.display_name (resolve_team user.groups api.group_prefix)),
    j,
  )
