-- ===== src/Tests/Tickets.antt =====
-- Tickets and their endpoints at concrete inputs (knox-proxy/jit).
use knox_proxy.Base.{
  arith, ◌≤◌, length, All, ◌↔◌, ◌≡◌, ◌==◌, bytes, lookup, none, some, inl, refl, ◌∷◌, [],
}
use knox_proxy.Jit.Ticket.{
  duration, status_of, expired, revoked, active, approved, requested, is_valid_transition, Ticket,
}
use knox_proxy.Jit.Repository.{
  update_ticket, get_ticket_by_id, system_status, with_status, update_ticket_status, find_ticket,
  Draw, Uuid, Db,
}
use knox_proxy.Jit.Scheduler.{fire, timer_for, Jit}
use knox_proxy.Jit.Validate.{validate_create_request, ParseTime, CreateTicketRequest}
use knox_proxy.Jit.Handler.{UpdateStatusRequest, Api}
use knox_proxy.Context.{RequestUser}
use knox_proxy.Http.{Request}
use knox_proxy.Jit.Routes.Access.{no_access, IsRefused}
use knox_proxy.Jit.Repository.Laws.{update_ticket_status_cases, IsKept}
use knox_proxy.Jit.Listing.{
  page_limit, newest_first, matches_owner, select_tickets, run_page, list_tickets_by_email,
}
use knox_proxy.Jit.Numbers.{read_number}
use knox_proxy.Jit.Routes.{serve_api}
use knox_proxy.Jit.Validate.Laws.{validate_iff, IsValidRequest}
use knox_proxy.Jit.Listing.Laws.{list_tickets_by_email_own}
use knox_proxy.Jit.Scheduler.Liveness.{access_starts_and_ends}
use knox_proxy.Jit.Admin.{status_updated, is_admin_target, update_decoded}
use knox_proxy.Jit.Admin.Revocation.{update_decoded-ended}

abbrev pub ticket : Ticket
ticket = record {
  id = bytes "u1";
  ticket_number = bytes "JIT-20260101-0A0B";
  email = bytes "ann@x.org";
  display_name = bytes "Ann";
  team = bytes "a";
  workflow_id = bytes "w1";
  access_type = bytes "run";
  description = bytes "a nightly fix";
  period_start = 100;
  period_end = 200;
  status = requested;
  status_reason = [];
  updated_by = [];
  created_at = 1;
  updated_at = 1;
}

abbrev table : Db
table = record { tickets = ticket ∷ []; faults = [] }

abbrev pub process : Jit
process = record { db = table; timers = []; sent = [] }

-- Each text is its own canonical form.
abbrev pub uuid : Uuid
uuid s = some s

abbrev pub request : CreateTicketRequest
request = record {
  workflow_id = bytes "w1";
  access_type = bytes "run" ∷ [];
  period_start = bytes "1";
  period_end = bytes "2";
  description = bytes "a nightly fix";
}

abbrev pub parse_time : ParseTime
parse_time s = read_number s

abbrev pub api : Api
api = record {
  webhook_url = [];
  max_duration = 1000;
  api_key = [];
  group_prefix = bytes "/team-";
  uuid = uuid;
  parse_time = parse_time;
  decode_create = λ b. some request;
  decode_update = λ b. none;
  query = λ name r. [];
}

abbrev pub ann : RequestUser
ann = record {
  email = bytes "ann@x.org";
  display_name = bytes "Ann";
  groups = bytes "/team-a" ∷ [];
  jit_roles = [];
}

abbrev pub cancel_request : Request
cancel_request = record {
  method = bytes "PATCH";
  host = bytes "knox";
  scheme = [];
  url_host = [];
  path = bytes "/knox-api/tickets/u1/cancel";
  uri = bytes "/knox-api/tickets/u1/cancel";
  header = [];
  body = none;
}

abbrev pub draw : Draw
draw = record { random = some (10 ∷ 11 ∷ []); date = bytes "20260101"; id = bytes "u2"; now = 5 }

no_access_example : IsRefused process (serve_api api draw none cancel_request 5 process)
no_access_example = no_access api draw cancel_request 5 process (inl refl)

update_ticket_status_cases_example :
    IsKept uuid
      (bytes "u1")
      approved
      []
      (bytes "boss")
      5
      (bytes "u1")
      table
      (update_ticket_status uuid (bytes "u1") approved [] (bytes "boss") 5 table).1
update_ticket_status_cases_example =
    update_ticket_status_cases uuid (bytes "u1") approved [] (bytes "boss") 5 table (bytes "u1")

validate_iff_example :
    (validate_create_request parse_time 1000 request ≡ []) ↔ IsValidRequest parse_time 1000 request
validate_iff_example = validate_iff parse_time 1000 request

list_tickets_by_email_own_example :
    All (λ t. t.email ≡ bytes "ann@x.org") (ticket ∷ [])
    × (length (ticket ∷ []) ≤ 100)
    × (length (ticket ∷ []) ≤ 1)
unfolding list_tickets_by_email ◌==◌ bytes run_page select_tickets matches_owner newest_first
    page_limit
list_tickets_by_email_own_example =
    list_tickets_by_email_own (bytes "ann@x.org") [] 50 table (ticket ∷ []) 1 refl

abbrev revoked_ticket : Ticket
revoked_ticket = record ticket { status = revoked }

abbrev pub approved_ticket : Ticket
approved_ticket = record ticket { status = approved }

-- Its access begins at 100.
abbrev pub waiting : Jit
waiting = record {
  db = record { tickets = approved_ticket ∷ []; faults = [] };
  timers = (bytes "u1", record { target_status = active; due = 100 }) ∷ [];
  sent = [];
}

access_starts_and_ends_example :
    let j1 = fire uuid [] (bytes "u1") 101 waiting in
    let j2 = fire uuid [] (bytes "u1") 201 j1 in
    (find_ticket (bytes "u1") j1.db.tickets ≡ some (system_status active 101 approved_ticket))
    × (lookup (bytes "u1") j1.timers ≡ some (timer_for 101 (expired, 200)))
    × (find_ticket (bytes "u1") j2.db.tickets
        ≡ some (system_status expired 201 (system_status active 101 approved_ticket)))
    × (lookup (bytes "u1") j2.timers ≡ none)
unfolding find_ticket ◌==◌ bytes lookup
access_starts_and_ends_example =
    access_starts_and_ends uuid (bytes "u1") refl [] 101 201 approved_ticket waiting
      (record { ready = refl; there = refl }) refl (100, refl, ground arith) (ground arith)
      (ground arith)

-- A ticket whose access ends at 200 unless it is taken back.
abbrev granted : Jit
granted = record {
  db = record { tickets = record ticket { status = active } ∷ []; faults = [] };
  timers = (bytes "u1", record { target_status = expired; due = 200 }) ∷ [];
  sent = [];
}

abbrev pub take_back : UpdateStatusRequest
take_back = record { status = bytes "revoked"; reason = []; updated_by = bytes "boss" }

abbrev taken_back : Ticket
taken_back = with_status revoked [] (bytes "boss") 150 (record ticket { status = active })

update_decoded-ended_example :
    lookup (bytes "u1") (update_decoded api (bytes "u1") take_back 150 granted).1.timers ≡ none
unfolding find_ticket ◌==◌ bytes status_of update_decoded is_admin_target status_updated
    update_ticket_status get_ticket_by_id is_valid_transition update_ticket
update_decoded-ended_example =
    update_decoded-ended api 150 (bytes "u1") take_back granted taken_back (duration taken_back)
      (inl refl) refl
