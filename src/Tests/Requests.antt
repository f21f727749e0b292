-- ===== src/Tests/Requests.antt =====
-- Requests to the API at concrete inputs (knox-proxy/jit).
use knox_proxy.Base.{
  none, trim_prefix, has_prefix, trim_space, lookup, to_upper, ◌==◌, ◌≡◌, bytes, false, true, some,
  refl, ◌∷◌, [], arith,
}
use knox_proxy.Tests.Tickets.{
  api, ann, request, draw, process, cancel_request, take_back, approved_ticket, waiting,
}
use knox_proxy.Jit.Ticket.{
  active, duration_between, is_valid_transition, status_of, Ticket, expired, revoked,
}
use knox_proxy.Jit.Handler.Columns.{number_of, too_many_types, ticket_made}
use knox_proxy.Jit.Admin.Race.{finished, revocation_overtaken}
use knox_proxy.Jit.Admin.Unread.{decided_unread}
use knox_proxy.Jit.Validate.{validate_create_request, CreateTicketRequest}
use knox_proxy.Jit.Handler.{ticket_reply, new_ticket, create_validated}
use knox_proxy.Jit.Schema.{is_taken, varchar, characters}
use knox_proxy.Jit.Scheduler.{timer_for, Jit}
use knox_proxy.Jit.Repository.{system_status, Draw, with_status, stored_ticket, find_ticket}
use knox_proxy.Jit.Routes.{serve_api}
use knox_proxy.Jit.Routes.Rows.{serve_api-RowAfter}
use knox_proxy.Jit.Routes.RowKinds.{RowAfter}
use knox_proxy.Jit.Numbers.{read_digits, read_number}
use knox_proxy.Session.{hex_encode}
use knox_proxy.Jit.Admin.{update_decoded, is_admin_target}
use knox_proxy.Context.{resolve_team}
use knox_proxy.Policy.Engine.{matches_path_id}

serve_api-RowAfter_example :
    RowAfter api draw 5
      (some ann)
      cancel_request
      (bytes "u1")
      process
      (serve_api api draw (some ann) cancel_request 5 process).1
serve_api-RowAfter_example =
    serve_api-RowAfter api draw 5 (some ann) cancel_request (bytes "u1") process

-- "run" six times.
abbrev six_types : CreateTicketRequest
six_types = record request {
  access_type =
      bytes "run" ∷ bytes "run" ∷ bytes "run" ∷ bytes "run" ∷ bytes "run" ∷ bytes "run" ∷ [];
}

six_types_valid : validate_create_request api.parse_time api.max_duration six_types ≡ []
unfolding validate_create_request bytes ◌==◌ read_number matches_path_id read_digits
    duration_between trim_space
six_types_valid = refl

too_many_types_example :
    let (answer, j') = create_validated api ann six_types draw 5 process in
    (answer.status ≡ 500) × (j'.db.tickets ≡ process.db.tickets) × (j'.timers ≡ process.timers)
too_many_types_example =
    too_many_types api ann six_types draw 5 process six_types_valid (omega arith)

one_type_valid : validate_create_request api.parse_time api.max_duration request ≡ []
unfolding validate_create_request bytes ◌==◌ read_number matches_path_id read_digits
    duration_between trim_space
one_type_valid = refl

abbrev new_draw : Draw
new_draw = record draw { random = some (12 ∷ 13 ∷ []) }

abbrev made_row : Ticket
made_row =
    stored_ticket (new_ticket api ann request) (number_of (12 ∷ 13 ∷ []) (bytes "20260101"))
      new_draw

ticket_made_example :
    let (answer, j') = create_validated api ann request new_draw 5 process in
    (answer ≡ ticket_reply 201 made_row)
    × (find_ticket (bytes "u2") j'.db.tickets ≡ some made_row)
    × (lookup (bytes "u2") j'.timers ≡ some (timer_for 5 (expired, made_row.period_end)))
unfolding characters bytes varchar is_taken ◌==◌ hex_encode to_upper resolve_team has_prefix
    trim_prefix
ticket_made_example =
    ticket_made api ann request new_draw 5 process one_type_valid (12 ∷ 13 ∷ []) refl refl refl
      (omega arith) (record { email = refl; display_name = refl; team = refl; workflow = refl })
      refl refl refl

-- The row is written, and cannot be read again.
abbrev unread : Jit
unread = record waiting {
  db = record { tickets = approved_ticket ∷ []; faults = false ∷ false ∷ true ∷ [] };
}

decided_unread_example :
    let (answer, j') = update_decoded api (bytes "u1") take_back 50 unread in
    (answer.status ≡ 400)
    × (find_ticket (bytes "u1") j'.db.tickets
        ≡ some (with_status revoked [] (bytes "boss") 50 approved_ticket))
    × (j'.timers ≡ unread.timers)
    × (j'.sent ≡ unread.sent)
unfolding find_ticket ◌==◌ bytes status_of is_valid_transition varchar is_admin_target
decided_unread_example =
    decided_unread api (bytes "u1") (bytes "u1") take_back approved_ticket 50 unread [] refl refl
      refl refl refl refl

revocation_overtaken_example :
    let (answer, j') =
      finished api (bytes "u1") [] (bytes "boss") 100 101 102 approved_ticket waiting in
    (answer ≡ ticket_reply 200 (with_status revoked [] (bytes "boss") 100 approved_ticket))
    × (find_ticket (bytes "u1") j'.db.tickets
        ≡ some
            (system_status active 101 (with_status revoked [] (bytes "boss") 100 approved_ticket)))
    × (lookup (bytes "u1") j'.timers ≡ none)
unfolding find_ticket ◌==◌ bytes lookup varchar characters
revocation_overtaken_example =
    revocation_overtaken api (bytes "u1") [] (bytes "boss") 100 101 102 approved_ticket waiting refl
      refl refl refl refl (100, refl, ground arith)
