-- ===== src/Jit/Handler/Columns.antt =====
-- Which new tickets the table takes (handleRequestJIT of knox-proxy/jit/handler.go, the columns of
-- knox-proxy/jit/db.go).
use knox_proxy.Base.{
  eq_refl, lookup, Bool-cases, Option, Option-cases, List, ◌+◌, ◌≤◌, ℕ, suc, ap, ◌*◌, ◌++◌, ◌≡◌,
  bytes, length, Str, to_upper, false, true, none, some, inr, inl, refl, ◌∷◌, [], arith,
}
use knox_proxy.Jit.Ticket.{expired, status_text, Ticket, requested}
use knox_proxy.Session.{hex_encode}
use knox_proxy.Jit.Schema.{
  number_column, id_column, is_taken, admits, row_fits, characters, varchar,
}
use knox_proxy.Jit.Handler.{ticket_reply, new_ticket, ticket_created, create_validated, Api}
use knox_proxy.Context.{resolve_team, RequestUser}
use knox_proxy.Jit.Validate.{access_type_text, validate_create_request, CreateTicketRequest}
use knox_proxy.Jit.Repository.{
  find_ticket, query_fails, Db, generate_ticket_number, stored_ticket, create_ticket, Draw,
}
use knox_proxy.Jit.Validate.Access.{access_type_text-size, characters-le, characters-append}
use knox_proxy.Jit.Scheduler.{schedule, timer_for, next_transition, Jit}
use knox_proxy.Jit.Validate.Laws.{validate_iff}
use knox_proxy.Jit.Schema.Table.{admit, admitted}
use knox_proxy.Jit.Repository.Quiet.{quiet}
use knox_proxy.Jit.Scheduler.Laws.{schedule-lookup, fire_webhook-parts}

length-hex_encode : (s : Str) → length (hex_encode s) ≡ 2 * length s
unfolding hex_encode
length-hex_encode [] = refl
length-hex_encode (c ∷ s) = omega (arith, length-hex_encode s)

length-to_upper : (s : Str) → length (to_upper s) ≡ length s
unfolding to_upper
length-to_upper [] = refl
length-to_upper (c ∷ s) = ap suc (length-to_upper s)

-- JIT-YYYYMMDD-XXXX
abbrev pub number_of : Str → Str → Str
number_of random date = bytes "JIT-" ++ (date ++ (bytes "-" ++ to_upper (hex_encode random)))

number_short :
    (random date : Str)
    → length random ≡ 2
    → characters date ≡ 8
    → varchar 20 (number_of random date) ≡ true
unfolding varchar
number_short random date two eight =
    let digits = to_upper (hex_encode random) in
    let e1 = characters-append (bytes "JIT-") (date ++ (bytes "-" ++ digits)) in
    let e2 = characters-append date (bytes "-" ++ digits) in
    let e3 = characters-append (bytes "-") digits in
    let jit : characters (bytes "JIT-") ≡ 4 = unfold characters bytes in refl in
    let dash : characters (bytes "-") ≡ 1 = unfold characters bytes in refl in
    ground (
      arith,
      e1,
      e2,
      e3,
      jit,
      dash,
      eight,
      two,
      characters-le digits,
      length-to_upper (hex_encode random),
      length-hex_encode random,
    )

module _ (api : Api) (u : RequestUser) (req : CreateTicketRequest) (draw : Draw) (now : ℕ) (j : Jit)
    (valid : validate_create_request api.parse_time api.max_duration req ≡ []) where
  types_size :
      (4 * length req.access_type ≤ characters (access_type_text req.access_type) + 1)
      × (characters (access_type_text req.access_type) + 1 ≤ 5 * length req.access_type)
  types_size =
      let v = (validate_iff api.parse_time api.max_duration req).0 valid in
      access_type_text-size req.access_type v.each_access v.some_access

  created_first :
      create_validated api u req draw now j
      ≡ ticket_created api now (create_ticket (new_ticket api u req) draw j.db) j
  unfolding create_validated
  created_first = rw (valid, create_validated) refl

  -- The text of six or more access types is too long for its column.
  types_long :
      (number : Str)
      → 6 ≤ length req.access_type
      → row_fits (stored_ticket (new_ticket api u req) number draw) ≡ false
  unfolding row_fits varchar new_ticket
  types_long number many = ground (arith, many, types_size)

  not_admitted :
      (number : Str) (ts : List Ticket)
      → row_fits (stored_ticket (new_ticket api u req) number draw) ≡ false
      → admits ts (stored_ticket (new_ticket api u req) number draw) ≡ false
  not_admitted number ts long =
      let row = stored_ticket (new_ticket api u req) number draw in
      elim (Bool-cases (admits ts row)) [
        | inl e ↦ absurd (cc (long, (admitted row ts e).0))
        | inr e ↦ e
      ]

  none_made :
      6 ≤ length req.access_type
      → let (row, db) = create_ticket (new_ticket api u req) draw j.db in
        (row ≡ none) × (db.tickets ≡ j.db.tickets)
  unfolding create_ticket
  none_made many = elim (Option-cases (generate_ticket_number draw.random draw.date)) [
    | inl e ↦ rw (e, create_ticket) (refl, refl)
    | inr (number, e) ↦ elim (Bool-cases (query_fails j.db)) [
      | inl f ↦ rw (e, create_ticket, f) (refl, refl)
      | inr f ↦
          rw (e, create_ticket, f, not_admitted number j.db.tickets (types_long number many))
            (refl, refl)
    ]
  ]

  internal_error :
      (row : Option Ticket) (db : Db)
      → (row ≡ none) × (db.tickets ≡ j.db.tickets)
      → let (answer, j') = ticket_created api now (row, db) j in
        (answer.status ≡ 500) × (j'.db.tickets ≡ j.db.tickets) × (j'.timers ≡ j.timers)
  unfolding ticket_created
  internal_error none db (_, same) = (refl, same, refl)
  internal_error (some t) db (gone, _) = absurd (cc gone)

  -- A request that the checks find valid, with six or more access types, as "run" and "edit" may be
  -- repeated, is answered by 500, and changes neither the rows nor the timers: their text does not fit its
  -- column.
  pub too_many_types :
      6 ≤ length req.access_type
      → let (answer, j') = create_validated api u req draw now j in
        (answer.status ≡ 500) × (j'.db.tickets ≡ j.db.tickets) × (j'.timers ≡ j.timers)
  too_many_types many =
      let (row, db) = create_ticket (new_ticket api u req) draw j.db in
      rw created_first (internal_error row db (none_made many))

  -- The names fit their columns.
  pub record IsNamed : Type 0 where
    pub email : varchar 255 u.email ≡ true
    pub display_name : varchar 255 u.display_name ≡ true
    pub team : varchar 100 (resolve_team u.groups api.group_prefix) ≡ true
    pub workflow : varchar 100 req.workflow_id ≡ true

  module _ (random : Str) (drawn : draw.random ≡ some random) (two : length random ≡ 2)
      (eight : characters draw.date ≡ 8) (few : length req.access_type ≤ 4) (named : IsNamed) where
    abbrev new_row : Ticket
    new_row = stored_ticket (new_ticket api u req) (number_of random draw.date) draw

    new_row_fits : row_fits new_row ≡ true
    unfolding row_fits new_ticket
    new_row_fits =
        let number = number_short random draw.date two eight in
        let waits : varchar 20 (status_text requested) ≡ true =
          unfold varchar characters status_text bytes in refl in
        let author : varchar 255 [] ≡ true = unfold varchar characters in refl in
        let types : varchar 20 (access_type_text req.access_type) ≡ true =
          unfold varchar in ground (arith, few, types_size) in
        rw
          (
            number, named.email, named.display_name, named.team, named.workflow, types, waits,
            author,
          )
          refl

    row_made :
        j.db.faults ≡ []
        → is_taken id_column draw.id j.db.tickets ≡ false
        → is_taken number_column (number_of random draw.date) j.db.tickets ≡ false
        → create_ticket (new_ticket api u req) draw j.db
          ≡ (some new_row, quiet (new_row ∷ j.db.tickets))
    unfolding create_ticket
    row_made ready new_id new_number =
        let number : generate_ticket_number draw.random draw.date
            ≡ some (number_of random draw.date) =
          unfold generate_ticket_number in rw drawn refl in
        let fine : query_fails j.db ≡ false = rw ready refl in
        let taken : admits j.db.tickets new_row ≡ true =
          admit new_row j.db.tickets new_row_fits new_id new_number in
        rw (number, create_ticket, fine, taken) (rw ready refl)

    -- If no query fails, a request that the checks find valid makes a ticket: the answer is 201 with the
    -- ticket, which is in the table, requested, and has the timer of its end. The request has at most four
    -- access types, the user's names, the team and the workflow fit their columns, the ticket's number
    -- is made of two random bytes and a date of eight characters, and neither its ID nor its number is
    -- in the table.
    pub ticket_made :
        j.db.faults ≡ []
        → is_taken id_column draw.id j.db.tickets ≡ false
        → is_taken number_column (number_of random draw.date) j.db.tickets ≡ false
        → let (answer, j') = create_validated api u req draw now j in
          (answer ≡ ticket_reply 201 new_row)
          × (find_ticket draw.id j'.db.tickets ≡ some new_row)
          × (lookup draw.id j'.timers ≡ some (timer_for now (expired, new_row.period_end)))
    unfolding ticket_created find_ticket next_transition
    ticket_made ready new_id new_number =
        let made = row_made ready new_id new_number in
        let j' : Jit = record j {
          db = quiet (new_row ∷ j.db.tickets);
          timers = schedule new_row now j.timers;
        } in
        let (same_db, same_timers) = fire_webhook-parts api.webhook_url new_row j' in
        rw
          (
            created_first,
            made,
            same_db,
            same_timers,
            schedule-lookup new_row now j.timers draw.id,
            eq_refl draw.id,
          )
          (refl, refl, refl)
