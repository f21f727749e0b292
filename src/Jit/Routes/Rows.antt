-- ===== src/Jit/Routes/Rows.antt =====
-- What a request to the endpoints of knox-proxy/jit/handler.go makes of each row.
use mathlib.Core.Path.{subst}
use knox_proxy.Base.{
  eq_refl, eq_iff, ◌==◌, not, sym, ◌||◌, ◌∙◌, ap, Bool-cases, Option-cases, bytes, lookup, ◌⊎◌, ◌≡◌,
  Str, Option, ℕ, true, some, inr, inl, refl, [],
}
use knox_proxy.Jit.Handler.{with_db, ticket_created, new_ticket, body_of, Api}
use knox_proxy.Jit.Repository.{
  update_ticket_status, query_fails, generate_ticket_number, found, stored_ticket, select_ticket,
  Db, find_ticket, create_ticket, Draw,
}
use knox_proxy.Context.{RequestUser}
use knox_proxy.Http.{Request}
use knox_proxy.Jit.Ticket.{revoked, rejected, canceled, approved, Status, Ticket}
use knox_proxy.Jit.Admin.{is_admin_target}
use knox_proxy.Jit.Scheduler.{schedule, next_transition, Jit}
use knox_proxy.Jit.Validate.{validate_create_request, CreateTicketRequest}
use knox_proxy.Jit.Routes.Steps.{withdrawal, decided, withdrawn, made, looked, Answered}
use knox_proxy.Jit.Routes.{serve_api}
use knox_proxy.Jit.Routes.Answers.{serve_api-Answered}
use knox_proxy.Jit.Handler.Rows.{ticket_canceled-db, status_updated-db, ticket_created-db}
use knox_proxy.Jit.Repository.Laws.{update_ticket_status_cases}
use knox_proxy.Jit.Schema.{admits}
use knox_proxy.Jit.Scheduler.Laws.{schedule-lookup, fire_webhook-parts}
use knox_proxy.Jit.Handler.Owner.{canceled_by}
use knox_proxy.Jit.Routes.RowKinds.{RowAfter}

module _ (api : Api) (draw : Draw) (now : ℕ) (user : Option RequestUser) (r : Request) where
  admin_target :
      (status : Status)
      → is_admin_target api status ≡ true
      → (status ≡ approved) ⊎ (status ≡ rejected) ⊎ (status ≡ revoked)
  unfolding is_admin_target
  admin_target approved h = inl refl
  admin_target rejected h = inr (inl refl)
  admin_target revoked h = inr (inr refl)
  admin_target _ h = absurd (cc h)

  -- A row behind an INSERT.
  created_row :
      (t : Ticket) (k : Str) (db : Db)
      → let (result, db') = create_ticket t draw db in
        (find_ticket k db'.tickets ≡ find_ticket k db.tickets)
        ⊎ ((number : Str) × (result ≡ some (stored_ticket t number draw))
            × (draw.id ≡ k)
            × (find_ticket k db'.tickets ≡ some (stored_ticket t number draw)))
  unfolding create_ticket find_ticket
  created_row t k db = elim (Option-cases (generate_ticket_number draw.random draw.date)) [
    | inl e ↦ inl (rw (e, create_ticket))
    | inr (number, e) ↦
        let row = stored_ticket t number draw in
        elim (Bool-cases (query_fails db || not (admits db.tickets row))) [
          | inl bad ↦ inl (rw (e, create_ticket, bad))
          | inr good ↦ elim (Bool-cases (draw.id == k)) [
            | inl here ↦
                rw (e, create_ticket, good, here)
                  (inr (number, refl, (eq_iff draw.id k).0 here, refl))
            | inr other ↦ inl (rw (e, create_ticket, good, other))
          ]
        ]
  ]

  module _ (k : Str) (j : Jit) where
    fresh_row :
        (u : RequestUser) (req : CreateTicketRequest) (number : Str) (db : Db)
        → user ≡ some u
        → api.decode_create (body_of r) ≡ some req
        → validate_create_request api.parse_time api.max_duration req ≡ []
        → draw.id ≡ k
        → let t = stored_ticket (new_ticket api u req) number draw in
          find_ticket k db.tickets ≡ some t
          → RowAfter api draw now user r k j (ticket_created api now (some t, db) j).1
    unfolding new_ticket next_transition ticket_created
    fresh_row u req number db asks body valid here row =
        let t = stored_ticket (new_ticket api u req) number draw in
        let j' : Jit = record j { db = db; timers = schedule t now j.timers } in
        let (same_db, same_timers) = fire_webhook-parts api.webhook_url t j' in
        inr (
          inl (record {
            u = u;
            req = req;
            t = t;
            asks = asks;
            body = body;
            valid = valid;
            row = ap (λ (d : Db). find_ticket k d.tickets) same_db ∙ row;
            owner = refl;
            workflow = refl;
            starts = refl;
            ends = refl;
            waits = refl;
            timed =
                ap (lookup k) same_timers
                ∙ schedule-lookup t now j.timers k
                ∙ rw (here, eq_refl k) refl;
          }))

    made_row :
        (u : RequestUser) (req : CreateTicketRequest) (result : Option Ticket) (db : Db)
        → user ≡ some u
        → api.decode_create (body_of r) ≡ some req
        → validate_create_request api.parse_time api.max_duration req ≡ []
        → (find_ticket k db.tickets ≡ find_ticket k j.db.tickets)
          ⊎ ((number : Str) × (result ≡ some (stored_ticket (new_ticket api u req) number draw))
              × (draw.id ≡ k)
              × (find_ticket k db.tickets
                  ≡ some (stored_ticket (new_ticket api u req) number draw)))
        → RowAfter api draw now user r k j (ticket_created api now (result, db) j).1
    made_row u req result db asks body valid (inl same) =
        inl (
          ap (λ (d : Db). find_ticket k d.tickets) (ticket_created-db api now (result, db) j)
          ∙ same)
    made_row u req result db asks body valid (inr (number, stored, here, row)) =
        subst (λ y. RowAfter api draw now user r k j (ticket_created api now (y, db) j).1)
          (sym stored) (fresh_row u req number db asks body valid here row)

    selected_row :
        (id : Str) (t : Ticket)
        → select_ticket api.uuid id j.db ≡ found t
        → (key : Str) × (api.uuid id ≡ some key) × (find_ticket key j.db.tickets ≡ some t)
    unfolding select_ticket
    selected_row id t h = elim (Bool-cases (query_fails j.db)) [
      | inl e ↦ absurd (cc (rw e at h))
      | inr e ↦ elim (Option-cases (api.uuid id)) [
        | inl f ↦ absurd (cc (rw (e, f) at h))
        | inr (key, f) ↦ elim (Option-cases (find_ticket key j.db.tickets)) [
          | inl g ↦ absurd (cc (rw (e, f, g) at h))
          | inr (u, g) ↦
              let same : found u ≡ found t = rw (e, f, g) at h in
              let rows : u ≡ t = cc same in (key, f, g ∙ ap some rows)
        ]
      ]
    ]

    Answered-RowAfter :
        {j' : Jit} → Answered api draw now user r j j' → RowAfter api draw now user r k j j'
    Answered-RowAfter (looked db (same, _)) = inl (ap (find_ticket k) same)
    Answered-RowAfter (made u req asks body valid) =
        let (result, db) = create_ticket (new_ticket api u req) draw j.db in
        made_row u req result db asks body valid (created_row (new_ticket api u req) k j.db)
    Answered-RowAfter (withdrawn u id t db asks row owner waits (same, _)) =
        let done = withdrawal api draw now user r j id u db in
        let after =
          ap (λ (d : Db). find_ticket k d.tickets)
            (ticket_canceled-db api now id done (with_db db j)) in
        let before : find_ticket k db.tickets ≡ find_ticket k j.db.tickets =
          ap (find_ticket k) same in
        let (key, named, there) = selected_row id t row in
        elim (canceled_by api.uuid u.email id key k now t db.tickets (find_ticket k done.1.tickets)
          named (ap (find_ticket key) same ∙ there) owner
          (update_ticket_status_cases api.uuid id canceled (bytes "Canceled by user") u.email now db
            k)) [
              | inl kept ↦ inl (after ∙ kept ∙ before)
              | inr (t', here, (own, waiting), changed) ↦ inr (
                  inr (
                    inl (record {
                      u = u;
                      t = t';
                      asks = asks;
                      row = sym before ∙ here;
                      owner = own;
                      waits = waiting;
                      changed = after ∙ changed;
                    })))
            ]
    Answered-RowAfter (decided id status reason by text body named key set admin) =
        let done = update_ticket_status api.uuid id status reason by now j.db in
        let after =
          ap (λ (db : Db). find_ticket k db.tickets) (status_updated-db api now status done j) in
        elim (update_ticket_status_cases api.uuid id status reason by now j.db k) [
          | inl same ↦ inl (after ∙ same)
          | inr (t, row, (allowed, _), changed) ↦ inr (
              inr (
                inr (record {
                  t = t;
                  req = record { status = text; reason = reason; updated_by = by };
                  status = status;
                  body = body;
                  named = named;
                  key = key;
                  set = set;
                  target = admin_target status admin;
                  allowed = allowed;
                  row = row;
                  changed = after ∙ changed;
                })))
        ]

    -- Whatever the endpoint and whichever queries fail, a request to the API leaves each row as it was;
    -- or the row is a new ticket of its user, of a valid body, that waits for a decision and has the
    -- timer of its end; or the row was a requested ticket of its user and is canceled; or the request
    -- has the key of the admin API, which is not "", and the row gets the status that its body names,
    -- which is approved, rejected or revoked and which its status may become. Nothing but the status, the
    -- reason, the author and the time of update of a row changes.
    pub serve_api-RowAfter : RowAfter api draw now user r k j (serve_api api draw user r now j).1
    serve_api-RowAfter = Answered-RowAfter (serve_api-Answered api draw now user r j)
