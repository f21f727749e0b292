-- ===== src/Jit/Repository/Table.antt =====
-- The rows keep the types of their columns under the queries of knox-proxy/jit/repository.go.
use knox_proxy.Base.{
  Option, ◌≡◌, Bool-cases, Option-cases, ℕ, Str, true, none, some, inr, inl, refl,
}
use knox_proxy.Jit.Repository.{
  missing, query_failed, system_status, same_status, stored_ticket, find_ticket, or_text,
  system_update_status, system_update_row, query_fails, found, after_query, with_status,
  generate_ticket_number, select_ticket, write_status, get_ticket_by_id, Found,
  update_ticket_status, check_transition, Db, Draw, Uuid, create_ticket,
}
use knox_proxy.Jit.Ticket.{is_valid_transition, status_text, Status, Ticket}
use knox_proxy.Jit.Schema.Table.{
  system_fits, varchar-valid, written-row_fits, update-IsTable, IsTable,
}
use knox_proxy.Jit.Schema.{admits, varchar}

pub create_ticket-IsTable :
    (t : Ticket) (draw : Draw) (db : Db)
    → IsTable db.tickets
    → IsTable (create_ticket t draw db).1.tickets
unfolding create_ticket
create_ticket-IsTable t draw db h =
    elim (Option-cases (generate_ticket_number draw.random draw.date)) [
      | inl e ↦ rw (e, create_ticket) h
      | inr (number, e) ↦ elim (Bool-cases (query_fails db)) [
        | inl f ↦ rw (e, create_ticket, f) h
        | inr f ↦ elim (Bool-cases (admits db.tickets (stored_ticket t number draw))) [
          | inr g ↦ rw (e, create_ticket, f, g) h
          | inl g ↦ rw (e, create_ticket, f, g) (g, h)
        ]
      ]
    ]

module _ (uuid : Uuid) (id : Str) (status : Status) (reason by : Str) (now : ℕ) (db : Db)
    (h : IsTable db.tickets) where
  -- The row is written only if the author's name fits.
  write_status-IsTable :
      (key : Str)
      → varchar 20 (status_text status) ≡ true
      → IsTable
          (write_status uuid id key
            (varchar 255 by)
            (with_status status reason by now)
            db).1.tickets
  unfolding write_status get_ticket_by_id
  write_status-IsTable key fits = elim (Bool-cases (query_fails db)) [
    | inl e ↦ rw e h
    | inr e ↦ elim (Bool-cases (varchar 255 by)) [
      | inr long ↦ rw (e, long) h
      | inl short ↦
          rw (e, short)
            (update-IsTable key (with_status status reason by now) (λ _. refl) (λ _. refl)
              (λ t fit.
                written-row_fits t (with_status status reason by now t) refl refl refl refl refl
                  refl fits short fit)
              db.tickets h)
    ]
  ]

module _ (uuid : Uuid) (id : Str) (status : Status) (reason by : Str) (now : ℕ) where
  check_transition-IsTable :
      (row : Found) (db : Db)
      → IsTable db.tickets
      → IsTable
          (check_transition uuid id status
            (varchar 255 by)
            (with_status status reason by now)
            (row, db)).1.tickets
  unfolding check_transition
  check_transition-IsTable query_failed db h = h
  check_transition-IsTable missing db h = h
  check_transition-IsTable (found t) db h =
      elim (Bool-cases (is_valid_transition t.status status)) [
        | inr e ↦ rw e h
        | inl e ↦ rw e (
            write_status-IsTable uuid id status reason by now db h (or_text (uuid id) id)
              (varchar-valid t.status status e))
      ]

  pub update_ticket_status-IsTable :
      (db : Db)
      → IsTable db.tickets
      → IsTable (update_ticket_status uuid id status reason by now db).1.tickets
  unfolding update_ticket_status get_ticket_by_id
  update_ticket_status-IsTable db h =
      check_transition-IsTable (select_ticket uuid id db) (after_query db) h

module _ (uuid : Uuid) (status : Status) (now : ℕ) (db : Db) (h : IsTable db.tickets)
    (fits : varchar 20 (status_text status) ≡ true) where
  system_update_row-IsTable :
      (key : Str) (row : Option Ticket)
      → IsTable (system_update_row uuid key status now db row).1.tickets
  unfolding system_update_row get_ticket_by_id
  system_update_row-IsTable key none = h
  system_update_row-IsTable key (some t) = elim (Bool-cases (same_status t.status status)) [
    | inl e ↦ rw e h
    | inr e ↦ rw e (
        update-IsTable key (system_status status now) (λ _. refl) (λ _. refl)
          (λ u fit.
            written-row_fits u (system_status status now u) refl refl refl refl refl refl fits
              system_fits fit)
          db.tickets h)
  ]

  pub system_update_status-IsTable :
      (id : Str) → IsTable (system_update_status uuid id status now db).1.tickets
  unfolding system_update_status
  system_update_status-IsTable id = elim (Bool-cases (query_fails db)) [
    | inl e ↦ rw e h
    | inr e ↦ elim (Option-cases (uuid id)) [
      | inl f ↦ rw (e, f, system_update_status) h
      | inr (key, f) ↦
          rw (e, f, system_update_status)
            (system_update_row-IsTable key (find_ticket key db.tickets))
    ]
  ]
