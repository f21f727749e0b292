-- ===== src/Jit/Repository/Quiet.antt =====
-- The updates of a status in knox-proxy/jit/repository.go while no query fails.
use knox_proxy.Base.{
  none, false, ◌∙◌, Bool-cases, eq_refl, Option-cases, ◌⊎◌, ℕ, ◌≡◌, Str, List, true, some, inr, inl,
  refl, [],
}
use knox_proxy.Jit.Schema.{varchar}
use knox_proxy.Jit.Repository.{
  query_fails, same_status, system_status, system_update_row, system_update_status, update_failed,
  after_query, invalid_transition, not_found, read_failed, update_ticket, select_ticket, updated,
  get_ticket_by_id, write_status, refused, check_transition, find_ticket, UpdateError,
  update_ticket_status, with_status, Updated, Db, Uuid,
}
use knox_proxy.Jit.Ticket.{is_valid_transition, Status, Ticket}
use knox_proxy.Jit.Repository.Laws.{checked_first, found_first, find-update}

-- A text that a UUID is printed as is read as that UUID.
abbrev pub IsCanonical : Uuid → Type 0
IsCanonical uuid = (id key : Str) → uuid id ≡ some key → uuid key ≡ some key

abbrev pub quiet : List Ticket → Db
quiet ts = record { tickets = ts; faults = [] }

module _ (uuid : Uuid) (id : Str) (status : Status) (reason by : Str) (now : ℕ) (db : Db) where
  -- An update that is refused, and changes nothing.
  abbrev pub IsRefusal : Updated × Db → Type 0
  IsRefusal result = (e : UpdateError) × (result ≡ (refused e, quiet db.tickets))

  -- An update of the row that the ID names, by a valid transition.
  abbrev pub IsWrite : Updated × Db → Type 0
  IsWrite result =
      (key : Str) × (t : Ticket) × (uuid id ≡ some key)
      × (find_ticket key db.tickets ≡ some t)
      × (is_valid_transition t.status status ≡ true)
      × (result ≡ (
        updated (some (with_status status reason by now t)),
        quiet (update_ticket key (with_status status reason by now) db.tickets),
      ))

  abbrev new_row : Ticket → Ticket
  new_row = with_status status reason by now

  pub quiet_write :
      (key : Str) (t : Ticket)
      → db.faults ≡ []
      → uuid id ≡ some key
      → find_ticket key db.tickets ≡ some t
      → is_valid_transition t.status status ≡ true
      → varchar 255 by ≡ true
      → update_ticket_status uuid id status reason by now db
        ≡ (updated (some (new_row t)), quiet (update_ticket key new_row db.tickets))
  unfolding write_status get_ticket_by_id select_ticket
  quiet_write key t ready u h valid short =
      let there : find_ticket key (update_ticket key new_row db.tickets) ≡ some (new_row t) =
        rw (find-update key key new_row db.tickets (λ _. refl), eq_refl key, h) in
      found_first uuid id status reason by now key t db (rw ready refl) u h
      ∙ checked_first uuid id status reason by now key t (after_query db) u valid
      ∙ rw (ready, short, u, there) refl

  too_long :
      (key : Str) (t : Ticket)
      → db.faults ≡ []
      → uuid id ≡ some key
      → find_ticket key db.tickets ≡ some t
      → is_valid_transition t.status status ≡ true
      → varchar 255 by ≡ false
      → update_ticket_status uuid id status reason by now db
        ≡ (refused update_failed, quiet db.tickets)
  unfolding write_status
  too_long key t ready u h valid long =
      found_first uuid id status reason by now key t db (rw ready refl) u h
      ∙ checked_first uuid id status reason by now key t (after_query db) u valid
      ∙ rw (ready, long) refl

  pub quiet_update :
      db.faults ≡ []
      → IsRefusal (update_ticket_status uuid id status reason by now db)
        ⊎ IsWrite (update_ticket_status uuid id status reason by now db)
  unfolding update_ticket_status check_transition get_ticket_by_id select_ticket
  quiet_update ready = elim (Option-cases (uuid id)) [
    | inl e ↦ inl (read_failed, rw (ready, e) refl)
    | inr (key, u) ↦ elim (Option-cases (find_ticket key db.tickets)) [
      | inl gone ↦ inl (not_found, rw (ready, u, gone) refl)
      | inr (t, h) ↦ elim (Bool-cases (is_valid_transition t.status status)) [
        | inl valid ↦ elim (Bool-cases (varchar 255 by)) [
          | inl short ↦ inr (key, t, u, h, valid, quiet_write key t ready u h valid short)
          | inr long ↦ inl (update_failed, too_long key t ready u h valid long)
        ]
        | inr invalid ↦ inl (invalid_transition t.status status, rw (ready, u, h, invalid) refl)
      ]
    ]
  ]

-- A timer changes nothing, or writes the row that its ID names.
pub quiet_system_update :
    (uuid : Uuid) (canonical : IsCanonical uuid) (id : Str) (status : Status) (now : ℕ) (db : Db)
    → db.faults ≡ []
    → (system_update_status uuid id status now db ≡ (none, after_query db))
      ⊎ ((key : Str) × (t : Ticket) × (find_ticket key db.tickets ≡ some t)
          × (system_update_status uuid id status now db ≡ (
            some (system_status status now t),
            quiet (update_ticket key (system_status status now) db.tickets),
          )))
unfolding system_update_status system_update_row get_ticket_by_id select_ticket
quiet_system_update uuid canonical id status now db ready =
    let fine : query_fails db ≡ false = rw ready refl in
    elim (Option-cases (uuid id)) [
      | inl e ↦ inl (rw (fine, e) refl)
      | inr (key, u) ↦ elim (Option-cases (find_ticket key db.tickets)) [
        | inl gone ↦ inl (rw (fine, u, gone) refl)
        | inr (t, h) ↦ elim (Bool-cases (same_status t.status status)) [
          | inl same ↦ inl (rw (fine, u, h, same) refl)
          | inr differs ↦
              let there : find_ticket key (update_ticket key (system_status status now) db.tickets)
                  ≡ some (system_status status now t) =
                rw
                  (
                    find-update key key (system_status status now) db.tickets (λ _. refl),
                    eq_refl key,
                    h,
                  )
                  refl in
              inr (key, t, h, rw (ready, u, h, differs, canonical id key u, there, ready) refl)
        ]
      ]
    ]
