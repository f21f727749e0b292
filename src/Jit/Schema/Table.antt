-- ===== src/Jit/Schema/Table.antt =====
-- Tables whose rows have the types that migrationSQL declares (knox-proxy/jit/db.go).
use knox_proxy.Base.{
  ◌==◌, arith, Bool-cases, bytes, ◌≡◌, Str, List, false, true, inr, inl, refl, ◌∷◌, [],
}
use knox_proxy.Jit.Schema.{
  number_column, id_column, characters, is_taken, admits, varchar, row_fits,
}
use knox_proxy.Jit.Ticket.{Status, status_text, Ticket, is_valid_transition}
use knox_proxy.Jit.Repository.{update_ticket}

-- Each row was admitted by those below it.
abbrev pub IsTable : List Ticket → Type 0
IsTable [] = Unit
IsTable (t ∷ ts) = (admits ts t ≡ true) × IsTable ts

pub admitted :
    (t : Ticket) (ts : List Ticket)
    → admits ts t ≡ true
    → (row_fits t ≡ true)
      × (is_taken id_column t.id ts ≡ false)
      × (is_taken number_column t.ticket_number ts ≡ false)
unfolding admits
admitted t ts h = (ground (arith, h), ground (arith, h), ground (arith, h))

pub admit :
    (t : Ticket) (ts : List Ticket)
    → row_fits t ≡ true
    → is_taken id_column t.id ts ≡ false
    → is_taken number_column t.ticket_number ts ≡ false
    → admits ts t ≡ true
unfolding admits
admit t ts fit new_id new_number = ground (arith, fit, new_id, new_number)

module _ (key : Str) (f : Ticket → Ticket) where
  is_taken-update :
      (column : Ticket → Str) (value : Str) (ts : List Ticket)
      → ((t : Ticket) → column (f t) ≡ column t)
      → is_taken column value (update_ticket key f ts) ≡ is_taken column value ts
  unfolding is_taken update_ticket
  is_taken-update column value [] same = refl
  is_taken-update column value (t ∷ ts) same = elim (Bool-cases (t.id == key)) [
    | inl e ↦ rw (e, same t, is_taken-update column value ts same)
    | inr e ↦ rw (e, is_taken-update column value ts same)
  ]

  module _ (same_id : (t : Ticket) → (f t).id ≡ t.id)
      (same_number : (t : Ticket) → (f t).ticket_number ≡ t.ticket_number)
      (fits : (t : Ticket) → row_fits t ≡ true → row_fits (f t) ≡ true) where
    admits-update :
        (t : Ticket) (ts : List Ticket)
        → admits ts t ≡ true
        → (admits (update_ticket key f ts) t ≡ true)
          × (admits (update_ticket key f ts) (f t) ≡ true)
    admits-update t ts h =
        let ids = is_taken-update id_column t.id ts same_id in
        let numbers = is_taken-update number_column t.ticket_number ts same_number in
        let (fit, new_id, new_number) = admitted t ts h in
        (
          admit t (update_ticket key f ts) fit (rw ids new_id) (rw numbers new_number),
          admit (f t) (update_ticket key f ts) (fits t fit) (rw (same_id t, ids) new_id)
              (rw (same_number t, numbers) new_number),
        )

    pub update-IsTable : (ts : List Ticket) → IsTable ts → IsTable (update_ticket key f ts)
    unfolding update_ticket
    update-IsTable [] h = h
    update-IsTable (t ∷ ts) (admitted, h) = elim (Bool-cases (t.id == key)) [
      | inl e ↦ rw e ((admits-update t ts admitted).1, update-IsTable ts h)
      | inr e ↦ rw e ((admits-update t ts admitted).0, update-IsTable ts h)
    ]

-- A new status and a new author.
pub written-row_fits :
    (t u : Ticket)
    → u.ticket_number ≡ t.ticket_number
    → u.email ≡ t.email
    → u.display_name ≡ t.display_name
    → u.team ≡ t.team
    → u.workflow_id ≡ t.workflow_id
    → u.access_type ≡ t.access_type
    → varchar 20 (status_text u.status) ≡ true
    → varchar 255 u.updated_by ≡ true
    → row_fits t ≡ true
    → row_fits u ≡ true
unfolding row_fits
written-row_fits t u number email name team workflow access status author h =
    rw (number, email, name, team, workflow, access, status, author) (ground (arith, h))

pub varchar-valid :
    (s s' : Status) → is_valid_transition s s' ≡ true → varchar 20 (status_text s') ≡ true
unfolding is_valid_transition varchar characters bytes status_text
varchar-valid s s' h = ground (arith, h)

pub system_fits : varchar 255 (bytes "system") ≡ true
unfolding varchar characters bytes
system_fits = refl
