-- ===== src/Jit/Repository/Laws.antt =====
-- What an update of a status does to the rows (UpdateTicketStatus and systemUpdateStatus of
-- knox-proxy/jit/repository.go).
use mathlib.Core.Option
use mathlib.Core.Path.{subst}
use knox_proxy.Base.{
  Bool, ◌∙◌, sym, ap, eq_refl, eq_iff, arith, Option-cases, Bool-cases, ◌==◌, ◌⊎◌, if◌then◌else◌, ℕ,
  ◌≡◌, List, Str, Option, false, true, some, inr, inl, refl, ◌∷◌, [],
}
use knox_proxy.Jit.Repository.{
  or_text, updated, query_fails, select_ticket, after_query, found, get_ticket_by_id,
  update_ticket_status, check_transition, write_status, Db, with_status, update_ticket, Uuid,
  find_ticket,
}
use knox_proxy.Jit.Ticket.{is_valid_transition, Status, Ticket}
use knox_proxy.Jit.Schema.{varchar}

pub find-update :
    (key k : Str) (f : Ticket → Ticket) (ts : List Ticket)
    → ((t : Ticket) → (f t).id ≡ t.id)
    → find_ticket k (update_ticket key f ts)
      ≡ (if key == k then Option.map f (find_ticket k ts) else find_ticket k ts)
unfolding find_ticket update_ticket
find-update key k f [] same = ground arith
find-update key k f (t ∷ ts) same = ground (
  arith,
  eq_iff key k,
  eq_iff t.id k,
  eq_iff t.id key,
  eq_iff (f t).id k,
  same t,
  find-update key k f ts same,
)

pub find_ticket-id :
    (k : Str) (t : Ticket) (ts : List Ticket) → find_ticket k ts ≡ some t → t.id ≡ k
unfolding find_ticket
find_ticket-id k t [] h = cc h
find_ticket-id k t (u ∷ us) h = elim (Bool-cases (u.id == k)) [
  | inl e ↦ let same : u ≡ t = ground (arith, e, h) in rw (← same) ((eq_iff u.id k).0 e)
  | inr e ↦ find_ticket-id k t us (ground (arith, e, h))
]

-- A row is as it was, or it is one of those in P, changed by f.
abbrev pub IsKeptOr : (Ticket → Type 0) → (Ticket → Ticket) → Option Ticket → Option Ticket → Type 0
IsKeptOr P f before after =
    (after ≡ before) ⊎ ((t : Ticket) × (before ≡ some t) × P t × (after ≡ some (f t)))

pub row_updated :
    (P : Ticket → Type 0) (f : Ticket → Ticket) (key k : Str) (t : Ticket) (ts : List Ticket)
    → ((t : Ticket) → (f t).id ≡ t.id)
    → find_ticket key ts ≡ some t
    → P t
    → IsKeptOr P f (find_ticket k ts) (find_ticket k (update_ticket key f ts))
row_updated P f key k t ts same h p = elim (Bool-cases (key == k)) [
  | inl e ↦
      let eq = (eq_iff key k).0 e in
      let here : find_ticket k ts ≡ some t = rw (← eq) h in
      inr (t, here, p, rw (find-update key k f ts same, e, here))
  | inr e ↦ inl (rw (find-update key k f ts same, e))
]

module _ (uuid : Uuid) (id : Str) (status : Status) (reason by : Str) (now : ℕ) where
  abbrev pub new_row : Ticket → Ticket
  new_row = with_status status reason by now

  -- The row that the text of the ID names, in a status that may become the new one.
  abbrev pub IsTarget : Ticket → Type 0
  IsTarget t = (is_valid_transition t.status status ≡ true) × (uuid id ≡ some t.id)

  abbrev pub IsKept : Str → Db → Db → Type 0
  IsKept k db db' = IsKeptOr IsTarget new_row (find_ticket k db.tickets) (find_ticket k db'.tickets)

  abbrev author_fits : Bool
  author_fits = varchar 255 by

  written :
      (key k : Str) (t : Ticket) (db : Db)
      → find_ticket key db.tickets ≡ some t
      → uuid id ≡ some key
      → is_valid_transition t.status status ≡ true
      → IsKept k db (write_status uuid id key author_fits new_row db).1
  unfolding write_status get_ticket_by_id
  written key k t db h u p = elim (Bool-cases (query_fails db)) [
    | inl e ↦ inl (rw e)
    | inr e ↦ elim (Bool-cases author_fits) [
      | inr long ↦ inl (rw (e, long))
      | inl short ↦
          rw (e, short)
            (row_updated IsTarget new_row key k t db.tickets (λ _. refl) h
              (p, rw (find_ticket-id key t db.tickets h) u))
    ]
  ]

  selected :
      (key : Str) (t : Ticket) (db : Db)
      → query_fails db ≡ false
      → uuid id ≡ some key
      → find_ticket key db.tickets ≡ some t
      → select_ticket uuid id db ≡ found t
  unfolding select_ticket
  selected key t db ready u h = rw (ready, u, h)

  -- The row that is updated, once it is found.
  pub found_first :
      (key : Str) (t : Ticket) (db : Db)
      → query_fails db ≡ false
      → uuid id ≡ some key
      → find_ticket key db.tickets ≡ some t
      → update_ticket_status uuid id status reason by now db
        ≡ check_transition uuid id status author_fits new_row (found t, after_query db)
  unfolding update_ticket_status get_ticket_by_id
  found_first key t db ready u h =
      ap (λ row. check_transition uuid id status author_fits new_row (row, after_query db))
        (selected key t db ready u h)

  pub checked_first :
      (key : Str) (t : Ticket) (db : Db)
      → uuid id ≡ some key
      → is_valid_transition t.status status ≡ true
      → check_transition uuid id status author_fits new_row (found t, db)
        ≡ write_status uuid id key author_fits new_row db
  unfolding check_transition
  checked_first key t db u p = let same : or_text (uuid id) id ≡ key = rw u refl in rw (p, same)

  checked :
      (key k : Str) (t : Ticket) (db : Db)
      → uuid id ≡ some key
      → find_ticket key db.tickets ≡ some t
      → IsKept k db
          (check_transition uuid id status author_fits new_row (found t, after_query db)).1
  unfolding check_transition
  checked key k t db u h = elim (Bool-cases (is_valid_transition t.status status)) [
    | inl e ↦
        subst (λ m. IsKept k db m.1) (sym (checked_first key t (after_query db) u e))
          (written key k t (after_query db) h u e)
    | inr e ↦ inl (rw e)
  ]

  -- Whatever fails, a row is as it was before UpdateTicketStatus, or it is the one that the text of the
  -- ID names and had a status from which the new one is a valid transition, and only its status, reason,
  -- author and time of update have changed.
  pub update_ticket_status_cases :
      (db : Db) (k : Str) → IsKept k db (update_ticket_status uuid id status reason by now db).1
  unfolding update_ticket_status get_ticket_by_id select_ticket check_transition
  update_ticket_status_cases db k = elim (Bool-cases (query_fails db)) [
    | inl e ↦ inl (rw e)
    | inr e ↦ elim (Option-cases (uuid id)) [
      | inl none_there ↦ inl (rw (e, none_there))
      | inr (key, u) ↦ elim (Option-cases (find_ticket key db.tickets)) [
        | inl gone ↦ inl (rw (e, u, gone))
        | inr (t, h) ↦
            subst (λ m. IsKept k db m.1) (sym (found_first key t db e u h)) (checked key k t db u h)
      ]
    ]
  ]

  written_ok :
      (key : Str) (t : Ticket) (db : Db)
      → db.faults ≡ []
      → uuid id ≡ some key
      → find_ticket key db.tickets ≡ some t
      → author_fits ≡ true
      → let (result, db') = write_status uuid id key author_fits new_row db in
        (result ≡ updated (some (new_row t))) × (find_ticket key db'.tickets ≡ some (new_row t))
  unfolding get_ticket_by_id select_ticket write_status
  written_ok key t db ready u h short =
      let there : find_ticket key (update_ticket key new_row db.tickets) ≡ some (new_row t) =
        rw (find-update key key new_row db.tickets (λ _. refl), eq_refl key, h) in
      rw (ready, short, u, there) (refl, refl)

  -- If no query fails and there is a row with this ID whose status may become the new one, and the author's
  -- name has at most 255 characters, the row is updated, given back, and found in the table.
  pub update_ticket_status_ok :
      (key : Str) (t : Ticket) (db : Db)
      → db.faults ≡ []
      → uuid id ≡ some key
      → find_ticket key db.tickets ≡ some t
      → is_valid_transition t.status status ≡ true
      → varchar 255 by ≡ true
      → let (result, db') = update_ticket_status uuid id status reason by now db in
        (result ≡ updated (some (new_row t))) × (find_ticket key db'.tickets ≡ some (new_row t))
  update_ticket_status_ok key t db ready u h p short =
      subst
        (λ m. (m.0 ≡ updated (some (new_row t))) × (find_ticket key m.1.tickets ≡ some (new_row t)))
        (sym (found_first key t db (rw ready refl) u h ∙ checked_first key t (after_query db) u p))
        (written_ok key t (after_query db) (rw ready refl) u h short)
