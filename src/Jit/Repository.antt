-- ===== src/Jit/Repository.antt =====
-- knox-proxy/jit/repository.go over a table of tickets. PostgreSQL is outside: any query may fail, as
-- the list of faults says, and the text of an ID is read as a UUID, of which a parameter gives the
-- canonical text, or nothing for a text that is no UUID.
pub mod Laws
pub mod System
pub mod Identity
pub mod Table
pub mod Quiet
use knox_proxy.Base.{
  not, ◌||◌, true, inr, inl, refl, to_upper, ◌++◌, ◌==◌, bytes, if◌then◌else◌, Bool, List, Option,
  false, none, some, ◌∷◌, [], ℕ, Str,
}
use knox_proxy.Session.{hex_encode}
use knox_proxy.Jit.Ticket.{Ticket, Status, status_text, requested, is_valid_transition}
use knox_proxy.Jit.Schema.{varchar, admits}

abbrev pub Uuid : Type 0
Uuid = Str → Option Str

pub record Db : Type 0 where
  pub tickets : List Ticket
  -- Whether each of the next queries fails; those behind the end of the list do not.
  pub faults : List Bool

abbrev pub next_fault : List Bool → Bool
next_fault [] = false
next_fault (b ∷ _) = b

abbrev pub later_faults : List Bool → List Bool
later_faults [] = []
later_faults (_ ∷ bs) = bs

-- The state behind a query, and whether the query fails.
abbrev pub after_query : Db → Db
after_query db = record db { faults = later_faults db.faults }

abbrev pub query_fails : Db → Bool
query_fails db = next_fault db.faults

-- The row with this ID.
unfoldable pub find_ticket : Str → List Ticket → Option Ticket
find_ticket id [] = none
find_ticket id (t ∷ ts) = if t.id == id then some t else find_ticket id ts

-- UPDATE … WHERE id = …
unfoldable pub update_ticket : Str → (Ticket → Ticket) → List Ticket → List Ticket
update_ticket id f [] = []
update_ticket id f (t ∷ ts) = (if t.id == id then f t else t) ∷ update_ticket id f ts

-- JIT-YYYYMMDD-XXXX; the random bytes may be missing.
unfoldable pub generate_ticket_number : Option Str → Str → Option Str
generate_ticket_number none date = none
generate_ticket_number (some random) date =
    some (bytes "JIT-" ++ (date ++ (bytes "-" ++ to_upper (hex_encode random))))

-- What the database and the clock give to an INSERT.
pub record Draw : Type 0 where
  pub random : Option Str
  pub date : Str
  -- gen_random_uuid()
  pub id : Str
  pub now : ℕ

-- A ticket before it is stored.
abbrev pub stored_ticket : Ticket → Str → Draw → Ticket
stored_ticket t number draw = record t {
  id = draw.id;
  ticket_number = number;
  status = requested;
  created_at = draw.now;
  updated_at = draw.now;
}

-- `none` is an error.
unfoldable pub create_ticket : Ticket → Draw → Db → Option Ticket × Db
unfolding admits
create_ticket t draw db = elim (generate_ticket_number draw.random draw.date) [
  | none ↦ (none, db)
  | some number ↦
      let row = stored_ticket t number draw in
      if query_fails db || not (admits db.tickets row)
      then (none, after_query db)
      else (some row, record (after_query db) { tickets = row ∷ db.tickets })
]

pub data Found : Type 0 where
  query_failed : Found
  missing : Found
  found : Ticket → Found

abbrev pub found_row : Option Ticket → Found
found_row none = missing
found_row (some t) = found t

-- SELECT … WHERE id = $1, where a text that is no UUID is an error of the query.
unfoldable pub select_ticket : Uuid → Str → Db → Found
unfolding find_ticket
select_ticket uuid id db = if query_fails db then query_failed else (elim (uuid id) [
  | none ↦ query_failed
  | some key ↦ found_row (find_ticket key db.tickets)
])

unfoldable pub get_ticket_by_id : Uuid → Str → Db → Found × Db
unfolding select_ticket
get_ticket_by_id uuid id db = (select_ticket uuid id db, after_query db)

pub data UpdateError : Type 0 where
  not_found read_failed update_failed get_failed : UpdateError
  invalid_transition : (from to : Status) → UpdateError

-- The ticket is nil where the row is gone when it is read again.
pub data Updated : Type 0 where
  refused : UpdateError → Updated
  updated : Option Ticket → Updated

abbrev pub read_again : Found → Updated
read_again query_failed = refused get_failed
read_again missing = updated none
read_again (found t) = updated (some t)

-- What UpdateTicketStatus writes to the row.
abbrev pub with_status : Status → Str → Str → ℕ → Ticket → Ticket
with_status status reason updated_by now t = record t {
  status = status;
  status_reason = reason;
  updated_by = updated_by;
  updated_at = now;
}

-- The part of UpdateTicketStatus behind the check of the transition. The row is written if the author's
-- name fits its column.
unfoldable pub write_status : Uuid → Str → Str → Bool → (Ticket → Ticket) → Db → Updated × Db
write_status uuid id key fits f db =
    if query_fails db || not fits
    then (refused update_failed, after_query db)
    else (let (again, db') =
          get_ticket_by_id uuid id
            (record (after_query db) { tickets = update_ticket key f db.tickets }) in
        (read_again again, db'))

abbrev pub or_text : Option Str → Str → Str
or_text none s = s
or_text (some t) s = t

unfoldable pub check_transition :
    Uuid → Str → Status → Bool → (Ticket → Ticket) → Found × Db → Updated × Db
unfolding write_status
check_transition uuid id new_status fits f (query_failed, db) = (refused read_failed, db)
check_transition uuid id new_status fits f (missing, db) = (refused not_found, db)
check_transition uuid id new_status fits f (found t, db) =
    if is_valid_transition t.status new_status
    then write_status uuid id (or_text (uuid id) id) fits f db
    else (refused (invalid_transition t.status new_status), db)

unfoldable pub update_ticket_status : Uuid → Str → Status → Str → Str → ℕ → Db → Updated × Db
unfolding check_transition varchar
update_ticket_status uuid id new_status reason updated_by now db =
    check_transition uuid id new_status (varchar 255 updated_by)
      (with_status new_status reason updated_by now) (get_ticket_by_id uuid id db)

unfoldable pub same_status : Status → Status → Bool
same_status s t = status_text s == status_text t

abbrev pub system_status : Status → ℕ → Ticket → Ticket
system_status status now t = record t {
  status = status;
  updated_by = bytes "system";
  updated_at = now;
}

-- systemUpdateStatus: one UPDATE of a row whose status is another, whatever it is. The row is given
-- back if there was one and it can be read again.
unfoldable pub system_update_row : Uuid → Str → Status → ℕ → Db → Option Ticket → Option Ticket × Db
system_update_row uuid key new_status now db none = (none, after_query db)
system_update_row uuid key new_status now db (some t) =
    if same_status t.status new_status
    then (none, after_query db)
    else (let (again, db') = get_ticket_by_id uuid key (record (after_query db) {
      tickets = update_ticket key (system_status new_status now) db.tickets;
    }) in
        (elim again [ found t' ↦ some t' | _ ↦ none ], db'))

unfoldable pub system_update_status : Uuid → Str → Status → ℕ → Db → Option Ticket × Db
unfolding system_update_row
system_update_status uuid id new_status now db =
    if query_fails db then (none, after_query db) else (elim (uuid id) [
      | none ↦ (none, after_query db)
      | some key ↦ system_update_row uuid key new_status now db (find_ticket key db.tickets)
    ])
