-- ===== src/Jit/Schema.antt =====
-- The table jit_tickets of knox-proxy/jit/db.go, as migrationSQL creates it: what PostgreSQL checks when
-- a row is written.
pub mod Table
use knox_proxy.Base.{
  not, ◌||◌, ltb, ◌==◌, ◌&&◌, suc, leb, if◌then◌else◌, Bool, List, Str, ℕ, false, ◌∷◌, [],
}
use knox_proxy.Jit.Ticket.{status_text, Ticket}

-- A byte that does not begin a character of UTF-8.
abbrev is_continuation : ℕ → Bool
is_continuation c = leb 128 c && ltb c 192

unfoldable pub characters : Str → ℕ
characters [] = 0
characters (c ∷ cs) = let rest = characters cs in if is_continuation c then rest else suc rest

-- VARCHAR(most)
unfoldable pub varchar : ℕ → Str → Bool
unfolding characters
varchar most s = leb (characters s) most

unfoldable pub row_fits : Ticket → Bool
unfolding varchar
row_fits t =
    varchar 20 t.ticket_number
    && varchar 255 t.email
    && varchar 255 t.display_name
    && varchar 100 t.team
    && varchar 100 t.workflow_id
    && varchar 20 t.access_type
    && varchar 20 (status_text t.status)
    && varchar 255 t.updated_by

unfoldable pub is_taken : (Ticket → Str) → Str → List Ticket → Bool
is_taken column value [] = false
is_taken column value (t ∷ ts) = column t == value || is_taken column value ts

abbrev pub id_column : Ticket → Str
id_column t = t.id

abbrev pub number_column : Ticket → Str
number_column t = t.ticket_number

-- The types of the columns, the primary key and the unique ticket number.
unfoldable pub admits : List Ticket → Ticket → Bool
unfolding row_fits is_taken
admits ts t =
    row_fits t
    && not (is_taken id_column t.id ts)
    && not (is_taken number_column t.ticket_number ts)
