-- ===== src/Jit/Repository/Identity.antt =====
-- Whom a ticket belongs to and what it is for, under the queries of knox-proxy/jit/repository.go.
use mathlib.Core.Option.{some-injective}
use knox_proxy.Base.{
  arith, List, false, [], ap, eq_iff, sym, ◌==◌, Option-cases, Bool-cases, Option, ◌∙◌, ◌≡◌, ℕ, Str,
  none, some, inr, inl, refl, ◌∷◌,
}
use knox_proxy.Jit.Ticket.{Status, Ticket}
use knox_proxy.Jit.Repository.{
  after_query, with_status, stored_ticket, system_status, generate_ticket_number, query_fails,
  same_status, update_ticket_status, update_ticket, Draw, get_ticket_by_id, create_ticket,
  find_ticket, system_update_status, system_update_row, Uuid, Db,
}
use knox_proxy.Jit.Repository.Laws.{find-update, update_ticket_status_cases}
use knox_proxy.Jit.Schema.{id_column, is_taken, admits}
use knox_proxy.Jit.Schema.Table.{admitted}

-- The columns that no query updates.
pub record Bond : Type 0 where
  pub id : Str
  pub ticket_number : Str
  pub email : Str
  pub display_name : Str
  pub team : Str
  pub workflow_id : Str
  pub access_type : Str
  pub description : Str
  pub period_start : ℕ
  pub period_end : ℕ
  pub created_at : ℕ

abbrev pub bond : Ticket → Bond
bond t = record {
  id = t.id;
  ticket_number = t.ticket_number;
  email = t.email;
  display_name = t.display_name;
  team = t.team;
  workflow_id = t.workflow_id;
  access_type = t.access_type;
  description = t.description;
  period_start = t.period_start;
  period_end = t.period_end;
  created_at = t.created_at;
}

-- The row of this ID is a version of the ticket.
abbrev pub HasVersion : Str → Ticket → Db → Type 0
HasVersion k t db = (t' : Ticket) × (find_ticket k db.tickets ≡ some t') × (bond t' ≡ bond t)

-- Each row of the one table has a version in the other.
abbrev pub Keeps : Db → Db → Type 0
Keeps db db' = (k : Str) (t : Ticket) → find_ticket k db.tickets ≡ some t → HasVersion k t db'

pub Keeps-refl : (db : Db) → Keeps db db
Keeps-refl db k t h = (t, h, refl)

pub Keeps-trans : (db1 db2 db3 : Db) → Keeps db1 db2 → Keeps db2 db3 → Keeps db1 db3
Keeps-trans db1 db2 db3 f g k t h =
    let (t', there, same) = f k t h in
    let (t'', there', same') = g k t' there in (t'', there', same' ∙ same)

pub update-Keeps :
    (key : Str) (f : Ticket → Ticket) (db db' : Db)
    → ((t : Ticket) → bond (f t) ≡ bond t)
    → db'.tickets ≡ update_ticket key f db.tickets
    → Keeps db db'
update-Keeps key f db db' same e k t h = elim (Bool-cases (key == k)) [
  | inl hit ↦ (
    f t,
    rw (e, find-update key k f db.tickets (λ u. ap (λ (b : Bond). b.id) (same u)), hit, h),
    same t,
  )
  | inr miss ↦ (
    t,
    rw (e, find-update key k f db.tickets (λ u. ap (λ (b : Bond). b.id) (same u)), miss) h,
    refl,
  )
]

pub update_ticket_status-Keeps :
    (uuid : Uuid) (id : Str) (status : Status) (reason by : Str) (now : ℕ) (db : Db)
    → Keeps db (update_ticket_status uuid id status reason by now db).1
update_ticket_status-Keeps uuid id status reason by now db k t h =
    elim (update_ticket_status_cases uuid id status reason by now db k) [
      | inl same ↦ (t, same ∙ h, refl)
      | inr (u, before, target, after) ↦
          let one : u ≡ t = some-injective u t (sym before ∙ h) in
          (with_status status reason by now u, after, ap bond one)
    ]

system_update_row-Keeps :
    (uuid : Uuid) (key : Str) (status : Status) (now : ℕ) (db : Db) (row : Option Ticket)
    → Keeps db (system_update_row uuid key status now db row).1
unfolding system_update_row get_ticket_by_id
system_update_row-Keeps uuid key status now db none = Keeps-refl db
system_update_row-Keeps uuid key status now db (some t) =
    elim (Bool-cases (same_status t.status status)) [
      | inl e ↦ rw e (Keeps-refl db)
      | inr e ↦ rw e (
          update-Keeps key (system_status status now) db
            (record (after_query (after_query db)) {
              tickets = update_ticket key (system_status status now) db.tickets;
            })
            (λ u. refl) refl)
    ]

pub system_update_status-Keeps :
    (uuid : Uuid) (id : Str) (status : Status) (now : ℕ) (db : Db)
    → Keeps db (system_update_status uuid id status now db).1
unfolding system_update_status
system_update_status-Keeps uuid id status now db = elim (Bool-cases (query_fails db)) [
  | inl e ↦ rw e (Keeps-refl db)
  | inr e ↦ elim (Option-cases (uuid id)) [
    | inl f ↦ rw (e, f, system_update_status) (Keeps-refl db)
    | inr (key, f) ↦
        rw (e, f, system_update_status)
          (system_update_row-Keeps uuid key status now db (find_ticket key db.tickets))
  ]
]

not_taken : (k : Str) (ts : List Ticket) → is_taken id_column k ts ≡ false → find_ticket k ts ≡ none
unfolding is_taken find_ticket
not_taken k [] h = refl
not_taken k (t ∷ ts) h = ground (arith, h, not_taken k ts)

new_row-Keeps :
    (t : Ticket) (db db' : Db)
    → find_ticket t.id db.tickets ≡ none
    → db'.tickets ≡ t ∷ db.tickets
    → Keeps db db'
unfolding find_ticket
new_row-Keeps t db db' fresh e k u h = elim (Bool-cases (t.id == k)) [
  | inl hit ↦
      let same = (eq_iff t.id k).0 hit in
      absurd (cc (sym (ap (λ i. find_ticket i db.tickets) same) ∙ fresh, h))
  | inr miss ↦ (u, rw (e, miss) h, refl)
]

-- The primary key sees to it that the ID of a new row is not in use.
pub create_ticket-Keeps :
    (t : Ticket) (draw : Draw) (db : Db) → Keeps db (create_ticket t draw db).1
unfolding create_ticket
create_ticket-Keeps t draw db = elim (Option-cases (generate_ticket_number draw.random draw.date)) [
  | inl e ↦ rw (e, create_ticket) (Keeps-refl db)
  | inr (number, e) ↦
      let row = stored_ticket t number draw in
      elim (Bool-cases (query_fails db)) [
        | inl f ↦ rw (e, create_ticket, f) (Keeps-refl db)
        | inr f ↦ elim (Bool-cases (admits db.tickets row)) [
          | inr g ↦ rw (e, create_ticket, f, g) (Keeps-refl db)
          | inl g ↦
              rw (e, create_ticket, f, g)
                (new_row-Keeps row db (record (after_query db) { tickets = row ∷ db.tickets })
                  (not_taken draw.id db.tickets (admitted row db.tickets g).1) refl)
        ]
      ]
]
