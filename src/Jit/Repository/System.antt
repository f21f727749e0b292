-- ===== src/Jit/Repository/System.antt =====
-- What a timer writes (systemUpdateStatus of knox-proxy/jit/repository.go).
use knox_proxy.Base.{
  eq_false, Option, Bool-cases, ◌≢◌, none, inr, inl, eq_refl, ◌≡◌, ℕ, Str, false, some, refl, [],
}
use knox_proxy.Jit.Repository.{
  query_fails, system_update_row, update_ticket, same_status, select_ticket, find_ticket,
  get_ticket_by_id, system_update_status, system_status, Db, Uuid,
}
use knox_proxy.Jit.Ticket.{Ticket, Status}
use knox_proxy.Jit.Repository.Laws.{find-update}

module _ (uuid : Uuid) (id key : Str) (status : Status) (now : ℕ) (t : Ticket) (db : Db) where
  abbrev new_row : Ticket → Ticket
  new_row = system_status status now

  -- If no query fails, the canonical text of an ID is its own and the row has another status, a
  -- timer's status is written whatever status the row has, also one that no transition leaves.
  pub system_update_status_any :
      db.faults ≡ []
      → uuid id ≡ some key
      → uuid key ≡ some key
      → find_ticket key db.tickets ≡ some t
      → same_status t.status status ≡ false
      → let (row, db') = system_update_status uuid id status now db in
        (row ≡ some (new_row t)) × (find_ticket key db'.tickets ≡ some (new_row t))
  unfolding system_update_status get_ticket_by_id select_ticket
  system_update_status_any ready u canonical h differs =
      let there : find_ticket key (update_ticket key new_row db.tickets) ≡ some (new_row t) =
        rw (find-update key key new_row db.tickets (λ _. refl), eq_refl key, h) in
      rw (ready, u, h, differs, canonical, there, ready) (refl, refl)

-- The other rows are left.
module _ (uuid : Uuid) (id k : Str) (status : Status) (now : ℕ) (db : Db) (other : id ≢ k) where
  system_update_row-other :
      (row : Option Ticket)
      → find_ticket k (system_update_row uuid id status now db row).1.tickets
        ≡ find_ticket k db.tickets
  unfolding system_update_row get_ticket_by_id
  system_update_row-other none = refl
  system_update_row-other (some t) = elim (Bool-cases (same_status t.status status)) [
    | inl e ↦ rw e
    | inr e ↦
        rw (
          e,
          find-update id k (system_status status now) db.tickets (λ _. refl),
          eq_false id k other,
        )
  ]

  pub system_update_status-other :
      uuid id ≡ some id
      → find_ticket k (system_update_status uuid id status now db).1.tickets
        ≡ find_ticket k db.tickets
  unfolding system_update_status
  system_update_status-other canonical = elim (Bool-cases (query_fails db)) [
    | inl e ↦ rw e
    | inr e ↦ rw (e, canonical) (system_update_row-other (find_ticket id db.tickets))
  ]
