-- ===== src/Jit/Listing/Laws.antt =====
-- What the lists of tickets show (knox-proxy/jit/repository.go).
use knox_proxy.Base.{
  length-take_bound, length-drop-le, All-take, eq_iff, length-take-le, drop, leb, take, arith, suc,
  Bool-cases, Bool, ◌≤◌, length, ◌≡◌, All, List, true, some, inr, inl, refl, ◌∷◌, [], ℕ, Str,
}
use knox_proxy.Jit.Listing.{
  select_tickets, matches_owner, page_limit, run_page, newest_first, insert_newest,
  list_tickets_by_email,
}
use knox_proxy.Jit.Ticket.{Ticket}
use knox_proxy.Jit.Repository.{Db}

module _ (P : Ticket → Type 0) (test : Ticket → Bool)
    (holds : (t : Ticket) → test t ≡ true → P t) where
  All-select_tickets : (ts : List Ticket) → All P (select_tickets test ts)
  unfolding select_tickets
  All-select_tickets [] = tt
  All-select_tickets (t ∷ ts) = elim (Bool-cases (test t)) [
    | inl passes ↦ rw passes (holds t passes, All-select_tickets ts)
    | inr fails ↦ rw fails (All-select_tickets ts)
  ]

module _ (P : Ticket → Type 0) where
  All-insert_newest : (t : Ticket) (ts : List Ticket) → P t → All P ts → All P (insert_newest t ts)
  unfolding insert_newest
  All-insert_newest t [] h k = (h, tt)
  All-insert_newest t (u ∷ us) h k = elim (Bool-cases (leb u.created_at t.created_at)) [
    | inl newer ↦ rw newer (h, k)
    | inr older ↦ rw older (k.0, All-insert_newest t us h k.1)
  ]

  All-newest_first : (ts : List Ticket) → All P ts → All P (newest_first ts)
  unfolding newest_first
  All-newest_first [] h = tt
  All-newest_first (t ∷ ts) h = All-insert_newest t (newest_first ts) h.0 (All-newest_first ts h.1)

length-insert_newest :
    (t : Ticket) (ts : List Ticket) → length (insert_newest t ts) ≡ suc (length ts)
unfolding insert_newest
length-insert_newest t [] = refl
length-insert_newest t (u ∷ us) = ground (arith, length-insert_newest t us)

length-newest_first : (ts : List Ticket) → length (newest_first ts) ≡ length ts
unfolding newest_first
length-newest_first [] = refl
length-newest_first (t ∷ ts) =
    omega (arith, length-insert_newest t (newest_first ts), length-newest_first ts)

-- A page of a selection, and how many were selected.
abbrev page : (Ticket → Bool) → ℕ → ℕ → List Ticket → List Ticket
page test limit offset ts = take limit (drop offset (newest_first (select_tickets test ts)))

run_page_sound :
    (test : Ticket → Bool) (limit offset : ℕ) (db : Db) (tickets : List Ticket) (total : ℕ)
    → (run_page test limit offset db).0 ≡ some (tickets, total)
    → (tickets ≡ page test limit offset db.tickets)
      × (total ≡ length (select_tickets test db.tickets))
unfolding run_page
run_page_sound test limit offset db tickets total h = ground arith

page_total :
    (test : Ticket → Bool) (limit offset : ℕ) (ts : List Ticket)
    → length (page test limit offset ts) ≤ length (select_tickets test ts)
page_total test limit offset ts =
    let chosen = newest_first (select_tickets test ts) in
    omega (
      arith,
      length-take-le limit (drop offset chosen),
      length-drop-le offset chosen,
      length-newest_first (select_tickets test ts),
    )

page_limit_bound : (limit : ℕ) → page_limit 100 limit ≤ 100
unfolding page_limit
page_limit_bound limit = ground arith

matches_owner_email :
    (email status : Str) (t : Ticket) → matches_owner email status t ≡ true → t.email ≡ email
unfolding matches_owner
matches_owner_email email status t h = ground (arith, eq_iff t.email email)

-- A user's list shows only tickets of this user, at most 100 of them, and no more than it counts.
pub list_tickets_by_email_own :
    (email status : Str) (limit : ℕ) (db : Db) (tickets : List Ticket) (total : ℕ)
    → (list_tickets_by_email email status limit db).0 ≡ some (tickets, total)
    → All (λ t. t.email ≡ email) tickets × (length tickets ≤ 100) × (length tickets ≤ total)
unfolding list_tickets_by_email
list_tickets_by_email_own email status limit db tickets total h =
    let test = matches_owner email status in
    let most = page_limit 100 limit in
    let (same, counted) = run_page_sound test most 0 db tickets total h in
    let chosen = newest_first (select_tickets test db.tickets) in
    rw (same, counted)
      (
        All-take (λ t. t.email ≡ email) most chosen
            (All-newest_first (λ t. t.email ≡ email) _
              (All-select_tickets (λ t. t.email ≡ email) test (matches_owner_email email status)
                db.tickets)),
        omega (arith, length-take_bound most chosen, page_limit_bound limit),
        page_total test most 0 db.tickets,
      )
