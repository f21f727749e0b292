-- ===== src/Jit/Scheduler/Laws.antt =====
-- Which timers there are (knox-proxy/jit/scheduler.go).
use mathlib.Core.Option
use knox_proxy.Base.{
  non_empty, eq_refl, sym, ◌⊎◌, delete, lookup-insert, arith, lookup-delete, Option-cases, ◌==◌,
  if◌then◌else◌, eq_false, ◌≡◌, lookup, Bool-cases, ℕ, ◌≢◌, List, Str, false, true, inr, inl, refl,
  ◌∷◌, [],
}
use knox_proxy.Jit.Scheduler.{
  fire_webhook, Jit, init_from_db, next_transition, timer_for, cancel, is_pending, Timers,
  pending_transitions, schedule_all, schedule,
}
use knox_proxy.Jit.Ticket.{Ticket}
use mathlib.Core.Option.{Mem}
use knox_proxy.Jit.Repository.{query_fails}

-- Scheduling a ticket sets the timer of the transition it waits for, or none, and leaves the other
-- timers.
pub schedule-lookup :
    (t : Ticket) (now : ℕ) (timers : Timers) (id : Str)
    → lookup id (schedule t now timers)
      ≡ (if t.id == id then Option.map (timer_for now) (next_transition t) else lookup id timers)
unfolding schedule cancel
schedule-lookup t now timers id = elim (Option-cases (next_transition t)) [
  | inl e ↦ rw (e, schedule) (lookup-delete t.id id timers)
  | inr (transition, e) ↦
      rw (e, schedule)
        (ground (
          arith,
          lookup-insert t.id id (timer_for now transition) (delete t.id timers),
          lookup-delete t.id id timers,
        ))
]

-- The webhook changes neither the table nor the timers.
pub fire_webhook-parts :
    (url : Str) (t : Ticket) (j : Jit)
    → ((fire_webhook url t j).db ≡ j.db) × ((fire_webhook url t j).timers ≡ j.timers)
unfolding fire_webhook
fire_webhook-parts url t j = elim (Bool-cases (non_empty url)) [
  | inl e ↦ rw e (refl, refl)
  | inr e ↦ rw e (refl, refl)
]

-- No ID twice.
abbrev pub IsFresh : Str → List Ticket → Type 0
IsFresh id [] = Unit
IsFresh id (t ∷ ts) = (t.id ≢ id) × IsFresh id ts

abbrev pub HasUniqueIds : List Ticket → Type 0
HasUniqueIds [] = Unit
HasUniqueIds (t ∷ ts) = IsFresh t.id ts × HasUniqueIds ts

schedule_all-fresh :
    (ts : List Ticket) (now : ℕ) (timers : Timers) (id : Str)
    → IsFresh id ts
    → lookup id (schedule_all ts now timers) ≡ lookup id timers
unfolding schedule_all
schedule_all-fresh [] now timers id h = refl
schedule_all-fresh (t ∷ ts) now timers id h = rw (
  schedule_all-fresh ts now (schedule t now timers) id h.1,
  schedule-lookup t now timers id,
  eq_false t.id id h.0,
)

pending_transitions-IsFresh :
    (ts : List Ticket) (id : Str) → IsFresh id ts → IsFresh id (pending_transitions ts)
unfolding pending_transitions
pending_transitions-IsFresh [] id h = tt
pending_transitions-IsFresh (t ∷ ts) id h = elim (Bool-cases (is_pending t.status)) [
  | inl e ↦ rw e (h.0, pending_transitions-IsFresh ts id h.1)
  | inr e ↦ rw e (pending_transitions-IsFresh ts id h.1)
]

abbrev pub IsListed : Ticket → List Ticket → Type 0
IsListed t [] = ⊥
IsListed t (u ∷ us) = (u ≡ t) ⊎ IsListed t us

listed_later : (t u : Ticket) (us : List Ticket) → IsFresh u.id us → IsListed t us → u.id ≢ t.id
listed_later t u [] h m = absurd m
listed_later t u (v ∷ us) h (inl e) = λ same. h.0 (sym (rw e same))
listed_later t u (v ∷ us) h (inr m) = listed_later t u us h.1 m

lookup-schedule_all :
    (ts : List Ticket) (now : ℕ) (timers : Timers) (t : Ticket)
    → HasUniqueIds ts
    → IsListed t ts
    → lookup t.id (schedule_all ts now timers) ≡ Option.map (timer_for now) (next_transition t)
unfolding schedule_all
lookup-schedule_all [] now timers t h m = absurd m
lookup-schedule_all (u ∷ us) now timers t h (inl e) = rw (
  ← e,
  schedule_all-fresh us now (schedule u now timers) u.id h.0,
  schedule-lookup u now timers u.id,
  eq_refl u.id,
)
lookup-schedule_all (u ∷ us) now timers t h (inr m) =
    lookup-schedule_all us now (schedule u now timers) t h.1 m

pending_transitions-IsListed :
    (ts : List Ticket) (t : Ticket)
    → IsListed t ts
    → is_pending t.status ≡ true
    → IsListed t (pending_transitions ts)
unfolding pending_transitions
pending_transitions-IsListed [] t m p = absurd m
pending_transitions-IsListed (u ∷ us) t (inl e) p =
    let q : is_pending u.status ≡ true = rw e p in rw q (inl e)
pending_transitions-IsListed (u ∷ us) t (inr m) p = elim (Bool-cases (is_pending u.status)) [
  | inl e ↦ rw e (inr (pending_transitions-IsListed us t m p))
  | inr e ↦ rw e (pending_transitions-IsListed us t m p)
]

pending_transitions-HasUniqueIds :
    (ts : List Ticket) → HasUniqueIds ts → HasUniqueIds (pending_transitions ts)
unfolding pending_transitions
pending_transitions-HasUniqueIds [] h = tt
pending_transitions-HasUniqueIds (t ∷ ts) h = elim (Bool-cases (is_pending t.status)) [
  | inl e ↦ rw e (pending_transitions-IsFresh ts t.id h.0, pending_transitions-HasUniqueIds ts h.1)
  | inr e ↦ rw e (pending_transitions-HasUniqueIds ts h.1)
]

-- Behind InitFromDB, if its query does not fail, each ticket that waits for a transition has the timer of that
-- transition. The IDs of the rows are all different.
pub init_from_db-lookup :
    (now : ℕ) (j : Jit) (t : Ticket)
    → query_fails j.db ≡ false
    → HasUniqueIds j.db.tickets
    → IsListed t j.db.tickets
    → is_pending t.status ≡ true
    → lookup t.id (init_from_db now j).timers ≡ Option.map (timer_for now) (next_transition t)
unfolding init_from_db
init_from_db-lookup now j t ready h m p = rw ready (
    lookup-schedule_all (pending_transitions j.db.tickets) now j.timers t
      (pending_transitions-HasUniqueIds j.db.tickets h)
      (pending_transitions-IsListed j.db.tickets t m p))
