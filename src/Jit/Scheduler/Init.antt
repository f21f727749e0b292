-- ===== src/Jit/Scheduler/Init.antt =====
-- The timers when the server starts (InitFromDB of knox-proxy/jit/scheduler.go).
use mathlib.Core.Option
use mathlib.Core.Path.{subst}
use knox_proxy.Base.{
  if◌then◌else◌, Bool, ap, ◌-◌, ◌+◌, ◌∙◌, sym, eq_iff, ◌⊎◌, arith, lookup, ◌==◌, Bool-cases, ◌≡◌, ℕ,
  Str, List, false, true, some, inr, inl, refl, ◌∷◌, [],
}
use knox_proxy.Jit.Ticket.{Status, Ticket, active, expired}
use knox_proxy.Jit.Scheduler.Laws.{IsListed, HasUniqueIds, init_from_db-lookup, schedule-lookup}
use knox_proxy.Jit.Repository.{query_fails, after_query, Db, find_ticket, Uuid}
use knox_proxy.Jit.Scheduler.{
  timer_for, next_transition, init_from_db, Jit, is_pending, schedule, Timer, schedule_all, Timers,
  pending_transitions,
}
use knox_proxy.Jit.Scheduler.Timed.{IsTimerOf, schedule-IsInStep, IsOnTime}
use knox_proxy.Jit.Repository.Laws.{find_ticket-id}

abbrev pub HasCanonicalIds : Uuid → List Ticket → Type 0
HasCanonicalIds uuid ts = (t : Ticket) → IsListed t ts → uuid t.id ≡ some t.id

find-IsListed :
    (k : Str) (t : Ticket) (ts : List Ticket) → find_ticket k ts ≡ some t → IsListed t ts
unfolding find_ticket
find-IsListed k t [] h = cc h
find-IsListed k t (u ∷ us) h = elim (Bool-cases (u.id == k)) [
  | inl e ↦ inl (ground (arith, e, h))
  | inr e ↦ inr (find-IsListed k t us (ground (arith, e, h)))
]

IsListed-either :
    (t u : Ticket) (us : List Ticket) (b : Bool)
    → IsListed t (if b then u ∷ us else us)
    → (u ≡ t) ⊎ IsListed t us
IsListed-either t u us true m = m
IsListed-either t u us false m = inr m

IsListed-pending :
    (t : Ticket) (ts : List Ticket) → IsListed t (pending_transitions ts) → IsListed t ts
unfolding pending_transitions
IsListed-pending t [] m = m
IsListed-pending t (u ∷ us) m =
    elim (IsListed-either t u (pending_transitions us) (is_pending u.status) m) [
      | inl same ↦ inl same
      | inr later ↦ inr (IsListed-pending t us later)
    ]

module _ (uuid : Uuid) where
  -- Each timer is that of a canonical ID, and starts or ends access.
  abbrev AreOwn : Timers → Type 0
  AreOwn timers =
      (k : Str) (x : Timer)
      → lookup k timers ≡ some x
      → (uuid k ≡ some k) × ((x.target_status ≡ active) ⊎ (x.target_status ≡ expired))

  nothing_set : AreOwn []
  unfolding lookup
  nothing_set k x h = cc h

  schedule-AreOwn :
      (t : Ticket) (now : ℕ) (timers : Timers)
      → uuid t.id ≡ some t.id
      → AreOwn timers
      → AreOwn (schedule t now timers)
  schedule-AreOwn t now timers canonical own k x h = elim (Bool-cases (t.id == k)) [
    | inl e ↦
        let here = (eq_iff t.id k).0 e in
        let set : lookup t.id (schedule t now timers) ≡ some x =
          subst (λ i. lookup i (schedule t now timers) ≡ some x) (sym here) h in
        let (itself, aim) = (schedule-IsInStep uuid t now timers canonical).own_timer x set in
        (subst (λ i. uuid i ≡ some i) here itself, aim)
    | inr e ↦
        let left : lookup k (schedule t now timers) ≡ lookup k timers =
          rw (schedule-lookup t now timers k, e) in
        own k x (sym left ∙ h)
  ]

  schedule_all-AreOwn :
      (ts : List Ticket) (now : ℕ) (timers : Timers)
      → HasCanonicalIds uuid ts
      → AreOwn timers
      → AreOwn (schedule_all ts now timers)
  unfolding schedule_all
  schedule_all-AreOwn [] now timers canonical own = own
  schedule_all-AreOwn (t ∷ ts) now timers canonical own =
      schedule_all-AreOwn ts now (schedule t now timers) (λ u m. canonical u (inr m))
        (schedule-AreOwn t now timers (canonical t (inl refl)) own)

  module _ (now : ℕ) (db : Db) (quiet_db : db.faults ≡ []) (unique : HasUniqueIds db.tickets)
      (canonical : HasCanonicalIds uuid db.tickets) where
    abbrev fresh : Jit
    fresh = record { db = db; timers = []; sent = [] }

    abbrev begun : Jit
    begun = record {
      db = after_query db;
      timers = schedule_all (pending_transitions db.tickets) now [];
      sent = [];
    }

    begins : init_from_db now fresh ≡ begun
    unfolding init_from_db
    begins = let fine : query_fails db ≡ false = rw quiet_db refl in rw fine refl

    waits :
        (t : Ticket) (s : Status) (at : ℕ)
        → next_transition t ≡ some (s, at)
        → is_pending t.status ≡ true
    unfolding next_transition is_pending
    waits t s at h = ground (arith, h)

    set_timer :
        (k : Str) (t : Ticket) (s : Status) (at : ℕ)
        → find_ticket k db.tickets ≡ some t
        → next_transition t ≡ some (s, at)
        → IsTimerOf s at (lookup k begun.timers)
    set_timer k t s at there next =
        let fine : query_fails db ≡ false = rw quiet_db refl in
        let set =
          init_from_db-lookup now fresh t fine unique (find-IsListed k t db.tickets there)
            (waits t s at next) in
        (
          now + (at - now),
          ap (λ i. lookup i begun.timers) (sym (find_ticket-id k t db.tickets there))
              ∙ ap (λ (j : Jit). lookup t.id j.timers) (sym begins)
              ∙ set
              ∙ ap (Option.map (timer_for now)) next,
          omega arith,
        )

    -- InitFromDB sets the timer of each ticket that waits for a transition.
    pub init_from_db-IsOnTime : IsOnTime uuid (init_from_db now fresh)
    init_from_db-IsOnTime = subst (IsOnTime uuid) (sym begins) (record {
      ready = rw quiet_db refl;
      in_step = λ k. record {
        own_timer =
            schedule_all-AreOwn (pending_transitions db.tickets) now []
              (λ t m. canonical t (IsListed-pending t db.tickets m)) nothing_set k;
        own_row = λ t there.
            subst (λ i. uuid i ≡ some i) (find_ticket-id k t db.tickets there)
              (canonical t (find-IsListed k t db.tickets there));
        timed = set_timer k;
      };
    })
