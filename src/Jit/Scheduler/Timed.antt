-- ===== src/Jit/Scheduler/Timed.antt =====
-- Each ticket that waits for a transition has its timer (knox-proxy/jit/scheduler.go), as long as no
-- query fails.
use mathlib.Core.Path.{subst}
use mathlib.Core.Option.{some-injective}
use knox_proxy.Base.{
  ◌-◌, ◌+◌, Option-cases, eq_refl, non_empty, Bool-cases, none, inr, inl, refl, arith, ◌==◌, ◌⊎◌,
  ◌≤◌, bytes, lookup, ℕ, ◌≡◌, Option, Str, false, some, [],
}
use knox_proxy.Jit.Ticket.{status_text, Status, Ticket, active, expired}
use knox_proxy.Jit.Repository.{find_ticket, same_status, Uuid}
use knox_proxy.Jit.Scheduler.{
  schedule, fire_webhook, Timers, timer_for, Timer, Jit, next_transition,
}
use knox_proxy.Jit.Scheduler.Laws.{schedule-lookup}
use knox_proxy.Jit.Repository.Quiet.{quiet}

-- The timer of this transition, which is due no sooner than its instant.
abbrev pub IsTimerOf : Status → ℕ → Option Timer → Type 0
IsTimerOf s at timer =
    (due : ℕ) × (timer ≡ some (record { target_status = s; due = due })) × (at ≤ due)

module _ (uuid : Uuid) (k : Str) where
  -- What holds of the timer and the row of an ID.
  pub record IsInStep (timer : Option Timer) (row : Option Ticket) : Type 0 where
    pub own_timer :
        (x : Timer)
        → timer ≡ some x
        → (uuid k ≡ some k) × ((x.target_status ≡ active) ⊎ (x.target_status ≡ expired))
    pub own_row : (t : Ticket) → row ≡ some t → uuid k ≡ some k
    pub timed :
        (t : Ticket) (s : Status) (at : ℕ)
        → row ≡ some t
        → next_transition t ≡ some (s, at)
        → IsTimerOf s at timer

pub record IsOnTime (uuid : Uuid) (j : Jit) : Type 0 where
  pub ready : j.db.faults ≡ []
  pub in_step : (k : Str) → IsInStep uuid k (lookup k j.timers) (find_ticket k j.db.tickets)

pub next_transition-target :
    (t : Ticket) (s : Status) (at : ℕ)
    → next_transition t ≡ some (s, at)
    → (s ≡ active) ⊎ (s ≡ expired)
unfolding next_transition
next_transition-target t s at h = ground (arith, h)

pub next_transition-differs :
    (t : Ticket) (s : Status) (at : ℕ)
    → next_transition t ≡ some (s, at)
    → same_status t.status s ≡ false
unfolding next_transition same_status status_text bytes ◌==◌
next_transition-differs t s at h = ground (arith, h)

module _ (uuid : Uuid) where
  -- A row that waits for nothing, whether its timer is there or not.
  pub settled-IsInStep :
      (k : Str) (timer : Option Timer) (before : Option Ticket) (t : Ticket)
      → uuid k ≡ some k
      → IsInStep uuid k timer before
      → next_transition t ≡ none
      → IsInStep uuid k timer (some t)
  settled-IsInStep k timer before t canonical h none_next = record {
    own_timer = h.own_timer;
    own_row = λ _ _. canonical;
    timed = λ u s at same next. absurd (cc (same, next, none_next));
  }

  -- Without a timer.
  pub stopped-IsInStep :
      (k : Str) (row : Option Ticket)
      → ((t : Ticket) → row ≡ some t → (uuid k ≡ some k) × (next_transition t ≡ none))
      → IsInStep uuid k none row
  stopped-IsInStep k row h = record {
    own_timer = λ x e. absurd (cc e);
    own_row = λ t e. (h t e).0;
    timed = λ t s at e next. absurd (cc (next, (h t e).1));
  }

  timer_for-IsInStep :
      (t : Ticket) (s : Status) (at now : ℕ)
      → uuid t.id ≡ some t.id
      → next_transition t ≡ some (s, at)
      → IsInStep uuid t.id (some (timer_for now (s, at))) (some t)
  timer_for-IsInStep t s at now canonical next = record {
    own_timer = λ x e. (
      canonical,
      subst (λ (y : Timer). (y.target_status ≡ active) ⊎ (y.target_status ≡ expired))
          (some-injective (timer_for now (s, at)) x e) (next_transition-target t s at next),
    );
    own_row = λ _ _. canonical;
    timed = λ u s' at' e next'.
        let here : Status × ℕ = (s, at) in
        let there : Status × ℕ = (s', at') in
        let same : here ≡ there = some-injective here there (cc (e, next, next')) in
        subst (λ (p : Status × ℕ). IsTimerOf p.0 p.1 (some (timer_for now (s, at)))) same
          (now + (at - now), refl, omega arith);
  }

  -- The timer of a ticket that was just scheduled.
  pub schedule-IsInStep :
      (t : Ticket) (now : ℕ) (timers : Timers)
      → uuid t.id ≡ some t.id
      → IsInStep uuid t.id (lookup t.id (schedule t now timers)) (some t)
  schedule-IsInStep t now timers canonical =
      rw (schedule-lookup t now timers t.id, eq_refl t.id)
        (elim (Option-cases (next_transition t)) [
          | inl e ↦ rw e (stopped-IsInStep t.id (some t) (λ u same. (canonical, cc (same, e))))
          | inr ((s, at), e) ↦ rw e (timer_for-IsInStep t s at now canonical e)
        ])

  pub fire_webhook-IsOnTime :
      (url : Str) (t : Ticket) (j : Jit) → IsOnTime uuid j → IsOnTime uuid (fire_webhook url t j)
  unfolding fire_webhook
  fire_webhook-IsOnTime url t j h = elim (Bool-cases (non_empty url)) [
    | inl e ↦ rw e (record { ready = h.ready; in_step = h.in_step })
    | inr e ↦ rw e h
  ]

  -- The same rows and timers.
  pub same-IsOnTime :
      (j j' : Jit)
      → IsOnTime uuid j
      → j'.db.tickets ≡ j.db.tickets
      → j'.db.faults ≡ []
      → j'.timers ≡ j.timers
      → IsOnTime uuid j'
  same-IsOnTime j j' h rows quiet same = record {
    ready = quiet;
    in_step = λ k. rw (rows, same) (h.in_step k);
  }
