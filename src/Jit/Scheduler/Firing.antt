-- ===== src/Jit/Scheduler/Firing.antt =====
-- A timer that fires, while no query fails (executeTransition of knox-proxy/jit/scheduler.go).
use mathlib.Core.Path.{subst}
use mathlib.Core.Option.{some-injective}
use knox_proxy.Base.{
  ap, leb, ◌∙◌, Option-cases, sym, ◌⊎◌, lookup, eq_false, lookup-delete, eq_iff, ◌==◌, Bool-cases,
  delete, ◌≡◌, ℕ, Str, false, true, none, some, inr, inl, refl,
}
use knox_proxy.Jit.Scheduler.Laws.{fire_webhook-parts}
use knox_proxy.Jit.Scheduler.Liveness.{system_update_status-written, HasRow, written}
use knox_proxy.Jit.Ticket.{Ticket, Status, active, expired}
use knox_proxy.Jit.Repository.{
  query_fails, system_status, after_query, same_status, system_update_row, system_update_status,
  find_ticket, Uuid,
}
use knox_proxy.Jit.Scheduler.{
  fire, Timer, fire_webhook, finish_transition, next_transition, execute_transition, Jit,
}
use knox_proxy.Jit.Scheduler.Timed.{
  next_transition-differs, fire_webhook-IsOnTime, IsOnTime, stopped-IsInStep,
}
use knox_proxy.Jit.Scheduler.Writing.{stopped_row-IsOnTime, rescheduled-IsOnTime}

module _ (uuid : Uuid) (id : Str) where
  -- A timer is removed, of a row that waits for nothing.
  removed-IsOnTime :
      (j : Jit)
      → IsOnTime uuid j
      → ((t : Ticket) → find_ticket id j.db.tickets ≡ some t → next_transition t ≡ none)
      → IsOnTime uuid (record j { db = after_query j.db; timers = delete id j.timers })
  removed-IsOnTime j h settled = record {
    ready = rw h.ready refl;
    in_step = λ k. elim (Bool-cases (id == k)) [
      | inl e ↦
          let here = (eq_iff id k).0 e in
          rw (lookup-delete id k j.timers, e)
            (stopped-IsInStep uuid k (find_ticket k j.db.tickets)
              (λ t there. ((h.in_step k).own_row t there, settled t (rw here there))))
      | inr e ↦ rw (lookup-delete id k j.timers, e) (h.in_step k)
    ];
  }

  module _ (url : Str) (target : Status) (now : ℕ) (j : Jit) (h : IsOnTime uuid j)
      (canonical : uuid id ≡ some id) where
    stopped : Jit
    stopped = record j { db = after_query j.db; timers = delete id j.timers }

    no_row :
        find_ticket id j.db.tickets ≡ none → execute_transition uuid url id target now j ≡ stopped
    unfolding execute_transition system_update_status system_update_row finish_transition stopped
    no_row gone =
        let fine : query_fails j.db ≡ false = rw h.ready refl in rw (fine, canonical, gone) refl

    same_row :
        (t : Ticket)
        → find_ticket id j.db.tickets ≡ some t
        → same_status t.status target ≡ true
        → execute_transition uuid url id target now j ≡ stopped
    unfolding execute_transition system_update_status system_update_row finish_transition stopped
    same_row t there same =
        let fine : query_fails j.db ≡ false = rw h.ready refl in
        rw (fine, canonical, there, same) refl

    -- The row that the timer writes.
    written_row :
        (t : Ticket)
        → find_ticket id j.db.tickets ≡ some t
        → same_status t.status target ≡ false
        → ((target ≡ active) ⊎ (target ≡ expired))
        → IsOnTime uuid (execute_transition uuid url id target now j)
    unfolding execute_transition finish_transition next_transition
    written_row t there differs kind =
        let t' = system_status target now t in
        let db' = written uuid id canonical target now j.db in
        let j' : Jit = record j { db = db'; timers = delete id j.timers } in
        let row : HasRow uuid id canonical t j.db = record { ready = h.ready; there = there } in
        let (same_db, same_timers) = fire_webhook-parts url t' j' in
        rw (system_update_status-written uuid id canonical target now t j.db row differs)
          (elim kind [
            | inl e ↦
                subst (λ s. IsOnTime uuid (finish_transition url s now (some t') j')) (sym e)
                  (rw (same_db, same_timers)
                    (rescheduled-IsOnTime uuid j h id t there (system_status target now) (λ _. refl)
                      now (delete id j.timers) (fire_webhook url t' j').sent canonical
                      (λ k other. rw (lookup-delete id k j.timers, eq_false id k other) refl)))
            | inr e ↦
                let waits : next_transition t' ≡ none = rw e refl in
                subst (λ s. IsOnTime uuid (finish_transition url s now (some t') j')) (sym e)
                  (fire_webhook-IsOnTime uuid url t' j' (
                    stopped_row-IsOnTime uuid j h id t there (system_status target now) (λ _. refl)
                      id j.sent canonical waits))
          ])

    waits_for_nothing :
        (u t : Ticket) (x : Timer)
        → find_ticket id j.db.tickets ≡ some u
        → find_ticket id j.db.tickets ≡ some t
        → lookup id j.timers ≡ some x
        → x.target_status ≡ target
        → same_status t.status target ≡ true
        → next_transition u ≡ none
    waits_for_nothing u t x found there timer aim same = elim (Option-cases (next_transition u)) [
      | inl e ↦ e
      | inr ((s, at), e) ↦
          let (due, set, later) = (h.in_step id).timed u s at found e in
          let one : u ≡ t = some-injective u t (sym found ∙ there) in
          let both : x ≡ record { target_status = s; due = due } =
            some-injective x (record { target_status = s; due = due }) (sym timer ∙ set) in
          let goal : s ≡ target = sym (ap (λ (y : Timer). y.target_status) both) ∙ aim in
          let differs = next_transition-differs u s at e in
          let differs' : same_status t.status target ≡ false = rw (← one, ← goal) differs in
          absurd (cc (same, differs'))
    ]

    -- A row that the target no longer changes waits for nothing, as does a row that is gone.
    execute_transition-IsOnTime :
        (x : Timer)
        → lookup id j.timers ≡ some x
        → x.target_status ≡ target
        → IsOnTime uuid (execute_transition uuid url id target now j)
    unfolding stopped
    execute_transition-IsOnTime x timer aim = elim (Option-cases (find_ticket id j.db.tickets)) [
      | inl gone ↦ rw (no_row gone) (removed-IsOnTime j h (λ t there. absurd (cc (gone, there))))
      | inr (t, there) ↦ elim (Bool-cases (same_status t.status target)) [
        | inr differs ↦
            written_row t there differs (rw (← aim) (((h.in_step id).own_timer x timer).1))
        | inl same ↦
            rw (same_row t there same)
              (removed-IsOnTime j h (λ u found. waits_for_nothing u t x found there timer aim same))
      ]
    ]

  pub fire-IsOnTime :
      (url : Str) (now : ℕ) (j : Jit) → IsOnTime uuid j → IsOnTime uuid (fire uuid url id now j)
  unfolding fire
  fire-IsOnTime url now j h = elim (Option-cases (lookup id j.timers)) [
    | inl e ↦ rw (e, fire) h
    | inr (x, e) ↦ elim (Bool-cases (leb x.due now)) [
      | inr f ↦ rw (e, fire, f) h
      | inl f ↦
          rw (e, fire, f)
            (execute_transition-IsOnTime url x.target_status now j h
              ((h.in_step id).own_timer x e).0 x e refl)
    ]
  ]
