-- ===== src/Jit/Scheduler/Early.antt =====
-- A timer changes its ticket when it is due, and none before its time (knox-proxy/jit/scheduler.go).
use mathlib.Core.Option.{some-injective}
use knox_proxy.Base.{
  bytes, ◌≤◌, arith, sym, leb, ◌∙◌, Bool-cases, delete, lookup, Option-cases, ◌<◌, ap, ◌≢◌, ◌≡◌, ℕ,
  Str, some, inr, inl,
}
use knox_proxy.Jit.Repository.{system_status, Db, system_update_status, find_ticket, Uuid}
use knox_proxy.Jit.Scheduler.{next_transition, Timer, fire, execute_transition, Jit}
use knox_proxy.Jit.Ticket.{Status, Ticket}
use knox_proxy.Jit.Scheduler.Timed.{next_transition-differs, IsOnTime}
use knox_proxy.Jit.Scheduler.Identity.{finish_transition-db}
use knox_proxy.Jit.Repository.System.{system_update_status-other}
use knox_proxy.Jit.Scheduler.Liveness.{written_row, fire_due, written, HasRow}

module _ (uuid : Uuid) (url id k : Str) (now : ℕ) (j : Jit) where
  -- A timer writes no row but its own.
  other_row :
      (x : Timer)
      → uuid id ≡ some id
      → id ≢ k
      → find_ticket k (execute_transition uuid url id x.target_status now j).db.tickets
        ≡ find_ticket k j.db.tickets
  unfolding execute_transition
  other_row x canonical other =
      let updated = system_update_status uuid id x.target_status now j.db in
      ap (λ (db : Db). find_ticket k db.tickets)
        (finish_transition-db url x.target_status now updated.0
          (record j { db = updated.1; timers = delete id j.timers }))
      ∙ system_update_status-other uuid id k x.target_status now j.db other canonical

  pub early_row :
      (t : Ticket) (target : Status) (at : ℕ)
      → IsOnTime uuid j
      → find_ticket k j.db.tickets ≡ some t
      → next_transition t ≡ some (target, at)
      → now < at
      → find_ticket k (fire uuid url id now j).db.tickets ≡ some t
  unfolding fire
  early_row t target at h there next early = elim (Option-cases (lookup id j.timers)) [
    | inl e ↦ rw (e, fire) there
    | inr (x, e) ↦ elim (Bool-cases (leb x.due now)) [
      | inr f ↦ rw (e, fire, f) there
      | inl f ↦
          rw (e, fire, f)
            (other_row x ((h.in_step id).own_timer x e).0 (λ same.
                let (due, set, later) = (h.in_step k).timed t target at there next in
                let both : x ≡ record { target_status = target; due = due } =
                  some-injective x (record { target_status = target; due = due })
                    (sym e ∙ ap (λ i. lookup i j.timers) same ∙ set) in
                let dues : x.due ≡ due = ap (λ (y : Timer). y.due) both in
                ground (arith, f, dues, later, early))
              ∙ there)
    ]
  ]

-- The timer of a ticket's transition, and the row behind it.
abbrev pub ChangesAt : Uuid → Str → Str → Jit → Ticket → Status → ℕ → Type 0
ChangesAt uuid url k j t target at =
    (due : ℕ) × (at ≤ due)
    × (lookup k j.timers ≡ some (record { target_status = target; due = due }))
    × (find_ticket k (fire uuid url k due j).db.tickets
        ≡ some (record t { status = target; updated_by = bytes "system"; updated_at = due }))

module _ (uuid : Uuid) (url k : Str) (j : Jit) (t : Ticket) (target : Status) (at : ℕ) where
  pub due_row :
      IsOnTime uuid j
      → find_ticket k j.db.tickets ≡ some t
      → next_transition t ≡ some (target, at)
      → ChangesAt uuid url k j t target at
  due_row h there next =
      let (due, set, later) = (h.in_step k).timed t target at there next in
      let canonical = (h.in_step k).own_row t there in
      let row : HasRow uuid k canonical t j.db = record { ready = h.ready; there = there } in
      let t' = system_status target due t in
      let j' : Jit = record j {
        db = written uuid k canonical target due j.db;
        timers = delete k j.timers;
      } in
      let fired =
        fire_due uuid k canonical target due t url due j row
          (next_transition-differs t target at next) set (omega arith) in
      (
        due,
        later,
        set,
        ap (λ (x : Jit). find_ticket k x.db.tickets) fired
            ∙ ap (λ (db : Db). find_ticket k db.tickets)
                (finish_transition-db url target due (some t') j')
            ∙ (written_row uuid k canonical target due t j.db row).there,
      )
