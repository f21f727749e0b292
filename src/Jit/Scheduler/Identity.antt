-- ===== src/Jit/Scheduler/Identity.antt =====
-- Whom a ticket belongs to and what it is for, under the timers of knox-proxy/jit/scheduler.go.
use mathlib.Core.Path.{subst}
use knox_proxy.Jit.Handler.Rows.{fire_webhook-db}
use knox_proxy.Base.{
  delete, leb, lookup, sym, Option-cases, Bool-cases, ℕ, Option, ◌≡◌, Str, none, some, inr, inl,
  refl,
}
use knox_proxy.Jit.Scheduler.{execute_transition, fire, finish_transition, Jit}
use knox_proxy.Jit.Repository.{system_update_status, Uuid}
use knox_proxy.Jit.Ticket.{active, Status, Ticket}
use knox_proxy.Jit.Repository.Identity.{system_update_status-Keeps, Keeps-refl, Keeps}

pub finish_transition-db :
    (url : Str) (target : Status) (now : ℕ) (row : Option Ticket) (j : Jit)
    → (finish_transition url target now row j).db ≡ j.db
unfolding finish_transition
finish_transition-db url target now none j = refl
finish_transition-db url target now (some t) j =
    elim target as (λ target. (finish_transition url target now (some t) j).db ≡ j.db) [
      | active ↦ fire_webhook-db url t j
      | _ ↦ fire_webhook-db url t j
    ]

pub fire-Keeps :
    (uuid : Uuid) (url id : Str) (now : ℕ) (j : Jit) → Keeps j.db (fire uuid url id now j).db
unfolding fire execute_transition
fire-Keeps uuid url id now j = elim (Option-cases (lookup id j.timers)) [
  | inl e ↦ rw (e, fire) (Keeps-refl j.db)
  | inr (timer, e) ↦ elim (Bool-cases (leb timer.due now)) [
    | inr f ↦ rw (e, fire, f) (Keeps-refl j.db)
    | inl f ↦
        let updated = system_update_status uuid id timer.target_status now j.db in
        rw (e, fire, f)
          (subst (Keeps j.db)
            (sym (
              finish_transition-db url timer.target_status now updated.0
                (record j { db = updated.1; timers = delete id j.timers })))
            (system_update_status-Keeps uuid id timer.target_status now j.db))
  ]
]
