-- ===== src/Jit/Scheduler/Targets.antt =====
-- The timers of knox-proxy/jit/scheduler.go start or end access, and keep the types of the rows.
use mathlib.Core.Path.{subst}
use mathlib.Core.Option
use mathlib.Core.Option.{some-injective}
use knox_proxy.Base.{
  ap, ◌∙◌, arith, sym, leb, lookup-delete, ◌⊎◌, Option-cases, ◌==◌, ◌≡◌, bytes, Option, Bool-cases,
  lookup, List, ℕ, delete, Str, true, none, some, inr, inl, refl, ◌∷◌, [],
}
use knox_proxy.Jit.Ticket.{status_text, Status, Ticket, active, expired}
use knox_proxy.Jit.Scheduler.{
  next_transition, schedule, timer_for, execute_transition, fire_webhook, Timer, fire,
  finish_transition, schedule_all, Jit, Timers,
}
use knox_proxy.Jit.Schema.{characters, varchar}
use knox_proxy.Jit.Schema.Table.{IsTable}
use knox_proxy.Jit.Scheduler.Laws.{schedule-lookup, fire_webhook-parts}
use knox_proxy.Jit.Repository.{system_update_status, Uuid}
use knox_proxy.Jit.Scheduler.Timed.{next_transition-target}
use knox_proxy.Jit.Repository.Table.{system_update_status-IsTable}

abbrev pub StartOrEnd : Timers → Type 0
StartOrEnd timers =
    (k : Str) (x : Timer)
    → lookup k timers ≡ some x
    → (x.target_status ≡ active) ⊎ (x.target_status ≡ expired)

-- A table of the schema, and timers that start or end access.
pub record IsTyped (j : Jit) : Type 0 where
  pub table : IsTable j.db.tickets
  pub targets : StartOrEnd j.timers

pub cancel-StartOrEnd :
    (id : Str) (timers : Timers) → StartOrEnd timers → StartOrEnd (delete id timers)
cancel-StartOrEnd id timers h k x set = elim (Bool-cases (id == k)) [
  | inl e ↦
      let gone : lookup k (delete id timers) ≡ none = rw (lookup-delete id k timers, e) refl in
      absurd (cc (gone, set))
  | inr e ↦
      let left : lookup k (delete id timers) ≡ lookup k timers =
        rw (lookup-delete id k timers, e) in
      h k x (sym left ∙ set)
]

timer_for-target :
    (t : Ticket) (now : ℕ) (x : Timer)
    → Option.map (timer_for now) (next_transition t) ≡ some x
    → (x.target_status ≡ active) ⊎ (x.target_status ≡ expired)
timer_for-target t now x h = elim (Option-cases (next_transition t)) [
  | inl e ↦ absurd (cc (e, h))
  | inr ((s, at), e) ↦
      let made : some (timer_for now (s, at)) ≡ some x =
        sym (ap (Option.map (timer_for now)) e) ∙ h in
      let same : timer_for now (s, at) ≡ x = some-injective (timer_for now (s, at)) x made in
      subst (λ (y : Timer). (y.target_status ≡ active) ⊎ (y.target_status ≡ expired)) same
        (next_transition-target t s at e)
]

pub schedule-StartOrEnd :
    (t : Ticket) (now : ℕ) (timers : Timers)
    → StartOrEnd timers
    → StartOrEnd (schedule t now timers)
schedule-StartOrEnd t now timers h k x set = elim (Bool-cases (t.id == k)) [
  | inl e ↦
      let here : lookup k (schedule t now timers) ≡ Option.map (timer_for now) (next_transition t) =
        rw (schedule-lookup t now timers k, e) refl in
      timer_for-target t now x (sym here ∙ set)
  | inr e ↦
      let left : lookup k (schedule t now timers) ≡ lookup k timers =
        rw (schedule-lookup t now timers k, e) in
      h k x (sym left ∙ set)
]

pub schedule_all-StartOrEnd :
    (ts : List Ticket) (now : ℕ) (timers : Timers)
    → StartOrEnd timers
    → StartOrEnd (schedule_all ts now timers)
unfolding schedule_all
schedule_all-StartOrEnd [] now timers h = h
schedule_all-StartOrEnd (t ∷ ts) now timers h =
    schedule_all-StartOrEnd ts now (schedule t now timers) (schedule-StartOrEnd t now timers h)

pub fire_webhook-IsTyped :
    (url : Str) (t : Ticket) (j : Jit) → IsTyped j → IsTyped (fire_webhook url t j)
fire_webhook-IsTyped url t j h =
    let (same_db, same_timers) = fire_webhook-parts url t j in
    record { table = rw same_db h.table; targets = rw same_timers h.targets }

finish_transition-IsTyped :
    (url : Str) (target : Status) (now : ℕ) (row : Option Ticket) (j : Jit)
    → IsTyped j
    → IsTyped (finish_transition url target now row j)
unfolding finish_transition
finish_transition-IsTyped url target now none j h = h
finish_transition-IsTyped url target now (some t) j h =
    let sent = fire_webhook-IsTyped url t j h in
    elim target as (λ target. IsTyped (finish_transition url target now (some t) j)) [
      | active ↦ record {
        table = sent.table;
        targets = schedule-StartOrEnd t now (fire_webhook url t j).timers sent.targets;
      }
      | _ ↦ sent
    ]

target_fits : (s : Status) → (s ≡ active) ⊎ (s ≡ expired) → varchar 20 (status_text s) ≡ true
unfolding varchar characters bytes status_text
target_fits s h = ground (arith, h)

pub fire-IsTyped :
    (uuid : Uuid) (url id : Str) (now : ℕ) (j : Jit) → IsTyped j → IsTyped (fire uuid url id now j)
unfolding fire execute_transition
fire-IsTyped uuid url id now j h = elim (Option-cases (lookup id j.timers)) [
  | inl e ↦ rw (e, fire) h
  | inr (x, e) ↦ elim (Bool-cases (leb x.due now)) [
    | inr f ↦ rw (e, fire, f) h
    | inl f ↦
        let aim = x.target_status in
        let updated = system_update_status uuid id aim now j.db in
        rw (e, fire, f)
          (finish_transition-IsTyped url aim now updated.0
            (record j { db = updated.1; timers = delete id j.timers })
            (record {
              table =
                  system_update_status-IsTable uuid aim now j.db h.table
                    (target_fits aim (h.targets id x e)) id;
              targets = cancel-StartOrEnd id j.timers h.targets;
            }))
  ]
]
