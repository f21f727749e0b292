-- ===== src/Jit/Scheduler.antt =====
-- knox-proxy/jit/scheduler.go: the timers that start and end the access. A timer fires at any time
-- once it is due; firing is one step.
pub mod Laws
pub mod Liveness
pub mod Identity
pub mod Told
pub mod Targets
pub mod Early
pub mod Init
pub mod Writing
pub mod Firing
pub mod Timed
use knox_proxy.Base.{
  leb, non_empty, ◌-◌, Bool, lookup, if◌then◌else◌, List, insert, ◌+◌, Option, delete, Map, false,
  true, none, some, ◌∷◌, [], ℕ, Str,
}
use knox_proxy.Jit.Ticket.{expired, requested, active, approved, Ticket, Status}
use knox_proxy.Jit.Repository.{after_query, query_fails, system_update_status, Db, Uuid}

pub record Timer : Type 0 where
  pub target_status : Status
  pub due : ℕ

abbrev pub Timers : Type 0
Timers = Map Timer

-- Cancel
unfoldable pub cancel : Str → Timers → Timers
cancel id timers = delete id timers

-- The transition that a ticket waits for, and its instant.
unfoldable pub next_transition : Ticket → Option (Status × ℕ)
next_transition t = elim t.status [
  | approved ↦ some (active, t.period_start)
  | active ↦ some (expired, t.period_end)
  | requested ↦ some (expired, t.period_end)
  | _ ↦ none
]

-- An instant that has passed is now. Waiting for more than 292 years, which a Duration cannot hold and
-- time.Until cuts off, is not cut off.
abbrev pub timer_for : ℕ → Status × ℕ → Timer
timer_for now (status, at) = record { target_status = status; due = now + (at - now) }

unfoldable pub schedule : Ticket → ℕ → Timers → Timers
unfolding cancel next_transition
schedule t now timers = elim (next_transition t) [
  | none ↦ cancel t.id timers
  | some transition ↦ insert t.id (timer_for now transition) (cancel t.id timers)
]

-- The process: the table, the timers, and the tickets that the webhook was sent, the last first.
pub record Jit : Type 0 where
  pub db : Db
  pub timers : Timers
  pub sent : List Ticket

-- FireWebhook, for a webhookURL that may be "".
unfoldable pub fire_webhook : Str → Ticket → Jit → Jit
fire_webhook url t j = if non_empty url then record j { sent = t ∷ j.sent } else j

-- What executeTransition does behind the update, with the callback that main.go passes.
unfoldable pub finish_transition : Str → Status → ℕ → Option Ticket → Jit → Jit
finish_transition url target now none j = j
finish_transition url target now (some t) j =
    let j' = fire_webhook url t j in
    elim target [ active ↦ record j' { timers = schedule t now j'.timers } | _ ↦ j' ]

unfoldable pub execute_transition : Uuid → Str → Str → Status → ℕ → Jit → Jit
execute_transition uuid url id target now j =
    let (row, db') = system_update_status uuid id target now j.db in
    finish_transition url target now row (record j { db = db'; timers = delete id j.timers })

-- A due timer fires.
unfoldable pub fire : Uuid → Str → Str → ℕ → Jit → Jit
fire uuid url id now j = elim (lookup id j.timers) [
  | none ↦ j
  | some timer ↦
      if leb timer.due now then execute_transition uuid url id timer.target_status now j else j
]

-- The rows of GetPendingTransitions.
unfoldable pub is_pending : Status → Bool
is_pending requested = true
is_pending approved = true
is_pending active = true
is_pending _ = false

unfoldable pub pending_transitions : List Ticket → List Ticket
unfolding is_pending
pending_transitions [] = []
pending_transitions (t ∷ ts) =
    let rest = pending_transitions ts in if is_pending t.status then t ∷ rest else rest

unfoldable pub schedule_all : List Ticket → ℕ → Timers → Timers
unfolding schedule
schedule_all [] now timers = timers
schedule_all (t ∷ ts) now timers = schedule_all ts now (schedule t now timers)

-- InitFromDB; if the query fails no timer is set.
unfoldable pub init_from_db : ℕ → Jit → Jit
init_from_db now j = if query_fails j.db then record j { db = after_query j.db } else record j {
  db = after_query j.db;
  timers = schedule_all (pending_transitions j.db.tickets) now j.timers;
}
