-- ===== src/Jit/Scheduler/Liveness.antt =====
-- Approved access starts and ends by the timers of knox-proxy/jit/scheduler.go.
use knox_proxy.Base.{
  ◌==◌, bytes, ◌-◌, ◌+◌, lookup-delete, arith, leb, leb, delete, ◌≤◌, lookup, eq_refl, ℕ, ◌≡◌, Str,
  false, true, none, some, refl, [],
}
use knox_proxy.Jit.Repository.{
  same_status, select_ticket, get_ticket_by_id, system_update_row, system_update_status,
  system_status, update_ticket, find_ticket, Db, Uuid,
}
use knox_proxy.Jit.Ticket.{status_text, approved, expired, active, Status, Ticket}
use knox_proxy.Jit.Repository.Laws.{find-update, find_ticket-id}
use knox_proxy.Jit.Scheduler.{
  next_transition, timer_for, fire_webhook, finish_transition, Jit, execute_transition, fire,
}
use knox_proxy.Jit.Scheduler.Laws.{fire_webhook-parts, schedule-lookup}

module _ (uuid : Uuid) (id : Str) (canonical : uuid id ≡ some id) where
  -- The row of this ID, in a database of which no query fails.
  pub record HasRow (t : Ticket) (db : Db) : Type 0 where
    pub ready : db.faults ≡ []
    pub there : find_ticket id db.tickets ≡ some t

  row_id : (t : Ticket) (db : Db) → HasRow t db → t.id ≡ id
  row_id t db row = find_ticket-id id t db.tickets row.there

  abbrev pub written : Status → ℕ → Db → Db
  written target now db = record db {
    tickets = update_ticket id (system_status target now) db.tickets;
    faults = [];
  }

  module _ (target : Status) (now : ℕ) (t : Ticket) where
    pub written_row :
        (db : Db) → HasRow t db → HasRow (system_status target now t) (written target now db)
    written_row db row = record {
      ready = refl;
      there = rw (
        find-update id id (system_status target now) db.tickets (λ _. refl),
        eq_refl id,
        row.there,
      );
    }

    pub system_update_status-written :
        (db : Db)
        → HasRow t db
        → same_status t.status target ≡ false
        → system_update_status uuid id target now db
          ≡ (some (system_status target now t), written target now db)
    unfolding system_update_status system_update_row get_ticket_by_id select_ticket
    system_update_status-written db row differs =
        rw
          (
            row.ready,
            canonical,
            row.there,
            differs,
            canonical,
            (written_row db row).there,
            row.ready,
          )
          refl

    pub fire_due :
        (url : Str) (due : ℕ) (j : Jit)
        → HasRow t j.db
        → same_status t.status target ≡ false
        → lookup id j.timers ≡ some (record { target_status = target; due = due })
        → due ≤ now
        → fire uuid url id now j
          ≡ finish_transition url target now
              (some (system_status target now t))
              (record j { db = written target now j.db; timers = delete id j.timers })
    unfolding fire execute_transition
    fire_due url due j row differs timer h =
        let passed : leb due now ≡ true = ground (arith, h) in
        rw (timer, fire, passed, system_update_status-written j.db row differs, execute_transition)

  -- The timer of a transition has come.
  abbrev pub IsDue : Status → ℕ → Jit → Type 0
  IsDue target now j =
      (due : ℕ) × (lookup id j.timers ≡ some (record { target_status = target; due = due }))
      × (due ≤ now)

  module _ (url : Str) (now : ℕ) (t : Ticket) (j : Jit) (row : HasRow t j.db) where
    pub start_fired :
        same_status t.status active ≡ false
        → IsDue active now j
        → HasRow (system_status active now t) (fire uuid url id now j).db
          × (lookup id (fire uuid url id now j).timers
              ≡ some (timer_for now (expired, t.period_end)))
    unfolding finish_transition next_transition
    start_fired differs (due, timer, h) =
        let t' = system_status active now t in
        let j' : Jit = record j { db = written active now j.db; timers = delete id j.timers } in
        let fired = fire_due active now t url due j row differs timer h in
        let (same_db, same_timers) = fire_webhook-parts url t' j' in
        rw (fired, same_db, schedule-lookup t' now (fire_webhook url t' j').timers id)
          (written_row active now t j.db row, rw (row_id t j.db row, eq_refl id) refl)

    end_fired :
        same_status t.status expired ≡ false
        → IsDue expired now j
        → HasRow (system_status expired now t) (fire uuid url id now j).db
          × (lookup id (fire uuid url id now j).timers ≡ none)
    unfolding finish_transition
    end_fired differs (due, timer, h) =
        let t' = system_status expired now t in
        let j' : Jit = record j { db = written expired now j.db; timers = delete id j.timers } in
        let fired = fire_due expired now t url due j row differs timer h in
        let (same_db, same_timers) = fire_webhook-parts url t' j' in
        rw (fired, same_db, same_timers, lookup-delete)
          (written_row expired now t j.db row, rw (eq_refl id) refl)

  -- If no query fails and the ticket's ID is its own canonical text, an approved ticket whose timer is
  -- due becomes active, its row then has the timer of its end, and when that timer fires at or after
  -- the end of the period the ticket expires and has no timer.
  pub access_starts_and_ends :
      (url : Str) (now later : ℕ) (t : Ticket) (j : Jit)
      → HasRow t j.db
      → t.status ≡ approved
      → IsDue active now j
      → now ≤ later
      → t.period_end ≤ later
      → let j1 = fire uuid url id now j in
        let j2 = fire uuid url id later j1 in
        (find_ticket id j1.db.tickets ≡ some (system_status active now t))
        × (lookup id j1.timers ≡ some (timer_for now (expired, t.period_end)))
        × (find_ticket id j2.db.tickets
            ≡ some (system_status expired later (system_status active now t)))
        × (lookup id j2.timers ≡ none)
  unfolding same_status ◌==◌ status_text bytes
  access_starts_and_ends url now later t j row status due h k =
      let j1 = fire uuid url id now j in
      let t1 = system_status active now t in
      let (row1, timer1) = start_fired url now t j row (rw status refl) due in
      let (row2, timer2) =
        end_fired url later t1 j1 row1 refl
          (now + (t.period_end - now), timer1, omega (arith, h, k)) in
      (row1.there, timer1, row2.there, timer2)
