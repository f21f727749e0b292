-- ===== src/Jit/Admin/Race.antt =====
-- A timer that fires between the update of a revocation and its call of the scheduler
-- (handleAdminUpdateStatus of knox-proxy/jit/handler.go, executeTransition of
-- knox-proxy/jit/scheduler.go).
use mathlib.Core.Path.{subst}
use knox_proxy.Base.{
  lookup-delete, ap, sym, delete, eq_refl, lookup, ◌==◌, bytes, ◌≡◌, ℕ, Str, true, none, some, refl,
  [],
}
use knox_proxy.Jit.Repository.{
  system_status, update_ticket, same_status, update_ticket_status, find_ticket, Db, Updated,
  with_status, updated,
}
use knox_proxy.Jit.Ticket.{
  expired, status_text, is_valid_transition, Ticket, revoked, active, approved,
}
use knox_proxy.Jit.Handler.{ticket_reply, Reply, Api}
use knox_proxy.Jit.Scheduler.{timer_for, cancel, fire, Jit}
use knox_proxy.Jit.Admin.{reschedule, status_updated}
use knox_proxy.Jit.Schema.{varchar}
use knox_proxy.Jit.Scheduler.Liveness.{start_fired, HasRow, IsDue}
use knox_proxy.Jit.Repository.Quiet.{quiet}
use knox_proxy.Jit.Repository.Quiet.{quiet_write}
use knox_proxy.Jit.Repository.Laws.{find_ticket-id, find-update}
use knox_proxy.Jit.Scheduler.Laws.{fire_webhook-parts}

module _ (api : Api) (id : Str) (reason by : Str) (now fired later : ℕ) (t : Ticket) (j : Jit) where
  abbrev revoked_row : Ticket
  revoked_row = with_status revoked reason by now t

  abbrev revocation : Updated × Db
  revocation = update_ticket_status api.uuid id revoked reason by now j.db

  -- Behind the update of the row.
  abbrev written : Jit
  written = record j { db = revocation.1 }

  -- Behind the timer.
  abbrev overtaken : Jit
  overtaken = fire api.uuid api.webhook_url id fired written

  -- What is left of the handler, on what it finds then.
  abbrev pub finished : Reply × Jit
  finished = status_updated api revoked later (revocation.0, overtaken.db) overtaken

  module _ (canonical : api.uuid id ≡ some id) (ready : j.db.faults ≡ [])
      (there : find_ticket id j.db.tickets ≡ some t) (waits : t.status ≡ approved)
      (short : varchar 255 by ≡ true) (due : IsDue api.uuid id canonical active fired j) where
    revocation_done : revocation ≡ (
      updated (some revoked_row),
      quiet (update_ticket id (with_status revoked reason by now) j.db.tickets),
    )
    unfolding is_valid_transition
    revocation_done =
        quiet_write api.uuid id revoked reason by now j.db id t ready canonical there
          (rw waits refl) short

    started_again :
        HasRow api.uuid id canonical (system_status active fired revoked_row) overtaken.db
        × (lookup id overtaken.timers ≡ some (timer_for fired (expired, t.period_end)))
    unfolding same_status status_text bytes ◌==◌
    started_again =
        start_fired api.uuid id canonical api.webhook_url fired revoked_row written
          (rw revocation_done (record {
            ready = refl;
            there =
                rw
                  (
                    find-update id id (with_status revoked reason by now) j.db.tickets (λ _. refl),
                    eq_refl id,
                    there,
                  )
                  refl;
          }))
          refl due

    abbrev IsLost : Reply × Jit → Type 0
    IsLost (answer, j') =
        (answer ≡ ticket_reply 200 revoked_row)
        × (find_ticket id j'.db.tickets ≡ some (system_status active fired revoked_row))
        × (lookup id j'.timers ≡ none)

    canceled_again :
        IsLost
          (status_updated api revoked later (updated (some revoked_row), overtaken.db) overtaken)
    unfolding status_updated reschedule cancel
    canceled_again =
        let j' : Jit = record overtaken { timers = delete t.id overtaken.timers } in
        let (same_db, same_timers) = fire_webhook-parts api.webhook_url revoked_row j' in
        let row_id = find_ticket-id id t j.db.tickets there in
        let gone : lookup id (delete t.id overtaken.timers) ≡ none =
          rw (lookup-delete t.id id overtaken.timers, row_id, eq_refl id) refl in
        rw (same_db, same_timers) (refl, started_again.0.there, gone)

    -- If an admin revokes an approved ticket and the timer of its start, which is due, fires behind the
    -- update of the row and before the call of Cancel, the admin is answered 200 with the revoked
    -- ticket, but the row is active, and has no timer: nothing ends the access. No query fails, the
    -- ticket's ID is its own canonical text, and the admin's name fits its column.
    pub revocation_overtaken :
        let (answer, j') = finished in
        (answer ≡ ticket_reply 200 revoked_row)
        × (find_ticket id j'.db.tickets ≡ some (system_status active fired revoked_row))
        × (lookup id j'.timers ≡ none)
    revocation_overtaken =
        subst (λ result. IsLost (status_updated api revoked later (result, overtaken.db) overtaken))
          (sym (ap (λ done. done.0) revocation_done)) canceled_again
