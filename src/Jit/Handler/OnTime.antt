-- ===== src/Jit/Handler/OnTime.antt =====
-- The timers behind the answers that write a row (knox-proxy/jit/handler.go), as long as no query
-- fails.
use mathlib.Core.Path.{subst}
use knox_proxy.Base.{
  Str, eq_refl, eq_refl, eq_iff, lookup, ◌==◌, Bool-cases, Option-cases, ◌≡◌, List, ℕ, false, true,
  some, inr, inl, refl, ◌∷◌,
}
use knox_proxy.Jit.Ticket.{approved, rejected, revoked, canceled, Status, Ticket}
use knox_proxy.Jit.Scheduler.Laws.{schedule-lookup}
use knox_proxy.Jit.Handler.{ticket_canceled, with_db, ticket_created, Api}
use knox_proxy.Jit.Scheduler.{cancel, next_transition, schedule, Jit}
use knox_proxy.Jit.Scheduler.Timed.{
  schedule-IsInStep, fire_webhook-IsOnTime, IsInStep, same-IsOnTime, IsOnTime,
}
use knox_proxy.Jit.Repository.{
  after_query, update_ticket, update_ticket_status, with_status, stored_ticket, query_fails,
  generate_ticket_number, Draw, create_ticket, find_ticket,
}
use knox_proxy.Jit.Repository.Quiet.{quiet_update, IsCanonical, quiet}
use knox_proxy.Jit.Admin.{is_admin_target, reschedule, status_updated}
use knox_proxy.Jit.Scheduler.Writing.{stopped_row-IsOnTime, rescheduled-IsOnTime}
use knox_proxy.Jit.Repository.Laws.{find_ticket-id}
use knox_proxy.Jit.Schema.{admits}

module _ (api : Api) (now : ℕ) (j : Jit) (h : IsOnTime api.uuid j) where
  -- A new row is scheduled.
  added-IsOnTime :
      (t : Ticket) (sent : List Ticket)
      → api.uuid t.id ≡ some t.id
      → IsOnTime api.uuid
          (record { db = quiet (t ∷ j.db.tickets); timers = schedule t now j.timers; sent = sent })
  unfolding find_ticket
  added-IsOnTime t sent canonical = record {
    ready = refl;
    in_step = λ k. elim (Bool-cases (t.id == k)) [
      | inl e ↦
          subst
            (λ i.
              IsInStep api.uuid i (lookup i (schedule t now j.timers))
                (find_ticket i (t ∷ j.db.tickets)))
            ((eq_iff t.id k).0 e)
            (rw (eq_refl t.id) (schedule-IsInStep api.uuid t now j.timers canonical))
      | inr e ↦ rw (schedule-lookup t now j.timers k, e) (h.in_step k)
    ];
  }

  pub ticket_created-IsOnTime :
      (t : Ticket) (draw : Draw)
      → api.uuid draw.id ≡ some draw.id
      → IsOnTime api.uuid (ticket_created api now (create_ticket t draw j.db) j).1
  unfolding ticket_created create_ticket
  ticket_created-IsOnTime t draw canonical =
      elim (Option-cases (generate_ticket_number draw.random draw.date)) [
        | inl e ↦
            rw (e, create_ticket) (same-IsOnTime api.uuid j (with_db j.db j) h refl h.ready refl)
        | inr (number, e) ↦
            let fine : query_fails j.db ≡ false = rw h.ready refl in
            let t' = stored_ticket t number draw in
            elim (Bool-cases (admits j.db.tickets t')) [
              | inr f ↦
                  rw (e, create_ticket, fine, f)
                    (same-IsOnTime api.uuid j (with_db (after_query j.db) j) h refl
                      (rw h.ready refl) refl)
              | inl f ↦
                  rw (e, create_ticket, fine, f)
                    (fire_webhook-IsOnTime api.uuid api.webhook_url t' _
                      (rw h.ready (added-IsOnTime t' j.sent canonical)))
            ]
      ]

  -- Behind an update that changed nothing.
  refused-IsOnTime : IsOnTime api.uuid (with_db (quiet j.db.tickets) j)
  refused-IsOnTime = same-IsOnTime api.uuid j (with_db (quiet j.db.tickets) j) h refl refl refl

  -- The timer of the row that an admin updated.
  reschedule-IsOnTime :
      (status : Status) (reason by key : Str) (t : Ticket)
      → api.uuid key ≡ some key
      → find_ticket key j.db.tickets ≡ some t
      → is_admin_target api status ≡ true
      → IsOnTime api.uuid (record {
        db = quiet (update_ticket key (with_status status reason by now) j.db.tickets);
        timers = reschedule api status (with_status status reason by now t) now j.timers;
        sent = j.sent;
      })
  unfolding reschedule is_admin_target next_transition cancel
  reschedule-IsOnTime approved reason by key t canonical there admin =
      rescheduled-IsOnTime api.uuid j h key t there (with_status approved reason by now) (λ _. refl)
        now j.timers j.sent canonical (λ _ _. refl)
  reschedule-IsOnTime rejected reason by key t canonical there admin =
      stopped_row-IsOnTime api.uuid j h key t there (with_status rejected reason by now) (λ _. refl)
        t.id j.sent (rw (find_ticket-id key t j.db.tickets there) canonical) refl
  reschedule-IsOnTime revoked reason by key t canonical there admin =
      stopped_row-IsOnTime api.uuid j h key t there (with_status revoked reason by now) (λ _. refl)
        t.id j.sent (rw (find_ticket-id key t j.db.tickets there) canonical) refl
  reschedule-IsOnTime _ reason by key t canonical there admin = absurd (cc admin)

  pub status_updated-IsOnTime :
      (id : Str) (status : Status) (reason by : Str)
      → IsCanonical api.uuid
      → is_admin_target api status ≡ true
      → IsOnTime api.uuid
          (status_updated api status now
            (update_ticket_status api.uuid id status reason by now j.db)
            j).1
  unfolding status_updated
  status_updated-IsOnTime id status reason by canonical admin =
      elim (quiet_update api.uuid id status reason by now j.db h.ready) [
        | inl (e, refusal) ↦ rw refusal refused-IsOnTime
        | inr (key, t, u, there, valid, done) ↦ rw done (
            fire_webhook-IsOnTime api.uuid api.webhook_url (with_status status reason by now t) _
              (reschedule-IsOnTime status reason by key t (canonical id key u) there admin))
      ]

  pub ticket_canceled-IsOnTime :
      (id reason by : Str)
      → IsOnTime api.uuid
          (ticket_canceled api id
            (update_ticket_status api.uuid id canceled reason by now j.db)
            j).1
  unfolding ticket_canceled next_transition cancel
  ticket_canceled-IsOnTime id reason by =
      elim (quiet_update api.uuid id canceled reason by now j.db h.ready) [
        | inl (e, refusal) ↦ rw refusal refused-IsOnTime
        | inr (key, t, u, there, valid, done) ↦ rw done (
            fire_webhook-IsOnTime api.uuid api.webhook_url (with_status canceled reason by now t) _
              (stopped_row-IsOnTime api.uuid j h key t there (with_status canceled reason by now)
                (λ _. refl) id j.sent u refl))
      ]
