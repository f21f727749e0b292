-- ===== src/Jit/Scheduler/Writing.antt =====
-- A row is written and its timer with it, while no query fails (knox-proxy/jit/scheduler.go).
use mathlib.Core.Path.{subst}
use mathlib.Core.Option.{some-injective}
use knox_proxy.Base.{
  sym, ap, sym, Option-cases, lookup-delete, eq_iff, ◌∙◌, ◌==◌, Bool-cases, delete, lookup, ℕ, ◌≢◌,
  ◌≡◌, List, Str, none, some, inr, inl, refl, eq_refl, eq_false,
}
use knox_proxy.Jit.Repository.{update_ticket, find_ticket, Uuid}
use knox_proxy.Jit.Scheduler.{schedule, next_transition, Timers, Jit}
use knox_proxy.Jit.Scheduler.Timed.{
  schedule-IsInStep, settled-IsInStep, settled-IsInStep, schedule-IsInStep, stopped-IsInStep,
  IsInStep, IsOnTime,
}
use knox_proxy.Jit.Ticket.{Ticket}
use knox_proxy.Jit.Repository.Quiet.{quiet}
use knox_proxy.Jit.Repository.Laws.{find-update, find_ticket-id}
use knox_proxy.Jit.Scheduler.Laws.{schedule-lookup}

module _ (uuid : Uuid) where
  -- One row is written, and the timers of the others are left.
  pub written-IsOnTime :
      (j : Jit) (key : Str) (t : Ticket) (f : Ticket → Ticket) (timers : Timers)
      (sent : List Ticket)
      → IsOnTime uuid j
      → find_ticket key j.db.tickets ≡ some t
      → ((u : Ticket) → (f u).id ≡ u.id)
      → ((k : Str) → key ≢ k → lookup k timers ≡ lookup k j.timers)
      → IsInStep uuid key (lookup key timers) (some (f t))
      → IsOnTime uuid
          (record { db = quiet (update_ticket key f j.db.tickets); timers = timers; sent = sent })
  written-IsOnTime j key t f timers sent h there same_id others own = record {
    ready = refl;
    in_step = λ k. elim (Bool-cases (key == k)) [
      | inl e ↦
          let here = (eq_iff key k).0 e in
          subst
            (λ i.
              IsInStep uuid i (lookup i timers) (find_ticket i (update_ticket key f j.db.tickets)))
            here (rw (find-update key key f j.db.tickets same_id, eq_refl key, there) own)
      | inr e ↦
          rw
            (
              find-update key k f j.db.tickets same_id,
              e,
              others k (λ p. absurd (cc (e, (eq_iff key k).1 p))),
            )
            (h.in_step k)
    ];
  }

  module _ (j : Jit) (h : IsOnTime uuid j) (key : Str) (t : Ticket)
      (there : find_ticket key j.db.tickets ≡ some t) (f : Ticket → Ticket)
      (same_id : (u : Ticket) → (f u).id ≡ u.id) where
    -- The row is scheduled anew.
    pub rescheduled-IsOnTime :
        (now : ℕ) (timers : Timers) (sent : List Ticket)
        → uuid key ≡ some key
        → ((k : Str) → key ≢ k → lookup k timers ≡ lookup k j.timers)
        → IsOnTime uuid (record {
          db = quiet (update_ticket key f j.db.tickets);
          timers = schedule (f t) now timers;
          sent = sent;
        })
    rescheduled-IsOnTime now timers sent canonical others =
        let row_id : (f t).id ≡ key = same_id t ∙ find_ticket-id key t j.db.tickets there in
        written-IsOnTime j key t f (schedule (f t) now timers) sent h there same_id
          (λ k other.
            rw (schedule-lookup (f t) now timers k, row_id, eq_false key k other) (others k other))
          (subst (λ i. IsInStep uuid i (lookup i (schedule (f t) now timers)) (some (f t))) row_id
            (schedule-IsInStep uuid (f t) now timers (rw row_id canonical)))

    others_kept :
        (id k : Str)
        → uuid id ≡ some key
        → key ≢ k
        → lookup k (delete id j.timers) ≡ lookup k j.timers
    others_kept id k u other = elim (Bool-cases (id == k)) [
      | inr e ↦ rw (lookup-delete id k j.timers, e)
      | inl e ↦ elim (Option-cases (lookup k j.timers)) [
        | inl missing ↦ rw (lookup-delete id k j.timers, e, missing)
        | inr (x, set) ↦
            let here : id ≡ k = (eq_iff id k).0 e in
            let itself : uuid id ≡ some id = rw here ((h.in_step k).own_timer x set).0 in
            absurd (other (some-injective key k (sym u ∙ itself ∙ ap some here)))
      ]
    ]

    -- The row waits for nothing any more, and the timer of a text of its ID is stopped.
    pub stopped_row-IsOnTime :
        (id : Str) (sent : List Ticket)
        → uuid id ≡ some key
        → next_transition (f t) ≡ none
        → IsOnTime uuid (record {
          db = quiet (update_ticket key f j.db.tickets);
          timers = delete id j.timers;
          sent = sent;
        })
    stopped_row-IsOnTime id sent u waits =
        let canonical = (h.in_step key).own_row t there in
        written-IsOnTime j key t f (delete id j.timers) sent h there same_id
          (λ k other. others_kept id k u other)
          (elim (Bool-cases (id == key)) [
            | inl e ↦
                rw (lookup-delete id key j.timers, e)
                  (stopped-IsInStep uuid key (some (f t)) (λ v same. (
                    canonical,
                    subst (λ w. next_transition w ≡ none) (some-injective (f t) v same) waits,
                  )))
            | inr e ↦
                rw (lookup-delete id key j.timers, e)
                  (settled-IsInStep uuid key (lookup key j.timers) (find_ticket key j.db.tickets)
                    (f t) canonical (h.in_step key) waits)
          ])
