-- ===== src/Jit/Scheduler/Told.antt =====
-- The receiver of the webhook knows the table (FireWebhook of knox-proxy/jit/handler.go, the callback
-- of knox-proxy/jit/scheduler.go), as long as no query fails.
use knox_proxy.Base.{
  eq_iff, leb, ◌==◌, Bool-cases, lookup, delete, Option-cases, ◌∙◌, ℕ, non_empty, ◌++◌, Str, ◌≡◌,
  List, false, true, some, inr, inl, refl, ◌∷◌, [],
}
use knox_proxy.Jit.Ticket.{Status, Ticket, active}
use knox_proxy.Jit.Scheduler.{
  fire_webhook, fire, execute_transition, finish_transition, Timers, Jit,
}
use knox_proxy.Jit.Repository.{after_query, system_status, Db, update_ticket, Uuid, find_ticket}
use knox_proxy.Jit.Repository.Quiet.{quiet_system_update, IsCanonical}
use knox_proxy.Jit.Repository.Quiet.{quiet}
use knox_proxy.Jit.Repository.Laws.{find-update, find_ticket-id}

-- Who starts with the tickets of `first`, and is told the tickets that are sent, has each row as it is.
pub record IsTold (first : List Ticket) (j : Jit) : Type 0 where
  pub ready : j.db.faults ≡ []
  pub same_rows : (k : Str) → find_ticket k j.db.tickets ≡ find_ticket k (j.sent ++ first)

module _ (first : List Ticket) where
  -- A row that was written is sent.
  pub written-IsTold :
      (key : Str) (t : Ticket) (f : Ticket → Ticket) (timers : Timers) (j : Jit)
      → ((u : Ticket) → (f u).id ≡ u.id)
      → IsTold first j
      → find_ticket key j.db.tickets ≡ some t
      → IsTold first (record {
        db = quiet (update_ticket key f j.db.tickets);
        timers = timers;
        sent = f t ∷ j.sent;
      })
  unfolding find_ticket
  written-IsTold key t f timers j same_id h there =
      let row_id : (f t).id ≡ key = same_id t ∙ find_ticket-id key t j.db.tickets there in
      record {
        ready = refl;
        same_rows = λ k. elim (Bool-cases (key == k)) [
          | inl e ↦
              let here : find_ticket k j.db.tickets ≡ some t = rw (← (eq_iff key k).0 e) there in
              let hit : ((f t).id == k) ≡ true = rw (row_id, e) refl in
              rw (find-update key k f j.db.tickets same_id, e, here, hit) refl
          | inr e ↦
              let miss : ((f t).id == k) ≡ false = rw (row_id, e) refl in
              rw (find-update key k f j.db.tickets same_id, e, miss) (h.same_rows k)
        ];
      }

  -- The same rows and the same webhooks.
  pub same-IsTold :
      (j j' : Jit)
      → IsTold first j
      → j'.db.tickets ≡ j.db.tickets
      → j'.db.faults ≡ []
      → j'.sent ≡ j.sent
      → IsTold first j'
  same-IsTold j j' h rows ready same = record {
    ready = ready;
    same_rows = λ k. rw (rows, same) (h.same_rows k);
  }

  module _ (uuid : Uuid) (canonical : IsCanonical uuid) (url : Str)
      (told : non_empty url ≡ true) where
    finish_transition-IsTold :
        (target : Status) (now : ℕ) (t : Ticket) (db : Db) (timers : Timers) (j : Jit)
        → IsTold first (record { db = db; timers = timers; sent = t ∷ j.sent })
        → IsTold first
            (finish_transition url target now (some t) (record j { db = db; timers = timers }))
    unfolding finish_transition fire_webhook
    finish_transition-IsTold target now t db timers j h =
        elim target
          as (λ target.
            IsTold first
              (finish_transition url target now (some t) (record j { db = db; timers = timers }))) [
                | active ↦ rw told (record { ready = h.ready; same_rows = h.same_rows })
                | _ ↦ rw told (record { ready = h.ready; same_rows = h.same_rows })
              ]

    execute_transition-IsTold :
        (id : Str) (target : Status) (now : ℕ) (j : Jit)
        → IsTold first j
        → IsTold first (execute_transition uuid url id target now j)
    unfolding execute_transition finish_transition
    execute_transition-IsTold id target now j h =
        elim (quiet_system_update uuid canonical id target now j.db h.ready) [
          | inl nothing ↦ rw nothing (
              same-IsTold j (record j { db = after_query j.db; timers = delete id j.timers }) h refl
                (rw h.ready refl) refl)
          | inr (key, t, there, done) ↦ rw done (
              finish_transition-IsTold target now (system_status target now t)
                (quiet (update_ticket key (system_status target now) j.db.tickets))
                (delete id j.timers) j
                (written-IsTold key t (system_status target now) (delete id j.timers) j (λ _. refl)
                  h there))
        ]

    pub fire-IsTold :
        (id : Str) (now : ℕ) (j : Jit) → IsTold first j → IsTold first (fire uuid url id now j)
    unfolding fire
    fire-IsTold id now j h = elim (Option-cases (lookup id j.timers)) [
      | inl e ↦ rw (e, fire) h
      | inr (x, e) ↦ elim (Bool-cases (leb x.due now)) [
        | inr f ↦ rw (e, fire, f) h
        | inl f ↦ rw (e, fire, f) (execute_transition-IsTold id x.target_status now j h)
      ]
    ]
