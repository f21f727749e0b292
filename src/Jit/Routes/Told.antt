-- ===== src/Jit/Routes/Told.antt =====
-- What the receiver of the webhook knows, under the endpoints of knox-proxy/jit/handler.go.
use knox_proxy.Base.{
  ◌==◌, bytes, Option-cases, Bool-cases, Str, Option, ℕ, ◌≡◌, non_empty, List, false, true, inr,
  inl, refl, ◌∷◌, [],
}
use knox_proxy.Jit.Routes.Steps.{Answered, looked, made, withdrawn, decided}
use knox_proxy.Jit.Ticket.{Status, Ticket, canceled}
use knox_proxy.Jit.Handler.{new_ticket, with_db, ticket_canceled, ticket_created, Api}
use knox_proxy.Jit.Repository.{
  after_query, with_status, stored_ticket, generate_ticket_number, update_ticket_status,
  query_fails, create_ticket, find_ticket, Db, Draw,
}
use knox_proxy.Jit.Scheduler.{schedule, cancel, fire_webhook, Timers, Jit}
use knox_proxy.Jit.Scheduler.Told.{written-IsTold, same-IsTold, IsTold}
use knox_proxy.Context.{RequestUser}
use knox_proxy.Jit.Admin.{reschedule, status_updated}
use knox_proxy.Http.{Request}
use knox_proxy.Jit.Routes.{serve_api}
use knox_proxy.Jit.Repository.Quiet.{quiet}
use knox_proxy.Jit.Routes.Answers.{serve_api-Answered}
use knox_proxy.Jit.Repository.Quiet.{quiet_update}
use knox_proxy.Jit.Schema.{admits}

module _ (first : List Ticket) (api : Api) (told : non_empty api.webhook_url ≡ true) (now : ℕ)
    (j : Jit) (h : IsTold first j) where
  read-IsTold : (db : Db) → db.tickets ≡ j.db.tickets → db.faults ≡ [] → IsTold first (with_db db j)
  read-IsTold db rows ready = same-IsTold first j (with_db db j) h rows ready refl

  -- A new row is sent.
  added-IsTold :
      (t : Ticket) (timers : Timers)
      → IsTold first (record { db = quiet (t ∷ j.db.tickets); timers = timers; sent = t ∷ j.sent })
  unfolding find_ticket
  added-IsTold t timers = record {
    ready = refl;
    same_rows =
        λ k. elim (Bool-cases (t.id == k)) [ inl e ↦ rw e refl | inr e ↦ rw e (h.same_rows k) ];
  }

  ticket_created-IsTold :
      (t : Ticket) (draw : Draw)
      → IsTold first (ticket_created api now (create_ticket t draw j.db) j).1
  unfolding ticket_created create_ticket fire_webhook
  ticket_created-IsTold t draw =
      let fine : query_fails j.db ≡ false = rw h.ready refl in
      elim (Option-cases (generate_ticket_number draw.random draw.date)) [
        | inl e ↦ rw (e, create_ticket) (read-IsTold j.db refl h.ready)
        | inr (number, e) ↦
            let row = stored_ticket t number draw in
            elim (Bool-cases (admits j.db.tickets row)) [
              | inr f ↦
                  rw (e, create_ticket, fine, f)
                    (read-IsTold (after_query j.db) refl (rw h.ready refl))
              | inl f ↦
                  rw (e, create_ticket, fine, f, told)
                    (rw h.ready (added-IsTold row (schedule row now j.timers)))
            ]
      ]

  ticket_canceled-IsTold :
      (id reason by : Str)
      → IsTold first
          (ticket_canceled api id
            (update_ticket_status api.uuid id canceled reason by now j.db)
            j).1
  unfolding ticket_canceled fire_webhook
  ticket_canceled-IsTold id reason by =
      elim (quiet_update api.uuid id canceled reason by now j.db h.ready) [
        | inl (e, refusal) ↦ rw refusal (read-IsTold (quiet j.db.tickets) refl refl)
        | inr (key, t, u, there, valid, done) ↦
            rw (done, told)
              (written-IsTold first key t (with_status canceled reason by now) (cancel id j.timers)
                j (λ _. refl) h there)
      ]

  status_updated-IsTold :
      (id : Str) (status : Status) (reason by : Str)
      → IsTold first
          (status_updated api status now
            (update_ticket_status api.uuid id status reason by now j.db)
            j).1
  unfolding status_updated fire_webhook
  status_updated-IsTold id status reason by =
      elim (quiet_update api.uuid id status reason by now j.db h.ready) [
        | inl (e, refusal) ↦ rw refusal (read-IsTold (quiet j.db.tickets) refl refl)
        | inr (key, t, u, there, valid, done) ↦
            rw (done, told)
              (written-IsTold first key t (with_status status reason by now)
                (reschedule api status (with_status status reason by now t) now j.timers) j
                (λ _. refl) h there)
      ]

module _ (first : List Ticket) (api : Api) (told : non_empty api.webhook_url ≡ true) (draw : Draw)
    (now : ℕ) (user : Option RequestUser) (r : Request) (j : Jit) (h : IsTold first j) where
  Answered-IsTold : {j' : Jit} → Answered api draw now user r j j' → IsTold first j'
  Answered-IsTold (looked db (same, quiet)) =
      read-IsTold first api told now j h db same (quiet h.ready)
  Answered-IsTold (made u req who asked valid) =
      ticket_created-IsTold first api told now j h (new_ticket api u req) draw
  Answered-IsTold (withdrawn u id t db who row mine waits (same, quiet)) =
      ticket_canceled-IsTold first api told now (with_db db j)
        (read-IsTold first api told now j h db same (quiet h.ready)) id (bytes "Canceled by user")
        u.email
  Answered-IsTold (decided id status reason by text asked named key set admin) =
      status_updated-IsTold first api told now j h id status reason by

  pub serve_api-IsTold : IsTold first (serve_api api draw user r now j).1
  serve_api-IsTold = Answered-IsTold (serve_api-Answered api draw now user r j)
