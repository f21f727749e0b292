-- ===== src/Jit/Admin/Revocation.antt =====
-- What becomes of a ticket's timer when an admin ends its access (handleAdminUpdateStatus of
-- knox-proxy/jit/handler.go).
use mathlib.Core.Option.{some-injective}
use knox_proxy.Jit.Ticket.{revoked, rejected}
use knox_proxy.Base.{
  eq_refl, ap, lookup-delete, non_empty, lookup, Bool-cases, Str, ◌⊎◌, ℕ, Option, ◌≡◌, true, none,
  some, inr, inl, refl,
}
use knox_proxy.Jit.Ticket.{status_of, rejected, Ticket, Status}
use knox_proxy.Jit.Handler.{UpdateStatusRequest, ticket_response, Api, Payload}
use knox_proxy.Jit.Scheduler.{Timers, Jit, cancel, fire_webhook}
use knox_proxy.Jit.Admin.{
  updated, refused, update_decoded, is_admin_target, status_updated, reschedule,
}
use knox_proxy.Jit.Repository.{update_ticket_status, Db, Updated}

-- The statuses by which an admin refuses or takes back an access.
abbrev pub Ends : Status → Type 0
Ends status = (status ≡ revoked) ⊎ (status ≡ rejected)

ticket_of : Payload → Option Ticket
ticket_of (ticket_response t text) = some t
ticket_of _ = none

module _ (api : Api) (now : ℕ) where
  fire_webhook-timers :
      (url : Str) (t : Ticket) (j : Jit) → (fire_webhook url t j).timers ≡ j.timers
  unfolding fire_webhook
  fire_webhook-timers url t j = elim (Bool-cases (non_empty url)) [ inl e ↦ rw e | inr e ↦ rw e ]

  reschedule-ended :
      (status : Status) (t : Ticket) (timers : Timers)
      → Ends status
      → lookup t.id (reschedule api status t now timers) ≡ none
  unfolding reschedule cancel
  reschedule-ended status t timers (inl e) = rw e (rw (lookup-delete, eq_refl t.id) refl)
  reschedule-ended status t timers (inr e) = rw e (rw (lookup-delete, eq_refl t.id) refl)

  status_updated-ended :
      (status : Status) (change : Updated × Db) (j : Jit) (t : Ticket)
      → Ends status
      → ticket_of (status_updated api status now change j).0.payload ≡ some t
      → lookup t.id (status_updated api status now change j).1.timers ≡ none
  unfolding status_updated ticket_of
  status_updated-ended status (refused e, db) j t ends h = absurd (cc h)
  status_updated-ended status (updated none, db) j t ends h = absurd (cc h)
  status_updated-ended status (updated (some u), db) j t ends h =
      let same : u ≡ t = some-injective u t h in
      rw
        (
          fire_webhook-timers api.webhook_url u
              (record j { db = db; timers = reschedule api status u now j.timers }),
          ← same,
        )
        (reschedule-ended status u j.timers ends)

  admin_target : (status : Status) → Ends status → is_admin_target api status ≡ true
  unfolding is_admin_target
  admin_target status (inl e) = rw e refl
  admin_target status (inr e) = rw e refl

  -- When an admin has revoked or rejected a ticket, with the ticket as the answer, no timer of that
  -- ticket is left to start or end its access.
  pub update_decoded-ended :
      (id : Str) (req : UpdateStatusRequest) (j : Jit) (t : Ticket) (text : Str)
      → Ends (status_of req.status)
      → (update_decoded api id req now j).0.payload ≡ ticket_response t text
      → lookup t.id (update_decoded api id req now j).1.timers ≡ none
  unfolding update_decoded ticket_of
  update_decoded-ended id req j t text ends h =
      let good = admin_target (status_of req.status) ends in
      let answered = ap ticket_of h in
      rw good (
        status_updated-ended (status_of req.status)
          (update_ticket_status api.uuid id (status_of req.status) req.reason req.updated_by now
            j.db)
          j t ends (rw good at answered))
