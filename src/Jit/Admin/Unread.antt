-- ===== src/Jit/Admin/Unread.antt =====
-- A decision on a ticket whose row cannot be read again (UpdateTicketStatus of
-- knox-proxy/jit/repository.go, handleAdminUpdateStatus of knox-proxy/jit/handler.go).
use knox_proxy.Base.{eq_refl, ◌∙◌, ◌≡◌, Bool, List, ℕ, Str, false, true, some, refl, ◌∷◌}
use knox_proxy.Jit.Repository.{
  after_query, update_ticket, update_ticket_status, select_ticket, get_ticket_by_id, write_status,
  find_ticket, with_status, refused, get_failed,
}
use knox_proxy.Jit.Handler.{UpdateStatusRequest, Api}
use knox_proxy.Jit.Ticket.{is_valid_transition, status_of, Status, Ticket}
use knox_proxy.Jit.Scheduler.{Jit}
use knox_proxy.Jit.Schema.{varchar}
use knox_proxy.Jit.Admin.{is_admin_target, status_updated, update_decoded}
use knox_proxy.Jit.Repository.Laws.{checked_first, find-update, found_first}

module _ (api : Api) (id key : Str) (req : UpdateStatusRequest) (t : Ticket) (now : ℕ) (j : Jit)
    (rest : List Bool) where
  abbrev target : Status
  target = status_of req.status

  abbrev new_row : Ticket → Ticket
  new_row = with_status target req.reason req.updated_by now

  module _ (row : find_ticket key j.db.tickets ≡ some t) (named : api.uuid id ≡ some key)
      (valid : is_valid_transition t.status target ≡ true)
      (short : varchar 255 req.updated_by ≡ true)
      (unread : j.db.faults ≡ false ∷ false ∷ true ∷ rest) where
    written_unread : update_ticket_status api.uuid id target req.reason req.updated_by now j.db ≡ (
      refused get_failed,
      record { tickets = update_ticket key new_row j.db.tickets; faults = rest },
    )
    unfolding write_status get_ticket_by_id select_ticket
    written_unread =
        found_first api.uuid id target req.reason req.updated_by now key t j.db (rw unread refl)
          named row
        ∙ checked_first api.uuid id target req.reason req.updated_by now key t (after_query j.db)
            named valid
        ∙ rw (unread, short) refl

    -- If an admin's decision on a ticket is allowed and written, but the row cannot be read again, the
    -- answer is 400, although the row has the new status; the timers stay as they are, also that of a
    -- ticket that is rejected or revoked, and the webhook is sent nothing.
    pub decided_unread :
        is_admin_target api target ≡ true
        → let (answer, j') = update_decoded api id req now j in
          (answer.status ≡ 400)
          × (find_ticket key j'.db.tickets ≡ some (new_row t))
          × (j'.timers ≡ j.timers)
          × (j'.sent ≡ j.sent)
    unfolding update_decoded status_updated
    decided_unread admin =
        let there : find_ticket key (update_ticket key new_row j.db.tickets) ≡ some (new_row t) =
          rw (find-update key key new_row j.db.tickets (λ _. refl), eq_refl key, row) in
        rw (admin, written_unread) (refl, there, refl, refl)
