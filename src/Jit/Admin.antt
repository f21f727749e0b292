-- ===== src/Jit/Admin.antt =====
-- The endpoints of knox-proxy/jit/handler.go that need the admin key, and the check of the key.
pub mod Revocation
pub mod Unread
pub mod Race
use knox_proxy.Base.{
  ◌++◌, not, trim_prefix, ◌==◌, trim_suffix, bytes, if◌then◌else◌, ℕ, Bool, Str, false, true, none,
  some, [],
}
use knox_proxy.Jit.Handler.{
  aborted, reply, ticket_reply, body_of, with_db, failure, Reply, UpdateStatusRequest,
  extract_path_param, Endpoint, Api,
}
use knox_proxy.Jit.Repository.{
  missing, query_failed, update_ticket_status, updated, found, refused, get_ticket_by_id, Updated,
  Db, Found,
}
use knox_proxy.Jit.Ticket.{revoked, status_of, rejected, approved, Ticket, Status}
use knox_proxy.Http.{get, Request}
use knox_proxy.Jit.Scheduler.{fire_webhook, cancel, schedule, Timers, Jit}

module _ (api : Api) where
  unfoldable pub admin_ticket : Found × Db → Jit → Reply × Jit
  admin_ticket (query_failed, db) j =
      (failure 500 "Internal Error" (bytes "Failed to get ticket"), with_db db j)
  admin_ticket (missing, db) j = (failure 404 "Not Found" [], with_db db j)
  admin_ticket (found t, db) j = (ticket_reply 200 t, with_db db j)

  unfoldable pub handle_admin_get_ticket : Endpoint
  handle_admin_get_ticket r now j =
      let id = extract_path_param r.path (bytes "/knox-api/admin/tickets/") in
      if id == []
      then (failure 400 "Bad Request" (bytes "Missing ticket ID"), j)
      else admin_ticket (get_ticket_by_id api.uuid id j.db) j

  -- validStatuses
  unfoldable pub is_admin_target : Status → Bool
  is_admin_target approved = true
  is_admin_target rejected = true
  is_admin_target revoked = true
  is_admin_target _ = false

  unfoldable pub reschedule : Status → Ticket → ℕ → Timers → Timers
  reschedule status t now timers = elim status [
    | approved ↦ schedule t now timers
    | rejected ↦ cancel t.id timers
    | revoked ↦ cancel t.id timers
    | _ ↦ timers
  ]

  -- The text of the error is left out.
  unfoldable pub status_updated : Status → ℕ → Updated × Db → Jit → Reply × Jit
  status_updated status now (refused e, db) j = (failure 400 "Bad Request" [], with_db db j)
  status_updated status now (updated none, db) j = (reply 0 aborted, with_db db j)
  status_updated status now (updated (some t), db) j = (
    ticket_reply 200 t,
    fire_webhook api.webhook_url t
        (record j { db = db; timers = reschedule status t now j.timers }),
  )

  unfoldable pub update_decoded : Str → UpdateStatusRequest → ℕ → Jit → Reply × Jit
  update_decoded id req now j =
      let status = status_of req.status in
      if not (is_admin_target status)
      then (
        failure 400 "Bad Request" (
            bytes "Invalid target status: "
            ++ (req.status ++ bytes ". Allowed: approved, rejected, revoked")),
        j,
      )
      else status_updated status now
          (update_ticket_status api.uuid id status req.reason req.updated_by now j.db) j

  unfoldable pub handle_admin_update_status : Endpoint
  handle_admin_update_status r now j =
      let id =
        extract_path_param (trim_suffix r.path (bytes "/status"))
          (bytes "/knox-api/admin/tickets/") in
      if id == []
      then (failure 400 "Bad Request" (bytes "Missing ticket ID"), j)
      else (elim (api.decode_update (body_of r)) [
        | none ↦ (failure 400 "Bad Request" (bytes "Invalid JSON body"), j)
        | some req ↦ update_decoded id req now j
      ])

  -- requireAPIKey
  unfoldable pub presented_key : Request → Str
  presented_key r =
      let key = get (bytes "X-Knox-Api-Key") r.header in
      if key == []
      then trim_prefix (get (bytes "Authorization") r.header) (bytes "Bearer ")
      else key

  unfoldable pub require_api_key : Endpoint → Endpoint
  require_api_key next r now j =
      if api.api_key == []
      then (
        failure 503 "Service Unavailable"
            (bytes "Admin API is not configured. Set KNOX_API_KEY environment variable."),
        j,
      )
      else if presented_key r == api.api_key
      then next r now j
      else (failure 401 "Unauthorized" (bytes "Invalid or missing API key"), j)
