-- ===== src/Jit/Routes.antt =====
-- ServeHTTP of knox-proxy/jit/handler.go: which endpoint answers a request.
pub mod RowKinds
pub mod Rows
pub mod Access
pub mod Identity
pub mod Told
pub mod Table
pub mod OnTime
pub mod Steps
pub mod Answers
use knox_proxy.Base.{
  not, has_suffix, has_prefix, ◌&&◌, ◌==◌, if◌then◌else◌, Option, bytes, trim_suffix, false, true,
  none, some, inr, inl, refl, ◌∷◌, [], ℕ, Str,
}
use knox_proxy.Jit.Handler.{
  failure, handle_user_info, handle_get_ticket, handle_cancel_ticket, handle_request_jit, Endpoint,
  Api,
}
use knox_proxy.Jit.Admin.{handle_admin_get_ticket, handle_admin_update_status, require_api_key}
use knox_proxy.Jit.Repository.{Draw}
use knox_proxy.Context.{RequestUser}
use knox_proxy.Jit.Listing.{handle_admin_list_tickets, handle_list_tickets}

pub data Route : Type 0 where
  request_jit list_tickets cancel_ticket get_ticket get_user_info : Route
  admin_list_tickets admin_update_status admin_get_ticket unknown : Route

unfoldable pub route : Str → Str → Route
route method url_path =
    let path = trim_suffix url_path (bytes "/") in
    if path == bytes "/knox-api/request-jit" && method == bytes "POST"
    then request_jit
    else if path == bytes "/knox-api/tickets" && method == bytes "GET"
    then list_tickets
    else if has_prefix path (bytes "/knox-api/tickets/")
        && has_suffix path (bytes "/cancel")
        && method == bytes "PATCH"
    then cancel_ticket
    else if has_prefix path (bytes "/knox-api/tickets/")
        && not (has_prefix path (bytes "/knox-api/admin/"))
        && method == bytes "GET"
    then get_ticket
    else if path == bytes "/knox-api/user-info" && method == bytes "GET"
    then get_user_info
    else if path == bytes "/knox-api/admin/tickets" && method == bytes "GET"
    then admin_list_tickets
    else if has_prefix path (bytes "/knox-api/admin/tickets/")
        && has_suffix path (bytes "/status")
        && method == bytes "PATCH"
    then admin_update_status
    else if has_prefix path (bytes "/knox-api/admin/tickets/") && method == bytes "GET"
    then admin_get_ticket
    else unknown

module _ (api : Api) where
  unfoldable pub dispatch : Route → Draw → Option RequestUser → Endpoint
  dispatch request_jit draw user = handle_request_jit api draw user
  dispatch list_tickets draw user = handle_list_tickets api user
  dispatch cancel_ticket draw user = handle_cancel_ticket api user
  dispatch get_ticket draw user = handle_get_ticket api user
  dispatch get_user_info draw user = handle_user_info api user
  dispatch admin_list_tickets draw user = require_api_key api (handle_admin_list_tickets api)
  dispatch admin_update_status draw user = require_api_key api (handle_admin_update_status api)
  dispatch admin_get_ticket draw user = require_api_key api (handle_admin_get_ticket api)
  dispatch unknown draw user =
      λ r now j. (failure 404 "Not Found" (bytes "Unknown knox-api endpoint"), j)

  unfoldable pub serve_api : Draw → Option RequestUser → Endpoint
  unfolding dispatch
  serve_api draw user r now j = dispatch (route r.method r.path) draw user r now j
