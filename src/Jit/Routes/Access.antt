-- ===== src/Jit/Routes/Access.antt =====
-- Who may do what through the JIT API (knox-proxy/jit/handler.go).
use knox_proxy.Base.{
  eq_false, eq_iff, ◌==◌, Bool-cases, ◌≢◌, ◌⊎◌, ◌≡◌, none, inr, inl, refl, [], ℕ, Str,
}
use knox_proxy.Jit.Routes.{
  unknown, admin_get_ticket, admin_update_status, admin_list_tickets, get_user_info, get_ticket,
  cancel_ticket, list_tickets, request_jit, Route, route, dispatch, serve_api,
}
use knox_proxy.Jit.Handler.{
  handle_user_info, handle_get_ticket, handle_cancel_ticket, handle_request_jit, Endpoint, Reply,
  error_response, Api,
}
use knox_proxy.Jit.Admin.{
  handle_admin_get_ticket, handle_admin_update_status, require_api_key, presented_key,
}
use knox_proxy.Http.{Request}
use knox_proxy.Jit.Repository.{Draw}
use knox_proxy.Jit.Scheduler.{Jit}
use knox_proxy.Jit.Listing.{handle_admin_list_tickets, handle_list_tickets}

-- The request does not carry the key of the admin API, or there is none.
abbrev pub HasNoKey : Api → Request → Type 0
HasNoKey api r = (api.api_key ≡ []) ⊎ (presented_key api r ≢ api.api_key)

-- The answer is an error that names no ticket, and nothing is changed.
abbrev pub IsRefused : Jit → Reply × Jit → Type 0
IsRefused j result =
    ((error : Str) × (message : Str) × (result.0.payload ≡ error_response error message))
    × (result.1 ≡ j)

require_api_key_refuses :
    (api : Api) (next : Endpoint) (r : Request) (now : ℕ) (j : Jit)
    → HasNoKey api r
    → IsRefused j (require_api_key api next r now j)
unfolding require_api_key
require_api_key_refuses api next r now j locked = elim (Bool-cases (api.api_key == [])) [
  | inl missing ↦ rw missing ((_, _, refl), refl)
  | inr configured ↦ elim locked [
    | inl empty ↦ absurd (cc ((eq_iff _ _).1 empty, configured))
    | inr other ↦
        rw (configured, eq_false (presented_key api r) api.api_key other) ((_, _, refl), refl)
  ]
]

dispatch_refuses :
    (api : Api) (to : Route) (draw : Draw) (r : Request) (now : ℕ) (j : Jit)
    → HasNoKey api r
    → IsRefused j (dispatch api to draw none r now j)
unfolding dispatch handle_request_jit handle_list_tickets handle_cancel_ticket handle_get_ticket
    handle_user_info
dispatch_refuses api request_jit draw r now j locked = ((_, _, refl), refl)
dispatch_refuses api list_tickets draw r now j locked = ((_, _, refl), refl)
dispatch_refuses api cancel_ticket draw r now j locked = ((_, _, refl), refl)
dispatch_refuses api get_ticket draw r now j locked = ((_, _, refl), refl)
dispatch_refuses api get_user_info draw r now j locked = ((_, _, refl), refl)
dispatch_refuses api admin_list_tickets draw r now j locked =
    require_api_key_refuses api (handle_admin_list_tickets api) r now j locked
dispatch_refuses api admin_update_status draw r now j locked =
    require_api_key_refuses api (handle_admin_update_status api) r now j locked
dispatch_refuses api admin_get_ticket draw r now j locked =
    require_api_key_refuses api (handle_admin_get_ticket api) r now j locked
dispatch_refuses api unknown draw r now j locked = ((_, _, refl), refl)

-- Without a session and without the admin key nothing can be read or changed: the answer is an error
-- that names no ticket, and the table, the timers and the webhook are as before.
pub no_access :
    (api : Api) (draw : Draw) (r : Request) (now : ℕ) (j : Jit)
    → HasNoKey api r
    → IsRefused j (serve_api api draw none r now j)
unfolding serve_api
no_access api draw r now j locked = dispatch_refuses api (route r.method r.path) draw r now j locked
