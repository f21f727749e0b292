-- ===== src/Jit/Routes/Answers.antt =====
-- Why a request to the endpoints of knox-proxy/jit/handler.go does no more than that.
use mathlib.Core.Path.{subst}
use knox_proxy.Jit.Routes.{
  route, Route, serve_api, dispatch, request_jit, list_tickets, cancel_ticket, get_ticket,
  get_user_info, admin_list_tickets, admin_update_status, admin_get_ticket, unknown,
}
use knox_proxy.Jit.Routes.Steps.{Answered, IsRead, looked, made, withdrawn, decided}
use knox_proxy.Base.{
  trim_suffix, eq_iff, bytes, ◌==◌, Option-cases, ◌≢◌, sym, Bool-cases, ℕ, Bool, ◌⊎◌, Option, Str,
  ◌≡◌, List, none, some, inr, inl, refl, ◌∷◌, [],
}
use knox_proxy.Jit.Repository.{
  Found, get_ticket_by_id, same_status, select_ticket, after_query, query_fails, Draw, Db,
  query_failed, missing, found,
}
use knox_proxy.Jit.Listing.{
  matches_owner, page_limit, matches_filter, list_tickets_by_email, filter_of, handle_list_tickets,
  list_all_tickets, handle_admin_list_tickets, listed, run_page,
}
use knox_proxy.Jit.Handler.{
  ticket_reply, handle_user_info, UpdateStatusRequest, body_of, extract_path_param, Endpoint, Reply,
  create_validated, handle_cancel_ticket, handle_get_ticket, cancel_owned, owned_ticket,
  handle_request_jit, with_db, Api,
}
use knox_proxy.Jit.Ticket.{status_of, requested, Ticket}
use knox_proxy.Jit.Scheduler.{Jit}
use knox_proxy.Context.{RequestUser}
use knox_proxy.Http.{Request}
use knox_proxy.Jit.Validate.{validate_create_request}
use knox_proxy.Jit.Admin.{
  is_admin_target, handle_admin_update_status, update_decoded, require_api_key, presented_key,
  handle_admin_get_ticket, admin_ticket,
}
use knox_proxy.Jit.Numbers.{parse_int_param}

list_cases : (xs : List Str) → (xs ≡ []) ⊎ ((x : Str) × (rest : List Str) × (xs ≡ x ∷ rest))
list_cases [] = inl refl
list_cases (x ∷ xs) = inr (x, xs, refl)

run_page-IsRead :
    (test : Ticket → Bool) (limit offset : ℕ) (db : Db)
    → IsRead db (run_page test limit offset db).1
unfolding run_page
run_page-IsRead test limit offset db = elim (Bool-cases (query_fails db)) [
  | inl e ↦ rw e (refl, λ h. rw h refl)
  | inr e ↦ elim (Bool-cases (query_fails (after_query db))) [
    | inl f ↦ rw (e, f) (refl, λ h. rw h refl)
    | inr f ↦ rw (e, f) (refl, λ h. rw h refl)
  ]
]

listed-with_db :
    (found : Option (List Ticket × ℕ) × Db) (j : Jit) → (listed found j).1 ≡ with_db found.1 j
unfolding listed
listed-with_db (none, db) j = refl
listed-with_db (some (tickets, total), db) j = refl

module _ (api : Api) (draw : Draw) (now : ℕ) (user : Option RequestUser) (r : Request)
    (j : Jit) where
  abbrev IsAnswer : Jit → Type 0
  IsAnswer = Answered api draw now user r j

  nothing_done : IsAnswer j
  nothing_done = looked j.db (refl, λ h. h)

  IsRead-one : IsRead j.db (after_query j.db)
  IsRead-one = (refl, λ h. rw h refl)

  page-IsAnswer :
      (test : Ticket → Bool) (limit offset : ℕ)
      → IsAnswer (listed (run_page test limit offset j.db) j).1
  page-IsAnswer test limit offset =
      let page = run_page test limit offset j.db in
      subst IsAnswer (sym (listed-with_db page j))
        (looked page.1 (run_page-IsRead test limit offset j.db))

  made-IsAnswer :
      (v : Option RequestUser) → user ≡ v → IsAnswer (handle_request_jit api draw v r now j).1
  unfolding handle_request_jit create_validated
  made-IsAnswer none who = nothing_done
  made-IsAnswer (some u) who = elim (Option-cases (api.decode_create (body_of r))) [
    | inl e ↦ rw (e, handle_request_jit) nothing_done
    | inr (req, e) ↦
        elim (list_cases (validate_create_request api.parse_time api.max_duration req)) [
          | inr (x, xs, bad) ↦ rw (e, handle_request_jit, bad, create_validated) nothing_done
          | inl good ↦ rw (e, handle_request_jit, good, create_validated) (made u req who e good)
        ]
  ]

  -- A ticket that was read, of a user.
  abbrev IsOwned : RequestUser → Str → Ticket → Type 0
  IsOwned u id t = (select_ticket api.uuid id j.db ≡ found t) × (t.email ≡ u.email)

  owned_found :
      (u : RequestUser) (id message : Str) (next : Ticket → Jit → Reply × Jit) (row : Found)
      → select_ticket api.uuid id j.db ≡ row
      → ((t : Ticket) → IsOwned u id t → IsAnswer (next t (with_db (after_query j.db) j)).1)
      → IsAnswer (owned_ticket api u.email message (row, after_query j.db) next j).1
  unfolding owned_ticket
  owned_found u id message next query_failed e rest = looked (after_query j.db) IsRead-one
  owned_found u id message next missing e rest = looked (after_query j.db) IsRead-one
  owned_found u id message next (found t) e rest = elim (Bool-cases (t.email == u.email)) [
    | inl mine ↦ rw mine (rest t (e, (eq_iff t.email u.email).0 mine))
    | inr other ↦ rw other (looked (after_query j.db) IsRead-one)
  ]

  cancel_owned-IsAnswer :
      (u : RequestUser) (id : Str) (t : Ticket)
      → user ≡ some u
      → IsOwned u id t
      → IsAnswer (cancel_owned api u id now t (with_db (after_query j.db) j)).1
  unfolding cancel_owned
  cancel_owned-IsAnswer u id t who (row, mine) =
      elim (Bool-cases (same_status t.status requested)) [
        | inr other ↦ rw other (looked (after_query j.db) IsRead-one)
        | inl waiting ↦
            rw waiting (withdrawn u id t (after_query j.db) who row mine waiting IsRead-one)
      ]

  get_ticket-IsAnswer : (v : Option RequestUser) → IsAnswer (handle_get_ticket api v r now j).1
  unfolding handle_get_ticket get_ticket_by_id
  get_ticket-IsAnswer none = nothing_done
  get_ticket-IsAnswer (some u) =
      let id = extract_path_param r.path (bytes "/knox-api/tickets/") in
      elim (Bool-cases (id == [])) [
        | inl e ↦ rw e nothing_done
        | inr e ↦ rw e (
            owned_found u id _ (λ t j'. (ticket_reply 200 t, j')) (select_ticket api.uuid id j.db)
              refl (λ t mine. looked (after_query j.db) IsRead-one))
      ]

  cancel_ticket-IsAnswer :
      (v : Option RequestUser) → user ≡ v → IsAnswer (handle_cancel_ticket api v r now j).1
  unfolding handle_cancel_ticket get_ticket_by_id
  cancel_ticket-IsAnswer none who = nothing_done
  cancel_ticket-IsAnswer (some u) who =
      let id =
        extract_path_param (trim_suffix r.path (bytes "/cancel")) (bytes "/knox-api/tickets/") in
      elim (Bool-cases (id == [])) [
        | inl e ↦ rw e nothing_done
        | inr e ↦ rw e (
            owned_found u id _ (cancel_owned api u id now) (select_ticket api.uuid id j.db) refl
              (λ t mine. cancel_owned-IsAnswer u id t who mine))
      ]

  admin_list-IsAnswer : IsAnswer (handle_admin_list_tickets api r now j).1
  unfolding handle_admin_list_tickets list_all_tickets
  admin_list-IsAnswer =
      let f = filter_of api r in page-IsAnswer (matches_filter f) (page_limit 200 f.limit) f.offset

  admin_found : (row : Found) → IsAnswer (admin_ticket api (row, after_query j.db) j).1
  unfolding admin_ticket
  admin_found query_failed = looked (after_query j.db) IsRead-one
  admin_found missing = looked (after_query j.db) IsRead-one
  admin_found (found t) = looked (after_query j.db) IsRead-one

  admin_get-IsAnswer : IsAnswer (handle_admin_get_ticket api r now j).1
  unfolding handle_admin_get_ticket get_ticket_by_id
  admin_get-IsAnswer =
      let id = extract_path_param r.path (bytes "/knox-api/admin/tickets/") in
      elim (Bool-cases (id == [])) [
        | inl e ↦ rw e nothing_done
        | inr e ↦ rw e (admin_found (select_ticket api.uuid id j.db))
      ]

  module _ (key : presented_key api r ≡ api.api_key) (set : api.api_key ≢ []) where
    update_decoded-IsAnswer :
        (id : Str) (req : UpdateStatusRequest)
        → api.decode_update (body_of r) ≡ some req
        → IsAnswer (update_decoded api id req now j).1
    unfolding update_decoded
    update_decoded-IsAnswer id req asked =
        elim (Bool-cases (is_admin_target api (status_of req.status))) [
          | inr bad ↦ rw bad nothing_done
          | inl good ↦ rw good (
              decided id (status_of req.status) req.reason req.updated_by req.status asked refl key
                set good)
        ]

    admin_update-IsAnswer : IsAnswer (handle_admin_update_status api r now j).1
    unfolding handle_admin_update_status
    admin_update-IsAnswer =
        let id =
          extract_path_param (trim_suffix r.path (bytes "/status"))
            (bytes "/knox-api/admin/tickets/") in
        elim (Bool-cases (id == [])) [
          | inl e ↦ rw e nothing_done
          | inr e ↦ elim (Option-cases (api.decode_update (body_of r))) [
            | inl f ↦ rw (e, f) nothing_done
            | inr (req, f) ↦ rw (e, f) (update_decoded-IsAnswer id req f)
          ]
        ]

  with_key-IsAnswer :
      (next : Endpoint)
      → (presented_key api r ≡ api.api_key → api.api_key ≢ [] → IsAnswer (next r now j).1)
      → IsAnswer (require_api_key api next r now j).1
  unfolding require_api_key
  with_key-IsAnswer next rest = elim (Bool-cases (api.api_key == [])) [
    | inl e ↦ rw e nothing_done
    | inr e ↦ elim (Bool-cases (presented_key api r == api.api_key)) [
      | inr f ↦ rw (e, f) nothing_done
      | inl f ↦
          rw (e, f)
            (rest ((eq_iff (presented_key api r) api.api_key).0 f)
              (λ empty. absurd (cc (e, (eq_iff api.api_key []).1 empty))))
    ]
  ]

  list_tickets-IsAnswer : (v : Option RequestUser) → IsAnswer (handle_list_tickets api v r now j).1
  unfolding handle_list_tickets list_tickets_by_email
  list_tickets-IsAnswer none = nothing_done
  list_tickets-IsAnswer (some u) =
      page-IsAnswer (matches_owner u.email (api.query (bytes "status") r))
        (page_limit 100 (parse_int_param (api.query (bytes "limit") r) 50)) 0

  user_info-IsAnswer : (v : Option RequestUser) → IsAnswer (handle_user_info api v r now j).1
  unfolding handle_user_info
  user_info-IsAnswer none = nothing_done
  user_info-IsAnswer (some u) = nothing_done

  dispatch-IsAnswer : (to : Route) → IsAnswer (dispatch api to draw user r now j).1
  unfolding dispatch
  dispatch-IsAnswer request_jit = made-IsAnswer user refl
  dispatch-IsAnswer list_tickets = list_tickets-IsAnswer user
  dispatch-IsAnswer cancel_ticket = cancel_ticket-IsAnswer user refl
  dispatch-IsAnswer get_ticket = get_ticket-IsAnswer user
  dispatch-IsAnswer get_user_info = user_info-IsAnswer user
  dispatch-IsAnswer admin_list_tickets =
      with_key-IsAnswer (handle_admin_list_tickets api) (λ key set. admin_list-IsAnswer)
  dispatch-IsAnswer admin_update_status =
      with_key-IsAnswer (handle_admin_update_status api) admin_update-IsAnswer
  dispatch-IsAnswer admin_get_ticket =
      with_key-IsAnswer (handle_admin_get_ticket api) (λ key set. admin_get-IsAnswer)
  dispatch-IsAnswer unknown = nothing_done

  -- A request to the API is one of the steps.
  pub serve_api-Answered : Answered api draw now user r j (serve_api api draw user r now j).1
  unfolding serve_api
  serve_api-Answered = dispatch-IsAnswer (route r.method r.path)
