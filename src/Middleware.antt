-- ===== src/Middleware.antt =====
-- knox-proxy/middleware/chain.go: the handlers that stand before the proxy and the JIT API, and the
-- chain that knox-proxy/main.go makes of them. What Logging writes is left out; what it does to the
-- context is here. The page that http.Redirect writes is left out too.
pub mod Chain
use knox_proxy.Base.{
  non_empty, ◌++◌, ◌||◌, bytes, Option, ◌&&◌, if◌then◌else◌, has_prefix, ◌==◌, contains, false,
  true, none, some, inr, inl, refl, ◌∷◌, [], ℕ, ◌+◌, Str, Bool, Map,
}
use knox_proxy.Http.{plain_error, set, add, get, Header, Request, Response}
use knox_proxy.Context.{RequestUser, Handler}
use knox_proxy.Policy.Sanitizer.{invalid_json, dangerous_node}
use knox_proxy.Json.{Decode}
use knox_proxy.Session.{get_session, SessionManager, UserSession}
use knox_proxy.Policy.Sanitizer.{
  dangerous_node, sanitize_workflow_body, is_enabled, SanitizeError, Sanitizer,
}
use knox_proxy.Policy.Engine.{evaluate}

-- isAPIRequest
unfoldable pub is_api_request : Request → Bool
is_api_request r =
    contains (get (bytes "Accept") r.header) (bytes "application/json")
    || get (bytes "X-Requested-With") r.header == bytes "XMLHttpRequest"
    || has_prefix r.path (bytes "/rest/")
    || has_prefix r.path (bytes "/api/")

-- isMutationMethod
unfoldable pub is_mutation_method : Str → Bool
is_mutation_method m =
    m == bytes "POST" || m == bytes "PATCH" || m == bytes "PUT" || m == bytes "DELETE"

-- isWorkflowPath
unfoldable pub is_workflow_path : Str → Bool
is_workflow_path p = has_prefix p (bytes "/rest/workflows")

abbrev pub json_header : Header
json_header = (bytes "Content-Type", bytes "application/json" ∷ []) ∷ []

-- What Auth needs of the cookies and of net/url: the value of the session cookie, and QueryEscape.
pub record Web : Type 0 where
  pub session_cookie : Request → Str
  pub query_escape : Str → Str

-- The header that ClearSessionCookie sets.
abbrev pub clear_session_cookie : Str → Header → Header
clear_session_cookie [] header = header
clear_session_cookie (_ ∷ _) header =
    add (bytes "Set-Cookie") (bytes "knox_session=; Path=/; Max-Age=0; HttpOnly") header

unfoldable pub unauthorized : Web → Str → Request → Response
unauthorized web id r =
    if is_api_request r
    then (record {
      status = 401;
      header = set (bytes "Content-Type") (bytes "application/json") (clear_session_cookie id []);
      body =
          bytes
            "{\"error\":\"Unauthorized\",\"message\":\"Session expired or invalid. Please login again.\"}";
    })
    else (record {
      status = 302;
      header =
          set (bytes "Location") (bytes "/auth/login?redirect=" ++ web.query_escape r.uri)
            (clear_session_cookie id []);
      body = [];
    })

abbrev pub user_of : UserSession → RequestUser
user_of s = record {
  email = s.email;
  display_name = s.display_name;
  groups = s.groups;
  jit_roles = s.jit_roles;
}

-- A missing cookie is "", for which no session is looked up.
unfoldable pub session_for : SessionManager → ℕ → Str → Option UserSession
session_for sm now [] = none
session_for sm now (c ∷ id) = get_session (c ∷ id) now sm

module _ {S : Type 0} where
  unfoldable pub auth : Web → (S → SessionManager) → (S → ℕ) → Handler S → Handler S
  auth web sessions now next context r s =
      elim (session_for (sessions s) (now s) (web.session_cookie r)) [
        | none ↦ (unauthorized web (web.session_cookie r) r, s)
        | some session ↦ next (some (user_of session)) r s
      ]

  -- The holder of the context is new and empty.
  unfoldable pub logging : Handler S → Handler S
  logging next context r s = next none r s

unfoldable pub reads_body : Request → Bool
reads_body r =
    is_mutation_method r.method
    && (is_workflow_path r.path || has_prefix r.path (bytes "/rest/executions"))

-- The body that the policy sees, nil for other requests; none is a read error.
unfoldable pub policy_body : Request → Option Str
policy_body r = if reads_body r then r.body else some []

-- The test before the sanitizer.
unfoldable pub sanitizes : Sanitizer → Request → Str → Bool
sanitizes sanitizer r body =
    is_enabled sanitizer && is_mutation_method r.method && is_workflow_path r.path && non_empty body

unfoldable pub sanitize : Decode → Sanitizer → Request → Str → Option SanitizeError
sanitize decode sanitizer r body =
    if sanitizes sanitizer r body then sanitize_workflow_body decode sanitizer body else none

abbrev pub forbidden : Str → Response
forbidden reason = record {
  status = 403;
  header = json_header;
  body = bytes "{\"error\":\"Forbidden\",\"reason\":\"" ++ (reason ++ bytes "\"}");
}

-- err.Error(); the text that encoding/json gives is left out.
unfoldable pub error_text : SanitizeError → Str
error_text invalid_json = bytes "invalid JSON body: "
error_text (dangerous_node node_type name) =
    bytes "dangerous node type '"
    ++ (node_type ++ (bytes "' (name: '" ++ (name ++ bytes "') is blocked by security policy")))

abbrev pub bad_request : SanitizeError → Response
bad_request e = record {
  status = 400;
  header = json_header;
  body = bytes "{\"error\":\"Bad Request\",\"reason\":\"" ++ (error_text e ++ bytes "\"}");
}

module _ {S : Type 0} (decode : Decode) (sanitizer : Sanitizer) where
  unfoldable pub policy_passed : Handler S → RequestUser → Str → Handler S
  policy_passed next user body context r s = elim (sanitize decode sanitizer r body) [
    | some e ↦ (bad_request e, s)
    | none ↦ next context r s
  ]

  unfoldable pub policy_with_body : Handler S → RequestUser → Str → Handler S
  policy_with_body next user body context r s =
      let decision = evaluate decode r.method r.path body user.jit_roles in
      if decision.allowed
      then policy_passed next user body context r s
      else (forbidden decision.reason, s)

  unfoldable pub policy : Handler S → Handler S
  policy next none r s = (plain_error 401 (bytes "Unauthorized"), s)
  policy next (some user) r s = elim (policy_body r) [
    | none ↦ (plain_error 400 (bytes "Failed to read request body"), s)
    | some body ↦ policy_with_body next user body (some user) r s
  ]

  -- The chain of main.go before the proxy.
  unfoldable pub protected : Web → (S → SessionManager) → (S → ℕ) → Handler S → Handler S
  protected web sessions now proxy = logging (auth web sessions now (policy proxy))
