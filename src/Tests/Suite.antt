-- ===== src/Tests/Suite.antt =====
-- The cases of the repository's own tests, on the model: knox-proxy/policy/engine_test.go,
-- knox-proxy/jit/models_test.go and knox-proxy/jit/handler_test.go.
use knox_proxy.Tests.Tickets.{api, cancel_request, process, parse_time}
use knox_proxy.Jit.Handler.{reply, Endpoint, Api, aborted}
use knox_proxy.Jit.Routes.{route, unknown}
use knox_proxy.Http.{Request, set, get}
use knox_proxy.Base.{
  insert, length, trim_suffix, trim_space, has_suffix, ℕ, lookup, ◌+◌, ◌*◌, false, trim_prefix,
  split, join, ◌≡◌, to_upper, has_prefix, ◌==◌, Str, Bool, if◌then◌else◌, String, bytes, List, true,
  none, some, refl, ◌∷◌, [],
}
use knox_proxy.Json.{end, str, field, obj, Decode}
use knox_proxy.Policy.Engine.{
  execution_demand, extract_workflow_id_from_body, check_roles, run_in_body, matches_path_id,
  workflow_demand, path_parts, demand, judge, evaluate_mutation, is_read_only, is_api_path,
  evaluate,
}
use knox_proxy.Policy.CleanPath.{clean}
use knox_proxy.Jit.Ticket.{
  duration_between, revoked, expired, active, canceled, minute, rejected, approved, requested,
  duration_text, is_valid_transition,
}
use knox_proxy.Jit.Handler.{extract_path_param}
use knox_proxy.Jit.Numbers.{read_digits, read_number, parse_int_param, decimal}
use knox_proxy.Context.{resolve_team}
use knox_proxy.Jit.Admin.{presented_key, require_api_key}
use knox_proxy.Jit.Validate.{validate_create_request, CreateTicketRequest}

abbrev texts : List String → List Str
texts [] = []
texts (s ∷ ss) = bytes s ∷ texts ss

-- Two bodies that can be decoded.
abbrev decode : Decode
decode body =
    if body == bytes "run wf123"
    then some ((bytes "workflowData", obj (field (bytes "id") (str (bytes "wf123")) end)) ∷ [])
    else if body == bytes "wf456"
    then some ((bytes "workflowId", str (bytes "wf456")) ∷ [])
    else none

unfoldable allowed : String → String → String → List String → Bool
unfolding evaluate
allowed method path body roles =
    (evaluate decode (bytes method) (bytes path) (bytes body) (texts roles)).allowed

-- Whether each case comes out as the test says.
abbrev agree : List (Bool × Bool) → Bool
agree [] = true
agree ((true, true) ∷ rest) = agree rest
agree ((false, false) ∷ rest) = agree rest
agree _ = false

-- TestEvaluate_NonAPIPaths, _ReadOnlyMethods, _InternalResourceWhitelist, _MutationOnNonWorkflowResource
policy_without_roles :
    agree (
      (allowed "GET" "/assets/main.js" "" [], true)
      ∷ (allowed "GET" "/" "" [], true)
      ∷ (allowed "POST" "/some/path" "" [], true)
      ∷ (allowed "HEAD" "/rest/workflows" "" [], true)
      ∷ (allowed "Get" "/rest/workflows" "" [], true)
      ∷ (allowed "POST" "/rest/telemetry" "" [], true)
      ∷ (allowed "POST" "/rest/ph" "" [], true)
      ∷ (allowed "POST" "/rest/credentials" "" ("run:*" ∷ []), false)
      ∷ (allowed "POST" "/rest/settings" "" ("run:*" ∷ []), false)
      ∷ (allowed "POST" "/rest/workflows/wf1/run" "" [], false)
      ∷ [])
    ≡ true
unfolding allowed bytes clean has_prefix ◌==◌ to_upper is_api_path join split is_read_only
    evaluate_mutation judge demand path_parts trim_prefix workflow_demand matches_path_id
    check_roles
policy_without_roles = refl

-- TestEvaluate_WorkflowEditWithRole up to TestEvaluate_CreateNewWorkflowDenied,
-- _ActivateDeactivateRequiresEdit and _DeleteWorkflow
policy_with_roles :
    agree (
      (allowed "PATCH" "/rest/workflows/abc123" "" ("edit:abc123" ∷ []), true)
      ∷ (allowed "PATCH" "/rest/workflows/abc123" "" ("run:abc123" ∷ []), false)
      ∷ (allowed "POST" "/rest/workflows/abc123/run" "" ("run:abc123" ∷ []), true)
      ∷ (allowed "POST" "/rest/workflows/xyz/run" "" ("run:*" ∷ []), true)
      ∷ (allowed "PATCH" "/rest/workflows/xyz" "" ("edit:*" ∷ []), true)
      ∷ (allowed "POST" "/rest/workflows/xyz/test" "" ("run:*" ∷ []), true)
      ∷ (allowed "POST" "/rest/workflows/xyz/activate" "" ("edit:*" ∷ []), true)
      ∷ (allowed "POST" "/rest/workflows" "" ("edit:*" ∷ "run:*" ∷ []), false)
      ∷ (allowed "POST" "/rest/workflows/wf1/activate" "" ("run:wf1" ∷ []), false)
      ∷ (allowed "POST" "/rest/workflows/wf1/activate" "" ("edit:wf1" ∷ []), true)
      ∷ (allowed "DELETE" "/rest/workflows/wf1" "" ("edit:wf1" ∷ []), true)
      ∷ [])
    ≡ true
unfolding allowed bytes clean has_prefix ◌==◌ to_upper is_api_path join split is_read_only
    evaluate_mutation judge demand path_parts trim_prefix workflow_demand matches_path_id
    check_roles
policy_with_roles = refl

-- TestEvaluate_WorkflowRunFromBody, _WorkflowRunFromBodyWrongRole, _ExecutionWithRoles and
-- _ExecutionCreateFromBody
policy_with_body :
    agree (
      (allowed "POST" "/rest/workflows/run" "run wf123" ("run:wf123" ∷ []), true)
      ∷ (allowed "POST" "/rest/workflows/run" "run wf123" ("run:wf999" ∷ []), false)
      ∷ (allowed "POST" "/rest/executions/exec123/stop" "" ("run:anything" ∷ []), true)
      ∷ (allowed "DELETE" "/rest/executions/exec123" "" [], false)
      ∷ (allowed "POST" "/rest/executions" "wf456" ("run:wf456" ∷ []), true)
      ∷ [])
    ≡ true
unfolding allowed bytes clean has_prefix ◌==◌ to_upper is_api_path join split is_read_only
    evaluate_mutation judge demand path_parts trim_prefix workflow_demand run_in_body
    extract_workflow_id_from_body lookup matches_path_id check_roles execution_demand
policy_with_body = refl

-- TestIsValidTransition_Valid and TestIsValidTransition_Invalid
transitions :
    agree (
      (is_valid_transition requested approved, true)
      ∷ (is_valid_transition requested rejected, true)
      ∷ (is_valid_transition requested canceled, true)
      ∷ (is_valid_transition approved active, true)
      ∷ (is_valid_transition approved revoked, true)
      ∷ (is_valid_transition active revoked, true)
      ∷ (is_valid_transition active expired, true)
      ∷ (is_valid_transition rejected approved, false)
      ∷ (is_valid_transition expired active, false)
      ∷ (is_valid_transition canceled approved, false)
      ∷ (is_valid_transition active approved, false)
      ∷ (is_valid_transition requested expired, false)
      ∷ (is_valid_transition approved expired, false)
      ∷ (is_valid_transition requested requested, false)
      ∷ [])
    ≡ true
unfolding is_valid_transition
transitions = refl

-- TestTicket_Duration
durations :
    (duration_text (60 * minute) ≡ bytes "1h 0m")
    × (duration_text (24 * 60 * minute) ≡ bytes "1d 0h 0m")
    × (duration_text ((51 * 60 + 30) * minute) ≡ bytes "2d 3h 30m")
    × (duration_text (30 * minute) ≡ bytes "30m")
unfolding duration_text bytes decimal
durations = (refl, refl, refl, refl)

-- TestExtractPathParam, TestResolveTeam and TestParseIntParam
helpers :
    (extract_path_param (bytes "/knox-api/tickets/abc123") (bytes "/knox-api/tickets/")
      ≡ bytes "abc123")
    × (extract_path_param (bytes "/knox-api/tickets") (bytes "/knox-api/tickets/") ≡ [])
    × (resolve_team (texts ("/other-group" ∷ "/n8n-test-dev" ∷ [])) (bytes "/n8n-test-")
        ≡ bytes "dev")
    × (resolve_team (texts ("/other-group" ∷ [])) (bytes "/n8n-test-") ≡ [])
    × (parse_int_param (bytes "10") 5 ≡ 10)
    × (parse_int_param [] 5 ≡ 5)
    × (parse_int_param (bytes "abc") 5 ≡ 5)
    × (parse_int_param (bytes "0") 5 ≡ 0)
    × (parse_int_param (bytes "-1") 5 ≡ 5)
unfolding extract_path_param bytes resolve_team parse_int_param has_prefix trim_prefix
helpers = (refl, refl, refl, refl, refl, refl, refl, refl, refl)

abbrev keyed : Str → Api
keyed key = record api { api_key = key }

abbrev asking : List (Str × List Str) → Request
asking header = record cancel_request {
  method = bytes "GET";
  path = bytes "/knox-api/admin/tickets";
  header = header;
}

abbrev answered : Endpoint
answered r now j = (reply 200 aborted, j)

unfoldable status_for : Str → Request → ℕ
unfolding require_api_key
status_for key r = (require_api_key (keyed key) answered r 5 process).0.status

abbrev test_key : Str
test_key = bytes "test-key-123"

-- TestRequireAPIKey_Valid, _Missing, _Wrong, _Disabled and _BearerToken
api_keys :
    (status_for test_key (asking (set (bytes "X-Knox-Api-Key") test_key [])) ≡ 200)
    × (status_for test_key (asking []) ≡ 401)
    × (status_for test_key (asking (set (bytes "X-Knox-Api-Key") (bytes "wrong-key") [])) ≡ 401)
    × (status_for [] (asking []) ≡ 503)
    × (status_for test_key (asking (set (bytes "Authorization") (bytes "Bearer test-key-123") []))
        ≡ 200)
unfolding status_for bytes presented_key ◌==◌ set get trim_prefix has_prefix lookup insert
api_keys = (refl, refl, refl, refl, refl)

-- TestHandler_RouteDispatch_UnknownPath and TestHandler_RouteDispatch_CorrectRouting
routes :
    (route (bytes "GET") (bytes "/knox-api/unknown") ≡ unknown)
    × (route (bytes "GET") (bytes "/knox-api/request-jit") ≡ unknown)
    × (route (bytes "POST") (bytes "/knox-api/tickets") ≡ unknown)
unfolding route bytes ◌==◌ has_prefix has_suffix trim_suffix
routes = (refl, refl, refl)

-- The test's valid request, with instants written as numbers.
abbrev valid_request : CreateTicketRequest
valid_request = record {
  workflow_id = bytes "wf123";
  access_type = bytes "run" ∷ [];
  period_start = bytes "100";
  period_end = bytes "200";
  description = bytes "Valid description here";
}

unfoldable errors : CreateTicketRequest → ℕ
unfolding validate_create_request
errors req = length (validate_create_request parse_time 700 req)

-- TestValidateCreateRequest
validation :
    (errors valid_request ≡ 0)
    × (errors (record valid_request { workflow_id = [] }) ≡ 1)
    × (errors (record valid_request { access_type = [] }) ≡ 1)
    × (errors (record valid_request { access_type = bytes "admin" ∷ [] }) ≡ 1)
    × (errors (record valid_request { description = bytes "short" }) ≡ 1)
    × (errors (record valid_request { period_end = bytes "50" }) ≡ 1)
    × (errors (record valid_request { period_end = bytes "900" }) ≡ 1)
    × (errors (record valid_request { description = [] }) ≡ 1)
    × (errors (record valid_request { workflow_id = bytes "wf/../123" }) ≡ 1)
unfolding errors bytes ◌==◌ read_number trim_space matches_path_id read_digits duration_between
validation = (refl, refl, refl, refl, refl, refl, refl, refl, refl)

-- A text of spaces, one of them U+00A0, round a word with U+0085 in it, and one of U+3000 alone.
white_space :
    (trim_space (32 ∷ 0xC2 ∷ 0xA0 ∷ 97 ∷ 0xC2 ∷ 0x85 ∷ 98 ∷ 0xE2 ∷ 0x80 ∷ 0xA8 ∷ 9 ∷ [])
      ≡ 97 ∷ 0xC2 ∷ 0x85 ∷ 98 ∷ [])
    × (trim_space (0xE3 ∷ 0x80 ∷ 0x80 ∷ []) ≡ [])
unfolding trim_space
white_space = (refl, refl)
