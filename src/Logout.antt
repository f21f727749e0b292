-- ===== src/Logout.antt =====
-- knox-proxy/auth/backchannel.go: Keycloak tells the proxy that a session has ended. Reading the form,
-- the signature of the token (go-oidc) and the decoding of its claims are parameters; of the claims
-- that the code does not read, none is kept.
pub mod Laws
use knox_proxy.Base.{
  lookup, ◌||◌, non_empty, not, ◌==◌, ◌++◌, if◌then◌else◌, Bool, Map, bytes, Option, List, Str,
  false, true, none, some, inr, inl, refl, ◌∷◌, [],
}
use knox_proxy.Json.{nil, null, arr, cons, str, Items, Json}
use knox_proxy.Http.{plain_error, Request, Response}
use knox_proxy.Session.{destroy_by_keycloak_sid, SessionManager}

-- What encoding/json reads of a token, before UnmarshalJSON of the audience.
pub record RawClaims : Type 0 where
  pub issuer : Str
  pub audience : Option Json
  pub events : Map Json
  pub session_id : Str

pub record LogoutTokenClaims : Type 0 where
  pub issuer : Str
  pub audience : List Str
  pub events : Map Json
  pub session_id : Str

-- A null leaves a string empty.
abbrev json_text : Json → Option Str
json_text (str s) = some s
json_text null = some []
json_text _ = none

-- An array of strings; none is an error.
abbrev json_texts : Items → Option (List Str)
json_texts nil = some []
json_texts (cons v vs) = elim (json_text v) [
  | none ↦ none
  | some s ↦ elim (json_texts vs) [ none ↦ none | some ss ↦ some (s ∷ ss) ]
]

-- UnmarshalJSON of audience: a string, or an array of strings.
unfoldable pub unmarshal_audience : Json → Option (List Str)
unmarshal_audience (arr vs) = json_texts vs
unmarshal_audience v = elim (json_text v) [ none ↦ none | some s ↦ some (s ∷ []) ]

-- Contains of audience
unfoldable pub audience_contains : List Str → Str → Bool
audience_contains [] target = false
audience_contains (v ∷ vs) target = v == target || audience_contains vs target

abbrev claims_with : RawClaims → List Str → LogoutTokenClaims
claims_with raw audience = record {
  issuer = raw.issuer;
  audience = audience;
  events = raw.events;
  session_id = raw.session_id;
}

-- A token without the claim has no audience.
unfoldable pub logout_token_claims : RawClaims → Option LogoutTokenClaims
unfolding unmarshal_audience
logout_token_claims raw = elim raw.audience [
  | none ↦ some (claims_with raw [])
  | some v ↦ elim (unmarshal_audience v) [
    | none ↦ none
    | some audience ↦ some (claims_with raw audience)
  ]
]

pub record BackchannelLogoutHandler : Type 0 where
  pub client_id : Str
  pub issuer_url : Str
  -- ParseForm; none is an error. The form's logout_token, "" if it is missing.
  pub form : Request → Option Str
  -- VerifySignature with Keycloak's keys, to the payload; none is an error.
  pub verify_signature : Str → Option Str
  pub decode : Str → Option RawClaims

abbrev pub logout_event : Str
unfolding bytes
logout_event = bytes "http://schemas.openid.net/event/backchannel-logout"

abbrev pub is_some {ℓ} : {A : Type ℓ} → Option A → Bool
is_some none = false
is_some (some _) = true

pub data TokenError : Type 0 where
  invalid_issuer client_not_in_audience missing_event missing_session_id : TokenError

-- validateLogoutToken; none is no error.
unfoldable pub validate_logout_token :
    BackchannelLogoutHandler → LogoutTokenClaims → Option TokenError
unfolding audience_contains
validate_logout_token h claims =
    if not (claims.issuer == h.issuer_url)
    then some invalid_issuer
    else if not (audience_contains claims.audience h.client_id)
    then some client_not_in_audience
    else if not (is_some (lookup logout_event claims.events))
    then some missing_event
    else if claims.session_id == []
    then some missing_session_id
    else none

-- err.Error()
unfoldable pub token_error_text : BackchannelLogoutHandler → LogoutTokenClaims → TokenError → Str
token_error_text h claims invalid_issuer =
    bytes "invalid issuer: got " ++ (claims.issuer ++ (bytes ", expected " ++ h.issuer_url))
token_error_text h claims client_not_in_audience =
    bytes "client ID " ++ (h.client_id ++ bytes " not found in audience")
token_error_text h claims missing_event = bytes "missing backchannel-logout event in token"
token_error_text h claims missing_session_id = bytes "missing session ID (sid) in logout token"

abbrev pub no_content : Response
no_content = record { status = 200; header = []; body = [] }

-- The sessions behind a token that is accepted.
unfoldable pub revoke : LogoutTokenClaims → SessionManager → SessionManager
revoke claims sm =
    if non_empty claims.session_id then (destroy_by_keycloak_sid claims.session_id sm).1 else sm

unfoldable pub finish_logout :
    BackchannelLogoutHandler → LogoutTokenClaims → SessionManager → Response × SessionManager
unfolding validate_logout_token revoke
finish_logout h claims sm = elim (validate_logout_token h claims) [
  | some e ↦
      (plain_error 400 (bytes "Token validation failed: " ++ token_error_text h claims e), sm)
  | none ↦ (no_content, revoke claims sm)
]

-- The claims of a token, behind its signature.
unfoldable pub claims_of : BackchannelLogoutHandler → Str → Option LogoutTokenClaims
unfolding logout_token_claims
claims_of h payload = elim (h.decode payload) [ none ↦ none | some raw ↦ logout_token_claims raw ]

unfoldable pub logout_with_payload :
    BackchannelLogoutHandler → Str → SessionManager → Response × SessionManager
unfolding finish_logout claims_of
logout_with_payload h payload sm = elim (claims_of h payload) [
  | none ↦ (plain_error 400 (bytes "Invalid token claims"), sm)
  | some claims ↦ finish_logout h claims sm
]

unfoldable pub logout_with_token :
    BackchannelLogoutHandler → Str → SessionManager → Response × SessionManager
unfolding logout_with_payload
logout_with_token h [] sm = (plain_error 400 (bytes "Missing logout_token"), sm)
logout_with_token h (c ∷ token) sm = elim (h.verify_signature (c ∷ token)) [
  | none ↦ (plain_error 400 (bytes "Invalid token signature"), sm)
  | some payload ↦ logout_with_payload h payload sm
]

-- ServeHTTP
unfoldable pub backchannel_logout :
    BackchannelLogoutHandler → Request → SessionManager → Response × SessionManager
unfolding logout_with_token
backchannel_logout h r sm =
    if not (r.method == bytes "POST")
    then (plain_error 405 (bytes "Method not allowed"), sm)
    else (elim (h.form r) [
      | none ↦ (plain_error 400 (bytes "Bad request"), sm)
      | some token ↦ logout_with_token h token sm
    ])
