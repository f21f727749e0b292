-- ===== src/Context.antt =====
-- The user in a request's context (knox-proxy/middleware/chain.go), and the handlers that read it. The
-- context has a holder that Logging puts there empty and Auth fills; a handler is given its content.
use knox_proxy.Base.{
  trim_prefix, non_empty, ◌&&◌, has_prefix, if◌then◌else◌, List, ◌∷◌, [], Str, Option,
}
use knox_proxy.Http.{Request, Response}

pub record RequestUser : Type 0 where
  pub email : Str
  pub display_name : Str
  pub groups : List Str
  pub jit_roles : List Str

-- A handler over the state S of the process and what is outside.
abbrev pub Handler {ℓ} : Type ℓ → Type ℓ
Handler S = Option RequestUser → Request → S → Response × S

-- The loop of resolveTeam, which knox-proxy/proxy/handler.go and knox-proxy/jit/handler.go both have.
unfoldable pub resolve_team : List Str → Str → Str
resolve_team [] prefix = []
resolve_team (group ∷ groups) prefix =
    if has_prefix group prefix && non_empty (trim_prefix group prefix)
    then trim_prefix group prefix
    else resolve_team groups prefix
