-- ===== src/Middleware/Chain.antt =====
-- What has been checked when a request gets through Auth and Policy (knox-proxy/middleware/chain.go).
use knox_proxy.Middleware.{
  is_workflow_path, is_mutation_method, sanitizes, bad_request, forbidden, policy_passed,
  policy_with_body, sanitize, policy_body, unauthorized, user_of, session_for, logging, Web, auth,
  policy, protected,
}
use knox_proxy.Context.{RequestUser, Handler}
use knox_proxy.Base.{
  has_prefix-append, non_empty, ◌==◌, Map, ◌≢◌, ◌++◌, ◌∷◌, [], Bool-cases, arith, bytes, Str,
  Option-cases, Option, ◌⊎◌, ◌≡◌, ℕ, true, none, some, inr, inl, refl,
}
use knox_proxy.Json.{Json, Decode}
use knox_proxy.Policy.Sanitizer.{is_enabled, Sanitizer}
use knox_proxy.Session.{UserSession, SessionManager}
use knox_proxy.Http.{plain_error, Response, Request}
use knox_proxy.Policy.Engine.{evaluate}
use knox_proxy.Policy.Sanitizer.Laws.{NodesPass, sanitize_iff}

-- The statuses of the answers that the chain gives itself.
abbrev pub IsRefusal : ℕ → Type 0
IsRefusal status = (status ≡ 302) ⊎ (status ≡ 400) ⊎ (status ≡ 401) ⊎ (status ≡ 403)

-- A change of a workflow with a body that is not "", which the chain has the sanitizer look at.
abbrev pub IsLookedAt : Request → Str → Type 0
IsLookedAt r body =
    ((r.method ≡ bytes "POST")
      ⊎ (r.method ≡ bytes "PATCH")
      ⊎ (r.method ≡ bytes "PUT")
      ⊎ (r.method ≡ bytes "DELETE"))
    × ((rest : Str) × (r.path ≡ bytes "/rest/workflows" ++ rest))
    × (body ≢ [])

-- The body of a change of a workflow has no node of a dangerous type; the bodies of other requests,
-- also those below /rest/executions, are not looked at.
abbrev pub HasSafeBody : Decode → Sanitizer → Request → Str → Type 0
HasSafeBody decode sanitizer r body =
    is_enabled sanitizer ≡ true
    → IsLookedAt r body
    → (workflow : Map Json) × (decode body ≡ some workflow) × NodesPass sanitizer workflow

mutation :
    (m : Str)
    → (m ≡ bytes "POST") ⊎ (m ≡ bytes "PATCH") ⊎ (m ≡ bytes "PUT") ⊎ (m ≡ bytes "DELETE")
    → is_mutation_method m ≡ true
unfolding is_mutation_method bytes ◌==◌
mutation m (inl e) = rw e refl
mutation m (inr (inl e)) = rw e refl
mutation m (inr (inr (inl e))) = rw e refl
mutation m (inr (inr (inr e))) = rw e refl

filled : (body : Str) → body ≢ [] → non_empty body ≡ true
filled [] h = absurd (h refl)
filled (c ∷ body) h = refl

looked_at :
    (sanitizer : Sanitizer) (r : Request) (body : Str)
    → is_enabled sanitizer ≡ true
    → IsLookedAt r body
    → sanitizes sanitizer r body ≡ true
unfolding sanitizes is_workflow_path
looked_at sanitizer r body on (method, (rest, path), there) =
    rw (on, mutation r.method method, path, has_prefix-append (bytes "/rest/workflows") rest)
      (filled body there)

sanitize-HasSafeBody :
    (decode : Decode) (sanitizer : Sanitizer) (r : Request) (body : Str)
    → sanitize decode sanitizer r body ≡ none
    → HasSafeBody decode sanitizer r body
unfolding sanitize
sanitize-HasSafeBody decode sanitizer r body passed on looked =
    (sanitize_iff decode sanitizer body on).0 (rw (looked_at sanitizer r body on looked) at passed)

module _ {S : Type 0} (decode : Decode) (sanitizer : Sanitizer) (web : Web)
    (sessions : S → SessionManager) (now : S → ℕ) where
  -- The request has a live session whose roles allow it, and a body that is safe if it changes a
  -- workflow.
  pub record IsCleared (r : Request) (s : S) (user : RequestUser) : Type 0 where
    pub session : UserSession
    pub live_session : session_for (sessions s) (now s) (web.session_cookie r) ≡ some session
    pub same_user : user ≡ user_of session
    pub body : Str
    pub seen : policy_body r ≡ some body
    pub allowed : (evaluate decode r.method r.path body session.jit_roles).allowed ≡ true
    pub harmless : HasSafeBody decode sanitizer r body

  unauthorized-IsRefusal : (id : Str) (r : Request) → IsRefusal (unauthorized web id r).status
  unfolding unauthorized
  unauthorized-IsRefusal id r = ground arith

  -- What a handler behind some checks comes to: it is reached, or a refusal is given.
  abbrev Outcome : Handler S → Request → S → Type 0 → RequestUser → Response × S → Type 0
  Outcome next r s Cleared user result =
      (Cleared × (result ≡ next (some user) r s))
      ⊎ ((resp : Response) × IsRefusal resp.status × (result ≡ (resp, s)))

  -- What Policy has checked of a request of this user.
  abbrev PassesPolicy : Request → RequestUser → Type 0
  PassesPolicy r user =
      (body : Str) × (policy_body r ≡ some body)
      × ((evaluate decode r.method r.path body user.jit_roles).allowed ≡ true)
      × (sanitize decode sanitizer r body ≡ none)

  policy_cases :
      (next : Handler S) (user : RequestUser) (r : Request) (s : S)
      → Outcome next r s (PassesPolicy r user) user (policy decode sanitizer next (some user) r s)
  unfolding policy policy_with_body policy_passed
  policy_cases next user r s = elim (Option-cases (policy_body r)) [
    | inl unread ↦
        inr (
          plain_error 400 (bytes "Failed to read request body"),
          inr (inl refl),
          rw (unread, policy),
        )
    | inr (body, seen) ↦
        elim (Bool-cases ((evaluate decode r.method r.path body user.jit_roles).allowed)) [
          | inr denied ↦ inr (
            forbidden (evaluate decode r.method r.path body user.jit_roles).reason,
            inr (inr (inr refl)),
            rw (seen, policy, denied),
          )
          | inl allowed ↦ elim (Option-cases (sanitize decode sanitizer r body)) [
            | inl harmless ↦ inl (
              (body, seen, allowed, harmless),
              rw (seen, policy, allowed, harmless, policy_passed),
            )
            | inr (e, bad) ↦
                inr (bad_request e, inr (inl refl), rw (seen, policy, allowed, bad, policy_passed))
          ]
        ]
  ]

  pub protected_cases :
      (next : Handler S) (context : Option RequestUser) (r : Request) (s : S)
      → ((user : RequestUser) × IsCleared r s user
          × (protected decode sanitizer web sessions now next context r s ≡ next (some user) r s))
        ⊎ ((resp : Response) × IsRefusal resp.status
            × (protected decode sanitizer web sessions now next context r s ≡ (resp, s)))
  unfolding protected logging auth
  protected_cases next context r s =
      elim (Option-cases (session_for (sessions s) (now s) (web.session_cookie r))) [
        | inl missing ↦ inr (
          unauthorized web (web.session_cookie r) r,
          unauthorized-IsRefusal (web.session_cookie r) r,
          rw (missing, auth),
        )
        | inr (session, found) ↦ elim (policy_cases next (user_of session) r s) [
          | inl ((body, seen, allowed, harmless), reached) ↦ inl (
            user_of session,
            record {
              session = session;
              live_session = found;
              same_user = refl;
              body = body;
              seen = seen;
              allowed = allowed;
              harmless = sanitize-HasSafeBody decode sanitizer r body harmless;
            },
            rw (found, auth) reached,
          )
          | inr (resp, refusal, given) ↦ inr (resp, refusal, rw (found, auth) given)
        ]
      ]
