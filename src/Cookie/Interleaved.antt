-- ===== src/Cookie/Interleaved.antt =====
-- Requests that overtake each other in GetCookie of knox-proxy/cookie/pool.go: the lock is free during
-- a login, so a cookie may be stored long after it was asked for.
use mathlib.Core.Path.{subst}
use mathlib.Core.Option.{some-injective}
use knox_proxy.Base.{
  ap, ◌∙◌, eqb_iff, eqb, Option, none, refl, ◌⊎◌, eq_iff, lookup-insert, Option-cases, ◌==◌,
  lookup-delete, Bool-cases, ◌≡◌, ℕ, arith, List, lookup, Str, some, inr, inl, ◌∷◌, [],
}
use knox_proxy.World.{LoginResponse, World}
use knox_proxy.Cookie.{
  find_cookie, login_result, LoginError, get_cookie, finish_login, failed, ok, new_pool,
  CachedCookie, login_to_n8n, Login, cached, invalidate_all, invalidate, store, Pool,
}

-- n8n answered a login with this email so; none is an error.
abbrev pub WasAnswered : Str → Option LoginResponse → List (Str × Option LoginResponse) → Type 0
WasAnswered email resp [] = ⊥
WasAnswered email resp (x ∷ xs) = (x ≡ (email, resp)) ⊎ WasAnswered email resp xs

-- n8n answered a login with this email by status 200, and this is its cookie n8n-auth.
abbrev pub WasGiven : Str → Str → List (Str × Option LoginResponse) → Type 0
WasGiven email value answers =
    (resp : LoginResponse) × WasAnswered email (some resp) answers
    × (resp.status ≡ 200)
    × (find_cookie resp.cookies ≡ some value)

login_cases :
    (result : Login) → ((e : LoginError) × (result ≡ failed e)) ⊎ ((v : Str) × (result ≡ ok v))
login_cases (ok v) = inr (v, refl)
login_cases (failed e) = inl (e, refl)

module _ (w : World) where
  -- The pool and n8n, with what n8n has answered to the logins so far, each with its email.
  pub record Shared : Type 0 where
    pub pool : Pool
    pub outside : w.State
    pub answers : List (Str × Option LoginResponse)

  -- A login, of any request that has found no cookie.
  unfoldable pub log_in : Str → Str → Shared → Shared
  log_in email password s =
      let (resp, outside) = w.login email password s.outside in
      record { pool = s.pool; outside = outside; answers = (email, resp) ∷ s.answers }

  abbrev pub at_rest : Pool → w.State → Shared
  at_rest pool outside = record { pool = pool; outside = outside; answers = [] }

  -- The second half of GetCookie, for what n8n answered.
  unfoldable pub finish : Str → Option LoginResponse → Shared → Shared
  unfolding finish_login login_result
  finish email resp s =
      let (_, pool, outside) = finish_login w email s.pool (login_result resp, s.outside) in
      record s { pool = pool; outside = outside }

  -- Any number of requests, with their steps in any order.
  pub data Interleaves (start : Shared) : Shared → Type 0 where
    begun : Interleaves start start
    logged_in :
        (s : Shared) (email password : Str)
        → Interleaves start s
        → Interleaves start (log_in email password s)
    -- A request goes on with what n8n answered to its login, at any time before.
    finished :
        (s : Shared) (email : Str) (resp : Option LoginResponse)
        → Interleaves start s
        → WasAnswered email resp s.answers
        → Interleaves start (finish email resp s)
    invalidated :
        (s : Shared) (email : Str)
        → Interleaves start s
        → Interleaves start (record s { pool = invalidate email s.pool })
    all_invalidated :
        (s : Shared)
        → Interleaves start s
        → Interleaves start (record s { pool = invalidate_all s.pool })
    waited :
        (s : Shared) (outside : w.State)
        → Interleaves start s
        → Interleaves start (record s { outside = outside })

  -- Each cookie in the pool was given for its email.
  abbrev IsGiven : Shared → Type 0
  IsGiven s =
      (email : Str) (c : CachedCookie)
      → lookup email s.pool.cookies ≡ some c
      → WasGiven email c.value s.answers

  log_in-IsGiven :
      (s : Shared) (email password : Str) → IsGiven s → IsGiven (log_in email password s)
  unfolding log_in
  log_in-IsGiven s email password v j c h =
      let (resp, there, fine, value) = v j c h in (resp, inr there, fine, value)

  -- What a login gave.
  login_result-ok :
      (resp : Option LoginResponse) (value : Str)
      → login_result resp ≡ ok value
      → (x : LoginResponse) × (resp ≡ some x)
        × (x.status ≡ 200)
        × (find_cookie x.cookies ≡ some value)
  unfolding login_result
  login_result-ok none value h = absurd (cc h)
  login_result-ok (some x) value h = elim (Bool-cases (eqb x.status 200)) [
    | inr e ↦ absurd (cc (rw e at h))
    | inl e ↦ elim (Option-cases (find_cookie x.cookies)) [
      | inl f ↦ absurd (cc (rw (e, f) at h))
      | inr (v, f) ↦
          let same : ok v ≡ ok value = rw (e, f) at h in
          let values : v ≡ value = cc same in
          (x, refl, (eqb_iff x.status 200).0 e, f ∙ ap some values)
    ]
  ]

  store-IsGiven :
      (s : Shared) (email value : Str) (outside : w.State)
      → WasGiven email value s.answers
      → IsGiven s
      → IsGiven (record s { pool = store email value (w.now outside) s.pool })
  unfolding store
  store-IsGiven s email value outside there v j c h = elim (Bool-cases (email == j)) [
    | inl same ↦
        let e = some-injective _ c (rw (lookup-insert, same) at h) in
        rw (← e, ← (eq_iff email j).0 same) there
    | inr other ↦ v j c (rw (lookup-insert, other) at h)
  ]

  finish-IsGiven :
      (s : Shared) (email : Str) (resp : Option LoginResponse)
      → WasAnswered email resp s.answers
      → IsGiven s
      → IsGiven (finish email resp s)
  unfolding finish finish_login
  finish-IsGiven s email resp there v = elim (login_cases (login_result resp)) [
    | inl (e, bad) ↦ rw (bad, finish_login) v
    | inr (value, good) ↦
        let (x, is, fine, found) = login_result-ok resp value good in
        rw (good, finish_login)
          (store-IsGiven s email value s.outside
            (x, subst (λ y. WasAnswered email y s.answers) is there, fine, found) v)
  ]

  invalidate-IsGiven :
      (s : Shared) (email : Str) → IsGiven s → IsGiven (record s { pool = invalidate email s.pool })
  unfolding invalidate
  invalidate-IsGiven s email v j c h =
      v j c (ground (arith, h, lookup-delete email j s.pool.cookies))

  Interleaves-IsGiven : {start s : Shared} → Interleaves start s → IsGiven start → IsGiven s
  unfolding invalidate_all lookup
  Interleaves-IsGiven begun v = v
  Interleaves-IsGiven (logged_in s email password run) v =
      log_in-IsGiven s email password (Interleaves-IsGiven run v)
  Interleaves-IsGiven (finished s email resp run there) v =
      finish-IsGiven s email resp there (Interleaves-IsGiven run v)
  Interleaves-IsGiven (invalidated s email run) v =
      invalidate-IsGiven s email (Interleaves-IsGiven run v)
  Interleaves-IsGiven (all_invalidated s run) v = λ email c h. absurd (cc h)
  Interleaves-IsGiven (waited s outside run) v = Interleaves-IsGiven run v

  cached-some :
      (email value : Str) (now : ℕ) (p : Pool)
      → cached email now p ≡ some value
      → (c : CachedCookie) × (lookup email p.cookies ≡ some c) × (c.value ≡ value)
  unfolding cached
  cached-some email value now p h = elim (Option-cases (lookup email p.cookies)) [
    | inl e ↦ absurd (cc (rw (e, cached) at h))
    | inr (c, e) ↦ (c, e, ground (arith, e, h))
  ]

  -- However requests overtake each other, a cookie that a new pool serves for an email is the cookie
  -- n8n-auth of an answer with status 200 that n8n gave to a login with that email.
  pub cached-given :
      (ttl_seconds now : ℕ) (email value : Str) (outside : w.State) (s : Shared)
      → Interleaves (at_rest (new_pool ttl_seconds) outside) s
      → cached email now s.pool ≡ some value
      → WasGiven email value s.answers
  unfolding lookup
  cached-given ttl_seconds now email value outside s run h =
      let (c, there, same) = cached-some email value now s.pool h in
      rw (← same) (Interleaves-IsGiven run (λ j d e. absurd (cc e)) email c there)

  -- GetCookie without anything between its steps is one way to interleave them.
  pub get_cookie-Interleaves :
      (start s : Shared) (email password : Str)
      → Interleaves start s
      → let (_, pool, outside) = get_cookie w email password s.pool s.outside in
        (s' : Shared) × Interleaves start s' × (s'.pool ≡ pool) × (s'.outside ≡ outside)
  unfolding get_cookie login_to_n8n log_in finish
  get_cookie-Interleaves start s email password run =
      elim (Option-cases (cached email (w.now s.outside) s.pool)) [
        | inr (value, e) ↦ rw (e, get_cookie) (s, run, refl, refl)
        | inl e ↦
            let asked = logged_in s email password run in
            let resp = (w.login email password s.outside).0 in
            let t = log_in email password s in
            rw (e, get_cookie)
              (finish email resp t, finished t email resp asked (inl refl), refl, refl)
      ]
