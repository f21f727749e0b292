-- ===== src/Cookie/Laws.antt =====
-- When GetCookie (knox-proxy/cookie/pool.go) logs in, and what it remembers.
use knox_proxy.Cookie.{
  login_to_n8n, finish_login, LoginError, store, invalidate, get_cookie, cached, Pool, Login, ok,
  failed,
}
use knox_proxy.World.{World}
use knox_proxy.Base.{
  ◌∙◌, Bool-cases, ap, eq_false, Option-cases, sym, eq_refl, lookup-insert, arith, ◌+◌, ltb,
  lookup-delete, ◌==◌, ◌≢◌, if◌then◌else◌, ℕ, ◌≡◌, Str, none, some, inr, inl, refl,
}

-- An invalidated email has no cached cookie at any time, and other emails keep theirs.
pub cached-invalidate :
    (email j : Str) (now : ℕ) (p : Pool)
    → cached j now (invalidate email p) ≡ (if email == j then none else cached j now p)
unfolding cached invalidate
cached-invalidate email j now p = ground (arith, lookup-delete email j p.cookies)

cached-store :
    (email j value : Str) (now later : ℕ) (p : Pool)
    → cached j later (store email value now p) ≡ (
        if email == j
        then (if ltb later (now + p.ttl) then some value else none)
        else cached j later p)
unfolding cached store
cached-store email j value now later p =
    ground
      (arith, lookup-insert email j (record { value = value; expires_at = now + p.ttl }) p.cookies)

module _ (w : World) where
  get_cookie_hit :
      (email password value : Str) (p : Pool) (s : w.State)
      → cached email (w.now s) p ≡ some value
      → get_cookie w email password p s ≡ (ok value, p, s)
  unfolding get_cookie
  get_cookie_hit email password value p s hit = rw (hit, get_cookie)

  get_cookie_miss :
      (email password : Str) (p : Pool) (s : w.State)
      → cached email (w.now s) p ≡ none
      → get_cookie w email password p s ≡ finish_login w email p (login_to_n8n w email password s)
  unfolding get_cookie
  get_cookie_miss email password p s miss = rw (miss, get_cookie)

  finish_ok :
      (email value : Str) (p : Pool) (m : Login × w.State)
      → m.0 ≡ ok value
      → finish_login w email p m ≡ (ok value, store email value (w.now m.1) p, m.1)
  unfolding finish_login
  finish_ok email value p (ok v, s) e = ground arith
  finish_ok email value p (failed e', s) e = cc e

  -- Asking the pool that a login left.
  after_login :
      (email password value : Str) (p : Pool) (s later : w.State)
      → let stored = store email value (w.now s) p in
        get_cookie w email password stored later ≡ (
          if ltb (w.now later) (w.now s + p.ttl)
          then (ok value, stored, later)
          else finish_login w email stored (login_to_n8n w email password later))
  after_login email password value p s later =
      let kept = cached-store email email value (w.now s) (w.now later) p in
      let stored = store email value (w.now s) p in
      let same = eq_refl email in
      elim (Bool-cases (ltb (w.now later) (w.now s + p.ttl))) [
        | inl young ↦
            rw young (get_cookie_hit email password value stored later (kept ∙ rw (same, young)))
        | inr old ↦ rw old (get_cookie_miss email password stored later (kept ∙ rw (same, old)))
      ]

  -- After a login that gave a cookie, the cookie is served from memory until it is as old as the
  -- lifetime, and n8n is not asked; then it is asked again.
  pub get_cookie_again :
      (email password value : Str) (p : Pool) (s later : w.State)
      → cached email (w.now s) p ≡ none
      → (login_to_n8n w email password s).0 ≡ ok value
      → let served = get_cookie w email password p s in
        (served.0 ≡ ok value)
        × (get_cookie w email password served.1 later ≡ (
            if ltb (w.now later) (w.now served.2 + p.ttl)
            then (ok value, served.1, later)
            else finish_login w email served.1 (login_to_n8n w email password later)))
  get_cookie_again email password value p s later miss login =
      rw
        (
          get_cookie_miss email password p s miss,
          finish_ok email value p (login_to_n8n w email password s) login,
        )
        (refl, after_login email password value p (login_to_n8n w email password s).1 later)

  finish_failed :
      (email : Str) (p p' : Pool) (m : Login × w.State) (s' : w.State) (e : LoginError)
      → finish_login w email p m ≡ (failed e, p', s')
      → p' ≡ p
  unfolding finish_login
  finish_failed email p p' (failed e', s) s' e h = sym (ap (λ (r : Login × Pool × w.State). r.1) h)
  finish_failed email p p' (ok v, s) s' e h =
      absurd (cc (ap (λ (r : Login × Pool × w.State). r.0) h))

  -- A failed login leaves the pool as it is.
  pub get_cookie_failed :
      (email password : Str) (p p' : Pool) (s s' : w.State) (e : LoginError)
      → get_cookie w email password p s ≡ (failed e, p', s')
      → p' ≡ p
  get_cookie_failed email password p p' s s' e h = elim (Option-cases (cached email (w.now s) p)) [
    | inl miss ↦
        finish_failed email p p' (login_to_n8n w email password s) s' e
          (rw (get_cookie_miss email password p s miss) at h)
    | inr (v, hit) ↦
        let r = rw (get_cookie_hit email password v p s hit) at h in
        absurd (cc (ap (λ (r : Login × Pool × w.State). r.0) r))
  ]

  finish_other :
      (email j : Str) (now : ℕ) (p : Pool) (m : Login × w.State)
      → email ≢ j
      → cached j now (finish_login w email p m).1 ≡ cached j now p
  unfolding finish_login
  finish_other email j now p (failed e, s) differ = refl
  finish_other email j now p (ok v, s) differ =
      rw (cached-store email j v (w.now s) now p, eq_false email j differ)

  -- A login for one email does not touch the cookies of another.
  pub get_cookie_other :
      (email password j : Str) (now : ℕ) (p : Pool) (s : w.State)
      → email ≢ j
      → cached j now (get_cookie w email password p s).1 ≡ cached j now p
  get_cookie_other email password j now p s differ =
      elim (Option-cases (cached email (w.now s) p)) [
        | inl miss ↦
            rw (get_cookie_miss email password p s miss)
              (finish_other email j now p (login_to_n8n w email password s) differ)
        | inr (v, hit) ↦ rw (get_cookie_hit email password v p s hit)
      ]
