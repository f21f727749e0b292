-- ===== src/Retry/Laws.antt =====
-- When waiting succeeds (knox-proxy/jit/db.go, knox-proxy/auth/oidc.go).
use mathlib.Core.Option.{some-injective}
use knox_proxy.Base.{
  sym, ◌∙◌, false, true, zero, eqb_iff, eqb, ap, Bool-cases, Option-cases, suc, arith, ◌↔◌, ◌+◌,
  ◌<◌, ◌≡◌, Bool, ◌≤◌, Option, ℕ, none, some, inr, inl, refl,
}
use knox_proxy.Retry.{open_db, retry, new_db}

-- Attempt number k is the first that succeeds, of those from number i on.
pub record IsFirst {ℓ} {A : Type ℓ} (attempt : ℕ → Option A) (i k : ℕ) (a : A) : Type ℓ where
  pub later : i ≤ k
  pub succeeds : attempt k ≡ some a
  pub none_before : (j : ℕ) → i ≤ j → j < k → attempt j ≡ none

module _ {ℓ} {A : Type ℓ} (attempt : ℕ → Option A) where
  retry_sound :
      (n i : ℕ) (a : A) → retry n i attempt ≡ some a → (k : ℕ) × (k < i + n) × IsFirst attempt i k a
  unfolding retry
  retry_sound zero i a h = absurd (cc h)
  retry_sound (suc n) i a h = elim (Option-cases (attempt i)) [
    | inr (b, e) ↦
        let same : b ≡ a = cc (rw (e, retry) at h) in
        (
          i,
          omega arith,
          record {
            later = omega arith;
            succeeds = rw e (ap some same);
            none_before = λ j low high. absurd (omega arith);
          },
        )
    | inl e ↦
        let (k, below, first) = retry_sound n (suc i) a (rw (e, retry) at h) in
        (
          k,
          omega arith,
          record {
            later = omega (arith, first.later);
            succeeds = first.succeeds;
            none_before = λ j low high. elim (Bool-cases (eqb j i)) [
              | inl here ↦ let same : j ≡ i = (eqb_iff j i).0 here in rw same e
              | inr other ↦ first.none_before j (ground arith) high
            ];
          },
        )
  ]

  retry_complete :
      (n i k : ℕ) (a : A) → k < i + n → IsFirst attempt i k a → retry n i attempt ≡ some a
  unfolding retry
  retry_complete zero i k a below first = absurd (omega (arith, first.later))
  retry_complete (suc n) i k a below first = elim (Bool-cases (eqb i k)) [
    | inl here ↦
        let same : i ≡ k = (eqb_iff i k).0 here in
        let done : attempt i ≡ some a = rw same first.succeeds in rw (done, retry) refl
    | inr other ↦
        let low = first.later in
        let failed : attempt i ≡ none = first.none_before i (omega arith) (ground arith) in
        rw (failed, retry)
          (retry_complete n (suc i) k a (omega arith) (record {
            later = ground arith;
            succeeds = first.succeeds;
            none_before = λ j low high. first.none_before j (omega arith) high;
          }))
  ]

module _ {ℓ} {Pool : Type ℓ} (open_pool : ℕ → Option Pool) (ping : ℕ → Pool → Bool) where
  -- Attempt k opens this pool and reaches the database; each attempt before it opens none, or cannot
  -- reach it.
  pub record IsReached (k : ℕ) (pool : Pool) : Type ℓ where
    pub opened : open_pool k ≡ some pool
    pub answered : ping k pool ≡ true
    pub not_before : (j : ℕ) (p : Pool) → j < k → open_pool j ≡ some p → ping j p ≡ false

  open_db_iff :
      (i : ℕ) (pool : Pool)
      → (open_db open_pool ping i ≡ some pool) ↔ ((open_pool i ≡ some pool) × (ping i pool ≡ true))
  unfolding open_db
  open_db_iff i pool = elim (Option-cases (open_pool i)) [
    | inl e ↦ (λ h. absurd (cc (rw (e, open_db) at h)), λ h. absurd (cc (e, h.0)))
    | inr (p, e) ↦ elim (Bool-cases (ping i p)) [
      | inl f ↦ (
        λ h.
            let same : p ≡ pool = some-injective p pool (rw (e, open_db, f) at h) in
            (e ∙ ap some same, ap (ping i) (sym same) ∙ f),
        λ h. rw (e, open_db, f) (sym e ∙ h.0),
      )
      | inr f ↦ (
        λ h. absurd (cc (rw (e, open_db, f) at h)),
        λ h.
            let same : p ≡ pool = some-injective p pool (sym e ∙ h.0) in
            absurd (cc (sym (h.1) ∙ ap (ping i) (sym same) ∙ f)),
      )
    ]
  ]

  open_db-none :
      (i : ℕ)
      → (open_db open_pool ping i ≡ none) ↔ ((p : Pool) → open_pool i ≡ some p → ping i p ≡ false)
  unfolding open_db
  open_db-none i = elim (Option-cases (open_pool i)) [
    | inl e ↦ (λ h p there. absurd (cc (e, there)), λ h. rw (e, open_db) refl)
    | inr (q, e) ↦ elim (Bool-cases (ping i q)) [
      | inl f ↦ (λ h. absurd (cc (rw (e, open_db, f) at h)), λ h. absurd (cc (h q e, f)))
      | inr f ↦ (
        λ h p there. ap (ping i) (some-injective p q (sym there ∙ e)) ∙ f,
        λ h. rw (e, open_db, f) refl,
      )
    ]
  ]

  IsFirst-IsReached :
      (k : ℕ) (pool : Pool) → IsFirst (open_db open_pool ping) 0 k pool ↔ IsReached k pool
  IsFirst-IsReached k pool = (
    λ h.
        let (opened, answered) = (open_db_iff k pool).0 h.succeeds in
        record {
          opened = opened;
          answered = answered;
          not_before = λ j p below. (open_db-none j).0 (h.none_before j (omega arith) below) p;
        },
    λ h. record {
      later = omega arith;
      succeeds = (open_db_iff k pool).1 (h.opened, h.answered);
      none_before = λ j low below. (open_db-none j).1 (λ p. h.not_before j p below);
    },
  )

  -- The database is used exactly if one of the first ten attempts opens a pool and Ping reaches the
  -- database on it, and it is then the pool of the first such attempt.
  pub new_db_iff :
      (pool : Pool) → (new_db open_pool ping ≡ some pool) ↔ ((k : ℕ) × (k < 10) × IsReached k pool)
  unfolding new_db
  new_db_iff pool = (
    λ h.
        let (k, below, first) = retry_sound (open_db open_pool ping) 10 0 pool h in
        (k, below, (IsFirst-IsReached k pool).0 first),
    λ w.
        retry_complete (open_db open_pool ping) 10 0 w.0 pool w.1
          ((IsFirst-IsReached w.0 pool).1 w.2),
  )
