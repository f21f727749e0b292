-- ===== src/Jit/Validate/Laws.antt =====
-- When a request for a ticket is valid (validateCreateRequest of knox-proxy/jit/handler.go).
use mathlib.Core.List.{append-eq-nil_iff}
use knox_proxy.Base.{
  ltb, if◌then◌else◌, not, eq_iff, arith, ◌==◌, ◌++◌, Bool, List, trim_space, length, ◌≤◌, ◌⊎◌,
  bytes, ◌<◌, ◌↔◌, All, ◌≡◌, ◌≢◌, Option, false, true, none, some, refl, ◌∷◌, [], ℕ, Str,
}
use knox_proxy.Jit.Validate.{
  no_start, no_end, or_zero, invalid_access_type, access_type_errors, is_none, error_if,
  description_errors, period_errors, each_access_type_errors, is_access_type, workflow_id_errors,
  zero_time, ParseTime, CreateTicketRequest, validate_create_request,
}
use knox_proxy.Policy.Engine.Rules.{matches_path_id_iff, IsWorkflowId}
use knox_proxy.Jit.Ticket.{duration_between}

-- Both instants can be read, and one is the zero time or the second is later, by no more than the
-- most that is allowed.
abbrev pub IsPeriod : ℕ → Option ℕ → Option ℕ → Type 0
IsPeriod most (some start) (some end_time) =
    (start ≡ zero_time)
    ⊎ (end_time ≡ zero_time)
    ⊎ ((start < end_time) × (duration_between start end_time ≤ most))
IsPeriod most _ _ = ⊥

pub record IsValidRequest (parse_time : ParseTime) (most : ℕ) (req : CreateTicketRequest)
    : Type 0 where
  pub workflow : IsWorkflowId req.workflow_id
  pub some_access : req.access_type ≢ []
  pub each_access : All (λ at. (at ≡ bytes "run") ⊎ (at ≡ bytes "edit")) req.access_type
  pub period : IsPeriod most (parse_time req.period_start) (parse_time req.period_end)
  pub description : 10 ≤ length (trim_space req.description)

-- Two lists of errors are both empty.
no_errors {ℓ} : {A : Type ℓ} (xs ys : List A) → (xs ++ ys ≡ []) ↔ ((xs ≡ []) × (ys ≡ []))
no_errors xs ys = append-eq-nil_iff

error_if_none : (b : Bool) (message : Str) → (error_if b message ≡ []) ↔ (b ≡ false)
error_if_none true message = ((λ h. cc h), (λ h. cc h))
error_if_none false message = ((λ _. refl), (λ _. refl))

workflow_id_errors_iff : (id : Str) → (workflow_id_errors id ≡ []) ↔ IsWorkflowId id
workflow_id_errors_iff [] =
    ((λ h. unfold workflow_id_errors ◌==◌ in cc h), (λ h. absurd (h.0 refl)))
workflow_id_errors_iff (c ∷ id) =
    let rules = matches_path_id_iff (c ∷ id) in
    (
      λ h. rules.0 (unfold workflow_id_errors ◌==◌ in ground arith),
      λ h. let m = rules.1 h in unfold workflow_id_errors ◌==◌ in rw m,
    )

abbrev IsAccessType : Str → Type 0
IsAccessType at = (at ≡ bytes "run") ⊎ (at ≡ bytes "edit")

is_access_type_iff : (at : Str) → (is_access_type at ≡ true) ↔ IsAccessType at
unfolding is_access_type
is_access_type_iff at = ground (arith, eq_iff at (bytes "run"), eq_iff at (bytes "edit"))

each_access_sound : (ats : List Str) → each_access_type_errors ats ≡ [] → All IsAccessType ats
unfolding each_access_type_errors
each_access_sound [] h = tt
each_access_sound (at ∷ ats) h =
    let (here, later) =
      (no_errors (error_if (not (is_access_type at)) (invalid_access_type at))
          (each_access_type_errors ats)).0
        h in
    ((is_access_type_iff at).0 (ground (arith, here)), each_access_sound ats later)

each_access_complete : (ats : List Str) → All IsAccessType ats → each_access_type_errors ats ≡ []
unfolding each_access_type_errors
each_access_complete [] h = refl
each_access_complete (at ∷ ats) h = rw ((is_access_type_iff at).1 h.0, each_access_complete ats h.1)

period_errors_iff :
    (most start end_time : ℕ)
    → (period_errors most start end_time ≡ []) ↔ IsPeriod most (some start) (some end_time)
unfolding period_errors
period_errors_iff most start end_time = ((λ h. ground arith), (λ h. ground arith))

trimmed_iff :
    (w absent short : Str)
    → ((if w == [] then absent ∷ [] else error_if (ltb (length w) 10) short) ≡ []) ↔ (10 ≤ length w)
unfolding ◌==◌
trimmed_iff [] absent short = ((λ h. cc h), (λ h. absurd (omega arith)))
trimmed_iff (c ∷ w) absent short = ((λ h. ground arith), (λ h. ground arith))

description_errors_iff : (d : Str) → (description_errors d ≡ []) ↔ (10 ≤ length (trim_space d))
unfolding description_errors
description_errors_iff d = trimmed_iff (trim_space d) _ _

-- The checks of the timestamps and of the period between them.
times_iff :
    (most : ℕ) (start end_time : Option ℕ) (m n : Str)
    → (error_if (is_none start) m
          ++ (error_if (is_none end_time) n
              ++ period_errors most (or_zero start) (or_zero end_time))
        ≡ [])
      ↔ IsPeriod most start end_time
times_iff most none end_time m n = ((λ h. cc h), (λ h. absurd h))
times_iff most (some start) none m n = ((λ h. cc h), (λ h. absurd h))
times_iff most (some start) (some end_time) m n = period_errors_iff most start end_time

access_sound : (ats : List Str) → access_type_errors ats ≡ [] → (ats ≢ []) × All IsAccessType ats
unfolding access_type_errors
access_sound [] h = cc h
access_sound (at ∷ ats) h = ((λ e. cc e), each_access_sound (at ∷ ats) h)

access_complete : (ats : List Str) → ats ≢ [] → All IsAccessType ats → access_type_errors ats ≡ []
unfolding access_type_errors
access_complete [] some_access h = absurd (some_access refl)
access_complete (at ∷ ats) some_access h = each_access_complete (at ∷ ats) h

-- The errors of a request, told apart by what they are about.
no_error_about {ℓ} :
    {A : Type ℓ} (workflow access start end_time period description : List A)
    → (workflow ++ (access ++ (start ++ (end_time ++ (period ++ description)))) ≡ []) ↔ (
        (workflow ≡ []) × (access ≡ []) × (start ++ (end_time ++ period) ≡ []) × (description ≡ []))
no_error_about workflow access start end_time period description = (
  λ h.
      let (w, h1) = (no_errors workflow _).0 h in
      let (a, h2) = (no_errors access _).0 h1 in
      let (s, h3) = (no_errors start _).0 h2 in
      let (e, h4) = (no_errors end_time _).0 h3 in
      let (p, d) = (no_errors period description).0 h4 in
      (w, a, (no_errors start _).1 (s, (no_errors end_time period).1 (e, p)), d),
  λ h.
      let (s, ep) = (no_errors start (end_time ++ period)).0 h.2 in
      let (e, p) = (no_errors end_time period).0 ep in rw (h.0, h.1, s, e, p, h.3),
)

module _ (parse_time : ParseTime) (most : ℕ) (req : CreateTicketRequest) where
  validate_parts : (validate_create_request parse_time most req ≡ []) ↔ (
      (workflow_id_errors req.workflow_id ≡ [])
      × (access_type_errors req.access_type ≡ [])
      × (error_if (is_none (parse_time req.period_start)) no_start
            ++ (error_if (is_none (parse_time req.period_end)) no_end
                ++ period_errors most
                    (or_zero (parse_time req.period_start))
                    (or_zero (parse_time req.period_end)))
          ≡ [])
      × (description_errors req.description ≡ []))
  unfolding validate_create_request
  validate_parts =
      no_error_about (workflow_id_errors req.workflow_id) (access_type_errors req.access_type)
        (error_if (is_none (parse_time req.period_start)) no_start)
        (error_if (is_none (parse_time req.period_end)) no_end)
        (period_errors most (or_zero (parse_time req.period_start))
          (or_zero (parse_time req.period_end)))
        (description_errors req.description)

  validate_sound :
      validate_create_request parse_time most req ≡ [] → IsValidRequest parse_time most req
  validate_sound h =
      let (w, a, p, d) = validate_parts.0 h in
      let access = access_sound req.access_type a in
      record {
        workflow = (workflow_id_errors_iff req.workflow_id).0 w;
        some_access = access.0;
        each_access = access.1;
        period =
            (times_iff most (parse_time req.period_start) (parse_time req.period_end) no_start
                no_end).0
              p;
        description = (description_errors_iff req.description).0 d;
      }

  validate_complete :
      IsValidRequest parse_time most req → validate_create_request parse_time most req ≡ []
  validate_complete v = validate_parts.1 (
    (workflow_id_errors_iff req.workflow_id).1 v.workflow,
    access_complete req.access_type v.some_access v.each_access,
    (times_iff most (parse_time req.period_start) (parse_time req.period_end) no_start no_end).1
        v.period,
    (description_errors_iff req.description).1 v.description,
  )

-- No error is found exactly in the valid requests.
pub validate_iff :
    (parse_time : ParseTime) (most : ℕ) (req : CreateTicketRequest)
    → (validate_create_request parse_time most req ≡ []) ↔ IsValidRequest parse_time most req
validate_iff parse_time most req =
    (validate_sound parse_time most req, validate_complete parse_time most req)
