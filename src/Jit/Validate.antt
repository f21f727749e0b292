-- ===== src/Jit/Validate.antt =====
-- validateCreateRequest of knox-proxy/jit/handler.go, and how a request becomes a ticket. Reading an
-- RFC 3339 timestamp is a parameter.
pub mod Laws
pub mod Access
use knox_proxy.Base.{
  ◌*◌, ◌&&◌, length, ◌/◌, trim_space, eqb, ◌||◌, join, ltb, not, ◌++◌, ◌==◌, if◌then◌else◌, bytes,
  Bool, Option, List, false, true, none, some, inr, inl, refl, ◌∷◌, [], ℕ, Str,
}
use knox_proxy.Policy.Engine.{matches_path_id}
use knox_proxy.Jit.Numbers.{decimal}
use knox_proxy.Jit.Ticket.{minute, duration_between}

pub record CreateTicketRequest : Type 0 where
  pub workflow_id : Str
  pub access_type : List Str
  pub period_start : Str
  pub period_end : Str
  pub description : Str

-- time.Parse(time.RFC3339, …)
abbrev pub ParseTime : Type 0
ParseTime = Str → Option ℕ

-- The zero time.Time, the first instant of year 1: 368 days behind the point from which instants are
-- counted, two days before year 0.
abbrev pub zero_time : ℕ
zero_time = 31_795_200_000_000_000

-- time.Parse gives the zero time beside an error.
abbrev pub or_zero : Option ℕ → ℕ
or_zero none = zero_time
or_zero (some t) = t

abbrev pub error_if : Bool → Str → List Str
error_if b message = if b then message ∷ [] else []

abbrev pub no_start : Str
no_start = bytes "period_start must be a valid RFC3339 timestamp"

abbrev pub no_end : Str
no_end = bytes "period_end must be a valid RFC3339 timestamp"

-- workflowIDRegex is the expression of the policy engine.
unfoldable pub workflow_id_errors : Str → List Str
workflow_id_errors id =
    if id == []
    then bytes "workflow_id is required" ∷ []
    else error_if (not (matches_path_id id)) (bytes "workflow_id contains invalid characters")

unfoldable pub is_access_type : Str → Bool
is_access_type at = at == bytes "run" || at == bytes "edit"

abbrev invalid_access_type : Str → Str
invalid_access_type at = bytes "invalid access_type: " ++ (at ++ bytes " (must be 'run' or 'edit')")

unfoldable pub each_access_type_errors : List Str → List Str
each_access_type_errors [] = []
each_access_type_errors (at ∷ ats) =
    error_if (not (is_access_type at)) (invalid_access_type at) ++ each_access_type_errors ats

unfoldable pub access_type_errors : List Str → List Str
unfolding each_access_type_errors
access_type_errors [] = bytes "access_type is required (select at least one: run, edit)" ∷ []
access_type_errors (at ∷ ats) = each_access_type_errors (at ∷ ats)

abbrev is_none : Option ℕ → Bool
is_none none = true
is_none (some _) = false

-- The checks of the duration, made if neither instant is the zero time.
unfoldable pub period_errors : ℕ → ℕ → ℕ → List Str
period_errors max_duration start end_time =
    if eqb start zero_time || eqb end_time zero_time
    then []
    else error_if (not (ltb start end_time)) (bytes "period_end must be after period_start")
      ++ error_if (ltb max_duration (duration_between start end_time)) (
          bytes "request duration exceeds maximum allowed ("
          ++ (decimal (max_duration / (24 * (60 * minute))) ++ bytes " days)"))

unfoldable pub description_errors : Str → List Str
description_errors description =
    if trim_space description == []
    then bytes "description is required" ∷ []
    else error_if (ltb (length (trim_space description)) 10)
        (bytes "description must be at least 10 characters")

unfoldable pub validate_create_request : ParseTime → ℕ → CreateTicketRequest → List Str
unfolding workflow_id_errors access_type_errors period_errors description_errors is_access_type
validate_create_request parse_time max_duration req =
    workflow_id_errors req.workflow_id
    ++ (access_type_errors req.access_type
        ++ (error_if (is_none (parse_time req.period_start))
              (bytes "period_start must be a valid RFC3339 timestamp")
            ++ (error_if (is_none (parse_time req.period_end)) no_end
                ++ (period_errors max_duration (or_zero (parse_time req.period_start))
                      (or_zero (parse_time req.period_end))
                    ++ description_errors req.description))))

-- The order of Go's strings.
unfoldable pub str_le : Str → Str → Bool
str_le [] t = true
str_le (c ∷ s) [] = false
str_le (c ∷ s) (d ∷ t) = ltb c d || (eqb c d && str_le s t)

insert_sorted : Str → List Str → List Str
insert_sorted s [] = s ∷ []
insert_sorted s (t ∷ ts) = if str_le s t then s ∷ t ∷ ts else t ∷ insert_sorted s ts

-- sort.Strings
unfoldable pub sort_strings : List Str → List Str
unfolding insert_sorted str_le
sort_strings [] = []
sort_strings (s ∷ ss) = insert_sorted s (sort_strings ss)

unfoldable pub access_type_text : List Str → Str
unfolding sort_strings
access_type_text ats = join (bytes ",") (sort_strings ats)
