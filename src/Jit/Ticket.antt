-- ===== src/Jit/Ticket.antt =====
-- knox-proxy/jit/models.go. A status is the constructor that its text names, or another text.
-- Instants are nanoseconds from a point before all that RFC 3339 can write.
pub mod Transitions
use knox_proxy.Base.{
  ◌++◌, ◌%◌, ◌^◌, ltb, ◌*◌, ◌-◌, ◌==◌, ◌/◌, min, Bool, bytes, if◌then◌else◌, false, true, none,
  some, inr, inl, refl, ◌∷◌, [], ℕ, Str,
}
use knox_proxy.Jit.Numbers.{decimal}

pub data Status : Type 0 where
  requested approved active expired rejected revoked canceled : Status
  other : Str → Status

unfoldable pub status_of : Str → Status
status_of s =
    if s == bytes "requested"
    then requested
    else if s == bytes "approved"
    then approved
    else if s == bytes "active"
    then active
    else if s == bytes "expired"
    then expired
    else if s == bytes "rejected"
    then rejected
    else if s == bytes "revoked"
    then revoked
    else if s == bytes "canceled"
    then canceled
    else other s

unfoldable pub status_text : Status → Str
status_text requested = bytes "requested"
status_text approved = bytes "approved"
status_text active = bytes "active"
status_text expired = bytes "expired"
status_text rejected = bytes "rejected"
status_text revoked = bytes "revoked"
status_text canceled = bytes "canceled"
status_text (other s) = s

-- IsValidTransition, with the table ValidTransitions
unfoldable pub is_valid_transition : Status → Status → Bool
is_valid_transition requested approved = true
is_valid_transition requested rejected = true
is_valid_transition requested canceled = true
is_valid_transition approved active = true
is_valid_transition approved revoked = true
is_valid_transition active revoked = true
is_valid_transition active expired = true
is_valid_transition _ _ = false

pub record Ticket : Type 0 where
  pub id : Str
  pub ticket_number : Str
  pub email : Str
  pub display_name : Str
  pub team : Str
  pub workflow_id : Str
  pub access_type : Str
  pub description : Str
  pub period_start : ℕ
  pub period_end : ℕ
  pub status : Status
  pub status_reason : Str
  pub updated_by : Str
  pub created_at : ℕ
  pub updated_at : ℕ

abbrev pub minute : ℕ
minute = 60_000_000_000

-- end.Sub(start), which stops at the largest Duration; a negative one is 0 here.
unfoldable pub duration_between : ℕ → ℕ → ℕ
duration_between start end_time = min (end_time - start) (2 ^ 63 - 1)

-- The text of a Duration. The hours are taken in whole numbers, as Go's float64 does for durations
-- of whole seconds.
unfoldable pub duration_text : ℕ → Str
duration_text d =
    let days = d / (60 * minute) / 24 in
    let hours = d / (60 * minute) % 24 in
    let minutes = d / minute % 60 in
    if ltb 0 days
    then decimal days
      ++ (bytes "d " ++ (decimal hours ++ (bytes "h " ++ (decimal minutes ++ bytes "m"))))
    else if ltb 0 hours
    then decimal hours ++ (bytes "h " ++ (decimal minutes ++ bytes "m"))
    else decimal minutes ++ bytes "m"

unfoldable pub duration : Ticket → Str
unfolding duration_text duration_between
duration t =
    if ltb t.period_end t.period_start
    then bytes "0m"
    else duration_text (duration_between t.period_start t.period_end)
