-- ===== src/Jit/Ticket/Transitions.antt =====
-- The life of a ticket (ValidTransitions of knox-proxy/jit/models.go).
use knox_proxy.Base.{◌≤◌, arith, ◌<◌, ◌≡◌, ℕ, true}
use knox_proxy.Jit.Ticket.{
  canceled, revoked, rejected, expired, active, approved, requested, is_valid_transition, Status,
}

-- How far a ticket has come.
stage : Status → ℕ
stage requested = 0
stage approved = 1
stage active = 2
stage _ = 3

later_stage : (from to : Status) → is_valid_transition from to ≡ true → stage from < stage to
unfolding is_valid_transition stage
later_stage requested approved h = omega arith
later_stage requested rejected h = omega arith
later_stage requested canceled h = omega arith
later_stage approved active h = omega arith
later_stage approved revoked h = omega arith
later_stage active revoked h = omega arith
later_stage active expired h = omega arith
later_stage _ _ h = absurd (cc h)

-- Statuses reached by valid transitions.
pub data Becomes : Status → Status → Type 0 where
  stays : {s : Status} → Becomes s s
  moves : {s t u : Status} → is_valid_transition s t ≡ true → Becomes t u → Becomes s u

not_earlier : {s t : Status} → Becomes s t → stage s ≤ stage t
not_earlier stays = omega arith
not_earlier {s} (moves {t = t} h b) =
    let l = later_stage s t h in let r = not_earlier b in omega arith

-- By valid transitions, a status that a ticket has left is never reached again.
pub no_return : (s t : Status) → is_valid_transition s t ≡ true → ¬ Becomes t s
no_return s t h b = let l = later_stage s t h in let r = not_earlier b in omega arith
