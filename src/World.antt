-- ===== src/World.antt =====
-- What is outside the process and answers its requests: n8n and the clock. Each call may change the
-- outside, which is passed on explicitly, so that calls have an order.
use knox_proxy.Base.{List, ℕ, Str, Option}
use knox_proxy.Http.{Request, Response}

-- The answer to POST /rest/login: its status, and the cookies that it sets.
pub record LoginResponse : Type 0 where
  pub status : ℕ
  pub cookies : List (Str × Str)

pub record World : Type 1 where
  pub State : Type 0
  -- time.Now()
  pub now : State → ℕ
  -- the request of loginToN8N with an email and a password; none is an error of the transport
  pub login : Str → Str → State → Option LoginResponse × State
  -- what ReverseProxy sends to the backend; none is an error of the transport
  pub send : Request → State → Option Response × State
