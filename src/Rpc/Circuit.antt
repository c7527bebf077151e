-- ===== src/Rpc/Circuit.antt =====
-- `CircuitBreaker` of crates/rpc/src/middleware.rs. The lock makes each method one step; the time is
-- an argument, and `elapsed` stops at 0.
use pranklin.Base.{ℕ, ◌+◌, ◌-◌, ◌%◌, Bool, true, false, Option, none, some, leb, if◌then◌else◌}
use pranklin.Base.Words.{u32_mod}

pub data CircuitState : Type 0 where
  closed opened half_open : CircuitState

pub record CircuitBreaker : Type 0 where
  pub state : CircuitState
  pub failure_count : ℕ
  pub success_count : ℕ
  pub last_failure_time : Option ℕ
  pub failure_threshold : ℕ
  pub success_threshold : ℕ
  pub timeout : ℕ

-- `CircuitBreaker::new`
unfoldable pub circuit_breaker : ℕ → ℕ → ℕ → CircuitBreaker
circuit_breaker failure_threshold success_threshold timeout = record {
  state = closed;
  failure_count = 0;
  success_count = 0;
  last_failure_time = none;
  failure_threshold = failure_threshold;
  success_threshold = success_threshold;
  timeout = timeout;
}

abbrev pub has_elapsed : Option ℕ → ℕ → ℕ → Bool
has_elapsed none timeout now = false
has_elapsed (some last) timeout now = leb timeout (now - last)

unfoldable pub allow_request : ℕ → CircuitBreaker → Bool × CircuitBreaker
allow_request now b = elim b.state [
  | closed ↦ (true, b)
  | half_open ↦ (true, b)
  | opened ↦
      if has_elapsed b.last_failure_time b.timeout now
      then (true, record b { state = half_open; success_count = 0 })
      else (false, b)
]

abbrev pub incremented : ℕ → ℕ
incremented n = (n + 1) % u32_mod

unfoldable pub record_success : CircuitBreaker → CircuitBreaker
record_success b = elim b.state [
  | closed ↦ record b { failure_count = 0 }
  | half_open ↦
      if leb b.success_threshold (incremented b.success_count)
      then record b { state = closed; failure_count = 0; success_count = 0 }
      else record b { success_count = incremented b.success_count }
  | opened ↦ b
]

unfoldable pub record_failure : ℕ → CircuitBreaker → CircuitBreaker
record_failure now b = elim b.state [
  | closed ↦
      if leb b.failure_threshold (incremented b.failure_count)
      then record b {
        state = opened;
        failure_count = incremented b.failure_count;
        last_failure_time = some now;
      }
      else record b { failure_count = incremented b.failure_count }
  | half_open ↦ record b {
    state = opened;
    failure_count = 0;
    success_count = 0;
    last_failure_time = some now;
  }
  | opened ↦ b
]

-- One call of a method, by whatever request makes it.
pub data Step : CircuitBreaker → CircuitBreaker → Type 0 where
  asks : (now : ℕ) (b : CircuitBreaker) → Step b (allow_request now b).1
  succeeds : (b : CircuitBreaker) → Step b (record_success b)
  fails : (now : ℕ) (b : CircuitBreaker) → Step b (record_failure now b)

-- What calls lead to from a new breaker.
pub data Reachable (start : CircuitBreaker) : CircuitBreaker → Type 0 where
  begin : Reachable start start
  next : {b c : CircuitBreaker} → Reachable start b → Step b c → Reachable start c
