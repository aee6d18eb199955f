-- ===== src/Breaker.antt =====
-- pkg/circuitbreaker/circuit_breaker.go. Each method holds the mutex from its first line to its
-- last, so it is one step on the struct; the times that it reads are arguments, in nanoseconds. The
-- counts and limits are ints that the program keeps at 0 or above. Logs and metrics are left out.
pub mod Concurrent
pub mod Trips
use cdn.Common.{ℕ, ◌+◌, ◌-◌, Bool, Option, none, some, leb, if◌then◌else◌}

pub data State : Type 0 where
  closed opened half_open : State

pub data Refusal : Type 0 where
  circuit_open too_many_requests : Refusal

pub record CircuitBreaker : Type 0 where
  pub state : State
  pub failure_threshold : ℕ
  pub success_threshold : ℕ
  pub timeout : ℕ
  pub failure_count : ℕ
  pub success_count : ℕ
  pub last_state_change : ℕ
  pub max_concurrent : ℕ
  pub active : ℕ

-- NewCircuitBreaker
unfoldable pub new_breaker : ℕ → ℕ → ℕ → ℕ → ℕ → CircuitBreaker
new_breaker failure_threshold success_threshold timeout max_concurrent now = record {
  state = closed;
  failure_threshold = failure_threshold;
  success_threshold = success_threshold;
  timeout = timeout;
  failure_count = 0;
  success_count = 0;
  last_state_change = now;
  max_concurrent = max_concurrent;
  active = 0;
}

unfoldable pub set_state : ℕ → State → CircuitBreaker → CircuitBreaker
set_state now state cb = record cb {
  state = state;
  last_state_change = now;
  failure_count = 0;
  success_count = 0;
}

-- The last test of beforeExecute, and the admission.
unfoldable pub admit : CircuitBreaker → Option Refusal × CircuitBreaker
admit cb =
    if leb cb.max_concurrent cb.active
    then (some too_many_requests, cb)
    else (none, record cb { active = cb.active + 1 })

-- beforeExecute by the state. `now.Sub(last) >= timeout` has no subtraction here.
unfoldable pub before_in : State → ℕ → CircuitBreaker → Option Refusal × CircuitBreaker
unfolding admit set_state
before_in closed now cb = admit cb
before_in opened now cb =
    if leb (cb.last_state_change + cb.timeout) now
    then admit (set_state now half_open cb)
    else (some circuit_open, cb)
before_in half_open now cb =
    if leb cb.max_concurrent cb.active then (some too_many_requests, cb) else admit cb

unfoldable pub before_execute : ℕ → CircuitBreaker → Option Refusal × CircuitBreaker
unfolding before_in
before_execute now cb = before_in cb.state now cb

-- An admitted request is counted in `active`, so the truncated `-` is exact.
unfoldable pub after_execute : CircuitBreaker → CircuitBreaker
after_execute cb = record cb { active = cb.active - 1 }

unfoldable pub success_in : State → ℕ → CircuitBreaker → CircuitBreaker
unfolding set_state
success_in closed now cb = record cb { failure_count = 0 }
success_in half_open now cb =
    if leb cb.success_threshold (cb.success_count + 1)
    then set_state now closed cb
    else record cb { success_count = cb.success_count + 1 }
success_in opened now cb = cb

unfoldable pub failure_in : State → ℕ → CircuitBreaker → CircuitBreaker
unfolding set_state
failure_in closed now cb =
    if leb cb.failure_threshold (cb.failure_count + 1)
    then set_state now opened cb
    else record cb { failure_count = cb.failure_count + 1 }
failure_in half_open now cb = set_state now opened cb
failure_in opened now cb = cb

unfoldable pub on_success : ℕ → CircuitBreaker → CircuitBreaker
unfolding success_in
on_success now cb = success_in cb.state now cb

unfoldable pub on_failure : ℕ → CircuitBreaker → CircuitBreaker
unfolding failure_in
on_failure now cb = failure_in cb.state now cb

-- `failed` is err != nil.
unfoldable pub handle_result : ℕ → Bool → CircuitBreaker → CircuitBreaker
unfolding on_success on_failure
handle_result now failed cb = if failed then on_failure now cb else on_success now cb

abbrev finish : ℕ → Bool → Option Refusal × CircuitBreaker → Option Refusal × CircuitBreaker
finish now failed (some e, cb) = (some e, cb)
finish now failed (none, cb) = (none, after_execute (handle_result now failed cb))

-- Execute of a function that ends at `ended`, on its own.
unfoldable pub execute : ℕ → ℕ → Bool → CircuitBreaker → Option Refusal × CircuitBreaker
unfolding before_execute after_execute handle_result
execute started ended failed cb = finish ended failed (before_execute started cb)
