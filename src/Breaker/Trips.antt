-- ===== src/Breaker/Trips.antt =====
-- The breaker under requests that run one after the other.
use cdn.Common.{
  if◌then◌else◌, ltb, Bool-cases, inl, inr, ℕ, ◌+◌, ◌≤◌, ◌<◌, ◌≡◌, refl, Bool, true, false, List,
  ◌∷◌, arith, length, All, [], ap, ◌∙◌,
}
use cdn.Breaker.{closed, opened, half_open, CircuitBreaker, execute}

-- When a request starts and ends, and whether it fails.
pub record Run : Type 0 where
  pub started : ℕ
  pub ended : ℕ
  pub failed : Bool

pub execute_all : List Run → CircuitBreaker → CircuitBreaker
execute_all [] cb = cb
execute_all (r ∷ rs) cb = execute_all rs (execute r.started r.ended r.failed cb).1

-- The counting states, with room for a request.
abbrev Counting : CircuitBreaker → Type 0
Counting cb = (cb.state ≡ closed) × (cb.active < cb.max_concurrent)

abbrev Probing : CircuitBreaker → Type 0
Probing cb = (cb.state ≡ half_open) × (cb.active < cb.max_concurrent)

fail_once :
    (r : Run) (cb : CircuitBreaker)
    → Counting cb
    → r.failed ≡ true
    → let cb' = (execute r.started r.ended r.failed cb).1 in
      (cb.failure_count + 1 < cb.failure_threshold
        → Counting cb'
          × (cb'.failure_count ≡ cb.failure_count + 1)
          × (cb'.failure_threshold ≡ cb.failure_threshold))
      × (cb.failure_threshold ≤ cb.failure_count + 1 → cb'.state ≡ opened)
unfolding execute
fail_once r cb h f = ground arith

-- Failures that do not make the threshold leave the breaker closed, with room.
failures_below :
    (rs : List Run) (cb : CircuitBreaker)
    → Counting cb
    → All (λ r. r.failed ≡ true) rs
    → cb.failure_count + length rs < cb.failure_threshold
    → (execute_all rs cb).state ≡ closed
unfolding execute_all
failures_below [] cb h fs n = h.0
failures_below (r ∷ rs) cb h (f, fs) n =
    let cb' = (execute r.started r.ended r.failed cb).1 in
    let (counting, count, threshold) = (fail_once r cb h f).0 (omega arith) in
    failures_below rs cb' counting fs (omega arith)

failures_at :
    (rs : List Run) (cb : CircuitBreaker)
    → Counting cb
    → All (λ r. r.failed ≡ true) rs
    → 0 < length rs
    → cb.failure_count + length rs ≡ cb.failure_threshold
    → (execute_all rs cb).state ≡ opened
unfolding execute_all
failures_at [] cb h fs some_run n = absurd (omega arith)
failures_at (r ∷ []) cb h (f, _) some_run n = (fail_once r cb h f).1 (omega arith)
failures_at (r ∷ q ∷ rs) cb h (f, fs) some_run n =
    let cb' = (execute r.started r.ended r.failed cb).1 in
    let (counting, count, threshold) = (fail_once r cb h f).0 (omega arith) in
    failures_at (q ∷ rs) cb' counting fs (omega arith) (omega arith)

-- A closed breaker with room, after a run of failures that with those counted before makes at most
-- its threshold, is open if they make exactly the threshold, and still closed if they are fewer.
pub trips :
    (rs : List Run) (cb : CircuitBreaker)
    → cb.state ≡ closed
    → cb.active < cb.max_concurrent
    → All (λ r. r.failed ≡ true) rs
    → 0 < length rs
    → cb.failure_count + length rs ≤ cb.failure_threshold
    → (execute_all rs cb).state
      ≡ (if ltb (cb.failure_count + length rs) cb.failure_threshold then closed else opened)
trips rs cb c room fs some_run n =
    elim (Bool-cases (ltb (cb.failure_count + length rs) cb.failure_threshold)) [
      | inl y ↦ rw y (failures_below rs cb (c, room) fs (ground arith))
      | inr n' ↦ rw n' (failures_at rs cb (c, room) fs some_run (ground arith))
    ]

succeed_once :
    (r : Run) (cb : CircuitBreaker)
    → Probing cb
    → r.failed ≡ false
    → let cb' = (execute r.started r.ended r.failed cb).1 in
      (cb.success_count + 1 < cb.success_threshold
        → Probing cb'
          × (cb'.success_count ≡ cb.success_count + 1)
          × (cb'.success_threshold ≡ cb.success_threshold))
      × (cb.success_threshold ≤ cb.success_count + 1 → cb'.state ≡ closed)
unfolding execute
succeed_once r cb h f = ground arith

successes_below :
    (rs : List Run) (cb : CircuitBreaker)
    → Probing cb
    → All (λ r. r.failed ≡ false) rs
    → cb.success_count + length rs < cb.success_threshold
    → (execute_all rs cb).state ≡ half_open
unfolding execute_all
successes_below [] cb h fs n = h.0
successes_below (r ∷ rs) cb h (f, fs) n =
    let cb' = (execute r.started r.ended r.failed cb).1 in
    let (probes, count, threshold) = (succeed_once r cb h f).0 (omega arith) in
    successes_below rs cb' probes fs (omega arith)

successes_at :
    (rs : List Run) (cb : CircuitBreaker)
    → Probing cb
    → All (λ r. r.failed ≡ false) rs
    → 0 < length rs
    → cb.success_count + length rs ≡ cb.success_threshold
    → (execute_all rs cb).state ≡ closed
unfolding execute_all
successes_at [] cb h fs some_run n = absurd (omega arith)
successes_at (r ∷ []) cb h (f, _) some_run n = (succeed_once r cb h f).1 (omega arith)
successes_at (r ∷ q ∷ rs) cb h (f, fs) some_run n =
    let cb' = (execute r.started r.ended r.failed cb).1 in
    let (probes, count, threshold) = (succeed_once r cb h f).0 (omega arith) in
    successes_at (q ∷ rs) cb' probes fs (omega arith) (omega arith)

recovers-Probing :
    (rs : List Run) (cb : CircuitBreaker)
    → Probing cb
    → All (λ r. r.failed ≡ false) rs
    → 0 < length rs
    → cb.success_count + length rs ≤ cb.success_threshold
    → (execute_all rs cb).state
      ≡ (if ltb (cb.success_count + length rs) cb.success_threshold then half_open else closed)
recovers-Probing rs cb h fs some_run n =
    elim (Bool-cases (ltb (cb.success_count + length rs) cb.success_threshold)) [
      | inl y ↦ rw y (successes_below rs cb h fs (ground arith))
      | inr n' ↦ rw n' (successes_at rs cb h fs some_run (ground arith))
    ]

-- The breaker that an open one is when it has let its first request after the timeout in.
abbrev probing : Run → CircuitBreaker → CircuitBreaker
probing r cb = record cb {
  state = half_open;
  last_state_change = r.started;
  failure_count = 0;
  success_count = 0;
}

-- The open breaker runs that request as the half-open one would.
reopen :
    (r : Run) (cb : CircuitBreaker)
    → cb.state ≡ opened
    → cb.last_state_change + cb.timeout ≤ r.started
    → (execute r.started r.ended r.failed cb).1
      ≡ (execute r.started r.ended r.failed (probing r cb)).1
unfolding execute
reopen r cb o late = ground arith

-- An open breaker with room, after a run of successes of which the first starts when the timeout has
-- passed and which are at most its threshold, is closed if they are exactly as many as the
-- threshold, and half-open if they are fewer.
pub recovers :
    (r : Run) (rs : List Run) (cb : CircuitBreaker)
    → cb.state ≡ opened
    → cb.active < cb.max_concurrent
    → cb.last_state_change + cb.timeout ≤ r.started
    → All (λ q. q.failed ≡ false) (r ∷ rs)
    → length (r ∷ rs) ≤ cb.success_threshold
    → (execute_all (r ∷ rs) cb).state
      ≡ (if ltb (length (r ∷ rs)) cb.success_threshold then half_open else closed)
unfolding execute_all
recovers r rs cb o room late fs n =
    let from_none : 0 + length (r ∷ rs) ≡ length (r ∷ rs) = omega arith in
    ap (λ (c : CircuitBreaker). (execute_all rs c).state) (reopen r cb o late)
    ∙ recovers-Probing (r ∷ rs) (probing r cb) (refl, room) fs (omega arith) (omega arith)
    ∙ ap (λ m. if ltb m cb.success_threshold then half_open else closed) from_none
