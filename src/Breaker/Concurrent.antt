-- ===== src/Breaker/Concurrent.antt =====
-- The breaker under any number of concurrent requests: their steps interleave in any order.
use cdn.Common.{ℕ, ◌+◌, ◌-◌, ◌≤◌, ◌<◌, ◌≡◌, ◌⊎◌, Bool, Option, none, some, arith, refl}
use cdn.Breaker.{
  closed, opened, half_open, Refusal, CircuitBreaker, new_breaker, before_execute, after_execute,
  handle_result,
}

-- The breaker, the requests that are between beforeExecute and handleResult, and those that are
-- between handleResult and afterExecute.
pub record System : Type 0 where
  pub breaker : CircuitBreaker
  pub running : ℕ
  pub handled : ℕ

abbrev pub entered : System → Option Refusal × CircuitBreaker → System
entered s (none, cb) = record s { breaker = cb; running = s.running + 1 }
entered s (some e, cb) = record s { breaker = cb }

-- A request asks to enter, a function returns, a request leaves, or a function panics: then the
-- deferred afterExecute runs without handleResult.
pub data Step (s : System) : System → Type 0 where
  enter : (now : ℕ) → Step s (entered s (before_execute now s.breaker))
  return :
      (now : ℕ) (failed : Bool)
      → 0 < s.running
      → Step s (record {
        breaker = handle_result now failed s.breaker;
        running = s.running - 1;
        handled = s.handled + 1;
      })
  leave :
      0 < s.handled
      → Step s (record s { breaker = after_execute s.breaker; handled = s.handled - 1 })
  panic :
      0 < s.running
      → Step s (record s { breaker = after_execute s.breaker; running = s.running - 1 })

pub data Reach (s : System) : System → Type 0 where
  here : Reach s s
  next : {t u : System} → Reach s t → Step t u → Reach s u

-- What holds of the struct.
pub record IsValid (s : System) : Type 0 where
  pub accounted : s.breaker.active ≡ s.running + s.handled
  pub within : s.breaker.active ≤ s.breaker.max_concurrent
  pub few_failures :
      0 < s.breaker.failure_threshold
      → (s.breaker.state ≡ closed) × (s.breaker.failure_count < s.breaker.failure_threshold)
        ⊎ (s.breaker.failure_count ≡ 0)
  pub few_successes :
      0 < s.breaker.success_threshold
      → (s.breaker.state ≡ half_open) × (s.breaker.success_count < s.breaker.success_threshold)
        ⊎ (s.breaker.success_count ≡ 0)

Step-IsValid : {s t : System} → Step s t → IsValid s → IsValid t
unfolding before_execute after_execute handle_result
Step-IsValid {s} (enter now) h = ground arith
Step-IsValid {s} (return now failed r) h = ground arith
Step-IsValid {s} (leave r) h = ground arith
Step-IsValid {s} (panic r) h = ground arith

Reach-IsValid : {s t : System} → IsValid s → Reach s t → IsValid t
Reach-IsValid h here = h
Reach-IsValid h (next r st) = Step-IsValid st (Reach-IsValid h r)

abbrev pub start : ℕ → ℕ → ℕ → ℕ → ℕ → System
start failures successes timeout limit now = record {
  breaker = new_breaker failures successes timeout limit now;
  running = 0;
  handled = 0;
}

-- However requests interleave, and whether their functions return or panic, a new breaker counts exactly the requests that are inside, never
-- more than its limit, and keeps its failures and successes below the thresholds, where these are
-- positive; outside the state that counts them they are 0.
pub reach_IsValid :
    (failures successes timeout limit now : ℕ) {t : System}
    → Reach (start failures successes timeout limit now) t
    → IsValid t
unfolding new_breaker
reach_IsValid failures successes timeout limit now r = Reach-IsValid (ground arith) r

-- Every request asked to enter before the deadline.
abbrev pub EntersBefore : ℕ → {s t : System} → Step s t → Type 0
EntersBefore deadline (enter now) = now < deadline
EntersBefore deadline (return now failed r) = Unit
EntersBefore deadline (leave r) = Unit
EntersBefore deadline (panic r) = Unit

abbrev pub AllBefore : ℕ → {s t : System} → Reach s t → Type 0
AllBefore deadline here = Unit
AllBefore deadline (next r st) = AllBefore deadline r × EntersBefore deadline st

-- The breaker is open until the deadline, and at most `n` requests run.
record IsBlocked (deadline n : ℕ) (s : System) : Type 0 where
  open_now : s.breaker.state ≡ opened
  until : s.breaker.last_state_change + s.breaker.timeout ≡ deadline
  few : s.running ≤ n

Step-IsBlocked :
    (deadline n : ℕ) {s t : System} (st : Step s t)
    → EntersBefore deadline st
    → IsBlocked deadline n s
    → IsBlocked deadline n t
unfolding before_execute after_execute handle_result
Step-IsBlocked deadline n (enter now) b h = ground arith
Step-IsBlocked deadline n (return now failed r) b h = ground arith
Step-IsBlocked deadline n (leave r) b h = ground arith
Step-IsBlocked deadline n (panic r) b h = ground arith

Reach-IsBlocked :
    (deadline n : ℕ) {s t : System} (r : Reach s t)
    → AllBefore deadline r
    → IsBlocked deadline n s
    → IsBlocked deadline n t
Reach-IsBlocked deadline n here b h = h
Reach-IsBlocked deadline n (next r st) (bs, b) h =
    Step-IsBlocked deadline n st b (Reach-IsBlocked deadline n r bs h)

-- From an open breaker, as long as every request that asks to enter does so before its timeout has
-- passed, the breaker stays open and no request gets in, whether the requests inside return, fail or panic.
pub open_blocks :
    {s t : System} (r : Reach s t)
    → s.breaker.state ≡ opened
    → AllBefore (s.breaker.last_state_change + s.breaker.timeout) r
    → (t.breaker.state ≡ opened) × (t.running ≤ s.running)
open_blocks {s} r o b =
    let h =
      Reach-IsBlocked (s.breaker.last_state_change + s.breaker.timeout) s.running r b
        (record { open_now = o; until = refl; few = omega arith }) in
    (h.open_now, h.few)
