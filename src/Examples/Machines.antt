-- ===== src/Examples/Machines.antt =====
-- The circuit breaker, the worker pool and the batch processor.
use cdn.Common.{
  ℕ, zero, suc, ◌≤◌, ◌≡◌, refl, ◌⊎◌, Bool, true, false, Option, none, some, List, ◌∷◌, ◌++◌, arith,
  All, [],
}
use cdn.Breaker as Breaker
use cdn.Breaker.{opened, CircuitBreaker, new_breaker, before_execute}
use cdn.Breaker.Trips.{Run, execute_all, trips, recovers}
use cdn.Breaker.Concurrent as Concurrent
use cdn.Breaker.Concurrent.{reach_IsValid, open_blocks}
use cdn.Worker.{run_job, pos}
use cdn.Worker.Retries.{run_job_ends, Succeeds, GivesUp}
use cdn.Worker.Pool as Pool
use cdn.Batch.{BatchItem, Event, item, closed, timer, process_batches}
use cdn.Batch.Collect.{note, concat, pending, arrived, IsSized, process_batches_collects}
use cdn.Storage.{Error, message}
use cdn.Text.{Text, codes}

abbrev fresh : CircuitBreaker
fresh = record {
  state = Breaker.closed;
  failure_threshold = 2;
  success_threshold = 2;
  timeout = 10;
  failure_count = 0;
  success_count = 0;
  last_state_change = 0;
  max_concurrent = 3;
  active = 0;
}

abbrev tripped : CircuitBreaker
tripped = record fresh { state = opened; last_state_change = 5 }

abbrev failing : Run
failing = record { started = 1; ended = 2; failed = true }

abbrev passing : Run
passing = record { started = 15; ended = 16; failed = false }

trips_example : (execute_all (failing ∷ failing ∷ []) fresh).state ≡ opened
trips_example =
    trips (failing ∷ failing ∷ []) fresh refl (omega arith) (refl, (refl, tt)) (omega arith)
      (omega arith)

recovers_example : (execute_all (passing ∷ passing ∷ []) tripped).state ≡ Breaker.closed
recovers_example =
    recovers passing (passing ∷ []) tripped refl (omega arith) (omega arith) (refl, (refl, tt))
      (omega arith)

-- Two requests enter a new breaker and one of them fails.
abbrev entered_once :
    Concurrent.Reach
      (Concurrent.start 2 2 10 3 0)
      (Concurrent.entered (Concurrent.start 2 2 10 3 0) (before_execute 1 (new_breaker 2 2 10 3 0)))
entered_once = Concurrent.Reach.next Concurrent.Reach.here (Concurrent.Step.enter 1)

reach_IsValid_example :
    Concurrent.IsValid
      (Concurrent.entered (Concurrent.start 2 2 10 3 0) (before_execute 1 (new_breaker 2 2 10 3 0)))
reach_IsValid_example = reach_IsValid 2 2 10 3 0 entered_once

abbrev blocked : Concurrent.System
blocked = record { breaker = tripped; running = 1; handled = 0 }

abbrev knock : Concurrent.Reach blocked (Concurrent.entered blocked (before_execute 7 tripped))
knock = Concurrent.Reach.next Concurrent.Reach.here (Concurrent.Step.enter 7)

open_blocks_example :
    let t = Concurrent.entered blocked (before_execute 7 tripped) in
    (t.breaker.state ≡ opened) × (t.running ≤ 1)
open_blocks_example = open_blocks knock refl (tt, omega arith)

-- A task that fails as long as its state is not 0, and counts it down.
abbrev flaky : ℕ → Option Error × ℕ
flaky zero = (none, zero)
flaky (suc n) = (some (message (codes "busy")), n)

run_job_ends_example :
    Succeeds flaky 3 (run_job flaky (pos 3) 2) 2 ⊎ GivesUp flaky 3 (run_job flaky (pos 3) 2) 2
run_job_ends_example = run_job_ends flaky 3 2

abbrev queued : Pool.System
queued = record (Pool.start 1 2) { submitting = []; queue = 7 ∷ []; accepted = 7 ∷ [] }

-- One job is submitted and queued.
abbrev one_queued : Pool.Reach (Pool.start 1 2) queued
one_queued =
    Pool.Reach.next (Pool.Reach.next Pool.Reach.here (Pool.Step.submit 7 refl))
      (Pool.Step.send 7 [] [] refl (omega arith))

abbrev left : Pool.System
left = record queued { workers = 0; stopped = true }

abbrev named : Text → Bool → BatchItem Unit
named id success = record { id = id; data_of = tt; error = none; success = success }

abbrev events : List (Event Unit)
events =
    item (named (codes "a") false)
    ∷ timer
    ∷ item (named (codes "b") false)
    ∷ item (named (codes "c") false)
    ∷ closed
    ∷ []

process_batches_collects_example :
    let (end, batches) = process_batches note 2 events [] [] in
    (concat batches ++ pending end ≡ arrived events) × All (IsSized 2) batches
process_batches_collects_example = process_batches_collects 2 events (omega arith)

-- A processor that never succeeds.
abbrev hopeless : List (BatchItem Unit) → List (List (BatchItem Unit)) → List (BatchItem Unit)
hopeless items calls = items
