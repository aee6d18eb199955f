-- ===== src/Worker.antt =====
-- pkg/worker/pool.go: a queue of jobs, the workers that take from it, and the retries of a job. The
-- task of a job is an action on a state `W` that the pool knows nothing of.
pub mod Retries
pub mod Pool
use cdn.Common.{ℕ, zero, suc, Option, none, some}
use cdn.Storage.{Error, M, ◌>>=◌, pure}

-- Go's int, of which MaxRetries is one.
pub data ℤ : Type 0 where
  pos negsuc : ℕ → ℤ

-- How often the loop of runJob can begin a round: while retries <= maxRetries, from zero on.
unfoldable pub rounds : ℤ → ℕ
rounds (pos n) = suc n
rounds (negsuc n) = 0

-- Another round, unless the task gave no error.
abbrev pub unless_done : {W : Type 0} → Option Error → M W (Option Error) → M W (Option Error)
unless_done none rest = pure none
unless_done (some e) rest = rest

module _ {W : Type 0} (task : M W (Option Error)) where
  -- The loop of runJob, less its log, its metrics and its pauses. `last` is the variable `err`.
  unfoldable pub attempt : ℕ → Option Error → M W (Option Error)
  attempt zero last = pure last
  attempt (suc n) last = do e ← task; unless_done e (attempt n e)

  -- What runJob sends as the job's response.
  unfoldable pub run_job : ℤ → M W (Option Error)
  run_job max_retries = attempt (rounds max_retries) none
