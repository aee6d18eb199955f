-- ===== src/Worker/Retries.antt =====
-- How often a job's task is run, and what is reported of it.
use cdn.Common.{ℕ, zero, suc, ◌≤◌, ◌≡◌, refl, ◌≢◌, ◌⊎◌, Option, none, some, inl, inr, arith}
use cdn.Storage.{Error, M}
use cdn.Worker.{unless_done, attempt, run_job, rounds, pos}

module _ {W : Type 0} (task : M W (Option Error)) where
  -- The state that so many attempts leave, made one after the other.
  abbrev after : ℕ → W → W
  after zero w = w
  after (suc k) w = after k (task w).1

  -- The error of an attempt, counted from zero.
  abbrev error_of : ℕ → W → Option Error
  error_of k w = (task (after k w)).0

  -- So many attempts fail.
  abbrev AllFail : ℕ → W → Type 0
  AllFail zero w = Unit
  AllFail (suc k) w = ((task w).0 ≢ none) × AllFail k (task w).1

  -- The first success ends the job.
  abbrev pub Succeeds : ℕ → Option Error × W → W → Type 0
  Succeeds n end w =
      (k : ℕ) × (k ≤ n) × AllFail k w × (error_of k w ≡ none) × (end ≡ (none, after (suc k) w))

  -- Without one, the job ends with the error of its last attempt.
  abbrev pub GivesUp : ℕ → Option Error × W → W → Type 0
  GivesUp n end w = AllFail (suc n) w × (end ≡ (error_of n w, after (suc n) w))

  Ends : ℕ → Option Error × W → W → Type 0
  Ends n end w = Succeeds n end w ⊎ GivesUp n end w

  later :
      (n : ℕ) (end : Option Error × W) (w : W)
      → (task w).0 ≢ none
      → Ends n end (task w).1
      → Ends (suc n) end w
  unfolding Ends
  later n end w failed (inl (k, le, fails, e, same)) =
      inl (suc k, omega (arith, le), (failed, fails), e, same)
  later n end w failed (inr (fails, same)) = inr ((failed, fails), same)

  first :
      (n : ℕ) (e : Option Error) (w : W)
      → (task w).0 ≡ e
      → ((f : Error) → e ≡ some f → Ends n (attempt task n e (task w).1) w)
      → Ends n (unless_done e (attempt task n e) (task w).1) w
  unfolding Ends
  first n none w same rest = inl (0, omega arith, tt, same, refl)
  first n (some e) w same rest = rest e refl

  attempt_ends : (n : ℕ) (last : Option Error) (w : W) → Ends n (attempt task (suc n) last w) w
  unfolding attempt Ends
  attempt_ends zero last w = first zero (task w).0 w refl (λ f e. inr ((λ h. cc (e, h), tt), refl))
  attempt_ends (suc n) last w =
      first (suc n) (task w).0 w refl
        (λ f e. later n _ w (λ h. cc (e, h)) (attempt_ends n (task w).0 (task w).1))

  -- With at least zero retries allowed, runJob runs the task until it first succeeds, and at most
  -- one time more than there are retries. It answers without an error where an attempt succeeded,
  -- and otherwise with the error of the last attempt, once all have failed.
  pub run_job_ends :
      (max_retries : ℕ) (w : W)
      → Succeeds max_retries (run_job task (pos max_retries) w) w
        ⊎ GivesUp max_retries (run_job task (pos max_retries) w) w
  unfolding run_job rounds Ends
  run_job_ends n w = attempt_ends n none w
