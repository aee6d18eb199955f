-- ===== src/Downloads/Runs.antt =====
-- The state of a download's job once the worker pool has run its task.
use cdn.Common.{ℕ, zero, suc, ◌≡◌, ◌≢◌, refl, ◌⊎◌, inl, inr, Option, none, some}
use cdn.Storage.{Error, M}
use cdn.Worker.{attempt, unless_done, run_job, rounds, pos}
use cdn.Downloads.{completed, failed, DownloadJob, download_task, finish, begin}

-- The job says how the last run ended, and when.
abbrev Ended : Option Error → DownloadJob → Type 0
Ended none j = (j.status ≡ completed) × (j.end_time ≢ none)
Ended (some e) j = (j.status ≡ failed) × (j.error ≡ some e) × (j.end_time ≢ none)

finish-Ended : (now : ℕ) (e : Option Error) (j : DownloadJob) → Ended e (finish now e j)
unfolding finish
finish-Ended now none j = (refl, cc)
finish-Ended now (some e) j = (refl, refl, cc)

module _ {W : Type 0} (download : M W (Option Error)) (clock : W → ℕ) where
  -- The rest of the rounds, for a run that has ended with `e`.
  rest-Ended :
      (n : ℕ) (e : Option Error) (j : DownloadJob) (w : W)
      → Ended e j
      → ((d : Error)
          → e ≡ some d
          → Ended
              (attempt (download_task download clock) n e (j, w)).0
              (attempt (download_task download clock) n e (j, w)).1.0)
      → let (d, (j', w')) = unless_done e (attempt (download_task download clock) n e) (j, w) in
        Ended d j'
  rest-Ended n none j w h further = h
  rest-Ended n (some d) j w h further = further d refl

  attempt-Ended :
      (n : ℕ) (last : Option Error) (j : DownloadJob) (w : W)
      → Ended last j
      → let (e, (j', w')) = attempt (download_task download clock) n last (j, w) in Ended e j'
  unfolding attempt download_task
  attempt-Ended zero last j w h = h
  attempt-Ended (suc n) last j w h =
      let (e, x) = download w in
      let ended = finish-Ended (clock x) e (begin j) in
      rest-Ended n e _ x ended (λ d same. attempt-Ended n e _ x ended)

  -- However often the worker pool runs a download's task, as long as that is at least once, the job
  -- is completed when the last run gave no error, and failed with the error of the last run when it
  -- gave one; it has an end time in both cases.
  pub run_job_settles :
      (n : ℕ) (j : DownloadJob) (w : W)
      → let (e, (j', w')) = run_job (download_task download clock) (pos n) (j, w) in
        ((e ≡ none) × (j'.status ≡ completed) × (j'.end_time ≢ none))
        ⊎ ((d : Error) × (e ≡ some d)
            × (j'.status ≡ failed)
            × (j'.error ≡ some d)
            × (j'.end_time ≢ none))
  unfolding run_job rounds attempt download_task
  run_job_settles n j w =
      let (e, x) = download w in
      let ended = finish-Ended (clock x) e (begin j) in
      told _ _ (rest-Ended n e _ x ended (λ d same. attempt-Ended n e _ x ended))
    where
      told :
          (e : Option Error) (j' : DownloadJob)
          → Ended e j'
          → ((e ≡ none) × (j'.status ≡ completed) × (j'.end_time ≢ none))
            ⊎ ((d : Error) × (e ≡ some d)
                × (j'.status ≡ failed)
                × (j'.error ≡ some d)
                × (j'.end_time ≢ none))
      told none j' (s, t) = inl (refl, s, t)
      told (some d) j' (s, f, t) = inr (d, refl, s, f, t)

  -- A download that fails at first and succeeds when the pool tries it again is reported as completed,
  -- with the error of its first run still there.
  pub retried_download_keeps_error :
      (n : ℕ) (j : DownloadJob) (w : W) (e : Error)
      → (download w).0 ≡ some e
      → (download (download w).1).0 ≡ none
      → let (r, (j', w')) = run_job (download_task download clock) (pos (suc n)) (j, w) in
        (r ≡ none) × (j'.status ≡ completed) × (j'.error ≡ some e)
  unfolding run_job rounds attempt download_task finish
  retried_download_keeps_error n j w e first second = rw (first, second) (refl, refl, refl)
