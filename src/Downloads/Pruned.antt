-- ===== src/Downloads/Pruned.antt =====
-- What stays in the map of the downloads.
use cdn.Text.Laws.{=?_refl, eq_of_=?}
use cdn.Common.{
  ℕ, ◌≡◌, Bool, none, some, List, [], ◌∷◌, Bool-cases, All, inl, inr, refl, ◌≢◌, false, ap, ◌∙◌,
}
use cdn.Text.{Text, ◌=?◌}
use cdn.Downloads.{
  DownloadJob, DownloadRequest, find, prune, start_download, is_expired, check_download_status,
  queue_full, new_job, pending,
}

-- The requests that start downloads, one after the other: each with its new name, its time and
-- whether the pool takes it.
pub record Arrival : Type 0 where
  pub id : Text
  pub now : ℕ
  pub request : DownloadRequest
  pub submitted : Bool

abbrev pub arrivals : List Arrival → List DownloadJob → List DownloadJob
arrivals [] jobs = jobs
arrivals (r ∷ rs) jobs = arrivals rs (start_download r.id r.now r.request r.submitted jobs).1

-- A job without an end is not pruned.
find-prune :
    (id : Text) (now : ℕ) (jobs : List DownloadJob) (j : DownloadJob)
    → find id jobs ≡ some j
    → j.end_time ≡ none
    → find id (prune now jobs) ≡ some j
unfolding find prune
find-prune id now [] j h e = absurd (cc h)
find-prune id now (k ∷ ks) j h e = elim (Bool-cases (id =? k.id)) [
  | inl y ↦
      let same : k ≡ j = cc (rw y at h) in
      let open_ended : k.end_time ≡ none = ap (λ (x : DownloadJob). x.end_time) same ∙ e in
      let kept : is_expired now k.end_time ≡ false = ap (is_expired now) open_ended in
      rw (kept, y) (ap some same)
  | inr n ↦
      let rest = find-prune id now ks j (rw n at h) e in
      elim (Bool-cases (is_expired now k.end_time)) [
        | inl gone ↦ rw gone rest
        | inr kept ↦ rw (kept, n) rest
      ]
]

abbrev Others : Text → List Arrival → Type 0
Others id = All (λ r. id ≢ r.id)

arrivals-find :
    (id : Text) (rs : List Arrival) (jobs : List DownloadJob) (j : DownloadJob)
    → Others id rs
    → find id jobs ≡ some j
    → j.end_time ≡ none
    → find id (arrivals rs jobs) ≡ some j
arrivals-find id [] jobs j other h e = h
arrivals-find id (r ∷ rs) jobs j other h e = arrivals-find id rs _ j other.1 (started r other.0) e
  where
    started :
        (q : Arrival)
        → id ≢ q.id
        → find id (start_download q.id q.now q.request q.submitted jobs).1 ≡ some j
    started q differs = elim (Bool-cases (id =? q.id)) [
      | inl y ↦ absurd (differs (eq_of_=? id q.id y))
      | inr n ↦ unfold find start_download in rw n (find-prune id q.now jobs j h e)
    ]

named_text : (id : Text) → id ≢ [] → (id =? []) ≡ false
named_text id h = elim (Bool-cases (id =? [])) [ inl y ↦ absurd (h (eq_of_=? id [] y)) | inr n ↦ n ]

-- A download that the pool does not take, because its queue is full, stays in the map as pending for
-- ever: no later request removes it, whatever its time, and its status is answered as pending.
pub refused_download_stays :
    (id : Text) (now : ℕ) (req : DownloadRequest) (jobs : List DownloadJob) (rs : List Arrival)
    → id ≢ []
    → All (λ r. id ≢ r.id) rs
    → let (reply, after) = start_download id now req false jobs in
      (reply ≡ queue_full)
      × (check_download_status id (arrivals rs after) ≡ some (new_job id now req))
      × ((new_job id now req).status ≡ pending)
unfolding start_download check_download_status find
refused_download_stays id now req jobs rs named other = (
  refl,
  rw (named_text id named) (
      arrivals-find id rs (new_job id now req ∷ prune now jobs) (new_job id now req) other
        (rw (=?_refl id)) refl),
  refl,
)
