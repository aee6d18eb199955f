-- ===== src/Examples/Downloading.antt =====
-- Downloads and settings at concrete inputs.
use cdn.Common.{
  zero, suc, ap, arith, if◌then◌else◌, ℕ, ◌≡◌, ◌≢◌, ◌⊎◌, refl, true, false, Option, none, some,
  List, [], ◌∷◌, All, length,
}
use cdn.Text.{Text, codes, ◌=?◌, split, has_prefix}
use cdn.Storage.{Error, canceled}
use cdn.Archive.Location.{NoSlash}
use cdn.Worker.{pos, run_job}
use cdn.Downloads.{
  DownloadRequest, DownloadJob, pending, completed, failed, minio, new_job, start_download,
  queue_full, check_download_status, download_task, resolve_local_download_path, joined,
  clean_elements, clean_step, join_below,
}
use cdn.Downloads.Paths.{resolve_local_download_path_below}
use cdn.Downloads.Runs.{run_job_settles}
use cdn.Downloads.Pruned.{Arrival, arrivals, refused_download_stays}
use cdn.Config.{Environment}

abbrev base : Text
base = codes "/tmp/g"

-- A target that tries to leave the base.
climbed : resolve_local_download_path base (codes "../../a/./b") ≡ some (codes "/tmp/g/a/b")
unfolding resolve_local_download_path has_prefix joined clean_elements clean_step join_below split
    ◌=?◌
climbed = refl

resolve_local_download_path_below_example :
    (ps : List Text) × (codes "/tmp/g/a/b" ≡ join_below base ps)
    × All (λ q. (q ≢ []) × (q ≢ codes ".") × (q ≢ codes "..") × NoSlash q) ps
resolve_local_download_path_below_example =
    resolve_local_download_path_below base (codes "../../a/./b") (codes "/tmp/g/a/b") climbed

abbrev request : DownloadRequest
request = record {
  vault_name = codes "v";
  job_id = codes "1";
  target_bucket = codes "photos";
  target_path = codes "a";
  download_type = minio;
}

abbrev job : DownloadJob
job = new_job (codes "d") 7 request

-- A download that fails while the world counts 0 and works from 1 on.
abbrev failing : ℕ → Option Error × ℕ
failing zero = (some canceled, 1)
failing (suc n) = (none, suc n)

abbrev clock : ℕ → ℕ
clock w = w

run_job_settles_example :
    let (e, (j, w)) = run_job (download_task failing clock) (pos 3) (job, 0) in
    ((e ≡ none) × (j.status ≡ completed) × (j.end_time ≢ none))
    ⊎ ((d : Error) × (e ≡ some d) × (j.status ≡ failed) × (j.error ≡ some d) × (j.end_time ≢ none))
run_job_settles_example = run_job_settles failing clock 3 job 0

abbrev later : List Arrival
later = record { id = codes "ee"; now = 99999; request = request; submitted = true } ∷ []

later_differs : All (λ r. codes "d" ≢ r.id) later
later_differs = ((λ e. absurd (omega (arith, ap length e))), tt)

d_named : codes "d" ≢ []
d_named e = cc e

refused_download_stays_example :
    let (reply, after) = start_download (codes "d") 7 request false [] in
    (reply ≡ queue_full)
    × (check_download_status (codes "d") (arrivals later after) ≡ some job)
    × (job.status ≡ pending)
refused_download_stays_example =
    refused_download_stays (codes "d") 7 request [] later d_named later_differs

abbrev environment : Environment
environment = record {
  getenv = λ key. if key =? codes "ARCHIVE_ONLY_BUCKETS" then codes " photos ,x" else codes "k";
  atoi = λ s. none;
  parse_bool = λ s. none;
}
