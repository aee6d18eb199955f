-- ===== src/Downloads.antt =====
-- handler/aws.go: the downloads of Glacier archives that run in the background, the map of their
-- states, and the local path that one may write to. The Glacier service and the worker pool's answer
-- to Submit are parameters; a time is a number of seconds.
pub mod Paths
pub mod Runs
pub mod Pruned
use cdn.Common.{
  ℕ, ◌+◌, Bool, false, not, ◌&&◌, ◌||◌, Option, none, some, List, [], ◌∷◌, ◌++◌, ltb, if◌then◌else◌,
  ◌/◌, true,
}
use cdn.Text.{Text, codes, ◌=?◌, has_prefix, split}
use cdn.Storage.{Error, M, Result, err, ok}

pub data Status : Type 0 where
  pending processing completed failed : Status

pub data DownloadType : Type 0 where
  minio local : DownloadType

pub record DownloadJob : Type 0 where
  pub id : Text
  pub vault_name : Text
  pub job_id : Text
  pub target_bucket : Text
  pub target_path : Text
  pub status : Status
  pub error : Option Error
  pub start_time : ℕ
  pub end_time : Option ℕ
  pub download_type : DownloadType

abbrev pub slash : Text
slash = codes "/"

abbrev pub parent : List Text → List Text
parent [] = []
parent (p ∷ acc) = acc

-- One element of a path, on those in front of it from the last to the first
unfoldable pub clean_step : List Text → Text → List Text
unfolding ◌=?◌
clean_step acc p =
    if (p =? []) || (p =? codes ".") then acc else if p =? codes ".." then parent acc else p ∷ acc

-- The path elements that filepath.Clean leaves of a rooted path, from the last to the first.
unfoldable pub clean_elements : List Text → List Text → List Text
unfolding clean_step
clean_elements acc [] = acc
clean_elements acc (p ∷ ps) = clean_elements (clean_step acc p) ps

-- Each element behind a slash, for elements from the last to the first
unfoldable pub join_below : Text → List Text → Text
join_below base [] = base
join_below base (p ∷ acc) = join_below base acc ++ b'/' ∷ p

-- filepath.Join(base, filepath.Clean("/" + target)), for a base that is clean itself
unfoldable pub joined : Text → Text → Text
unfolding clean_elements join_below
joined base target = join_below base (clean_elements [] (split target b'/'))

-- resolveLocalDownloadPath; `none` is its error.
unfoldable pub resolve_local_download_path : Text → Text → Option Text
unfolding joined
resolve_local_download_path base target =
    if (target =? []) || has_prefix target slash
    then none
    else (let p = joined base target in
        if not (p =? base) && not (has_prefix p (base ++ slash)) then none else some p)

-- a.downloadJobs[id]
unfoldable pub find : Text → List DownloadJob → Option DownloadJob
find id [] = none
find id (j ∷ js) = let rest = find id js in if id =? j.id then some j else rest

-- GlacierCheckDownloadStatus
unfoldable pub check_download_status : Text → List DownloadJob → Option DownloadJob
unfolding find
check_download_status id jobs = if id =? [] then none else find id jobs

-- One hour
abbrev pub retention : ℕ
retention = 3600

abbrev pub is_expired : ℕ → Option ℕ → Bool
is_expired now none = false
is_expired now (some t) = ltb (t + retention) now

-- The loop that deletes finished jobs
unfoldable pub prune : ℕ → List DownloadJob → List DownloadJob
prune now [] = []
prune now (j ∷ js) = let rest = prune now js in if is_expired now j.end_time then rest else j ∷ rest

pub record DownloadRequest : Type 0 where
  pub vault_name : Text
  pub job_id : Text
  pub target_bucket : Text
  pub target_path : Text
  pub download_type : DownloadType

pub data DownloadReply : Type 0 where
  accepted : Text → DownloadReply
  queue_full : DownloadReply

abbrev pub new_job : Text → ℕ → DownloadRequest → DownloadJob
new_job id now req = record {
  id = id;
  vault_name = req.vault_name;
  job_id = req.job_id;
  target_bucket = req.target_bucket;
  target_path = req.target_path;
  status = pending;
  error = none;
  start_time = now;
  end_time = none;
  download_type = req.download_type;
}

-- GlacierInitiateAsyncDownload behind its checks: the job is stored, and then submitted. `submitted`
-- says whether the pool takes it, and `id` is new.
unfoldable pub start_download :
    Text → ℕ → DownloadRequest → Bool → List DownloadJob → DownloadReply × List DownloadJob
unfolding prune
start_download id now req submitted jobs =
    (if submitted then accepted id else queue_full, new_job id now req ∷ prune now jobs)

-- The two updates that a task makes of its job
abbrev pub begin : DownloadJob → DownloadJob
begin j = record j { status = processing }

unfoldable pub finish : ℕ → Option Error → DownloadJob → DownloadJob
finish now none j = record j { end_time = some now; status = completed }
finish now (some e) j = record j { end_time = some now; status = failed; error = some e }

-- The task of a download, on its job and on the outside world; `clock` is time.Now.
unfoldable pub download_task :
    {W : Type 0} → M W (Option Error) → (W → ℕ) → M (DownloadJob × W) (Option Error)
unfolding finish
download_task download clock (j, w) =
    let (e, x) = download w in (e, (finish (clock x) e (begin j), x))

-- The parsed body of a request
pub record DownloadBody : Type 0 where
  pub target_bucket : Text
  pub target_path : Text
  pub kind : Text

pub data DownloadRefusal : Type 0 where
  invalid_body fields_required invalid_type bucket_required invalid_target empty_status
        not_completed :
      DownloadRefusal
  describe_failed : Error → DownloadRefusal

pub data InitiateReply : Type 0 where
  refused : DownloadRefusal → InitiateReply
  started : DownloadReply → InitiateReply

-- The type of a download, where it is one
unfoldable pub type_of : Text → Option DownloadType
type_of kind =
    if kind =? codes "minio" then some minio else if kind =? codes "local" then some local else none

-- The check on the target, by the type
unfoldable pub check_target : Text → DownloadBody → DownloadType → Option DownloadRefusal
unfolding resolve_local_download_path
check_target base body minio = if body.target_bucket =? [] then some bucket_required else none
check_target base body local = elim (resolve_local_download_path base body.target_path) [
  | none ↦ some invalid_target
  | some p ↦ none
]

-- What GlacierDescribeJob answers: whether the job is completed, if there is a status.
abbrev pub check_status : Result (Option Bool) → Option DownloadRefusal
check_status (err e) = some (describe_failed e)
check_status (ok none) = some empty_status
check_status (ok (some false)) = some not_completed
check_status (ok (some true)) = none

module _ (base id : Text) (now : ℕ) (submitted : Bool) (vault job : Text) where
  abbrev pub start_described :
      DownloadBody
      → DownloadType
      → Option DownloadRefusal
      → List DownloadJob
      → InitiateReply × List DownloadJob
  start_described body type (some e) jobs = (refused e, jobs)
  start_described body type none jobs =
      let (reply, after) =
        start_download id now
          (record {
            vault_name = vault;
            job_id = job;
            target_bucket = body.target_bucket;
            target_path = body.target_path;
            download_type = type;
          })
          submitted jobs in
      (started reply, after)

  abbrev pub start_checked :
      DownloadBody
      → DownloadType
      → Result (Option Bool)
      → Option DownloadRefusal
      → List DownloadJob
      → InitiateReply × List DownloadJob
  start_checked body type described (some e) jobs = (refused e, jobs)
  start_checked body type described none jobs =
      start_described body type (check_status described) jobs

  abbrev pub start_typed :
      DownloadBody
      → Result (Option Bool)
      → Option DownloadType
      → List DownloadJob
      → InitiateReply × List DownloadJob
  start_typed body described none jobs = (refused invalid_type, jobs)
  start_typed body described (some type) jobs =
      start_checked body type described (check_target base body type) jobs

  -- GlacierInitiateAsyncDownload; the Glacier service is asked behind all other checks only.
  unfoldable pub initiate_async_download :
      Result (Option Bool)
      → Option DownloadBody
      → List DownloadJob
      → InitiateReply × List DownloadJob
  unfolding start_download check_target type_of
  initiate_async_download described none jobs = (refused invalid_body, jobs)
  initiate_async_download described (some body) jobs =
      if (vault =? []) || (job =? []) || (body.target_path =? [])
      then (refused fields_required, jobs)
      else start_typed body described (type_of body.kind) jobs
