-- ===== src/ArchiveHandler.antt =====
-- handler/archive.go: the endpoint that archives the objects a caller names. A request is its parsed
-- body and the principal that was resolved for it. The objects are archived one after the other; the
-- code runs up to ten at a time and puts each result at the place of its file.
pub mod Requests
pub mod Summaries
use cdn.Common.{
  ℕ, suc, ◌+◌, Bool, true, not, ◌&&◌, Option, none, some, List, [], ◌∷◌, ltb, if◌then◌else◌, length,
}
use cdn.Text.{Text, ◌=?◌}
use cdn.Storage.{Error, M, ◌>>=◌, pure}
use cdn.Access.{Principal, resolve_bucket}
use cdn.ObjectKey.{Url, Key, key, bad, KeyError, normalize_object_key}
use cdn.Tiering.{
  Tiering, TierOutcome, TierResult, archived, archived_kept, already_archived, not_found, failed,
  is_enabled, is_in_scope, archive_object,
}

-- A nil `evict` is `none`.
pub record ArchiveRequest : Type 0 where
  pub bucket : Text
  pub files : List Text
  pub evict : Option Bool

-- What an entry's error was made from.
pub data Cause : Type 0 where
  bad_key : KeyError → Cause
  not_moved : Error → Cause

-- One entry of the results; a member that the entry lacks is `none`.
pub record Entry : Type 0 where
  pub file : Text
  pub object : Option Text
  pub status : TierOutcome
  pub size : Option ℕ
  pub error : Option Cause

pub record Summary : Type 0 where
  pub archived : ℕ
  pub archived_kept : ℕ
  pub already_archived : ℕ
  pub not_found : ℕ
  pub failed : ℕ
  pub bytes_freed : ℕ

pub data Refusal : Type 0 where
  invalid_body invalid_fields forbidden bucket_required too_many_files archive_not_configured
        bucket_out_of_scope :
      Refusal

pub data ArchiveReply : Type 0 where
  refused : Refusal → ArchiveReply
  success : List Entry → Summary → ArchiveReply

abbrev pub empty_summary : Summary
empty_summary = record {
  archived = 0;
  archived_kept = 0;
  already_archived = 0;
  not_found = 0;
  failed = 0;
  bytes_freed = 0;
}

-- The counter of a status, if the summary has one.
unfoldable pub count_status : TierOutcome → Summary → Summary
count_status archived s = record s { archived = suc s.archived }
count_status archived_kept s = record s { archived_kept = suc s.archived_kept }
count_status already_archived s = record s { already_archived = suc s.already_archived }
count_status not_found s = record s { not_found = suc s.not_found }
count_status failed s = record s { failed = suc s.failed }
count_status _ s = s

-- Only an object whose local copy was removed frees its size.
unfoldable pub freed : TierOutcome → Option ℕ → ℕ
freed archived (some n) = n
freed _ _ = 0

unfoldable pub count_entry : Entry → Summary → Summary
unfolding count_status freed
count_entry e s =
    let t = count_status e.status s in
    record t { bytes_freed = t.bytes_freed + freed e.status e.size }

-- The loop over the results
unfoldable pub summarize : List Entry → Summary → Summary
summarize [] s = s
summarize (e ∷ es) s = summarize es (count_entry e s)

abbrev pub cause_of : Option Error → Option Cause
cause_of none = none
cause_of (some e) = some (not_moved e)

abbrev pub entry_of : Text → Text → TierResult → Entry
entry_of file object r = record {
  file = file;
  object = some object;
  status = r.outcome;
  size = if ltb 0 r.size then some r.size else none;
  error = cause_of r.error;
}

abbrev pub bad_entry : Text → KeyError → Entry
bad_entry file e = record {
  file = file;
  object = none;
  status = failed;
  size = none;
  error = some (bad_key e);
}

abbrev pub evict_of : Option Bool → Bool
evict_of none = true
evict_of (some evict) = evict

module _ {W : Type 0} (parse : Text → Option Url) (app : Option Url) (t : Tiering W) where
  -- The end of a file's work, by what its reference is normalised to.
  unfoldable pub archive_key : Text → Bool → Text → Key → M W Entry
  archive_key bucket evict file (bad e) = pure (bad_entry file e)
  archive_key bucket evict file (key k) = do
    r ← archive_object t bucket k evict
    pure (entry_of file k r)

  unfoldable pub archive_file : Text → Bool → Text → M W Entry
  archive_file bucket evict file =
      archive_key bucket evict file (normalize_object_key parse app file bucket)

  -- archiveAll
  unfoldable pub archive_all : Text → Bool → List Text → M W (List Entry)
  archive_all bucket evict [] = pure []
  archive_all bucket evict (file ∷ files) = do
    e ← archive_file bucket evict file
    es ← archive_all bucket evict files
    pure (e ∷ es)

  abbrev pub answer : List Entry → ArchiveReply
  answer es = success es (summarize es empty_summary)

  abbrev pub refuse : Refusal → M W ArchiveReply
  refuse r = pure (refused r)

  -- The request for a bucket that the principal is given.
  unfoldable pub archive_in_bucket : ℕ → Text → ArchiveRequest → M W ArchiveReply
  archive_in_bucket max_batch bucket req =
      if bucket =? []
      then refuse bucket_required
      else if ltb 0 max_batch && ltb max_batch (length req.files)
      then refuse too_many_files
      else if not (is_enabled t.archive)
      then refuse archive_not_configured
      else if not (is_in_scope t.archive bucket)
      then refuse bucket_out_of_scope
      else do es ← archive_all bucket (evict_of req.evict) req.files; pure (answer es)

  abbrev pub for_bucket : ℕ → ArchiveRequest → Option Text → M W ArchiveReply
  for_bucket max_batch req none = refuse forbidden
  for_bucket max_batch req (some bucket) = archive_in_bucket max_batch bucket req

  -- ArchiveObjects; `body` is the parsed body and `valid` the answer of validator.ValidateStruct.
  unfoldable pub archive_objects :
      ℕ → (ArchiveRequest → Bool) → Principal → Option ArchiveRequest → M W ArchiveReply
  archive_objects max_batch valid p none = refuse invalid_body
  archive_objects max_batch valid p (some req) =
      if not (valid req)
      then refuse invalid_fields
      else for_bucket max_batch req (resolve_bucket p req.bucket)
