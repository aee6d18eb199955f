-- ===== src/Tiering.antt =====
-- service/tiering.go: objects move between the local store and the archive.
pub mod Served
pub mod Outcomes
pub mod Related
pub mod Apart
use cdn.Common.{
  ℕ, Bool, true, false, not, Option, none, some, ◌∷◌, ◌++◌, if◌then◌else◌, leb, length, ◌==◌,
}
use cdn.Text.{Text, codes}
use cdn.Storage.{
  Error, Result, ok, err, Reader, ObjectInfo, ObjectStore, Archive, M, ◌>>=◌, pure,
  is_archive_not_found, archive_disabled, wrapped, message,
}

pub data TierOutcome : Type 0 where
  archived archived_kept already_archived not_in_scope restored already_local not_found failed :
      TierOutcome

pub record TierResult : Type 0 where
  pub key : Text
  pub outcome : TierOutcome
  pub size : ℕ
  pub error : Option Error

pub data VerifyReason : Type 0 where
  verify_ok verify_not_archived verify_size_mismatch verify_error : VerifyReason

abbrev pub reason_text : VerifyReason → Text
reason_text verify_ok = codes "ok"
reason_text verify_not_archived = codes "not_archived"
reason_text verify_size_mismatch = codes "size_mismatch"
reason_text verify_error = codes "error"

-- What VerifyArchived returns.
pub record Verdict : Type 0 where
  pub verified : Bool
  pub reason : VerifyReason
  pub error : Option Error

-- The struct Tiering; the archive may be nil.
pub record Tiering (W : Type 0) : Type 0 where
  pub store : ObjectStore W
  pub archive : Option (Archive W)

-- The verdict on the archive's answer to Stat.
unfoldable pub judge : ℕ → Result ℕ → Verdict
unfolding is_archive_not_found
judge local_size (ok archived_size) =
    if archived_size == local_size
    then record { verified = true; reason = verify_ok; error = none }
    else record { verified = false; reason = verify_size_mismatch; error = none }
judge local_size (err e) =
    if is_archive_not_found e
    then record { verified = false; reason = verify_not_archived; error = none }
    else record { verified = false; reason = verify_error; error = some e }

-- The number of bytes that are sniffed for a content type.
abbrev sniff_len : ℕ
sniff_len = 512

-- io.ReadFull of `sniff_len` bytes: the error, where it is not the end of the data.
unfoldable pub read_head : Reader → Option Error
read_head body = if leb sniff_len (length body.bytes) then none else body.fault

abbrev pub result : Text → TierOutcome → ℕ → Option Error → TierResult
result key outcome size error = record { key = key; outcome = outcome; size = size; error = error }

-- Nothing locally: the archive says whether it still has the object.
abbrev pub absent : Text → Error → Result ℕ → TierResult
absent key stat_error (ok _) = result key already_archived 0 none
absent key stat_error (err _) = result key not_found 0 (some stat_error)

abbrev pub is_local : ℕ → Result ObjectInfo → Bool
is_local archived_size (ok info) = info.size == archived_size
is_local archived_size (err _) = false

module _ {W : Type 0} where
  unfoldable pub is_enabled : Option (Archive W) → Bool
  is_enabled none = false
  is_enabled (some a) = a.enabled

  unfoldable pub is_in_scope : Option (Archive W) → Text → Bool
  is_in_scope none bucket = false
  is_in_scope (some a) bucket = a.in_scope bucket

  -- VerifyArchived. It asks a nil archive nothing: its callers have tested for that.
  unfoldable pub verify_archived : Archive W → Text → Text → ℕ → M W Verdict
  unfolding judge
  verify_archived a bucket key local_size = do
    answer ← a.stat bucket key
    pure (judge local_size answer)

  module _ (store : ObjectStore W) (a : Archive W) (bucket key : Text) where
    abbrev put_opened : Result Reader → M W (Option Error)
    put_opened (err e) = pure (some (wrapped (codes "read " ++ bucket ++ b'/' ∷ key) e))
    put_opened (ok body) = a.put bucket key body

    unfoldable pub copy_to_archive : M W (Option Error)
    copy_to_archive = do opened ← store.open_object bucket key; put_opened opened

    abbrev pub removed : ℕ → Option Error → TierResult
    removed size none = result key archived size none
    removed size (some e) =
        result key failed size
          (some (wrapped (codes "archived but local copy could not be removed") e))

    -- The end of ArchiveKnownObject: the archive is known to hold the object.
    unfoldable pub evict_verified : ℕ → Bool → M W TierResult
    evict_verified size false = pure (result key archived_kept size none)
    evict_verified size true = do e ← store.remove_object bucket key; pure (removed size e)

    -- The verdict after an upload: its error, whether it is positive, and the reason.
    unfoldable pub after_upload : ℕ → Bool → Option Error → Bool → VerifyReason → M W TierResult
    after_upload size evict (some e) _ _ = pure (result key failed size (some e))
    after_upload size evict none true _ = evict_verified size evict
    after_upload size evict none false reason = pure (
        result key failed size (
          some
            (message (codes "archive verification failed after upload: " ++ reason_text reason))))

    -- The upload is verified if it gave no error.
    unfoldable pub verify_upload : ℕ → Bool → Option Error → M W TierResult
    verify_upload size evict (some e) = pure (result key failed size (some e))
    verify_upload size evict none = do
      v ← verify_archived a bucket key size
      after_upload size evict v.error v.verified v.reason

    -- The first verdict, its error and whether it is positive; it may spare the upload.
    unfoldable pub after_check : ℕ → Bool → Option Error → Bool → M W TierResult
    after_check size evict (some e) _ = pure (result key failed size (some e))
    after_check size evict none true = evict_verified size evict
    after_check size evict none false = do e ← copy_to_archive; verify_upload size evict e

    -- ArchiveKnownObject with an archive that is not nil.
    unfoldable pub archive_known_in : ℕ → Bool → M W TierResult
    archive_known_in local_size evict =
        if not a.enabled
        then pure (result key failed local_size (some archive_disabled))
        else if not (a.in_scope bucket)
        then pure (result key not_in_scope local_size none)
        else do
          v ← verify_archived a bucket key local_size
          after_check local_size evict v.error v.verified

    -- The answer of StatObject. Without a local copy the archive says whether it still has one.
    unfoldable pub archive_stated : Bool → Result ObjectInfo → M W TierResult
    archive_stated evict (ok info) = archive_known_in info.size evict
    archive_stated evict (err e) = do answer ← a.stat bucket key; pure (absent key e answer)

    -- ArchiveObject with an archive that is not nil.
    unfoldable pub archive_in : Bool → M W TierResult
    archive_in evict =
        if not a.enabled
        then pure (result key failed 0 (some archive_disabled))
        else do info ← store.stat_object bucket key; archive_stated evict info

  unfoldable pub archive_known_object : Tiering W → Text → Text → ℕ → Bool → M W TierResult
  archive_known_object t bucket key local_size evict = elim t.archive [
    | none ↦ pure (result key failed local_size (some archive_disabled))
    | some a ↦ archive_known_in t.store a bucket key local_size evict
  ]

  unfoldable pub archive_object : Tiering W → Text → Text → Bool → M W TierResult
  archive_object t bucket key evict = elim t.archive [
    | none ↦ pure (result key failed 0 (some archive_disabled))
    | some a ↦ archive_in t.store a bucket key evict
  ]

  module _ (store : ObjectStore W) (bucket key : Text) where
    abbrev stored : ℕ → Option Error → TierResult
    stored size none = result key restored size none
    stored size (some e) =
        result key failed size (some (wrapped (codes "write to local storage") e))

    -- The archive has answered Open. `archived_size` is what the caller expects.
    unfoldable pub store_opened : ℕ → Result (Reader × ℕ) → M W TierResult
    store_opened archived_size (err e) =
        if is_archive_not_found e
        then pure (result key not_found archived_size none)
        else pure (result key failed archived_size (some e))
    store_opened archived_size (ok (body, size)) = elim (read_head body) [
      | some e ↦
          pure (result key failed archived_size (some (wrapped (codes "read archived object") e)))
      | none ↦ do
        e ← store.put_object bucket key body size
        pure (elim e [ none ↦ stored size none | some e ↦ stored archived_size (some e) ])
    ]

    -- RestoreObject of an archive that is on, with what the local store answered to StatObject.
    unfoldable pub restore_unless : Archive W → ℕ → Bool → M W TierResult
    unfolding store_opened
    restore_unless a archived_size true = pure (result key already_local archived_size none)
    restore_unless a archived_size false = do
      opened ← a.open_archived bucket key
      store_opened archived_size opened

  unfoldable pub restore_object : Tiering W → Text → Text → ℕ → M W TierResult
  unfolding restore_unless
  restore_object t bucket key archived_size = elim t.archive [
    | none ↦ pure (result key failed archived_size (some archive_disabled))
    | some a ↦
        if not a.enabled then pure (result key failed archived_size (some archive_disabled)) else do
          info ← t.store.stat_object bucket key
          restore_unless t.store bucket key a archived_size (is_local archived_size info)
  ]

  -- By what BucketExists answers.
  abbrev pub made_bucket : ObjectStore W → Text → Result Bool → M W (Option Error)
  made_bucket store bucket (err e) = pure (some e)
  made_bucket store bucket (ok true) = pure none
  made_bucket store bucket (ok false) = store.make_bucket bucket

  unfoldable pub ensure_bucket : Tiering W → Text → M W (Option Error)
  ensure_bucket t bucket = do
    exists ← t.store.bucket_exists bucket
    made_bucket t.store bucket exists
