-- ===== src/Archive.antt =====
-- service/archive.go: the cold tier behind service.Archive, over the S3 calls of AwsService.
pub mod Location
pub mod Listing
use cdn.Common.{
  ℕ, Bool, true, false, not, String, Option, none, some, List, [], ◌∷◌, ◌++◌, if◌then◌else◌, length,
}
use cdn.Text.{Text, codes, ◌=?◌, member, trim_prefix}
use cdn.Storage.{
  Error, Result, ok, err, Reader, AwsService, Archive, M, ◌>>=◌, pure, is_not_found,
  archive_disabled, archive_not_found, archive_not_in_scope, archive_destination_per_bucket,
  wrapped, message,
}

-- The struct `archive` without its `aws`. An empty `bucket` is bucket-name parity; `only` is the
-- allowlist, nil where every bucket is archived.
pub record ArchiveConfig : Type 0 where
  pub enabled : Bool
  pub bucket : Text
  pub only : Option (List Text)

abbrev slash : Text → Text → Text
slash a b = a ++ b'/' ∷ b

unfoldable pub in_scope : ArchiveConfig → Text → Bool
in_scope a bucket =
    if not a.enabled then false else elim a.only [ none ↦ true | some scope ↦ member bucket scope ]

unfoldable pub resolve : ArchiveConfig → Text → Text → Text × Text
resolve a bucket object =
    if a.bucket =? [] then (bucket, object) else (a.bucket, bucket ++ b'/' ∷ object)

-- fmt.Errorf("archive <op> %s/%s: %w", bucket, key, err)
abbrev pub failed_at : String → Text → Text → Error → Error
failed_at op bucket key = wrapped (codes "archive " ++ codes op ++ codes " " ++ slash bucket key)

abbrev pub or_zero : Option ℕ → ℕ
or_zero none = 0
or_zero (some n) = n

-- The callback of Walk: a key that is only the prefix is passed over.
unfoldable pub local_keys : Text → List (Text × ℕ) → List (Text × ℕ)
unfolding trim_prefix
local_keys prefix [] = []
local_keys prefix ((s3_key, size) ∷ l) =
    let key = trim_prefix s3_key prefix in
    let rest = local_keys prefix l in if key =? [] then rest else (key, size) ∷ rest

module _ {W : Type 0} (aws : AwsService W) (a : ArchiveConfig) where
  abbrev put_result : Text → Text → Option Error → Option Error
  put_result bucket key none = none
  put_result bucket key (some e) = some (failed_at "put" bucket key e)

  unfoldable pub put : Text → Text → Reader → M W (Option Error)
  put bucket object body =
      if not a.enabled
      then pure (some archive_disabled)
      else if not (in_scope a bucket)
      then pure (some archive_not_in_scope)
      else do
        let (s3_bucket, s3_key) = resolve a bucket object
        e ← aws.s3_put_object s3_bucket s3_key body
        pure (put_result s3_bucket s3_key e)

  abbrev pub open_result : Text → Text → Result (Reader × Option ℕ) → Result (Reader × ℕ)
  open_result bucket key (ok (body, n)) = ok (body, or_zero n)
  open_result bucket key (err e) =
      if is_not_found e then err archive_not_found else err (failed_at "open" bucket key e)

  -- Open
  unfoldable pub open_archived : Text → Text → M W (Result (Reader × ℕ))
  unfolding is_not_found
  open_archived bucket object = if not a.enabled then pure (err archive_disabled) else do
    let (s3_bucket, s3_key) = resolve a bucket object
    out ← aws.s3_get_object s3_bucket s3_key
    pure (open_result s3_bucket s3_key out)

  abbrev stat_result : Text → Text → Result (Option ℕ) → Result ℕ
  stat_result bucket key (ok (some n)) = ok n
  stat_result bucket key (ok none) =
      err (
        message (codes "archive stat " ++ slash bucket key ++ codes ": no content length reported"))
  stat_result bucket key (err e) =
      if is_not_found e then err archive_not_found else err (failed_at "stat" bucket key e)

  unfoldable pub stat : Text → Text → M W (Result ℕ)
  unfolding is_not_found
  stat bucket object = if not a.enabled then pure (err archive_disabled) else do
    let (s3_bucket, s3_key) = resolve a bucket object
    out ← aws.s3_head_object s3_bucket s3_key
    pure (stat_result s3_bucket s3_key out)

  abbrev reach_result : Text → Option Error → Option Error
  reach_result target none = none
  reach_result target (some e) =
      some (wrapped (codes "archive bucket " ++ target ++ codes " is not reachable") e)

  unfoldable pub reachable : Text → M W (Option Error)
  reachable bucket =
      if not a.enabled
      then pure (some archive_disabled)
      else if not (in_scope a bucket)
      then pure (some archive_not_in_scope)
      else do
        let (target, _) = resolve a bucket []
        e ← aws.s3_head_bucket target
        pure (reach_result target e)

  unfoldable pub verify_destination : M W (Option Error)
  unfolding reachable
  verify_destination =
      if not a.enabled
      then pure (some archive_disabled)
      else if a.bucket =? []
      then pure (some archive_destination_per_bucket)
      else reachable []

  unfoldable pub walk : Text → M W (List (Text × ℕ) × Option Error)
  unfolding local_keys
  walk bucket = if not a.enabled then pure ([], some archive_disabled) else do
    let (s3_bucket, prefix) = resolve a bucket []
    found ← aws.s3_list_objects s3_bucket prefix
    pure (local_keys prefix found.0, found.1)

  -- The methods as the interface that the other components take.
  abbrev pub archive : Archive W
  archive = record {
    enabled = a.enabled;
    in_scope = in_scope a;
    put = put;
    open_archived = open_archived;
    stat = stat;
    reachable = reachable;
    verify_destination = verify_destination;
    walk = walk;
  }

-- ArchiveBucketFor
unfoldable pub archive_bucket_for : ArchiveConfig → Text → Text
unfolding resolve
archive_bucket_for a bucket = (resolve a bucket []).0
