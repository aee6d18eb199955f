-- ===== src/Storage.antt =====
-- The interfaces between the service and its two stores (service/tiering.go, service/aws.go,
-- service/archive.go). MinIO and S3 are not in the repository: an operation of theirs is an action
-- on a state `W` of the outside world that the model knows nothing of but the laws in Documented.
pub mod Documented
pub mod Actions
use cdn.Common.{ℕ, Bool, true, false, ◌||◌, Option, List}
use cdn.Text.{Text}

-- The contents of an object.
abbrev pub Bytes : Type 0
Bytes = List ℕ

-- An error of the AWS SDK, by what `errors.As` finds in it.
pub record SdkError : Type 0 where
  pub not_found : Bool  -- *s3types.NotFound
  pub no_such_key : Bool  -- *s3types.NoSuchKey

-- An `error`: the sentinels of service/archive.go, the errors of MinIO, of the SDK and of a reader,
-- an error made here by a message, and one wrapped by `%w`.
pub data Error : Type 0 where
  archive_disabled : Error
  archive_not_found : Error
  archive_not_in_scope : Error
  archive_destination_per_bucket : Error
  canceled : Error
  store : Text → Error
  sdk : SdkError → Error
  read : Text → Error
  message : Text → Error
  wrapped : Text → Error → Error

pub data Result {ℓ} (A : Type ℓ) : Type ℓ where
  ok : A → Result A
  err : Error → Result A

-- An action on the world. It returns also where it fails, and what it did stays done.
abbrev pub M : Type 0 → Type 0 → Type 0
M W A = W → A × W

module _ {W A B : Type 0} where
  infixl 10 ◌>>=◌
  abbrev pub ◌>>=◌ : M W A → (A → M W B) → M W B
  ◌>>=◌ m f w = let (a, w') = m w in f a w'

module _ {W A : Type 0} where
  abbrev pub pure : A → M W A
  pure a w = (a, w)

-- An io.Reader: what it still delivers, and the error it ends with where that is not EOF.
pub record Reader : Type 0 where
  pub bytes : Bytes
  pub fault : Option Error

-- minio.ObjectInfo, as far as it is read; a time is a number.
pub record ObjectInfo : Type 0 where
  pub key : Text
  pub size : ℕ
  pub last_modified : ℕ
  pub failure : Option Error

-- service.ObjectStore. A nil error is `none`.
pub record ObjectStore (W : Type 0) : Type 0 where
  pub list_buckets : M W (Result (List Text))
  pub list_objects : Text → M W (List ObjectInfo)
  pub stat_object : Text → Text → M W (Result ObjectInfo)
  pub remove_object : Text → Text → M W (Option Error)
  pub put_object : Text → Text → Reader → ℕ → M W (Option Error)
  pub make_bucket : Text → M W (Option Error)
  pub bucket_exists : Text → M W (Result Bool)
  pub open_object : Text → Text → M W (Result Reader)

-- The methods of service.AwsService that the archive calls. A pointer that may be nil is an
-- `Option`. A listing is the keys in their order and the error that ended it.
pub record AwsService (W : Type 0) : Type 0 where
  pub s3_put_object : Text → Text → Reader → M W (Option Error)
  pub s3_head_object : Text → Text → M W (Result (Option ℕ))
  pub s3_get_object : Text → Text → M W (Result (Reader × Option ℕ))
  pub s3_head_bucket : Text → M W (Option Error)
  pub s3_list_objects : Text → Text → M W (List (Text × ℕ) × Option Error)

-- service.Archive. `walk` gives the calls of its callback, in order, instead of making them.
pub record Archive (W : Type 0) : Type 0 where
  pub enabled : Bool
  pub in_scope : Text → Bool
  pub put : Text → Text → Reader → M W (Option Error)
  pub open_archived : Text → Text → M W (Result (Reader × ℕ))
  pub stat : Text → Text → M W (Result ℕ)
  pub reachable : Text → M W (Option Error)
  pub verify_destination : M W (Option Error)
  pub walk : Text → M W (List (Text × ℕ) × Option Error)

-- errors.Is(err, ErrArchiveNotFound)
unfoldable pub is_archive_not_found : Error → Bool
is_archive_not_found archive_not_found = true
is_archive_not_found (wrapped _ e) = is_archive_not_found e
is_archive_not_found _ = false

-- service.isNotFound
unfoldable pub is_not_found : Error → Bool
is_not_found (sdk e) = e.not_found || e.no_such_key
is_not_found (wrapped _ e) = is_not_found e
is_not_found _ = false
