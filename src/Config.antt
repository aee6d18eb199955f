-- ===== src/Config.antt =====
-- The settings read from the environment: pkg/config/config.go, and NewArchive with its helpers of
-- service/archive.go. The environment gives the empty text for a variable that is not set, as
-- os.Getenv does; strconv's Atoi and ParseBool are parameters. A duration is in milliseconds.
pub mod Scope
use cdn.Common.{
  ℕ, Bool, true, false, not, ◌&&◌, ◌||◌, Option, none, some, List, [], ◌∷◌, ◌++◌, ltb,
  if◌then◌else◌,
}
use cdn.Text.{Text, codes, ◌=?◌, trim_space, to_lower, split, member}
use cdn.Worker.{ℤ, pos, negsuc}
use cdn.Archive.{ArchiveConfig}

pub record Environment : Type 0 where
  pub getenv : Text → Text
  pub atoi : Text → Option ℤ
  pub parse_bool : Text → Option Bool

module _ {A : Type 0} where
  abbrev pub or_default : A → Option A → A
  or_default d none = d
  or_default d (some a) = a

-- GetEnvOrDefault
unfoldable pub get_env_or_default : Environment → Text → Text → Text
get_env_or_default env key d = let value = env.getenv key in if value =? [] then d else value

-- GetEnvAsIntOrDefault
unfoldable pub get_env_as_int_or_default : Environment → Text → ℤ → ℤ
get_env_as_int_or_default env key d =
    let value = env.getenv key in if value =? [] then d else or_default d (env.atoi value)

-- GetEnvAsBoolOrDefault
unfoldable pub get_env_as_bool_or_default : Environment → Text → Bool → Bool
get_env_as_bool_or_default env key d =
    let value = env.getenv key in if value =? [] then d else or_default d (env.parse_bool value)

pub record AppConfig : Type 0 where
  pub name : Text
  pub port : ℤ
  pub url : Text
  pub token : Text

pub record MinioConfig : Type 0 where
  pub endpoint : Text
  pub user : Text
  pub password : Text
  pub use_ssl : Bool

pub record AwsConfig : Type 0 where
  pub access_key_id : Text
  pub secret_access_key : Text
  pub session_token : Text
  pub region : Text
  pub bucket : Text

pub record WorkerConfig : Type 0 where
  pub pool_size : ℤ
  pub queue_size : ℤ
  pub max_retries : ℤ
  pub retry_delay : ℤ
  pub batch_size : ℤ
  pub flush_timeout : ℤ
  pub max_concurrent : ℤ

pub record FeatureConfig : Type 0 where
  pub disable_delete : Bool
  pub disable_upload : Bool
  pub disable_get : Bool

pub record Config : Type 0 where
  pub app : AppConfig
  pub minio : MinioConfig
  pub aws : AwsConfig
  pub redis_url : Text
  pub worker : WorkerConfig
  pub features : FeatureConfig

module _ (env : Environment) where
  abbrev text : Text → Text → Text
  text key d = get_env_or_default env key d

  abbrev int : Text → ℕ → ℤ
  int key d = get_env_as_int_or_default env key (pos d)

  abbrev switch : Text → Bool
  switch key = get_env_as_bool_or_default env key false

  -- Load, where the file .env can be read
  unfoldable pub load : Config
  load = record {
    app = record {
      name = text (codes "APP_NAME") (codes "cdn");
      port = int (codes "APP_PORT") 9090;
      url = text (codes "APP_URL") (codes "http://localhost:9090");
      token = text (codes "TOKEN") [];
    };
    minio = record {
      endpoint = text (codes "MINIO_ENDPOINT") [];
      user = text (codes "MINIO_ROOT_USER") [];
      password = text (codes "MINIO_ROOT_PASSWORD") [];
      use_ssl = switch (codes "MINIO_USE_SSL");
    };
    aws = record {
      access_key_id = text (codes "AWS_ACCESS_KEY_ID") [];
      secret_access_key = text (codes "AWS_SECRET_ACCESS_KEY") [];
      session_token = text (codes "AWS_SESSION_TOKEN") [];
      region = text (codes "AWS_REGION") [];
      bucket = text (codes "AWS_BUCKET") [];
    };
    redis_url = text (codes "REDIS_URL") (codes "redis://cdn-redis:6379");
    worker = record {
      pool_size = int (codes "WORKER_POOL_SIZE") 5;
      queue_size = int (codes "WORKER_QUEUE_SIZE") 10;
      max_retries = int (codes "WORKER_MAX_RETRIES") 3;
      retry_delay = int (codes "WORKER_RETRY_DELAY_MS") 1000;
      batch_size = int (codes "WORKER_BATCH_SIZE") 10;
      flush_timeout = int (codes "WORKER_FLUSH_TIMEOUT_MS") 5000;
      max_concurrent = int (codes "WORKER_MAX_CONCURRENT") 5;
    };
    features = record {
      disable_delete = switch (codes "DISABLE_DELETE");
      disable_upload = switch (codes "DISABLE_UPLOAD");
      disable_get = switch (codes "DISABLE_GET");
    };
  }

pub data ConfigError : Type 0 where
  invalid_port token_required minio_endpoint_required minio_user_required minio_password_required
        aws_access_key_id_required aws_secret_access_key_required aws_region_required :
      ConfigError

-- A port from 1 to 65535
abbrev pub is_port : ℤ → Bool
is_port (pos n) = ltb 0 n && ltb n 65536
is_port (negsuc n) = false

abbrev pub unless : Bool → ConfigError → List ConfigError
unless true e = []
unless false e = e ∷ []

abbrev pub is_set : Text → Bool
is_set t = not (t =? [])

-- Validate: the errors that it joins into one; none of them is a nil error.
unfoldable pub validate : Config → List ConfigError
validate c =
    unless (is_port c.app.port) invalid_port
    ++ unless (is_set c.app.token) token_required
    ++ unless (is_set c.minio.endpoint) minio_endpoint_required
    ++ unless (is_set c.minio.user) minio_user_required
    ++ unless (is_set c.minio.password) minio_password_required
    ++ unless (is_set c.aws.access_key_id) aws_access_key_id_required
    ++ unless (is_set c.aws.secret_access_key) aws_secret_access_key_required
    ++ unless (is_set c.aws.region) aws_region_required

-- The trimmed entries of parseBucketScope that are not empty
unfoldable pub scope_entries : List Text → List Text
unfolding trim_space
scope_entries [] = []
scope_entries (b ∷ bs) =
    let rest = scope_entries bs in let t = trim_space b in if t =? [] then rest else t ∷ rest

abbrev pub nil_if_empty : List Text → Option (List Text)
nil_if_empty [] = none
nil_if_empty (b ∷ bs) = some (b ∷ bs)

-- parseBucketScope
unfoldable pub parse_bucket_scope : Text → Option (List Text)
unfolding scope_entries
parse_bucket_scope raw = nil_if_empty (scope_entries (split raw b','))

abbrev pub placeholder_credentials : List Text
placeholder_credentials =
    codes "your-aws-key"
    ∷ codes "your-aws-secret"
    ∷ codes "your-access-key"
    ∷ codes "your-secret-key"
    ∷ codes "your-aws-region"
    ∷ codes "your-minio-user"
    ∷ codes "your-minio-passwor"
    ∷ codes "replace_me"
    ∷ codes "replace-me"
    ∷ codes "changeme"
    ∷ codes "change-me"
    ∷ []

-- isPlaceholderCredential
unfoldable pub is_placeholder_credential : Text → Bool
is_placeholder_credential v = member (to_lower (trim_space v)) placeholder_credentials

abbrev pub is_usable : Text → Bool
is_usable v = not ((trim_space v =? []) || is_placeholder_credential v)

-- archiveConfigured
unfoldable pub archive_configured : Environment → Bool
unfolding is_placeholder_credential
archive_configured env =
    if not (get_env_as_bool_or_default env (codes "ARCHIVE_ENABLED") true)
    then false
    else is_usable (get_env_or_default env (codes "AWS_ACCESS_KEY_ID") [])
      && is_usable (get_env_or_default env (codes "AWS_SECRET_ACCESS_KEY") [])
      && is_usable (get_env_or_default env (codes "AWS_REGION") [])

-- NewArchive, less its log
unfoldable pub new_archive : Environment → ArchiveConfig
unfolding archive_configured parse_bucket_scope
new_archive env = record {
  enabled = archive_configured env;
  bucket = trim_space (get_env_or_default env (codes "ARCHIVE_BUCKET") []);
  only = parse_bucket_scope (get_env_or_default env (codes "ARCHIVE_ONLY_BUCKETS") []);
}
