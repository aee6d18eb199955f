-- ===== src/Tokens.antt =====
-- pkg/config/tokens.go: the general token and the bucket-scoped tokens of the token file.
-- SHA-256, the JSON decoder and time.Parse are parameters. The package variable
-- bucketTokens is the table that the operations take and return.
pub mod Loading
pub mod Matching
use cdn.Common.{
  ℕ, ◌-◌, Bool, true, false, not, ◌&&◌, Option, none, some, List, ◌∷◌, ltb, leb, if◌then◌else◌,
  length, [],
}
use cdn.Text.{Text, codes, ◌=?◌, byte_len, trim_space, to_lower, member}
use cdn.Bucket.{validate}

abbrev pub min_token_length : ℕ
min_token_length = 32

abbrev pub placeholder_tokens : List Text
placeholder_tokens =
    codes "your-token-here"
    ∷ codes "your-secure-token"
    ∷ codes "your_token_here"
    ∷ codes "replace_me"
    ∷ codes "replace-me"
    ∷ codes "changeme"
    ∷ codes "change-me"
    ∷ codes "token"
    ∷ codes "secret"
    ∷ codes "password"
    ∷ codes "test"
    ∷ []

pub data TokenError : Type 0 where
  not_set placeholder too_short : TokenError

-- ValidateGeneralToken; `none` is a nil error.
unfoldable pub validate_general_token : Text → Option TokenError
validate_general_token raw =
    let token = trim_space raw in
    if token =? []
    then some not_set
    else if member (to_lower token) placeholder_tokens
    then some placeholder
    else if ltb (byte_len token) min_token_length
    then some too_short
    else none

pub record BucketToken : Type 0 where
  pub bucket : Text
  pub token : Text
  pub expires_at : Text

-- A time.Time: `none` is the zero time, and any other time is a number.
abbrev pub Time : Type 0
Time = Option ℕ

pub record BucketCredential : Type 0 where
  pub digest : Text
  pub expires_at : Time

abbrev pub Table : Type 0
Table = List (Text × BucketCredential)

-- table[name]
unfoldable pub find : Text → Table → Option BucketCredential
find name [] = none
find name ((n, c) ∷ t) = if n =? name then some c else find name t

-- What os.ReadFile gives: no file, another failure, or a content of which the decoder is told
-- whether it is blank.
pub data File : Type 0 where
  missing unreadable blank : File
  content : Text → File

pub data LoadError : Type 0 where
  read_failed parse_failed invalid_name short_token duplicate_bucket bad_expiry : LoadError

pub data Loaded (A : Type 0) : Type 0 where
  loaded : A → Loaded A
  refused : LoadError → Loaded A

module _ (sum256 : Text → Text) (parse_time : Text → Option Time) where
  -- The expiry of an entry: the zero time where it is unset, what is parsed, or an error.
  unfoldable pub expiry : Text → Loaded Time
  expiry raw =
      if trim_space raw =? []
      then loaded none
      else elim (parse_time (trim_space raw)) [ none ↦ refused bad_expiry | some t ↦ loaded t ]

  abbrev add_credential : Text → Text → Table → Loaded (Option ℕ) → Loaded Table
  add_credential name secret table (refused e) = refused e
  add_credential name secret table (loaded t) =
      loaded ((name, record { digest = sum256 secret; expires_at = t }) ∷ table)

  -- The body of the loop over the entries. The newest entry stands first in the table.
  unfoldable pub load_entry : BucketToken → Table → Loaded Table
  unfolding expiry
  load_entry entry table =
      let name = trim_space entry.bucket in
      let secret = trim_space entry.token in
      if not (validate name)
      then refused invalid_name
      else if ltb (byte_len secret) min_token_length
      then refused short_token
      else elim (find name table) [
        | some _ ↦ refused duplicate_bucket
        | none ↦ add_credential name secret table (expiry entry.expires_at)
      ]

  abbrev then_load : Loaded Table → (Table → Loaded Table) → Loaded Table
  then_load (refused e) k = refused e
  then_load (loaded t) k = k t

  unfoldable pub load_entries : List BucketToken → Table → Loaded Table
  load_entries [] table = loaded table
  load_entries (entry ∷ entries) table = then_load (load_entry entry table) (load_entries entries)

  abbrev installed : Loaded Table → Table × Loaded ℕ
  installed (refused e) = ([], refused e)
  installed (loaded t) = (t, loaded (length t))

  abbrev decoded : Option (List BucketToken) → Table × Loaded ℕ
  decoded none = ([], refused parse_failed)
  decoded (some entries) = installed (load_entries entries [])

  -- LoadBucketTokens: the table after it, and what it returns.
  unfoldable pub load_bucket_tokens : (Text → Option (List BucketToken)) → File → Table × Loaded ℕ
  load_bucket_tokens unmarshal missing = ([], loaded 0)
  load_bucket_tokens unmarshal unreadable = ([], refused read_failed)
  load_bucket_tokens unmarshal blank = ([], loaded 0)
  load_bucket_tokens unmarshal (content raw) = decoded (unmarshal raw)

-- The zero time never expires; otherwise now.Before(expiresAt).
abbrev pub is_live : Option ℕ → ℕ → Bool
is_live none now = true
is_live (some t) now = ltb now t

abbrev pub accepts : Option BucketCredential → Text → ℕ → Bool
accepts none got now = false
accepts (some c) got now = (got =? c.digest) && is_live c.expires_at now

-- BucketTokenMatchesAt; the comparison that an unknown bucket still makes has no effect.
unfoldable pub bucket_token_matches_at : (Text → Text) → Table → Text → Text → ℕ → Bool
unfolding find
bucket_token_matches_at sum256 table bucket secret now =
    accepts (find bucket table) (sum256 secret) now

pub record Warnings : Type 0 where
  pub expired : List Text
  pub expiring_soon : List Text

abbrev warn : ℕ → ℕ → Text → Option ℕ → Warnings → Warnings
warn now within name none w = w
warn now within name (some t) w =
    if leb t now
    then record w { expired = name ∷ w.expired }
    else if leb (t - now) within
    then record w { expiring_soon = name ∷ w.expiring_soon }
    else w

-- BucketTokenExpiryWarnings, less the sorting of the two lists.
unfoldable pub expiry_warnings : ℕ → ℕ → Table → Warnings
expiry_warnings now within [] = record { expired = []; expiring_soon = [] }
expiry_warnings now within ((name, c) ∷ t) =
    warn now within name c.expires_at (expiry_warnings now within t)

-- BucketTokenCount
unfoldable pub bucket_token_count : Table → ℕ
bucket_token_count table = length table
