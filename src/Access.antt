-- ===== src/Access.antt =====
-- Who a request acts for and which bucket it may write to: service/principal.go, CheckToken and
-- TokenValid of service/util.go, handler/bucket_context.go, and ClientIP, RateLimitKey and sanitizeKey
-- of pkg/middleware. The constant-time comparison is equality here.
pub mod Authority
pub mod Keys
use cdn.Common.{
  ℕ, Bool, true, false, not, ◌&&◌, ◌||◌, Option, none, some, List, ◌∷◌, ◌++◌, ltb, leb, ◌==◌,
  if◌then◌else◌, [], take,
}
use cdn.Text.{Text, codes, ◌=?◌, byte_len, trim_space, split, cut}
use cdn.Tokens.{Table, bucket_token_matches_at}

pub data AuthError : Type 0 where
  no_token invalid_auth_format invalid_token : AuthError

pub data Auth (A : Type 0) : Type 0 where
  granted : A → Auth A
  denied : AuthError → Auth A

pub record Principal : Type 0 where
  pub scoped : Bool
  pub bucket : Text

abbrev pub general : Principal
general = record { scoped = false; bucket = [] }

abbrev second_of_two : List Text → Auth Text
second_of_two (a ∷ b ∷ []) = granted b
second_of_two _ = denied invalid_auth_format

-- BearerToken of the Authorization header
unfoldable pub bearer_token : Text → Auth Text
bearer_token header = if header =? [] then denied no_token else second_of_two (split header b' ')

-- TokenValid; `server` is the variable TOKEN.
unfoldable pub token_valid : Text → Text → Bool
token_valid server client =
    let c = trim_space client in
    let s = trim_space server in if (c =? []) || (s =? []) then false else c =? s

abbrev check_raw : Text → Auth Text → Option AuthError
check_raw server (denied e) = some e
check_raw server (granted raw) = if token_valid server raw then none else some invalid_token

-- CheckToken
unfoldable pub check_token : Text → Text → Option AuthError
check_token server header = check_raw server (bearer_token header)

module _ (sum256 : Text → Text) (table : Table) (now : ℕ) (server : Text) where
  abbrev scoped_by : Option (Text × Text) → Auth Principal
  scoped_by none = denied invalid_token
  scoped_by (some (name, secret)) =
      if bucket_token_matches_at sum256 table name secret now
      then granted (record { scoped = true; bucket = name })
      else denied invalid_token

  abbrev resolve_raw : Auth Text → Auth Principal
  resolve_raw (denied e) = denied e
  resolve_raw (granted raw) =
      if token_valid server raw then granted general else scoped_by (cut (trim_space raw) b':')

  -- ResolvePrincipal
  unfoldable pub resolve_principal : Text → Auth Principal
  resolve_principal header = resolve_raw (bearer_token header)

-- resolveBucket; `none` is errBucketForbidden.
unfoldable pub resolve_bucket : Principal → Text → Option Text
resolve_bucket p raw =
    let requested = trim_space raw in
    if not p.scoped
    then some requested
    else if (requested =? []) || (requested =? p.bucket)
    then some p.bucket
    else none

-- ClientIP of the CF-Connecting-IP header and the peer's address
unfoldable pub client_ip : Text → Text → Text
client_ip header peer = let ip = trim_space header in if ip =? [] then peer else ip

abbrev pub key_of : Text → Auth Principal → Text
key_of ip (denied _) = ip
key_of ip (granted p) =
    if p.scoped then ip ++ codes "|bucket:" ++ p.bucket else ip ++ codes "|general"

-- RateLimitKey
unfoldable pub rate_limit_key : (Text → Text) → Table → ℕ → Text → Text → Text → Text → Text
rate_limit_key sum256 table now server header cf_ip peer =
    key_of (client_ip cf_ip peer) (resolve_principal sum256 table now server header)

-- [a-zA-Z0-9\-_\.]
abbrev pub is_key_char : ℕ → Bool
is_key_char c =
    (leb b'a' c && leb c b'z')
    || (leb b'A' c && leb c b'Z')
    || (leb b'0' c && leb c b'9')
    || c == b'-'
    || c == b'_'
    || c == b'.'

-- strings.ReplaceAll(key, " ", "-") and keyPattern.ReplaceAllString(key, "")
unfoldable pub clean : Text → Text
clean [] = []
clean (c ∷ s) =
    let rest = clean s in
    let d = if c == b' ' then b'-' else c in if is_key_char d then d ∷ rest else rest

-- sanitizeKey; what `clean` leaves is ASCII, so a byte is a code point.
unfoldable pub sanitize_key : Text → Text
unfolding clean
sanitize_key key =
    let cleaned = clean key in if ltb 512 (byte_len cleaned) then take 512 cleaned else cleaned
