-- ===== src/Examples/Texts.antt =====
-- Credentials, keys, names and file contents.
use mathlib.Core.List.{Memᴰ}
use cdn.Common.{◌≡◌, refl, ◌≢◌, ◌↔◌, ◌⊎◌, true, false, Option, none, some, ◌∷◌, [], ℕ}
use cdn.Access.{Principal, granted, resolve_bucket, resolve_principal, bearer_token, token_valid}
use cdn.Access.Authority.{write_authorised}
use cdn.Tokens.{
  Time, BucketToken, Table, loaded, load_entries, load_entry, load_bucket_tokens, expiry,
  bucket_token_matches_at, find, content, is_live,
}
use cdn.Tokens.Loading.{load_bucket_tokens-IsTable, IsTable, Counted}
use cdn.Tokens.Matching.{match_has_entry, loaded_entry_matches}
use cdn.Bucket.{validate, matches, middle_count}
use cdn.Bucket.Names.{validate_iff, IsName}
use cdn.ObjectKey.{
  Url, has_unsafe_object_key, normalize_object_key, key, sanitize_object_name, has_pair,
  key_from_url,
}
use cdn.ObjectKey.Sanitized.{IsClean, sanitize_object_name-IsClean}
use cdn.ObjectKey.Normalized.{normalize_object_key_sound, FromPath, FromUrl}
use cdn.Validator.{
  sequence_rest, sequence_size, is_valid_file_content, is_valid_utf8_text, is_valid_utf8,
  validate_file_content,
}
use cdn.Validator.Utf8.{is_valid_utf8_iff, Sequences}
use cdn.Text.{
  to_lower, lower_rune, Text, codes, trim_space, ◌=?◌, split, member, has_prefix, trim_prefix,
  strip_prefix, trim_left, trim_right, is_space, byte_len, cut,
}

-- A digest that is the text itself, and no time that parses.
abbrev digest : Text → Text
digest s = s

abbrev no_time : Text → Option Time
no_time s = none

abbrev secret : Text
secret = codes "0123456789abcdef0123456789abcdef"

abbrev entry : BucketToken
entry = record { bucket = codes "photos"; token = secret; expires_at = [] }

abbrev table : Table
table = (codes "photos", record { digest = secret; expires_at = none }) ∷ []

load_bucket_tokens-IsTable_example :
    let r = load_bucket_tokens digest no_time (λ _. some (entry ∷ [])) (content []) in
    IsTable digest no_time r.0 × Counted digest no_time r
load_bucket_tokens-IsTable_example =
    load_bucket_tokens-IsTable digest no_time (λ _. some (entry ∷ [])) (content [])

entry_loads : load_entries digest no_time (entry ∷ []) [] ≡ loaded table
unfolding load_entries load_entry expiry validate matches middle_count find trim_space trim_left
    trim_right is_space byte_len ◌=?◌
entry_loads = refl

entry_expiry : expiry digest no_time [] ≡ loaded none
unfolding expiry trim_space trim_left trim_right ◌=?◌
entry_expiry = refl

loaded_entry_matches_example :
    bucket_token_matches_at digest table (trim_space (codes "photos")) (trim_space secret) 7 ≡ true
loaded_entry_matches_example =
    loaded_entry_matches digest no_time (entry ∷ []) table entry none 7 entry_loads (Memᴰ.head refl)
      entry_expiry

secret_accepted : bucket_token_matches_at digest table (codes "photos") secret 7 ≡ true
unfolding bucket_token_matches_at find ◌=?◌
secret_accepted = refl

match_has_entry_example :
    (e : BucketToken) × (x : Option ℕ) × Memᴰ e (entry ∷ [])
    × (trim_space e.bucket ≡ codes "photos")
    × (digest secret ≡ digest (trim_space e.token))
    × (expiry digest no_time e.expires_at ≡ loaded x)
    × (is_live x 7 ≡ true)
match_has_entry_example =
    match_has_entry digest no_time (entry ∷ []) table (codes "photos") secret 7 entry_loads
      secret_accepted

abbrev header : Text
header = codes "Bearer photos:0123456789abcdef0123456789abcdef"

abbrev photos_only : Principal
photos_only = record { scoped = true; bucket = codes "photos" }

header_resolves : resolve_principal digest table 7 (codes "general") header ≡ granted photos_only
unfolding resolve_principal bearer_token token_valid bucket_token_matches_at find split cut
    trim_space trim_left trim_right is_space ◌=?◌
header_resolves = refl

photos_given : resolve_bucket photos_only [] ≡ some (codes "photos")
unfolding resolve_bucket trim_space trim_left trim_right is_space ◌=?◌
photos_given = refl

write_authorised_example :
    (raw : Text) × (bearer_token header ≡ granted raw)
    × ((token_valid (codes "general") raw ≡ true)
        ⊎ ((s : Text) × (cut (trim_space raw) b':' ≡ some (codes "photos", s))
            × (bucket_token_matches_at digest table (codes "photos") s 7 ≡ true)))
write_authorised_example =
    write_authorised digest table 7 (codes "general") header [] (codes "photos") photos_only
      header_resolves photos_given

validate_iff_example : (validate (codes "photos") ≡ true) ↔ IsName (codes "photos")
validate_iff_example = validate_iff (codes "photos")

sanitize_object_name-IsClean_example : IsClean (sanitize_object_name (codes "..my  photo__.png"))
sanitize_object_name-IsClean_example = sanitize_object_name-IsClean (codes "..my  photo__.png")

abbrev app_url : Url
app_url = record { host = codes "CDN"; path = [] }

abbrev cat_url : Text → Option Url
cat_url s = some (record { host = codes "cdn"; path = codes "/photos/cat.png" })

link_accepted :
    normalize_object_key cat_url (some app_url) (codes "http://cdn/photos/cat.png") (codes "photos")
    ≡ key (codes "cat.png")
unfolding normalize_object_key key_from_url has_unsafe_object_key split member has_prefix
    trim_prefix strip_prefix trim_space trim_left trim_right is_space ◌=?◌ to_lower lower_rune
link_accepted = refl

normalize_object_key_sound_example :
    (has_unsafe_object_key (codes "cat.png") ≡ false)
    × (codes "cat.png" ≢ [])
    × (FromPath cat_url
          (some app_url)
          (codes "http://cdn/photos/cat.png")
          (codes "photos")
          (codes "cat.png")
        ⊎ FromUrl cat_url
            (some app_url)
            (codes "http://cdn/photos/cat.png")
            (codes "photos")
            (codes "cat.png"))
normalize_object_key_sound_example =
    normalize_object_key_sound cat_url (some app_url) (codes "http://cdn/photos/cat.png")
      (codes "photos") (codes "cat.png") link_accepted

path-IsClean : IsClean (codes "a/../b")
unfolding has_pair
path-IsClean = record {
  some_left = λ e. cc e;
  plain = (refl, (refl, (refl, (refl, (refl, (refl, tt))))));
  single = refl;
  first = refl;
  last = refl;
}

is_valid_utf8_iff_example : (is_valid_utf8 (0xC3 ∷ 0xA9 ∷ []) ≡ true) ↔ Sequences (0xC3 ∷ 0xA9 ∷ [])
is_valid_utf8_iff_example = is_valid_utf8_iff (0xC3 ∷ 0xA9 ∷ [])

empty_valid : is_valid_utf8 [] ≡ true
unfolding is_valid_utf8
empty_valid = refl

text_accepted : validate_file_content true 10 (codes "a,b") ≡ none
unfolding validate_file_content is_valid_file_content is_valid_utf8_text is_valid_utf8 sequence_rest
    sequence_size ◌=?◌
text_accepted = refl
