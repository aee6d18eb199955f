-- ===== src/ObjectKey.antt =====
-- Object keys: HasUnsafeObjectKey, SanitizeObjectName and IsImageFile of service/util.go, and
-- normalizeObjectKey and keyFromURL of handler/archive.go.
pub mod Sanitized
pub mod Fixed
pub mod Normalized
use cdn.Common.{
  ℕ, zero, suc, ◌/◌, Bool, true, false, not, ◌&&◌, ◌||◌, Option, none, some, List, ◌∷◌, ◌++◌, ltb,
  ◌==◌, if◌then◌else◌, length, [],
}
use cdn.Text.{
  Text, codes, ◌=?◌, trim, trim_space, trim_prefix, strip_prefix, has_prefix, split, to_lower,
  member,
}

-- HasUnsafeObjectKey
unfoldable pub has_unsafe_object_key : Text → Bool
has_unsafe_object_key key =
    if trim_space key =? [] then true else member (codes "..") (split key b'/')

-- The map `replacements`: none where the rune has no entry, and otherwise the replacement.
unfoldable pub replacement : ℕ → Option Text
replacement c =
    if c == b'^' || c == b'*' || c == b'|' || c == 0x5c || c == b'&' || c == 0x22 || c == b';'
    then some []
    else if c == 0xE7
    then some (codes "c")
    else if c == 0x11F
    then some (codes "g")
    else if c == 0x131 || c == 0xEE || c == 0xEF
    then some (codes "i")
    else if c == 0xF6 || c == 0xF4
    then some (codes "o")
    else if c == 0x15F
    then some (codes "s")
    else if c == 0xFC || c == 0xFA || c == 0xF9
    then some (codes "u")
    else if c == 0xC7
    then some (codes "C")
    else if c == 0x11E
    then some (codes "G")
    else if c == 0x130
    then some (codes "I")
    else if c == 0xD6
    then some (codes "O")
    else if c == 0x15E
    then some (codes "S")
    else if c == 0xDC
    then some (codes "U")
    else if c == 0xEB || c == 0xE9 || c == 0xE8 || c == 0xEA
    then some (codes "e")
    else if c == 0xF1
    then some (codes "n")
    else if c == 0xE0 || c == 0xE1 || c == 0xE2
    then some (codes "a")
    else if c == b' ' || c == 9 || c == 10 || c == 13
    then some (codes "_")
    else none

abbrev emit : ℕ → Option Text → Text
emit c (some r) = r
emit c none = if ltb c 32 || ltb 126 c then [] else c ∷ []

-- The loop over the runes
unfoldable pub rewrite : Text → Text
unfolding replacement
rewrite [] = []
rewrite (c ∷ s) = emit c (replacement c) ++ rewrite s

-- strings.ReplaceAll(s, "__", "_"): pairs are replaced from the left.
unfoldable pub halve_pairs : Text → Text
halve_pairs [] = []
halve_pairs (c ∷ []) = c ∷ []
halve_pairs (c ∷ d ∷ s) =
    let both = halve_pairs s in
    let one = halve_pairs (d ∷ s) in if (c == b'_') && (d == b'_') then b'_' ∷ both else c ∷ one

-- strings.Contains(s, "__")
unfoldable pub has_pair : Text → Bool
has_pair [] = false
has_pair (c ∷ []) = false
has_pair (c ∷ d ∷ s) = ((c == b'_') && (d == b'_')) || has_pair (d ∷ s)

-- The loop that removes consecutive underscores, on fuel.
unfoldable pub squeeze : ℕ → Text → Text
unfolding halve_pairs has_pair
squeeze zero s = s
squeeze (suc f) s = let rest = squeeze f (halve_pairs s) in if has_pair s then rest else s

abbrev pub is_edge : ℕ → Bool
is_edge c = c == b'_' || c == b'.'

-- SanitizeObjectName; each round of the loop shortens the text, so its length is enough fuel.
unfoldable pub sanitize_object_name : Text → Text
unfolding rewrite squeeze trim
sanitize_object_name name =
    let r = rewrite name in
    let sanitized = trim is_edge (squeeze (length r) r) in
    if sanitized =? [] then codes "file" else sanitized

-- filepath.Ext: from the last dot of the last path segment on.
unfoldable pub ext_from : Text → Option Text → Text
ext_from [] none = []
ext_from [] (some e) = e
ext_from (c ∷ s) found =
    ext_from s (if c == b'/' then none else if c == b'.' then some (c ∷ s) else found)

unfoldable pub ext : Text → Text
unfolding ext_from
ext name = ext_from name none

abbrev image_extensions : List Text
image_extensions =
    codes ".jpg"
    ∷ codes ".jpeg"
    ∷ codes ".png"
    ∷ codes ".gif"
    ∷ codes ".bmp"
    ∷ codes ".tiff"
    ∷ codes ".tif"
    ∷ codes ".webp"
    ∷ codes ".svg"
    ∷ codes ".ico"
    ∷ codes ".raw"
    ∷ []

-- IsImageFile
unfoldable pub is_image_file : Text → Bool
unfolding ext to_lower member
is_image_file filename = member (to_lower (ext filename)) image_extensions

pub data KeyError : Type 0 where
  empty_reference malformed_url foreign_host other_bucket no_object_key invalid_key : KeyError

pub data Key : Type 0 where
  key : Text → Key
  bad : KeyError → Key

-- The parts of a URL that are read. url.Parse itself is a parameter; `none` is its error.
pub record Url : Type 0 where
  pub host : Text
  pub path : Text

-- The host is compared without regard to case: strings.EqualFold, exact for hosts in ASCII.
abbrev foreign : Option Url → Url → Bool
foreign none parsed = false
foreign (some app) parsed = not (app.host =? []) && not (to_lower parsed.host =? to_lower app.host)

abbrev key_in_path : Text → Text → Key
key_in_path bucket path = elim (strip_prefix (trim_prefix path (codes "/")) (bucket ++ codes "/")) [
  | none ↦ bad other_bucket
  | some k ↦ key k
]

abbrev key_from_parsed : Option Url → Text → Option Url → Key
key_from_parsed app bucket none = bad malformed_url
key_from_parsed app bucket (some parsed) =
    if foreign app parsed then bad foreign_host else key_in_path bucket parsed.path

-- keyFromURL; `app` is the parsed APP_URL.
unfoldable pub key_from_url : (Text → Option Url) → Option Url → Text → Text → Key
key_from_url parse app raw bucket = key_from_parsed app bucket (parse raw)

abbrev checked : Key → Key
checked (bad e) = bad e
checked (key value) =
    let v = trim_prefix value (codes "/") in
    if v =? []
    then bad no_object_key
    else if has_unsafe_object_key v
    then bad invalid_key
    else key v

-- normalizeObjectKey
unfoldable pub normalize_object_key : (Text → Option Url) → Option Url → Text → Text → Key
unfolding key_from_url
normalize_object_key parse app raw bucket =
    let value = trim_space raw in
    if value =? []
    then bad empty_reference
    else if has_prefix value (codes "http://") || has_prefix value (codes "https://")
    then checked (key_from_url parse app value bucket)
    else checked (key value)
