-- ===== src/Validator/Content.antt =====
-- Which files are accepted.
use mathlib.Core.List.{Memᴰ}
use cdn.Common.{
  ◌≤◌, ◌≡◌, refl, ◌≢◌, true, not, List, ◌∷◌, ◌++◌, arith, ◌==◌, length, All, [], drop, all, ℕ, ◌⊎◌,
  inl, inr, none, ltb, Bool-cases,
}
use cdn.Storage.{Bytes}
use cdn.Text.{has_prefix, codes, ◌=?◌}
use cdn.Validator.{
  magic_numbers, has_magic, validate_file_content, is_valid_file_content, is_valid_utf8_text,
  is_iso_base_media,
}
use cdn.Validator.Utf8.{Sequences, is_valid_utf8_iff}

-- An ISO base media file: `ftyp` behind the four bytes of the first box's length.
abbrev pub IsMedia : Bytes → Type 0
IsMedia s = (12 ≤ length s) × ((rest : Bytes) × (drop 4 s ≡ codes "ftyp" ++ rest))

-- One of the signatures stands at the front.
abbrev pub HasSignature : Bytes → Type 0
HasSignature s = (m : Bytes) × (rest : Bytes) × Memᴰ m magic_numbers × (s ≡ m ++ rest)

-- A text without NUL.
abbrev pub IsPlainText : Bytes → Type 0
IsPlainText s = Sequences s × All (λ b. b ≢ 0) s

prefix_split : (s t : Bytes) → has_prefix s t ≡ true → (rest : Bytes) × (s ≡ t ++ rest)
unfolding has_prefix
prefix_split s [] h = (s, refl)
prefix_split [] (d ∷ t) h = absurd (cc h)
prefix_split (c ∷ s) (d ∷ t) h =
    let (rest, e) = prefix_split s t (ground (arith, h)) in
    let same : c ≡ d = ground (arith, h) in (rest, cc (same, e))

has_magic_sound :
    (ms : List Bytes) (s : Bytes)
    → has_magic ms s ≡ true
    → (m : Bytes) × (rest : Bytes) × Memᴰ m ms × (s ≡ m ++ rest)
unfolding has_magic
has_magic_sound [] s h = absurd (cc h)
has_magic_sound (m ∷ ms) s h = elim (Bool-cases (has_prefix s m)) [
  | inl y ↦ let (rest, e) = prefix_split s m y in (m, rest, Memᴰ.head refl, e)
  | inr n ↦ let (m', rest, at, e) = has_magic_sound ms s (rw n at h) in (m', rest, Memᴰ.tail at, e)
]

no_nul : (s : Bytes) → all (λ b. not (b == 0)) s ≡ true → All (λ b. b ≢ 0) s
no_nul [] h = tt
no_nul (b ∷ s) h = (ground (arith, h), no_nul s (ground (arith, h)))

is_iso_base_media_lem : (s : Bytes) → is_iso_base_media s ≡ true → IsMedia s
unfolding is_iso_base_media
is_iso_base_media_lem s h = elim (Bool-cases (ltb (length s) 12)) [
  | inl y ↦ absurd (cc (rw y at h))
  | inr n ↦ (ground (arith, n), prefix_split (drop 4 s) (codes "ftyp") (rw n at h))
]

is_valid_utf8_text_lem : (s : Bytes) → is_valid_utf8_text s ≡ true → IsPlainText s
unfolding is_valid_utf8_text ◌=?◌
is_valid_utf8_text_lem [] h = ((is_valid_utf8_iff []).0 (ground (arith, h)), tt)
is_valid_utf8_text_lem (b ∷ s) h =
    ((is_valid_utf8_iff (b ∷ s)).0 (ground (arith, h)), no_nul (b ∷ s) (ground (arith, h)))

is_valid_file_content_lem :
    (s : Bytes) → is_valid_file_content s ≡ true → IsMedia s ⊎ HasSignature s ⊎ IsPlainText s
unfolding is_valid_file_content
is_valid_file_content_lem s h = elim (Bool-cases (ltb (length s) 4)) [
  | inl y ↦ inr (inr (is_valid_utf8_text_lem s (rw y at h)))
  | inr n1 ↦ elim (Bool-cases (is_iso_base_media s)) [
    | inl y ↦ inl (is_iso_base_media_lem s y)
    | inr n2 ↦ elim (Bool-cases (has_magic magic_numbers s)) [
      | inl y ↦ inr (inl (has_magic_sound magic_numbers s y))
      | inr n3 ↦ inr (inr (is_valid_utf8_text_lem s (rw (n1, n2, n3) at h)))
    ]
  ]
]

-- With the check on, ValidateFileContent accepts only what has the greatest size at most and is an
-- ISO base media file, begins with one of the signatures, or is a text without NUL in the form of
-- UTF-8.
pub validate_file_content_sound :
    (max_size : ℕ) (s : Bytes)
    → validate_file_content true max_size s ≡ none
    → (length s ≤ max_size) × (IsMedia s ⊎ HasSignature s ⊎ IsPlainText s)
unfolding validate_file_content
validate_file_content_sound max_size s h = elim (Bool-cases (ltb max_size (length s))) [
  | inl y ↦ absurd (cc (rw y at h))
  | inr n ↦ elim (Bool-cases (is_valid_file_content s)) [
    | inr m ↦ absurd (cc (rw (n, m) at h))
    | inl y ↦ (ground (arith, n), is_valid_file_content_lem s y)
  ]
]
