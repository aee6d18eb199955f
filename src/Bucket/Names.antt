-- ===== src/Bucket/Names.antt =====
-- What a valid bucket name looks like.
use cdn.Common.{
  ℕ, suc, ◌≤◌, ◌≡◌, ◌↔◌, inl, inr, true, some, ◌∷◌, arith, Option-cases, length, All, [],
}
use cdn.Text.{Text}
use cdn.Archive.Location.{NoSlash}
use cdn.Bucket.{is_alnum, is_name_char, middle_count, validate}

abbrev pub AlnumLast : Text → Type 0
AlnumLast [] = ⊥
AlnumLast (c ∷ []) = is_alnum c ≡ true
AlnumLast (c ∷ d ∷ s) = AlnumLast (d ∷ s)

abbrev pub AlnumFirst : Text → Type 0
AlnumFirst [] = ⊥
AlnumFirst (c ∷ s) = is_alnum c ≡ true

-- The rule in the error message of the package.
pub record IsName (s : Text) : Type 0 where
  pub long : 3 ≤ length s
  pub short : length s ≤ 63
  pub chars : All (λ c. is_name_char c ≡ true) s
  pub first : AlnumFirst s
  pub last : AlnumLast s

middle_sound :
    (s : Text) (n : ℕ)
    → middle_count s ≡ some n
    → (length s ≡ suc n) × All (λ c. is_name_char c ≡ true) s × AlnumLast s
unfolding middle_count
middle_sound [] n h = absurd (cc h)
middle_sound (c ∷ []) n h = ground arith
middle_sound (c ∷ d ∷ s) n h = elim (Option-cases (middle_count (d ∷ s))) [
  | inl e ↦ absurd (ground (arith, e, h))
  | inr (m, e) ↦ ground (arith, middle_sound (d ∷ s) m e, h, e)
]

middle_complete :
    (c : ℕ) (s : Text)
    → All (λ c. is_name_char c ≡ true) (c ∷ s)
    → AlnumLast (c ∷ s)
    → middle_count (c ∷ s) ≡ some (length s)
unfolding middle_count
middle_complete c [] h l = ground arith
middle_complete c (d ∷ s) (h, hs) l = ground (arith, middle_complete d s hs l)

AlnumLast-cons : (c : ℕ) (s : Text) → AlnumLast s → AlnumLast (c ∷ s)
AlnumLast-cons c [] h = absurd h
AlnumLast-cons c (d ∷ s) h = h

validate_sound : (s : Text) → validate s ≡ true → IsName s
unfolding validate
validate_sound [] h = absurd (cc h)
validate_sound (c ∷ s) h = elim (Option-cases (middle_count s)) [
  | inl e ↦ absurd (ground (arith, e, h))
  | inr (m, e) ↦
      let (len, cs, l) = middle_sound s m e in
      record {
        long = ground (arith, len, e, h);
        short = ground (arith, len, e, h);
        chars = (ground (arith, h), cs);
        first = ground (arith, h);
        last = AlnumLast-cons c s l;
      }
]

validate_complete : (s : Text) → IsName s → validate s ≡ true
unfolding validate
validate_complete [] h = absurd h.first
validate_complete (c ∷ []) h = absurd (omega (arith, h.long))
validate_complete (c ∷ d ∷ s) h =
    ground (arith, middle_complete d s h.chars.1 h.last, h.first, h.long, h.short)

-- Validate accepts exactly the names of 3 to 63 lowercase letters, digits and dashes that begin and
-- end with a letter or a digit.
pub validate_iff : (s : Text) → (validate s ≡ true) ↔ IsName s
validate_iff s = (validate_sound s, validate_complete s)

chars-NoSlash : (s : Text) → All (λ c. is_name_char c ≡ true) s → NoSlash s
chars-NoSlash [] h = tt
chars-NoSlash (c ∷ s) (h, hs) = (ground arith, chars-NoSlash s hs)

-- A valid name has no slash, so the archive location of an object in such a bucket is its own.
pub validate-NoSlash : (s : Text) → validate s ≡ true → NoSlash s
validate-NoSlash s h = chars-NoSlash s (validate_sound s h).chars
