-- ===== src/Bucket.antt =====
-- pkg/bucket/name.go: the names that a bucket may have.
pub mod Names
use cdn.Common.{
  ℕ, suc, Bool, false, ◌&&◌, ◌||◌, Option, none, some, ◌∷◌, leb, ◌==◌, if◌then◌else◌, [],
}
use cdn.Text.{Text}

-- [a-z0-9]
abbrev pub is_alnum : ℕ → Bool
is_alnum c = (leb b'a' c && leb c b'z') || (leb b'0' c && leb c b'9')

-- [a-z0-9-]
abbrev pub is_name_char : ℕ → Bool
is_name_char c = is_alnum c || c == b'-'

-- The number of code points before the last, if they match [a-z0-9-] and the last [a-z0-9].
unfoldable pub middle_count : Text → Option ℕ
middle_count [] = none
middle_count (c ∷ []) = if is_alnum c then some 0 else none
middle_count (c ∷ d ∷ s) =
    let rest = middle_count (d ∷ s) in
    if is_name_char c then elim rest [ none ↦ none | some n ↦ some (suc n) ] else none

abbrev in_range : Option ℕ → Bool
in_range none = false
in_range (some n) = leb 1 n && leb n 61

-- namePattern.MatchString, for ^[a-z0-9][a-z0-9-]{1,61}[a-z0-9]$
unfoldable pub matches : Text → Bool
unfolding middle_count
matches [] = false
matches (c ∷ s) = is_alnum c && in_range (middle_count s)

-- Validate; true is a nil error.
unfoldable pub validate : Text → Bool
unfolding matches
validate name = matches name
