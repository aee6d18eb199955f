-- ===== src/ObjectKey/Sanitized.antt =====
-- What SanitizeObjectName gives.
use cdn.Text.Trim.{trim-All, trim_ends, FirstNot, trim_right-cases, LastNot}
use cdn.Common.{
  ℕ, zero, suc, ◌≤◌, ◌<◌, ◌≡◌, refl, inl, inr, true, false, ◌∷◌, arith, Bool-cases, length, [],
  Bool, not, ◌&&◌, ◌||◌, ltb, leb, ◌==◌, All, ◌≢◌, All-append,
}
use cdn.Text.Laws.{=?_iff}
use cdn.Text.{Text, trim_right, trim_left, trim, ◌=?◌, codes}
use cdn.ObjectKey.{
  halve_pairs, has_pair, squeeze, replacement, emit, sanitize_object_name, rewrite, is_edge,
}

-- A round shortens a text that has a pair of underscores, and lengthens none.
halve_pairs-shorter :
    (s : Text)
    → (length (halve_pairs s) ≤ length s) × (has_pair s ≡ true → length (halve_pairs s) < length s)
unfolding halve_pairs has_pair
halve_pairs-shorter [] = ground arith
halve_pairs-shorter (c ∷ []) = ground arith
halve_pairs-shorter (c ∷ d ∷ s) = ground (arith, halve_pairs-shorter s, halve_pairs-shorter (d ∷ s))

-- The loop ends by its test: as many rounds as the text is long leave no pair of underscores.
squeeze-no_pair : (f : ℕ) (s : Text) → length s ≤ f → has_pair (squeeze f s) ≡ false
unfolding squeeze
squeeze-no_pair zero [] h = refl
squeeze-no_pair zero (c ∷ s) h = absurd (omega arith)
squeeze-no_pair (suc f) s h = elim (Bool-cases (has_pair s)) [
  | inr n ↦ rw n n
  | inl y ↦ rw y (squeeze-no_pair f (halve_pairs s) (omega (arith, (halve_pairs-shorter s).1 y)))
]

-- A code point that a sanitized name may have: printable ASCII, less the space and ^ * | \ & " ;
abbrev pub is_plain : ℕ → Bool
is_plain c =
    ltb 32 c
    && leb c 126
    && not (c == b'^' || c == b'*' || c == b'|' || c == 0x5c || c == b'&' || c == 0x22 || c == b';')

emit-plain : (c : ℕ) → All (λ d. is_plain d ≡ true) (emit c (replacement c))
unfolding replacement
emit-plain c = ground arith

rewrite-plain : (s : Text) → All (λ d. is_plain d ≡ true) (rewrite s)
unfolding rewrite
rewrite-plain [] = tt
rewrite-plain (c ∷ s) = All-append _ _ _ (emit-plain c) (rewrite-plain s)

halve_pairs-plain :
    (s : Text) → All (λ d. is_plain d ≡ true) s → All (λ d. is_plain d ≡ true) (halve_pairs s)
unfolding halve_pairs
halve_pairs-plain [] h = tt
halve_pairs-plain (c ∷ []) h = h
halve_pairs-plain (c ∷ d ∷ s) (hc, (hd, hs)) = elim (Bool-cases ((c == b'_') && (d == b'_'))) [
  | inl y ↦ rw y (refl, halve_pairs-plain s hs)
  | inr n ↦ rw n (hc, halve_pairs-plain (d ∷ s) (hd, hs))
]

squeeze-plain :
    (f : ℕ) (s : Text) → All (λ d. is_plain d ≡ true) s → All (λ d. is_plain d ≡ true) (squeeze f s)
unfolding squeeze
squeeze-plain zero s h = h
squeeze-plain (suc f) s h = elim (Bool-cases (has_pair s)) [
  | inr n ↦ rw n h
  | inl y ↦ rw y (squeeze-plain f (halve_pairs s) (halve_pairs-plain s h))
]

no_pair-tail : (c : ℕ) (s : Text) → has_pair (c ∷ s) ≡ false → has_pair s ≡ false
unfolding has_pair
no_pair-tail c [] h = refl
no_pair-tail c (d ∷ s) h = ground (arith, h)

no_pair-trim_left :
    (p : ℕ → Bool) (s : Text) → has_pair s ≡ false → has_pair (trim_left p s) ≡ false
unfolding trim_left
no_pair-trim_left p [] h = h
no_pair-trim_left p (c ∷ s) h = elim (Bool-cases (p c)) [
  | inl y ↦ rw y (no_pair-trim_left p s (no_pair-tail c s h))
  | inr n ↦ rw n h
]

trim_right-head :
    (p : ℕ → Bool) (s : Text) {d : ℕ} {t : Text} → trim_right p s ≡ d ∷ t → (u : Text) × (s ≡ d ∷ u)
trim_right-head p [] h = absurd (unfold trim_right in cc h)
trim_right-head p (c ∷ s) h = elim (trim_right-cases p c s) [
  | inl (_, _, e) ↦ absurd (cc (h, e))
  | inr (inl (_, _, e)) ↦ (s, cc (h, e))
  | inr (inr (_, _, _, e)) ↦ (s, cc (h, e))
]

no_pair-front :
    (c d : ℕ) (t u : Text)
    → has_pair (c ∷ d ∷ u) ≡ false
    → has_pair (d ∷ t) ≡ false
    → has_pair (c ∷ d ∷ t) ≡ false
unfolding has_pair
no_pair-front c d t u front rest = elim (Bool-cases ((c == b'_') && (d == b'_'))) [
  | inl y ↦ absurd (cc (rw y at front))
  | inr n ↦ rw n rest
]

no_pair-trim_right :
    (p : ℕ → Bool) (s : Text) → has_pair s ≡ false → has_pair (trim_right p s) ≡ false
no_pair-trim_right p [] h = unfold trim_right has_pair in refl
no_pair-trim_right p (c ∷ s) h = elim (trim_right-cases p c s) [
  | inl (_, _, e) ↦ rw e (unfold has_pair in refl)
  | inr (inl (_, _, e)) ↦ rw e (unfold has_pair in refl)
  | inr (inr (d, t, r, e)) ↦
      let (u, same) = trim_right-head p s r in
      let rest : has_pair (d ∷ t) ≡ false = rw r at (no_pair-trim_right p s (no_pair-tail c s h)) in
      let front : has_pair (c ∷ d ∷ u) ≡ false = rw same at h in
      rw e (no_pair-front c d t u front rest)
]

-- Where the result is as it should be.
pub record IsClean (s : Text) : Type 0 where
  pub some_left : s ≢ []
  pub plain : All (λ c. is_plain c ≡ true) s
  pub single : has_pair s ≡ false
  pub first : FirstNot is_edge s
  pub last : LastNot is_edge s

file-IsClean : IsClean (codes "file")
unfolding has_pair
file-IsClean = record {
  some_left = λ e. cc e;
  plain = (refl, (refl, (refl, (refl, tt))));
  single = refl;
  first = refl;
  last = refl;
}

trimmed-IsClean :
    (r : Text)
    → All (λ c. is_plain c ≡ true) r
    → has_pair r ≡ false
    → (trim is_edge r =? []) ≡ false
    → IsClean (trim is_edge r)
trimmed-IsClean r plain single left = record {
  some_left = λ e. cc (left, (=?_iff (trim is_edge r) []).1 e);
  plain = trim-All is_edge (λ c. is_plain c ≡ true) r plain;
  single = unfold trim in no_pair-trim_right is_edge _ (no_pair-trim_left is_edge r single);
  first = (trim_ends is_edge r).0;
  last = (trim_ends is_edge r).1;
}

-- SanitizeObjectName gives a text that is not empty, of printable ASCII with no space and none of
-- ^ * | \ & " ; in it, with no two underscores in a row and no underscore or dot at either end.
pub sanitize_object_name-IsClean : (name : Text) → IsClean (sanitize_object_name name)
unfolding sanitize_object_name
sanitize_object_name-IsClean name = elim (Bool-cases (trim is_edge r =? [])) [
  | inl y ↦ rw y file-IsClean
  | inr n ↦ rw n (trimmed n)
]
  where
    r : Text
    r = squeeze (length (rewrite name)) (rewrite name)

    trimmed : (trim is_edge r =? []) ≡ false → IsClean (trim is_edge r)
    trimmed n =
        trimmed-IsClean r
          (squeeze-plain (length (rewrite name)) (rewrite name) (rewrite-plain name))
          (squeeze-no_pair (length (rewrite name)) (rewrite name) (omega arith)) n
