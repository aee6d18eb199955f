-- ===== src/Text/Trim.antt =====
-- What trimming keeps and what it takes away.
use cdn.Common.{ℕ, ◌≡◌, refl, ◌⊎◌, inl, inr, Bool, true, false, ◌∷◌, arith, All, []}
use cdn.Text.{Text, trim, trim_left, trim_right}

abbrev pub FirstNot : (ℕ → Bool) → Text → Type 0
FirstNot p [] = Unit
FirstNot p (c ∷ s) = p c ≡ false

abbrev pub LastNot : (ℕ → Bool) → Text → Type 0
LastNot p [] = Unit
LastNot p (c ∷ []) = p c ≡ false
LastNot p (c ∷ d ∷ s) = LastNot p (d ∷ s)

module _ (p : ℕ → Bool) where
  -- By the test of the first code point.
  trim_left-cases :
      (c : ℕ) (s : Text)
      → (p c ≡ true) × (trim_left p (c ∷ s) ≡ trim_left p s)
        ⊎ (p c ≡ false) × (trim_left p (c ∷ s) ≡ c ∷ s)
  unfolding trim_left
  trim_left-cases c s = ground arith

  -- What is left of the rest, and what the first code point adds to it.
  pub trim_right-cases :
      (c : ℕ) (s : Text)
      → (trim_right p s ≡ []) × (p c ≡ true) × (trim_right p (c ∷ s) ≡ [])
        ⊎ (trim_right p s ≡ []) × (p c ≡ false) × (trim_right p (c ∷ s) ≡ c ∷ [])
        ⊎ ((d : ℕ) × (t : Text) × (trim_right p s ≡ d ∷ t) × (trim_right p (c ∷ s) ≡ c ∷ d ∷ t))
  unfolding trim_right
  trim_right-cases c s = go (trim_right p s) refl
    where
      go :
          (r : Text)
          → trim_right p s ≡ r
          → (trim_right p s ≡ []) × (p c ≡ true) × (trim_right p (c ∷ s) ≡ [])
            ⊎ (trim_right p s ≡ []) × (p c ≡ false) × (trim_right p (c ∷ s) ≡ c ∷ [])
            ⊎ ((d : ℕ) × (t : Text) × (trim_right p s ≡ d ∷ t) × (trim_right p (c ∷ s) ≡ c ∷ d ∷ t))
      go [] e = ground (arith, e)
      go (d ∷ t) e = inr (inr (d, t, e, ground (arith, e)))

  pub trim_left-FirstNot : (s : Text) → FirstNot p (trim_left p s)
  trim_left-FirstNot [] = unfold trim_left in tt
  trim_left-FirstNot (c ∷ s) = elim (trim_left-cases c s) [
    | inl (_, e) ↦ rw e (trim_left-FirstNot s)
    | inr (n, e) ↦ rw e n
  ]

  pub trim_right-LastNot : (s : Text) → LastNot p (trim_right p s)
  trim_right-LastNot [] = unfold trim_right in tt
  trim_right-LastNot (c ∷ s) = elim (trim_right-cases c s) [
    | inl (_, _, e) ↦ rw e tt
    | inr (inl (_, n, e)) ↦ rw e n
    | inr (inr (d, t, r, e)) ↦ rw e (rw r at (trim_right-LastNot s))
  ]

  pub trim_right-FirstNot : (s : Text) → FirstNot p s → FirstNot p (trim_right p s)
  trim_right-FirstNot [] h = unfold trim_right in tt
  trim_right-FirstNot (c ∷ s) h = elim (trim_right-cases c s) [
    | inl (_, _, e) ↦ rw e tt
    | inr (inl (_, n, e)) ↦ rw e n
    | inr (inr (d, t, r, e)) ↦ rw e h
  ]

  module _ (P : ℕ → Type 0) where
    trim_left-All : (s : Text) → All P s → All P (trim_left p s)
    trim_left-All [] h = unfold trim_left in tt
    trim_left-All (c ∷ s) (h, hs) = elim (trim_left-cases c s) [
      | inl (_, e) ↦ rw e (trim_left-All s hs)
      | inr (n, e) ↦ rw e (h, hs)
    ]

    trim_right-All : (s : Text) → All P s → All P (trim_right p s)
    trim_right-All [] h = unfold trim_right in tt
    trim_right-All (c ∷ s) (h, hs) = elim (trim_right-cases c s) [
      | inl (_, _, e) ↦ rw e tt
      | inr (inl (_, n, e)) ↦ rw e (h, tt)
      | inr (inr (d, t, r, e)) ↦ rw e (h, (rw r at (trim_right-All s hs)))
    ]

    pub trim-All : (s : Text) → All P s → All P (trim p s)
    unfolding trim
    trim-All s h = trim_right-All (trim_left p s) (trim_left-All s h)

  pub trim_left-kept : (s : Text) → FirstNot p s → trim_left p s ≡ s
  unfolding trim_left
  trim_left-kept [] h = refl
  trim_left-kept (c ∷ s) h = rw h

  pub trim_right-kept : (s : Text) → LastNot p s → trim_right p s ≡ s
  trim_right-kept [] h = unfold trim_right in refl
  trim_right-kept (c ∷ []) h = unfold trim_right in rw h
  trim_right-kept (c ∷ d ∷ s) h = elim (trim_right-cases c (d ∷ s)) [
    | inl (e, _, _) ↦ absurd (cc (e, trim_right-kept (d ∷ s) h))
    | inr (inl (e, _, _)) ↦ absurd (cc (e, trim_right-kept (d ∷ s) h))
    | inr (inr (_, _, e, e')) ↦ cc (e, e', trim_right-kept (d ∷ s) h)
  ]

  -- A trimmed text begins and ends with no code point that is trimmed.
  pub trim_ends : (s : Text) → FirstNot p (trim p s) × LastNot p (trim p s)
  unfolding trim
  trim_ends s = (
    trim_right-FirstNot (trim_left p s) (trim_left-FirstNot s),
    trim_right-LastNot (trim_left p s),
  )
