-- ===== src/Storage/Actions.antt =====
-- The state in which a conditional action ends.
use cdn.Common.{◌≡◌, refl, Bool, true, false, if◌then◌else◌}
use cdn.Storage.{M}

module _ {W A : Type 0} (Q : W → Type 0) where
  pub if-ends :
      (test : Bool) (m m' : M W A) (w : W)
      → (test ≡ true → Q (m w).1)
      → (test ≡ false → Q (m' w).1)
      → Q ((if test then m else m') w).1
  if-ends true m m' w h h' = h refl
  if-ends false m m' w h h' = h' refl

-- The state and the value in which a conditional action ends.
pub if-returns :
    {W A : Type 0} (Q : A × W → Type 0) (test : Bool) (m m' : M W A) (w : W)
    → (test ≡ true → Q (m w))
    → (test ≡ false → Q (m' w))
    → Q ((if test then m else m') w)
if-returns Q true m m' w h h' = h refl
if-returns Q false m m' w h h' = h' refl

-- A relation between states that an action may keep: nothing done keeps it, and it is kept by two
-- actions in a row that keep it.
pub record Preorder (W : Type 0) : Type 1 where
  pub related : W → W → Type 0
  pub idle : (w : W) → related w w
  pub both : {x y z : W} → related x y → related y z → related x z
