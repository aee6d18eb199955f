-- ===== src/Dimensions/Caps.antt =====
-- The bounds on the dimensions that a request asks for.
use cdn.Common.{ℕ, ◌*◌, ◌^◌, ◌≤◌, ◌<◌, ◌≡◌, ◌↔◌, ◌⊎◌, true, ◌||◌, Option, ltb, arith, zero, suc}
use cdn.Text.{Text}
use cdn.Worker.{ℤ, pos}
use cdn.Dimensions.{RequestType, Floats, capped, get_width_and_height, ratio_width_height}

capped_le : (m n : ℕ) → 0 < m → capped (pos m) n ≤ m
unfolding capped
capped_le m n h = ground arith

-- With a positive maximum no dimension that is read from a request exceeds it, whatever the request
-- carries, and a resize is asked for if and only if one of the two is above 0.
pub get_width_and_height_bounded :
    (value : RequestType → Text → Text) (atoi : Text → Option ℤ) (max_dim : ℕ) (t : RequestType)
    → 0 < max_dim
    → let (resize, width, height) = get_width_and_height value atoi (pos max_dim) t in
      (width ≤ max_dim) × (height ≤ max_dim) × ((resize ≡ true) ↔ ((0 < width) ⊎ (0 < height)))
unfolding get_width_and_height
get_width_and_height_bounded value atoi max_dim t h =
    (capped_le max_dim _ h, capped_le max_dim _ h, asked _ _)
  where
    asked : (m n : ℕ) → ((ltb 0 m || ltb 0 n) ≡ true) ↔ ((0 < m) ⊎ (0 < n))
    asked m n = ground arith

le_mul : (n b : ℕ) → b ≤ suc n * b
le_mul n b = omega arith

-- The axis that a request leaves out is not capped: an image of the height 1 that is asked for at a
-- height above 0 and no width is made at least as wide as it is, so that its width can exceed the
-- maximum by any factor. The product of the width and the asked height is at most 2^53, for which
-- the multiplication by a whole quotient is exact.
pub ratio_unbounded :
    (f : Floats) (height bound : ℕ)
    → ((t a : ℕ) → t * a ≤ 2 ^ 53 → f.times t a 1 ≡ t * a)
    → height * bound ≤ 2 ^ 53
    → 0 < height
    → bound ≤ (ratio_width_height f bound 1 0 height).0
unfolding ratio_width_height
ratio_unbounded f zero bound exact small h = absurd (omega (arith, h))
ratio_unbounded f (suc n) bound exact small h = rw (exact (suc n) bound small) (le_mul n bound)
