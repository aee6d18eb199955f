-- ===== src/Dimensions.antt =====
-- The dimensions of an image that a request asks for: GetWidthAndHeight, RatioWidthHeight and
-- SetWidthToHeight of service/util.go, and calculateDimensions of service/imagick.go. strconv.Atoi and
-- the arithmetic on float64 are parameters.
pub mod Caps
use cdn.Common.{
  ℕ, ◌^◌, ◌≤◌, ◌<◌, Bool, not, ◌&&◌, ◌||◌, Option, none, some, [], ltb, ◌==◌, if◌then◌else◌,
}
use cdn.Text.{Text, codes, ◌=?◌}
use cdn.Worker.{ℤ, pos, negsuc}

-- Where a request may carry the dimensions.
pub data RequestType : Type 0 where
  params_type forms_type headers_type query_type : RequestType

-- uint(float64(t) * (float64(a) / float64(b))), and the same with a division by the ratio.
pub record Floats : Type 0 where
  pub times : ℕ → ℕ → ℕ → ℕ
  pub over : ℕ → ℕ → ℕ → ℕ

-- A positive integer up to 2^53 is a float64, and rounding is monotone: to multiply it by a quotient
-- of at most 1, or to divide it by one of at least 1, does not make it larger.
pub record FloatLaws (f : Floats) : Type 0 where
  pub times_le : (t a b : ℕ) → t ≤ 2 ^ 53 → 0 < b → a ≤ b → f.times t a b ≤ t
  pub over_le : (t a b : ℕ) → t ≤ 2 ^ 53 → 0 < b → b ≤ a → f.over t a b ≤ t

-- What Atoi makes of a value, and 0 where it gives an error; a negative value is floored to 0.
abbrev pub floored : Option ℤ → ℕ
floored none = 0
floored (some (pos n)) = n
floored (some (negsuc n)) = 0

-- Without a positive maximum there is no cap.
unfoldable pub capped : ℤ → ℕ → ℕ
capped (negsuc m) n = n
capped (pos m) n = if ltb 0 m && ltb m n then m else n

-- GetWidthAndHeight; `value` is what the request has under a name at each of the places.
unfoldable pub get_width_and_height :
    (RequestType → Text → Text) → (Text → Option ℤ) → ℤ → RequestType → Bool × ℕ × ℕ
unfolding capped
get_width_and_height value atoi max_dim t =
    let width = capped max_dim (floored (atoi (value t (codes "width")))) in
    let height = capped max_dim (floored (atoi (value t (codes "height")))) in
    (ltb 0 width || ltb 0 height, width, height)

-- RatioWidthHeight
unfoldable pub ratio_width_height : Floats → ℕ → ℕ → ℕ → ℕ → ℕ × ℕ
ratio_width_height f width height target_width target_height =
    let w = if target_width == 0 then f.times target_height width height else target_width in
    let h = if target_height == 0 then f.times w height width else target_height in (w, h)

-- calculateDimensions
unfoldable pub calculate_dimensions : Floats → ℕ → ℕ → ℕ → ℕ → ℕ × ℕ
calculate_dimensions f orig_width orig_height target_width target_height =
    if target_width == 0 && target_height == 0
    then (orig_width, orig_height)
    else if target_width == 0
    then (f.times target_height orig_width orig_height, target_height)
    else if target_height == 0
    then (target_width, f.over target_width orig_width orig_height)
    else (target_width, target_height)

-- SetWidthToHeight
unfoldable pub set_width_to_height : Text → Text → Text × Text
set_width_to_height width height =
    let h = if not (width =? []) && (height =? []) then width else height in
    let w = if not (h =? []) && (width =? []) then h else width in (w, h)
