-- ===== src/Examples/Drawing.antt =====
-- An image library that knows one image of 100 by 50, and a float arithmetic that is exact.
use native.Mathlib.Nat.{mul_comm, mul-le-mul_left, div-le_of_le-mul}
use cdn.Common.{ℕ, ◌*◌, ◌/◌, ◌≤◌, ◌<◌, ◌≡◌, refl, true, [], ◌∷◌, arith, ◌⊎◌, ◌≢◌}
use cdn.Text.{Text, codes, ◌=?◌, has_prefix, member}
use cdn.Storage.{Bytes, ok}
use cdn.Dimensions.{Floats, FloatLaws, RequestType, calculate_dimensions}
use cdn.Imaging.{
  Imagick, OptimizeOptions, is_image_data, is_resizable, get_image_info, target_dimensions, fitted,
  quality_of, finished, optimize_image,
}
use cdn.Imaging.Optimized.{ImagickLaws, optimize_image_capped}

abbrev pub exact : Floats
exact = record { times = λ t a b. t * a / b; over = λ t a b. t * b / a }

at_most : (t a b : ℕ) → a ≤ b → t * a / b ≤ t
at_most t a b le = div-le_of_le-mul b (rw (mul_comm b t) (mul-le-mul_left t le))

pub exact-FloatLaws : FloatLaws exact
exact-FloatLaws = record {
  times_le = λ t a b small p le. at_most t a b le;
  over_le = λ t a b small p le. at_most t b a le;
}

-- A wand is the extent of its image, which is also its encoding.
abbrev pub drawing : Imagick
drawing = record {
  Wand = ℕ × ℕ;
  read_image_blob = λ b. ok (100, 50);
  width = λ w. w.0;
  height = λ w. w.1;
  format = λ w. codes "PNG";
  resize_image = λ w x y. ok (x, y);
  strip_image = λ w. ok w;
  set_quality = λ w q. ok w;
  image_blob = λ w. w.0 ∷ w.1 ∷ [];
}

pub drawing-ImagickLaws : ImagickLaws drawing
drawing-ImagickLaws = record {
  resize_width = λ w w' x y h. cc h;
  resize_height = λ w w' x y h. cc h;
  strip_extent = λ w w' h. (cc h, cc h);
  quality_extent = λ w w' q h. (cc h, cc h);
  read_extent = λ content w h. positive w h;
}
  where
    positive : (w : ℕ × ℕ) → ok (100, 50) ≡ ok w → (0 < w.0) × (0 < w.1)
    positive w h =
        let wide : 100 ≡ w.0 = cc h in
        let high : 50 ≡ w.1 = cc h in (omega (arith, wide), omega (arith, high))

abbrev pub options : OptimizeOptions
options = record {
  max_dimension = 64;
  target_width = 0;
  target_height = 0;
  jpeg_quality = 85;
  png_quality = 95;
  webp_quality = 85;
  strip = true;
}

abbrev pub picture : Bytes
picture = 0x89 ∷ 0x50 ∷ 0x4E ∷ 0x47 ∷ []

abbrev pub smaller : Bytes
smaller = 64 ∷ 32 ∷ []

picture_optimized : optimize_image drawing exact picture options ≡ ok (smaller, 64, 32)
unfolding optimize_image is_resizable is_image_data has_prefix get_image_info member ◌=?◌ fitted
    target_dimensions calculate_dimensions finished quality_of
picture_optimized = refl

optimize_image_capped_example : (smaller ≡ picture) ⊎ ((64 ≤ 64) × (32 ≤ 64) × (smaller ≢ []))
optimize_image_capped_example =
    optimize_image_capped drawing exact drawing-ImagickLaws exact-FloatLaws options refl refl
      (omega arith) (omega arith) picture smaller 64 32 picture_optimized

abbrev large : RequestType → Text → Text
large t name = codes "9999"
