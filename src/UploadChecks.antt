-- ===== src/UploadChecks.antt =====
-- The checks that uploads share (validateImageContent, isValidSVG, maybeOptimize of handler/image.go).
use cdn.Common.{ℕ, Bool, not, ◌&&◌, ◌||◌, Option, none, some, [], ◌∷◌, if◌then◌else◌, take}
use cdn.Text.{Text, codes, ◌=?◌, has_prefix, to_lower}
use cdn.Storage.{Bytes, Result, ok, err}
use cdn.ObjectKey.{is_image_file}
use cdn.Imaging.{Imagick, OptimizeOptions, get_image_info, optimize_image}
use cdn.Dimensions.{Floats}
use cdn.Worker.{ℤ}

-- The environment's settings: VALIDATE_FILE, MAX_FILE_SIZE, MAX_BATCH_FILES, MAX_RESIZE_DIMENSION,
-- APP_URL without its last slash, and the options that OPTIMIZE_* make.
pub record Settings : Type 0 where
  pub validate : Bool
  pub max_file_size : ℕ
  pub max_batch : ℕ
  pub max_dimension : ℤ
  pub app_url : Text
  pub optimize_options : OptimizeOptions

-- bytes.Contains
unfoldable pub contains : Bytes → Bytes → Bool
contains [] t = t =? []
contains (c ∷ s) t = has_prefix (c ∷ s) t || contains s t

-- isValidSVG
unfoldable pub is_valid_svg : Bytes → Bool
is_valid_svg content = contains (to_lower (take 2048 content)) (codes "<svg")

-- strings.HasSuffix
unfoldable pub has_suffix : Text → Text → Bool
has_suffix [] t = t =? []
has_suffix (c ∷ s) t = ((c ∷ s) =? t) || has_suffix s t

module _ (im : Imagick) (f : Floats) where
  abbrev pub decoded : Bool → Result (ℕ × ℕ × Text) → Option (ℕ × ℕ)
  decoded validate (ok (w, h, format)) = some (w, h)
  decoded validate (err e) = if validate then none else some (0, 0)

  -- validateImageContent; `none` is its error.
  unfoldable pub validate_image_content : Bool → Text → Bytes → Option (ℕ × ℕ)
  validate_image_content validate filename content =
      if not (is_image_file filename)
      then some (0, 0)
      else if has_suffix (to_lower filename) (codes ".svg")
      then (if not (is_valid_svg content) && validate then none else some (0, 0))
      else decoded validate (get_image_info im f content)

  abbrev pub optimized_or : Bytes → Result (Bytes × ℕ × ℕ) → Bytes
  optimized_or content (err e) = content
  optimized_or content (ok (out, w, h)) = out

  -- maybeOptimize, less the dimensions that it reports
  unfoldable pub maybe_optimize : OptimizeOptions → Bytes → Bytes
  unfolding optimize_image
  maybe_optimize opts content = optimized_or content (optimize_image im f content opts)
