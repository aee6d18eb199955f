-- ===== src/Imaging.antt =====
-- service/imagick.go: what the image service does with the ImageMagick library, whose wands are the
-- parameter `Imagick`. A wand is a value here: a call that changes it gives the wand that it leaves.
pub mod Optimized
use cdn.Common.{
  ℕ, Bool, false, not, ◌&&◌, ◌||◌, List, [], ◌∷◌, ltb, leb, ◌==◌, if◌then◌else◌, length,
}
use cdn.Text.{Text, codes, ◌=?◌, has_prefix, member}
use cdn.Storage.{Bytes, Result, ok, err, message, wrapped}
use cdn.Dimensions.{Floats, ratio_width_height, calculate_dimensions}

pub record Imagick : Type 1 where
  pub Wand : Type 0
  pub read_image_blob : Bytes → Result Wand
  pub width : Wand → ℕ
  pub height : Wand → ℕ
  pub format : Wand → Text
  pub resize_image : Wand → ℕ → ℕ → Result Wand
  pub strip_image : Wand → Result Wand
  pub set_quality : Wand → ℕ → Result Wand
  pub image_blob : Wand → Bytes

pub record OptimizeOptions : Type 0 where
  pub max_dimension : ℕ
  pub target_width : ℕ
  pub target_height : ℕ
  pub jpeg_quality : ℕ
  pub png_quality : ℕ
  pub webp_quality : ℕ
  pub strip : Bool

abbrev image_prefixes : List Bytes
image_prefixes =
    (0xFF ∷ 0xD8 ∷ 0xFF ∷ [])
    ∷ (0x89 ∷ 0x50 ∷ 0x4E ∷ 0x47 ∷ [])
    ∷ (0x47 ∷ 0x49 ∷ 0x46 ∷ [])
    ∷ (0x42 ∷ 0x4D ∷ [])
    ∷ (0x00 ∷ 0x00 ∷ 0x01 ∷ 0x00 ∷ [])
    ∷ (0x52 ∷ 0x49 ∷ 0x46 ∷ 0x46 ∷ [])
    ∷ []

abbrev has_any : List Bytes → Bytes → Bool
has_any [] content = false
has_any (p ∷ ps) content = has_prefix content p || has_any ps content

-- ImageService.IsImageFile, by the first bytes
unfoldable pub is_image_data : Bytes → Bool
is_image_data content = if ltb (length content) 4 then false else has_any image_prefixes content

abbrev resizable_formats : List Text
resizable_formats = codes "JPEG" ∷ codes "PNG" ∷ codes "GIF" ∷ codes "WEBP" ∷ []

-- The target dimensions of OptimizeImage for the original ones: explicit ones win over the cap.
unfoldable pub target_dimensions : Floats → OptimizeOptions → ℕ → ℕ → ℕ × ℕ
target_dimensions f opts w h =
    let cap = opts.max_dimension in
    if ltb 0 opts.target_width || ltb 0 opts.target_height
    then calculate_dimensions f w h opts.target_width opts.target_height
    else if ltb 0 cap && (ltb cap w || ltb cap h)
    then (if leb h w then (cap, f.over cap w h) else (f.times cap w h, cap))
    else (w, h)

-- The quality of a format; 0 for another.
unfoldable pub quality_of : OptimizeOptions → Text → ℕ
quality_of opts format =
    if format =? codes "JPEG"
    then opts.jpeg_quality
    else if format =? codes "PNG"
    then opts.png_quality
    else if format =? codes "WEBP"
    then opts.webp_quality
    else 0

module _ (im : Imagick) (f : Floats) where
  abbrev info_of : Result im.Wand → Result (ℕ × ℕ × Text)
  info_of (err e) = err (wrapped (codes "failed to read image") e)
  info_of (ok w) = ok (im.width w, im.height w, im.format w)

  -- GetImageInfo
  unfoldable pub get_image_info : Bytes → Result (ℕ × ℕ × Text)
  get_image_info content = info_of (im.read_image_blob content)

  abbrev format_resizable : Result (ℕ × ℕ × Text) → Bool
  format_resizable (err e) = false
  format_resizable (ok (w, h, format)) = member format resizable_formats

  -- IsResizable
  unfoldable pub is_resizable : Bytes → Bool
  unfolding get_image_info
  is_resizable content =
      if not (is_image_data content) then false else format_resizable (get_image_info content)

  -- The wand after a call whose error is only logged.
  abbrev pub or_same : im.Wand → Result im.Wand → im.Wand
  or_same w (ok w') = w'
  or_same w (err e) = w

  abbrev pub or_original : Bytes → Result im.Wand → Bytes
  or_original image (err e) = image
  or_original image (ok w) = im.image_blob w

  abbrev pub with_quality : ℕ → Result im.Wand → Result im.Wand
  with_quality q (err e) = err e
  with_quality q (ok w) = im.set_quality w q

  abbrev pub resized_read : ℕ → ℕ → Result im.Wand → Result im.Wand
  resized_read target_width target_height (err e) = err e
  resized_read target_width target_height (ok w) =
      let (tw, th) = ratio_width_height f (im.width w) (im.height w) target_width target_height in
      with_quality 95 (im.resize_image w tw th)

  -- ImagickResize: on any error, the image as it was given.
  unfoldable pub imagick_resize : Bytes → ℕ → ℕ → Bytes
  unfolding ratio_width_height
  imagick_resize image target_width target_height =
      or_original image (resized_read target_width target_height (im.read_image_blob image))

  -- The resize of OptimizeImage, where the dimensions change.
  unfoldable pub fitted : OptimizeOptions → im.Wand → Result im.Wand
  fitted opts w =
      let (nw, nh) = target_dimensions f opts (im.width w) (im.height w) in
      if not (nw == im.width w) || not (nh == im.height w) then im.resize_image w nw nh else ok w

  -- The end of OptimizeImage: metadata and quality, whose errors are only logged.
  unfoldable pub finished : OptimizeOptions → im.Wand → im.Wand
  unfolding quality_of
  finished opts w =
      let stripped = if opts.strip then or_same w (im.strip_image w) else w in
      let quality = quality_of opts (im.format stripped) in
      if ltb 0 quality then or_same stripped (im.set_quality stripped quality) else stripped

  abbrev pub encoded : im.Wand → Result (Bytes × ℕ × ℕ)
  encoded w =
      if im.image_blob w =? []
      then err (message (codes "failed to get processed image data"))
      else ok (im.image_blob w, im.width w, im.height w)

  abbrev pub processed : OptimizeOptions → Result im.Wand → Result (Bytes × ℕ × ℕ)
  processed opts (err e) = err (wrapped (codes "failed to resize image") e)
  processed opts (ok w) = encoded (finished opts w)

  abbrev pub optimized_read : Bytes → OptimizeOptions → Result im.Wand → Result (Bytes × ℕ × ℕ)
  optimized_read content opts (err e) = err (wrapped (codes "failed to read image data") e)
  optimized_read content opts (ok w) =
      if im.format w =? codes "GIF"
      then ok (content, im.width w, im.height w)
      else processed opts (fitted opts w)

  -- OptimizeImage
  unfoldable pub optimize_image : Bytes → OptimizeOptions → Result (Bytes × ℕ × ℕ)
  optimize_image content opts =
      if not (is_resizable content)
      then ok (content, 0, 0)
      else optimized_read content opts (im.read_image_blob content)

  abbrev resized_bytes : Result im.Wand → Result Bytes
  resized_bytes (err e) = err (wrapped (codes "failed to resize image") e)
  resized_bytes (ok w) =
      if im.image_blob w =? []
      then err (message (codes "failed to get resized image data"))
      else ok (im.image_blob w)

  abbrev resize_read : ℕ → ℕ → Result im.Wand → Result Bytes
  resize_read width height (err e) = err (wrapped (codes "failed to read image data") e)
  resize_read width height (ok w) =
      let (tw, th) = calculate_dimensions f (im.width w) (im.height w) width height in
      resized_bytes (im.resize_image w tw th)

  -- ImageService.ResizeImage
  unfoldable pub resize_image : Bytes → ℕ → ℕ → Result Bytes
  unfolding calculate_dimensions
  resize_image content width height =
      if not (is_resizable content)
      then err (message (codes "file is not a resizable image"))
      else resize_read width height (im.read_image_blob content)
