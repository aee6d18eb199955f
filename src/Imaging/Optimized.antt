-- ===== src/Imaging/Optimized.antt =====
-- What OptimizeImage gives back.
use cdn.Text.Laws.{=?_iff}
use cdn.Text.{◌=?◌, codes}
use cdn.Common.{
  ℕ, ◌^◌, ◌≤◌, ◌<◌, ◌≡◌, refl, Bool, true, false, ◌&&◌, ◌||◌, arith, ltb, leb, if◌then◌else◌, sym,
  ◌∙◌, ◌≢◌, ◌⊎◌, inl, inr, not, ◌==◌, Bool-cases, [],
}
use cdn.Storage.{Bytes, ok, Result, err}
use cdn.Dimensions.{Floats, FloatLaws}
use cdn.Imaging.{
  Imagick, OptimizeOptions, target_dimensions, finished, or_same, quality_of, optimized_read,
  processed, optimize_image, fitted, encoded, is_resizable,
}

-- What the service relies on in ImageMagick: a resize gives the dimensions that it is asked for, the
-- other two calls keep them, and an image that is read has an extent.
pub record ImagickLaws (im : Imagick) : Type 0 where
  pub resize_width : (w w' : im.Wand) (x y : ℕ) → im.resize_image w x y ≡ ok w' → im.width w' ≡ x
  pub resize_height : (w w' : im.Wand) (x y : ℕ) → im.resize_image w x y ≡ ok w' → im.height w' ≡ y
  pub strip_extent :
      (w w' : im.Wand)
      → im.strip_image w ≡ ok w'
      → (im.width w' ≡ im.width w) × (im.height w' ≡ im.height w)
  pub quality_extent :
      (w w' : im.Wand) (q : ℕ)
      → im.set_quality w q ≡ ok w'
      → (im.width w' ≡ im.width w) × (im.height w' ≡ im.height w)
  pub read_extent :
      (content : Bytes) (w : im.Wand)
      → im.read_image_blob content ≡ ok w
      → (0 < im.width w) × (0 < im.height w)

same_pair : (a b c d : ℕ) → (not (a == b) || not (c == d)) ≡ false → (a ≡ b) × (c ≡ d)
same_pair a b c d h = ground arith

cap_fits :
    (cap w h x y : ℕ)
    → (h ≤ w → x ≤ cap)
    → (w ≤ h → y ≤ cap)
    → 0 < cap
    → let r : ℕ × ℕ =
        if ltb 0 cap && (ltb cap w || ltb cap h)
        then (if leb h w then (cap, x) else (y, cap))
        else (w, h) in
      (r.0 ≤ cap) × (r.1 ≤ cap)
cap_fits cap w h x y hx hy positive = ground arith

-- Without explicit dimensions the target is within the cap.
target_capped :
    (f : Floats) (opts : OptimizeOptions) (w h : ℕ)
    → FloatLaws f
    → opts.target_width ≡ 0
    → opts.target_height ≡ 0
    → 0 < opts.max_dimension
    → opts.max_dimension ≤ 2 ^ 53
    → 0 < w
    → 0 < h
    → ((target_dimensions f opts w h).0 ≤ opts.max_dimension)
      × ((target_dimensions f opts w h).1 ≤ opts.max_dimension)
unfolding target_dimensions
target_capped f opts w h laws tw th capped small pw ph =
    rw (tw, th)
      (cap_fits opts.max_dimension w h (f.over opts.max_dimension w h)
        (f.times opts.max_dimension w h) (λ le. laws.over_le opts.max_dimension w h small ph le)
        (λ le. laws.times_le opts.max_dimension w h small ph le) capped)

module _ (im : Imagick) (f : Floats) (laws : ImagickLaws im) (float_laws : FloatLaws f)
    (opts : OptimizeOptions) where
  -- Within the cap, in both dimensions.
  abbrev Fits : im.Wand → Type 0
  Fits w = (im.width w ≤ opts.max_dimension) × (im.height w ≤ opts.max_dimension)

  Fits-strip :
      (w : im.Wand) (r : Result im.Wand) → im.strip_image w ≡ r → Fits w → Fits (or_same im f w r)
  Fits-strip w (err e) same fits = fits
  Fits-strip w (ok w') same fits =
      let (x, y) = laws.strip_extent w w' same in (rw x fits.0, rw y fits.1)

  Fits-quality :
      (w : im.Wand) (q : ℕ) (r : Result im.Wand)
      → im.set_quality w q ≡ r
      → Fits w
      → Fits (or_same im f w r)
  Fits-quality w q (err e) same fits = fits
  Fits-quality w q (ok w') same fits =
      let (x, y) = laws.quality_extent w w' q same in (rw x fits.0, rw y fits.1)

  Fits-if : (b : Bool) (w w' : im.Wand) → Fits w → Fits w' → Fits (if b then w else w')
  Fits-if true w w' x y = x
  Fits-if false w w' x y = y

  finished-Fits : (w : im.Wand) → Fits w → Fits (finished im f opts w)
  unfolding finished
  finished-Fits w fits =
      let stripped = if opts.strip then or_same im f w (im.strip_image w) else w in
      let fine = Fits-if opts.strip _ _ (Fits-strip w (im.strip_image w) refl fits) fits in
      Fits-if (ltb 0 (quality_of opts (im.format stripped))) _ _
        (Fits-quality stripped _ (im.set_quality stripped _) refl fine) fine

  module _ (tw : opts.target_width ≡ 0) (th : opts.target_height ≡ 0)
      (positive : 0 < opts.max_dimension) (small : opts.max_dimension ≤ 2 ^ 53) where
    fitted-Fits :
        (w w' : im.Wand) → 0 < im.width w → 0 < im.height w → fitted im f opts w ≡ ok w' → Fits w'
    unfolding fitted
    fitted-Fits w w' pw ph =
        let t = target_dimensions f opts (im.width w) (im.height w) in
        let (fx, fy) =
          target_capped f opts (im.width w) (im.height w) float_laws tw th positive small pw ph in
        elim (Bool-cases (not (t.0 == im.width w) || not (t.1 == im.height w))) [
          | inl y ↦ rw y (λ e.
              let x = laws.resize_width w w' t.0 t.1 e in
              let z = laws.resize_height w w' t.0 t.1 e in (rw x fx, rw z fy))
          | inr n ↦ rw n (λ e.
              let same : w ≡ w' = cc e in
              let (x, z) = same_pair t.0 (im.width w) t.1 (im.height w) n in
              rw (sym same) (rw (sym x) fx, rw (sym z) fy))
        ]

    -- The answer is the image as it was, or within the cap and not empty.
    abbrev Safe : Bytes → Result (Bytes × ℕ × ℕ) → Type 0
    Safe content r =
        (out : Bytes) (x y : ℕ)
        → r ≡ ok (out, x, y)
        → (out ≡ content) ⊎ ((x ≤ opts.max_dimension) × (y ≤ opts.max_dimension) × (out ≢ []))

    encoded-Safe : (content : Bytes) (w : im.Wand) → Fits w → Safe content (encoded im f w)
    encoded-Safe content w fits = elim (Bool-cases (im.image_blob w =? [])) [
      | inl y ↦ rw y (λ out a b h. absurd (cc h))
      | inr n ↦ rw n (λ out a b h. inr (
          let x : im.width w ≡ a = cc h in
          let z : im.height w ≡ b = cc h in
          let o : im.image_blob w ≡ out = cc h in
          (
            rw (sym x) fits.0,
            rw (sym z) fits.1,
            λ e. cc (n, (=?_iff (im.image_blob w) []).1 (o ∙ e)),
          )))
    ]

    processed-Safe :
        (content : Bytes) (r : Result im.Wand)
        → ((w : im.Wand) → r ≡ ok w → Fits w)
        → Safe content (processed im f opts r)
    processed-Safe content (err e) sound = λ out a b h. absurd (cc h)
    processed-Safe content (ok w) sound =
        encoded-Safe content (finished im f opts w) (finished-Fits w (sound w refl))

    read-Safe :
        (content : Bytes) (r : Result im.Wand)
        → im.read_image_blob content ≡ r
        → Safe content (optimized_read im f content opts r)
    read-Safe content (err e) same = λ out a b h. absurd (cc h)
    read-Safe content (ok w) same =
        let (pw, ph) = laws.read_extent content w same in
        elim (Bool-cases (im.format w =? codes "GIF")) [
          | inl y ↦ rw y (λ out a b h. inl (cc h))
          | inr n ↦
              rw n (processed-Safe content (fitted im f opts w) (λ w' e. fitted-Fits w w' pw ph e))
        ]

    -- With a maximum dimension and no explicit ones, whatever OptimizeImage gives back is the image
    -- as it was given, or is not empty and within the maximum in both dimensions.
    pub optimize_image_capped :
        (content out : Bytes) (x y : ℕ)
        → optimize_image im f content opts ≡ ok (out, x, y)
        → (out ≡ content) ⊎ ((x ≤ opts.max_dimension) × (y ≤ opts.max_dimension) × (out ≢ []))
    unfolding optimize_image
    optimize_image_capped content out x y = elim (Bool-cases (is_resizable im f content)) [
      | inr n ↦ rw n (λ h. inl (cc h))
      | inl k ↦ rw k (read-Safe content (im.read_image_blob content) refl out x y)
    ]
