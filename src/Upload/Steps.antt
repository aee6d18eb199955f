-- ===== src/Upload/Steps.antt =====
-- An upload step by step: what holds of a refusal that changes nothing, and of handing a payload to
-- the stores, and survives calls that change neither store, holds of the whole handler.
use cdn.UploadUrl.{UrlError}
use cdn.Worker.{ℤ}
use cdn.Access.{Principal, resolve_bucket}
use cdn.Storage.Actions.{if-returns}
use cdn.Common.{ℕ, ◌≡◌, refl, Bool, true, false, not, Option, none, some, []}
use cdn.Text.{Text, ◌=?◌, split, codes}
use cdn.Storage.{Bytes, Error, Result, ok, err, Reader, ObjectStore, Archive, M}
use cdn.Storage.Documented.{View, Same, StoreLaws}
use cdn.Bucket.{validate}
use cdn.FileType.{last_part}
use cdn.Validator.{FileError, validate_file}
use cdn.Dimensions.{Floats, get_width_and_height, forms_type}
use cdn.Imaging.{Imagick}
use cdn.UploadChecks.{Settings}
use cdn.UploadPayload.{
  panicked, FormFile, UrlRequest, UploadError, UploadReply, Payload, Prepared, refused, rejected,
  ready, prepare, prepare_url, read_limited, Form,
}
use cdn.Upload.{
  own_size, for_bucket, after_make, create_bucket, by_existence, with_bucket, put, put_prepared,
  put_named, put_opened, put_checked, upload_file, put_read, put_fetched, fetch_into,
  upload_with_url, unless_bad_url, upload_image, upload_form,
}

-- A payload that is ready has the property.
abbrev pub IfReady : (Payload → Type 0) → Prepared → Type 0
IfReady P (rejected e) = Unit
IfReady P (ready p) = P p

module _ {W : Type 0} (v : View W) (s : ObjectStore W) (a : Option (Archive W)) (set : Settings)
    (laws : StoreLaws v s) (G : W → UploadReply × W → Type 0)
    (G_refuse : (e : UploadError) (w : W) → G w (refused e, w))
    (G_panic : (w : W) → G w (panicked, w))
    (G_same : (x w : W) (o : UploadReply × W) → Same v x w → G x o → G w o) where
  -- It holds of an action wherever it begins.
  abbrev pub Always : M W UploadReply → Type 0
  Always m = (w : W) → G w (m w)

  made-Always :
      (e : Option Error) (rest : M W UploadReply) → Always rest → Always (after_make s a set e rest)
  made-Always (some e) rest h w = G_refuse _ w
  made-Always none rest h w = h w

  create-Always :
      (bucket : Text) (rest : M W UploadReply)
      → Always rest
      → Always (create_bucket s a set bucket rest)
  unfolding create_bucket
  create-Always bucket rest h w =
      if-returns (G w) (not (validate bucket)) _ _ w (λ _. G_refuse _ w)
        (λ _.
          let (e, x) = s.make_bucket bucket w in
          G_same x w _ (laws.make_bucket_reads bucket w) (made-Always e rest h x))

  existing-Always :
      (bucket : Text) (r : Result Bool) (rest : M W UploadReply)
      → Always rest
      → Always (by_existence s a set bucket r rest)
  existing-Always bucket (err e) rest h w = G_refuse _ w
  existing-Always bucket (ok true) rest h w = h w
  existing-Always bucket (ok false) rest h w = create-Always bucket rest h w

  bucket-Always :
      (bucket : Text) (rest : M W UploadReply)
      → Always rest
      → Always (with_bucket s a set bucket rest)
  unfolding with_bucket
  bucket-Always bucket rest h w =
      let (exists, x) = s.bucket_exists bucket w in
      G_same x w _ (laws.bucket_exists_reads bucket w) (existing-Always bucket exists rest h x)

  -- Only the bucket that the principal is given matters.
  for_bucket-Always :
      (o : Option Text) (rest : Text → M W UploadReply)
      → ((bucket : Text) → o ≡ some bucket → Always (rest bucket))
      → Always (for_bucket s a set o rest)
  for_bucket-Always none rest h w = G_refuse _ w
  for_bucket-Always (some bucket) rest h w =
      if-returns (G w) (bucket =? []) _ _ w (λ _. G_refuse _ w) (λ _. h bucket refl w)

  module _ (bucket : Text) (P : Payload → Type 0) (seek : Option Error) (size_of : Payload → W → ℕ)
      (G_put : (object : Text) (p : Payload)
        → P p
        → Always (put s a set bucket object seek size_of p)) where
    prepared-Always :
        (object : Text) (p : Prepared)
        → IfReady P p
        → Always (put_prepared s a set bucket object seek size_of p)
    prepared-Always object (rejected e) h w = G_refuse e w
    prepared-Always object (ready p) h w = G_put object p h w

  module _ (bucket : Text) (P : Payload → Type 0) (seek : Option Error)
      (G_put : (object : Text) (p : Payload)
        → P p
        → Always (put s a set bucket object seek (own_size s a set) p)) where
    module _ (im : Imagick) (f : Floats) (create_file : Bytes → Bool) (random : Text) (path : Text)
        (optimize : Bool) (asked : Bool × ℕ × ℕ) (file : FormFile)
        (prepared : (body : Reader)
          → file.opened ≡ ok body
          → IfReady P (prepare im f set create_file file optimize asked body)) where
      named-Always :
          (body : Reader) (e : Option Text)
          → file.opened ≡ ok body
          → Always (
              put_named s a set im f create_file random seek path optimize asked bucket file body e)
      named-Always body none same w = G_refuse _ w
      named-Always body (some e) same w =
          prepared-Always bucket P seek (own_size s a set) G_put _ _ (prepared body same) w

      opened-Always :
          (r : Result Reader)
          → file.opened ≡ r
          → Always
              (put_opened s a set im f create_file random seek path optimize asked bucket file r)
      opened-Always (err e) same w =
          if-returns (G w) file.nil_file _ _ w (λ _. G_panic w) (λ _. G_refuse _ w)
      opened-Always (ok body) same w =
          named-Always body (last_part (split file.filename b'.')) same w

      checked-Always :
          (e : Option FileError)
          → Always
              (put_checked s a set im f create_file random seek path optimize asked bucket file e)
      checked-Always (some e) w = G_refuse _ w
      checked-Always none w = opened-Always file.opened refl w

      pub upload_file-Always :
          Always (upload_file s a set im f create_file random seek path optimize asked bucket file)
      unfolding upload_file
      upload_file-Always w =
          checked-Always (validate_file set.validate set.max_file_size file.size file.filename) w

  module _ (bucket : Text) (P : Payload → Type 0) (info_size : Payload → W → ℕ)
      (G_put : (object : Text) (p : Payload)
        → P p
        → Always (put s a set bucket object none info_size p)) where
    module _ (im : Imagick) (f : Floats) (detect : Bytes → Text) (random : Text)
        (fetch : Text → M W (Result Reader)) (req : UrlRequest)
        (fetch_reads : (w : W) → Same v (fetch req.url w).1 w)
        (prepared : (x : W) (body : Reader) (content : Bytes)
          → (fetch req.url x).0 ≡ ok body
          → read_limited set.max_file_size body ≡ ok content
          → IfReady P (prepare_url im f set detect req content).0) where
      read-Always :
          (x : W) (body : Reader) (r : Result Bytes)
          → (fetch req.url x).0 ≡ ok body
          → read_limited set.max_file_size body ≡ r
          → Always (put_read s a set im f detect random fetch info_size bucket req r)
      read-Always x body (err e) from same w = G_refuse _ w
      read-Always x body (ok content) from same w =
          prepared-Always bucket P none info_size G_put _ _ (prepared x body content from same) w

      fetched-Always :
          (x : W) (r : Result Reader)
          → (fetch req.url x).0 ≡ r
          → Always (put_fetched s a set im f detect random fetch info_size bucket req r)
      fetched-Always x (err e) from w = G_refuse _ w
      fetched-Always x (ok body) from w =
          read-Always x body (read_limited set.max_file_size body) from refl w

      pub fetch_into-Always :
          Always (fetch_into s a set im f detect random fetch info_size bucket req)
      unfolding fetch_into
      fetch_into-Always w =
          let (body, x) = fetch req.url w in
          G_same x w _ (fetch_reads w) (fetched-Always w body refl x)

  module _ (P : Payload → Type 0) (p : Principal) where
    module _ (im : Imagick) (f : Floats) (create_file : Bytes → Bool) (random : Text)
        (atoi : Text → Option ℤ) (seek : Option Error) (form : Form)
        (prepared : (file : FormFile) (body : Reader)
          → form.file ≡ some file
          → file.opened ≡ ok body
          → IfReady P (
              prepare im f set create_file file
                (form.value (codes "optimize") =? codes "true")
                (get_width_and_height (λ t name. form.value name) atoi set.max_dimension forms_type)
                body))
        (G_put : (bucket object : Text) (payload : Payload)
          → resolve_bucket p (form.value (codes "bucket")) ≡ some bucket
          → P payload
          → Always (put s a set bucket object seek (own_size s a set) payload)) where
      form-Always :
          (file : Option FormFile)
          → form.file ≡ file
          → Always (upload_form s a set im f create_file random atoi seek p form file)
      form-Always none same w = G_refuse _ w
      form-Always (some file) same w =
          for_bucket-Always (resolve_bucket p (form.value (codes "bucket"))) _
            (λ bucket e. bucket-Always bucket _ (
              upload_file-Always bucket P seek (λ object q h. G_put bucket object q e h) im f
                create_file random (form.value (codes "path"))
                (form.value (codes "optimize") =? codes "true") _ file
                (λ body h. prepared file body same h)))
            w

      -- UploadImage
      pub upload_image-Always :
          Always (upload_image s a set im f create_file random atoi seek p form)
      unfolding upload_image
      upload_image-Always w = form-Always form.file refl w

    module _ (im : Imagick) (f : Floats) (detect : Bytes → Text) (random : Text)
        (fetch : Text → M W (Result Reader)) (info_size : Payload → W → ℕ)
        (valid : UrlRequest → Bool) (check_url : Text → Option UrlError) (req : UrlRequest)
        (fetch_reads : (w : W) → Same v (fetch req.url w).1 w)
        (prepared : (x : W) (body : Reader) (content : Bytes)
          → (fetch req.url x).0 ≡ ok body
          → read_limited set.max_file_size body ≡ ok content
          → IfReady P (prepare_url im f set detect req content).0)
        (G_put : (bucket object : Text) (payload : Payload)
          → resolve_bucket p req.bucket ≡ some bucket
          → P payload
          → Always (put s a set bucket object none info_size payload)) where
      good_url-Always :
          (bucket : Text) (e : Option UrlError)
          → resolve_bucket p req.bucket ≡ some bucket
          → Always (unless_bad_url s a set im f detect random fetch info_size bucket req e)
      good_url-Always bucket (some e) given w = G_refuse _ w
      good_url-Always bucket none given w =
          bucket-Always bucket _
            (fetch_into-Always bucket P info_size (λ object q h. G_put bucket object q given h) im f
              detect random fetch req fetch_reads prepared)
            w

      -- UploadWithUrl
      pub upload_with_url-Always :
          Always (
            upload_with_url s a set im f detect random fetch info_size valid check_url p (some req))
      unfolding upload_with_url
      upload_with_url-Always w =
          if-returns (G w) (not (valid req)) _ _ w (λ _. G_refuse _ w)
            (λ _.
              for_bucket-Always (resolve_bucket p req.bucket) _
                (λ bucket e. good_url-Always bucket (check_url req.url) e) w)
