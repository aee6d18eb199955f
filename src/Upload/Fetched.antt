-- ===== src/Upload/Fetched.antt =====
-- What a successful upload by URL has stored.
use cdn.Upload.{upload_with_url}
use cdn.Access.{Principal, resolve_bucket}
use cdn.UploadUrl.{UrlError}
use cdn.Upload.Stored.{Whole, Holds, put-Holds}
use cdn.Upload.Steps.{IfReady, upload_with_url-Always}
use cdn.Text.{Text, codes}
use cdn.Dimensions.{Floats}
use cdn.Imaging.{Imagick}
use cdn.UploadChecks.{Settings, validate_image_content}
use cdn.Archive.{ArchiveConfig, archive}
use cdn.Storage.Documented.{View, StoreLaws, S3Laws, Uploads, Same}
use cdn.UploadPayload.{Payload, url_extension, typed_content, checked_image, Created, created}
use cdn.Upload.Steps.{IfReady}
use cdn.Storage.{Result}
use cdn.Common.{
  ℕ, ◌≤◌, ◌≡◌, Option, none, some, length, leb, arith, Bool-cases, inl, inr, refl, Bool, false,
  ◌++◌, length-take,
}
use cdn.Storage.{Bytes, Error, ok, Reader, ObjectStore, AwsService, M, Result}
use cdn.UploadPayload.{read_limited, ended, UrlRequest, url_content, prepare_url, url_extension}

below : (a b : ℕ) → leb a b ≡ false → b ≤ a
below a b h = ground arith

-- What is read behind the limit is not there; what is read in front of it is all of it.
read_limited_fits :
    (max_size : ℕ) (body : Reader) (content : Bytes)
    → read_limited max_size body ≡ ok content
    → length content ≤ max_size
unfolding read_limited
read_limited_fits max_size body content = elim (Bool-cases (leb max_size (length body.bytes))) [
  | inl y ↦ rw y (λ h. rw (read_of _ _ h) (length-take max_size body.bytes))
  | inr n ↦ rw n (λ h. whole_read body.fault h n)
]
  where
    read_of : (x y : Bytes) → ok x ≡ ok y → y ≡ x
    read_of x y e = cc e

    whole_read :
        (o : Option Error)
        → ended body.bytes o ≡ ok content
        → leb max_size (length body.bytes) ≡ false
        → length content ≤ max_size
    whole_read none e n = rw (read_of _ _ e) (below max_size (length body.bytes) n)
    whole_read (some d) e n = absurd (cc e)

module _ {W : Type 0} (v : View W) (s : ObjectStore W) (aws : AwsService W) (a : ArchiveConfig)
    (set : Settings) (local_laws : StoreLaws v s) (s3_laws : S3Laws v aws) (uploads : Uploads v s)
    (im : Imagick) (f : Floats) (detect : Bytes → Text) (req : UrlRequest)
    (fetch : Text → M W (Result Reader)) where
  -- The bytes come from what the fetch of the URL gave, as far as the limit, and pass as the file type that they
  -- are stored under.
  pub record FromUrl (stored : Bytes) : Type 0 where
    pub asked : W
    pub body : Reader
    pub content : Bytes
    pub extension : Text
    pub dimensions : ℕ × ℕ
    pub fetched : (fetch req.url asked).0 ≡ ok body
    pub read : read_limited set.max_file_size body ≡ ok content
    pub limited : length content ≤ set.max_file_size
    pub processed : stored ≡ url_content im f set req.optimize content
    pub typed : url_extension im f set (detect stored) req.url ≡ some extension
    pub image_valid :
        validate_image_content im f set.validate (codes "f." ++ extension) stored ≡ some dimensions

  image-Whole :
      (x : W) (body : Reader) (content : Bytes) (extension : Text) (o : Option (ℕ × ℕ))
      → (fetch req.url x).0 ≡ ok body
      → read_limited set.max_file_size body ≡ ok content
      → let stored = url_content im f set req.optimize content in
        url_extension im f set (detect stored) req.url ≡ some extension
        → validate_image_content im f set.validate (codes "f." ++ extension) stored ≡ o
        → IfReady
            (Whole v s aws a set local_laws s3_laws uploads FromUrl)
            (checked_image im f set stored extension o).0
  image-Whole x body content extension none from read typed same = tt
  image-Whole x body content extension (some d) from read typed same = (
    _,
    refl,
    record {
      asked = x;
      body = body;
      fetched = from;
      content = content;
      extension = extension;
      dimensions = d;
      read = read;
      limited = read_limited_fits set.max_file_size body content read;
      processed = refl;
      typed = typed;
      image_valid = same;
    },
  )

  typed-Whole :
      (x : W) (body : Reader) (content : Bytes) (e : Option Text)
      → (fetch req.url x).0 ≡ ok body
      → read_limited set.max_file_size body ≡ ok content
      → let stored = url_content im f set req.optimize content in
        url_extension im f set (detect stored) req.url ≡ e
        → IfReady
            (Whole v s aws a set local_laws s3_laws uploads FromUrl)
            (typed_content im f set stored e).0
  typed-Whole x body content none from read same = tt
  typed-Whole x body content (some extension) from read same =
      image-Whole x body content extension _ from read same refl

  prepare_url-Whole :
      (x : W) (body : Reader) (content : Bytes)
      → (fetch req.url x).0 ≡ ok body
      → read_limited set.max_file_size body ≡ ok content
      → IfReady
          (Whole v s aws a set local_laws s3_laws uploads FromUrl)
          (prepare_url im f set detect req content).0
  unfolding prepare_url
  prepare_url-Whole x body content from read = typed-Whole x body content _ from read refl

  -- An upload that UploadWithUrl reports as created is held by the local store under the name that it
  -- reports, in the bucket that the principal is given. What is held is what the fetch of the
  -- request's URL gave, cut off without an error at the maximum size, optimized where that is asked
  -- for, and passes the check on images for the extension that it was given. This holds where a
  -- fetch changes neither store.
  pub upload_with_url_stored :
      (random : Text) (info_size : Payload → W → ℕ) (valid : UrlRequest → Bool)
      (check_url : Text → Option UrlError) (p : Principal) (w : W) (c : Created)
      → ((x : W) → Same v (fetch req.url x).1 x)
      → (upload_with_url s
          (some (archive aws a))
          set
          im
          f
          detect
          random
          fetch
          info_size
          valid
          check_url
          p
          (some req)
          w).0
        ≡ created c
      → let w' =
          (upload_with_url s
            (some (archive aws a))
            set
            im
            f
            detect
            random
            fetch
            info_size
            valid
            check_url
            p
            (some req)
            w).1 in
        (bucket : Text) × (resolve_bucket p req.bucket ≡ some bucket)
        × (content : Bytes) × (v.local w' bucket c.object_name ≡ some content)
        × FromUrl content
  upload_with_url_stored random info_size valid check_url p w c reads done =
      let given : Text → Type 0 = λ b. resolve_bucket p req.bucket ≡ some b in
      let any_size : ℕ → Bytes → Type 0 = λ _ _. Unit in
      let (bucket, g, content, held, _, from) =
        upload_with_url-Always v s (some (archive aws a)) set local_laws
          (λ x. Holds v s aws a set local_laws s3_laws uploads given any_size FromUrl)
          (λ e x d h. absurd (cc h)) (λ x d h. absurd (cc h)) (λ x y o h q. q)
          (Whole v s aws a set local_laws s3_laws uploads FromUrl) p im f detect random fetch
          info_size valid check_url req reads prepare_url-Whole
          (λ bucket object q g h x.
            put-Holds v s aws a set local_laws s3_laws uploads given any_size FromUrl bucket object
              none info_size q x (λ _ _. tt) g h)
          w c done in
      (bucket, g, content, held, from)
