-- ===== src/Upload/Stored.antt =====
-- What a successful upload has stored.
use cdn.Access.{Principal, resolve_bucket}
use cdn.Upload.Steps.{IfReady, upload_image-Always}
use cdn.Validator.{FileError, validate_file_content}
use cdn.Worker.{ℤ}
use cdn.Dimensions.{Floats, get_width_and_height, forms_type}
use cdn.Imaging.{Imagick}
use cdn.Tiering.Served.Steps.{put-local}
use cdn.Storage.Actions.{if-ends}
use cdn.Common.{◌≡◌, refl, Option, some, length, ap, ◌∙◌, not, none, ℕ, sym, Bool}
use cdn.Text.{Text, codes, ◌=?◌}
use cdn.Storage.{Bytes, Error, Reader, ObjectStore, AwsService, ok}
use cdn.Storage.Documented.{View, StoreLaws, S3Laws, Uploads}
use cdn.Archive.{ArchiveConfig, archive, in_scope}
use cdn.Image.{rewind_and_archive, archive_object}
use cdn.UploadChecks.{Settings, validate_image_content}
use cdn.UploadPayload.{
  UploadReply, created, Created, Payload, all_of, Form, FormFile, prepare, ready_content,
  ready_image, processed_content,
}
use cdn.Upload.{put, after_put, upload_image}

module _ {W : Type 0} (v : View W) (s : ObjectStore W) (aws : AwsService W) (a : ArchiveConfig)
    (set : Settings) (local_laws : StoreLaws v s) (s3_laws : S3Laws v aws)
    (uploads : Uploads v s) where
  archived-local :
      (bucket object : Text) (body : Reader) (w : W) (b k : Text)
      → v.local (archive_object (some (archive aws a)) bucket object body w).1 b k ≡ v.local w b k
  unfolding archive_object
  archived-local bucket object body w b k =
      if-ends (λ x. v.local x b k ≡ v.local w b k) (not (in_scope a bucket)) _ _ w (λ _. refl)
        (λ _. put-local v aws a s3_laws bucket object body w b k)

  -- The archive's part of an upload changes no local copy.
  archive-local :
      (bucket object : Text) (seek : Option Error) (body : Reader) (w : W) (b k : Text)
      → v.local (rewind_and_archive (some (archive aws a)) bucket object seek body w).1 b k
        ≡ v.local w b k
  unfolding rewind_and_archive
  archive-local bucket object (some e) body w b k =
      if-ends (λ x. v.local x b k ≡ v.local w b k) (not (in_scope a bucket)) _ _ w (λ _. refl)
        (λ _. refl)
  archive-local bucket object none body w b k =
      if-ends (λ x. v.local x b k ≡ v.local w b k) (not (in_scope a bucket)) _ _ w (λ _. refl)
        (λ _. archived-local bucket object body w b k)

  -- A payload of bytes that have a property.
  abbrev pub Whole : (Bytes → Type 0) → Payload → Type 0
  Whole P p = (content : Bytes) × (p ≡ all_of content) × P content

  module _ (given : Text → Type 0) (Sized : ℕ → Bytes → Type 0) (P : Bytes → Type 0) where
    -- Where an upload is created, what is stored is whole and has the property, in a bucket that was
    -- given, and the size that is reported is as it should be.
    abbrev pub Holds : UploadReply × W → Type 0
    Holds o =
        (c : Created)
        → o.0 ≡ created c
        → (bucket : Text) × given bucket
          × (content : Bytes) × (v.local o.1 bucket c.object_name ≡ some content)
          × Sized c.size content
          × P content

    pub put-Holds :
        (bucket object : Text) (seek : Option Error) (size_of : Payload → W → ℕ) (p : Payload)
        (w : W)
        → ((content : Bytes) (x : W) → Sized (size_of (all_of content) x) content)
        → given bucket
        → Whole P p
        → Holds (put s (some (archive aws a)) set bucket object seek size_of p w)
    unfolding put after_put
    put-Holds bucket object seek size_of p w fits g (content, same, h) =
        rw same (go (s.put_object bucket object _ (length content) w).0 refl)
      where
        x : W
        x = (s.put_object bucket object (all_of content).reader (length content) w).1

        go :
            (e : Option Error)
            → (s.put_object bucket object (all_of content).reader (length content) w).0 ≡ e
            → Holds (
                after_put s
                  (some (archive aws a))
                  set
                  bucket
                  object
                  seek
                  (size_of (all_of content) x)
                  (all_of content)
                  e
                  x)
        go (some e) failed = λ c d. absurd (cc d)
        go none done =
            let (y, held, long, exact) = uploads.put_object_done bucket object _ _ w done in
            let same_bytes = exact refl refl in
            λ c d.
              let named : object ≡ c.object_name = cc d in
              let sized : size_of (all_of content) x ≡ c.size = cc d in
              (
                bucket,
                g,
                content,
                rw (sym named) (
                    archive-local bucket object seek _ _ bucket object ∙ held ∙ ap some same_bytes),
                rw (sym sized) (fits content x),
                h,
              )

  module _ (im : Imagick) (f : Floats) (create_file : Bytes → Bool) (atoi : Text → Option ℤ)
      (form : Form) where
    abbrev optimizes : Bool
    optimizes = form.value (codes "optimize") =? codes "true"

    abbrev asked : Bool × ℕ × ℕ
    asked = get_width_and_height (λ t name. form.value name) atoi set.max_dimension forms_type

    -- The bytes come from the file that was sent, which has passed the checks on its content.
    pub record FromFile (stored : Bytes) : Type 0 where
      pub file : FormFile
      pub body : Reader
      pub dimensions : ℕ × ℕ
      pub sent : form.file ≡ some file
      pub opened : file.opened ≡ ok body
      pub content_valid : validate_file_content set.validate set.max_file_size body.bytes ≡ none
      pub image_valid :
          validate_image_content im f set.validate file.filename body.bytes ≡ some dimensions
      pub processed :
          stored
          ≡ processed_content im f set create_file file.filename optimizes asked
              set.optimize_options dimensions.0 dimensions.1 body.bytes

    image-Whole :
        (file : FormFile) (body : Reader) (o : Option (ℕ × ℕ))
        → form.file ≡ some file
        → file.opened ≡ ok body
        → validate_file_content set.validate set.max_file_size body.bytes ≡ none
        → validate_image_content im f set.validate file.filename body.bytes ≡ o
        → IfReady
            (Whole FromFile)
            (ready_image im f set create_file file.filename optimizes asked body.bytes o)
    image-Whole file body none sent opened valid same = tt
    image-Whole file body (some (w, h)) sent opened valid same = (
      _,
      refl,
      record {
        file = file;
        body = body;
        dimensions = (w, h);
        sent = sent;
        opened = opened;
        content_valid = valid;
        image_valid = same;
        processed = refl;
      },
    )

    content-Whole :
        (file : FormFile) (body : Reader) (e : Option FileError)
        → form.file ≡ some file
        → file.opened ≡ ok body
        → validate_file_content set.validate set.max_file_size body.bytes ≡ e
        → IfReady
            (Whole FromFile)
            (ready_content im f set create_file file.filename optimizes asked body.bytes e)
    content-Whole file body (some e) sent opened same = tt
    content-Whole file body none sent opened same = image-Whole file body _ sent opened same refl

    prepare-Whole :
        (file : FormFile) (body : Reader)
        → form.file ≡ some file
        → file.opened ≡ ok body
        → body.fault ≡ none
        → IfReady (Whole FromFile) (prepare im f set create_file file optimizes asked body)
    unfolding prepare
    prepare-Whole file body sent opened sound =
        rw sound (content-Whole file body _ sent opened refl)

    -- An upload that UploadImage reports as created, of a file that could be read, is held by the
    -- local store under the name that it reports, in the bucket that the principal is given, at the
    -- size that it reports. What is held is the content of the file, optimized or resized where the
    -- form asks for that, and the content has passed the checks on files and on images.
    pub upload_image_stored :
        (random : Text) (seek : Option Error) (p : Principal) (w : W) (c : Created)
        → ((file : FormFile) (body : Reader)
            → form.file ≡ some file
            → file.opened ≡ ok body
            → body.fault ≡ none)
        → (upload_image s (some (archive aws a)) set im f create_file random atoi seek p form w).0
          ≡ created c
        → let w' =
            (upload_image s
              (some (archive aws a))
              set
              im
              f
              create_file
              random
              atoi
              seek
              p
              form
              w).1 in
          (bucket : Text) × (resolve_bucket p (form.value (codes "bucket")) ≡ some bucket)
          × (content : Bytes) × (v.local w' bucket c.object_name ≡ some content)
          × (c.size ≡ length content)
          × FromFile content
    upload_image_stored random seek p w c readable =
        let given : Text → Type 0 = λ b. resolve_bucket p (form.value (codes "bucket")) ≡ some b in
        let as_long : ℕ → Bytes → Type 0 = λ n content. n ≡ length content in
        upload_image-Always v s (some (archive aws a)) set local_laws
          (λ x. Holds given as_long FromFile) (λ e x d h. absurd (cc h)) (λ x d h. absurd (cc h))
          (λ x y o h q. q) (Whole FromFile) p im f create_file random atoi seek form
          (λ file body sent opened.
            prepare-Whole file body sent opened (readable file body sent opened))
          (λ bucket object q g h x.
            put-Holds given as_long FromFile bucket object seek _ q x (λ content y. refl) g h)
          w c
