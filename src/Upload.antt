-- ===== src/Upload.antt =====
-- handler/image.go: the uploads of one file and of a URL (UploadImage, UploadWithUrl). A request is
-- the values and the file that the handler reads and the principal that was resolved for it. Random
-- names, temporary files, http.DetectContentType, HTTP and ImageMagick are parameters; the slots that
-- bound concurrent decodes, the content types and the response's headers are left out.
pub mod Steps
pub mod Confined
pub mod Refused
pub mod Stored
pub mod Fetched
use cdn.Common.{ℕ, Bool, true, false, not, Option, none, some, [], ◌++◌, if◌then◌else◌, ◌/◌}
use cdn.Text.{Text, codes, ◌=?◌, split}
use cdn.Storage.{Bytes, Error, Result, ok, err, Reader, ObjectStore, Archive, M, ◌>>=◌, pure}
use cdn.Access.{Principal, resolve_bucket}
use cdn.Bucket.{validate}
use cdn.Worker.{ℤ}
use cdn.FileType.{last_part}
use cdn.Validator.{FileError, validate_file}
use cdn.Dimensions.{forms_type, Floats, get_width_and_height}
use cdn.Imaging.{Imagick}
use cdn.Image.{ArchiveNote, rewind_and_archive, upload_name}
use cdn.UploadUrl.{UrlError}
use cdn.UploadChecks.{Settings}
use cdn.UploadPayload.{
  FormFile, Form, UrlRequest, UploadError, UploadReply, Payload, Prepared, refused, upload_failed,
  created, panicked, rejected, ready, file_not_found, invalid_body, invalid_fields, forbidden,
  bucket_required, invalid_url, bucket_check_failed, invalid_bucket_name, bucket_not_created,
  invalid_file, open_failed, extension_not_found, fetch_failed, read_failed, prepare, prepare_url,
  read_limited,
}

module _ {W : Type 0} (store : ObjectStore W) (a : Option (Archive W)) (set : Settings) where
  abbrev pub refuse : UploadError → M W UploadReply
  refuse e = pure (refused e)

  -- By the bucket that the principal is given.
  abbrev pub for_bucket : Option Text → (Text → M W UploadReply) → M W UploadReply
  for_bucket none rest = refuse forbidden
  for_bucket (some bucket) rest = if bucket =? [] then refuse bucket_required else rest bucket

  abbrev pub after_make : Option Error → M W UploadReply → M W UploadReply
  after_make (some e) rest = refuse bucket_not_created
  after_make none rest = rest

  unfoldable pub create_bucket : Text → M W UploadReply → M W UploadReply
  create_bucket bucket rest =
      if not (validate bucket)
      then refuse invalid_bucket_name
      else do e ← store.make_bucket bucket; after_make e rest

  abbrev pub by_existence : Text → Result Bool → M W UploadReply → M W UploadReply
  by_existence bucket (err e) rest = refuse (bucket_check_failed e)
  by_existence bucket (ok true) rest = rest
  by_existence bucket (ok false) rest = create_bucket bucket rest

  -- The bucket exists, or is created where its name is valid, before the rest goes on.
  unfoldable pub with_bucket : Text → M W UploadReply → M W UploadReply
  with_bucket bucket rest = do exists ← store.bucket_exists bucket; by_existence bucket exists rest

  abbrev pub noted : Text → Text → ℕ → ArchiveNote → UploadReply
  noted bucket object size note = created (record {
    size = size;
    object_name = object;
    link = set.app_url ++ codes "/" ++ bucket ++ codes "/" ++ object;
    archived = note;
  })

  -- The end of an upload, by the error of PutObject; `seek` is the error of the rewind, and
  -- `size` is what the reply reports.
  unfoldable pub after_put :
      Text → Text → Option Error → ℕ → Payload → Option Error → M W UploadReply
  unfolding rewind_and_archive
  after_put bucket object seek size p (some e) = pure (upload_failed e)
  after_put bucket object seek size p none = do
    note ← rewind_and_archive a bucket object seek p.rewound
    pure (noted bucket object size note)

  -- PutObject and what follows it. The reported size is that of the payload in UploadImage, and that
  -- of the UploadInfo of the store, by the state behind the upload, in UploadWithUrl.
  unfoldable pub put : Text → Text → Option Error → (Payload → W → ℕ) → Payload → M W UploadReply
  put bucket object seek size_of p w =
      let (e, x) = store.put_object bucket object p.reader p.size w in
      after_put bucket object seek (size_of p x) p e x

  abbrev pub put_prepared :
      Text → Text → Option Error → (Payload → W → ℕ) → Prepared → M W UploadReply
  put_prepared bucket object seek size_of (rejected e) = refuse e
  put_prepared bucket object seek size_of (ready p) = put bucket object seek size_of p

  -- The size that UploadImage reports.
  abbrev pub own_size : Payload → W → ℕ
  own_size p x = p.size

  module _ (im : Imagick) (f : Floats) (create_file : Bytes → Bool) (random : Text) where
    module _ (seek : Option Error) (path : Text) (optimize : Bool) (asked : Bool × ℕ × ℕ) where
      abbrev pub put_named : Text → FormFile → Reader → Option Text → M W UploadReply
      put_named bucket file body none = refuse extension_not_found
      put_named bucket file body (some extension) =
          put_prepared bucket (upload_name random extension path) seek own_size
            (prepare im f set create_file file optimize asked body)

      abbrev pub put_opened : Text → FormFile → Result Reader → M W UploadReply
      put_opened bucket file (err e) =
          if file.nil_file then pure panicked else refuse (open_failed e)
      put_opened bucket file (ok body) =
          put_named bucket file body (last_part (split file.filename b'.'))

      abbrev pub put_checked : Text → FormFile → Option FileError → M W UploadReply
      put_checked bucket file (some e) = refuse (invalid_file e)
      put_checked bucket file none = put_opened bucket file file.opened

      -- UploadImage in a bucket that exists
      unfoldable pub upload_file : Text → FormFile → M W UploadReply
      unfolding prepare
      upload_file bucket file =
          put_checked bucket file
            (validate_file set.validate set.max_file_size file.size file.filename)

    abbrev pub upload_form :
        (Text → Option ℤ) → Option Error → Principal → Form → Option FormFile → M W UploadReply
    upload_form atoi seek p form none = refuse file_not_found
    upload_form atoi seek p form (some file) =
        for_bucket (resolve_bucket p (form.value (codes "bucket"))) (λ bucket. with_bucket bucket (
          upload_file seek (form.value (codes "path"))
            (form.value (codes "optimize") =? codes "true")
            (get_width_and_height (λ t name. form.value name) atoi set.max_dimension forms_type)
            bucket file))

    -- UploadImage
    unfoldable pub upload_image :
        (Text → Option ℤ) → Option Error → Principal → Form → M W UploadReply
    upload_image atoi seek p form = upload_form atoi seek p form form.file

  module _ (im : Imagick) (f : Floats) (detect : Bytes → Text) (random : Text)
      (fetch : Text → M W (Result Reader)) (info_size : Payload → W → ℕ) where
    abbrev pub put_url : Text → UrlRequest → Prepared × Text → M W UploadReply
    put_url bucket req (p, extension) =
        put_prepared bucket (upload_name random extension req.path) none info_size p

    abbrev pub put_read : Text → UrlRequest → Result Bytes → M W UploadReply
    put_read bucket req (err e) = refuse (read_failed e)
    put_read bucket req (ok content) = put_url bucket req (prepare_url im f set detect req content)

    abbrev pub put_fetched : Text → UrlRequest → Result Reader → M W UploadReply
    put_fetched bucket req (err e) = refuse (fetch_failed e)
    put_fetched bucket req (ok body) = put_read bucket req (read_limited set.max_file_size body)

    unfoldable pub fetch_into : Text → UrlRequest → M W UploadReply
    unfolding prepare_url read_limited
    fetch_into bucket req = do body ← fetch req.url; put_fetched bucket req body

    abbrev pub unless_bad_url : Text → UrlRequest → Option UrlError → M W UploadReply
    unless_bad_url bucket req (some e) = refuse (invalid_url e)
    unless_bad_url bucket req none = with_bucket bucket (fetch_into bucket req)

    -- UploadWithUrl: the parsed body, the answers of ValidateStruct and ValidateUploadURL
    unfoldable pub upload_with_url :
        (UrlRequest → Bool)
        → (Text → Option UrlError)
        → Principal
        → Option UrlRequest
        → M W UploadReply
    upload_with_url valid check_url p none = refuse invalid_body
    upload_with_url valid check_url p (some req) =
        if not (valid req)
        then refuse invalid_fields
        else for_bucket (resolve_bucket p req.bucket)
            (λ bucket. unless_bad_url bucket req (check_url req.url))
