-- ===== src/UploadPayload.antt =====
-- What an upload hands to the stores: the blocks of UploadImage and of UploadWithUrl in
-- handler/image.go that check and process the content of a file or of a URL.
use cdn.Common.{
  ℕ, Bool, not, ◌&&◌, Option, none, some, [], ◌++◌, ltb, leb, if◌then◌else◌, length, take,
}
use cdn.Text.{Text, codes, ◌=?◌}
use cdn.Storage.{Bytes, Error, Result, ok, err, Reader}
use cdn.FileType.{get_extension_from_content_type, get_extension_from_url, is_valid_extension}
use cdn.ObjectKey.{is_image_file}
use cdn.Validator.{FileError, validate_file_content}
use cdn.Dimensions.{Floats, ratio_width_height}
use cdn.Imaging.{Imagick, OptimizeOptions, imagick_resize}
use cdn.Image.{ArchiveNote}
use cdn.UploadUrl.{UrlError}
use cdn.UploadChecks.{Settings, validate_image_content, maybe_optimize}

-- A multipart file: `nil_file` says whether an Open that fails gives a nil multipart.File, of which
-- Close panics; `after` is what a further read delivers behind one that failed.
pub record FormFile : Type 0 where
  pub filename : Text
  pub size : ℕ
  pub opened : Result Reader
  pub nil_file : Bool
  pub after : Reader

pub record Form : Type 0 where
  pub value : Text → Text
  pub file : Option FormFile

pub record UrlRequest : Type 0 where
  pub bucket : Text
  pub path : Text
  pub url : Text
  pub optimize : Bool

pub data UploadError : Type 0 where
  file_not_found invalid_body invalid_fields forbidden bucket_required : UploadError
  invalid_url : UrlError → UploadError
  bucket_check_failed : Error → UploadError
  invalid_bucket_name bucket_not_created : UploadError
  invalid_file : FileError → UploadError
  open_failed : Error → UploadError
  extension_not_found invalid_image_content : UploadError
  fetch_failed : Error → UploadError
  read_failed : Error → UploadError
  unsupported_file_type : UploadError

-- What a successful upload answers.
pub record Created : Type 0 where
  pub size : ℕ
  pub object_name : Text
  pub link : Text
  pub archived : ArchiveNote

-- A refusal comes before the upload; a failure is that of the upload itself. A handler that panics
-- is answered by Fiber's recover middleware.
pub data UploadReply : Type 0 where
  refused : UploadError → UploadReply
  upload_failed : Error → UploadReply
  created : Created → UploadReply
  panicked : UploadReply

-- What is handed to the local store, its size, and what the archive reads after the rewind.
pub record Payload : Type 0 where
  pub reader : Reader
  pub size : ℕ
  pub rewound : Reader

abbrev pub whole : Bytes → Reader
whole content = record { bytes = content; fault = none }

abbrev pub all_of : Bytes → Payload
all_of content = record { reader = whole content; size = length content; rewound = whole content }

pub data Prepared : Type 0 where
  rejected : UploadError → Prepared
  ready : Payload → Prepared

abbrev pub ended : Bytes → Option Error → Result Bytes
ended content none = ok content
ended content (some e) = err e

-- io.ReadAll
abbrev pub read_all : Reader → Result Bytes
read_all r = ended r.bytes r.fault

-- io.ReadAll of an io.LimitReader: what lies behind the limit is not read, nor an error there.
unfoldable pub read_limited : ℕ → Reader → Result Bytes
read_limited max_size r =
    if leb max_size (length r.bytes) then ok (take max_size r.bytes) else read_all r

-- The processed bytes where a temporary file takes them, and the original ones otherwise.
abbrev pub kept_or : (Bytes → Bool) → Bytes → Bytes → Bytes
kept_or create_file original processed = if create_file processed then processed else original

module _ (im : Imagick) (f : Floats) (set : Settings) (create_file : Bytes → Bool) where
  -- The switch of UploadImage over optimize and resize, for the original width and height
  unfoldable pub processed_content :
      Text → Bool → Bool × ℕ × ℕ → OptimizeOptions → ℕ → ℕ → Bytes → Bytes
  unfolding maybe_optimize is_image_file
  processed_content filename optimize (resize, width, height) opts orj_width orj_height content =
      if optimize && is_image_file filename
      then (let opts' =
            if resize then record opts { target_width = width; target_height = height } else opts in
          kept_or create_file content (maybe_optimize im f opts' content))
      else if resize && ltb 0 orj_width && ltb 0 orj_height
      then (let (w, h) = ratio_width_height f orj_width orj_height width height in
          kept_or create_file content (imagick_resize im f content w h))
      else content

  abbrev pub ready_image : Text → Bool → Bool × ℕ × ℕ → Bytes → Option (ℕ × ℕ) → Prepared
  ready_image filename optimize asked content none = rejected invalid_image_content
  ready_image filename optimize asked content (some (w, h)) =
      ready (all_of (processed_content filename optimize asked set.optimize_options w h content))

  abbrev pub ready_content : Text → Bool → Bool × ℕ × ℕ → Bytes → Option FileError → Prepared
  ready_content filename optimize asked content (some e) = rejected (invalid_file e)
  ready_content filename optimize asked content none =
      ready_image filename optimize asked content
        (validate_image_content im f set.validate filename content)

  abbrev pub ready_read : FormFile → Bool → Bool × ℕ × ℕ → Reader → Result Bytes → Prepared
  ready_read file optimize asked body (err e) =
      ready (record { reader = file.after; size = file.size; rewound = body })
  ready_read file optimize asked body (ok content) =
      ready_content file.filename optimize asked content
        (validate_file_content set.validate set.max_file_size content)

  -- The block of UploadImage over the file's content. A file that cannot be read to its end goes past
  -- all of it.
  unfoldable pub prepare : FormFile → Bool → Bool × ℕ × ℕ → Reader → Prepared
  unfolding processed_content
  prepare file optimize asked body = ready_read file optimize asked body (read_all body)

module _ (im : Imagick) (f : Floats) (set : Settings) where
  -- The content of a URL: optimized or not, with the extension that it is stored under.
  abbrev pub url_content : Bool → Bytes → Bytes
  url_content optimize content =
      if optimize then maybe_optimize im f set.optimize_options content else content

  -- The extension, from the content type or else from the URL
  unfoldable pub url_extension : Text → Text → Option Text
  unfolding get_extension_from_content_type get_extension_from_url is_valid_extension
  url_extension content_type url =
      let extension = get_extension_from_content_type content_type in
      let named = get_extension_from_url url in
      if not (extension =? [])
      then some extension
      else if is_valid_extension named
      then some named
      else none

  abbrev pub checked_image : Bytes → Text → Option (ℕ × ℕ) → Prepared × Text
  checked_image content extension none = (rejected invalid_image_content, extension)
  checked_image content extension (some _) = (ready (all_of content), extension)

  abbrev pub typed_content : Bytes → Option Text → Prepared × Text
  typed_content content none = (rejected unsupported_file_type, [])
  typed_content content (some extension) =
      checked_image content extension
        (validate_image_content im f set.validate (codes "f." ++ extension) content)

  -- The block of UploadWithUrl over what was read, with the extension that it is stored under
  unfoldable pub prepare_url : (Bytes → Text) → UrlRequest → Bytes → Prepared × Text
  unfolding url_extension
  prepare_url detect req read =
      let content = url_content req.optimize read in
      typed_content content (url_extension (detect content) req.url)
