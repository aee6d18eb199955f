-- ===== src/Serving.antt =====
-- handler/image.go: what GetImage and ResizeImage serve. http.DetectContentType is a parameter, and so
-- is whether a decode slot or a place in the worker pool's queue is free. The headers with the
-- dimensions are left out.
pub mod Inert
use cdn.Validator.{FileError, validate_file_content}
use cdn.UploadPayload.{FormFile, read_all}
use cdn.Storage.{Result, ok, err, Error}
use cdn.Common.{
  ℕ, Bool, true, false, not, Option, none, some, [], if◌then◌else◌, leb, length, take, ◌||◌,
}
use cdn.Text.{Text, codes, ◌=?◌, to_lower}
use cdn.Storage.{Bytes, Reader, ObjectStore, Archive, M, ◌>>=◌, pure}
use cdn.ObjectKey.{has_unsafe_object_key, is_image_file}
use cdn.Worker.{ℤ}
use cdn.Dimensions.{RequestType, params_type, query_type, Floats, get_width_and_height}
use cdn.Imaging.{Imagick, imagick_resize}
use cdn.Image.{inert_content_type, open_object, is_found}
use cdn.UploadChecks.{Settings, has_suffix}
use cdn.UploadPayload.{whole}

-- A response with contents: `sandboxed` says that it carries the Content-Security-Policy of SVG, and
-- `no_store` that it forbids caching.
pub record Content : Type 0 where
  pub content_type : Text
  pub sandboxed : Bool
  pub no_store : Bool
  pub body : Reader

pub data ServeReply : Type 0 where
  placeholder : ServeReply
  sent : Content → ServeReply

abbrev pub is_svg : Text → Bool
is_svg object_name = has_suffix (to_lower object_name) (codes ".svg")

module _ (detect : Bytes → Text) where
  -- contentTypeFor
  unfoldable pub content_type_for : Text → Bytes → Text
  content_type_for object_name head =
      if is_svg object_name then codes "image/svg+xml" else inert_content_type (detect head)

  abbrev pub reply_with : Text → Bytes → Bool → Reader → ServeReply
  reply_with object_name head no_store body = sent (record {
    content_type = content_type_for object_name head;
    sandboxed = is_svg object_name;
    no_store = no_store;
    body = body;
  })

  -- The resize of GetImage: without a free slot the original is sent, and not to be cached.
  unfoldable pub serve_resized : Imagick → Floats → Bool → Text → Bool × ℕ × ℕ → Bytes → ServeReply
  unfolding content_type_for
  serve_resized im f slot object_name (resize, width, height) content =
      if content =? []
      then placeholder
      else if not slot
      then reply_with object_name content true (whole content)
      else reply_with object_name content false (whole (imagick_resize im f content width height))

  -- The stream of GetImage: a fault within the first 512 bytes gives the placeholder.
  unfoldable pub serve_stream : Text → Reader → ServeReply
  serve_stream object_name body =
      let head = take 512 body.bytes in
      if leb 512 (length body.bytes)
      then reply_with object_name head false body
      else elim body.fault [ some e ↦ placeholder | none ↦ reply_with object_name head false body ]

  abbrev pub serve_opened :
      Imagick → Floats → Bool → Text → Bool × ℕ × ℕ → Option (Reader × ℕ) → ServeReply
  serve_opened im f slot object_name asked none = placeholder
  serve_opened im f slot object_name (resize, width, height) (some (body, size)) =
      if resize
      then serve_resized im f slot object_name (resize, width, height) body.bytes
      else serve_stream object_name body

  -- The dimensions: those of the path, or else those of the query
  unfoldable pub asked_dimensions :
      (RequestType → Text → Text) → (Text → Option ℤ) → ℤ → Text → Bool × ℕ × ℕ
  asked_dimensions value atoi max_dim object_name =
      let by_path = get_width_and_height value atoi max_dim params_type in
      if not (is_image_file object_name)
      then (false, 0, 0)
      else if by_path.0
      then by_path
      else get_width_and_height value atoi max_dim query_type

  -- GetImage
  unfoldable pub get_image :
      {W : Type 0}
      → ObjectStore W
      → Option (Archive W)
      → Imagick
      → Floats
      → Settings
      → (RequestType → Text → Text)
      → (Text → Option ℤ)
      → Bool
      → Text
      → Text
      → M W ServeReply
  unfolding serve_resized serve_stream asked_dimensions
  get_image store a im f set value atoi slot bucket object_name =
      if has_unsafe_object_key object_name then pure placeholder else do
        found ← store.bucket_exists bucket
        if not (is_found found) then pure placeholder else do
          opened ← open_object store a bucket object_name
          pure (
              serve_opened im f slot object_name
                (asked_dimensions value atoi set.max_dimension object_name) opened)

pub data ResizeReply : Type 0 where
  file_not_found queue_full no_output : ResizeReply
  not_opened not_read : Error → ResizeReply
  invalid : FileError → ResizeReply
  image : Text → Bytes → ResizeReply

module _ (im : Imagick) (f : Floats) (detect : Bytes → Text) (set : Settings) (submitted : Bool)
    (asked : Bool × ℕ × ℕ) where
  -- processImage
  unfoldable pub process_image : Text → Bytes → Bytes
  process_image filename content =
      let (resize, width, height) = asked in
      if not (is_image_file filename) then content else imagick_resize im f content width height

  abbrev pub echo : Bytes → ResizeReply
  echo content = image (inert_content_type (detect content)) content

  -- The answer to a job that has run; no bytes are an error, whether nil or empty.
  abbrev pub answer_result : Bytes → ResizeReply
  answer_result content = if content =? [] then no_output else echo content

  abbrev pub resize_valid : Text → Bytes → ResizeReply
  resize_valid filename content =
      if not asked.0 || not (is_image_file filename)
      then echo content
      else if not submitted
      then queue_full
      else answer_result (process_image filename content)

  abbrev pub resize_checked : Text → Bytes → Option FileError → ResizeReply
  resize_checked filename content (some e) = invalid e
  resize_checked filename content none = resize_valid filename content

  abbrev pub resize_content : Text → Result Bytes → ResizeReply
  resize_content filename (err e) = not_read e
  resize_content filename (ok content) =
      resize_checked filename content (validate_file_content set.validate set.max_file_size content)

  abbrev pub resize_opened : Text → Result Reader → ResizeReply
  resize_opened filename (err e) = not_opened e
  resize_opened filename (ok body) = resize_content filename (read_all body)

  -- ResizeImage; `submitted` says whether the worker pool takes the job, which then runs.
  unfoldable pub resize_image : Option FormFile → ResizeReply
  unfolding process_image
  resize_image none = file_not_found
  resize_image (some file) = resize_opened file.filename file.opened
