-- ===== src/Examples/Fetching.antt =====
-- Uploads by URL and in batches, and reads, at a disk in memory.
use cdn.Upload.{put as put_upload, after_put}
use cdn.Archive.{put as put_in, in_scope, resolve, archive}
use cdn.Image.{
  archive_object, rewind_and_archive, archive_uploaded, upload_name, inert_content_type,
  media_type_of, open_object,
}
use cdn.Common.{ℕ, ◌+◌, ◌≡◌, ◌≢◌, refl, sym, Bool, true, false, Option, none, some, [], ◌∷◌, arith}
use cdn.Text.{
  Text, codes, ◌=?◌, trim_space, trim_left, trim_right, is_space, split, member, to_lower,
  lower_rune, trim, cut,
}
use cdn.Access.{Principal, resolve_bucket}
use cdn.Archive.Location.{NoSlash}
use cdn.ObjectKey.{
  ext, ext_from, is_image_file, sanitize_object_name, rewrite, replacement, squeeze, has_pair,
  halve_pairs, has_unsafe_object_key,
}
use cdn.Storage.{Bytes, Reader, Result, ok}
use cdn.Worker.{ℤ}
use cdn.Tiering.Served.{archived_at}
use cdn.UploadUrl.{UrlError}
use cdn.UploadChecks.{validate_image_content, has_suffix}
use cdn.UploadPayload.{
  Payload, Form, UrlRequest, created, Created, prepare_url, url_extension, read_limited,
}
use cdn.FileType.{
  get_extension_from_content_type, lookup_type, get_extension_from_url, is_valid_extension,
}
use cdn.Upload.{upload_image, upload_with_url, with_bucket, fetch_into}
use cdn.Upload.Confined.{upload_with_url_confined, upload_image_confined}
use cdn.Upload.Fetched.{FromUrl, upload_with_url_stored}
use cdn.BatchUpload.{BatchForm, batch_upload}
use cdn.BatchUpload.Writes.{batch_upload_confined}
use cdn.Dimensions.{RequestType, get_width_and_height, capped}
use cdn.Serving.{Content, sent, is_svg, get_image, asked_dimensions, serve_stream, content_type_for}
use cdn.Serving.Inert.{IsNoMarkup, get_image_inert}
use cdn.Examples.Memory.{
  Disk, memory_store, memory_s3, memory_view, memory_store-StoreLaws, memory_s3-S3Laws,
  memory_store-Uploads, same,
}
use cdn.Examples.Tiers.{photos, cat, single, disk, mirrored, content, photos-NoSlash}
use cdn.Examples.Drawing.{exact, drawing}
use cdn.Examples.Uploading.{settings, text_file}

abbrev music : Principal
music = record { scoped = true; bucket = codes "music" }

abbrev own : Text → Text
own name = []

music_resolved : resolve_bucket music [] ≡ some (codes "music")
unfolding resolve_bucket trim_space trim_left trim_right is_space ◌=?◌
music_resolved = refl

music-NoSlash : NoSlash (codes "music")
music-NoSlash = ground arith

music_named : (b : Text) → resolve_bucket music [] ≡ some b → NoSlash b
music_named b e =
    let given : codes "music" ≡ b = cc (music_resolved, e) in rw (sym given) music-NoSlash

music_differs : resolve_bucket music [] ≢ some photos
music_differs e = cc (music_resolved, e)

abbrev no_number : Text → Option ℤ
no_number s = none

abbrev fits : Bytes → Bool
fits b = true

abbrev own_form : Form
own_form = record { value = own; file = some text_file }

upload_image_confined_example :
    let w' =
      (upload_image memory_store
        (some (archive memory_s3 single))
        settings
        drawing
        exact
        fits
        (codes "r")
        no_number
        none
        music
        own_form
        disk).1 in
    (memory_view.local w' photos cat ≡ memory_view.local disk photos cat)
    × (archived_at memory_view single w' photos cat
        ≡ archived_at memory_view single disk photos cat)
upload_image_confined_example =
    upload_image_confined memory_view memory_store memory_s3 single settings memory_store-StoreLaws
      memory_s3-S3Laws drawing exact fits (codes "r") no_number none music own_form disk photos cat
      photos-NoSlash music_named music_differs

abbrev batch_form : BatchForm
batch_form = record {
  bucket = none;
  path = some (codes "2026");
  optimize = none;
  files = text_file ∷ text_file ∷ [];
}

abbrev numbered : ℕ → Text
numbered n = (n + 48) ∷ []

batch_upload_confined_example :
    let w' =
      (batch_upload memory_store
        (some (archive memory_s3 single))
        drawing
        exact
        settings
        numbered
        music
        (some batch_form)
        disk).1 in
    (memory_view.local w' photos cat ≡ memory_view.local disk photos cat)
    × (archived_at memory_view single w' photos cat
        ≡ archived_at memory_view single disk photos cat)
batch_upload_confined_example =
    batch_upload_confined memory_view memory_store memory_s3 single drawing exact settings numbered
      memory_store-StoreLaws memory_s3-S3Laws photos cat photos-NoSlash music batch_form disk
      music_named music_differs

-- Whatever is fetched is a text of five bytes.
abbrev fetch : Text → Disk → Result Reader × Disk
fetch url w = (ok (record { bytes = codes "hello"; fault = none }), w)

-- The store answers the size that it was given.
abbrev info_size : Payload → Disk → ℕ
info_size p x = p.size

abbrev plain : Bytes → Text
plain b = codes "text/plain"

abbrev any_request : UrlRequest → Bool
any_request req = true

abbrev any_url : Text → Option UrlError
any_url url = none

abbrev url_request : UrlRequest
url_request = record { bucket = []; path = []; url = codes "http://a/b"; optimize = false }

abbrev fetched : Created
fetched = record {
  size = 5;
  object_name = codes "r.txt";
  link = codes "http://cdn/music/r.txt";
  archived = archive_uploaded;
}

url_created :
    (upload_with_url memory_store
      (some (archive memory_s3 single))
      settings
      drawing
      exact
      plain
      (codes "r")
      fetch
      info_size
      any_request
      any_url
      music
      (some url_request)
      disk).0
    ≡ created fetched
unfolding upload_with_url resolve_bucket trim_space trim_left trim_right is_space ◌=?◌ with_bucket
    fetch_into read_limited prepare_url url_extension get_extension_from_content_type lookup_type
    get_extension_from_url is_valid_extension to_lower lower_rune member split
    validate_image_content is_image_file ext ext_from upload_name sanitize_object_name rewrite
    replacement squeeze has_pair halve_pairs trim put_upload after_put rewind_and_archive
    archive_object in_scope put_in resolve
url_created = refl

upload_with_url_stored_example :
    let w' =
      (upload_with_url memory_store
        (some (archive memory_s3 single))
        settings
        drawing
        exact
        plain
        (codes "r")
        fetch
        info_size
        any_request
        any_url
        music
        (some url_request)
        disk).1 in
    (bucket : Text) × (resolve_bucket music [] ≡ some bucket)
    × (content : Bytes) × (w'.held bucket (codes "r.txt") ≡ some content)
    × FromUrl memory_view memory_store memory_s3 single settings memory_store-StoreLaws
        memory_s3-S3Laws memory_store-Uploads drawing exact plain url_request fetch content
upload_with_url_stored_example =
    upload_with_url_stored memory_view memory_store memory_s3 single settings memory_store-StoreLaws
      memory_s3-S3Laws memory_store-Uploads drawing exact plain url_request fetch (codes "r")
      info_size any_request any_url music disk fetched same url_created

upload_with_url_confined_example :
    let w' =
      (upload_with_url memory_store
        (some (archive memory_s3 single))
        settings
        drawing
        exact
        plain
        (codes "r")
        fetch
        info_size
        any_request
        any_url
        music
        (some url_request)
        disk).1 in
    (memory_view.local w' photos cat ≡ memory_view.local disk photos cat)
    × (archived_at memory_view single w' photos cat
        ≡ archived_at memory_view single disk photos cat)
upload_with_url_confined_example =
    upload_with_url_confined memory_view memory_store memory_s3 single settings
      memory_store-StoreLaws memory_s3-S3Laws drawing exact plain (codes "r") fetch info_size
      any_request any_url music url_request disk photos cat same photos-NoSlash music_named
      music_differs

-- The contents are sniffed as HTML.
abbrev html : Bytes → Text
html b = codes "text/html; charset=utf-8"

abbrev no_value : RequestType → Text → Text
no_value t name = []

abbrev answered : Content
answered = record {
  content_type = codes "text/plain; charset=utf-8";
  sandboxed = false;
  no_store = false;
  body = record { bytes = content; fault = none };
}

cat_sent :
    (get_image html memory_store
      (some (archive memory_s3 single))
      drawing
      exact
      settings
      no_value
      no_number
      true
      photos
      cat
      mirrored).0
    ≡ sent answered
unfolding get_image has_unsafe_object_key split member trim_space trim_left trim_right is_space ◌=?◌
    open_object asked_dimensions is_image_file ext ext_from to_lower lower_rune get_width_and_height
    capped serve_stream content_type_for has_suffix inert_content_type media_type_of cut
cat_sent = refl

get_image_inert_example :
    IsNoMarkup html cat (media_type_of (codes "text/plain; charset=utf-8"))
    × (is_svg cat ≡ true → false ≡ true)
get_image_inert_example =
    get_image_inert html cat memory_store (some (archive memory_s3 single)) drawing exact settings
      no_value no_number true photos mirrored answered cat_sent
