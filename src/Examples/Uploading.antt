-- ===== src/Examples/Uploading.antt =====
-- Uploads to a disk in memory.
use cdn.Upload.{put as put_upload, after_put}
use cdn.Archive.{put as put_in, in_scope, resolve}
use cdn.Image.{archive_object, rewind_and_archive}
use cdn.Upload.Stored.{FromFile, upload_image_stored}
use cdn.Examples.Memory.{memory_store-Uploads, memory_s3-S3Laws}
use cdn.Validator.{
  is_valid_utf8_text, is_valid_utf8, utf8_rounds, sequence_size, sequence_rest, continued,
  is_iso_base_media, has_magic,
}
use cdn.Dimensions.{get_width_and_height, capped}
use cdn.Text.{has_prefix, trim}
use cdn.Common.{◌≡◌, refl, Bool, true, Option, none, some, [], if◌then◌else◌, length, false}
use cdn.Text.{
  Text, codes, ◌=?◌, trim_space, trim_left, trim_right, is_space, split, member, to_lower,
  lower_rune,
}
use cdn.Access.{Principal, general, resolve_bucket}
use cdn.ObjectKey.{
  ext, ext_from, is_image_file, sanitize_object_name, rewrite, replacement, squeeze, has_pair,
  halve_pairs,
}
use cdn.Storage.{Bytes, ok, Reader}
use cdn.Storage.Documented.{Same}
use cdn.Worker.{ℤ, pos}
use cdn.Image.{archive_uploaded, upload_name}
use cdn.Validator.{validate_file, validate_file_content, is_valid_file_content}
use cdn.UploadChecks.{Settings, validate_image_content}
use cdn.UploadPayload.{
  FormFile, Form, refused, created, Created, forbidden, prepare, processed_content,
}
use cdn.Upload.{upload_image, with_bucket, upload_file}
use cdn.Upload.Refused.{upload_image_refused}
use cdn.Archive.{archive}
use cdn.Examples.Memory.{memory_store, memory_s3, memory_view, memory_store-StoreLaws}
use cdn.Examples.Tiers.{photos, single, disk}
use cdn.Examples.Drawing.{exact, drawing, options}

abbrev pub settings : Settings
settings = record {
  validate = true;
  max_file_size = 1000;
  max_batch = 10;
  max_dimension = pos 4096;
  app_url = codes "http://cdn";
  optimize_options = options;
}

abbrev pub text_file : FormFile
text_file = record {
  filename = codes "a.csv";
  size = 5;
  opened = ok (record { bytes = codes "a,b,c"; fault = none });
  nil_file = false;
  after = record { bytes = []; fault = none };
}

abbrev for_photos : Text → Text
for_photos name = if name =? codes "bucket" then photos else []

abbrev form : Form
form = record { value = for_photos; file = some text_file }

abbrev no_number : Text → Option ℤ
no_number s = none

abbrev fits : Bytes → Bool
fits b = true

abbrev music : Principal
music = record { scoped = true; bucket = codes "music" }

-- A token of bucket music names bucket photos.
music_refused :
    (upload_image memory_store
      (some (archive memory_s3 single))
      settings
      drawing
      exact
      fits
      (codes "r")
      no_number
      none
      music
      form
      disk).0
    ≡ refused forbidden
unfolding upload_image resolve_bucket trim_space trim_left trim_right is_space ◌=?◌
music_refused = refl

upload_image_refused_example :
    Same memory_view
      (upload_image memory_store
        (some (archive memory_s3 single))
        settings
        drawing
        exact
        fits
        (codes "r")
        no_number
        none
        music
        form
        disk).1
      disk
upload_image_refused_example =
    upload_image_refused memory_view memory_store (some (archive memory_s3 single)) settings
      memory_store-StoreLaws drawing exact fits (codes "r") no_number none music form forbidden disk
      music_refused

abbrev stored : Created
stored = record {
  size = 5;
  object_name = codes "r.csv";
  link = codes "http://cdn/photos/r.csv";
  archived = archive_uploaded;
}

file_created :
    (upload_image memory_store
      (some (archive memory_s3 single))
      settings
      drawing
      exact
      fits
      (codes "r")
      no_number
      none
      general
      form
      disk).0
    ≡ created stored
unfolding upload_image resolve_bucket trim_space trim_left trim_right is_space ◌=?◌ with_bucket
    upload_file validate_file ext ext_from to_lower lower_rune member split prepare
    validate_file_content is_valid_file_content is_iso_base_media has_prefix has_magic
    is_valid_utf8_text is_valid_utf8 utf8_rounds sequence_size sequence_rest continued
    get_width_and_height capped validate_image_content is_image_file processed_content upload_name
    sanitize_object_name rewrite replacement squeeze has_pair halve_pairs trim put_upload after_put
    rewind_and_archive archive_object in_scope put_in resolve
file_created = refl

photos_resolved : resolve_bucket general photos ≡ some photos
unfolding resolve_bucket trim_space trim_left trim_right is_space
photos_resolved = refl

readable :
    (file : FormFile) (body : Reader)
    → form.file ≡ some file
    → file.opened ≡ ok body
    → body.fault ≡ none
readable file body e h =
    let same_body : ok (record { bytes = codes "a,b,c"; fault = none }) ≡ file.opened = cc e in
    cc (same_body, h)

upload_image_stored_example :
    let w' =
      (upload_image memory_store
        (some (archive memory_s3 single))
        settings
        drawing
        exact
        fits
        (codes "r")
        no_number
        none
        general
        form
        disk).1 in
    (bucket : Text) × (resolve_bucket general photos ≡ some bucket)
    × (content : Bytes) × (w'.held bucket (codes "r.csv") ≡ some content)
    × (5 ≡ length content)
    × FromFile memory_view memory_store memory_s3 single settings memory_store-StoreLaws
        memory_s3-S3Laws memory_store-Uploads drawing exact fits no_number form content
unfolding ◌=?◌
upload_image_stored_example =
    upload_image_stored memory_view memory_store memory_s3 single settings memory_store-StoreLaws
      memory_s3-S3Laws memory_store-Uploads drawing exact fits no_number form (codes "r") none
      general disk stored readable file_created
