-- ===== src/Image.antt =====
-- handler/image.go: reads from both tiers, deletes, and the parts of an upload that choose the key
-- and archive the object. A request is its parameters and the principal that was resolved for it; a
-- response is its status. The files of a batch are handled one after the other.
pub mod Deletes
pub mod Removals
pub mod Reads
pub mod Keys
use cdn.Common.{
  ℕ, Bool, true, false, not, ◌&&◌, ◌||◌, Option, none, some, List, ◌∷◌, ltb, if◌then◌else◌, length,
  [], ◌/◌, ◌++◌, ◌==◌,
}
use cdn.Text.{Text, codes, ◌=?◌, to_lower, member, trim, trim_space, cut}
use cdn.Storage.{Error, Result, ok, err, ObjectStore, M, ◌>>=◌, pure, Archive, Reader, ObjectInfo}
use cdn.Access.{Principal, resolve_bucket}
use cdn.ObjectKey.{has_unsafe_object_key, sanitize_object_name}

-- The two methods of service.AwsService that a delete calls.
pub record AwsDeletes (W : Type 0) : Type 0 where
  pub bucket_exists : Text → M W Bool
  pub delete_objects : Text → List Text → M W (Option Error)

pub data Reply : Type 0 where
  forbidden : Reply
  bad_request : Text → Reply
  server_error : Error → Reply
  deleted : Reply

-- One entry of the results of BatchDelete.
pub record Deletion : Type 0 where
  pub filename : Text
  pub success : Bool
  pub error : Option Error
  pub aws_error : Option Error

pub data BatchReply : Type 0 where
  rejected : Reply → BatchReply
  completed : List Deletion → BatchReply

-- The first result of BucketExists, which is false where there is an error.
abbrev pub is_found : Result Bool → Bool
is_found (ok found) = found
is_found (err e) = false

module _ {W : Type 0} (store : ObjectStore W) (aws : AwsDeletes W) where
  abbrev aws_reply : Option Error → Reply
  aws_reply none = deleted
  aws_reply (some e) = server_error e

  -- The end of DeleteImage, by the error of RemoveObject.
  unfoldable pub after_remove : Text → Bool → Text → Option Error → M W Reply
  after_remove bucket aws_delete object (some e) = pure (server_error e)
  after_remove bucket false object none = pure deleted
  after_remove bucket true object none = do
    e ← aws.delete_objects bucket (object ∷ [])
    pure (aws_reply e)

  unfoldable pub remove : Text → Bool → Text → M W Reply
  remove bucket aws_delete object = do
    e ← store.remove_object bucket object
    after_remove bucket aws_delete object e

  -- The bucket on AWS is asked for where the object is to be deleted there.
  unfoldable pub remove_checked : Text → Bool → Text → M W Reply
  remove_checked bucket false object = remove bucket false object
  remove_checked bucket true object = do
    exists ← aws.bucket_exists bucket
    if not exists
        then pure (bad_request (codes "Bucket Not Found On Aws S3!"))
        else remove bucket true object

  unfoldable pub delete_in : Text → Bool → Text → M W Reply
  delete_in bucket aws_delete object =
      if (bucket =? []) || (object =? [])
      then pure (bad_request (codes "invalid path or bucket or file."))
      else if has_unsafe_object_key object
      then pure (bad_request (codes "invalid object key"))
      else do
        found ← store.bucket_exists bucket
        if not (is_found found)
            then pure (bad_request (codes "Bucket Not Found On Minio!"))
            else remove_checked bucket aws_delete object

  abbrev pub unless_forbidden : Option Text → (Text → M W Reply) → M W Reply
  unless_forbidden none rest = pure forbidden
  unless_forbidden (some bucket) rest = rest bucket

  -- DeleteImage; `raw` is the bucket of the path.
  unfoldable pub delete_image : Principal → Text → Bool → Text → M W Reply
  delete_image p raw aws_delete object =
      unless_forbidden (resolve_bucket p raw) (λ bucket. delete_in bucket aws_delete object)

  abbrev aws_error_of : Text → Option Error → Deletion
  aws_error_of filename e = record {
    filename = filename;
    success = true;
    error = none;
    aws_error = e;
  }

  -- What BatchDelete does with one file, by the error of RemoveObject.
  unfoldable pub after_file : Text → Bool → Text → Option Error → M W Deletion
  after_file bucket aws_delete filename (some e) =
      pure (record { filename = filename; success = false; error = some e; aws_error = none })
  after_file bucket false filename none = pure (aws_error_of filename none)
  after_file bucket true filename none = do
    e ← aws.delete_objects bucket (filename ∷ [])
    pure (aws_error_of filename e)

  unfoldable pub delete_file : Text → Bool → Text → M W Deletion
  delete_file bucket aws_delete filename = do
    e ← store.remove_object bucket filename
    after_file bucket aws_delete filename e

  unfoldable pub delete_files : Text → Bool → List Text → M W (List Deletion)
  delete_files bucket aws_delete [] = pure []
  delete_files bucket aws_delete (f ∷ fs) = do
    d ← delete_file bucket aws_delete f
    ds ← delete_files bucket aws_delete fs
    pure (d ∷ ds)

  abbrev all_files : Text → Bool → List Text → M W BatchReply
  all_files bucket aws_delete files = do
    ds ← delete_files bucket aws_delete files
    pure (completed ds)

  unfoldable pub files_checked : Text → Bool → List Text → M W BatchReply
  files_checked bucket false files = all_files bucket false files
  files_checked bucket true files = do
    exists ← aws.bucket_exists bucket
    if not exists
        then pure (rejected (bad_request (codes "AWS bucket not found")))
        else all_files bucket true files

  unfoldable pub batch_in : ℕ → Text → Bool → List Text → M W BatchReply
  batch_in max_batch bucket aws_delete files =
      if bucket =? []
      then pure (rejected (bad_request (codes "Bucket is required")))
      else if ltb 0 max_batch && ltb max_batch (length files)
      then pure (rejected (bad_request (codes "Too many files in one batch")))
      else do
        found ← store.bucket_exists bucket
        if not (is_found found)
            then pure (rejected (bad_request (codes "Bucket not found")))
            else files_checked bucket aws_delete files

  abbrev pub batch_unless_forbidden : Option Text → (Text → M W BatchReply) → M W BatchReply
  batch_unless_forbidden none rest = pure (rejected forbidden)
  batch_unless_forbidden (some bucket) rest = rest bucket

  -- BatchDelete of a body that parses and passes its validation: there is a file at least.
  unfoldable pub batch_delete : ℕ → Principal → Text → Bool → List Text → M W BatchReply
  batch_delete max_batch p raw aws_delete files =
      batch_unless_forbidden (resolve_bucket p raw)
        (λ bucket. batch_in max_batch bucket aws_delete files)

-- What archiveObject reports in the response: nothing, a failure or a success.
pub data ArchiveNote : Type 0 where
  silent : ArchiveNote
  archive_failed : Error → ArchiveNote
  archive_uploaded : ArchiveNote

-- The archive's answer to openObject.
abbrev pub archived_copy : Result (Reader × ℕ) → Option (Reader × ℕ)
archived_copy (ok found) = some found
archived_copy (err e) = none

abbrev note_of : Option Error → ArchiveNote
note_of none = archive_uploaded
note_of (some e) = archive_failed e

module _ {W : Type 0} where
  abbrev put_noted : Archive W → Text → Text → Reader → M W ArchiveNote
  put_noted a bucket object body = do e ← a.put bucket object body; pure (note_of e)

  -- archiveObject
  unfoldable pub archive_object : Option (Archive W) → Text → Text → Reader → M W ArchiveNote
  archive_object none bucket object body = pure silent
  archive_object (some a) bucket object body =
      if not (a.in_scope bucket) then pure silent else put_noted a bucket object body

  -- rewindAndArchive: `seek` is the error of the rewind, and `body` the file from its start.
  unfoldable pub rewind_and_archive :
      Option (Archive W) → Text → Text → Option Error → Reader → M W ArchiveNote
  unfolding archive_object
  rewind_and_archive none bucket object seek body = pure silent
  rewind_and_archive (some a) bucket object seek body =
      if not (a.in_scope bucket) then pure silent else elim seek [
        | some e ↦ pure (archive_failed e)
        | none ↦ archive_object (some a) bucket object body
      ]

  abbrev pub open_cold : Option (Archive W) → Text → Text → M W (Option (Reader × ℕ))
  open_cold none bucket object = pure none
  open_cold (some a) bucket object =
      if not a.enabled
      then pure none
      else do found ← a.open_archived bucket object; pure (archived_copy found)

  -- The object of GetObject, by its Stat.
  abbrev pub local_or :
      Reader → Result ObjectInfo → M W (Option (Reader × ℕ)) → M W (Option (Reader × ℕ))
  local_or body (err e) cold = cold
  local_or body (ok info) cold = if ltb 0 info.size then pure (some (body, info.size)) else cold

  abbrev pub opened_or :
      ObjectStore W
      → Text
      → Text
      → Result Reader
      → M W (Option (Reader × ℕ))
      → M W (Option (Reader × ℕ))
  opened_or store bucket object (err e) cold = cold
  opened_or store bucket object (ok body) cold = do
    info ← store.stat_object bucket object
    local_or body info cold

  -- openObject; `none` is errObjectMissing.
  unfoldable pub open_object :
      ObjectStore W → Option (Archive W) → Text → Text → M W (Option (Reader × ℕ))
  open_object store a bucket object = do
    opened ← store.open_object bucket object
    opened_or store bucket object opened (open_cold a bucket object)

-- The keys that UploadImage and UploadWithUrl choose, for a random name and an extension.
unfoldable pub upload_name : Text → Text → Text → Text
upload_name random extension path =
    let name = random ++ codes "." ++ sanitize_object_name extension in
    if path =? []
    then name
    else sanitize_object_name (trim (λ c. c == b'/') path) ++ codes "/" ++ name

-- The keys that BatchUpload chooses.
unfoldable pub batch_name : Text → Text → Text → Text
batch_name random filename path =
    let name = random ++ codes "_" ++ sanitize_object_name filename in
    if path =? [] then name else sanitize_object_name path ++ codes "/" ++ name

-- The media type: what stands before the first semicolon.
abbrev before_semicolon : Text → Option (Text × Text) → Text
before_semicolon sniffed none = sniffed
before_semicolon sniffed (some (media_type, _)) = media_type

abbrev pub executable_types : List Text
executable_types =
    codes "text/html"
    ∷ codes "application/xhtml+xml"
    ∷ codes "text/xml"
    ∷ codes "application/xml"
    ∷ []

unfoldable pub media_type_of : Text → Text
media_type_of sniffed = to_lower (trim_space (before_semicolon sniffed (cut sniffed b';')))

-- inertContentType
unfoldable pub inert_content_type : Text → Text
inert_content_type sniffed =
    if member (media_type_of sniffed) executable_types
    then codes "text/plain; charset=utf-8"
    else sniffed
