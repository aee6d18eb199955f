-- ===== src/BatchUpload.antt =====
-- handler/image.go: BatchUpload. The files are handled one after the other, and the results are in the
-- order of the files; the code runs up to ten at a time and answers in the order in which they end.
pub mod Writes
use cdn.Common.{
  ℕ, suc, Bool, true, false, not, ◌&&◌, Option, none, some, List, [], ◌∷◌, ltb, ◌==◌, if◌then◌else◌,
  length,
}
use cdn.Text.{Text, codes, ◌=?◌}
use cdn.Storage.{Bytes, Error, Result, ok, err, Reader, ObjectStore, Archive, M, ◌>>=◌, pure}
use cdn.Access.{Principal, resolve_bucket}
use cdn.ObjectKey.{is_image_file}
use cdn.Validator.{FileError, validate_file}
use cdn.Dimensions.{Floats}
use cdn.Imaging.{Imagick}
use cdn.Image.{ArchiveNote, archive_object, batch_name, is_found}
use cdn.UploadChecks.{Settings, validate_image_content, maybe_optimize}
use cdn.UploadPayload.{FormFile, Payload, all_of, read_all}

-- The multipart form; a value or a file that is not there is `none`, or not in the list.
pub record BatchForm : Type 0 where
  pub bucket : Option Text
  pub path : Option Text
  pub optimize : Option Text
  pub files : List FormFile

pub data FileProblem : Type 0 where
  bad_file : FileError → FileProblem
  not_opened not_read not_put : Error → FileProblem
  bad_image : FileProblem

-- One result: the name that the file was stored under and what its archiving reports, or its error.
pub data FileResult : Type 0 where
  done : Text → Text → ArchiveNote → FileResult
  failed : Text → FileProblem → FileResult

pub data BatchError : Type 0 where
  invalid_form forbidden bucket_required bucket_not_found no_files too_many_files : BatchError

pub data BatchReply : Type 0 where
  refused : BatchError → BatchReply
  completed : List FileResult → BatchReply

-- What is handed to the stores, or why it is not.
pub data Loaded : Type 0 where
  problem : FileProblem → Loaded
  loaded : Payload → Loaded

abbrev pub text_of : Option Text → Text
text_of none = []
text_of (some t) = t

abbrev pub wants : Option Text → Bool
wants none = false
wants (some t) = t =? codes "true"

module _ (im : Imagick) (f : Floats) (set : Settings) where
  abbrev pub image_loaded : Bool → Bytes → Option (ℕ × ℕ) → Loaded
  image_loaded optimize content none = problem bad_image
  image_loaded optimize content (some _) =
      loaded
        (all_of (if optimize then maybe_optimize im f set.optimize_options content else content))

  abbrev pub image_read : Text → Bool → Result Bytes → Loaded
  image_read filename optimize (err e) = problem (not_read e)
  image_read filename optimize (ok content) =
      image_loaded optimize content (validate_image_content im f set.validate filename content)

  -- An image is read and checked; any other file is streamed as it is.
  unfoldable pub load : FormFile → Bool → Reader → Loaded
  unfolding maybe_optimize
  load file optimize body =
      if is_image_file file.filename
      then image_read file.filename optimize (read_all body)
      else loaded (record { reader = body; size = file.size; rewound = body })

module _ {W : Type 0} (store : ObjectStore W) (a : Option (Archive W)) (im : Imagick) (f : Floats)
    (set : Settings) (random : ℕ → Text) where
  -- The end of one file, by the error of PutObject
  unfoldable pub after_put : Text → Text → Text → Payload → Option Error → M W FileResult
  after_put bucket object filename p (some e) = pure (failed filename (not_put e))
  after_put bucket object filename p none = do
    note ← archive_object a bucket object p.rewound
    pure (done filename object note)

  unfoldable pub put_loaded : Text → Text → Text → Loaded → M W FileResult
  put_loaded bucket object filename (problem e) = pure (failed filename e)
  put_loaded bucket object filename (loaded p) = do
    e ← store.put_object bucket object p.reader p.size
    after_put bucket object filename p e

  abbrev pub put_opened : ℕ → Text → Text → Bool → FormFile → Result Reader → M W FileResult
  put_opened i bucket prefix optimize file (err e) = pure (failed file.filename (not_opened e))
  put_opened i bucket prefix optimize file (ok body) =
      put_loaded bucket (batch_name (random i) file.filename prefix) file.filename
        (load im f set file optimize body)

  abbrev pub put_checked : ℕ → Text → Text → Bool → FormFile → Option FileError → M W FileResult
  put_checked i bucket prefix optimize file (some e) = pure (failed file.filename (bad_file e))
  put_checked i bucket prefix optimize file none =
      put_opened i bucket prefix optimize file file.opened

  unfoldable pub upload_one : ℕ → Text → Text → Bool → FormFile → M W FileResult
  unfolding load
  upload_one i bucket prefix optimize file =
      put_checked i bucket prefix optimize file
        (validate_file set.validate set.max_file_size file.size file.filename)

  unfoldable pub upload_files : ℕ → Text → Text → Bool → List FormFile → M W (List FileResult)
  upload_files i bucket prefix optimize [] = pure []
  upload_files i bucket prefix optimize (file ∷ files) = do
    r ← upload_one i bucket prefix optimize file
    rs ← upload_files (suc i) bucket prefix optimize files
    pure (r ∷ rs)

  abbrev pub refuse : BatchError → M W BatchReply
  refuse e = pure (refused e)

  -- BatchUpload in a bucket that was found
  unfoldable pub upload_found : Text → BatchForm → M W BatchReply
  upload_found bucket form =
      let n = length form.files in
      if n == 0
      then refuse no_files
      else if ltb 0 set.max_batch && ltb set.max_batch n
      then refuse too_many_files
      else do
        rs ← upload_files 0 bucket (text_of form.path) (wants form.optimize) form.files
        pure (completed rs)

  -- BatchUpload in the bucket that the principal is given
  unfoldable pub upload_into : Text → BatchForm → M W BatchReply
  upload_into bucket form = if bucket =? [] then refuse bucket_required else do
    found ← store.bucket_exists bucket
    if not (is_found found) then refuse bucket_not_found else upload_found bucket form

  abbrev pub for_bucket : Option Text → BatchForm → M W BatchReply
  for_bucket none form = refuse forbidden
  for_bucket (some bucket) form = upload_into bucket form

  -- BatchUpload; a form that does not parse is `none`.
  unfoldable pub batch_upload : Principal → Option BatchForm → M W BatchReply
  batch_upload p none = refuse invalid_form
  batch_upload p (some form) = for_bucket (resolve_bucket p (text_of form.bucket)) form
