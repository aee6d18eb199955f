-- ===== src/BatchUpload/Writes.antt =====
-- What a batch of uploads writes and answers.
use cdn.Common.{
  ℕ, suc, ◌≡◌, ◌≢◌, refl, sym, ap, ◌∙◌, inl, Bool, not, ◌&&◌, Option, none, some, List, [], ◌∷◌,
  ltb, ◌==◌, length,
}
use cdn.Text.{Text, ◌=?◌}
use cdn.Storage.{Error, Result, ok, err, Reader, ObjectStore, AwsService}
use cdn.Storage.Documented.{View, StoreLaws, S3Laws}
use cdn.Storage.Actions.{if-ends}
use cdn.Access.{Principal, resolve_bucket}
use cdn.Archive.{ArchiveConfig, archive}
use cdn.Archive.Location.{NoSlash}
use cdn.Tiering.Apart.{Untouched, touching}
use cdn.Tiering.Served.{archived_at}
use cdn.Dimensions.{Floats}
use cdn.Imaging.{Imagick}
use cdn.Image.{is_found}
use cdn.Validator.{FileError, validate_file}
use cdn.UploadChecks.{Settings}
use cdn.UploadPayload.{FormFile, Payload}
use cdn.Upload.Confined.{archived-Untouched}
use cdn.BatchUpload.{
  BatchForm, Loaded, problem, loaded, text_of, load, after_put, put_loaded, put_opened, put_checked,
  upload_one, upload_files, upload_found, upload_into, for_bucket, batch_upload,
}

module _ {W : Type 0} (v : View W) (s : ObjectStore W) (aws : AwsService W) (a : ArchiveConfig)
    (im : Imagick) (f : Floats) (set : Settings) (random : ℕ → Text) (local_laws : StoreLaws v s)
    (s3_laws : S3Laws v aws) (b k : Text) (hb : NoSlash b) where
  abbrev Still : W → W → Type 0
  Still = Untouched v a b k

  still : (w : W) → Still w w
  still w = (touching v a b k).idle w

  module _ (bucket : Text) (hc : NoSlash bucket) (apart : b ≢ bucket) where
    after_put-Still :
        (object filename : Text) (p : Payload) (e : Option Error) (w : W)
        → Still w
            (after_put s (some (archive aws a)) im f set random bucket object filename p e w).1
    unfolding after_put
    after_put-Still object filename p (some e) w = still w
    after_put-Still object filename p none w =
        archived-Untouched v s aws a set local_laws s3_laws b k bucket hb hc apart object p.rewound
          w

    put_loaded-Still :
        (object filename : Text) (l : Loaded) (w : W)
        → Still w (put_loaded s (some (archive aws a)) im f set random bucket object filename l w).1
    unfolding put_loaded
    put_loaded-Still object filename (problem e) w = still w
    put_loaded-Still object filename (loaded p) w =
        let (e, x) = s.put_object bucket object p.reader p.size w in
        (touching v a b k).both
          (record {
            local = local_laws.put_object_other bucket object b k p.reader p.size w (inl apart);
            archived = local_laws.put_object_archived bucket object _ _ p.reader p.size w;
          })
          (after_put-Still object filename p e x)

    opened-Still :
        (i : ℕ) (prefix : Text) (optimize : Bool) (file : FormFile) (r : Result Reader) (w : W)
        → Still w
            (put_opened s
              (some (archive aws a))
              im
              f
              set
              random
              i
              bucket
              prefix
              optimize
              file
              r
              w).1
    opened-Still i prefix optimize file (err e) w = still w
    opened-Still i prefix optimize file (ok body) w =
        put_loaded-Still _ file.filename (load im f set file optimize body) w

    checked-Still :
        (i : ℕ) (prefix : Text) (optimize : Bool) (file : FormFile) (e : Option FileError) (w : W)
        → Still w
            (put_checked s
              (some (archive aws a))
              im
              f
              set
              random
              i
              bucket
              prefix
              optimize
              file
              e
              w).1
    checked-Still i prefix optimize file (some e) w = still w
    checked-Still i prefix optimize file none w = opened-Still i prefix optimize file file.opened w

    files-Still :
        (i : ℕ) (prefix : Text) (optimize : Bool) (files : List FormFile) (w : W)
        → Still w
            (upload_files s
              (some (archive aws a))
              im
              f
              set
              random
              i
              bucket
              prefix
              optimize
              files
              w).1
    unfolding upload_files upload_one
    files-Still i prefix optimize [] w = still w
    files-Still i prefix optimize (file ∷ files) w =
        (touching v a b k).both
          (checked-Still i prefix optimize file
            (validate_file set.validate set.max_file_size file.size file.filename) w)
          (files-Still (suc i) prefix optimize files _)

    into-Still :
        (form : BatchForm) (w : W)
        → Still w (upload_into s (some (archive aws a)) im f set random bucket form w).1
    unfolding upload_into upload_found
    into-Still form w =
        if-ends (Still w) (bucket =? []) _ _ w (λ _. still w)
          λ _.
            let (found, x) = s.bucket_exists bucket w in
            let reads = local_laws.bucket_exists_reads bucket w in
            (touching v a b k).both
              (record { local = reads.local b k; archived = reads.archived _ _ })
              (if-ends (Still x) (not (is_found found)) _ _ x (λ _. still x)
                λ _.
                  if-ends (Still x) (length form.files == 0) _ _ x (λ _. still x)
                    λ _.
                      if-ends (Still x)
                        (ltb 0 set.max_batch && ltb set.max_batch (length form.files)) _ _ x
                        (λ _. still x) (λ _. files-Still 0 (text_of form.path) _ form.files x))

  -- BatchUpload touches neither the local nor the archived copy of any object outside the bucket that
  -- the principal is given, where neither the bucket of that object nor the one that the principal
  -- is given has a slash in its name.
  pub batch_upload_confined :
      (p : Principal) (form : BatchForm) (w : W)
      → ((bucket : Text) → resolve_bucket p (text_of form.bucket) ≡ some bucket → NoSlash bucket)
      → resolve_bucket p (text_of form.bucket) ≢ some b
      → let w' = (batch_upload s (some (archive aws a)) im f set random p (some form) w).1 in
        (v.local w' b k ≡ v.local w b k) × (archived_at v a w' b k ≡ archived_at v a w b k)
  unfolding batch_upload
  batch_upload_confined p form w named other =
      let kept = go (resolve_bucket p (text_of form.bucket)) refl in (kept.local, kept.archived)
    where
      go :
          (o : Option Text)
          → resolve_bucket p (text_of form.bucket) ≡ o
          → Still w (for_bucket s (some (archive aws a)) im f set random o form w).1
      go none e = still w
      go (some bucket) e =
          into-Still bucket (named bucket e) (λ same. other (e ∙ ap some (sym same))) form w
