-- ===== src/Tiering/Related.antt =====
-- What archiving one object does to the stores, call by call: a relation between states that reads
-- keep, that an upload of this object keeps and that, where the local copy is to go, its removal
-- keeps, is kept by the whole move.
use cdn.Common.{ℕ, ◌≡◌, refl, Bool, true, false, not, Option, none, some}
use cdn.Text.{Text}
use cdn.Storage.{ObjectStore, AwsService, Error, Result, ok, err, Reader, ObjectInfo}
use cdn.Storage.Documented.{View, Same, StoreLaws, S3Laws}
use cdn.Storage.Actions.{if-ends, Preorder}
use cdn.Archive.{ArchiveConfig, archive, resolve, in_scope, put}
use cdn.Tiering.{
  VerifyReason, evict_verified, copy_to_archive, put_opened, after_upload, verify_upload,
  verify_archived, after_check, archive_known_in, archive_stated, archive_in, archive_object,
}
use cdn.Tiering.Served.Steps.{stat-Same, verify_archived-Same}
use cdn.Tiering.Served.Moves.{tiering}

module _ {W : Type 0} (v : View W) (s : ObjectStore W) (aws : AwsService W) (a : ArchiveConfig)
    (local_laws : StoreLaws v s) (s3_laws : S3Laws v aws) (b k : Text) (evict : Bool)
    (r : Preorder W) (R_same : (w w' : W) → Same v w' w → r.related w w')
    (R_put : (body : Reader) (w : W)
      → r.related w (aws.s3_put_object (resolve a b k).0 (resolve a b k).1 body w).1)
    (R_remove : evict ≡ true → (w : W) → r.related w (s.remove_object b k w).1) where
  remove_related :
      (e : Bool) (n : ℕ) (w : W)
      → evict ≡ e
      → r.related w (evict_verified s (archive aws a) b k n e w).1
  unfolding evict_verified
  remove_related false n w h = r.idle w
  remove_related true n w h = R_remove h w

  put_related : (body : Reader) (w : W) → r.related w (put aws a b k body w).1
  unfolding put
  put_related body w =
      if-ends (r.related w) (not a.enabled) _ _ w (λ _. r.idle w)
        λ _. if-ends (r.related w) (not (in_scope a b)) _ _ w (λ _. r.idle w) (λ _. R_put body w)

  opened_related :
      (o : Result Reader) (w : W) → r.related w (put_opened s (archive aws a) b k o w).1
  opened_related (err e) w = r.idle w
  opened_related (ok body) w = put_related body w

  copy_related : (w : W) → r.related w (copy_to_archive s (archive aws a) b k w).1
  unfolding copy_to_archive
  copy_related w =
      r.both (R_same _ _ (local_laws.open_object_reads b k w))
        (opened_related (s.open_object b k w).0 _)

  after_upload_related :
      (n : ℕ) (e : Option Error) (good : Bool) (reason : VerifyReason) (w : W)
      → r.related w (after_upload s (archive aws a) b k n evict e good reason w).1
  unfolding after_upload
  after_upload_related n (some e) good reason w = r.idle w
  after_upload_related n none true reason w = remove_related evict n w refl
  after_upload_related n none false reason w = r.idle w

  verify_upload_related :
      (n : ℕ) (e : Option Error) (w : W)
      → r.related w (verify_upload s (archive aws a) b k n evict e w).1
  unfolding verify_upload
  verify_upload_related n (some e) w = r.idle w
  verify_upload_related n none w =
      let (verdict, w') = verify_archived (archive aws a) b k n w in
      r.both (R_same _ _ (verify_archived-Same v aws a s3_laws b k n w))
        (after_upload_related n verdict.error verdict.verified verdict.reason w')

  after_check_related :
      (n : ℕ) (e : Option Error) (good : Bool) (w : W)
      → r.related w (after_check s (archive aws a) b k n evict e good w).1
  unfolding after_check
  after_check_related n (some e) good w = r.idle w
  after_check_related n none true w = remove_related evict n w refl
  after_check_related n none false w =
      r.both (copy_related w)
        (verify_upload_related n (copy_to_archive s (archive aws a) b k w).0 _)

  known_related : (n : ℕ) (w : W) → r.related w (archive_known_in s (archive aws a) b k n evict w).1
  unfolding archive_known_in
  known_related n w =
      if-ends (r.related w) (not a.enabled) _ _ w (λ _. r.idle w)
        λ _.
          if-ends (r.related w) (not (in_scope a b)) _ _ w (λ _. r.idle w)
            λ _.
              let (verdict, w') = verify_archived (archive aws a) b k n w in
              r.both (R_same _ _ (verify_archived-Same v aws a s3_laws b k n w))
                (after_check_related n verdict.error verdict.verified w')

  stated_related :
      (o : Result ObjectInfo) (w : W)
      → r.related w (archive_stated s (archive aws a) b k evict o w).1
  unfolding archive_stated
  stated_related (ok info) w = known_related info.size w
  stated_related (err e) w = R_same _ _ (stat-Same v aws a s3_laws b k w)

  pub archive_object_related :
      (w : W) → r.related w (archive_object (tiering s aws a) b k evict w).1
  unfolding archive_object archive_in
  archive_object_related w =
      if-ends (r.related w) (not a.enabled) _ _ w (λ _. r.idle w)
        λ _.
          r.both (R_same _ _ (local_laws.stat_object_reads b k w))
            (stated_related (s.stat_object b k w).0 _)
