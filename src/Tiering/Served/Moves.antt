-- ===== src/Tiering/Served/Moves.antt =====
-- Archiving keeps what is served, whether or not the local copy is evicted.
use cdn.Storage.Actions.{if-ends}
use cdn.Tiering.Served.Uploads.{put-Preserves}
use cdn.Tiering.Served.Steps.{
  Preserves-refl, remove-Preserves, Preserves-trans, verify_archived-Same, Preserves-Same,
  HasSize-Same, HoldsArchived-Same, verified_held, put-local, stat-Same,
}
use cdn.Tiering.{
  evict_verified, copy_to_archive, TierResult, after_upload, verify_archived, after_check,
  archive_known_in, verify_upload, VerifyReason, archive_known_object, Tiering, archive_in,
  archive_stated, archive_object, put_opened,
}
use cdn.Common.{take, ℕ, Bool, ◌≡◌, refl, true, false, Option, none, some, sym, ◌∙◌, not, arith}
use cdn.Text.{Text}
use cdn.Storage.Documented.{Transfers, View, StoreLaws, S3Laws}
use cdn.Storage.{Bytes, ObjectStore, AwsService, M, Error, ObjectInfo, Result, Reader, ok, err}
use cdn.Tiering.Served.{Faithful, KeepsServed, Preserves, HasSize, HoldsArchived}
use cdn.Archive.{ArchiveConfig, archive, in_scope}
use cdn.Archive.Location.{NoSlash}

module _ {W : Type 0} (v : View W) (s : ObjectStore W) (aws : AwsService W) (a : ArchiveConfig)
    (local_laws : StoreLaws v s) (s3_laws : S3Laws v aws) (transfers : Transfers v s aws)
    (b k : Text) (n : ℕ) (hb : NoSlash b) where
  abbrev Keeps : M W TierResult → Type 0
  Keeps m = (w : W) → HasSize v a w b k n → Preserves v a w (m w).1

  same : (w : W) → Preserves v a w w
  same w = Preserves-refl v a w

  evict_verified-Keeps :
      (evict : Bool) (w : W)
      → HasSize v a w b k n
      → HoldsArchived v a w b k n
      → Preserves v a w (evict_verified s (archive aws a) b k n evict w).1
  unfolding evict_verified
  evict_verified-Keeps false w size held = same w
  evict_verified-Keeps true w size held = remove-Preserves v s a local_laws b k n w size held

  after_upload-Keeps :
      (evict : Bool) (e : Option Error) (good : Bool) (reason : VerifyReason) (w : W)
      → HasSize v a w b k n
      → (good ≡ true → HoldsArchived v a w b k n)
      → Preserves v a w (after_upload s (archive aws a) b k n evict e good reason w).1
  unfolding after_upload
  after_upload-Keeps evict (some e) good reason w size sound = same w
  after_upload-Keeps evict none true reason w size sound =
      evict_verified-Keeps evict w size (sound refl)
  after_upload-Keeps evict none false reason w size sound = same w

  -- After a verification that changes neither store.
  checked :
      (w : W)
      → HasSize v a w b k n
      → let (verdict, w') = verify_archived (archive aws a) b k n w in
        HasSize v a w' b k n × (verdict.verified ≡ true → HoldsArchived v a w' b k n)
  checked w size =
      let kept = verify_archived-Same v aws a s3_laws b k n w in
      (
        HasSize-Same v a b k n kept size,
        λ good. HoldsArchived-Same v a b k n kept (verified_held v aws a s3_laws b k n w good),
      )

  verify_upload-Keeps :
      (evict : Bool) (e : Option Error) (w : W)
      → HasSize v a w b k n
      → Preserves v a w (verify_upload s (archive aws a) b k n evict e w).1
  unfolding verify_upload
  verify_upload-Keeps evict (some e) w size = same w
  verify_upload-Keeps evict none w size =
      let (verdict, w') = verify_archived (archive aws a) b k n w in
      let (size', sound) = checked w size in
      Preserves-trans v a (Preserves-Same v a (verify_archived-Same v aws a s3_laws b k n w))
        (after_upload-Keeps evict verdict.error verdict.verified verdict.reason w' size' sound)

  put_opened-Keeps :
      (r : Result Reader) (w : W)
      → ((body : Reader)
          → r ≡ ok body
          → (c : Bytes) × (m : ℕ) × (v.local w b k ≡ some c) × (body.bytes ≡ take m c))
      → Preserves v a w (put_opened s (archive aws a) b k r w).1
  put_opened-Keeps (err e) w present = same w
  put_opened-Keeps (ok body) w present =
      let (c, m, held, beginning) = present body refl in
      put-Preserves v s aws a s3_laws transfers b k body w c m hb held beginning

  put_opened-local :
      (r : Result Reader) (w : W)
      → v.local (put_opened s (archive aws a) b k r w).1 b k ≡ v.local w b k
  put_opened-local (err e) w = refl
  put_opened-local (ok body) w = put-local v aws a s3_laws b k body w b k

  copy-Preserves : (w : W) → Preserves v a w (copy_to_archive s (archive aws a) b k w).1
  unfolding copy_to_archive
  copy-Preserves w =
      let (r, w') = s.open_object b k w in
      let reads = local_laws.open_object_reads b k w in
      Preserves-trans v a (Preserves-Same v a reads) (
        put_opened-Keeps r w' (λ body e.
          let (c, m, held, beginning) = transfers.open_object_bytes b k w body e in
          (c, m, reads.local b k ∙ held, beginning)))

  copy-HasSize :
      (w : W) → HasSize v a w b k n → HasSize v a (copy_to_archive s (archive aws a) b k w).1 b k n
  unfolding copy_to_archive
  copy-HasSize w size =
      let (r, w') = s.open_object b k w in
      λ c e.
        size c
          (sym ((local_laws.open_object_reads b k w).local b k) ∙ sym (put_opened-local r w') ∙ e)

  after_check-Keeps :
      (evict : Bool) (e : Option Error) (good : Bool) (w : W)
      → HasSize v a w b k n
      → (good ≡ true → HoldsArchived v a w b k n)
      → Preserves v a w (after_check s (archive aws a) b k n evict e good w).1
  unfolding after_check
  after_check-Keeps evict (some e) good w size sound = same w
  after_check-Keeps evict none true w size sound = evict_verified-Keeps evict w size (sound refl)
  after_check-Keeps evict none false w size sound =
      let (e, w') = copy_to_archive s (archive aws a) b k w in
      Preserves-trans v a (copy-Preserves w) (verify_upload-Keeps evict e w' (copy-HasSize w size))

  known_in-Keeps :
      (evict : Bool) (w : W)
      → HasSize v a w b k n
      → Preserves v a w (archive_known_in s (archive aws a) b k n evict w).1
  unfolding archive_known_in
  known_in-Keeps evict w size =
      if-ends (Preserves v a w) (not a.enabled) _ _ w (λ _. same w)
        λ _.
          if-ends (Preserves v a w) (not (in_scope a b)) _ _ w (λ _. same w)
            λ _.
              let (verdict, w') = verify_archived (archive aws a) b k n w in
              let (size', sound) = checked w size in
              Preserves-trans v a
                (Preserves-Same v a (verify_archived-Same v aws a s3_laws b k n w))
                (after_check-Keeps evict verdict.error verdict.verified w' size' sound)

-- The service's Tiering: an object store, and the archive of a configuration over S3.
abbrev pub tiering : {W : Type 0} → ObjectStore W → AwsService W → ArchiveConfig → Tiering W
tiering s aws a = record { store = s; archive = some (archive aws a) }

module _ {W : Type 0} (v : View W) (s : ObjectStore W) (aws : AwsService W) (a : ArchiveConfig)
    (local_laws : StoreLaws v s) (s3_laws : S3Laws v aws) (transfers : Transfers v s aws) where
  -- ArchiveKnownObject, called with the object's local size.
  pub archive_known_object-Preserves :
      (b k : Text) (n : ℕ) (evict : Bool) (w : W)
      → NoSlash b
      → HasSize v a w b k n
      → Preserves v a w (archive_known_object (tiering s aws a) b k n evict w).1
  unfolding archive_known_object
  archive_known_object-Preserves b k n evict w hb size =
      known_in-Keeps v s aws a local_laws s3_laws transfers b k n hb evict w size

  stated-Keeps :
      (b k : Text) (evict : Bool) (r : Result ObjectInfo) (w : W)
      → NoSlash b
      → ((info : ObjectInfo) → r ≡ ok info → HasSize v a w b k info.size)
      → Preserves v a w (archive_stated s (archive aws a) b k evict r w).1
  unfolding archive_stated
  stated-Keeps b k evict (ok info) w hb size =
      known_in-Keeps v s aws a local_laws s3_laws transfers b k info.size hb evict w
        (size info refl)
  stated-Keeps b k evict (err e) w hb size = Preserves-Same v a (stat-Same v aws a s3_laws b k w)

  stat_HasSize :
      (b k : Text) (w : W) (info : ObjectInfo)
      → (s.stat_object b k w).0 ≡ ok info
      → HasSize v a (s.stat_object b k w).1 b k info.size
  stat_HasSize b k w info e =
      let (d, held, fits) = local_laws.stat_object_held b k w info e in
      λ c f. ground (arith, held, fits, f, (local_laws.stat_object_reads b k w).local b k)

  archive_in-Keeps :
      (b k : Text) (evict : Bool) (w : W)
      → NoSlash b
      → Preserves v a w (archive_in s (archive aws a) b k evict w).1
  unfolding archive_in
  archive_in-Keeps b k evict w hb =
      if-ends (Preserves v a w) (not a.enabled) _ _ w (λ _. Preserves-refl v a w)
        λ _.
          let (r, w') = s.stat_object b k w in
          Preserves-trans v a (Preserves-Same v a (local_laws.stat_object_reads b k w))
            (stated-Keeps b k evict r w' hb (stat_HasSize b k w))

  pub archive_object-Preserves :
      (b k : Text) (evict : Bool) (w : W)
      → NoSlash b
      → Preserves v a w (archive_object (tiering s aws a) b k evict w).1
  unfolding archive_object
  archive_object-Preserves b k evict w hb = archive_in-Keeps b k evict w hb

  -- ArchiveObject leaves the bytes that are served of every object as they were, whether or not it
  -- evicts the local copy, whatever the stores answer and however much of the upload S3 stored. This
  -- holds where local and archived copies of one size are the same bytes, and ArchiveObject keeps
  -- them so. All of it is about buckets without a slash in their name.
  pub archive_object-KeepsServed :
      (b k : Text) (evict : Bool) (w : W)
      → NoSlash b
      → Faithful v a w
      → KeepsServed v a w (archive_object (tiering s aws a) b k evict w).1
  archive_object-KeepsServed b k evict w hb f = (archive_object-Preserves b k evict w hb).kept f
