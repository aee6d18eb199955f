-- ===== src/Restore/Kept.antt =====
-- What a restore leaves alone in the archive.
use cdn.Tiering.Served.Moves.{tiering}
use cdn.Text.{Text}
use cdn.Common.{
  ℕ, ◌≡◌, refl, ◌∙◌, inl, inr, Bool, true, false, not, Option, none, some, Option-cases, [],
}
use cdn.Restore.{Stats, handle, feed, walk_all, prepared, run}
use cdn.Storage.Documented.{View, Same, StoreLaws, S3Laws}
use cdn.Storage.Actions.{if-ends}
use cdn.Archive.{ArchiveConfig, open_archived, resolve, archive, walk}
use cdn.Storage.{Error, Result, ok, err, Reader, ObjectStore, AwsService, M, is_archive_not_found}
use cdn.Tiering.{
  is_local, made_bucket, store_opened, read_head, restore_object, ensure_bucket, restore_unless,
}
use cdn.Restore.Runs.{feed_relates}

module _ {W : Type 0} (v : View W) (s : ObjectStore W) (aws : AwsService W) (a : ArchiveConfig)
    (local_laws : StoreLaws v s) (s3_laws : S3Laws v aws) where
  -- The archive has what it had.
  record ArchiveKept (w w' : W) : Type 0 where
    at : (c l : Text) → v.archived w' c l ≡ v.archived w c l

  kept_refl : (w : W) → ArchiveKept w w
  kept_refl w = record { at = λ c l. refl }

  kept_trans : {x y z : W} → ArchiveKept x y → ArchiveKept y z → ArchiveKept x z
  kept_trans p q = record { at = λ c l. q.at c l ∙ p.at c l }

  kept_Same : {w w' : W} → Same v w' w → ArchiveKept w w'
  kept_Same h = record { at = h.archived }

  put_read-ArchiveKept :
      (b k : Text) (n size : ℕ) (body : Reader) (w : W)
      → ArchiveKept w (store_opened s b k n (ok (body, size)) w).1
  unfolding store_opened
  put_read-ArchiveKept b k n size body w = elim (Option-cases (read_head body)) [
    | inr (e, same) ↦ rw (same, store_opened) (kept_refl w)
    | inl same ↦
        rw (same, store_opened)
          (record { at = λ c l. local_laws.put_object_archived b k c l body size w })
  ]

  store_opened-ArchiveKept :
      (b k : Text) (n : ℕ) (opened : Result (Reader × ℕ)) (w : W)
      → ArchiveKept w (store_opened s b k n opened w).1
  store_opened-ArchiveKept b k n (ok (body, size)) w = put_read-ArchiveKept b k n size body w
  store_opened-ArchiveKept b k n (err e) w =
      unfold store_opened in
      if-ends (ArchiveKept w) (is_archive_not_found e) _ _ w (λ _. kept_refl w) (λ _. kept_refl w)

  open-ArchiveKept : (b k : Text) (w : W) → ArchiveKept w (open_archived aws a b k w).1
  unfolding open_archived
  open-ArchiveKept b k w =
      if-ends (ArchiveKept w) (not a.enabled) _ _ w (λ _. kept_refl w)
        (λ _. kept_Same (s3_laws.get_reads (resolve a b k).0 (resolve a b k).1 w))

  restore_unless-ArchiveKept :
      (b k : Text) (n : ℕ) (spare : Bool) (w : W)
      → ArchiveKept w (restore_unless s b k (archive aws a) n spare w).1
  unfolding restore_unless
  restore_unless-ArchiveKept b k n true w = kept_refl w
  restore_unless-ArchiveKept b k n false w =
      let (opened, w') = open_archived aws a b k w in
      kept_trans (open-ArchiveKept b k w) (store_opened-ArchiveKept b k n opened w')

  restore_object-ArchiveKept :
      (b k : Text) (n : ℕ) (w : W) → ArchiveKept w (restore_object (tiering s aws a) b k n w).1
  unfolding restore_object
  restore_object-ArchiveKept b k n w =
      if-ends (ArchiveKept w) (not a.enabled) _ _ w (λ _. kept_refl w)
        λ _.
          let (info, w') = s.stat_object b k w in
          kept_trans (kept_Same (local_laws.stat_object_reads b k w))
            (restore_unless-ArchiveKept b k n (is_local n info) w')

  handle-ArchiveKept :
      (b : Text) (apply : Bool) (key : Text) (size : ℕ) (c : Stats) (w : W)
      → ArchiveKept w (handle s (archive aws a) b apply key size c w).1
  unfolding handle
  handle-ArchiveKept b false key size c w = restore_object-ArchiveKept b key size w
  handle-ArchiveKept b true key size c w = restore_object-ArchiveKept b key size w

  ensure-ArchiveKept : (b : Text) (w : W) → ArchiveKept w (ensure_bucket (tiering s aws a) b w).1
  unfolding ensure_bucket
  ensure-ArchiveKept b w =
      kept_trans (kept_Same (local_laws.bucket_exists_reads b w))
        (made (s.bucket_exists b w).0 (s.bucket_exists b w).1)
    where
      made : (exists : Result Bool) (w' : W) → ArchiveKept w' (made_bucket s b exists w').1
      made (err e) w' = kept_refl w'
      made (ok true) w' = kept_refl w'
      made (ok false) w' = kept_Same (local_laws.make_bucket_reads b w')

  walk-ArchiveKept : (b : Text) (w : W) → ArchiveKept w (walk aws a b w).1
  unfolding walk
  walk-ArchiveKept b w =
      if-ends (ArchiveKept w) (not a.enabled) _ _ w (λ _. kept_refl w)
        (λ _. kept_Same (s3_laws.list_reads (resolve a b []).0 (resolve a b []).1 w))

  module _ (ctx_err : M W (Option Error)) (ctx_reads : (w : W) → Same v (ctx_err w).1 w) (b : Text)
      (apply : Bool) (limit : ℕ) where
    walk_all-ArchiveKept :
        (c : Stats) (w : W) → ArchiveKept w (walk_all s (archive aws a) b ctx_err apply limit c w).1
    unfolding walk_all
    walk_all-ArchiveKept c w =
        let (found, w1) = walk aws a b w in
        let (fed, w2) = feed s (archive aws a) b ctx_err apply limit found.0 found.1 c w1 in
        kept_trans (walk-ArchiveKept b w) (
          kept_trans
            (feed_relates s (archive aws a) b ctx_err apply limit (λ x y. ArchiveKept x.1 y.1)
              (λ x. kept_refl x.1) (λ x y z p q. kept_trans p q) (λ _ u. kept_Same (ctx_reads u))
              (λ key size x u _. handle-ArchiveKept b apply key size _ u) found.0 found.1 c w1)
            (kept_Same (ctx_reads w2)))

    prepared-ArchiveKept :
        (e : Option Error) (c : Stats) (w : W)
        → ArchiveKept w (prepared s (archive aws a) b ctx_err apply limit e c w).1
    prepared-ArchiveKept (some e) c w = kept_refl w
    prepared-ArchiveKept none c w = walk_all-ArchiveKept c w

    -- A restore takes nothing out of the archive and changes nothing in it, dry or not, wherever it
    -- is interrupted and whatever the stores answer.
    pub run_keeps_archive :
        (c : Stats) (w : W) (bucket key : Text)
        → v.archived (run s (archive aws a) b ctx_err apply limit c w).1 bucket key
          ≡ v.archived w bucket key
    unfolding run
    run_keeps_archive c w =
        (if-ends (ArchiveKept w) (not apply) _ _ w (λ _. walk_all-ArchiveKept c w)
          λ _.
            let (e, w') = ensure_bucket (tiering s aws a) b w in
            kept_trans (ensure-ArchiveKept b w) (prepared-ArchiveKept e c w')).at
