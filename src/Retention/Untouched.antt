-- ===== src/Retention/Untouched.antt =====
-- What a pass of the retention job leaves alone.
use cdn.Common.{
  ℕ, ◌+◌, ◌≤◌, ◌≡◌, refl, ◌∙◌, ◌≢◌, inr, Bool, true, false, not, ◌&&◌, Option, none, some, List,
  ◌∷◌, arith, All, [],
}
use cdn.Text.{Text}
use cdn.Storage.{Error, ObjectInfo, ObjectStore, AwsService, M}
use cdn.Storage.Documented.{View, Same, StoreLaws, S3Laws}
use cdn.Storage.Actions.{if-ends}
use cdn.Archive.{ArchiveConfig, archive}
use cdn.Tiering.{verify_archived}
use cdn.Tiering.Served.Steps.{verify_archived-Same, Same-trans}
use cdn.Retention.{
  RetentionStats, is_old, visit, visit_entry, process, sweep_objects, run_once, delete_verified,
  target_buckets,
}
use cdn.Retention.Loops.{sweep_objects_ends, sweep_targets_ends}
use cdn.Retention.Sweep.{retention, target_buckets-Same}

module _ {W : Type 0} (v : View W) (s : ObjectStore W) (aws : AwsService W) (a : ArchiveConfig)
    (local_laws : StoreLaws v s) (s3_laws : S3Laws v aws) where
  same : (w : W) → Same v w w
  same w = record { local = λ _ _. refl; archived = λ _ _. refl }

  -- The relation that `w'` has what `w` has.
  abbrev Kept : W → W → Type 0
  Kept w w' = Same v w' w

  Kept-trans : (x y z : W) → Kept x y → Kept y z → Kept x z
  Kept-trans x y z p q = Same-trans v a q p

  process_dry :
      (b : Text) (obj : ObjectInfo) (c : RetentionStats) (w : W)
      → Kept w (process s (archive aws a) b true obj c w).1
  unfolding process delete_verified
  process_dry b obj c w =
      let (verdict, w') = verify_archived (archive aws a) b obj.key obj.size w in
      let kept = verify_archived-Same v aws a s3_laws b obj.key obj.size w in
      if-ends (Kept w) verdict.verified _ _ w' (λ _. kept) (λ _. kept)

  visit_dry :
      (b : Text) (window now : ℕ) (failure : Option Error) (obj : ObjectInfo) (c : RetentionStats)
      (w : W)
      → Kept w (visit_entry s (archive aws a) b true window now failure obj c w).1
  unfolding visit_entry
  visit_dry b window now (some e) obj c w = same w
  visit_dry b window now none obj c w =
      if-ends (Kept w) (is_old window now obj) _ _ w (λ _. process_dry b obj _ w) (λ _. same w)

  all_unit : (l : List ObjectInfo) → All (λ _. Unit {0}) l
  all_unit [] = tt
  all_unit (o ∷ l) = (tt, all_unit l)

  sweep_dry :
      (b : Text) (window now : ℕ) (objs : List ObjectInfo) (c : RetentionStats) (w : W)
      → Kept w (sweep_objects s (archive aws a) b true window now objs c w).1
  unfolding visit
  sweep_dry b window now objs c w =
      sweep_objects_ends Kept same Kept-trans s (archive aws a) true window now b (λ _ _. Unit {0})
        (λ _ _ _ _ _. tt) (λ obj c' w' _. visit_dry b window now obj.failure obj c' w') objs c w
        (all_unit objs)

  -- A pass in a dry run changes nothing in either store, whatever it reports.
  pub run_once_dry :
      (ctx_err : M W (Option Error))
      → ((w : W) → Same v (ctx_err w).1 w)
      → (on : Bool) (window now : ℕ) (buckets : List Text) (w : W)
      → Same v (run_once ctx_err (retention s (archive aws a) on true window buckets) now w).1 w
  unfolding run_once
  run_once_dry ctx_err reads on window now buckets w =
      if-ends (Kept w) (not (on && a.enabled)) _ _ w (λ _. same w)
        λ _.
          let (targets, w') = target_buckets s (archive aws a) buckets w in
          Kept-trans _ _ _ (target_buckets-Same v s aws a local_laws s3_laws buckets w) (
            sweep_targets_ends Kept same Kept-trans s (archive aws a) true window now ctx_err reads
              local_laws.list_objects_reads (λ b c u. sweep_dry b window now _ c _) targets w')

  module _ (dry_run : Bool) (b k : Text) where
    -- The local copy is as it was.
    abbrev Stays : W → W → Type 0
    Stays w w' = v.local w' b k ≡ v.local w b k

    Stays-trans : (x y z : W) → Stays x y → Stays y z → Stays x z
    Stays-trans x y z p q = q ∙ p

    delete-Stays :
        (dry : Bool) (obj : ObjectInfo) (c : RetentionStats) (w : W)
        → k ≢ obj.key
        → Stays w (delete_verified s (archive aws a) b dry obj c w).1
    unfolding delete_verified
    delete-Stays true obj c w other = refl
    delete-Stays false obj c w other = local_laws.remove_object_other b obj.key b k w (inr other)

    process-Stays :
        (obj : ObjectInfo) (c : RetentionStats) (w : W)
        → k ≢ obj.key
        → Stays w (process s (archive aws a) b dry_run obj c w).1
    unfolding process
    process-Stays obj c w other =
        let (verdict, w') = verify_archived (archive aws a) b obj.key obj.size w in
        let kept = (verify_archived-Same v aws a s3_laws b obj.key obj.size w).local b k in
        if-ends (Stays w) verdict.verified _ _ w' (λ _. delete-Stays dry_run obj c w' other ∙ kept)
          (λ _. kept)

    visit-Stays :
        (window now : ℕ) (failure : Option Error) (obj : ObjectInfo) (c : RetentionStats) (w : W)
        → (k ≡ obj.key → is_old window now obj ≡ false)
        → Stays w (visit_entry s (archive aws a) b dry_run window now failure obj c w).1
    unfolding visit_entry
    visit-Stays window now (some e) obj c w young = refl
    visit-Stays window now none obj c w young =
        if-ends (Stays w) (is_old window now obj) _ _ w
          (λ old. process-Stays obj _ w (λ e. cc (young e, old))) (λ _. refl)

    -- The sweep of a bucket leaves the local copy of an object alone if no entry of the listing with
    -- the object's key is old, which is last_modified + window < now.
    pub sweep_objects_young :
        (window now : ℕ) (objs : List ObjectInfo) (c : RetentionStats) (w : W)
        → All (λ obj. k ≡ obj.key → now ≤ obj.last_modified + window) objs
        → v.local (sweep_objects s (archive aws a) b dry_run window now objs c w).1 b k
          ≡ v.local w b k
    unfolding visit
    sweep_objects_young window now =
        sweep_objects_ends Stays (λ _. refl) Stays-trans s (archive aws a) dry_run window now b
          (λ _ obj. k ≡ obj.key → now ≤ obj.last_modified + window) (λ _ _ _ _ h. h)
          (λ obj c w young. visit-Stays window now obj.failure obj c w (λ e. not_old obj (young e)))
      where
        not_old :
            (obj : ObjectInfo) → now ≤ obj.last_modified + window → is_old window now obj ≡ false
        not_old obj h = ground arith
