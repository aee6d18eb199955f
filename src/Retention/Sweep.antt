-- ===== src/Retention/Sweep.antt =====
-- A pass of the retention job, seen from the stores.
use cdn.Retention.Loops.{sweep_objects_ends, sweep_targets_ends}
use cdn.Storage.Actions.{if-ends}
use cdn.Tiering.{verify_archived}
use cdn.Common.{
  ℕ, ◌≡◌, refl, sym, ◌∙◌, ◌⊎◌, inl, inr, Bool, Option, none, some, List, ◌∷◌, arith, All, [], true,
  false, not, ◌&&◌,
}
use cdn.Text.{Text}
use cdn.Storage.{Error, ObjectInfo, ObjectStore, AwsService, M, Archive}
use cdn.Storage.Documented.{View, Same, StoreLaws, S3Laws, Listed}
use cdn.Archive.{ArchiveConfig, archive}
use cdn.Tiering.Served.{Faithful, KeepsServed, Preserves, HasSize, HoldsArchived}
use cdn.Tiering.Served.Steps.{
  Preserves-trans, Preserves-Same, texts_differ, verify_archived-Same, HasSize-Same,
  HoldsArchived-Same, verified_held, remove-Preserves,
}
use cdn.Retention.{
  RetentionStats, visit_entry, process, sweep_objects, delete_verified, visit, is_old,
  target_buckets, Retention, run_once,
}

module _ {W : Type 0} (v : View W) where
  -- What is local is as it was, or gone.
  pub record Shrinks (w w' : W) : Type 0 where
    pub at : (b k : Text) → (v.local w' b k ≡ v.local w b k) ⊎ (v.local w' b k ≡ none)

  Shrinks-refl : (w : W) → Shrinks w w
  Shrinks-refl w = record { at = λ b k. inl refl }

  Shrinks-Same : {w w' : W} → Same v w' w → Shrinks w w'
  Shrinks-Same s = record { at = λ b k. inl (s.local b k) }

  Shrinks-trans : {x y z : W} → Shrinks x y → Shrinks y z → Shrinks x z
  Shrinks-trans p q = record { at = λ b k. ground (arith, p.at b k, q.at b k) }

  -- The entries of a listing have the sizes of what is still local.
  abbrev Sized : ArchiveConfig → W → Text → List ObjectInfo → Type 0
  Sized a w bucket = All (λ obj. obj.failure ≡ none → HasSize v a w bucket obj.key obj.size)

  HasSize-Shrinks :
      (a : ArchiveConfig) {w w' : W} (b k : Text) (n : ℕ)
      → Shrinks w w'
      → HasSize v a w b k n
      → HasSize v a w' b k n
  HasSize-Shrinks a {w} {w'} b k n s h =
      λ c e. elim (s.at b k) [ inl kept ↦ h c (sym kept ∙ e) | inr gone ↦ cc (gone, e) ]

  Sized-Shrinks :
      (a : ArchiveConfig) {w w' : W} (b : Text) (objs : List ObjectInfo)
      → Shrinks w w'
      → Sized a w b objs
      → Sized a w' b objs
  Sized-Shrinks a b [] s h = h
  Sized-Shrinks a b (obj ∷ objs) s (h, hs) =
      (λ e. HasSize-Shrinks a b obj.key obj.size s (h e), Sized-Shrinks a b objs s hs)

  Sized-Listed :
      (a : ArchiveConfig) (w : W) (b : Text) (objs : List ObjectInfo)
      → All (Listed v w b) objs
      → Sized a w b objs
  Sized-Listed a w b [] h = h
  Sized-Listed a w b (obj ∷ objs) (h, hs) = (
    λ e c f. let (d, held, fits) = h e in ground (arith, held, fits, f),
    Sized-Listed a w b objs hs,
  )

module _ {W : Type 0} (v : View W) (a : ArchiveConfig) where
  -- A step of the sweep: it keeps what is served, and only takes away locally.
  record Fair (w w' : W) : Type 0 where
    served : Preserves v a w w'
    shrinks : Shrinks v w w'

  Fair-Same : {w w' : W} → Same v w' w → Fair w w'
  Fair-Same same = record { served = Preserves-Same v a same; shrinks = Shrinks-Same v same }

  Fair-refl : (w : W) → Fair w w
  Fair-refl w = Fair-Same (record { local = λ _ _. refl; archived = λ _ _. refl })

  Fair-trans : (x y z : W) → Fair x y → Fair y z → Fair x z
  Fair-trans x y z p q = record {
    served = Preserves-trans v a p.served q.served;
    shrinks = Shrinks-trans v p.shrinks q.shrinks;
  }

module _ {W : Type 0} (v : View W) (s : ObjectStore W) (aws : AwsService W) (a : ArchiveConfig)
    (local_laws : StoreLaws v s) (s3_laws : S3Laws v aws) where
  remove-Shrinks : (b k : Text) (w : W) → Shrinks v w (s.remove_object b k w).1
  remove-Shrinks b k w = record { at = at }
    where
      at :
          (c l : Text)
          → (v.local (s.remove_object b k w).1 c l ≡ v.local w c l)
            ⊎ (v.local (s.remove_object b k w).1 c l ≡ none)
      at c l = elim (texts_differ c l b k) [
        | inl d ↦ inl (local_laws.remove_object_other b k c l w d)
        | inr (p, q) ↦ rw (p, q) (local_laws.remove_object_self b k w)
      ]

  delete_verified-Fair :
      (dry_run : Bool) (b : Text) (obj : ObjectInfo) (c : RetentionStats) (w : W)
      → HasSize v a w b obj.key obj.size
      → HoldsArchived v a w b obj.key obj.size
      → Fair v a w (delete_verified s (archive aws a) b dry_run obj c w).1
  unfolding delete_verified
  delete_verified-Fair true b obj c w size held = Fair-refl v a w
  delete_verified-Fair false b obj c w size held = record {
    served = remove-Preserves v s a local_laws b obj.key obj.size w size held;
    shrinks = remove-Shrinks b obj.key w;
  }

  module _ (dry_run : Bool) (b : Text) where
    process-Fair :
        (obj : ObjectInfo) (c : RetentionStats) (w : W)
        → HasSize v a w b obj.key obj.size
        → Fair v a w (process s (archive aws a) b dry_run obj c w).1
    unfolding process
    process-Fair obj c w size =
        let (verdict, w') = verify_archived (archive aws a) b obj.key obj.size w in
        let kept = verify_archived-Same v aws a s3_laws b obj.key obj.size w in
        if-ends (Fair v a w) verdict.verified _ _ w'
          (λ good. Fair-trans v a _ _ _ (Fair-Same v a kept) (
            delete_verified-Fair dry_run b obj c w' (HasSize-Same v a b obj.key obj.size kept size)
              (HoldsArchived-Same v a b obj.key obj.size kept
                (verified_held v aws a s3_laws b obj.key obj.size w good))))
          (λ _. Fair-Same v a kept)

    visit_entry-Fair :
        (window now : ℕ) (failure : Option Error) (obj : ObjectInfo) (c : RetentionStats) (w : W)
        → (failure ≡ none → HasSize v a w b obj.key obj.size)
        → Fair v a w (visit_entry s (archive aws a) b dry_run window now failure obj c w).1
    unfolding visit_entry
    visit_entry-Fair window now (some e) obj c w size = Fair-refl v a w
    visit_entry-Fair window now none obj c w size =
        if-ends (Fair v a w) (is_old window now obj) _ _ w (λ _. process-Fair obj _ w (size refl))
          (λ _. Fair-refl v a w)

    -- A sweep of the listing of a bucket.
    sweep_listed-Fair :
        (window now : ℕ) (objs : List ObjectInfo) (c : RetentionStats) (w : W)
        → Sized v a w b objs
        → Fair v a w (sweep_objects s (archive aws a) b dry_run window now objs c w).1
    unfolding visit
    sweep_listed-Fair window now =
        sweep_objects_ends (Fair v a) (Fair-refl v a) (Fair-trans v a) s (archive aws a) dry_run
          window now b (λ w obj. obj.failure ≡ none → HasSize v a w b obj.key obj.size)
          (λ w w' obj r h e. HasSize-Shrinks v a b obj.key obj.size r.shrinks (h e))
          (λ obj c w h. visit_entry-Fair window now obj.failure obj c w h)

  pub target_buckets-Same :
      (bs : List Text) (w : W) → Same v (target_buckets s (archive aws a) bs w).1 w
  unfolding target_buckets
  target_buckets-Same [] w = local_laws.list_buckets_reads w
  target_buckets-Same (b ∷ bs) w = record { local = λ _ _. refl; archived = λ _ _. refl }

-- The job over an archive that is not nil.
abbrev pub retention :
    {W : Type 0} → ObjectStore W → Archive W → Bool → Bool → ℕ → List Text → Retention W
retention s a on dry_run window buckets = record {
  store = s;
  archive = some a;
  enabled = on;
  dry_run = dry_run;
  window = window;
  buckets = buckets;
}

module _ {W : Type 0} (v : View W) (s : ObjectStore W) (aws : AwsService W) (a : ArchiveConfig)
    (local_laws : StoreLaws v s) (s3_laws : S3Laws v aws) (ctx_err : M W (Option Error))
    (ctx_reads : (w : W) → Same v (ctx_err w).1 w) where
  run_once-Preserves :
      (on dry_run : Bool) (window now : ℕ) (buckets : List Text) (w : W)
      → Preserves v a w
          (run_once ctx_err (retention s (archive aws a) on dry_run window buckets) now w).1
  unfolding run_once
  run_once-Preserves on dry_run window now buckets w =
      if-ends (Preserves v a w) (not (on && a.enabled)) _ _ w (λ _. (Fair-refl v a w).served)
        λ _.
          let (targets, w') = target_buckets s (archive aws a) buckets w in
          (Fair-trans v a _ _ _
            (Fair-Same v a (target_buckets-Same v s aws a local_laws s3_laws buckets w))
            (sweep_targets_ends (Fair v a) (Fair-refl v a) (Fair-trans v a) s (archive aws a)
              dry_run window now ctx_err (λ u. Fair-Same v a (ctx_reads u))
              (λ b u. Fair-Same v a (local_laws.list_objects_reads b u))
              (λ b c u. sweep_listed-Fair v s aws a local_laws s3_laws dry_run b window now _ c _ (
                Sized-Shrinks v a b _ (Shrinks-Same v (local_laws.list_objects_reads b u))
                  (Sized-Listed v a u b _ (local_laws.list_objects_held b u))))
              targets w')).served

  -- A pass of the retention job leaves the bytes that are served of every object as they were,
  -- whatever the archive answers, whatever deletes fail, and wherever the context is cancelled. This
  -- holds where local and archived copies of one size are the same bytes, and the pass keeps them so.
  -- All of it is about buckets without a slash in their name.
  pub run_once-KeepsServed :
      (on dry_run : Bool) (window now : ℕ) (buckets : List Text) (w : W)
      → Faithful v a w
      → KeepsServed v a w
          (run_once ctx_err (retention s (archive aws a) on dry_run window buckets) now w).1
  run_once-KeepsServed on dry_run window now buckets w f =
      (run_once-Preserves on dry_run window now buckets w).kept f
