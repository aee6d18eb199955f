-- ===== src/Retention/Loops.antt =====
-- What a relation between states needs to hold of a whole sweep, for any relation that composes.
use cdn.Common.{ℕ, Bool, Option, none, some, List, ◌∷◌, All, []}
use cdn.Text.{Text}
use cdn.Storage.{◌>>=◌}
use cdn.Storage.{Error, Result, ok, err, ObjectInfo, ObjectStore, Archive, M}
use cdn.Retention.{
  RetentionStats, visit, sweep_objects, sweep_bucket, sweep_buckets, sweep_targets,
  unless_cancelled,
}

module _ {W : Type 0} (R : W → W → Type 0) (R_refl : (w : W) → R w w)
    (R_trans : (x y z : W) → R x y → R y z → R x z) (store : ObjectStore W) (a : Archive W)
    (dry_run : Bool) (window now : ℕ) where
  -- `P` is what each step needs of its object and what the steps keep.
  pub sweep_objects_ends :
      (b : Text) (P : W → ObjectInfo → Type 0)
      → ((w w' : W) (obj : ObjectInfo) → R w w' → P w obj → P w' obj)
      → ((obj : ObjectInfo) (c : RetentionStats) (w : W)
          → P w obj
          → R w (visit store a b dry_run window now obj c w).1)
      → (objs : List ObjectInfo) (c : RetentionStats) (w : W) → All (P w) objs
      → R w (sweep_objects store a b dry_run window now objs c w).1
  unfolding sweep_objects
  sweep_objects_ends b P keep step [] c w h = R_refl w
  sweep_objects_ends b P keep step (obj ∷ objs) c w (h, hs) =
      let (c', w') = visit store a b dry_run window now obj c w in
      let one = step obj c w h in
      R_trans _ _ _ one (sweep_objects_ends b P keep step objs c' w' (kept w' one objs hs))
    where
      kept : (w' : W) → R w w' → (l : List ObjectInfo) → All (P w) l → All (P w') l
      kept w' r [] h = h
      kept w' r (o ∷ l) (h, hs) = (keep w w' o r h, kept w' r l hs)

  module _ (ctx_err : M W (Option Error)) (ctx : (w : W) → R w (ctx_err w).1)
      (listing : (b : Text) (w : W) → R w (store.list_objects b w).1)
      (sweep : (b : Text) (c : RetentionStats) (w : W)
        → let (objs, w') = store.list_objects b w in
          R w' (sweep_objects store a b dry_run window now objs c w').1) where
    sweep_bucket_ends :
        (b : Text) (c : RetentionStats) (w : W)
        → R w (sweep_bucket store a dry_run window now b c w).1
    unfolding sweep_bucket
    sweep_bucket_ends b c w = R_trans _ _ _ (listing b w) (sweep b c w)

    sweep_buckets_ends :
        (bs : List Text) (c : RetentionStats) (w : W)
        → R w (sweep_buckets ctx_err store a dry_run window now bs c w).1
    unfolding sweep_buckets
    sweep_buckets_ends [] c w = R_refl w
    sweep_buckets_ends (b ∷ bs) c w = R_trans _ _ _ (ctx w) (
        go (ctx_err w).0 (ctx_err w).1 (λ w'.
          let (c', w'') = sweep_bucket store a dry_run window now b c w' in
          R_trans _ _ _ (sweep_bucket_ends b c w') (sweep_buckets_ends bs c' w'')))
      where
        go :
            (e : Option Error) (w' : W)
            → ((u : W)
                → R u
                    (let (c', u') = sweep_bucket store a dry_run window now b c u in
                      sweep_buckets ctx_err store a dry_run window now bs c' u').1)
            → R w'
                (unless_cancelled e c
                  (sweep_bucket store a dry_run window now b c
                    >>= sweep_buckets ctx_err store a dry_run window now bs)
                  w').1
        go (some e) w' rest = R_refl w'
        go none w' rest = rest w'

    pub sweep_targets_ends :
        (targets : Result (List Text)) (w : W)
        → R w (sweep_targets ctx_err store a dry_run window now targets w).1
    unfolding sweep_targets
    sweep_targets_ends (err e) w = R_refl w
    sweep_targets_ends (ok bs) w = sweep_buckets_ends bs _ w
