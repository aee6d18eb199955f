-- ===== src/Retention.antt =====
-- service/retention.go: the sweep that frees local disk of what the archive already holds. An object
-- is processed whole before the next: the workers that share a bucket's queue are not interleaved.
-- A time is a number, and an object is old where last_modified + window < now, which is
-- LastModified.Before(now.Add(-window)) with no subtraction. Counters of objects are unbounded; the
-- bytes freed are an int64.
pub mod Loops
pub mod Sweep
pub mod Untouched
pub mod Counters
use cdn.Common.{
  ℕ, ◌+◌, ◌%◌, ◌^◌, Bool, true, false, ◌&&◌, Option, none, some, List, ◌∷◌, ltb, if◌then◌else◌, [],
  not,
}
use cdn.Text.{Text}
use cdn.Storage.{
  Error, Result, ok, err, ObjectInfo, ObjectStore, Archive, M, ◌>>=◌, pure, archive_disabled,
}
use cdn.Tiering.{
  VerifyReason, verify_not_archived, verify_size_mismatch, verify_archived, is_enabled,
}

pub record RetentionStats : Type 0 where
  pub scanned : ℕ
  pub eligible : ℕ
  pub deleted : ℕ
  pub bytes_freed : ℕ
  pub not_archived : ℕ
  pub size_mismatch : ℕ
  pub errors : ℕ

abbrev pub no_stats : RetentionStats
no_stats = record {
  scanned = 0;
  eligible = 0;
  deleted = 0;
  bytes_freed = 0;
  not_archived = 0;
  size_mismatch = 0;
  errors = 0;
}

-- The struct Retention, less its Tiering, which has the same store and archive, and its interval.
pub record Retention (W : Type 0) : Type 0 where
  pub store : ObjectStore W
  pub archive : Option (Archive W)
  pub enabled : Bool
  pub dry_run : Bool
  pub window : ℕ
  pub buckets : List Text

-- An int64 addition, on bit patterns.
abbrev pub add_i64 : ℕ → ℕ → ℕ
add_i64 a b = (a + b) % 2 ^ 64

unfoldable pub count_deleted : ℕ → RetentionStats → RetentionStats
count_deleted size c = record c {
  deleted = c.deleted + 1;
  bytes_freed = add_i64 c.bytes_freed size;
}

unfoldable pub count_error : RetentionStats → RetentionStats
count_error c = record c { errors = c.errors + 1 }

-- Retention.verifyArchived, where the verdict is negative.
unfoldable pub count_kept : VerifyReason → RetentionStats → RetentionStats
unfolding count_error
count_kept verify_not_archived c = record c { not_archived = c.not_archived + 1 }
count_kept verify_size_mismatch c = record c { size_mismatch = c.size_mismatch + 1 }
count_kept _ c = count_error c

abbrev pub is_old : ℕ → ℕ → ObjectInfo → Bool
is_old window now obj = ltb (obj.last_modified + window) now

unfoldable pub count_removed : ℕ → RetentionStats → Option Error → RetentionStats
unfolding count_deleted count_error
count_removed size c none = count_deleted size c
count_removed size c (some e) = count_error c

module _ {W : Type 0} where
  unfoldable pub enabled : Retention W → Bool
  unfolding is_enabled
  enabled r = r.enabled && is_enabled r.archive

  module _ (store : ObjectStore W) (a : Archive W) (bucket : Text) where
    -- The delete, or its report in a dry run, of an object whose verdict is positive.
    unfoldable pub delete_verified : Bool → ObjectInfo → RetentionStats → M W RetentionStats
    unfolding count_deleted
    delete_verified true obj c = pure (count_deleted obj.size c)
    delete_verified false obj c = do
      e ← store.remove_object bucket obj.key
      pure (count_removed obj.size c e)

    unfoldable pub process : Bool → ObjectInfo → RetentionStats → M W RetentionStats
    process dry_run obj c = do
      v ← verify_archived a bucket obj.key obj.size
      if v.verified then delete_verified dry_run obj c else pure (count_kept v.reason c)

    -- What the loop over a listing does with one of its entries, by the entry's failure.
    unfoldable pub visit_entry :
        Bool → ℕ → ℕ → Option Error → ObjectInfo → RetentionStats → M W RetentionStats
    unfolding count_error
    visit_entry dry_run window now (some e) obj c = pure (count_error c)
    visit_entry dry_run window now none obj c =
        if is_old window now obj
        then process dry_run obj (record c { scanned = c.scanned + 1; eligible = c.eligible + 1 })
        else pure (record c { scanned = c.scanned + 1 })

    unfoldable pub visit : Bool → ℕ → ℕ → ObjectInfo → RetentionStats → M W RetentionStats
    unfolding visit_entry
    visit dry_run window now obj c = visit_entry dry_run window now obj.failure obj c

    unfoldable pub sweep_objects :
        Bool → ℕ → ℕ → List ObjectInfo → RetentionStats → M W RetentionStats
    sweep_objects dry_run window now [] c = pure c
    sweep_objects dry_run window now (obj ∷ objs) c = do
      c' ← visit dry_run window now obj c
      sweep_objects dry_run window now objs c'

  unfoldable pub sweep_bucket :
      ObjectStore W → Archive W → Bool → ℕ → ℕ → Text → RetentionStats → M W RetentionStats
  sweep_bucket store a dry_run window now b c = do
    objs ← store.list_objects b
    sweep_objects store a b dry_run window now objs c

  -- The buckets of the scope, in their order.
  unfoldable pub scoped : Archive W → List Text → List Text
  scoped a [] = []
  scoped a (b ∷ bs) = let rest = scoped a bs in if a.in_scope b then b ∷ rest else rest

  abbrev pub scoped_result : Archive W → Result (List Text) → Result (List Text)
  scoped_result a (ok bs) = ok (scoped a bs)
  scoped_result a (err e) = err e

  unfoldable pub target_buckets : ObjectStore W → Archive W → List Text → M W (Result (List Text))
  target_buckets store a [] = do infos ← store.list_buckets; pure (scoped_result a infos)
  target_buckets store a (b ∷ bs) = pure (ok (scoped a (b ∷ bs)))

  -- The rest of the run, unless the context was cancelled.
  abbrev pub unless_cancelled :
      Option Error
      → RetentionStats
      → M W (RetentionStats × Option Error)
      → M W (RetentionStats × Option Error)
  unless_cancelled (some e) c rest = pure (c, some e)
  unless_cancelled none c rest = rest

  module _ (ctx_err : M W (Option Error)) (store : ObjectStore W) (a : Archive W) where
    -- The loop over the buckets. The context is asked before each.
    unfoldable pub sweep_buckets :
        Bool → ℕ → ℕ → List Text → RetentionStats → M W (RetentionStats × Option Error)
    sweep_buckets dry_run window now [] c = pure (c, none)
    sweep_buckets dry_run window now (b ∷ bs) c = do
      e ← ctx_err
      unless_cancelled e c
          (sweep_bucket store a dry_run window now b c >>= sweep_buckets dry_run window now bs)

    unfoldable pub sweep_targets :
        Bool → ℕ → ℕ → Result (List Text) → M W (RetentionStats × Option Error)
    sweep_targets dry_run window now (err e) = pure (no_stats, some e)
    sweep_targets dry_run window now (ok bs) = sweep_buckets dry_run window now bs no_stats

  -- RunOnce. `ctx_err` is ctx.Err().
  unfoldable pub run_once :
      M W (Option Error) → Retention W → ℕ → M W (RetentionStats × Option Error)
  run_once ctx_err r now = elim r.archive [
    | none ↦ pure (no_stats, some archive_disabled)
    | some a ↦ if not (r.enabled && a.enabled) then pure (no_stats, some archive_disabled) else do
      targets ← target_buckets r.store a r.buckets
      sweep_targets ctx_err r.store a r.dry_run r.window now targets
  ]
