-- ===== src/Retention/Counters.antt =====
-- The counters of a sweep account for every object.
use cdn.Common.{ℕ, suc, ◌+◌, ◌≡◌, Bool, none, some, List, ◌∷◌, arith, if◌then◌else◌, length, []}
use cdn.Text.{Text}
use cdn.Storage.{ObjectInfo, ObjectStore, Archive}
use cdn.Retention.{
  RetentionStats, is_old, visit, process, sweep_objects, count_deleted, count_error, count_kept,
  count_removed, delete_verified,
}

-- The objects of which the sweep has said what became of them.
abbrev pub settled : RetentionStats → ℕ
settled c = c.deleted + c.not_archived + c.size_mismatch + c.errors

-- The entries of a listing that report a failure, and those that are old.
abbrev pub failures : List ObjectInfo → ℕ
failures [] = 0
failures (obj ∷ objs) = elim obj.failure [ none ↦ failures objs | some _ ↦ suc (failures objs) ]

abbrev pub old_count : ℕ → ℕ → List ObjectInfo → ℕ
old_count window now [] = 0
old_count window now (obj ∷ objs) =
    let rest = old_count window now objs in
    elim obj.failure [ some _ ↦ rest | none ↦ if is_old window now obj then suc rest else rest ]

module _ {W : Type 0} (store : ObjectStore W) (a : Archive W) (bucket : Text) (dry_run : Bool) where
  -- An object that is processed is settled once, whatever the stores answer.
  process_settles :
      (obj : ObjectInfo) (c : RetentionStats) (w : W)
      → let c' = (process store a bucket dry_run obj c w).0 in
        (settled c' ≡ settled c + 1) × (c'.scanned ≡ c.scanned) × (c'.eligible ≡ c.eligible)
  unfolding process delete_verified count_removed count_kept count_deleted count_error
  process_settles obj c w = ground arith

  module _ (window now : ℕ) where
    visit_counts :
        (obj : ObjectInfo) (c : RetentionStats) (w : W)
        → let c' = (visit store a bucket dry_run window now obj c w).0 in
          (settled c' ≡ settled c + failures (obj ∷ []) + old_count window now (obj ∷ []))
          × (c'.scanned + failures (obj ∷ []) ≡ c.scanned + 1)
          × (c'.eligible ≡ c.eligible + old_count window now (obj ∷ []))
    unfolding visit count_error
    visit_counts obj c w = ground (
      arith,
      process_settles obj (record c { scanned = c.scanned + 1; eligible = c.eligible + 1 }) w,
    )

    -- A sweep of a bucket's listing counts every entry as scanned or as a failure, counts as
    -- eligible exactly the old ones that are no failure, and settles each eligible one and each
    -- failure exactly once, whatever the stores answer.
    pub sweep_objects_balance :
        (objs : List ObjectInfo) (c : RetentionStats) (w : W)
        → let c' = (sweep_objects store a bucket dry_run window now objs c w).0 in
          (settled c' ≡ settled c + failures objs + old_count window now objs)
          × (c'.scanned + failures objs ≡ c.scanned + length objs)
          × (c'.eligible ≡ c.eligible + old_count window now objs)
    unfolding sweep_objects
    sweep_objects_balance [] c w = omega arith
    sweep_objects_balance (obj ∷ objs) c w =
        let (c', w') = visit store a bucket dry_run window now obj c w in
        ground (arith, visit_counts obj c w, sweep_objects_balance objs c' w')
