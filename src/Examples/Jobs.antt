-- ===== src/Examples/Jobs.antt =====
-- The jobs over the stores, at disks with one object in bucket photos.
use cdn.Common.{◌+◌, ◌≡◌, refl, true, false, none, List, ◌∷◌, arith, []}
use cdn.Storage.{ObjectInfo, Reader}
use cdn.Storage.Documented.{Same}
use cdn.Archive.{archive, walk, in_scope, put}
use cdn.Archive.Listing.{walk_located, located, placed}
use cdn.Tiering.Served.{KeepsServed}
use cdn.Retention.{run_once, sweep_objects, no_stats}
use cdn.Retention.Sweep.{retention, run_once-KeepsServed}
use cdn.Retention.Untouched.{run_once_dry, sweep_objects_young}
use cdn.Retention.Counters.{sweep_objects_balance, settled, failures, old_count}
use cdn.Backfill.{run_buckets}
use cdn.Backfill as Backfill
use cdn.Backfill.Copies.{run_buckets_copies}
use cdn.Restore.{run}
use cdn.Restore as Restore
use cdn.Restore.Kept.{run_keeps_archive}
use cdn.Examples.Memory.{
  memory_store, memory_s3, memory_view, memory_store-StoreLaws, memory_s3-S3Laws, same, info, Disk,
}
use cdn.Examples.Tiers.{
  mirrored-Faithful, photos, cat, disk, single, vault, mirrored, evicted, no_cancel,
}
use cdn.Text.{codes, ◌=?◌, Text, member}

run_once-KeepsServed_example :
    KeepsServed memory_view single mirrored
      (run_once no_cancel
        (retention memory_store (archive memory_s3 single) true false 10 (photos ∷ []))
        100
        mirrored).1
run_once-KeepsServed_example =
    run_once-KeepsServed memory_view memory_store memory_s3 single memory_store-StoreLaws
      memory_s3-S3Laws no_cancel same true false 10 100 (photos ∷ []) mirrored mirrored-Faithful

run_once_dry_example :
    Same memory_view
      (run_once no_cancel
        (retention memory_store (archive memory_s3 single) true true 10 (photos ∷ []))
        100
        mirrored).1
      mirrored
run_once_dry_example =
    run_once_dry memory_view memory_store memory_s3 single memory_store-StoreLaws memory_s3-S3Laws
      no_cancel same true 10 100 (photos ∷ []) mirrored

-- The listing of the bucket: one object, last modified at 5.
abbrev listed : List ObjectInfo
listed = info 5 cat (1 ∷ 2 ∷ 3 ∷ []) ∷ []

sweep_objects_young_example :
    memory_view.local
      (sweep_objects memory_store
        (archive memory_s3 single)
        photos
        false
        10
        12
        listed
        no_stats
        mirrored).1
      photos
      cat
    ≡ memory_view.local mirrored photos cat
sweep_objects_young_example =
    sweep_objects_young memory_view memory_store memory_s3 single memory_store-StoreLaws
      memory_s3-S3Laws false photos cat 10 12 listed no_stats mirrored ((λ _. omega arith), tt)

sweep_objects_balance_example :
    let c =
      (sweep_objects memory_store
        (archive memory_s3 single)
        photos
        false
        10
        100
        listed
        no_stats
        mirrored).0 in
    (settled c ≡ 0 + failures listed + old_count 10 100 listed)
    × (c.scanned + failures listed ≡ 0 + 1)
    × (c.eligible ≡ 0 + old_count 10 100 listed)
sweep_objects_balance_example =
    sweep_objects_balance memory_store (archive memory_s3 single) photos false 10 100 listed
      no_stats mirrored

listed_below :
    (memory_s3.s3_list_objects
      (placed single.bucket photos []).0
      (placed single.bucket photos []).1
      evicted).0
    ≡ (located single.bucket photos ((cat, 3) ∷ []), none)
unfolding ◌=?◌
listed_below = refl

photos_in_scope : in_scope single photos ≡ true
unfolding in_scope ◌=?◌ member
photos_in_scope = refl

walk_located_example :
    ((walk memory_s3 single photos evicted).0 ≡ ((cat, 3) ∷ [], none))
    × ((key : Text) (body : Reader) (x : Disk)
        → (put memory_s3 single photos key body x).1
          ≡ (memory_s3.s3_put_object
              (placed single.bucket photos key).0
              (placed single.bucket photos key).1
              body
              x).1)
walk_located_example =
    walk_located memory_s3 single photos ((cat, 3) ∷ []) none evicted photos_in_scope
      ((λ e. cc e), tt) listed_below

abbrev no_uploads : Backfill.Stats
no_uploads = record { scanned = 0; uploaded = 0; skipped = 0; failed = 0; bytes = 0 }

abbrev nothing_restored : Restore.Stats
nothing_restored = record { scanned = 0; restored = 0; skipped = 0; failed = 0; bytes = 0 }

run_buckets_copies_example :
    memory_view.local
      (run_buckets memory_store
        (archive memory_s3 single)
        no_cancel
        true
        0
        (photos ∷ [])
        no_uploads
        disk).1
      photos
      cat
    ≡ memory_view.local disk photos cat
run_buckets_copies_example =
    run_buckets_copies memory_view memory_store memory_s3 single memory_store-StoreLaws
      memory_s3-S3Laws no_cancel same true 0 (photos ∷ []) no_uploads disk photos cat

run_keeps_archive_example :
    memory_view.archived
      (run memory_store
        (archive memory_s3 single)
        photos
        no_cancel
        true
        0
        nothing_restored
        evicted).1
      vault
      (codes "photos/cat.png")
    ≡ memory_view.archived evicted vault (codes "photos/cat.png")
run_keeps_archive_example =
    run_keeps_archive memory_view memory_store memory_s3 single memory_store-StoreLaws
      memory_s3-S3Laws no_cancel same photos true 0 nothing_restored evicted vault
      (codes "photos/cat.png")
