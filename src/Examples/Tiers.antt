-- ===== src/Examples/Tiers.antt =====
-- The moves between the tiers at a disk with one object in bucket photos.
use cdn.Tiering.Served.Moves.{tiering, archive_object-KeepsServed}
use cdn.Tiering.{archive_object}
use cdn.Tiering.Served.{Faithful, KeepsServed, HasSize}
use cdn.Tiering.{
  archived, archive_known_object, archive_known_in, after_check, verify_upload, after_upload,
  evict_verified, verify_archived, copy_to_archive, judge,
}
use cdn.Archive.{archive, put, stat, in_scope, resolve}
use cdn.Storage.{Bytes, Error, is_not_found, is_archive_not_found}
use cdn.Image.{open_object}
use cdn.Image.Reads.{archived_object_opens}
use cdn.Examples.Memory.{memory_s3-Answers}
use cdn.Archive.Location.{NoSlash}
use cdn.Common.{true, none, some, ◌∷◌, arith, [], ◌≡◌, refl, Option, length, sym, ◌∙◌}
use cdn.Text.{Text, codes, ◌=?◌}
use cdn.Archive.{ArchiveConfig, resolve}
use cdn.Examples.Memory.{
  memory-Transfers, Disk, memory_store, memory_s3, memory_view, memory_store-StoreLaws,
  memory_s3-S3Laws, update,
}

abbrev pub photos : Text
photos = codes "photos"

abbrev pub cat : Text
cat = codes "cat.png"

abbrev pub disk : Disk
disk = record {
  held = update (λ _ _. none) photos cat (some (1 ∷ 2 ∷ 3 ∷ []));
  cold = λ _ _. none;
  names = cat ∷ [];
  modified = 5;
}

abbrev pub single : ArchiveConfig
single = record { enabled = true; bucket = codes "vault"; only = none }

-- The same object in both tiers, and in the archive alone.
abbrev pub vault : Text
vault = codes "vault"

abbrev pub content : Bytes
content = 1 ∷ 2 ∷ 3 ∷ []

abbrev pub mirrored : Disk
mirrored = record disk { cold = update (λ _ _. none) vault (codes "photos/cat.png") (some content) }

abbrev pub evicted : Disk
evicted = record mirrored { held = λ _ _. none }

abbrev pub no_cancel : Disk → Option Error × Disk
no_cancel w = (none, w)

pub photos-NoSlash : NoSlash photos
photos-NoSlash = ground arith

-- Nothing is archived yet.
pub disk-Faithful : Faithful memory_view single disk
disk-Faithful = record { at = λ b k c d hb here there e. absurd (cc there) }

only_content :
    (b k p q : Text) (c : Bytes)
    → update (λ _ _. none) p q (some content) b k ≡ some c
    → content ≡ c
only_content b k p q c h = ground (arith, h)

-- Both copies are the same bytes.
pub mirrored-Faithful : Faithful memory_view single mirrored
mirrored-Faithful = record {
  at = λ b k c d hb here there e.
      sym (only_content b k photos cat c here)
      ∙ only_content (resolve single b k).0 (resolve single b k).1 vault (codes "photos/cat.png") d
          there;
}

archive_object-KeepsServed_example :
    KeepsServed memory_view single disk
      (archive_object (tiering memory_store memory_s3 single) photos cat true disk).1
archive_object-KeepsServed_example =
    archive_object-KeepsServed memory_view memory_store memory_s3 single memory_store-StoreLaws
      memory_s3-S3Laws memory-Transfers photos cat true disk photos-NoSlash disk-Faithful

cat-HasSize : HasSize memory_view single disk photos cat 3
unfolding ◌=?◌
cat-HasSize c h = ground (arith, h)

archived_outcome :
    (archive_known_object (tiering memory_store memory_s3 single) photos cat 3 true disk).0.outcome
    ≡ archived
unfolding archive_known_object archive_known_in after_check verify_upload after_upload
    evict_verified verify_archived copy_to_archive judge put stat in_scope resolve is_not_found
    is_archive_not_found ◌=?◌
archived_outcome = refl

archived_object_opens_example :
    (c : Bytes) × (length c ≡ 3)
    × ((open_object memory_store
          (some (archive memory_s3 single))
          photos
          cat
          (archive_known_object (tiering memory_store memory_s3 single) photos cat 3 true disk).1).0
        ≡ some (record { bytes = c; fault = none }, 3))
archived_object_opens_example =
    archived_object_opens memory_view memory_store memory_s3 single memory_store-StoreLaws
      memory_s3-S3Laws photos cat 3 true disk refl (memory_s3-Answers _ _ _) archived_outcome
