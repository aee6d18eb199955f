-- ===== src/Examples/Requests.antt =====
-- Deletes and reads at disks with one object in bucket photos.
use cdn.Common.{◌≡◌, refl, ◌≢◌, true, none, some, ◌∷◌, []}
use cdn.Access.{Principal, resolve_bucket}
use cdn.Image.{AwsDeletes, delete_image, batch_delete}
use cdn.Image.Deletes.{DeleteLaws, delete_image_confined, batch_delete_confined}
use cdn.Examples.Memory.{Disk, memory_store, memory_view, memory_store-StoreLaws, same}
use cdn.Examples.Tiers.{photos, cat, mirrored}
use cdn.Text.{codes, trim_space, ◌=?◌, trim_left, trim_right, is_space}

abbrev deletes : AwsDeletes Disk
deletes = record { bucket_exists = λ b w. (true, w); delete_objects = λ b ks w. (none, w) }

deletes-DeleteLaws : DeleteLaws memory_view deletes
deletes-DeleteLaws = record {
  bucket_exists_reads = λ _. same;
  delete_local = λ _ _ _ _ _. refl;
  delete_other = λ _ _ _ _ _ _. refl;
}

abbrev music : Principal
music = record { scoped = true; bucket = codes "music" }

music_given : resolve_bucket music (codes "music") ≢ some photos
unfolding resolve_bucket trim_space trim_left trim_right is_space ◌=?◌
music_given e = cc e

delete_image_confined_example :
    let w = (delete_image memory_store deletes music (codes "music") true cat mirrored).1 in
    (memory_view.local w photos cat ≡ memory_view.local mirrored photos cat)
    × (memory_view.archived w photos cat ≡ memory_view.archived mirrored photos cat)
delete_image_confined_example =
    delete_image_confined memory_view memory_store deletes memory_store-StoreLaws deletes-DeleteLaws
      music (codes "music") cat true mirrored photos cat music_given

batch_delete_confined_example :
    let w =
      (batch_delete memory_store deletes 100 music (codes "music") true (cat ∷ []) mirrored).1 in
    (memory_view.local w photos cat ≡ memory_view.local mirrored photos cat)
    × (memory_view.archived w photos cat ≡ memory_view.archived mirrored photos cat)
batch_delete_confined_example =
    batch_delete_confined memory_view memory_store deletes memory_store-StoreLaws deletes-DeleteLaws
      100 music (codes "music") true (cat ∷ []) mirrored photos cat music_given
