-- ===== src/Examples/Archiving.antt =====
-- Requests to the archive endpoint at disks with one object in bucket photos.
use cdn.Storage.{is_not_found, is_archive_not_found}
use cdn.Tiering.{
  is_enabled, archived, is_in_scope, failed, archive_object, archive_in, archive_stated,
  archive_known_in, after_check, copy_to_archive, verify_upload,
}
use cdn.ArchiveHandler.Summaries.{archive_objects_accounts}
use cdn.Archive.{in_scope, stat, put, resolve}
use cdn.Tiering.{after_upload}
use cdn.Tiering.{evict_verified}
use cdn.Tiering.{verify_archived}
use cdn.Tiering.{judge}
use cdn.Examples.Tiers.{disk-Faithful}
use cdn.Examples.Memory.{memory-Transfers}
use cdn.Common.{◌≡◌, ◌≢◌, refl, sym, Bool, true, Option, none, some, List, [], ◌∷◌, arith, ◌+◌, map}
use cdn.Text.{
  Text, codes, ◌=?◌, trim_space, trim_left, trim_right, is_space, has_prefix, trim_prefix,
  strip_prefix, split, member,
}
use cdn.Access.{Principal, general, resolve_bucket}
use cdn.Archive.Location.{NoSlash}
use cdn.ObjectKey.{invalid_key, Url, normalize_object_key, has_unsafe_object_key}
use cdn.Tiering.Served.{KeepsServed, archived_at}
use cdn.Tiering.Served.Moves.{tiering}
use cdn.ArchiveHandler.{
  ArchiveRequest, Entry, success, archive_objects, archive_in_bucket, archive_all, archive_file,
  archive_key, summarize, Summary, count_entry, count_status, freed, bad_key,
}
use cdn.ArchiveHandler.Requests.{archive_objects-KeepsServed, archive_objects_confined}
use cdn.Examples.Memory.{
  memory_store, memory_s3, memory_view, memory_store-StoreLaws, memory_s3-S3Laws,
}
use cdn.Examples.Tiers.{photos, cat, single, disk, photos-NoSlash}

abbrev no_url : Text → Option Url
no_url raw = none

abbrev accepts : ArchiveRequest → Bool
accepts req = true

abbrev request : ArchiveRequest
request = record { bucket = photos; files = cat ∷ codes "../x" ∷ []; evict = none }

abbrev music : Principal
music = record { scoped = true; bucket = codes "music" }

abbrev music_request : ArchiveRequest
music_request = record { bucket = []; files = cat ∷ []; evict = none }

photos_resolved : resolve_bucket general photos ≡ some photos
unfolding resolve_bucket trim_space trim_left trim_right is_space
photos_resolved = refl

photos_named : (b : Text) → resolve_bucket general photos ≡ some b → NoSlash b
photos_named b e = let same : photos ≡ b = cc (photos_resolved, e) in rw (sym same) photos-NoSlash

music_resolved : resolve_bucket music [] ≡ some (codes "music")
unfolding resolve_bucket trim_space trim_left trim_right is_space ◌=?◌
music_resolved = refl

music-NoSlash : NoSlash (codes "music")
music-NoSlash = ground arith

music_named : (b : Text) → resolve_bucket music [] ≡ some b → NoSlash b
music_named b e =
    let same : codes "music" ≡ b = cc (music_resolved, e) in rw (sym same) music-NoSlash

music_differs : resolve_bucket music [] ≢ some photos
music_differs e = cc (music_resolved, e)

archive_objects-KeepsServed_example :
    KeepsServed memory_view single disk
      (archive_objects no_url none
        (tiering memory_store memory_s3 single)
        100
        accepts
        general
        (some request)
        disk).1
archive_objects-KeepsServed_example =
    archive_objects-KeepsServed memory_view memory_store memory_s3 single memory_store-StoreLaws
      memory_s3-S3Laws memory-Transfers no_url none 100 accepts general request disk photos_named
      disk-Faithful

archive_objects_confined_example :
    let w' =
      (archive_objects no_url none
        (tiering memory_store memory_s3 single)
        100
        accepts
        music
        (some music_request)
        disk).1 in
    (memory_view.local w' photos cat ≡ memory_view.local disk photos cat)
    × (archived_at memory_view single w' photos cat
        ≡ archived_at memory_view single disk photos cat)
archive_objects_confined_example =
    archive_objects_confined memory_view memory_store memory_s3 single memory_store-StoreLaws
      memory_s3-S3Laws no_url none 100 accepts music music_request disk photos cat photos-NoSlash
      music_named music_differs

-- One object is archived and evicted, and the other reference is refused.
abbrev entries : List Entry
entries =
    record { file = cat; object = some cat; status = archived; size = some 3; error = none }
    ∷ record {
      file = codes "../x";
      object = none;
      status = failed;
      size = none;
      error = some (bad_key invalid_key);
    }
    ∷ []

abbrev counted : Summary
counted = record {
  archived = 1;
  archived_kept = 0;
  already_archived = 0;
  not_found = 0;
  failed = 1;
  bytes_freed = 3;
}

request_answered :
    (archive_objects no_url none
      (tiering memory_store memory_s3 single)
      100
      accepts
      general
      (some request)
      disk).0
    ≡ success entries counted
unfolding archive_objects archive_in_bucket archive_all archive_file archive_key summarize
    count_entry count_status freed resolve_bucket trim_space trim_left trim_right is_space ◌=?◌
    is_enabled is_in_scope in_scope normalize_object_key has_prefix trim_prefix strip_prefix
    has_unsafe_object_key split member archive_object archive_in archive_stated archive_known_in
    after_check copy_to_archive verify_upload after_upload evict_verified verify_archived judge stat
    put resolve is_not_found is_archive_not_found
request_answered = refl

archive_objects_accounts_example :
    (map (λ e. e.file) entries ≡ cat ∷ codes "../x" ∷ []) × (1 + 0 + 0 + 0 + 1 ≡ 2)
archive_objects_accounts_example =
    archive_objects_accounts no_url none (tiering memory_store memory_s3 single) 100 accepts general
      request disk entries counted request_answered
