-- ===== src/Tiering/Served.antt =====
-- What a reader is served, byte for byte: the local copy, or else the archived one. Moving objects
-- between the tiers does not change it.
pub mod Steps
pub mod Uploads
pub mod Moves
use cdn.Common.{ℕ, ◌≡◌, Option, none, some, length}
use mathlib.Core.Option
use cdn.Text.{Text}
use cdn.Storage.{Bytes}
use cdn.Storage.Documented.{View}
use cdn.Archive.{ArchiveConfig, resolve}
use cdn.Archive.Location.{NoSlash}

-- The contents that are read, given the local and the archived ones.
abbrev pub first_copy : Option Bytes → Option Bytes → Option Bytes
first_copy (some c) _ = some c
first_copy none cold = cold

module _ {W : Type 0} (v : View W) (a : ArchiveConfig) where
  -- The archived contents of a local location.
  abbrev pub archived_at : W → Text → Text → Option Bytes
  archived_at w bucket key = v.archived w (resolve a bucket key).0 (resolve a bucket key).1

  abbrev pub served : W → Text → Text → Option Bytes
  served w bucket key = first_copy (v.local w bucket key) (archived_at w bucket key)

  -- A local and an archived copy of one object that have one size are the same bytes. The code
  -- compares sizes alone. Buckets with a slash in their name, of which two may share a location in
  -- the archive, are left out, here and below.
  pub record Faithful (w : W) : Type 0 where
    pub at :
        (b k : Text) (c d : Bytes)
        → NoSlash b
        → v.local w b k ≡ some c
        → archived_at w b k ≡ some d
        → length c ≡ length d
        → c ≡ d

  -- Every object is served with the same bytes as before, and copies of one size are still the same.
  pub record KeepsServed (w w' : W) : Type 0 where
    pub faithful : Faithful w'
    pub at : (b k : Text) → NoSlash b → served w' b k ≡ served w b k

  -- What an action does to two stores whose copies of one size are the same.
  pub record Preserves (w w' : W) : Type 0 where
    pub kept : Faithful w → KeepsServed w w'

  -- The archive holds `n` bytes for the object.
  abbrev pub HoldsArchived : W → Text → Text → ℕ → Type 0
  HoldsArchived w bucket key n = (c : Bytes) × (archived_at w bucket key ≡ some c) × (length c ≡ n)

  -- What is local of the object, if anything is, has `n` bytes.
  abbrev pub HasSize : W → Text → Text → ℕ → Type 0
  HasSize w bucket key n = (c : Bytes) → v.local w bucket key ≡ some c → length c ≡ n
