-- ===== src/Restore.antt =====
-- cmd/restore/main.go: the job that copies archived objects back into the local store. The objects
-- of a bucket are handled one after the other: its workers are not interleaved. targetBuckets is the
-- function of that name in Backfill. The flags, the progress and the report are left out.
pub mod Runs
pub mod Kept
use cdn.Common.{
  ℕ, ◌+◌, Bool, true, false, not, ◌&&◌, Option, none, some, List, ◌∷◌, ltb, leb, if◌then◌else◌, [],
}
use cdn.Text.{Text, codes}
use cdn.Storage.{Error, ObjectStore, Archive, M, ◌>>=◌, pure, canceled, wrapped}
use cdn.Tiering.{Tiering, TierOutcome, restored, already_local, restore_object, ensure_bucket}
use cdn.Retention.{add_i64}

pub record Stats : Type 0 where
  pub scanned : ℕ
  pub restored : ℕ
  pub skipped : ℕ
  pub failed : ℕ
  pub bytes : ℕ

unfoldable pub count_restored : ℕ → Stats → Stats
count_restored size s = record s { restored = s.restored + 1; bytes = add_i64 s.bytes size }

unfoldable pub count_skipped : Stats → Stats
count_skipped s = record s { skipped = s.skipped + 1 }

unfoldable pub count_failed : Stats → Stats
count_failed s = record s { failed = s.failed + 1 }

-- What handle counts: in a dry run, with the size of the listing, and where it applies.
unfoldable pub count_dry : ℕ → TierOutcome → Stats → Stats
unfolding count_skipped count_restored
count_dry size already_local s = count_skipped s
count_dry size _ s = count_restored size s

unfoldable pub count_applied : ℕ → TierOutcome → Stats → Stats
unfolding count_skipped count_restored count_failed
count_applied size restored s = count_restored size s
count_applied size already_local s = count_skipped s
count_applied size _ s = count_failed s

module _ {W : Type 0} (store : ObjectStore W) (a : Archive W) (bucket : Text) where
  abbrev tiering_of : Tiering W
  tiering_of = record { store = store; archive = some a }

  unfoldable pub handle : Bool → Text → ℕ → Stats → M W Stats
  unfolding count_dry count_applied
  handle false key size s = do
    r ← restore_object tiering_of bucket key size
    pure (count_dry size r.outcome s)
  handle true key size s = do
    r ← restore_object tiering_of bucket key size
    pure (count_applied r.size r.outcome s)

  module _ (ctx_err : M W (Option Error)) (apply : Bool) (limit : ℕ) where
    -- The callback of Walk at one object, by ctx.Err(). The walk's rest is an argument, so that an
    -- error of the callback leaves it out.
    unfoldable pub visit :
        Option Error
        → Text
        → ℕ
        → Stats
        → (Stats → M W (Stats × Option Error))
        → M W (Stats × Option Error)
    visit (some e) key size s rest = pure (s, some e)
    visit none key size s rest =
        if ltb 0 limit && leb limit s.scanned
        then pure (s, some canceled)
        else (handle apply key size (record s { scanned = s.scanned + 1 }) >>= rest)

    -- The walk over what the listing found, and the error that it ended with.
    unfoldable pub feed : List (Text × ℕ) → Option Error → Stats → M W (Stats × Option Error)
    feed [] end s = pure (s, end)
    feed ((key, size) ∷ items) end s = do e ← ctx_err; visit e key size s (feed items end)

    -- The walk's error is passed on unless it is the callback's own, or the context was cancelled.
    abbrev walk_error : Option Error → Option Error → Option Error
    walk_error none ctx = none
    walk_error (some canceled) ctx = none
    walk_error (some e) (some _) = none
    walk_error (some e) none = some e

    unfoldable pub walk_all : Stats → M W (Stats × Option Error)
    walk_all s = do
      found ← a.walk bucket
      fed ← feed found.0 found.1 s
      ctx ← ctx_err
      pure (fed.0, walk_error fed.1 ctx)

    abbrev prepared : Option Error → Stats → M W (Stats × Option Error)
    prepared (some e) s = pure (s, some (wrapped (codes "preparing local bucket") e))
    prepared none s = walk_all s

    -- run
    unfoldable pub run : Stats → M W (Stats × Option Error)
    run s = if not apply then walk_all s else do e ← ensure_bucket tiering_of bucket; prepared e s
