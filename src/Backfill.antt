-- ===== src/Backfill.antt =====
-- cmd/backfill/main.go: the job that copies every local object into the archive. The objects of a
-- bucket are handled one after the other: its workers are not interleaved. The flags, the progress
-- and the report are left out, but for what the report counts.
pub mod Copies
pub mod Counts
use cdn.Common.{
  ℕ, ◌+◌, Bool, true, false, not, ◌&&◌, Option, none, some, List, ◌∷◌, ltb, leb, if◌then◌else◌, [],
}
use cdn.Text.{Text, trim_space, split, ◌=?◌}
use cdn.Storage.{Error, Result, ok, ObjectInfo, ObjectStore, Archive, M, ◌>>=◌, pure}
use cdn.Tiering.{
  Tiering, TierOutcome, archived_kept, already_archived, archive_known_object, verify_archived,
}
use cdn.Retention.{add_i64}

pub record Stats : Type 0 where
  pub scanned : ℕ
  pub uploaded : ℕ
  pub skipped : ℕ
  pub failed : ℕ
  pub bytes : ℕ

unfoldable pub count_uploaded : ℕ → Stats → Stats
count_uploaded size s = record s { uploaded = s.uploaded + 1; bytes = add_i64 s.bytes size }

unfoldable pub count_skipped : Stats → Stats
count_skipped s = record s { skipped = s.skipped + 1 }

unfoldable pub count_failed : Stats → Stats
count_failed s = record s { failed = s.failed + 1 }

-- The names in a comma-separated list, less the blank ones.
unfoldable pub named : List Text → List Text
named [] = []
named (b ∷ bs) = let rest = named bs in if trim_space b =? [] then rest else trim_space b ∷ rest

-- The switch of a dry run: VerifyArchived's error, and whether the verdict is positive.
unfoldable pub count_verdict : ℕ → Option Error → Bool → Stats → Stats
unfolding count_failed count_skipped count_uploaded
count_verdict size (some e) good s = count_failed s
count_verdict size none true s = count_skipped s
count_verdict size none false s = count_uploaded size s

-- The switch over the outcome of ArchiveKnownObject.
unfoldable pub count_outcome : ℕ → TierOutcome → Stats → Stats
unfolding count_failed count_skipped count_uploaded
count_outcome size archived_kept s = count_uploaded size s
count_outcome size already_archived s = count_skipped s
count_outcome size _ s = count_failed s

-- What one bucket's destination adds to the usable and the unreachable buckets.
abbrev destination :
    Text → Option Error → List Text × List (Text × Error) → List Text × List (Text × Error)
destination b none (usable, unreachable) = (b ∷ usable, unreachable)
destination b (some e) (usable, unreachable) = (usable, (b, e) ∷ unreachable)

-- The rest of main's loop, unless the context was cancelled.
abbrev pub unless_stopped : {W : Type 0} → Option Error → Stats → M W Stats → M W Stats
unless_stopped (some e) s rest = pure s
unless_stopped none s rest = rest

module _ {W : Type 0} where
  unfoldable pub target_buckets : ObjectStore W → Text → M W (Result (List Text))
  target_buckets store arg =
      if trim_space arg =? [] then store.list_buckets else pure (ok (named (split arg b',')))

  unfoldable pub check_destinations : Archive W → List Text → M W (List Text × List (Text × Error))
  check_destinations a [] = pure ([], [])
  check_destinations a (b ∷ bs) =
      if not (a.in_scope b)
      then check_destinations a bs
      else do e ← a.reachable b; rest ← check_destinations a bs; pure (destination b e rest)

  module _ (store : ObjectStore W) (a : Archive W) (bucket : Text) where
    abbrev tiering_of : Tiering W
    tiering_of = record { store = store; archive = some a }

    unfoldable pub handle : Bool → ObjectInfo → Stats → M W Stats
    unfolding count_verdict count_outcome
    handle false obj s = do
      v ← verify_archived a bucket obj.key obj.size
      pure (count_verdict obj.size v.error v.verified s)
    handle true obj s = do
      r ← archive_known_object tiering_of bucket obj.key obj.size false
      pure (count_outcome obj.size r.outcome s)

    module _ (ctx_err : M W (Option Error)) (apply : Bool) (limit : ℕ) where
      -- The loop over the listing: one entry, by ctx.Err() and by the entry's failure. The loop's
      -- rest is an argument, so that a break leaves it out.
      unfoldable pub visit :
          Option Error → Option Error → ObjectInfo → Stats → (Stats → M W Stats) → M W Stats
      unfolding count_failed
      visit (some e) failure obj s rest = pure s
      visit none (some e) obj s rest = rest (count_failed s)
      visit none none obj s rest =
          if ltb 0 limit && leb limit s.scanned
          then pure s
          else (handle apply obj (record s { scanned = s.scanned + 1 }) >>= rest)

      unfoldable pub feed : List ObjectInfo → Stats → M W Stats
      feed [] s = pure s
      feed (obj ∷ objs) s = do e ← ctx_err; visit e obj.failure obj s (feed objs)

      -- run
      unfoldable pub run : Stats → M W Stats
      run s = do objs ← store.list_objects bucket; feed objs s

  module _ (store : ObjectStore W) (a : Archive W) (ctx_err : M W (Option Error)) (apply : Bool)
      (limit : ℕ) where
    -- The loop of main over the usable buckets.
    unfoldable pub run_buckets : List Text → Stats → M W Stats
    run_buckets [] s = pure s
    run_buckets (b ∷ bs) s = do
      e ← ctx_err
      unless_stopped e s (run store a b ctx_err apply limit s >>= run_buckets bs)
