-- ===== src/Tiering/Outcomes.antt =====
-- What the outcome of a move says of the two stores.
use cdn.Storage.Actions.{if-ends, if-returns}
use cdn.Common.{ℕ, ◌≡◌, refl, ◌∙◌, Bool, true, false, not, Option, none, some, ◌⊎◌, inl, inr}
use cdn.Text.{Text}
use cdn.Storage.{Error, ObjectStore, AwsService, Result, Reader, err, ok}
use cdn.Storage.Documented.{View, StoreLaws, S3Laws}
use cdn.Archive.{ArchiveConfig, archive, resolve, in_scope}
use cdn.Tiering.{
  TierOutcome, TierResult, VerifyReason, archived, archived_kept, evict_verified, after_upload,
  verify_upload, after_check, archive_known_in, archive_known_object, verify_archived,
  copy_to_archive, removed, put_opened,
}
use cdn.Tiering.Served.{HoldsArchived}
use cdn.Tiering.Served.Steps.{verify_archived-Same, verified_held, HoldsArchived-Same, put-local}
use cdn.Tiering.Served.Moves.{tiering}

module _ {W : Type 0} (v : View W) (s : ObjectStore W) (aws : AwsService W) (a : ArchiveConfig)
    (local_laws : StoreLaws v s) (s3_laws : S3Laws v aws) (b k : Text) (n : ℕ) where
  -- What each outcome of ArchiveKnownObject promises of the state that it leaves.
  abbrev Promise : TierOutcome → W → Type 0
  Promise archived w = HoldsArchived v a w b k n × (v.local w b k ≡ none)
  Promise archived_kept w = HoldsArchived v a w b k n
  Promise _ w = Unit

  abbrev Promised : TierResult × W → Type 0
  Promised (r, w) = Promise r.outcome w

  evict-Promised :
      (evict : Bool) (w : W)
      → HoldsArchived v a w b k n
      → Promised (evict_verified s (archive aws a) b k n evict w)
  unfolding evict_verified
  evict-Promised false w held = held
  evict-Promised true w (c, held, fits) = go (s.remove_object b k w).0 refl
    where
      go :
          (e : Option Error)
          → (s.remove_object b k w).0 ≡ e
          → Promise (removed s (archive aws a) b k n e).outcome (s.remove_object b k w).1
      go (some e) h = tt
      go none h = (
        (
          c,
          local_laws.remove_object_archived b k (resolve a b k).0 (resolve a b k).1 w ∙ held,
          fits,
        ),
        local_laws.remove_object_done b k w h,
      )

  upload-Promised :
      (evict : Bool) (e : Option Error) (good : Bool) (reason : VerifyReason) (w : W)
      → (good ≡ true → HoldsArchived v a w b k n)
      → Promised (after_upload s (archive aws a) b k n evict e good reason w)
  unfolding after_upload
  upload-Promised evict (some e) good reason w sound = tt
  upload-Promised evict none true reason w sound = evict-Promised evict w (sound refl)
  upload-Promised evict none false reason w sound = tt

  sound :
      (w : W)
      → let (verdict, w') = verify_archived (archive aws a) b k n w in
        verdict.verified ≡ true → HoldsArchived v a w' b k n
  sound w good =
      HoldsArchived-Same v a b k n (verify_archived-Same v aws a s3_laws b k n w)
        (verified_held v aws a s3_laws b k n w good)

  verify-Promised :
      (evict : Bool) (e : Option Error) (w : W)
      → Promised (verify_upload s (archive aws a) b k n evict e w)
  unfolding verify_upload
  verify-Promised evict (some e) w = tt
  verify-Promised evict none w =
      let (verdict, w') = verify_archived (archive aws a) b k n w in
      upload-Promised evict verdict.error verdict.verified verdict.reason w' (sound w)

  check-Promised :
      (evict : Bool) (e : Option Error) (good : Bool) (w : W)
      → (good ≡ true → HoldsArchived v a w b k n)
      → Promised (after_check s (archive aws a) b k n evict e good w)
  unfolding after_check
  check-Promised evict (some e) good w sound = tt
  check-Promised evict none true w sound = evict-Promised evict w (sound refl)
  check-Promised evict none false w sound =
      let (e, w') = copy_to_archive s (archive aws a) b k w in verify-Promised evict e w'

  known-Promised :
      (evict : Bool) (w : W) → Promised (archive_known_in s (archive aws a) b k n evict w)
  unfolding archive_known_in
  known-Promised evict w =
      if-returns Promised (not a.enabled) _ _ w (λ _. tt)
        λ _.
          if-returns Promised (not (in_scope a b)) _ _ w (λ _. tt)
            λ _.
              let (verdict, w') = verify_archived (archive aws a) b k n w in
              check-Promised evict verdict.error verdict.verified w' (sound w)

  by_outcome :
      (o : TierOutcome) (w : W)
      → Promise o w
      → (o ≡ archived → HoldsArchived v a w b k n × (v.local w b k ≡ none))
        × (o ≡ archived_kept → HoldsArchived v a w b k n)
  by_outcome archived w h = (λ _. h, λ e. cc)
  by_outcome archived_kept w h = (λ e. cc, λ _. h)
  by_outcome _ w h = (λ e. cc, λ e. cc)

  -- Where ArchiveKnownObject reports `archived`, the archive holds the object at the size given and
  -- the local copy is gone; where it reports `archived_kept`, the archive holds it at that size.
  pub archive_known_object_promise :
      (evict : Bool) (w : W)
      → let (r, w') = archive_known_object (tiering s aws a) b k n evict w in
        (r.outcome ≡ archived → HoldsArchived v a w' b k n × (v.local w' b k ≡ none))
        × (r.outcome ≡ archived_kept → HoldsArchived v a w' b k n)
  unfolding archive_known_object
  archive_known_object_promise evict w =
      let (r, w') = archive_known_in s (archive aws a) b k n evict w in
      by_outcome r.outcome w' (known-Promised evict w)

  -- Where ArchiveKnownObject reports `archived` or `archived_kept`, the archive holds the object at
  -- the size given.
  pub archive_known_object_held :
      (evict : Bool) (w : W)
      → ((archive_known_object (tiering s aws a) b k n evict w).0.outcome ≡ archived)
        ⊎ ((archive_known_object (tiering s aws a) b k n evict w).0.outcome ≡ archived_kept)
      → HoldsArchived v a (archive_known_object (tiering s aws a) b k n evict w).1 b k n
  archive_known_object_held evict w h = elim h [
    | inl e ↦ ((archive_known_object_promise evict w).0 e).0
    | inr e ↦ (archive_known_object_promise evict w).1 e
  ]

  put_opened-local :
      (r : Result Reader) (w : W) (c l : Text)
      → v.local (put_opened s (archive aws a) b k r w).1 c l ≡ v.local w c l
  put_opened-local (err e) w c l = refl
  put_opened-local (ok body) w c l = put-local v aws a s3_laws b k body w c l

  -- The local store has what it had.
  record LocalKept (w w' : W) : Type 0 where
    at : (c l : Text) → v.local w' c l ≡ v.local w c l

  copy-LocalKept : (w : W) → LocalKept w (copy_to_archive s (archive aws a) b k w).1
  unfolding copy_to_archive
  copy-LocalKept w = record {
    at = λ c l.
        put_opened-local (s.open_object b k w).0 (s.open_object b k w).1 c l
        ∙ (local_laws.open_object_reads b k w).local c l;
  }

  verify-LocalKept : (w : W) → LocalKept w (verify_archived (archive aws a) b k n w).1
  verify-LocalKept w = record { at = (verify_archived-Same v aws a s3_laws b k n w).local }

  kept_refl : (w : W) → LocalKept w w
  kept_refl w = record { at = λ c l. refl }

  kept_trans : {x y z : W} → LocalKept x y → LocalKept y z → LocalKept x z
  kept_trans p q = record { at = λ c l. q.at c l ∙ p.at c l }

  upload-LocalKept :
      (e : Option Error) (good : Bool) (reason : VerifyReason) (w : W)
      → LocalKept w (after_upload s (archive aws a) b k n false e good reason w).1
  unfolding after_upload evict_verified
  upload-LocalKept (some e) good reason w = kept_refl w
  upload-LocalKept none true reason w = kept_refl w
  upload-LocalKept none false reason w = kept_refl w

  verify_upload-LocalKept :
      (e : Option Error) (w : W) → LocalKept w (verify_upload s (archive aws a) b k n false e w).1
  unfolding verify_upload
  verify_upload-LocalKept (some e) w = kept_refl w
  verify_upload-LocalKept none w =
      let (verdict, w') = verify_archived (archive aws a) b k n w in
      kept_trans (verify-LocalKept w)
        (upload-LocalKept verdict.error verdict.verified verdict.reason w')

  check-LocalKept :
      (e : Option Error) (good : Bool) (w : W)
      → LocalKept w (after_check s (archive aws a) b k n false e good w).1
  unfolding after_check evict_verified
  check-LocalKept (some e) good w = kept_refl w
  check-LocalKept none true w = kept_refl w
  check-LocalKept none false w =
      let (e, w') = copy_to_archive s (archive aws a) b k w in
      kept_trans (copy-LocalKept w) (verify_upload-LocalKept e w')

  known-LocalKept : (w : W) → LocalKept w (archive_known_in s (archive aws a) b k n false w).1
  unfolding archive_known_in
  known-LocalKept w =
      if-ends (LocalKept w) (not a.enabled) _ _ w (λ _. kept_refl w)
        λ _.
          if-ends (LocalKept w) (not (in_scope a b)) _ _ w (λ _. kept_refl w)
            λ _.
              let (verdict, w') = verify_archived (archive aws a) b k n w in
              kept_trans (verify-LocalKept w) (check-LocalKept verdict.error verdict.verified w')

  -- Without `evict`, ArchiveKnownObject leaves every local object as it was, whatever size it is
  -- given and whatever the stores answer.
  pub archive_known_object_copies :
      (w : W) (c l : Text)
      → v.local (archive_known_object (tiering s aws a) b k n false w).1 c l ≡ v.local w c l
  unfolding archive_known_object
  archive_known_object_copies w c l = (known-LocalKept w).at c l
