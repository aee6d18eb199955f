-- ===== src/Backfill/Counts.antt =====
-- What a backfill counts.
use cdn.Text.{Text}
use cdn.Common.{
  ℕ, ◌+◌, ◌≡◌, Bool, true, false, arith, ◌≤◌, ◌<◌, refl, ◌≢◌, inl, inr, ◌&&◌, Option, none, some,
  List, ◌∷◌, ltb, leb, Bool-cases, All, [], not, All-always, ◌∙◌,
}
use cdn.Backfill.{
  Stats, handle, count_outcome, count_verdict, count_failed, count_uploaded, count_skipped,
  unless_stopped, feed, run_buckets, visit, run,
}
use cdn.Storage.{◌>>=◌, ObjectInfo, ObjectStore, Archive, M, Error}
use cdn.Storage.Actions.{if-returns}
use cdn.Tiering.{
  archived_kept, VerifyReason, TierResult, archive_known_in, evict_verified, after_check,
  after_upload, verify_upload, already_archived, archive_known_object, TierOutcome,
}

-- The objects that the run has reported on.
abbrev pub reported : Stats → ℕ
reported s = s.uploaded + s.skipped + s.failed

module _ {W : Type 0} (store : ObjectStore W) (a : Archive W) (bucket : Text) where
  handle_reports :
      (apply : Bool) (obj : ObjectInfo) (s : Stats) (w : W)
      → let s' = (handle store a bucket apply obj s w).0 in
        (reported s' ≡ reported s + 1) × (s'.scanned ≡ s.scanned)
  unfolding handle count_verdict count_outcome count_failed count_uploaded count_skipped
  handle_reports false obj s w = ground arith
  handle_reports true obj s w = ground arith

  module _ (ctx_err : M W (Option Error)) (apply : Bool) (limit : ℕ) (Q : ObjectInfo → Type 0)
      (R : Stats → Stats → Type 0) (R_refl : (s : Stats) → R s s)
      (R_trans : (x y z : Stats) → R x y → R y z → R x z)
      (bad : (obj : ObjectInfo) (s : Stats) → Q obj → obj.failure ≢ none → R s (count_failed s))
      (good : (obj : ObjectInfo) (s : Stats) (w : W)
        → (ltb 0 limit && leb limit s.scanned) ≡ false
        → R s (handle store a bucket apply obj (record s { scanned = s.scanned + 1 }) w).0) where
    visit_relates :
        (e failure : Option Error) (obj : ObjectInfo) (s : Stats) (rest : Stats → M W Stats) (w : W)
        → Q obj
        → obj.failure ≡ failure
        → ((s' : Stats) (u : W) → R s' (rest s' u).0)
        → R s (visit store a bucket ctx_err apply limit e failure obj s rest w).0
    unfolding visit
    visit_relates (some e) failure obj s rest w q same h = R_refl s
    visit_relates none (some e) obj s rest w q same h =
        R_trans _ _ _ (bad obj s q (λ n. cc (same, n))) (h _ w)
    visit_relates none none obj s rest w q same h =
        elim (Bool-cases (ltb 0 limit && leb limit s.scanned)) [
          | inl y ↦ rw y (R_refl s)
          | inr n ↦ rw n (R_trans _ _ _ (good obj s w n) (h _ _))
        ]

    feed_relates :
        (objs : List ObjectInfo) (s : Stats) (w : W)
        → All Q objs
        → R s (feed store a bucket ctx_err apply limit objs s w).0
    unfolding feed
    feed_relates [] s w h = R_refl s
    feed_relates (obj ∷ objs) s w (q, h) =
        visit_relates (ctx_err w).0 obj.failure obj s _ (ctx_err w).1 q refl
          (λ s' u. feed_relates objs s' u h)

  module _ (ctx_err : M W (Option Error)) (apply : Bool) (limit : ℕ) where
    -- A run over a listing without failures reports every object that it scans exactly once, as
    -- uploaded, skipped or failed, wherever it is interrupted and whatever the stores answer.
    pub feed_balance :
        (objs : List ObjectInfo) (s : Stats) (w : W)
        → All (λ obj. obj.failure ≡ none) objs
        → let s' = (feed store a bucket ctx_err apply limit objs s w).0 in
          reported s' + s.scanned ≡ reported s + s'.scanned
    feed_balance objs s w h =
        feed_relates ctx_err apply limit (λ obj. obj.failure ≡ none)
          (λ x y. reported y + x.scanned ≡ reported x + y.scanned) (λ x. refl)
          (λ x y z p q. omega (arith, p, q)) (λ obj x q n. absurd (n q))
          (λ obj x u _.
            omega (arith, handle_reports apply obj (record x { scanned = x.scanned + 1 }) u))
          objs s w h

    feed_limit :
        (objs : List ObjectInfo) (s : Stats) (w : W)
        → 0 < limit
        → s.scanned ≤ limit
        → (feed store a bucket ctx_err apply limit objs s w).0.scanned ≤ limit
    feed_limit objs s w positive h =
        feed_relates ctx_err apply limit (λ _. Unit) (λ x y. x.scanned ≤ limit → y.scanned ≤ limit)
          (λ x p. p) (λ x y z p q r. q (p r)) (λ obj x _ n p. unfold count_failed in p)
          (λ obj x u below p.
            ground (arith, handle_reports apply obj (record x { scanned = x.scanned + 1 }) u))
          objs s w (All-always (λ _. Unit) (λ _. tt) objs) h

module _ {W : Type 0} (store : ObjectStore W) (a : Archive W) (ctx_err : M W (Option Error))
    (apply : Bool) (limit : ℕ) where
  unless_limit :
      (e : Option Error) (s : Stats) (rest : M W Stats) (w : W)
      → s.scanned ≤ limit
      → (rest w).0.scanned ≤ limit
      → (unless_stopped e s rest w).0.scanned ≤ limit
  unless_limit (some e) s rest w h h' = h
  unless_limit none s rest w h h' = h'

  -- A backfill with a limit scans no more objects than the limit, in all its buckets together.
  pub run_buckets_limit :
      (bs : List Text) (s : Stats) (w : W)
      → 0 < limit
      → s.scanned ≤ limit
      → (run_buckets store a ctx_err apply limit bs s w).0.scanned ≤ limit
  unfolding run_buckets run
  run_buckets_limit [] s w positive h = h
  run_buckets_limit (b ∷ bs) s w positive h =
      let w1 = (ctx_err w).1 in
      let (objs, w2) = store.list_objects b w1 in
      let one = feed_limit store a b ctx_err apply limit objs s w2 positive h in
      unless_limit (ctx_err w).0 s
        (run store a b ctx_err apply limit s >>= run_buckets store a ctx_err apply limit bs) w1 h
        (run_buckets_limit bs _ _ positive one)

module _ {W : Type 0} (store : ObjectStore W) (a : Archive W) (bucket key : Text) (n : ℕ) where
  -- ArchiveKnownObject has no outcome `already_archived`.
  record Uploads (r : TierResult) : Type 0 where
    other : r.outcome ≢ already_archived

  evict-Uploads : (w : W) → Uploads (evict_verified store a bucket key n false w).0
  unfolding evict_verified
  evict-Uploads w = record { other = λ e. cc e }

  upload-Uploads :
      (e : Option Error) (good : Bool) (reason : VerifyReason) (w : W)
      → Uploads (after_upload store a bucket key n false e good reason w).0
  unfolding after_upload
  upload-Uploads (some e) good reason w = record { other = λ e. cc e }
  upload-Uploads none true reason w = evict-Uploads w
  upload-Uploads none false reason w = record { other = λ e. cc e }

  verify-Uploads :
      (e : Option Error) (w : W) → Uploads (verify_upload store a bucket key n false e w).0
  unfolding verify_upload
  verify-Uploads (some e) w = record { other = λ e. cc e }
  verify-Uploads none w = upload-Uploads _ _ _ _

  check-Uploads :
      (e : Option Error) (good : Bool) (w : W)
      → Uploads (after_check store a bucket key n false e good w).0
  unfolding after_check
  check-Uploads (some e) good w = record { other = λ e. cc e }
  check-Uploads none true w = evict-Uploads w
  check-Uploads none false w = verify-Uploads _ _

  known-Uploads : (w : W) → Uploads (archive_known_in store a bucket key n false w).0
  unfolding archive_known_in
  known-Uploads w =
      if-returns (λ r. Uploads r.0) (not a.enabled) _ _ w (λ _. record { other = λ e. cc e })
        λ _.
          if-returns (λ r. Uploads r.0) (not (a.in_scope bucket)) _ _ w
            (λ _. record { other = λ e. cc e }) λ _. check-Uploads _ _ _

outcome_skips :
    (n : ℕ) (o : TierOutcome) (s : Stats)
    → o ≢ already_archived
    → (count_outcome n o s).skipped ≡ s.skipped
unfolding count_outcome count_failed count_uploaded
outcome_skips n already_archived s h = absurd (h refl)
outcome_skips n archived_kept s h = refl
outcome_skips n _ s h = refl

module _ {W : Type 0} (store : ObjectStore W) (a : Archive W) (bucket : Text) where
  handle_skips :
      (obj : ObjectInfo) (s : Stats) (w : W)
      → (handle store a bucket true obj s w).0.skipped ≡ s.skipped
  unfolding handle archive_known_object
  handle_skips obj s w =
      outcome_skips obj.size _ s (known-Uploads store a bucket obj.key obj.size w).other

  -- A run that applies counts no object as skipped, also where the archive already holds it.
  pub feed_skips_none :
      (ctx_err : M W (Option Error)) (limit : ℕ) (objs : List ObjectInfo) (s : Stats) (w : W)
      → (feed store a bucket ctx_err true limit objs s w).0.skipped ≡ s.skipped
  feed_skips_none ctx_err limit objs s w =
      feed_relates store a bucket ctx_err true limit (λ _. Unit) (λ x y. y.skipped ≡ x.skipped)
        (λ x. refl) (λ x y z p q. q ∙ p) (λ obj x _ n. unfold count_failed in refl)
        (λ obj x u _. handle_skips obj _ u) objs s w (All-always (λ _. Unit) (λ _. tt) objs)
