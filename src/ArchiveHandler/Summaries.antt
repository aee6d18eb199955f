-- ===== src/ArchiveHandler/Summaries.antt =====
-- What the summary of a request to the archive endpoint counts.
use cdn.Common.{
  ℕ, suc, ◌+◌, ◌≡◌, refl, ap, Bool, true, false, not, ◌&&◌, Option, none, some, List, [], ◌∷◌, ltb,
  length, arith, All, map,
}
use cdn.Text.{Text, ◌=?◌}
use cdn.Access.{Principal, resolve_bucket}
use cdn.ObjectKey.{Url, Key, key, bad, normalize_object_key}
use cdn.Storage.{ObjectStore, Archive, Error, Result, ok, err, ObjectInfo}
use cdn.Storage.Actions.{if-returns}
use cdn.Tiering.{
  Tiering, TierOutcome, TierResult, VerifyReason, archived, archived_kept, already_archived,
  not_in_scope, restored, already_local, not_found, failed, is_enabled, is_in_scope, archive_object,
  evict_verified, after_upload, verify_upload, after_check, archive_known_in, archive_stated,
  archive_in, removed, absent, verify_archived, copy_to_archive,
}
use cdn.ArchiveHandler.{
  ArchiveRequest, ArchiveReply, Entry, Summary, success, count_entry, count_status, summarize,
  archive_key, archive_file, archive_all, archive_in_bucket, for_bucket, archive_objects, evict_of,
  empty_summary,
}

-- The statuses that the summary has a counter for.
abbrev Counted : TierOutcome → Type 0
Counted archived = Unit
Counted archived_kept = Unit
Counted already_archived = Unit
Counted not_found = Unit
Counted failed = Unit
Counted not_in_scope = ⊥
Counted restored = ⊥
Counted already_local = ⊥

abbrev total : Summary → ℕ
total s = s.archived + s.archived_kept + s.already_archived + s.not_found + s.failed

module _ {W : Type 0} (store : ObjectStore W) (a : Archive W) (bucket object : Text) where
  abbrev Fine : TierResult × W → Type 0
  Fine r = Counted r.0.outcome

  removed-Counted : (n : ℕ) (e : Option Error) → Counted (removed store a bucket object n e).outcome
  removed-Counted n none = tt
  removed-Counted n (some e) = tt

  evict_verified-Counted :
      (n : ℕ) (evict : Bool) (w : W) → Fine (evict_verified store a bucket object n evict w)
  unfolding evict_verified
  evict_verified-Counted n false w = tt
  evict_verified-Counted n true w = removed-Counted n (store.remove_object bucket object w).0

  after_upload-Counted :
      (n : ℕ) (evict : Bool) (e : Option Error) (good : Bool) (reason : VerifyReason) (w : W)
      → Fine (after_upload store a bucket object n evict e good reason w)
  unfolding after_upload
  after_upload-Counted n evict (some e) good reason w = tt
  after_upload-Counted n evict none true reason w = evict_verified-Counted n evict w
  after_upload-Counted n evict none false reason w = tt

  verify_upload-Counted :
      (n : ℕ) (evict : Bool) (e : Option Error) (w : W)
      → Fine (verify_upload store a bucket object n evict e w)
  unfolding verify_upload
  verify_upload-Counted n evict (some e) w = tt
  verify_upload-Counted n evict none w =
      let (verdict, w') = verify_archived a bucket object n w in
      after_upload-Counted n evict verdict.error verdict.verified verdict.reason w'

  after_check-Counted :
      (n : ℕ) (evict : Bool) (e : Option Error) (good : Bool) (w : W)
      → Fine (after_check store a bucket object n evict e good w)
  unfolding after_check
  after_check-Counted n evict (some e) good w = tt
  after_check-Counted n evict none true w = evict_verified-Counted n evict w
  after_check-Counted n evict none false w =
      let (e, w') = copy_to_archive store a bucket object w in verify_upload-Counted n evict e w'

  known-Counted :
      (n : ℕ) (evict : Bool) (w : W)
      → a.in_scope bucket ≡ true
      → Fine (archive_known_in store a bucket object n evict w)
  unfolding archive_known_in
  known-Counted n evict w scope =
      if-returns Fine (not a.enabled) _ _ w (λ _. tt)
        λ _.
          if-returns Fine (not (a.in_scope bucket)) _ _ w (λ out. absurd (cc (rw scope at out)))
            λ _.
              let (verdict, w') = verify_archived a bucket object n w in
              after_check-Counted n evict verdict.error verdict.verified w'

  absent-Counted : (e : Error) (answer : Result ℕ) → Counted (absent object e answer).outcome
  absent-Counted e (ok n) = tt
  absent-Counted e (err f) = tt

  stated-Counted :
      (evict : Bool) (info : Result ObjectInfo) (w : W)
      → a.in_scope bucket ≡ true
      → Fine (archive_stated store a bucket object evict info w)
  unfolding archive_stated
  stated-Counted evict (ok info) w scope = known-Counted info.size evict w scope
  stated-Counted evict (err e) w scope = absent-Counted e (a.stat bucket object w).0

  in-Counted :
      (evict : Bool) (w : W)
      → a.in_scope bucket ≡ true
      → Fine (archive_in store a bucket object evict w)
  unfolding archive_in
  in-Counted evict w scope =
      if-returns Fine (not a.enabled) _ _ w (λ _. tt)
        λ _. stated-Counted evict (store.stat_object bucket object w).0 _ scope

object-Counted :
    {W : Type 0} (store : ObjectStore W) (a : Option (Archive W)) (bucket object : Text)
    (evict : Bool) (w : W)
    → is_in_scope a bucket ≡ true
    → Counted
        (archive_object (record { store = store; archive = a }) bucket object evict w).0.outcome
unfolding archive_object is_in_scope
object-Counted store none bucket object evict w scope = tt
object-Counted store (some a) bucket object evict w scope =
    in-Counted store a bucket object evict w scope

count-total : (o : TierOutcome) (s : Summary) → Counted o → total (count_status o s) ≡ suc (total s)
unfolding count_status
count-total archived s h = omega arith
count-total archived_kept s h = omega arith
count-total already_archived s h = omega arith
count-total not_found s h = omega arith
count-total failed s h = omega arith
count-total not_in_scope s h = absurd h
count-total restored s h = absurd h
count-total already_local s h = absurd h

abbrev CountedEntry : Entry → Type 0
CountedEntry e = Counted e.status

summarize-total :
    (es : List Entry) (s : Summary)
    → All CountedEntry es
    → total (summarize es s) ≡ total s + length es
unfolding summarize count_entry
summarize-total [] s h = omega arith
summarize-total (e ∷ es) s h =
    omega (arith, summarize-total es (count_entry e s) h.1, count-total e.status s h.0)

module _ {W : Type 0} (parse : Text → Option Url) (app : Option Url) (t : Tiering W) where
  -- The entries name the files, and each has a status that is counted.
  abbrev Accounted : List Text → List Entry → Type 0
  Accounted files es =
      (map (λ e. e.file) es ≡ files) × (length es ≡ length files) × All CountedEntry es

  key-Counted :
      (bucket file : Text) (evict : Bool) (c : Key) (w : W)
      → is_in_scope t.archive bucket ≡ true
      → let e = (archive_key parse app t bucket evict file c w).0 in
        (e.file ≡ file) × Counted e.status
  unfolding archive_key
  key-Counted bucket file evict (bad e) w scope = (refl, tt)
  key-Counted bucket file evict (key k) w scope =
      (refl, object-Counted t.store t.archive bucket k evict w scope)

  all-Accounted :
      (bucket : Text) (evict : Bool) (files : List Text) (w : W)
      → is_in_scope t.archive bucket ≡ true
      → Accounted files (archive_all parse app t bucket evict files w).0
  unfolding archive_all archive_file
  all-Accounted bucket evict [] w scope = (refl, refl, tt)
  all-Accounted bucket evict (file ∷ files) w scope =
      let c = normalize_object_key parse app file bucket in
      let (named, counted) = key-Counted bucket file evict c w scope in
      let (names, long, all) =
        all-Accounted bucket evict files (archive_file parse app t bucket evict file w).1 scope in
      (cc (named, names), ap suc long, (counted, all))

  -- A reply with results is accounted for.
  abbrev Balanced : ArchiveRequest → ArchiveReply × W → Type 0
  Balanced req r =
      (es : List Entry) (s : Summary)
      → r.0 ≡ success es s
      → (map (λ e. e.file) es ≡ req.files) × (total s ≡ length req.files)

  answered-Balanced :
      (bucket : Text) (req : ArchiveRequest) (w : W)
      → is_in_scope t.archive bucket ≡ true
      → let es = (archive_all parse app t bucket (evict_of req.evict) req.files w).0 in
        (map (λ e. e.file) es ≡ req.files) × (total (summarize es empty_summary) ≡ length req.files)
  answered-Balanced bucket req w scope =
      let (names, long, all) = all-Accounted bucket (evict_of req.evict) req.files w scope in
      (names, omega (arith, summarize-total _ empty_summary all, long))

  bucket-Balanced :
      (max_batch : ℕ) (bucket : Text) (req : ArchiveRequest) (w : W)
      → Balanced req (archive_in_bucket parse app t max_batch bucket req w)
  unfolding archive_in_bucket
  bucket-Balanced max_batch bucket req w =
      if-returns (Balanced req) (bucket =? []) _ _ w (λ _ es s h. absurd (cc h))
        λ _.
          if-returns (Balanced req) (ltb 0 max_batch && ltb max_batch (length req.files)) _ _ w
            (λ _ es s h. absurd (cc h))
            λ _.
              if-returns (Balanced req) (not (is_enabled t.archive)) _ _ w
                (λ _ es s h. absurd (cc h))
                λ _.
                  if-returns (Balanced req) (not (is_in_scope t.archive bucket)) _ _ w
                    (λ _ es s h. absurd (cc h))
                    (λ scope es s h.
                      let (names, sum) = answered-Balanced bucket req w (ground (arith, scope)) in
                      (cc (h, names), cc (h, sum)))

  -- A request to archive objects that is answered with results has one result for each file, in
  -- the order of the files, and the five counters of its summary add up to the number of files.
  pub archive_objects_accounts :
      (max_batch : ℕ) (valid : ArchiveRequest → Bool) (p : Principal) (req : ArchiveRequest) (w : W)
      (es : List Entry) (s : Summary)
      → (archive_objects parse app t max_batch valid p (some req) w).0 ≡ success es s
      → (map (λ e. e.file) es ≡ req.files)
        × (s.archived + s.archived_kept + s.already_archived + s.not_found + s.failed
            ≡ length req.files)
  unfolding archive_objects
  archive_objects_accounts max_batch valid p req w es s h =
      if-returns (Balanced req) (not (valid req)) _ _ w (λ _ es' s' h'. absurd (cc h'))
        (λ _. go (resolve_bucket p req.bucket)) es s h
    where
      go : (o : Option Text) → Balanced req (for_bucket parse app t max_batch req o w)
      go none = λ es' s' h'. absurd (cc h')
      go (some bucket) = bucket-Balanced max_batch bucket req w
