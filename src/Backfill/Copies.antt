-- ===== src/Backfill/Copies.antt =====
-- What a backfill leaves alone in the stores.
use cdn.Text.{Text}
use cdn.Common.{
  ℕ, ◌≡◌, refl, ◌∙◌, Bool, true, false, ◌&&◌, Option, none, some, List, ◌∷◌, ltb, leb, [],
}
use cdn.Backfill.{Stats, handle, visit, feed, run, run_buckets, unless_stopped}
use cdn.Storage.Documented.{View, Same, StoreLaws, S3Laws}
use cdn.Storage.Actions.{if-ends}
use cdn.Archive.{ArchiveConfig, archive}
use cdn.Storage.{◌>>=◌, Error, ObjectInfo, ObjectStore, AwsService, M}
use cdn.Tiering.Outcomes.{archive_known_object_copies}
use cdn.Tiering.Served.Steps.{verify_archived-Same, Same-trans}

module _ {W : Type 0} (R : W → W → Type 0) (R_refl : (w : W) → R w w)
    (R_trans : (x y z : W) → R x y → R y z → R x z) (s : ObjectStore W) (aws : AwsService W)
    (a : ArchiveConfig) (ctx_err : M W (Option Error)) (apply : Bool) (limit : ℕ)
    (ctx : (w : W) → R w (ctx_err w).1) (listing : (b : Text) (w : W) → R w (s.list_objects b w).1)
    (handled : (b : Text) (obj : ObjectInfo) (c : Stats) (w : W)
      → R w (handle s (archive aws a) b apply obj c w).1) where
  visit_ends :
      (b : Text) (e failure : Option Error) (obj : ObjectInfo) (c : Stats)
      (rest : Stats → M W Stats) (w : W)
      → ((c' : Stats) (u : W) → R u (rest c' u).1)
      → R w (visit s (archive aws a) b ctx_err apply limit e failure obj c rest w).1
  unfolding visit
  visit_ends b (some e) failure obj c rest w h = R_refl w
  visit_ends b none (some e) obj c rest w h = h _ w
  visit_ends b none none obj c rest w h =
      if-ends (R w) (ltb 0 limit && leb limit c.scanned) _ _ w (λ _. R_refl w)
        λ _. R_trans _ _ _ (handled b obj _ w) (h _ _)

  feed_ends :
      (b : Text) (objs : List ObjectInfo) (c : Stats) (w : W)
      → R w (feed s (archive aws a) b ctx_err apply limit objs c w).1
  unfolding feed
  feed_ends b [] c w = R_refl w
  feed_ends b (obj ∷ objs) c w =
      R_trans _ _ _ (ctx w) (visit_ends b _ obj.failure obj c _ _ (λ c' u. feed_ends b objs c' u))

  run_ends :
      (b : Text) (c : Stats) (w : W) → R w (run s (archive aws a) b ctx_err apply limit c w).1
  unfolding run
  run_ends b c w = R_trans _ _ _ (listing b w) (feed_ends b _ c _)

  unless_ends :
      (e : Option Error) (c : Stats) (rest : M W Stats) (w : W)
      → R w (rest w).1
      → R w (unless_stopped e c rest w).1
  unless_ends (some e) c rest w h = R_refl w
  unless_ends none c rest w h = h

  run_buckets_ends :
      (bs : List Text) (c : Stats) (w : W)
      → R w (run_buckets s (archive aws a) ctx_err apply limit bs c w).1
  unfolding run_buckets
  run_buckets_ends [] c w = R_refl w
  run_buckets_ends (b ∷ bs) c w = R_trans _ _ _ (ctx w) (
      unless_ends (ctx_err w).0 c
        (run s (archive aws a) b ctx_err apply limit c
          >>= run_buckets s (archive aws a) ctx_err apply limit bs)
        _ (R_trans _ _ _ (run_ends b c _) (run_buckets_ends bs _ _)))

module _ {W : Type 0} (v : View W) (s : ObjectStore W) (aws : AwsService W) (a : ArchiveConfig)
    (local_laws : StoreLaws v s) (s3_laws : S3Laws v aws) (ctx_err : M W (Option Error))
    (ctx_reads : (w : W) → Same v (ctx_err w).1 w) where
  -- The local store has what it had.
  record LocalKept (w w' : W) : Type 0 where
    at : (c l : Text) → v.local w' c l ≡ v.local w c l

  handle-LocalKept :
      (apply : Bool) (b : Text) (obj : ObjectInfo) (c : Stats) (w : W)
      → LocalKept w (handle s (archive aws a) b apply obj c w).1
  unfolding handle
  handle-LocalKept false b obj c w = record {
    at = (verify_archived-Same v aws a s3_laws b obj.key obj.size w).local;
  }
  handle-LocalKept true b obj c w = record {
    at = archive_known_object_copies v s aws a local_laws s3_laws b obj.key obj.size w;
  }

  -- A backfill takes away no local object and changes none, in whatever buckets it runs, dry or
  -- not, wherever it is interrupted and whatever the stores answer.
  pub run_buckets_copies :
      (apply : Bool) (limit : ℕ) (bs : List Text) (c : Stats) (w : W) (b k : Text)
      → v.local (run_buckets s (archive aws a) ctx_err apply limit bs c w).1 b k ≡ v.local w b k
  run_buckets_copies apply limit bs c w =
      (run_buckets_ends LocalKept (λ u. record { at = λ _ _. refl })
        (λ x y z p q. record { at = λ c l. q.at c l ∙ p.at c l }) s aws a ctx_err apply limit
        (λ u. record { at = (ctx_reads u).local })
        (λ b u. record { at = (local_laws.list_objects_reads b u).local }) (handle-LocalKept apply)
        bs c w).at

  -- A dry run leaves both stores as they were.
  pub run_buckets_dry :
      (limit : ℕ) (bs : List Text) (c : Stats) (w : W)
      → Same v (run_buckets s (archive aws a) ctx_err false limit bs c w).1 w
  run_buckets_dry limit bs c w =
      run_buckets_ends (λ x y. Same v y x)
        (λ u. record { local = λ _ _. refl; archived = λ _ _. refl })
        (λ x y z p q. Same-trans v a q p) s aws a ctx_err false limit ctx_reads
        local_laws.list_objects_reads
        (λ b obj c u. unfold handle in verify_archived-Same v aws a s3_laws b obj.key obj.size u) bs
        c w
