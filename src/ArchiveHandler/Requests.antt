-- ===== src/ArchiveHandler/Requests.antt =====
-- What a whole request to the archive endpoint does to the stores.
use cdn.Common.{
  ℕ, ◌≡◌, ◌≢◌, refl, sym, ap, ◌∙◌, inl, Bool, not, ◌&&◌, Option, none, some, List, [], ◌∷◌, ltb,
  length, false,
}
use cdn.Text.{Text, ◌=?◌}
use cdn.Access.{Principal, resolve_bucket}
use cdn.ObjectKey.{Url, Key, key, bad, normalize_object_key}
use cdn.Storage.{ObjectStore, AwsService}
use cdn.Storage.Documented.{Transfers, View, StoreLaws, S3Laws}
use cdn.Storage.Actions.{if-ends, Preorder}
use cdn.Archive.{ArchiveConfig}
use cdn.Archive.Location.{NoSlash}
use cdn.Tiering.{is_enabled, is_in_scope, archive_object}
use cdn.Tiering.Apart.{Untouched, touching, located_apart}
use cdn.Tiering.Related.{archive_object_related}
use cdn.Tiering.Served.{Faithful, KeepsServed, Preserves, archived_at}
use cdn.Tiering.Served.Steps.{Preserves-refl, Preserves-trans}
use cdn.Tiering.Served.Moves.{tiering, archive_object-Preserves}
use cdn.ArchiveHandler.{
  ArchiveRequest, archive_key, archive_file, archive_all, archive_in_bucket, for_bucket,
  archive_objects, evict_of,
}

module _ {W : Type 0} (v : View W) (s : ObjectStore W) (aws : AwsService W) (a : ArchiveConfig)
    (local_laws : StoreLaws v s) (s3_laws : S3Laws v aws) (parse : Text → Option Url)
    (app : Option Url) where
  -- A relation between states that the archiving of each object keeps.
  module _ (bucket : Text) (evict : Bool) (r : Preorder W)
      (R_object : (k : Text) (w : W)
        → r.related w (archive_object (tiering s aws a) bucket k evict w).1) where
    key_related :
        (file : Text) (c : Key) (w : W)
        → r.related w (archive_key parse app (tiering s aws a) bucket evict file c w).1
    unfolding archive_key
    key_related file (bad e) w = r.idle w
    key_related file (key k) w = R_object k w

    all_related :
        (files : List Text) (w : W)
        → r.related w (archive_all parse app (tiering s aws a) bucket evict files w).1
    unfolding archive_all archive_file
    all_related [] w = r.idle w
    all_related (file ∷ files) w =
        r.both (key_related file (normalize_object_key parse app file bucket) w)
          (all_related files _)

    in_bucket_related :
        (max_batch : ℕ) (req : ArchiveRequest) (w : W)
        → evict_of req.evict ≡ evict
        → r.related w (archive_in_bucket parse app (tiering s aws a) max_batch bucket req w).1
    unfolding archive_in_bucket
    in_bucket_related max_batch req w e =
        if-ends (r.related w) (bucket =? []) _ _ w (λ _. r.idle w)
          λ _.
            if-ends (r.related w) (ltb 0 max_batch && ltb max_batch (length req.files)) _ _ w
              (λ _. r.idle w)
              λ _.
                if-ends (r.related w) (not (is_enabled (tiering s aws a).archive)) _ _ w
                  (λ _. r.idle w)
                  λ _.
                    if-ends (r.related w) (not (is_in_scope (tiering s aws a).archive bucket)) _ _ w
                      (λ _. r.idle w) (λ _. rw e (all_related req.files w))

  -- A relation that the request keeps in whatever bucket it is given.
  module _ (req : ArchiveRequest) (r : Preorder W) where
    request_related :
        (max_batch : ℕ) (valid : ArchiveRequest → Bool) (p : Principal) (w : W)
        → ((bucket k : Text) (w : W)
            → resolve_bucket p req.bucket ≡ some bucket
            → r.related w (archive_object (tiering s aws a) bucket k (evict_of req.evict) w).1)
        → r.related w (archive_objects parse app (tiering s aws a) max_batch valid p (some req) w).1
    unfolding archive_objects
    request_related max_batch valid p w R_object =
        if-ends (r.related w) (not (valid req)) _ _ w (λ _. r.idle w)
          (λ _. go (resolve_bucket p req.bucket) refl)
      where
        go :
            (o : Option Text)
            → resolve_bucket p req.bucket ≡ o
            → r.related w (for_bucket parse app (tiering s aws a) max_batch req o w).1
        go none e = r.idle w
        go (some bucket) e =
            in_bucket_related bucket (evict_of req.evict) r (λ k x. R_object bucket k x e) max_batch
              req w refl

  -- A request to archive objects touches neither the local nor the archived copy of any object
  -- outside the bucket that the principal is given, where neither the bucket of that object nor the
  -- one that the principal is given has a slash in its name.
  pub archive_objects_confined :
      (max_batch : ℕ) (valid : ArchiveRequest → Bool) (p : Principal) (req : ArchiveRequest) (w : W)
      (b k : Text)
      → NoSlash b
      → ((bucket : Text) → resolve_bucket p req.bucket ≡ some bucket → NoSlash bucket)
      → resolve_bucket p req.bucket ≢ some b
      → let w' = (archive_objects parse app (tiering s aws a) max_batch valid p (some req) w).1 in
        (v.local w' b k ≡ v.local w b k) × (archived_at v a w' b k ≡ archived_at v a w b k)
  archive_objects_confined max_batch valid p req w b k hb named other =
      let kept = request_related req (touching v a b k) max_batch valid p w object_kept in
      (kept.local, kept.archived)
    where
      object_kept :
          (bucket l : Text) (x : W)
          → resolve_bucket p req.bucket ≡ some bucket
          → Untouched v a b k x (archive_object (tiering s aws a) bucket l (evict_of req.evict) x).1
      object_kept bucket l x e =
          let apart : b ≢ bucket = λ same. other (e ∙ ap some (sym same)) in
          archive_object_related v s aws a local_laws s3_laws bucket l (evict_of req.evict)
            (touching v a b k) (λ _ _ h. record { local = h.local b k; archived = h.archived _ _ })
            (λ body y. record {
              local = s3_laws.put_local _ _ b k body y;
              archived =
                  s3_laws.put_other _ _ _ _ body y
                    (located_apart a b k bucket l hb (named bucket e) apart);
            })
            (λ _ y. record {
              local = local_laws.remove_object_other bucket l b k y (inl apart);
              archived = local_laws.remove_object_archived bucket l _ _ y;
            })
            x

  -- No object's local copy changes.
  abbrev local_kept : Preorder W
  local_kept = record {
    related = λ w w'. (b k : Text) → v.local w' b k ≡ v.local w b k;
    idle = λ w b k. refl;
    both = λ q r b k. r b k ∙ q b k;
  }

  -- A request that says not to evict changes no local copy of any object.
  pub archive_objects_copies :
      (max_batch : ℕ) (valid : ArchiveRequest → Bool) (p : Principal) (req : ArchiveRequest) (w : W)
      (b k : Text)
      → req.evict ≡ some false
      → let w' = (archive_objects parse app (tiering s aws a) max_batch valid p (some req) w).1 in
        v.local w' b k ≡ v.local w b k
  archive_objects_copies max_batch valid p req w b k keep =
      request_related req local_kept max_batch valid p w
        (λ bucket l x e.
          archive_object_related v s aws a local_laws s3_laws bucket l (evict_of req.evict)
            local_kept (λ _ _ h. h.local) (λ body y b' k'. s3_laws.put_local _ _ b' k' body y)
            (λ evicts. absurd (cc (rw keep at evicts))) x)
        b k

module _ {W : Type 0} (v : View W) (s : ObjectStore W) (aws : AwsService W) (a : ArchiveConfig)
    (local_laws : StoreLaws v s) (s3_laws : S3Laws v aws) (transfers : Transfers v s aws)
    (parse : Text → Option Url) (app : Option Url) where
  abbrev keeping : Preorder W
  keeping = record {
    related = Preserves v a;
    idle = λ w. Preserves-refl v a w;
    both = λ q r. Preserves-trans v a q r;
  }

  -- A request to archive objects, whatever it names and whether or not it evicts, leaves the bytes
  -- that are served of every object as they were. This holds where local and archived copies of one
  -- size are the same bytes, and the request keeps them so. All of it is about buckets without a
  -- slash in their name, and the bucket that the principal is given is one of them.
  pub archive_objects-KeepsServed :
      (max_batch : ℕ) (valid : ArchiveRequest → Bool) (p : Principal) (req : ArchiveRequest) (w : W)
      → ((bucket : Text) → resolve_bucket p req.bucket ≡ some bucket → NoSlash bucket)
      → Faithful v a w
      → KeepsServed v a w
          (archive_objects parse app (tiering s aws a) max_batch valid p (some req) w).1
  archive_objects-KeepsServed max_batch valid p req w named f =
      let done =
        request_related v s aws a local_laws s3_laws parse app req keeping max_batch valid p w
          (λ bucket k x e.
            archive_object-Preserves v s aws a local_laws s3_laws transfers bucket k
              (evict_of req.evict) x (named bucket e)) in
      done.kept f
