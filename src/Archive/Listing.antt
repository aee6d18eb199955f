-- ===== src/Archive/Listing.antt =====
-- The archive seen through one bucket: a walk gives back the keys that were put, and an archive that
-- is off, or a bucket out of scope, sends nothing to S3.
use cdn.Common.{
  ℕ, ◌≡◌, refl, sym, ap, ◌∙◌, ◌≢◌, inl, inr, true, false, Option, some, List, ◌∷◌, ◌++◌,
  append_assoc, Bool-cases, All, [], arith, if◌then◌else◌,
}
use cdn.Archive.{
  ArchiveConfig, in_scope, resolve, put, open_archived, stat, reachable, verify_destination,
  local_keys, walk,
}
use cdn.Storage.{Error, Reader, AwsService, err, archive_disabled}
use cdn.Text.{Text, ◌=?◌}
use cdn.Text.Laws.{=?_iff, trim_prefix-append}

-- Where the archive keeps an object: in its own bucket under its own key, or in the one archive
-- bucket, under the name of its bucket, a slash and its key.
abbrev pub placed : Text → Text → Text → Text × Text
placed [] b key = (b, key)
placed (x ∷ xs) b key = (x ∷ xs, b ++ b'/' ∷ key)

-- The objects of a bucket under the keys that they have in the archive.
abbrev pub located : Text → Text → List (Text × ℕ) → List (Text × ℕ)
located c b [] = []
located c b ((key, size) ∷ items) = ((placed c b key).1, size) ∷ located c b items

placed_below : (c b key : Text) → (placed c b key ≡ ((placed c b []).0, (placed c b []).1 ++ key))
placed_below [] b key = refl
placed_below (x ∷ xs) b key = ap (λ l. (x ∷ xs, l)) (sym (append_assoc b (b'/' ∷ []) key))

local_keys-located :
    (c b : Text) (items : List (Text × ℕ))
    → All (λ i. i.0 ≢ []) items
    → local_keys (placed c b []).1 (located c b items) ≡ items
unfolding local_keys
local_keys-located c b [] h = refl
local_keys-located c b ((key, size) ∷ items) (some_left, h) = elim (Bool-cases (key =? [])) [
  | inl y ↦ absurd (some_left ((=?_iff key []).0 y))
  | inr n ↦
      rw (ap (λ (l : Text × Text). l.1) (placed_below c b key))
        (rw (trim_prefix-append (placed c b []).1 key, n, local_keys-located c b items h))
]

-- The code's location is that one.
resolve-placed : (a : ArchiveConfig) (b key : Text) → resolve a b key ≡ placed a.bucket b key
unfolding resolve ◌=?◌
resolve-placed a b key = go a.bucket
  where
    go : (c : Text) → (if c =? [] then (b, key) else (c, b ++ b'/' ∷ key)) ≡ placed c b key
    go [] = refl
    go (x ∷ xs) = refl

module _ {W : Type 0} (aws : AwsService W) (a : ArchiveConfig) where
  -- Put hands the body of an object in scope to S3 at the place of its bucket and key, in either
  -- layout. Where S3 lists the objects of a bucket under the keys that they have there, Walk gives
  -- them back under their own keys, with the error that ended the listing, if none of these is
  -- empty.
  pub walk_located :
      (b : Text) (items : List (Text × ℕ)) (end : Option Error) (w : W)
      → in_scope a b ≡ true
      → All (λ i. i.0 ≢ []) items
      → (aws.s3_list_objects (placed a.bucket b []).0 (placed a.bucket b []).1 w).0
        ≡ (located a.bucket b items, end)
      → ((walk aws a b w).0 ≡ (items, end))
        × ((key : Text) (body : Reader) (x : W)
            → let at = placed a.bucket b key in
              (put aws a b key body x).1 ≡ (aws.s3_put_object at.0 at.1 body x).1)
  unfolding walk put in_scope
  walk_located b items end w scoped h listed =
      let on : a.enabled ≡ true = ground (arith, scoped) in
      (
        simp on (
            rw (resolve-placed a b []) (
              ap (λ found. (local_keys (placed a.bucket b []).1 found.0, found.1)) listed
              ∙ ap (λ l. (l, end)) (local_keys-located a.bucket b items h))),
        λ key body x. simp on (rw (simp on at scoped) (rw (resolve-placed a b key) refl)),
      )

  -- An archive that is off answers every operation with ErrArchiveDisabled and sends nothing to S3.
  pub disabled_archive :
      (b k : Text) (body : Reader) (w : W)
      → a.enabled ≡ false
      → (put aws a b k body w ≡ (some archive_disabled, w))
        × (open_archived aws a b k w ≡ (err archive_disabled, w))
        × (stat aws a b k w ≡ (err archive_disabled, w))
        × (reachable aws a b w ≡ (some archive_disabled, w))
        × (verify_destination aws a w ≡ (some archive_disabled, w))
        × (walk aws a b w ≡ (([], some archive_disabled), w))
        × (in_scope a b ≡ false)
  unfolding put open_archived stat reachable verify_destination walk in_scope
  disabled_archive b k body w off = simp off (refl, refl, refl, refl, refl, refl, refl)
