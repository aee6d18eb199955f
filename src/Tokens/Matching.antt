-- ===== src/Tokens/Matching.antt =====
-- Which secrets the loaded table accepts.
use mathlib.Core.List.{Memᴰ}
use cdn.Common.{
  ℕ, ◌≡◌, Option, some, List, arith, refl, ◌∷◌, [], ◌⊎◌, inl, inr, true, ◌&&◌, Bool-cases,
  Option-cases,
}
use cdn.Text.{Text, trim_space, ◌=?◌}
use cdn.Text.Laws.{=?_refl, =?_iff}
use cdn.Tokens.{
  Time, BucketToken, BucketCredential, Table, find, loaded, load_entries, expiry,
  bucket_token_matches_at, load_entry, Loaded, then_load, refused, is_live,
}
use cdn.Tokens.Loading.{Adds, credential, load_entry-Adds}

module _ (sum256 : Text → Text) (parse_time : Text → Option Time) where
  -- The table has the entry's credential under the entry's bucket.
  record Installed (entry : BucketToken) (t : Table) : Type 0 where
    expires : Option ℕ
    readable : expiry sum256 parse_time entry.expires_at ≡ loaded expires
    held : find (trim_space entry.bucket) t ≡ some (credential sum256 parse_time entry expires)

  Installed-added :
      {entry : BucketToken} {t t' : Table} → Adds sum256 parse_time entry t t' → Installed entry t'
  unfolding find
  Installed-added {entry} d = record {
    expires = d.expires;
    readable = d.readable;
    held = rw d.added (rw (=?_refl (trim_space entry.bucket)));
  }

  -- A credential stays where it is when another bucket's is added.
  find-added :
      (name : Text) (c : BucketCredential) {entry : BucketToken} {t t' : Table}
      → Adds sum256 parse_time entry t t'
      → find name t ≡ some c
      → find name t' ≡ some c
  unfolding find
  find-added name c {entry} d h =
      rw d.added (ground (arith, =?_iff (trim_space entry.bucket) name, d.fresh, h))

  then_load-inv :
      (r : Loaded Table) (k : Table → Loaded Table) (t' : Table)
      → then_load sum256 parse_time r k ≡ loaded t'
      → (u : Table) × (r ≡ loaded u) × (k u ≡ loaded t')
  then_load-inv (refused e) k t' h = absurd (cc h)
  then_load-inv (loaded u) k t' h = (u, refl, h)

  -- A load that begins with an entry adds it and goes on.
  load-cons :
      (entry : BucketToken) (entries : List BucketToken) (t t' : Table)
      → load_entries sum256 parse_time (entry ∷ entries) t ≡ loaded t'
      → (u : Table) × Adds sum256 parse_time entry t u
        × (load_entries sum256 parse_time entries u ≡ loaded t')
  unfolding load_entries
  load-cons entry entries t t' h =
      let (u, added, rest) =
        then_load-inv (load_entry sum256 parse_time entry t)
          (load_entries sum256 parse_time entries) t' h in
      (u, load_entry-Adds sum256 parse_time entry t u added, rest)

  load_entries-find :
      (name : Text) (c : BucketCredential) (entries : List BucketToken) (t t' : Table)
      → load_entries sum256 parse_time entries t ≡ loaded t'
      → find name t ≡ some c
      → find name t' ≡ some c
  load_entries-find name c [] t t' h f =
      let same : t ≡ t' = unfold load_entries in cc h in rw same at f
  load_entries-find name c (entry ∷ entries) t t' h f =
      let (u, d, rest) = load-cons entry entries t t' h in
      load_entries-find name c entries u t' rest (find-added name c d f)

  load_entries-Installed :
      (entry : BucketToken) {entries : List BucketToken} (t t' : Table)
      → Memᴰ entry entries
      → load_entries sum256 parse_time entries t ≡ loaded t'
      → Installed entry t'
  load_entries-Installed entry t t' (Memᴰ.head {x = first} {xs = entries} e) h =
      let (u, d, rest) = load-cons first entries t t' h in
      let i = Installed-added d in
      rw e (record {
        expires = i.expires;
        readable = i.readable;
        held = load_entries-find _ _ entries u t' rest i.held;
      })
  load_entries-Installed entry t t' (Memᴰ.tail {x = first} {xs = entries} m) h =
      let (u, d, rest) = load-cons first entries t t' h in load_entries-Installed entry u t' m rest

  -- An entry of a token file that loads is accepted with its own secret for its own bucket exactly
  -- as long as it has not expired.
  pub loaded_entry_matches :
      (entries : List BucketToken) (t : Table) (entry : BucketToken) (x : Option ℕ) (now : ℕ)
      → load_entries sum256 parse_time entries [] ≡ loaded t
      → Memᴰ entry entries
      → expiry sum256 parse_time entry.expires_at ≡ loaded x
      → bucket_token_matches_at sum256 t (trim_space entry.bucket) (trim_space entry.token) now
        ≡ is_live x now
  unfolding bucket_token_matches_at
  loaded_entry_matches entries t entry x now h m e =
      let i = load_entries-Installed entry [] t m h in
      let same : i.expires ≡ x = cc (i.readable, e) in
      ground (arith, i.held, same, =?_refl (sum256 (trim_space entry.token)))

  -- Where a credential of the table comes from: an entry of the file for its bucket.
  record Source (entries : List BucketToken) (name : Text) (c : BucketCredential) : Type 0 where
    entry : BucketToken
    member : Memᴰ entry entries
    named : trim_space entry.bucket ≡ name
    expires : Option ℕ
    readable : expiry sum256 parse_time entry.expires_at ≡ loaded expires
    made : c ≡ credential sum256 parse_time entry expires

  Source-tail :
      (first : BucketToken) {entries : List BucketToken} {name : Text} {c : BucketCredential}
      → Source entries name c
      → Source (first ∷ entries) name c
  Source-tail first s = record {
    entry = s.entry;
    member = Memᴰ.tail s.member;
    named = s.named;
    expires = s.expires;
    readable = s.readable;
    made = s.made;
  }

  find-Adds :
      (name : Text) (c : BucketCredential) (entry : BucketToken) (entries : List BucketToken)
      {t t' : Table}
      → Adds sum256 parse_time entry t t'
      → find name t' ≡ some c
      → Source (entry ∷ entries) name c ⊎ (find name t ≡ some c)
  unfolding find
  find-Adds name c entry entries {t} d h = elim (Bool-cases (trim_space entry.bucket =? name)) [
    | inl e ↦ inl (record {
      entry = entry;
      member = Memᴰ.head refl;
      named = (=?_iff (trim_space entry.bucket) name).0 e;
      expires = d.expires;
      readable = d.readable;
      made = ground (arith, (rw d.added at h), e);
    })
    | inr e ↦ inr (ground (arith, (rw d.added at h), e))
  ]

  load_entries-Source :
      (name : Text) (c : BucketCredential) (entries : List BucketToken) (t t' : Table)
      → load_entries sum256 parse_time entries t ≡ loaded t'
      → find name t' ≡ some c
      → Source entries name c ⊎ (find name t ≡ some c)
  load_entries-Source name c [] t t' h f =
      let same : t' ≡ t = unfold load_entries in cc h in inr (rw same at f)
  load_entries-Source name c (entry ∷ entries) t t' h f =
      let (u, d, rest) = load-cons entry entries t t' h in
      elim (load_entries-Source name c entries u t' rest f) [
        | inl s ↦ inl (Source-tail entry s)
        | inr g ↦ find-Adds name c entry entries d g
      ]

  -- A secret that the table of a loaded file accepts for a bucket has the digest of the secret of an
  -- entry of that file for that bucket, and this entry has not expired.
  pub match_has_entry :
      (entries : List BucketToken) (t : Table) (name secret : Text) (now : ℕ)
      → load_entries sum256 parse_time entries [] ≡ loaded t
      → bucket_token_matches_at sum256 t name secret now ≡ true
      → (entry : BucketToken) × (x : Option ℕ) × Memᴰ entry entries
        × (trim_space entry.bucket ≡ name)
        × (sum256 secret ≡ sum256 (trim_space entry.token))
        × (expiry sum256 parse_time entry.expires_at ≡ loaded x)
        × (is_live x now ≡ true)
  unfolding bucket_token_matches_at
  match_has_entry entries t name secret now h m = elim (Option-cases (find name t)) [
    | inl e ↦ absurd (ground (arith, m, e))
    | inr (c, e) ↦ elim (load_entries-Source name c entries [] t h e) [
      | inr none_there ↦ absurd (unfold find in cc none_there)
      | inl s ↦
          let accepted : (sum256 secret =? c.digest) && is_live c.expires_at now ≡ true =
            rw e at m in
          (
            s.entry,
            s.expires,
            s.member,
            s.named,
            ground (arith, accepted, s.made, =?_iff (sum256 secret) c.digest),
            s.readable,
            ground (arith, accepted, s.made),
          )
    ]
  ]
