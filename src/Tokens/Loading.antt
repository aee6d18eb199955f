-- ===== src/Tokens/Loading.antt =====
-- What a load of the token file leaves in the table.
use cdn.Common.{
  ℕ, suc, ◌+◌, ◌≤◌, ◌≡◌, refl, ap, true, Option, none, some, List, ◌∷◌, arith, length, [],
}
use cdn.Text.{Text, byte_len, trim_space}
use cdn.Bucket.{validate}
use cdn.Tokens.{
  Time, BucketToken, BucketCredential, Table, find, File, missing, unreadable, blank, content,
  Loaded, loaded, refused, load_entry, load_entries, load_bucket_tokens, expiry, min_token_length,
  then_load, installed, decoded,
}

module _ (sum256 : Text → Text) (parse_time : Text → Option Time) where
  -- The credential that an entry with a given expiry makes.
  abbrev pub credential : BucketToken → Option ℕ → BucketCredential
  credential entry x = record { digest = sum256 (trim_space entry.token); expires_at = x }

  -- What must hold for the entry to be added to a table, and the table with it.
  pub record Adds (entry : BucketToken) (t t' : Table) : Type 0 where
    pub valid : validate (trim_space entry.bucket) ≡ true
    pub long : min_token_length ≤ byte_len (trim_space entry.token)
    pub fresh : find (trim_space entry.bucket) t ≡ none
    pub expires : Option ℕ
    pub readable : expiry sum256 parse_time entry.expires_at ≡ loaded expires
    pub added : t' ≡ (trim_space entry.bucket, credential entry expires) ∷ t

  pub load_entry-Adds :
      (entry : BucketToken) (t t' : Table)
      → load_entry sum256 parse_time entry t ≡ loaded t'
      → Adds entry t t'
  unfolding load_entry
  load_entry-Adds entry t t' h = go (expiry sum256 parse_time entry.expires_at) refl
    where
      go : (x : Loaded (Option ℕ)) → expiry sum256 parse_time entry.expires_at ≡ x → Adds entry t t'
      go (refused e) q = absurd (ground (arith, h, q))
      go (loaded x) q = record {
        valid = ground (arith, h, q);
        long = ground (arith, h, q);
        fresh = ground (arith, h, q);
        expires = x;
        readable = q;
        added = ground (arith, h, q);
      }

  -- Where a credential may come from: a valid name, and a secret of 32 bytes or more.
  pub record IsSound (name : Text) (c : BucketCredential) : Type 0 where
    pub valid : validate name ≡ true
    pub secret : Text
    pub long : min_token_length ≤ byte_len secret
    pub hashed : c.digest ≡ sum256 secret

  -- Every credential is sound, and no bucket has two.
  abbrev pub IsTable : Table → Type 0
  IsTable [] = Unit
  IsTable ((name, c) ∷ t) = IsSound name c × (find name t ≡ none) × IsTable t

  Adds-IsTable : {entry : BucketToken} {t t' : Table} → Adds entry t t' → IsTable t → IsTable t'
  Adds-IsTable {entry} d h = rw d.added (
    (record { valid = d.valid; secret = trim_space entry.token; long = d.long; hashed = refl }),
    d.fresh,
    h,
  )

  abbrev Good : ℕ → Loaded Table → Type 0
  Good n (refused e) = Unit
  Good n (loaded t) = IsTable t × (length t ≡ n)

  load_entries-Good :
      (entries : List BucketToken) (t : Table)
      → IsTable t
      → Good (length entries + length t) (load_entries sum256 parse_time entries t)
  unfolding load_entries
  load_entries-Good [] t h = (h, omega arith)
  load_entries-Good (entry ∷ entries) t h =
      go (load_entry sum256 parse_time entry t) refl (load_entries-Good entries)
    where
      go :
          (r : Loaded Table)
          → load_entry sum256 parse_time entry t ≡ r
          → ((t' : Table)
              → IsTable t'
              → Good (length entries + length t') (load_entries sum256 parse_time entries t'))
          → Good
              (suc (length entries) + length t)
              (then_load sum256 parse_time r (load_entries sum256 parse_time entries))
      go (refused e) q rest = tt
      go (loaded t') q rest =
          let d = load_entry-Adds entry t t' q in
          let size : suc (length entries) + length t ≡ length entries + length t' =
            omega (arith, ap (λ (l : Table). length l) d.added) in
          rw size (rest t' (Adds-IsTable d h))

  abbrev pub Counted : Table × Loaded ℕ → Type 0
  Counted (t, loaded n) = length t ≡ n
  Counted (t, refused e) = t ≡ []

  -- Whatever the file holds, the table after a load has only sound credentials, one to a bucket;
  -- it is empty where the load reports an error, and otherwise as large as the load reports.
  pub load_bucket_tokens-IsTable :
      (unmarshal : Text → Option (List BucketToken)) (file : File)
      → let r = load_bucket_tokens sum256 parse_time unmarshal file in IsTable r.0 × Counted r
  unfolding load_bucket_tokens
  load_bucket_tokens-IsTable unmarshal missing = (tt, refl)
  load_bucket_tokens-IsTable unmarshal unreadable = (tt, refl)
  load_bucket_tokens-IsTable unmarshal blank = (tt, refl)
  load_bucket_tokens-IsTable unmarshal (content raw) = go (unmarshal raw)
    where
      install :
          (n : ℕ) (r : Loaded Table)
          → Good n r
          → IsTable (installed sum256 parse_time r).0 × Counted (installed sum256 parse_time r)
      install n (refused e) h = (tt, refl)
      install n (loaded t) h = (h.0, refl)

      go :
          (o : Option (List BucketToken))
          → IsTable (decoded sum256 parse_time o).0 × Counted (decoded sum256 parse_time o)
      go none = (tt, refl)
      go (some entries) = install _ _ (load_entries-Good entries [] tt)
