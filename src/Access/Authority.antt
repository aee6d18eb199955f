-- ===== src/Access/Authority.antt =====
-- What a credential lets a request do.
use cdn.Common.{
  ℕ, ◌≡◌, ◌≢◌, ◌↔◌, ◌⊎◌, inl, inr, true, false, Option, none, some, arith, Bool-cases, [], refl,
  sym, ap, ◌∙◌,
}
use cdn.Text.{Text, trim_space, cut}
use cdn.Text.Laws.{=?_iff}
use cdn.Tokens.{Table, bucket_token_matches_at}
use cdn.Access.{
  granted, Principal, general, bearer_token, token_valid, check_token, resolve_principal,
  resolve_bucket, resolve_raw, scoped_by, Auth, denied,
}

module _ (sum256 : Text → Text) (table : Table) (now : ℕ) (server : Text) where
  -- The credential behind a principal: the server's own token, or the name of its bucket and, behind a
  -- colon, an accepted secret.
  abbrev pub Behind : Principal → Text → Type 0
  Behind p raw =
      (p ≡ general) × (token_valid server raw ≡ true)
      ⊎ (p.scoped ≡ true)
        × ((secret : Text) × (cut (trim_space raw) b':' ≡ some (p.bucket, secret))
            × (bucket_token_matches_at sum256 table p.bucket secret now ≡ true))

  scoped_by-Behind :
      (o : Option (Text × Text)) (p : Principal) (raw : Text)
      → cut (trim_space raw) b':' ≡ o
      → scoped_by sum256 table now server o ≡ granted p
      → Behind p raw
  scoped_by-Behind none p raw q h = absurd (cc h)
  scoped_by-Behind (some (name, secret)) p raw q h =
      elim (Bool-cases (bucket_token_matches_at sum256 table name secret now)) [
        | inr bad ↦ absurd (ground (arith, h, bad))
        | inl good ↦
            let made : p ≡ record { scoped = true; bucket = name } = ground (arith, h, good) in
            inr (rw made refl, (secret, rw made q, rw made good))
      ]

  resolve_raw-Behind :
      (raw : Text) (p : Principal)
      → resolve_raw sum256 table now server (granted raw) ≡ granted p
      → Behind p raw
  resolve_raw-Behind raw p h = elim (Bool-cases (token_valid server raw)) [
    | inl own ↦ inl (ground (arith, h, own), own)
    | inr other ↦ scoped_by-Behind (cut (trim_space raw) b':') p raw refl (rw other at h)
  ]

  resolved :
      (header : Text) (p : Principal)
      → resolve_principal sum256 table now server header ≡ granted p
      → (raw : Text) × (bearer_token header ≡ granted raw) × Behind p raw
  unfolding resolve_principal
  resolved header p h = go (bearer_token header) refl
    where
      go :
          (r : Auth Text)
          → bearer_token header ≡ r
          → (raw : Text) × (bearer_token header ≡ granted raw) × Behind p raw
      go (denied e) q = absurd (ground (arith, h, q))
      go (granted raw) q =
          (raw, q, resolve_raw-Behind raw p (sym (ap (resolve_raw sum256 table now server) q) ∙ h))

  -- A request that is granted a bucket to write to carries, as its bearer token, the server's own
  -- token, or the name of this very bucket and behind the first colon a secret that the token table
  -- accepts for it.
  pub write_authorised :
      (header requested bucket : Text) (p : Principal)
      → resolve_principal sum256 table now server header ≡ granted p
      → resolve_bucket p requested ≡ some bucket
      → (raw : Text) × (bearer_token header ≡ granted raw)
        × ((token_valid server raw ≡ true)
            ⊎ ((secret : Text) × (cut (trim_space raw) b':' ≡ some (bucket, secret))
                × (bucket_token_matches_at sum256 table bucket secret now ≡ true)))
  unfolding resolve_bucket
  write_authorised header requested bucket p h b =
      let (raw, q, behind) = resolved header p h in
      (
        raw,
        q,
        elim behind [
          | inl (_, own) ↦ inl own
          | inr (scoped, (secret, named, accepted)) ↦
              let own : bucket ≡ p.bucket = ground (arith, b, scoped) in
              inr (secret, rw own named, rw own accepted)
        ],
      )

  -- The operator routes let in exactly the requests that resolve to the general principal: a
  -- bucket-scoped token never passes CheckToken, and the general token always does.
  pub check_token_iff :
      (header : Text)
      → (check_token server header ≡ none)
        ↔ (resolve_principal sum256 table now server header ≡ granted general)
  unfolding check_token resolve_principal
  check_token_iff header = (λ h. ct h, λ h. tc h)
    where
      ct :
          check_token server header ≡ none
          → resolve_principal sum256 table now server header ≡ granted general
      ct h = ground (arith, h)

      tc :
          resolve_principal sum256 table now server header ≡ granted general
          → check_token server header ≡ none
      tc h =
          let (raw, q, behind) = resolved header general h in
          elim behind [
            | inl (_, own) ↦ ground (arith, q, own)
            | inr (scoped, _) ↦ absurd (cc scoped)
          ]

-- A scoped principal gets its own bucket, if the request names that bucket or none, and otherwise
-- nothing; the general one gets the bucket that the request names.
pub resolve_bucket_confines :
    (p : Principal) (requested : Text)
    → (p.scoped ≡ false → resolve_bucket p requested ≡ some (trim_space requested))
      × (p.scoped ≡ true
          → (trim_space requested ≡ []) ⊎ (trim_space requested ≡ p.bucket)
          → resolve_bucket p requested ≡ some p.bucket)
      × (p.scoped ≡ true
          → trim_space requested ≢ []
          → trim_space requested ≢ p.bucket
          → resolve_bucket p requested ≡ none)
unfolding resolve_bucket
resolve_bucket_confines p requested = (
  λ s. ground arith,
  λ s n. ground (arith, =?_iff (trim_space requested) [], =?_iff (trim_space requested) p.bucket),
  λ s n m. ground (arith, =?_iff (trim_space requested) [], =?_iff (trim_space requested) p.bucket),
)
