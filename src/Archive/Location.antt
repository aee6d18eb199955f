-- ===== src/Archive/Location.antt =====
-- The mapping from local locations to archive locations, and its inverse.
use cdn.Common.{◌≡◌, ◌≢◌, refl, ap, inl, inr, [], ◌∷◌, ◌++◌, All, Bool-cases}
use cdn.Text.{Text, ◌=?◌}
use cdn.Archive.{ArchiveConfig, resolve}

-- A bucket name has no slash.
abbrev pub NoSlash : Text → Type 0
NoSlash = All (λ c. c ≢ b'/')

slash_injective :
    (b c k l : Text) → NoSlash b → NoSlash c → b ++ b'/' ∷ k ≡ c ++ b'/' ∷ l → (b ≡ c) × (k ≡ l)
slash_injective [] [] k l hb hc e = (refl, cc)
slash_injective [] (d ∷ c) k l hb hc e = absurd (hc.0 (cc))
slash_injective (d ∷ b) [] k l hb hc e = absurd (hb.0 (cc))
slash_injective (d ∷ b) (d' ∷ c) k l hb hc e =
    let p = slash_injective b c k l hb.1 hc.1 (cc) in (cc p.0, p.1)

-- Two objects of buckets without a slash in their names have two archive locations, in both layouts.
pub resolve_injective :
    (a : ArchiveConfig) (b c k l : Text)
    → NoSlash b
    → NoSlash c
    → resolve a b k ≡ resolve a c l
    → (b ≡ c) × (k ≡ l)
unfolding resolve
resolve_injective a b c k l hb hc = elim (Bool-cases (a.bucket =? [])) [
  | inl parity ↦ rw parity (λ e. (ap (λ (p : Text × Text). p.0) e, ap (λ (p : Text × Text). p.1) e))
  | inr single ↦ rw single (λ e. slash_injective b c k l hb hc (ap (λ (p : Text × Text). p.1) e))
]
