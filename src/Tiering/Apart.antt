-- ===== src/Tiering/Apart.antt =====
-- Locations that an action leaves alone.
use cdn.Common.{◌≡◌, ◌≢◌, ◌⊎◌, refl, ◌∙◌, inl, inr}
use cdn.Text.{Text}
use cdn.Storage.Documented.{View}
use cdn.Storage.Actions.{Preorder}
use cdn.Archive.{ArchiveConfig, resolve}
use cdn.Archive.Location.{NoSlash, resolve_injective}
use cdn.Tiering.Served.{archived_at}
use cdn.Tiering.Served.Steps.{texts_differ}

module _ {W : Type 0} (v : View W) (a : ArchiveConfig) where
  -- The two tiers' copies at one location are the same in both states.
  pub record Untouched (b k : Text) (w w' : W) : Type 0 where
    pub local : v.local w' b k ≡ v.local w b k
    pub archived : archived_at v a w' b k ≡ archived_at v a w b k

  abbrev pub touching : Text → Text → Preorder W
  touching b k = record {
    related = Untouched b k;
    idle = λ w. record { local = refl; archived = refl };
    both = λ q r. record { local = r.local ∙ q.local; archived = r.archived ∙ q.archived };
  }

-- Locations in two buckets have their archived copies at two locations.
pub located_apart :
    (a : ArchiveConfig) (b k bucket l : Text)
    → NoSlash b
    → NoSlash bucket
    → b ≢ bucket
    → ((resolve a b k).0 ≢ (resolve a bucket l).0) ⊎ ((resolve a b k).1 ≢ (resolve a bucket l).1)
located_apart a b k bucket l hb hc apart =
    elim (texts_differ (resolve a b k).0 (resolve a b k).1 (resolve a bucket l).0
      (resolve a bucket l).1) [
        | inl d ↦ d
        | inr (p, q) ↦ absurd (apart (resolve_injective a b bucket k l hb hc (cc (p, q))).0)
      ]
