-- ===== src/Tiering/Served/Uploads.antt =====
-- An upload to the archive, of what a reader of the local store delivers.
use cdn.Archive.Location.{NoSlash, resolve_injective}
use cdn.Common.{
  ap, take, length, take_whole, length-take_le, ℕ, ◌≡◌, ◌≢◌, refl, sym, ◌∙◌, ◌⊎◌, inl, inr, arith,
  some,
}
use cdn.Text.{Text}
use cdn.Storage.{Bytes, AwsService, Reader, ObjectStore}
use cdn.Storage.Documented.{Transfers, View, S3Laws}
use cdn.Archive.{ArchiveConfig, resolve, put}
use cdn.Tiering.Served.{Faithful, Preserves, served, archived_at}
use cdn.Tiering.Served.Steps.{texts_differ, put_world, put-local, put-archived_other}

-- A beginning of a beginning of the content that is as long as the content is the content.
taken_whole :
    (m n : ℕ) (content : Bytes)
    → length (take m (take n content)) ≡ length content
    → take m (take n content) ≡ content
taken_whole m n content e =
    let inner : take n content ≡ content =
      take_whole n content
        (omega (arith, length-take_le m (take n content), length-take_le n content)) in
    take_whole m (take n content) (rw inner (rw inner at e)) ∙ inner

module _ {W : Type 0} (v : View W) (s : ObjectStore W) (aws : AwsService W) (a : ArchiveConfig)
    (laws : S3Laws v aws) (transfers : Transfers v s aws) where
  -- The archive has what it had for the object, or a beginning of the body.
  put-archived_self :
      (b k : Text) (body : Reader) (w : W)
      → (archived_at v a (put aws a b k body w).1 b k ≡ archived_at v a w b k)
        ⊎ ((n : ℕ) × (archived_at v a (put aws a b k body w).1 b k ≡ some (take n body.bytes)))
  put-archived_self b k body w = elim (put_world v aws a laws b k body w) [
    | inl e ↦ inl (rw e refl)
    | inr e ↦ rw e (transfers.put_self (resolve a b k).0 (resolve a b k).1 body w)
  ]

  -- An upload of what is local of an object leaves what is served of every object, however much of it
  -- is really stored.
  pub put-Preserves :
      (b k : Text) (body : Reader) (w : W) (content : Bytes) (n : ℕ)
      → NoSlash b
      → v.local w b k ≡ some content
      → body.bytes ≡ take n content
      → Preserves v a w (put aws a b k body w).1
  put-Preserves b k body w content n hb present beginning = record {
    kept = λ f. record { faithful = record { at = faithful f }; at = at };
  }
    where
      whose :
          (c l : Text)
          → NoSlash c
          → (((resolve a c l).0 ≢ (resolve a b k).0) ⊎ ((resolve a c l).1 ≢ (resolve a b k).1))
            ⊎ ((c ≡ b) × (l ≡ k))
      whose c l hc =
          elim (texts_differ (resolve a c l).0 (resolve a c l).1 (resolve a b k).0
            (resolve a b k).1) [
              | inl d ↦ inl d
              | inr (p, q) ↦ inr (resolve_injective a c b l k hc hb (λ i. (p i, q i)))
            ]

      at : (c l : Text) → NoSlash c → served v a (put aws a b k body w).1 c l ≡ served v a w c l
      at c l hc = elim (whose c l hc) [
        | inr (p, q) ↦ rw (p, q, put-local v aws a laws b k body w b k, present)
        | inl d ↦ cc (
          put-local v aws a laws b k body w c l,
          put-archived_other v aws a laws b k body w c l d,
        )
      ]

      self :
          Faithful v a w
          → (x y : Bytes) → v.local w b k ≡ some x
          → archived_at v a (put aws a b k body w).1 b k ≡ some y
          → length x ≡ length y
          → x ≡ y
      self f x y here there e = elim (put-archived_self b k body w) [
        | inl same ↦ f.at b k x y hb here (sym same ∙ there) e
        | inr (m, stored) ↦
            let own : x ≡ content = cc (here, present) in
            let part : y ≡ take m (take n content) = cc (there, stored, beginning) in
            let long : length (take m (take n content)) ≡ length content =
              ap length (sym part) ∙ sym e ∙ ap length own in
            own ∙ sym (taken_whole m n content long) ∙ sym part
      ]

      faithful :
          Faithful v a w
          → (c l : Text) (x y : Bytes) → NoSlash c
          → v.local (put aws a b k body w).1 c l ≡ some x
          → archived_at v a (put aws a b k body w).1 c l ≡ some y
          → length x ≡ length y
          → x ≡ y
      faithful f c l x y hc here there e = elim (whose c l hc) [
        | inr (p, q) ↦
            self f x y (sym (put-local v aws a laws b k body w b k) ∙ (rw (p, q) at here))
              (rw (p, q) at there) e
        | inl d ↦
            f.at c l x y hc (sym (put-local v aws a laws b k body w c l) ∙ here)
              (sym (put-archived_other v aws a laws b k body w c l d) ∙ there) e
      ]
