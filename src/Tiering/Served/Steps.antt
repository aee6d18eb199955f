-- ===== src/Tiering/Served/Steps.antt =====
-- The calls that make up a move, one by one.
use cdn.Archive.Location.{NoSlash}
use cdn.Common.{
  length, ℕ, ◌≡◌, ◌≢◌, refl, sym, ◌∙◌, ◌⊎◌, inl, inr, true, arith, Bool-cases, Option-cases, some,
}
use cdn.Text.{Text, ◌=?◌}
use cdn.Text.Laws.{eq_of_=?, =?_iff}
use cdn.Storage.{Bytes, ok, AwsService, Result, Reader, err, ObjectStore}
use cdn.Storage.Documented.{View, Same, S3Laws, StoreLaws}
use cdn.Archive.{ArchiveConfig, resolve, archive, stat, put}
use cdn.Tiering.{verify_archived, judge}
use cdn.Tiering.Served.{
  Faithful, Preserves, HoldsArchived, HasSize, served, archived_at, first_copy,
}

-- Two pairs of texts differ in a part, or are equal.
pub texts_differ : (b k c l : Text) → ((b ≢ c) ⊎ (k ≢ l)) ⊎ ((b ≡ c) × (k ≡ l))
texts_differ b k c l = elim (Bool-cases (b =? c)) [
  | inr e ↦ inl (inl (λ p. cc (e, (=?_iff b c).1 p)))
  | inl e ↦ elim (Bool-cases (k =? l)) [
    | inr f ↦ inl (inr (λ p. cc (f, (=?_iff k l).1 p)))
    | inl f ↦ inr (eq_of_=? b c e, eq_of_=? k l f)
  ]
]

module _ {W : Type 0} (v : View W) (a : ArchiveConfig) where
  pub Same-trans : {x y z : W} → Same v x y → Same v y z → Same v x z
  Same-trans p q = record {
    local = λ b k. p.local b k ∙ q.local b k;
    archived = λ b k. p.archived b k ∙ q.archived b k;
  }

  pub Preserves-trans : {x y z : W} → Preserves v a x y → Preserves v a y z → Preserves v a x z
  Preserves-trans p q = record {
    kept = λ f.
        let first = p.kept f in
        let second = q.kept first.faithful in
        record { faithful = second.faithful; at = λ b k h. second.at b k h ∙ first.at b k h };
  }

  Faithful-Same : {w w' : W} → Same v w' w → Faithful v a w → Faithful v a w'
  Faithful-Same s f = record {
    at = λ b k c d hb x y e.
        f.at b k c d hb (sym (s.local b k) ∙ x)
          (sym (s.archived (resolve a b k).0 (resolve a b k).1) ∙ y) e;
  }

  pub Preserves-Same : {w w' : W} → Same v w' w → Preserves v a w w'
  Preserves-Same s = record {
    kept = λ f. record {
      faithful = Faithful-Same s f;
      at = λ b k h. cc (s.local b k, s.archived (resolve a b k).0 (resolve a b k).1);
    };
  }

  pub Preserves-refl : (w : W) → Preserves v a w w
  Preserves-refl w = Preserves-Same (record { local = λ _ _. refl; archived = λ _ _. refl })

  pub HasSize-Same :
      {w w' : W} (b k : Text) (n : ℕ) → Same v w' w → HasSize v a w b k n → HasSize v a w' b k n
  HasSize-Same b k n s h = λ c e. h c (sym (s.local b k) ∙ e)

  pub HoldsArchived-Same :
      {w w' : W} (b k : Text) (n : ℕ)
      → Same v w' w
      → HoldsArchived v a w b k n
      → HoldsArchived v a w' b k n
  HoldsArchived-Same b k n s (c, e, fits) =
      (c, s.archived (resolve a b k).0 (resolve a b k).1 ∙ e, fits)

judge_verified : (n : ℕ) (answer : Result ℕ) → (judge n answer).verified ≡ true → answer ≡ ok n
unfolding judge
judge_verified n (ok m) h = ground arith
judge_verified n (err e) h = ground arith

module _ {W : Type 0} (v : View W) (aws : AwsService W) (a : ArchiveConfig)
    (laws : S3Laws v aws) where
  pub stat-Same : (b k : Text) (w : W) → Same v (stat aws a b k w).1 w
  unfolding stat
  stat-Same b k w = elim (Bool-cases a.enabled) [
    | inl on ↦ simp on (laws.head_reads (resolve a b k).0 (resolve a b k).1 w)
    | inr off ↦ simp off (record { local = λ _ _. refl; archived = λ _ _. refl })
  ]

  stat_held : (b k : Text) (w : W) (n : ℕ) → (stat aws a b k w).0 ≡ ok n → HoldsArchived v a w b k n
  unfolding stat
  stat_held b k w n h = laws.head_held (resolve a b k).0 (resolve a b k).1 w n (ground arith)

  pub verify_archived-Same :
      (b k : Text) (n : ℕ) (w : W) → Same v (verify_archived (archive aws a) b k n w).1 w
  unfolding verify_archived
  verify_archived-Same b k n w = stat-Same b k w

  -- A verdict that lets a delete pass says that the archive holds the object at its size.
  pub verified_held :
      (b k : Text) (n : ℕ) (w : W)
      → (verify_archived (archive aws a) b k n w).0.verified ≡ true
      → HoldsArchived v a w b k n
  unfolding verify_archived
  verified_held b k n w h = stat_held b k w n (judge_verified n (stat aws a b k w).0 h)

  pub put_world :
      (b k : Text) (body : Reader) (w : W)
      → ((put aws a b k body w).1 ≡ w)
        ⊎ ((put aws a b k body w).1
            ≡ (aws.s3_put_object (resolve a b k).0 (resolve a b k).1 body w).1)
  unfolding put
  put_world b k body w = ground arith

  pub put-local :
      (b k : Text) (body : Reader) (w : W) (c l : Text)
      → v.local (put aws a b k body w).1 c l ≡ v.local w c l
  put-local b k body w c l = elim (put_world b k body w) [
    | inl e ↦ rw e
    | inr e ↦ rw e (laws.put_local (resolve a b k).0 (resolve a b k).1 c l body w)
  ]

  pub put-archived_other :
      (b k : Text) (body : Reader) (w : W) (c l : Text)
      → ((resolve a c l).0 ≢ (resolve a b k).0) ⊎ ((resolve a c l).1 ≢ (resolve a b k).1)
      → archived_at v a (put aws a b k body w).1 c l ≡ archived_at v a w c l
  put-archived_other b k body w c l h = elim (put_world b k body w) [
    | inl e ↦ rw e
    | inr e ↦ rw e (
        laws.put_other (resolve a b k).0 (resolve a b k).1 (resolve a c l).0 (resolve a c l).1 body
          w h)
  ]

module _ {W : Type 0} (v : View W) (s : ObjectStore W) (a : ArchiveConfig)
    (laws : StoreLaws v s) where
  -- A delete changes what is served of no object, if the archive holds the object at its size.
  pub remove-Preserves :
      (b k : Text) (n : ℕ) (w : W)
      → HasSize v a w b k n
      → HoldsArchived v a w b k n
      → Preserves v a w (s.remove_object b k w).1
  remove-Preserves b k n w size (d, held, fits) = record {
    kept = λ f. record { faithful = record { at = faithful f }; at = at f };
  }
    where
      cold : (c l : Text) → archived_at v a (s.remove_object b k w).1 c l ≡ archived_at v a w c l
      cold c l = laws.remove_object_archived b k (resolve a c l).0 (resolve a c l).1 w

      -- What is still local was local before.
      left :
          (c l : Text) (x : Bytes)
          → v.local (s.remove_object b k w).1 c l ≡ some x
          → v.local w c l ≡ some x
      left c l x e = elim (texts_differ c l b k) [
        | inl d ↦ sym (laws.remove_object_other b k c l w d) ∙ e
        | inr (p, q) ↦ elim (laws.remove_object_self b k w) [
          | inl kept ↦ rw (p, q) (sym kept ∙ (rw (p, q) at e))
          | inr gone ↦ absurd (cc (gone, rw (p, q) at e))
        ]
      ]

      faithful :
          Faithful v a w
          → (c l : Text) (x y : Bytes) → NoSlash c
          → v.local (s.remove_object b k w).1 c l ≡ some x
          → archived_at v a (s.remove_object b k w).1 c l ≡ some y
          → length x ≡ length y
          → x ≡ y
      faithful f c l x y hc here there e =
          f.at c l x y hc (left c l x here) (sym (cold c l) ∙ there) e

      self :
          Faithful v a w
          → NoSlash b
          → first_copy (v.local (s.remove_object b k w).1 b k) (some d)
            ≡ first_copy (v.local w b k) (some d)
      self f hb = elim (Option-cases (v.local w b k)) [
        | inl gone ↦ ground (arith, laws.remove_object_self b k w)
        | inr (x, e) ↦
            let same : x ≡ d = f.at b k x d hb e held (size x e ∙ sym fits) in
            ground (arith, laws.remove_object_self b k w, e, same)
      ]

      at :
          Faithful v a w
          → (c l : Text) → NoSlash c
          → served v a (s.remove_object b k w).1 c l ≡ served v a w c l
      at f c l hc = rw (cold c l) (elim (texts_differ c l b k) [
        | inl d ↦ rw (laws.remove_object_other b k c l w d)
        | inr (p, q) ↦ rw (p, q, held) (self f (rw p at hc))
      ])
