-- ===== src/Restore/Runs.antt =====
-- What a restore counts, and what its dry run does.
use cdn.Text.{Text}
use cdn.Common.{
  ℕ, ◌+◌, ◌≤◌, ◌<◌, ◌≡◌, refl, ◌∙◌, inl, inr, Bool, true, false, ◌&&◌, Option, none, some, List,
  ◌∷◌, arith, ltb, leb, Bool-cases, [], ap,
}
use cdn.Restore.{
  Stats, handle, visit, feed, count_dry, count_applied, count_failed, count_restored, count_skipped,
}
use cdn.Storage.{Error, ObjectStore, Archive, M}

module _ {W : Type 0} (store : ObjectStore W) (a : Archive W) (bucket : Text)
    (ctx_err : M W (Option Error)) (apply : Bool) (limit : ℕ) (R : Stats × W → Stats × W → Type 0)
    (R_refl : (p : Stats × W) → R p p) (R_trans : (x y z : Stats × W) → R x y → R y z → R x z)
    (ctx : (s : Stats) (w : W) → R (s, w) (s, (ctx_err w).1))
    (good : (key : Text) (size : ℕ) (s : Stats) (w : W)
      → (ltb 0 limit && leb limit s.scanned) ≡ false
      → R
          (s, w)
          (handle store a bucket apply key size (record s { scanned = s.scanned + 1 }) w)) where
  -- The counters and the state that a walk ends with.
  abbrev counted : (Stats × Option Error) × W → Stats × W
  counted ((s, e), w) = (s, w)

  visit_relates :
      (e : Option Error) (key : Text) (size : ℕ) (s : Stats)
      (rest : Stats → M W (Stats × Option Error)) (w : W)
      → ((s' : Stats) (u : W) → R (s', u) (counted (rest s' u)))
      → R (s, w) (counted (visit store a bucket ctx_err apply limit e key size s rest w))
  unfolding visit
  visit_relates (some e) key size s rest w h = R_refl (s, w)
  visit_relates none key size s rest w h = elim (Bool-cases (ltb 0 limit && leb limit s.scanned)) [
    | inl y ↦ rw y (R_refl (s, w))
    | inr n ↦ rw n (R_trans _ _ _ (good key size s w n) (h _ _))
  ]

  pub feed_relates :
      (items : List (Text × ℕ)) (end : Option Error) (s : Stats) (w : W)
      → R (s, w) (counted (feed store a bucket ctx_err apply limit items end s w))
  unfolding feed
  feed_relates [] end s w = R_refl (s, w)
  feed_relates ((key, size) ∷ items) end s w =
      R_trans _ _ _ (ctx s w) (
        visit_relates (ctx_err w).0 key size s _ (ctx_err w).1
          (λ s' u. feed_relates items end s' u))

-- The objects that the run has reported on.
abbrev pub reported : Stats → ℕ
reported s = s.restored + s.skipped + s.failed

module _ {W : Type 0} (store : ObjectStore W) (a : Archive W) (bucket : Text) where
  handle_reports :
      (apply : Bool) (key : Text) (size : ℕ) (s : Stats) (w : W)
      → let s' = (handle store a bucket apply key size s w).0 in
        (reported s' ≡ reported s + 1) × (s'.scanned ≡ s.scanned)
  unfolding handle count_dry count_applied count_failed count_restored count_skipped
  handle_reports false key size s w = ground arith
  handle_reports true key size s w = ground arith

  -- A restore reports every object that it scans exactly once, as restored, skipped or failed, and
  -- with a limit it scans no more objects than the limit, wherever it is interrupted and whatever
  -- the stores answer.
  pub feed_balance :
      (ctx_err : M W (Option Error)) (apply : Bool) (limit : ℕ) (items : List (Text × ℕ))
      (end : Option Error) (s : Stats) (w : W)
      → let s' = (feed store a bucket ctx_err apply limit items end s w).0.0 in
        (reported s' + s.scanned ≡ reported s + s'.scanned)
        × (0 < limit → s.scanned ≤ limit → s'.scanned ≤ limit)
  feed_balance ctx_err apply limit items end s w =
      feed_relates store a bucket ctx_err apply limit
        (λ x y.
          (reported y.0 + x.0.scanned ≡ reported x.0 + y.0.scanned)
          × (0 < limit → x.0.scanned ≤ limit → y.0.scanned ≤ limit))
        (λ x. (refl, λ _ h. h)) (λ x y z p q. (omega (arith, p.0, q.0), λ l h. q.1 l (p.1 l h)))
        (λ _ _. (refl, λ _ h. h))
        (λ key size x u below.
          ground (arith, handle_reports apply key size (record x { scanned = x.scanned + 1 }) u))
        items end s w

  module _ (ctx_err : M W (Option Error)) (limit : ℕ) where
    handle_same :
        (key : Text) (size : ℕ) (s t : Stats) (w : W)
        → (handle store a bucket false key size s w).1 ≡ (handle store a bucket true key size t w).1
    unfolding handle
    handle_same key size s t w = refl

    handle_scanned :
        (key : Text) (size : ℕ) (s t : Stats) (w : W)
        → s.scanned ≡ t.scanned
        → (handle store a bucket false key size s w).0.scanned
          ≡ (handle store a bucket true key size t w).0.scanned
    handle_scanned key size s t w h =
        omega (arith, (handle_reports false key size s w).1, (handle_reports true key size t w).1)

    visit_same :
        (e : Option Error) (key : Text) (size : ℕ) (s t : Stats)
        (rest rest' : Stats → M W (Stats × Option Error)) (w : W)
        → s.scanned ≡ t.scanned
        → ((s' t' : Stats) (u : W) → s'.scanned ≡ t'.scanned → (rest s' u).1 ≡ (rest' t' u).1)
        → (visit store a bucket ctx_err false limit e key size s rest w).1
          ≡ (visit store a bucket ctx_err true limit e key size t rest' w).1
    unfolding visit
    visit_same (some e) key size s t rest rest' w h go = refl
    visit_same none key size s t rest rest' w h go =
        let s1 : Stats = record s { scanned = s.scanned + 1 } in
        let t1 : Stats = record t { scanned = t.scanned + 1 } in
        elim (Bool-cases (ltb 0 limit && leb limit s.scanned)) [
          | inl y ↦ let y' : (ltb 0 limit && leb limit t.scanned) ≡ true = rw h at y in rw (y, y')
          | inr n ↦
              let n' : (ltb 0 limit && leb limit t.scanned) ≡ false = rw h at n in
              rw (n, n')
                (go _ _ _ (handle_scanned key size s1 t1 w (omega (arith, h)))
                  ∙ ap (λ u. (rest' (handle store a bucket true key size t1 w).0 u).1)
                      (handle_same key size s1 t1 w))
        ]

    -- A dry run does to the stores what a run that applies does: over the same listing both leave
    -- the same state.
    pub feed_dry_writes :
        (items : List (Text × ℕ)) (end : Option Error) (s t : Stats) (w : W)
        → s.scanned ≡ t.scanned
        → (feed store a bucket ctx_err false limit items end s w).1
          ≡ (feed store a bucket ctx_err true limit items end t w).1
    unfolding feed
    feed_dry_writes [] end s t w h = refl
    feed_dry_writes ((key, size) ∷ items) end s t w h =
        visit_same (ctx_err w).0 key size s t _ _ (ctx_err w).1 h
          (λ s' t' u e. feed_dry_writes items end s' t' u e)
