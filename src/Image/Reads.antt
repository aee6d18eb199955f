-- ===== src/Image/Reads.antt =====
-- What openObject answers from the two tiers.
use cdn.Tiering.Outcomes.{archive_known_object_promise}
use cdn.Tiering.Served.Moves.{tiering}
use cdn.Tiering.Served.Steps.{Same-trans}
use cdn.Access.{Principal, resolve_bucket}
use cdn.Common.{
  ℕ, ◌<◌, ◌≡◌, sym, ◌∙◌, ◌⊎◌, inl, inr, Option, some, ltb, Bool-cases, length, none, arith, refl,
  ap, Bool, true, false,
}
use cdn.Storage.{is_not_found, Result, ok, err, Reader, ObjectInfo, ObjectStore, AwsService, Bytes}
use cdn.Storage.Documented.{View, Same, StoreLaws, S3Laws, Answers}
use cdn.Archive.{open_result, ArchiveConfig, archive, open_archived, resolve}
use cdn.Tiering.Served.{HoldsArchived, archived_at}
use cdn.Tiering.{archived, archive_known_object}
use cdn.Image.{
  local_or, open_cold, opened_or, open_object, archived_copy, AwsDeletes, delete_image, deleted,
}
use cdn.Text.{Text}
use cdn.Image.Removals.{delete_image-Gone}

module _ {W : Type 0} (v : View W) (s : ObjectStore W) (aws : AwsService W) (a : ArchiveConfig)
    (local_laws : StoreLaws v s) (s3_laws : S3Laws v aws) (b k : Text) where
  -- One of the tiers holds the object at this size.
  record InTier (w : W) (n : ℕ) : Type 0 where
    tier : ((c : Bytes) × (v.local w b k ≡ some c) × (length c ≡ n)) ⊎ HoldsArchived v a w b k n

  InTier-Same : {w w' : W} {n : ℕ} → Same v w' w → InTier w' n → InTier w n
  InTier-Same h r = record {
    tier = elim r.tier [
      | inl (c, e, l) ↦ inl (c, sym (h.local b k) ∙ e, l)
      | inr (c, e, l) ↦ inr (c, sym (h.archived (resolve a b k).0 (resolve a b k).1) ∙ e, l)
    ];
  }

  -- An answer with a size comes from a tier.
  abbrev Sound : W → Option (Reader × ℕ) → Type 0
  Sound w o = (body : Reader) (n : ℕ) → o ≡ some (body, n) → 0 < n → InTier w n

  out_of :
      (c l : Text) (out : Result (Reader × Option ℕ)) (body : Reader) (n : ℕ)
      → open_result aws a c l out ≡ ok (body, n)
      → 0 < n
      → out ≡ ok (body, some n)
  unfolding is_not_found
  out_of c l (ok (body', none)) body n h positive = absurd (ground (arith, h))
  out_of c l (ok (body', some m)) body n h positive = cc h
  out_of c l (err e) body n h positive = absurd (ground (arith, h))

  open_held :
      (w : W) (body : Reader) (n : ℕ)
      → (open_archived aws a b k w).0 ≡ ok (body, n)
      → 0 < n
      → HoldsArchived v a w b k n
  unfolding open_archived
  open_held w body n h positive = elim (Bool-cases a.enabled) [
    | inr off ↦ absurd (cc (simp off at h))
    | inl on ↦
        let (c, l) = resolve a b k in
        s3_laws.get_held c l w body n
          (out_of c l (aws.s3_get_object c l w).0 body n (simp on at h) positive)
  ]

  copy_of :
      (found : Result (Reader × ℕ)) (body : Reader) (n : ℕ)
      → archived_copy found ≡ some (body, n)
      → found ≡ ok (body, n)
  copy_of (ok found) body n h = cc h
  copy_of (err e) body n h = absurd (cc h)

  cold-Sound : (w : W) → Sound w (open_cold (some (archive aws a)) b k w).0
  cold-Sound w body n h positive = elim (Bool-cases a.enabled) [
    | inr off ↦ absurd (cc (simp off at h))
    | inl on ↦ record {
      tier = inr (
          open_held w body n (copy_of (open_archived aws a b k w).0 body n (simp on at h))
            positive);
    }
  ]

  local-Sound :
      (body : Reader) (info : Result ObjectInfo) (w : W)
      → (s.stat_object b k w).0 ≡ info
      → Sound w (open_cold (some (archive aws a)) b k (s.stat_object b k w).1).0
      → Sound w
          (local_or body info (open_cold (some (archive aws a)) b k) (s.stat_object b k w).1).0
  local-Sound body (err e) w same cold = cold
  local-Sound body (ok info) w same cold = elim (Bool-cases (ltb 0 info.size)) [
    | inr n ↦ rw n cold
    | inl y ↦ rw y (λ r n h positive.
        let (c, e, l) = local_laws.stat_object_held b k w info same in
        record { tier = inl (c, e, l ∙ cc h) })
  ]

  opened-Sound :
      (opened : Result Reader) (w : W)
      → Sound w (opened_or s b k opened (open_cold (some (archive aws a)) b k) w).0
  opened-Sound (err e) w = cold-Sound w
  opened-Sound (ok body) w = local-Sound body (s.stat_object b k w).0 w refl (λ r n h positive.
      InTier-Same (local_laws.stat_object_reads b k w) (cold-Sound _ r n h positive))

  -- What openObject answers with a size above 0 is held in one of the tiers with this size.
  pub open_object_held :
      (w : W) (body : Reader) (n : ℕ)
      → (open_object s (some (archive aws a)) b k w).0 ≡ some (body, n)
      → 0 < n
      → ((c : Bytes) × (v.local w b k ≡ some c) × (length c ≡ n)) ⊎ HoldsArchived v a w b k n
  unfolding open_object
  open_object_held w body n h positive =
      (InTier-Same (local_laws.open_object_reads b k w)
        (opened-Sound (s.open_object b k w).0 (s.open_object b k w).1 body n h positive)).tier

  -- The download of the object from the archive is answered in a state.
  abbrev pub AnswersFor : W → Type 0
  AnswersFor here = Answers v aws here (resolve a b k).0 (resolve a b k).1

  module _ (on : a.enabled ≡ true) (here : W) (answers : AnswersFor here) where
    -- Without a local copy the object comes from the archive.
    cold_opens :
        (w : W) (c : Bytes)
        → Same v w here
        → archived_at v a w b k ≡ some c
        → (open_cold (some (archive aws a)) b k w).0
          ≡ some (record { bytes = c; fault = none }, length c)
    unfolding open_archived
    cold_opens w c alike held = simp on (
        ap archived_copy
          (ap (open_result aws a (resolve a b k).0 (resolve a b k).1) (answers.get w c alike held)))

    stated_opens :
        (body : Reader) (info : Result ObjectInfo) (w : W) (c : Bytes)
        → Same v w here
        → v.local w b k ≡ none
        → archived_at v a w b k ≡ some c
        → (s.stat_object b k w).0 ≡ info
        → (local_or body info (open_cold (some (archive aws a)) b k) (s.stat_object b k w).1).0
          ≡ some (record { bytes = c; fault = none }, length c)
    stated_opens body (err e) w c alike gone held same =
        let reads = local_laws.stat_object_reads b k w in
        cold_opens _ c (Same-trans v a reads alike) (reads.archived _ _ ∙ held)
    stated_opens body (ok info) w c alike gone held same =
        let (d, there, l) = local_laws.stat_object_held b k w info same in absurd (cc (gone, there))

    opens :
        (opened : Result Reader) (w : W) (c : Bytes)
        → Same v w here
        → v.local w b k ≡ none
        → archived_at v a w b k ≡ some c
        → (opened_or s b k opened (open_cold (some (archive aws a)) b k) w).0
          ≡ some (record { bytes = c; fault = none }, length c)
    opens (err e) w c alike gone held = cold_opens w c alike held
    opens (ok body) w c alike gone held =
        stated_opens body (s.stat_object b k w).0 w c alike gone held refl

    -- An object that is gone locally and held by the archive is opened from there, whole.
    pub open_object_cold :
        (c : Bytes)
        → v.local here b k ≡ none
        → archived_at v a here b k ≡ some c
        → (open_object s (some (archive aws a)) b k here).0
          ≡ some (record { bytes = c; fault = none }, length c)
    unfolding open_object
    open_object_cold c gone held =
        let same = local_laws.open_object_reads b k here in
        opens (s.open_object b k here).0 (s.open_object b k here).1 c same (same.local b k ∙ gone)
          (same.archived _ _ ∙ held)

  -- Once ArchiveKnownObject reports that an object is archived and its local copy removed, a read of
  -- the object behind it gives all the bytes of the size that was given, where the archive is on and
  -- S3 answers the download of this object in the state that was left.
  pub archived_object_opens :
      (n : ℕ) (evict : Bool) (w : W)
      → a.enabled ≡ true
      → AnswersFor (archive_known_object (tiering s aws a) b k n evict w).1
      → let (r, w') = archive_known_object (tiering s aws a) b k n evict w in
        r.outcome ≡ archived
        → (c : Bytes) × (length c ≡ n)
          × ((open_object s (some (archive aws a)) b k w').0
              ≡ some (record { bytes = c; fault = none }, n))
  archived_object_opens n evict w on answers h =
      let ((c, held, l), gone) =
        (archive_known_object_promise v s aws a local_laws s3_laws b k n evict w).0 h in
      (
        c,
        l,
        open_object_cold on _ answers c gone held
            ∙ ap (λ m. some (record { bytes = c; fault = none }, m)) l,
      )

  -- DeleteImage without aws_delete reports success for an object that the archive holds, and the
  -- object is still read afterwards, from the archive, where S3 answers its download then.
  pub deleted_object_opens :
      (deletes : AwsDeletes W) (p : Principal) (raw : Text) (w : W) (c : Bytes)
      → a.enabled ≡ true
      → AnswersFor (delete_image s deletes p raw false k w).1
      → resolve_bucket p raw ≡ some b
      → archived_at v a w b k ≡ some c
      → (delete_image s deletes p raw false k w).0 ≡ deleted
      → let w' = (delete_image s deletes p raw false k w).1 in
        (open_object s (some (archive aws a)) b k w').0
        ≡ some (record { bytes = c; fault = none }, length c)
  deleted_object_opens deletes p raw w c on answers same held h =
      let gone = delete_image-Gone v s deletes local_laws b k p raw w same h in
      open_object_cold on _ answers c gone.local (gone.archived _ _ ∙ held)
