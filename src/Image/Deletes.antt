-- ===== src/Image/Deletes.antt =====
-- What a delete request can reach.
use cdn.Common.{
  ◌≡◌, refl, sym, ap, ◌∙◌, ◌≢◌, ◌⊎◌, inl, inr, Bool, true, false, not, ◌||◌, Option, none, some,
  List, ◌∷◌, [], ℕ, ◌&&◌, ltb, length, arith,
}
use cdn.Access.{Principal, resolve_bucket}
use cdn.Image.{
  AwsDeletes, is_found, after_remove, remove, remove_checked, delete_in, delete_image, after_file,
  delete_file, delete_files, batch_delete, files_checked, batch_in, batch_unless_forbidden,
}
use cdn.Storage.{Error, ObjectStore}
use cdn.Storage.Actions.{if-ends}
use cdn.Storage.Documented.{View, Same, StoreLaws}
use cdn.Text.{Text, ◌=?◌}
use cdn.ObjectKey.{has_unsafe_object_key}

-- What the deletes rely on in AwsService: neither method writes to the local store, and each keeps
-- to its own bucket.
pub record DeleteLaws {W : Type 0} (v : View W) (aws : AwsDeletes W) : Type 0 where
  pub bucket_exists_reads : (bucket : Text) (w : W) → Same v (aws.bucket_exists bucket w).1 w
  pub delete_local :
      (bucket : Text) (keys : List Text) (b k : Text) (w : W)
      → v.local (aws.delete_objects bucket keys w).1 b k ≡ v.local w b k
  pub delete_other :
      (bucket : Text) (keys : List Text) (b k : Text) (w : W)
      → b ≢ bucket
      → v.archived (aws.delete_objects bucket keys w).1 b k ≡ v.archived w b k

module _ {W : Type 0} (v : View W) (s : ObjectStore W) (aws : AwsDeletes W)
    (local_laws : StoreLaws v s) (laws : DeleteLaws v aws) where
  -- Nothing changed but in the bucket, and there, with `Keeps`, not at every key.
  record Confined (bucket : Text) (Keeps : Text → Type 0) (w w' : W) : Type 0 where
    local : (b k : Text) → (b ≢ bucket) ⊎ Keeps k → v.local w' b k ≡ v.local w b k
    archived : (b k : Text) → b ≢ bucket → v.archived w' b k ≡ v.archived w b k

  module _ (bucket : Text) (Keeps : Text → Type 0) where
    Confined-refl : (w : W) → Confined bucket Keeps w w
    Confined-refl w = record { local = λ b k h. refl; archived = λ b k h. refl }

    Confined-trans :
        {x y z : W}
        → Confined bucket Keeps x y
        → Confined bucket Keeps y z
        → Confined bucket Keeps x z
    Confined-trans p q = record {
      local = λ b k h. q.local b k h ∙ p.local b k h;
      archived = λ b k h. q.archived b k h ∙ p.archived b k h;
    }

    Confined-Same : {w w' : W} → Same v w' w → Confined bucket Keeps w w'
    Confined-Same h = record { local = λ b k _. h.local b k; archived = λ b k _. h.archived b k }

    delete-Confined :
        (keys : List Text) (w : W) → Confined bucket Keeps w (aws.delete_objects bucket keys w).1
    delete-Confined keys w = record {
      local = λ b k _. laws.delete_local bucket keys b k w;
      archived = λ b k h. laws.delete_other bucket keys b k w h;
    }

    remove_local-Confined :
        (object : Text) (w : W)
        → ((k : Text) → Keeps k → k ≢ object)
        → Confined bucket Keeps w (s.remove_object bucket object w).1
    remove_local-Confined object w other = record {
      local = λ b k h.
          local_laws.remove_object_other bucket object b k w
            (elim h [ inl d ↦ inl d | inr kept ↦ inr (other k kept) ]);
      archived = λ b k _. local_laws.remove_object_archived bucket object b k w;
    }

    after_file-Confined :
        (d : Bool) (f : Text) (e : Option Error) (w : W)
        → Confined bucket Keeps w (after_file s aws bucket d f e w).1
    unfolding after_file
    after_file-Confined d f (some e) w = Confined-refl w
    after_file-Confined false f none w = Confined-refl w
    after_file-Confined true f none w = delete-Confined (f ∷ []) w

    delete_files-Confined :
        (d : Bool) (fs : List Text) (w : W)
        → ((f : Text) → Keeps f → ⊥)
        → Confined bucket Keeps w (delete_files s aws bucket d fs w).1
    unfolding delete_files delete_file
    delete_files-Confined d [] w none_kept = Confined-refl w
    delete_files-Confined d (f ∷ fs) w none_kept =
        Confined-trans (remove_local-Confined f w (λ k h. absurd (none_kept k h)))
          (Confined-trans (after_file-Confined d f _ _) (delete_files-Confined d fs _ none_kept))

  module _ (bucket object : Text) where
    abbrev Others : Text → Type 0
    Others k = k ≢ object

    after_remove-Confined :
        (d : Bool) (e : Option Error) (w : W)
        → Confined bucket Others w (after_remove s aws bucket d object e w).1
    unfolding after_remove
    after_remove-Confined d (some e) w = Confined-refl bucket Others w
    after_remove-Confined false none w = Confined-refl bucket Others w
    after_remove-Confined true none w = delete-Confined bucket Others (object ∷ []) w

    remove-Confined :
        (d : Bool) (w : W) → Confined bucket Others w (remove s aws bucket d object w).1
    unfolding remove
    remove-Confined d w =
        Confined-trans bucket Others (remove_local-Confined bucket Others object w (λ k h. h))
          (after_remove-Confined d _ _)

    remove_checked-Confined :
        (d : Bool) (w : W) → Confined bucket Others w (remove_checked s aws bucket d object w).1
    unfolding remove_checked
    remove_checked-Confined false w = remove-Confined false w
    remove_checked-Confined true w =
        let (exists, w') = aws.bucket_exists bucket w in
        Confined-trans bucket Others
          (Confined-Same bucket Others (laws.bucket_exists_reads bucket w))
          (if-ends (Confined bucket Others w') (not exists) _ _ w'
            (λ _. Confined-refl bucket Others w') (λ _. remove-Confined true w'))

    delete_in-Confined :
        (d : Bool) (w : W) → Confined bucket Others w (delete_in s aws bucket d object w).1
    unfolding delete_in
    delete_in-Confined d w =
        if-ends (Confined bucket Others w) ((bucket =? []) || (object =? [])) _ _ w
          (λ _. Confined-refl bucket Others w)
          λ _.
            if-ends (Confined bucket Others w) (has_unsafe_object_key object) _ _ w
              (λ _. Confined-refl bucket Others w)
              λ _.
                let (found, w') = s.bucket_exists bucket w in
                Confined-trans bucket Others
                  (Confined-Same bucket Others (local_laws.bucket_exists_reads bucket w))
                  (if-ends (Confined bucket Others w') (not (is_found found)) _ _ w'
                    (λ _. Confined-refl bucket Others w') (λ _. remove_checked-Confined d w'))

  delete_image-Confined :
      (p : Principal) (raw object : Text) (d : Bool) (w : W)
      → (o : Option Text) → resolve_bucket p raw ≡ o
      → (bucket : Text) → (o ≡ none) ⊎ (o ≡ some bucket)
      → Confined bucket (λ k. k ≢ object) w (delete_image s aws p raw d object w).1
  unfolding delete_image
  delete_image-Confined p raw object d w o e bucket known = elim known [
    | inl n ↦ rw (e, n) (Confined-refl bucket _ w)
    | inr h ↦ rw (e, h) (delete_in-Confined bucket object d w)
  ]

  -- The bucket that a request is given, or any other where it is given none.
  given_of :
      (o : Option Text) (b : Text)
      → o ≢ some b
      → (bucket : Text) × (b ≢ bucket) × ((o ≡ none) ⊎ (o ≡ some bucket))
  given_of none b h = (0 ∷ b, cons_differs b, inl refl)
    where
      cons_differs : (s : Text) → s ≢ 0 ∷ s
      cons_differs s e = absurd (omega (arith, ap length e))
  given_of (some c) b h = (c, (λ e. h (ap some (sym e))), inr refl)

  -- DeleteImage changes nothing, in the local store or in S3, outside the bucket that the principal
  -- is given: a request that is given no bucket changes nothing.
  pub delete_image_confined :
      (p : Principal) (raw object : Text) (aws_delete : Bool) (w : W) (b k : Text)
      → resolve_bucket p raw ≢ some b
      → let w' = (delete_image s aws p raw aws_delete object w).1 in
        (v.local w' b k ≡ v.local w b k) × (v.archived w' b k ≡ v.archived w b k)
  delete_image_confined p raw object aws_delete w b k h =
      let (bucket, other, known) = given_of (resolve_bucket p raw) b h in
      let confined = delete_image-Confined p raw object aws_delete w _ refl bucket known in
      (confined.local b k (inl other), confined.archived b k other)

  abbrev Nothing : Text → Type 0
  Nothing k = ⊥

  files_checked-Confined :
      (bucket : Text) (d : Bool) (fs : List Text) (w : W)
      → Confined bucket Nothing w (files_checked s aws bucket d fs w).1
  unfolding files_checked
  files_checked-Confined bucket false fs w =
      delete_files-Confined bucket Nothing false fs w (λ f h. h)
  files_checked-Confined bucket true fs w =
      let (exists, w') = aws.bucket_exists bucket w in
      Confined-trans bucket Nothing
        (Confined-Same bucket Nothing (laws.bucket_exists_reads bucket w))
        (if-ends (Confined bucket Nothing w') (not exists) _ _ w'
          (λ _. Confined-refl bucket Nothing w')
          (λ _. delete_files-Confined bucket Nothing true fs w' (λ f h. h)))

  batch_in-Confined :
      (max_batch : ℕ) (bucket : Text) (d : Bool) (fs : List Text) (w : W)
      → Confined bucket Nothing w (batch_in s aws max_batch bucket d fs w).1
  unfolding batch_in
  batch_in-Confined max_batch bucket d fs w =
      let still = Confined-refl bucket Nothing in
      if-ends (Confined bucket Nothing w) (bucket =? []) _ _ w (λ _. still w)
        λ _.
          if-ends (Confined bucket Nothing w) (ltb 0 max_batch && ltb max_batch (length fs)) _ _ w
            (λ _. still w)
            λ _.
              let (found, w') = s.bucket_exists bucket w in
              Confined-trans bucket Nothing
                (Confined-Same bucket Nothing (local_laws.bucket_exists_reads bucket w))
                (if-ends (Confined bucket Nothing w') (not (is_found found)) _ _ w' (λ _. still w')
                  (λ _. files_checked-Confined bucket d fs w'))

  -- BatchDelete changes nothing, in the local store or in S3, outside the bucket that the principal
  -- is given: a request that is given no bucket changes nothing.
  pub batch_delete_confined :
      (max_batch : ℕ) (p : Principal) (raw : Text) (aws_delete : Bool) (files : List Text) (w : W)
      (b k : Text)
      → resolve_bucket p raw ≢ some b
      → let w' = (batch_delete s aws max_batch p raw aws_delete files w).1 in
        (v.local w' b k ≡ v.local w b k) × (v.archived w' b k ≡ v.archived w b k)
  unfolding batch_delete
  batch_delete_confined max_batch p raw aws_delete files w b k h = go (resolve_bucket p raw) refl
    where
      go :
          (o : Option Text)
          → resolve_bucket p raw ≡ o
          → let w' =
              (batch_unless_forbidden s aws o
                (λ c. batch_in s aws max_batch c aws_delete files)
                w).1 in
            (v.local w' b k ≡ v.local w b k) × (v.archived w' b k ≡ v.archived w b k)
      go none e = (refl, refl)
      go (some c) e =
          let confined = batch_in-Confined max_batch c aws_delete files w in
          let other : b ≢ c = λ same. h (e ∙ ap some (sym same)) in
          (confined.local b k (inl other), confined.archived b k other)
