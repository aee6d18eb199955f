-- ===== src/Image/Removals.antt =====
-- What DeleteImage without aws_delete leaves where it reports success.
use cdn.Common.{◌≡◌, refl, sym, ◌∙◌, false, not, ◌||◌, Option, none, some, []}
use mathlib.Core.Path.{subst}
use cdn.Access.{Principal, resolve_bucket}
use cdn.Image.{
  AwsDeletes, Reply, deleted, is_found, after_remove, remove, remove_checked, delete_in,
  unless_forbidden, delete_image,
}
use cdn.Storage.{Error, ObjectStore}
use cdn.Storage.Actions.{if-returns}
use cdn.Storage.Documented.{View, Same, StoreLaws}
use cdn.Text.{Text, ◌=?◌}
use cdn.ObjectKey.{has_unsafe_object_key}

module _ {W : Type 0} (v : View W) (s : ObjectStore W) (aws : AwsDeletes W)
    (local_laws : StoreLaws v s) (b k : Text) where
  pub record Gone (w w' : W) : Type 0 where
    pub local : v.local w' b k ≡ none
    pub archived : (c l : Text) → v.archived w' c l ≡ v.archived w c l

  -- A reply that reports success says that the local copy is gone.
  abbrev Reports : W → Reply × W → Type 0
  Reports w (r, w') = r ≡ deleted → Gone w w'

  after_remove-Reports :
      (e : Option Error) (w w' : W)
      → (e ≡ none → Gone w w')
      → Reports w (after_remove s aws b false k e w')
  unfolding after_remove
  after_remove-Reports (some e) w w' gone = λ h. absurd (cc h)
  after_remove-Reports none w w' gone = λ h. gone refl

  remove-Reports : (w : W) → Reports w (remove s aws b false k w)
  unfolding remove
  remove-Reports w =
      let (e, w') = s.remove_object b k w in
      after_remove-Reports e w w' (λ h. record {
        local = local_laws.remove_object_done b k w h;
        archived = λ c l. local_laws.remove_object_archived b k c l w;
      })

  Reports-Same : {w w' : W} (r : Reply × W) → Same v w' w → Reports w' r → Reports w r
  Reports-Same r same h =
      λ e. record { local = (h e).local; archived = λ c l. (h e).archived c l ∙ same.archived c l }

  delete_in-Reports : (w : W) → Reports w (delete_in s aws b false k w)
  unfolding delete_in remove_checked
  delete_in-Reports w =
      if-returns (Reports w) ((b =? []) || (k =? [])) _ _ w (λ _ h. absurd (cc h))
        λ _.
          if-returns (Reports w) (has_unsafe_object_key k) _ _ w (λ _ h. absurd (cc h))
            λ _.
              let (found, w') = s.bucket_exists b w in
              if-returns (Reports w) (not (is_found found)) _ _ w' (λ _ h. absurd (cc h))
                (λ _. Reports-Same _ (local_laws.bucket_exists_reads b w) (remove-Reports w'))

  pub delete_image-Gone :
      (p : Principal) (raw : Text) (w : W)
      → resolve_bucket p raw ≡ some b
      → (delete_image s aws p raw false k w).0 ≡ deleted
      → Gone w (delete_image s aws p raw false k w).1
  unfolding delete_image
  delete_image-Gone p raw w same =
      subst (λ o. Reports w (unless_forbidden s aws o (λ c. delete_in s aws c false k) w))
        (sym same) (delete_in-Reports w)
