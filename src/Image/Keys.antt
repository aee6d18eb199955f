-- ===== src/Image/Keys.antt =====
-- The keys that uploads choose, and the content types that are served.
use cdn.ObjectKey.Fixed.{sanitize_object_name-kept}
use cdn.Text.Laws.{=?_iff}
use cdn.Text.Trim.{FirstNot, LastNot, trim_left-kept, trim_right-kept}
use cdn.ObjectKey.Sanitized.{IsClean}
use cdn.ObjectKey.{has_unsafe_object_key, sanitize_object_name}
use cdn.Common.{
  ◌≡◌, inl, inr, true, false, ◌∷◌, ◌++◌, Bool-cases, [], ℕ, refl, Bool, List, arith, ◌==◌, sym, ap,
  ◌∙◌, append_assoc,
}
use mathlib.Core.Path.{subst}
use cdn.Image.{inert_content_type, media_type_of, executable_types, upload_name}
use cdn.Text.{
  cut, trim_left, trim_right, to_lower, lower_rune, is_space, Text, codes, split, member, ◌=?◌,
  trim, trim_space,
}

-- No response declares a type that a browser would execute, whatever type was sniffed.
pub inert_content_type_inert :
    (sniffed : Text) → member (media_type_of (inert_content_type sniffed)) executable_types ≡ false
unfolding inert_content_type
inert_content_type_inert sniffed =
    elim (Bool-cases (member (media_type_of sniffed) executable_types)) [
      | inl y ↦ rw y plain_text
      | inr n ↦ rw n n
    ]
  where
    plain_text : member (media_type_of (codes "text/plain; charset=utf-8")) executable_types ≡ false
    plain_text =
        unfold media_type_of member ◌=?◌ cut trim_space trim_left trim_right to_lower lower_rune
          is_space in
        refl

abbrev parent : Text
parent = codes "/../"

-- A parent segment stands behind the first segment.
split-parent :
    (a b : Text)
    → (p : Text) × (ps : List Text) × (split (a ++ (parent ++ b)) b'/' ≡ p ∷ ps)
      × (member (codes "..") ps ≡ true)
unfolding split member ◌=?◌
split-parent [] b = ([], codes ".." ∷ split b b'/', refl, refl)
split-parent (c ∷ a) b =
    let (p, ps, e, m) = split-parent a b in
    elim (Bool-cases (c == b'/')) [
      | inl y ↦ ([], p ∷ ps, rw (y, e) refl, ground (arith, m))
      | inr n ↦ (c ∷ p, ps, rw (n, e) refl, m)
    ]

-- A key with a parent segment in it is unsafe.
parent_unsafe : (a b : Text) → has_unsafe_object_key (a ++ (parent ++ b)) ≡ true
unfolding has_unsafe_object_key member
parent_unsafe a b =
    let (p, ps, e, m) = split-parent a b in
    elim (Bool-cases (trim_space (a ++ (parent ++ b)) =? [])) [
      | inl y ↦ rw y
      | inr n ↦ rw (n, e) (ground (arith, m))
    ]

-- A text without a slash at either end.
abbrev is_slash : ℕ → Bool
is_slash c = c == b'/'

below : (a p b t u : Text) → (a ++ (p ++ b)) ++ t ++ u ≡ a ++ (p ++ (b ++ t ++ u))
below a p b t u =
    ap (λ s. s ++ u) (append_assoc a (p ++ b) t)
    ∙ append_assoc a (p ++ b ++ t) u
    ∙ ap (λ s. a ++ s) (ap (λ s. s ++ u) (append_assoc p b t) ∙ append_assoc p (b ++ t) u)

-- SanitizeObjectName keeps parent segments: from a path that is clean, begins and ends with no slash
-- and has a parent segment in it, an upload makes a key that HasUnsafeObjectKey refuses, so that the
-- object it stores can be neither read nor deleted.
pub upload_name_unsafe :
    (random extension a b : Text)
    → IsClean (a ++ (parent ++ b))
    → FirstNot is_slash (a ++ (parent ++ b))
    → LastNot is_slash (a ++ (parent ++ b))
    → has_unsafe_object_key (upload_name random extension (a ++ (parent ++ b))) ≡ true
unfolding upload_name trim
upload_name_unsafe random extension a b clean first last =
    let path : Text = a ++ (parent ++ b) in
    let name : Text = random ++ codes "." ++ sanitize_object_name extension in
    elim (Bool-cases (path =? [])) [
      | inl y ↦ absurd (clean.some_left ((=?_iff path []).0 y))
      | inr n ↦
          rw
            (
              n,
              trim_left-kept is_slash path first,
              trim_right-kept is_slash path last,
              sanitize_object_name-kept path clean,
            )
            (subst (λ s. has_unsafe_object_key s ≡ true) (sym (below a parent b (codes "/") name))
              (parent_unsafe a (b ++ codes "/" ++ name)))
    ]
