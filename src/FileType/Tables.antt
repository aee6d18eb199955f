-- ===== src/FileType/Tables.antt =====
-- The two tables of extensions agree.
use cdn.Common.{◌≡◌, refl, ◌⊎◌, inl, inr, Bool, true, false, ◌&&◌, List, [], ◌∷◌, all, Bool-cases}
use cdn.Text.{Text, ◌=?◌, to_lower, lower_rune, member}
use cdn.FileType.{lookup_type, get_extension_from_content_type, content_types, is_valid_extension}

-- The extension of an entry is valid.
abbrev is_valid_entry : Text × Text → Bool
is_valid_entry entry = is_valid_extension entry.1

content_types_valid : all is_valid_entry content_types ≡ true
unfolding is_valid_extension to_lower lower_rune member ◌=?◌
content_types_valid = refl

both : (a b : Bool) → (a && b) ≡ true → (a ≡ true) × (b ≡ true)
both true true h = (refl, refl)
both true false h = absurd (cc h)
both false b h = absurd (cc h)

lookup_valid :
    (content_type : Text) (table : List (Text × Text))
    → all is_valid_entry table ≡ true
    → let e = lookup_type content_type table in (e ≡ []) ⊎ (is_valid_extension e ≡ true)
unfolding lookup_type
lookup_valid content_type [] h = inl refl
lookup_valid content_type ((t, extension) ∷ rest) h =
    let (here, there) = both (is_valid_extension extension) (all is_valid_entry rest) h in
    elim (Bool-cases (content_type =? t)) [
      | inl y ↦ rw y (inr here)
      | inr n ↦ rw n (lookup_valid content_type rest there)
    ]

-- Every content type that has an extension has a valid one.
pub get_extension_from_content_type_valid :
    (content_type : Text)
    → let e = get_extension_from_content_type content_type in
      (e ≡ []) ⊎ (is_valid_extension e ≡ true)
unfolding get_extension_from_content_type
get_extension_from_content_type_valid content_type =
    lookup_valid content_type content_types content_types_valid
