-- ===== src/ObjectKey/Fixed.antt =====
-- SanitizeObjectName on a name that is already clean.
use cdn.Common.{
  ℕ, zero, suc, ◌≡◌, refl, inl, inr, true, false, ◌∷◌, arith, Bool-cases, length, All, [],
}
use cdn.Text.Trim.{FirstNot, LastNot, trim_left-kept, trim_right-kept}
use cdn.Text.Laws.{=?_iff}
use cdn.Text.{Text, trim, ◌=?◌}
use cdn.ObjectKey.{has_pair, squeeze, replacement, emit, sanitize_object_name, rewrite, is_edge}
use cdn.ObjectKey.Sanitized.{IsClean, is_plain, sanitize_object_name-IsClean}

emit-kept : (c : ℕ) → is_plain c ≡ true → emit c (replacement c) ≡ c ∷ []
unfolding replacement
emit-kept c h = ground (arith, h)

rewrite-kept : (s : Text) → All (λ d. is_plain d ≡ true) s → rewrite s ≡ s
unfolding rewrite
rewrite-kept [] h = refl
rewrite-kept (c ∷ s) (h, hs) = rw (emit-kept c h, rewrite-kept s hs)

squeeze-kept : (f : ℕ) (s : Text) → has_pair s ≡ false → squeeze f s ≡ s
unfolding squeeze
squeeze-kept zero s h = refl
squeeze-kept (suc f) s h = rw h

trim-kept : (s : Text) → FirstNot is_edge s → LastNot is_edge s → trim is_edge s ≡ s
unfolding trim
trim-kept s first last = rw (trim_left-kept is_edge s first, trim_right-kept is_edge s last)

-- A clean name is kept as it is.
pub sanitize_object_name-kept : (s : Text) → IsClean s → sanitize_object_name s ≡ s
unfolding sanitize_object_name
sanitize_object_name-kept s clean = elim (Bool-cases (s =? [])) [
  | inl y ↦ absurd (clean.some_left ((=?_iff s []).0 y))
  | inr n ↦ rw (
    rewrite-kept s clean.plain,
    squeeze-kept (length s) s clean.single,
    trim-kept s clean.first clean.last,
    n,
  )
]

-- Sanitizing a name a second time changes nothing.
pub sanitize_object_name_idem :
    (name : Text) → sanitize_object_name (sanitize_object_name name) ≡ sanitize_object_name name
sanitize_object_name_idem name = sanitize_object_name-kept _ (sanitize_object_name-IsClean name)
