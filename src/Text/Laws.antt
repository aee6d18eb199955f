-- ===== src/Text/Laws.antt =====
-- Laws of the string functions.
use cdn.Common.{◌≡◌, refl, ◌↔◌, true, some, [], ◌∷◌, ◌++◌, arith}
use cdn.Text.{Text, ◌=?◌, strip_prefix, trim_prefix}

pub =?_refl : (s : Text) → (s =? s) ≡ true
unfolding ◌=?◌
=?_refl [] = refl
=?_refl (c ∷ s) = ground (arith, =?_refl s)

pub eq_of_=? : (s t : Text) → (s =? t) ≡ true → s ≡ t
unfolding ◌=?◌
eq_of_=? [] [] h = refl
eq_of_=? [] (d ∷ t) h = cc
eq_of_=? (c ∷ s) [] h = cc
eq_of_=? (c ∷ s) (d ∷ t) h = ground (arith, eq_of_=? s t)

pub =?_iff : (s t : Text) → ((s =? t) ≡ true) ↔ (s ≡ t)
=?_iff s t = (eq_of_=? s t, λ e. rw e (=?_refl t))

-- TrimPrefix takes off the prefix that was put in front.
pub strip_prefix-append : (t s : Text) → strip_prefix (t ++ s) t ≡ some s
unfolding strip_prefix
strip_prefix-append [] [] = refl
strip_prefix-append [] (c ∷ s) = refl
strip_prefix-append (d ∷ t) s = ground (arith, strip_prefix-append t s)

pub trim_prefix-append : (t s : Text) → trim_prefix (t ++ s) t ≡ s
unfolding trim_prefix
trim_prefix-append t s = rw (strip_prefix-append t s, trim_prefix)
