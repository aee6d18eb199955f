-- ===== src/Downloads/Paths.antt =====
-- The local paths that a download may write to.
use cdn.Common.{
  ℕ, ◌≡◌, ◌≢◌, Bool, true, false, ◌||◌, none, some, List, [], ◌∷◌, Bool-cases, All, inl, inr, ◌==◌,
  arith, ==_iff, if◌then◌else◌,
}
use cdn.Text.{Text, codes, ◌=?◌, has_prefix, split, extend}
use cdn.Text.Laws.{=?_iff}
use cdn.Archive.Location.{NoSlash}
use cdn.Downloads.{
  clean_step, clean_elements, join_below, joined, resolve_local_download_path, parent, slash,
}

-- An element of a clean path: it is not empty, names neither its directory nor the one above, and
-- has no slash in it.
abbrev Plain : Text → Type 0
Plain p = (p ≢ []) × (p ≢ codes ".") × (p ≢ codes "..") × NoSlash p

extend-NoSlash : (c : ℕ) (l : List Text) → c ≢ b'/' → All NoSlash l → All NoSlash (extend c l)
extend-NoSlash c [] h all = ((h, tt), tt)
extend-NoSlash c (p ∷ ps) h all = ((h, all.0), all.1)

split-NoSlash : (s : Text) → All NoSlash (split s b'/')
unfolding split
split-NoSlash [] = (tt, tt)
split-NoSlash (c ∷ s) =
    let rest = split-NoSlash s in
    elim (Bool-cases (c == b'/')) [
      | inl y ↦ rw y (tt, rest)
      | inr n ↦ rw n (extend-NoSlash c _ (λ e. cc (n, (==_iff c b'/').1 e)) rest)
    ]

differs : (s t : Text) → (s =? t) ≡ false → s ≢ t
differs s t n e = cc (n, (=?_iff s t).1 e)

parent-Plain : (acc : List Text) → All Plain acc → All Plain (parent acc)
parent-Plain [] h = tt
parent-Plain (p ∷ acc) h = h.1

not_either : (a b : Bool) → (a || b) ≡ false → (a ≡ false) × (b ≡ false)
not_either a b h = ground arith

step-Plain : (acc : List Text) (p : Text) → All Plain acc → NoSlash p → All Plain (clean_step acc p)
unfolding clean_step
step-Plain acc p h flat = elim (Bool-cases ((p =? []) || (p =? codes "."))) [
  | inl y ↦ rw y h
  | inr n ↦ elim (Bool-cases (p =? codes "..")) [
    | inl y ↦ rw (n, y) (parent-Plain acc h)
    | inr m ↦
        let (e, d) = not_either (p =? []) (p =? codes ".") n in
        rw (n, m) ((differs p [] e, differs p (codes ".") d, differs p (codes "..") m, flat), h)
  ]
]

elements-Plain :
    (acc ps : List Text) → All Plain acc → All NoSlash ps → All Plain (clean_elements acc ps)
unfolding clean_elements
elements-Plain acc [] h flat = h
elements-Plain acc (p ∷ ps) h flat =
    elements-Plain (clean_step acc p) ps (step-Plain acc p h flat.0) flat.1

-- A path that a download is allowed to write to is below the base: it is the base followed by elements
-- of which none is empty, has a slash or is a dot or two dots, so that none leads out of it.
pub resolve_local_download_path_below :
    (base target p : Text)
    → resolve_local_download_path base target ≡ some p
    → (ps : List Text) × (p ≡ join_below base ps)
      × All (λ q. (q ≢ []) × (q ≢ codes ".") × (q ≢ codes "..") × NoSlash q) ps
unfolding resolve_local_download_path joined
resolve_local_download_path_below base target p =
    elim (Bool-cases ((target =? []) || has_prefix target slash)) [
      | inl y ↦ rw y (λ h. absurd (cc h))
      | inr n ↦ rw n (λ h. (
        clean_elements [] (split target b'/'),
        path_of _ _ h,
        elements-Plain [] (split target b'/') tt (split-NoSlash target),
      ))
    ]
  where
    path_of : (bad : Bool) (q : Text) → (if bad then none else some q) ≡ some p → p ≡ q
    path_of true q h = absurd (cc h)
    path_of false q h = cc h
