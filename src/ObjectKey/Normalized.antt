-- ===== src/ObjectKey/Normalized.antt =====
-- What normalizeObjectKey accepts.
use cdn.Text.Laws.{=?_iff}
use mathlib.Core.Path.{ap}
use cdn.Common.{
  ◌∙◌, ◌⊎◌, ◌≡◌, ◌≢◌, inl, inr, Bool, false, ◌||◌, Bool-cases, [], refl, Option, none, some, ◌++◌,
  Option-cases,
}
use cdn.Text.{Text, ◌=?◌, codes, has_prefix, trim_prefix, trim_space, strip_prefix, to_lower}
use cdn.ObjectKey.{
  has_unsafe_object_key, Key, key, bad, checked, Url, normalize_object_key, key_in_path,
  key_from_parsed, foreign, key_from_url,
}

-- A text less one leading slash.
abbrev unslashed : Text → Text
unslashed s = trim_prefix s (codes "/")

abbrev is_url : Text → Bool
is_url value = has_prefix value (codes "http://") || has_prefix value (codes "https://")

checked-cases :
    (r : Key) (k : Text)
    → checked r ≡ key k
    → (has_unsafe_object_key k ≡ false) × (k ≢ []) × ((v : Text) × (r ≡ key v) × (unslashed v ≡ k))
checked-cases (bad e) k h = absurd (cc h)
checked-cases (key v) k h = elim (Bool-cases (unslashed v =? [])) [
  | inl y ↦ absurd (cc (rw y at h))
  | inr n ↦ elim (Bool-cases (has_unsafe_object_key (unslashed v))) [
    | inl y ↦ absurd (cc (rw (n, y) at h))
    | inr m ↦
        let same : unslashed v ≡ k = cc (rw (n, m) at h) in
        (rw same at m, λ e. cc (n, (=?_iff (unslashed v) []).1 (same ∙ e)), (v, refl, same))
  ]
]

-- A URL has the application's host, whatever the case, if that host is known.
abbrev pub Hosted : Option Url → Url → Type 0
Hosted none u = Unit
Hosted (some a) u = (a.host ≡ []) ⊎ (to_lower u.host ≡ to_lower a.host)

not_foreign : (app : Option Url) (u : Url) → foreign app u ≡ false → Hosted app u
not_foreign none u h = tt
not_foreign (some a) u h = elim (Bool-cases (a.host =? [])) [
  | inl y ↦ inl ((=?_iff a.host []).0 y)
  | inr n ↦ elim (Bool-cases (to_lower u.host =? to_lower a.host)) [
    | inl y ↦ inr ((=?_iff (to_lower u.host) (to_lower a.host)).0 y)
    | inr m ↦ absurd (cc (rw (n, m) at h))
  ]
]

module _ (parse : Text → Option Url) (app : Option Url) (raw bucket : Text) where
  -- Where an accepted key comes from: a plain reference is the key, less a slash in front of it; a
  -- URL is of the application's host and has the key below its own bucket.
  abbrev pub FromPath : Text → Type 0
  FromPath k = (is_url (trim_space raw) ≡ false) × (unslashed (trim_space raw) ≡ k)

  abbrev pub FromUrl : Text → Type 0
  FromUrl k =
      (u : Url) × (v : Text) × (parse (trim_space raw) ≡ some u)
      × Hosted app u
      × (strip_prefix (unslashed u.path) (bucket ++ codes "/") ≡ some v)
      × (unslashed v ≡ k)

  in_path :
      (path v : Text)
      → key_in_path bucket path ≡ key v
      → strip_prefix (unslashed path) (bucket ++ codes "/") ≡ some v
  in_path path v h = elim (Option-cases (strip_prefix (unslashed path) (bucket ++ codes "/"))) [
    | inl e ↦ absurd (cc (rw (key_in_path, e) at h))
    | inr (l, e) ↦ cc (e, rw (key_in_path, e) at h)
  ]

  from_url :
      (parsed : Option Url) (v k : Text)
      → parse (trim_space raw) ≡ parsed
      → key_from_parsed app bucket parsed ≡ key v
      → unslashed v ≡ k
      → FromUrl k
  from_url none v k e h same = absurd (cc h)
  from_url (some u) v k e h same = elim (Bool-cases (foreign app u)) [
    | inl y ↦ absurd (cc (rw y at h))
    | inr n ↦ (u, v, e, not_foreign app u n, in_path u.path v (rw n at h), same)
  ]

  -- An accepted key is safe and not empty, and it is the reference itself, which is then no URL, or
  -- it stands below the caller's bucket in a URL. That URL has the host of APP_URL, whatever the
  -- case; where APP_URL cannot be parsed or has no host, it may have any host.
  pub normalize_object_key_sound :
      (k : Text)
      → normalize_object_key parse app raw bucket ≡ key k
      → (has_unsafe_object_key k ≡ false) × (k ≢ []) × (FromPath k ⊎ FromUrl k)
  unfolding normalize_object_key key_from_url
  normalize_object_key_sound k h = elim (Bool-cases (trim_space raw =? [])) [
    | inl y ↦ absurd (cc (rw y at h))
    | inr n ↦ elim (Bool-cases (is_url (trim_space raw))) [
      | inl y ↦
          let (safe, some_left, (v, e, same)) =
            checked-cases (key_from_parsed app bucket (parse (trim_space raw))) k
              (rw (n, y) at h) in
          (safe, some_left, inr (from_url _ v k refl e same))
      | inr m ↦
          let (safe, some_left, (v, e, same)) =
            checked-cases (key (trim_space raw)) k (rw (n, m) at h) in
          (safe, some_left, inl (m, ap unslashed (cc e) ∙ same))
    ]
  ]
