-- ===== src/UploadUrl/Dials.antt =====
-- What an upload by URL can reach.
use cdn.Common.{◌≡◌, refl, ◌⊎◌, inl, inr, Bool, true, false, Option, none, some, Bool-cases}
use cdn.Text.{Text}
use cdn.UploadUrl.{Net, is_disallowed_ip, dial_control, dial_host}

-- A connection that the client lets pass is, unless private targets are allowed, to a literal
-- address outside the blocked ranges: the address that is dialled, not the name it was found by.
pub dial_control_sound :
    (net : Net) (allow_private : Bool) (address : Text)
    → dial_control net allow_private address ≡ none
    → (allow_private ≡ true)
      ⊎ ((host : Text) × (net.split_host_port address ≡ some host)
          × (ip : net.Ip) × (net.parse_ip host ≡ some ip)
          × (is_disallowed_ip net (some ip) ≡ false))
unfolding dial_control is_disallowed_ip
dial_control_sound net true address h = inl refl
dial_control_sound net false address h = inr (go (net.split_host_port address) refl h)
  where
    parsed :
        (host : Text) (o : Option net.Ip)
        → net.parse_ip host ≡ o
        → is_disallowed_ip net o ≡ false
        → (ip : net.Ip) × (net.parse_ip host ≡ some ip) × (is_disallowed_ip net (some ip) ≡ false)
    parsed host none e fine = absurd (cc fine)
    parsed host (some ip) e fine = (ip, e, fine)

    go :
        (o : Option Text)
        → net.split_host_port address ≡ o
        → dial_host net o ≡ none
        → (host : Text) × (net.split_host_port address ≡ some host)
          × (ip : net.Ip) × (net.parse_ip host ≡ some ip)
          × (is_disallowed_ip net (some ip) ≡ false)
    go none e d = absurd (cc d)
    go (some host) e d = elim (Bool-cases (is_disallowed_ip net (net.parse_ip host))) [
      | inl y ↦ absurd (cc (rw y at d))
      | inr n ↦ let (ip, f, fine) = parsed host (net.parse_ip host) refl n in (host, e, ip, f, fine)
    ]
