-- ===== src/UploadUrl.antt =====
-- pkg/validator/url.go: which URLs the service fetches for an upload. url.Parse, net.ParseIP,
-- net.SplitHostPort and the classes of package net are parameters; UPLOAD_URL_ALLOW_PRIVATE is an
-- argument.
pub mod Dials
use cdn.Common.{
  Bool, true, false, not, ◌||◌, Option, none, some, List, [], leb, if◌then◌else◌, length,
}
use cdn.Text.{Text, codes, ◌=?◌}

-- The methods of net.IP that are asked.
pub record Net : Type 1 where
  pub Ip : Type 0
  pub parse_ip : Text → Option Ip
  pub split_host_port : Text → Option Text
  pub to4 : Ip → Option Ip
  pub is_loopback : Ip → Bool
  pub is_private : Ip → Bool
  pub is_link_local_unicast : Ip → Bool
  pub is_link_local_multicast : Ip → Bool
  pub is_multicast : Ip → Bool
  pub is_unspecified : Ip → Bool

-- The parts of a URL that are read.
pub record Target : Type 0 where
  pub scheme : Text
  pub hostname : Text

pub data UrlError : Type 0 where
  invalid_url unsupported_scheme missing_host disallowed_address : UrlError

pub data DialError : Type 0 where
  invalid_dial_address blocked_address : DialError

pub data RedirectError : Type 0 where
  too_many_redirects unsupported_redirect_scheme : RedirectError

abbrev pub is_web : Text → Bool
is_web scheme = (scheme =? codes "http") || (scheme =? codes "https")

module _ (net : Net) where
  abbrev pub unmapped : net.Ip → Option net.Ip → net.Ip
  unmapped ip none = ip
  unmapped ip (some v4) = v4

  abbrev pub in_blocked_range : net.Ip → Bool
  in_blocked_range ip =
      net.is_loopback ip
      || net.is_private ip
      || net.is_link_local_unicast ip
      || net.is_link_local_multicast ip
      || net.is_multicast ip
      || net.is_unspecified ip

  -- isDisallowedIP; a nil address is `none`.
  unfoldable pub is_disallowed_ip : Option net.Ip → Bool
  is_disallowed_ip none = true
  is_disallowed_ip (some ip) = in_blocked_range (unmapped ip (net.to4 ip))

  abbrev pub literal_disallowed : Option net.Ip → Bool
  literal_disallowed none = false
  literal_disallowed (some ip) = is_disallowed_ip (some ip)

  abbrev pub check_target : Bool → Option Target → Option UrlError
  check_target allow_private none = some invalid_url
  check_target allow_private (some u) =
      if not (is_web u.scheme)
      then some unsupported_scheme
      else if u.hostname =? []
      then some missing_host
      else if allow_private
      then none
      else if literal_disallowed (net.parse_ip u.hostname)
      then some disallowed_address
      else none

  -- ValidateUploadURL
  unfoldable pub validate_upload_url : Bool → (Text → Option Target) → Text → Option UrlError
  validate_upload_url allow_private parse raw = check_target allow_private (parse raw)

  abbrev pub dial_host : Option Text → Option DialError
  dial_host none = some invalid_dial_address
  dial_host (some host) =
      if is_disallowed_ip (net.parse_ip host) then some blocked_address else none

  -- The dialer's Control of NewSafeHTTPClient
  unfoldable pub dial_control : Bool → Text → Option DialError
  dial_control allow_private address =
      if allow_private then none else dial_host (net.split_host_port address)

-- CheckRedirect of NewSafeHTTPClient, for the schemes of the requests made so far
unfoldable pub check_redirect : Text → List Text → Option RedirectError
check_redirect scheme via =
    if leb 3 (length via)
    then some too_many_redirects
    else if not (is_web scheme)
    then some unsupported_redirect_scheme
    else none
