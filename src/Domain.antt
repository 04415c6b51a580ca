-- ===== src/Domain.antt =====
-- crates/cosmarden-core/src/domain.rs: does a vault entry belong to a web page? Hosts are lists of code points; where
-- the source looks at the byte before an ASCII suffix, this looks at the code point before it.
pub mod Matching
pub mod Hosts
pub mod Links
use cosmic_bwarden.Base.{
  ℕ, ◌-◌, Bool, true, false, not, ◌&&◌, ◌||◌, Option, none, some, List, [], ◌∷◌, ◌++◌, Text, codes,
  length, get_elem?, ltb, ◌==◌, nat_eq, list_eq, option_eq, if◌then◌else◌,
}
use cosmic_bwarden.Base.Strings.{
  before_first, after_last, contains_char, contains, starts_with, strip_prefix, split_once,
  ends_with, trim, eq_ignore_ascii_case,
}

-- What the module takes from Rust's library and from the crate `psl`: `str::to_lowercase`, whether a text parses as an
-- IP address, `psl::domain_str`, and whether the feature `public_suffix_list` is on.
pub record Names : Type 0 where
  pub to_lowercase : Text → Text
  pub is_ip_addr : Text → Bool
  pub public_suffix_list : Bool
  pub psl_domain : Text → Option Text

abbrev pub non_empty : Text → Option Text
non_empty [] = none
non_empty (x ∷ s) = some (x ∷ s)

-- `/`, `?` and `#` end the authority.
abbrev pub ends_host : ℕ → Bool
ends_host x = x == b'/' || x == b'?' || x == b'#'

abbrev pub after_scheme : Text → Option (Text × Text) → Text
after_scheme s none = s
after_scheme s (some (scheme, rest)) = rest

-- A trailing `:port` is cut off, unless the host is an IPv6 address.
abbrev pub before_port : Text → Option (Text × Text) → Text
before_port s none = s
before_port s (some (host, port)) =
    if not (contains_char b':' port) && not (starts_with s (codes "[")) then host else s

unfoldable pub authority : Text → Text
authority uri =
    let s = trim uri in
    let s1 = after_scheme s (split_once s (codes "://")) in
    let s2 = before_first ends_host s1 in
    let s3 = after_last b'@' s2 in before_port s3 (split_once s3 (codes ":"))

-- `sub.ends_with(parent)` behind a dot.
unfoldable pub is_subdomain : Text → Text → Bool
is_subdomain sub parent =
    ltb (length parent) (length sub)
    && ends_with sub parent
    && get_elem? sub (length sub - length parent - 1) == some b'.'

module _ (n : Names) where
  unfoldable pub host_from_uri : Text → Option Text
  unfolding authority
  host_from_uri uri = non_empty (strip_prefix (codes "www.") (n.to_lowercase (authority uri)))

  unfoldable pub host_from_name : Text → Option Text
  host_from_name name =
      let s = trim name in
      if contains_char b' ' s || contains_char b'@' s || not (contains_char b'.' s)
      then none
      else host_from_uri s

  unfoldable pub registrable_domain : Text → Option Text
  registrable_domain host =
      if n.public_suffix_list then (if n.is_ip_addr host then none else n.psl_domain host) else none

  abbrev pub is_some_host : Option Text → Bool
  is_some_host none = false
  is_some_host (some h) = true

  unfoldable pub is_uri_like : Text → Bool
  is_uri_like name = is_some_host (host_from_name name)

  abbrev pub if_web : Text → Option (Text × Text) → Option Text
  if_web uri none = none
  if_web uri (some (scheme, rest)) =
      if eq_ignore_ascii_case scheme (codes "http") || eq_ignore_ascii_case scheme (codes "https")
      then some uri
      else none

  unfoldable pub open_uri_for_name : Text → Option Text
  unfolding is_uri_like
  open_uri_for_name name =
      let s = trim name in
      let uri = if contains s (codes "://") then s else codes "https://" ++ s in
      if is_uri_like s then if_web uri (split_once uri (codes "://")) else none

  abbrev pub label_of : Text → Option Text → Option Text → Text
  label_of name none domain = name
  label_of name (some host) none = host
  label_of name (some host) (some domain) = domain

  abbrev pub registrable_of : Option Text → Option Text
  registrable_of none = none
  registrable_of (some host) = registrable_domain host

  unfoldable pub display_label_for_name : Text → Text
  display_label_for_name name =
      label_of name (host_from_name name) (registrable_of (host_from_name name))

  -- Both hosts have a registrable domain, and it is the same.
  abbrev pub same_site : Option Text → Option Text → Bool
  same_site (some ra) (some rb) = ra == rb
  same_site _ _ = false

  abbrev pub is_empty : Text → Bool
  is_empty [] = true
  is_empty (x ∷ s) = false

  unfoldable pub hosts_match : Text → Text → Bool
  hosts_match a b =
      if is_empty a || is_empty b
      then false
      else if a == b
      then true
      else if not (contains_char b'.' a)
          || not (contains_char b'.' b)
          || n.is_ip_addr a
          || n.is_ip_addr b
      then false
      else if is_subdomain a b || is_subdomain b a
      then true
      else same_site (registrable_domain a) (registrable_domain b)
