-- ===== src/Examples/Sites.antt =====
-- Hosts and links on small inputs.
use cosmic_bwarden.Base.{◌≡◌, ◌≢◌, ◌⊎◌, refl, true, false, some, [], ◌++◌, Text, codes}
use cosmic_bwarden.Base.Strings.{
  ends_with, split_once, after_last, before_first, contains, contains_char, eq_ignore_ascii_case,
  trim,
}
use cosmic_bwarden.Domain.{
  is_subdomain, hosts_match, host_from_uri, host_from_name, registrable_domain, open_uri_for_name,
}
use cosmic_bwarden.Domain.Matching.{Under, hosts_match_comm, hosts_match_sound}
use cosmic_bwarden.Domain.Hosts.{KeepsSeparators}
use cosmic_bwarden.Domain.Links.{open_uri-IsWeb}
use cosmic_bwarden.Examples.Data.{names}

hosts_match_comm_example :
    hosts_match names (codes "a.b.c") (codes "b.c")
    ≡ hosts_match names (codes "b.c") (codes "a.b.c")
hosts_match_comm_example = hosts_match_comm names (codes "a.b.c") (codes "b.c")

matching : hosts_match names (codes "a.b.c") (codes "b.c") ≡ true
unfolding hosts_match contains_char is_subdomain ends_with
matching = refl

hosts_match_sound_example :
    (codes "a.b.c" ≢ [])
    × (codes "b.c" ≢ [])
    × ((codes "a.b.c" ≡ codes "b.c")
        ⊎ Under (codes "a.b.c") (codes "b.c")
        ⊎ Under (codes "b.c") (codes "a.b.c")
        ⊎ ((r : Text) × (registrable_domain names (codes "a.b.c") ≡ some r)
            × (registrable_domain names (codes "b.c") ≡ some r)))
hosts_match_sound_example = hosts_match_sound names (codes "a.b.c") (codes "b.c") matching

no_dot : contains_char b'.' (codes "host") ≡ false
unfolding contains_char
no_dot = refl

keeps : KeepsSeparators names.to_lowercase
keeps = λ s h. h

extracted : host_from_uri names (codes "https://u@www.b.c/x") ≡ some (codes "b.c")
unfolding host_from_uri split_once after_last before_first trim
extracted = refl

link : open_uri_for_name names (codes "b.c") ≡ some (codes "https://b.c")
unfolding open_uri_for_name host_from_name contains_char trim host_from_uri split_once after_last
    before_first contains eq_ignore_ascii_case
link = refl

open_uri-IsWeb_example :
    (((contains (trim (codes "b.c")) (codes "://") ≡ true)
        × (codes "https://b.c" ≡ trim (codes "b.c")))
      ⊎ ((contains (trim (codes "b.c")) (codes "://") ≡ false)
          × (codes "https://b.c" ≡ codes "https://" ++ trim (codes "b.c"))))
    × (scheme rest : Text) × (codes "https://b.c" ≡ scheme ++ (codes "://" ++ rest))
    × ((eq_ignore_ascii_case scheme (codes "http") ≡ true)
        ⊎ (eq_ignore_ascii_case scheme (codes "https") ≡ true))
open_uri-IsWeb_example = open_uri-IsWeb names (codes "b.c") (codes "https://b.c") link
