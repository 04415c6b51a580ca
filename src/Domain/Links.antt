-- ===== src/Domain/Links.antt =====
-- Which names are handed to a browser.
use cosmic_bwarden.Base.{
  true, false, ◌≡◌, ◌⊎◌, inl, inr, Bool-cases, refl, Option, none, some, ◌++◌, Text, codes, arith,
  subst, if◌then◌else◌,
}
use cosmic_bwarden.Base.Strings.{
  contains_char, contains, split_once, split_once-eq, trim, eq_ignore_ascii_case,
}
use cosmic_bwarden.Domain.{Names, host_from_name, if_web, open_uri_for_name}

module _ (n : Names) where
  -- What `host_from_name` accepts has a dot and neither a space nor an `@`, once trimmed.
  host_from_name-shape :
      (name host : Text)
      → host_from_name n name ≡ some host
      → (contains_char b'.' (trim name) ≡ true)
        × (contains_char b' ' (trim name) ≡ false)
        × (contains_char b'@' (trim name) ≡ false)
  unfolding host_from_name
  host_from_name-shape name host h = ground arith

  abbrev IsWeb : Text → Type 0
  IsWeb uri =
      (scheme rest : Text) × (uri ≡ scheme ++ (codes "://" ++ rest))
      × ((eq_ignore_ascii_case scheme (codes "http") ≡ true)
          ⊎ (eq_ignore_ascii_case scheme (codes "https") ≡ true))

  if_web-some :
      (uri u : Text) (o : Option (Text × Text))
      → split_once uri (codes "://") ≡ o
      → if_web n uri o ≡ some u
      → (uri ≡ u) × IsWeb uri
  if_web-some uri u none e h = cc
  if_web-some uri u (some (scheme, rest)) e h =
      (ground arith, (scheme, rest, split_once-eq uri (codes "://") scheme rest e, ground arith))

  completed :
      (s uri : Text)
      → (if contains s (codes "://") then s else codes "https://" ++ s) ≡ uri
      → ((contains s (codes "://") ≡ true) × (uri ≡ s))
        ⊎ ((contains s (codes "://") ≡ false) × (uri ≡ codes "https://" ++ s))
  completed s uri h = elim (Bool-cases (contains s (codes "://"))) [
    | inl e ↦ inl ((e, ground (arith, e)))
    | inr e ↦ inr ((e, ground (arith, e)))
  ]

  -- A URI that is handed to the desktop is the trimmed name, or `https://` and the trimmed name where that has no
  -- `://`; its scheme is `http` or `https` in any case.
  pub open_uri-IsWeb :
      (name uri : Text)
      → open_uri_for_name n name ≡ some uri
      → (((contains (trim name) (codes "://") ≡ true) × (uri ≡ trim name))
          ⊎ ((contains (trim name) (codes "://") ≡ false) × (uri ≡ codes "https://" ++ trim name)))
        × (scheme rest : Text) × (uri ≡ scheme ++ (codes "://" ++ rest))
        × ((eq_ignore_ascii_case scheme (codes "http") ≡ true)
            ⊎ (eq_ignore_ascii_case scheme (codes "https") ≡ true))
  unfolding open_uri_for_name
  open_uri-IsWeb name uri h =
      let s : Text = trim name in
      let full : Text = if contains s (codes "://") then s else codes "https://" ++ s in
      let e : if_web n full (split_once full (codes "://")) ≡ some uri = ground arith in
      let r = if_web-some full uri _ refl e in
      let w : IsWeb uri = subst IsWeb r.0 r.1 in (completed (trim name) uri r.0, w.0, w.1, w.2, w.3)
