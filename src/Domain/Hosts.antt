-- ===== src/Domain/Hosts.antt =====
-- What a host extracted from a URI or a name looks like.
use cosmic_bwarden.Base.{
  ℕ, zero, suc, subst, false, ◌≡◌, ◌≢◌, inl, inr, refl, Option, none, some, [], ◌∷◌, ◌++◌, Text,
  All, codes, length, drop, arith, ◌==◌, nat_eq, Bool-cases, ◌&&◌, not,
}
use cosmic_bwarden.Base.Strings.{
  before_first, before_first-All, after_last, after_last-Without, contains_char, starts_with,
  strip_prefix, split_once, split_once-eq, trim,
}
use cosmic_bwarden.Domain.{
  Names, authority, ends_host, before_port, after_scheme, non_empty, host_from_uri,
}

-- A suffix of a text that avoids a character avoids it, and so do its two halves.
All-halves {κ} : (P : ℕ → Type κ) (s t : Text) → All P (s ++ t) → All P s × All P t
All-halves P [] t h = (tt, h)
All-halves P (x ∷ s) t h = let r = All-halves P s t h.1 in ((h.0, r.0), r.1)

All-drop {κ} : (P : ℕ → Type κ) (n : ℕ) (s : Text) → All P s → All P (drop n s)
All-drop P zero s h = h
All-drop P (suc n) [] h = tt
All-drop P (suc n) (x ∷ s) h = All-drop P n s h.1

All-after_last {κ} : (P : ℕ → Type κ) (c : ℕ) (s : Text) → All P s → All P (after_last c s)
unfolding after_last
All-after_last P c [] h = tt
All-after_last P c (x ∷ s) h = elim (Bool-cases (contains_char c s)) [
  | inl e ↦ rw e (All-after_last P c s h.1)
  | inr e ↦ rw e (elim (Bool-cases (x == c)) [ inl q ↦ rw q h.1 | inr q ↦ rw q h ])
]

All-before_port {κ} :
    (P : ℕ → Type κ) (s : Text) (o : Option (Text × Text))
    → split_once s (codes ":") ≡ o
    → All P s
    → All P (before_port s o)
All-before_port P s none e h = h
All-before_port P s (some (a, b)) e h =
    let ha : All P a =
      (All-halves P a (codes ":" ++ b) (subst (All P) (split_once-eq s (codes ":") a b e) h)).0 in
    elim (Bool-cases (not (contains_char b':' b) && not (starts_with s (codes "[")))) [
      | inl t ↦ rw t ha
      | inr t ↦ rw t h
    ]

-- No character of the result separates the parts of a URI: `/`, `?`, `#` or `@`.
abbrev pub IsHostChar : ℕ → Type 0
IsHostChar x = (ends_host x ≡ false) × (x ≢ b'@')

All-both {κ μ} :
    (P : ℕ → Type κ) (Q : ℕ → Type μ) (s : Text) → All P s → All Q s → All (λ x. P x × Q x) s
All-both P Q [] p q = tt
All-both P Q (x ∷ s) p q = ((p.0, q.0), All-both P Q s p.1 q.1)

authority-All : (uri : Text) → All IsHostChar (authority uri)
unfolding authority
authority-All uri =
    let s : Text = trim uri in
    let s2 : Text = before_first ends_host (after_scheme s (split_once s (codes "://"))) in
    let s3 : Text = after_last b'@' s2 in
    All-before_port IsHostChar s3 _ refl (
      All-both (λ x. ends_host x ≡ false) (λ x. x ≢ b'@') s3
        (All-after_last _ b'@' s2 (before_first-All ends_host _)) (after_last-Without b'@' s2))

-- What lower-casing may not do: bring in one of the separators.
abbrev pub KeepsSeparators : (Text → Text) → Type 0
KeepsSeparators f = (s : Text) → All IsHostChar s → All IsHostChar (f s)

All-strip_prefix : (P : ℕ → Type 0) (t s : Text) → All P s → All P (strip_prefix t s)
All-strip_prefix P t s h = elim (Bool-cases (starts_with s t)) [
  | inl e ↦ rw e (All-drop P (length t) s h)
  | inr e ↦ rw e h
]

non_empty-some : (s h : Text) → non_empty s ≡ some h → (h ≢ []) × (s ≡ h)
non_empty-some [] h e = cc
non_empty-some (x ∷ s) h e = ground arith

module _ (n : Names) (keeps : KeepsSeparators n.to_lowercase) where
  -- A host that is extracted from a URI is not empty and holds no `/`, `?`, `#` or `@`, whatever the URI; lower-casing
  -- is taken not to bring in such a character.
  pub host_from_uri-All :
      (uri host : Text) → host_from_uri n uri ≡ some host → (host ≢ []) × All IsHostChar host
  unfolding host_from_uri
  host_from_uri-All uri host h =
      let s : Text = n.to_lowercase (authority uri) in
      let r = non_empty-some (strip_prefix (codes "www.") s) host h in
      (
        r.0,
        subst (All IsHostChar) r.1 (
            All-strip_prefix IsHostChar (codes "www.") s
              (keeps (authority uri) (authority-All uri))),
      )
