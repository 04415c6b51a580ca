-- ===== src/Domain/Matching.antt =====
-- When two hosts match.
use mathlib.Core.List.{append_assoc}
use cosmic_bwarden.Base.{
  ℕ, zero, suc, ◌-◌, ◌<◌, true, false, ◌≡◌, ◌≢◌, ◌⊎◌, inl, inr, refl, ap, ◌↔◌, Option, none, some,
  [], ◌∷◌, ◌++◌, Text, length, take, drop, get_elem?, arith, ==_iff, ◌==◌, nat_eq, list_eq,
  option_eq, length-append, take-append-drop, Bool-cases,
}
use cosmic_bwarden.Base.Strings.{ends_with, ends_with-append, contains_char}
use cosmic_bwarden.Domain.{Names, is_subdomain, hosts_match, registrable_domain, same_site}

-- The text `s` ends in `t` behind a dot.
abbrev pub Under : Text → Text → Type 0
Under s t = (label : Text) × (s ≡ label ++ b'.' ∷ t)

drop-get_elem? : (s : Text) (i x : ℕ) → get_elem? s i ≡ some x → drop i s ≡ x ∷ drop (suc i) s
drop-get_elem? [] i x h = cc
drop-get_elem? (y ∷ s) zero x h = ground arith
drop-get_elem? (y ∷ s) (suc i) x h = drop-get_elem? s i x h

get_elem?-length : (s t : Text) (x : ℕ) → get_elem? (s ++ x ∷ t) (length s) ≡ some x
get_elem?-length [] t x = refl
get_elem?-length (y ∷ s) t x = get_elem?-length s t x

ends_with-drop : (s t : Text) → ends_with s t ≡ true → drop (length s - length t) s ≡ t
unfolding ends_with
ends_with-drop s t h = ground (arith, ==_iff (drop (length s - length t) s) t)

drop-before :
    (s t : Text)
    → length t < length s
    → drop (suc (length s - length t - 1)) s ≡ drop (length s - length t) s
drop-before s t h =
    let e : suc (length s - length t - 1) ≡ length s - length t = omega arith in
    ap (λ k. drop k s) e

ends_with_dot : (l t : Text) → ends_with (l ++ b'.' ∷ t) t ≡ true
ends_with_dot l t = rw (← append_assoc l (b'.' ∷ []) t) (ends_with-append (l ++ b'.' ∷ []) t)

same_site_comm : (n : Names) (x y : Option Text) → same_site n x y ≡ same_site n y x
same_site_comm n none none = refl
same_site_comm n none (some y) = refl
same_site_comm n (some x) none = refl
same_site_comm n (some x) (some y) = ground (arith, ==_iff x y, ==_iff y x)

same_site-some :
    (n : Names) (x y : Option Text)
    → same_site n x y ≡ true
    → (r : Text) × (x ≡ some r) × (y ≡ some r)
same_site-some n none y h = cc
same_site-some n (some x) none h = cc
same_site-some n (some x) (some y) h = (x, refl, ground (arith, ==_iff x y))

-- A host is a subdomain of another exactly when it is that host behind some text and a dot.
pub is_subdomain_iff : (s t : Text) → (is_subdomain s t ≡ true) ↔ Under s t
unfolding is_subdomain
is_subdomain_iff s t = (
  λ h.
      let i : ℕ = length s - length t - 1 in
      (
        take i s,
        ground (
          arith,
          take-append-drop i s,
          drop-get_elem? s i b'.',
          ends_with-drop s t,
          drop-before s t,
          ==_iff (get_elem? s i) (some b'.'),
        ),
      ),
  λ u.
      let l : Text = u.0 in
      rw u.1
        (ground (arith, length-append l (b'.' ∷ t), ends_with_dot l t, get_elem?-length l t b'.')),
)

module _ (n : Names) where
  -- Matching does not depend on which host is the stored one.
  pub hosts_match_comm : (a b : Text) → hosts_match n a b ≡ hosts_match n b a
  unfolding hosts_match
  hosts_match_comm a b = ground (
    arith,
    ==_iff a b,
    ==_iff b a,
    same_site_comm n (registrable_domain n a) (registrable_domain n b),
  )

  -- Hosts that match are equal, or one stands under the other behind a dot, or they share a registrable domain;
  -- and neither is empty.
  pub hosts_match_sound :
      (a b : Text)
      → hosts_match n a b ≡ true
      → (a ≢ [])
        × (b ≢ [])
        × ((a ≡ b)
            ⊎ Under a b
            ⊎ Under b a
            ⊎ ((r : Text) × (registrable_domain n a ≡ some r) × (registrable_domain n b ≡ some r)))
  unfolding hosts_match
  hosts_match_sound a b h = (
    ground arith,
    ground arith,
    elim (Bool-cases (a == b)) [
      | inl e ↦ inl ((==_iff a b).0 e)
      | inr e ↦ inr (elim (Bool-cases (is_subdomain a b)) [
        | inl u ↦ inl ((is_subdomain_iff a b).0 u)
        | inr u ↦ inr (elim (Bool-cases (is_subdomain b a)) [
          | inl v ↦ inl ((is_subdomain_iff b a).0 v)
          | inr v ↦ inr (same_site-some n _ _ (ground arith))
        ])
      ])
    ],
  )

  -- An IP address, or a host without a dot, matches exactly itself.
  pub hosts_match-exact :
      (a b : Text)
      → (n.is_ip_addr a ≡ true) ⊎ (contains_char b'.' a ≡ false)
      → (hosts_match n a b ≡ true) ↔ ((a ≢ []) × (a ≡ b))
  unfolding hosts_match
  hosts_match-exact a b h = (λ m. ground (arith, ==_iff a b), λ m. ground (arith, ==_iff a b))
