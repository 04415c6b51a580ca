-- ===== src/CipherString/Format.antt =====
-- The textual format of cipherstrings: `CipherString::new` against `Display`.
use cosmic_bwarden.Base.{
  ℕ, Option, none, some, List, [], ◌∷◌, ◌++◌, ◌≡◌, ◌≢◌, refl, arith, Text, All-append, Bool, true,
  false, if◌then◌else◌, ltb, ◌||◌, ◌==◌, nat_eq, subst,
}
use cosmic_bwarden.Base.Strings.{Without, split, split-Without, split-append}
use cosmic_bwarden.Crypto.{
  Bytes, Crypto, CryptoLaws, Outcome, ok, err, panic, invalid_cipher_string, type2_parts, ◌>>=◌,
  or_err, invalid_base64, too_old_type, unimplemented_type,
}
use cosmic_bwarden.CipherString.{
  CipherString, symmetric, asymmetric, new, new_parts, new_typed, new_symmetric, new_asymmetric,
  display, first_part, type_digit,
}

-- What the parser makes of a printed cipherstring.
abbrev pub reparsed : CipherString → Outcome CipherString
reparsed (symmetric iv ct none) = err (invalid_cipher_string (type2_parts 2))
reparsed cs = ok cs

module _ (c : Crypto) (laws : CryptoLaws c) where
  Without-dots : (x y : Bytes) → Without b'.' (c.base64_encode x ++ b'|' ∷ c.base64_encode y)
  Without-dots x y =
      All-append _ (c.base64_encode x) _ (laws.encode-no-dot x) (omega arith, laws.encode-no-dot y)

  new-display_mac :
      (iv ct mac : Bytes)
      → new c (display c (symmetric iv ct (some mac))) ≡ ok (symmetric iv ct (some mac))
  unfolding new display
  new-display_mac iv ct mac = rw (
    split-Without b'.'
        (c.base64_encode iv ++ b'|' ∷ (c.base64_encode ct ++ b'|' ∷ c.base64_encode mac))
        (All-append _ (c.base64_encode iv) _ (laws.encode-no-dot iv)
          (omega arith, Without-dots ct mac)),
    split-append b'|' (c.base64_encode iv) _ (laws.encode-no-bar iv),
    split-append b'|' (c.base64_encode ct) _ (laws.encode-no-bar ct),
    split-Without b'|' (c.base64_encode mac) (laws.encode-no-bar mac),
    laws.decode-encode iv,
    laws.decode-encode ct,
    laws.decode-encode mac,
  )

  -- Printing a cipherstring and parsing it again gives it back, for every iv, ciphertext and MAC; the one exception
  -- is a symmetric one without a MAC, which the parser refuses with the count of its parts.
  pub new-display : (cs : CipherString) → new c (display c cs) ≡ reparsed cs
  unfolding new display
  new-display (symmetric iv ct (some mac)) = new-display_mac iv ct mac
  new-display (symmetric iv ct none) = rw (
    split-Without b'.' (c.base64_encode iv ++ b'|' ∷ c.base64_encode ct) (Without-dots iv ct),
    split-append b'|' (c.base64_encode iv) _ (laws.encode-no-bar iv),
    split-Without b'|' (c.base64_encode ct) (laws.encode-no-bar ct),
  )
  new-display (asymmetric ct) = rw (
    split-Without b'.' (c.base64_encode ct) (laws.encode-no-dot ct),
    split-Without b'|' (c.base64_encode ct) (laws.encode-no-bar ct),
    laws.decode-encode ct,
  )

module _ (c : Crypto) where
  abbrev HasMac : Outcome CipherString → Type 0
  HasMac (ok (symmetric iv ct mac)) = (m : Bytes) × (mac ≡ some m)
  HasMac (ok (asymmetric ct)) = Unit
  HasMac (err e) = Unit
  HasMac panic = ⊥

  new_symmetric-HasMac : (parts : List Text) → HasMac (new_symmetric c parts)
  unfolding new_symmetric
  new_symmetric-HasMac (iv ∷ ct ∷ mac ∷ []) =
      decoded (c.base64_decode iv) (c.base64_decode ct) (c.base64_decode mac)
    where
      decoded :
          (x y z : Option Bytes)
          → HasMac (
              or_err x invalid_base64 >>= λ x'. or_err y invalid_base64 >>= λ y'.
              or_err z invalid_base64 >>= λ z'. ok (symmetric x' y' (some z')))
      decoded none y z = tt
      decoded (some x) none z = tt
      decoded (some x) (some y) none = tt
      decoded (some x) (some y) (some z) = (z, refl)
  new_symmetric-HasMac _ = tt

  new_asymmetric-HasMac : (parts : List Text) → HasMac (new_asymmetric c parts)
  unfolding new_asymmetric
  new_asymmetric-HasMac parts = decoded (c.base64_decode (first_part parts))
    where
      decoded : (x : Option Bytes) → HasMac (or_err x invalid_base64 >>= λ x'. ok (asymmetric x'))
      decoded none = tt
      decoded (some x) = tt

  HasMac-if :
      (b : Bool) (x y : Outcome CipherString) → HasMac x → HasMac y → HasMac (if b then x else y)
  HasMac-if true x y hx hy = hx
  HasMac-if false x y hx hy = hy

  new_typed-HasMac : (ty : Text) (n : Option ℕ) (s : Text) → HasMac (new_typed c ty n s)
  unfolding new_typed
  new_typed-HasMac ty none s = tt
  new_typed-HasMac ty (some n) s = HasMac-if (n == 2) _ _ (new_symmetric-HasMac (split b'|' s)) (
      HasMac-if (n == 4 || n == 6) _ _ (new_asymmetric-HasMac (split b'|' s))
        (HasMac-if (ltb n 6) (err (too_old_type ty)) (err (unimplemented_type ty)) tt tt))

  new_parts-HasMac : (parts : List Text) → HasMac (new_parts c parts)
  unfolding new_parts
  new_parts-HasMac (ty ∷ s ∷ []) = new_typed-HasMac ty (type_digit ty) s
  new_parts-HasMac _ = tt

  new-HasMac : (s : Text) (r : Outcome CipherString) → new c s ≡ r → HasMac r
  unfolding new
  new-HasMac s r h = subst HasMac h (new_parts-HasMac (split b'.' s))

  -- Whatever the text, the parser does not panic, and a symmetric cipherstring that it accepts carries a MAC.
  pub new-has_mac :
      (s : Text)
      → (new c s ≢ panic)
        × ((iv ct : Bytes) (mac : Option Bytes)
            → new c s ≡ ok (symmetric iv ct mac)
            → (m : Bytes) × (mac ≡ some m))
  new-has_mac s = (new-HasMac s panic, λ iv ct mac. new-HasMac s (ok (symmetric iv ct mac)))
