-- ===== src/Generator/History.antt =====
-- The history file: what is appended can be read back, and nothing older than seven days stays.
use cosmic_bwarden.Base.{
  ℕ, ◌≤◌, ◌≡◌, refl, sym, ◌∙◌, ap, none, some, List, [], ◌∷◌, ◌++◌, length, arith,
}
use cosmic_bwarden.Crypto.{Bytes, Crypto, CryptoLaws, ok, ◌>>=◌, >>=-eq-ok}
use cosmic_bwarden.CipherString.{
  CipherString, symmetric, asymmetric, Keys, new, display, encrypt_symmetric, decrypt_symmetric,
  decrypt_common_symmetric,
}
use cosmic_bwarden.CipherString.Format.{new-display}
use cosmic_bwarden.CipherString.Mac.{decrypt-encrypt}
use cosmic_bwarden.Generator.{StoredEntry, prune, append}

module _ (c : Crypto) (laws : CryptoLaws c) where
  reparse-decrypt :
      (cs : CipherString) (keys : Keys) (pw : Bytes)
      → decrypt_symmetric c cs keys none ≡ ok pw
      → (new c (display c cs) >>= λ t. decrypt_symmetric c t keys none) ≡ ok pw
  unfolding decrypt_symmetric decrypt_common_symmetric
  reparse-decrypt (symmetric iv ct (some mac)) keys pw h =
      rw (new-display c laws (symmetric iv ct (some mac))) h
  reparse-decrypt (symmetric iv ct none) keys pw h = cc
  reparse-decrypt (asymmetric ct) keys pw h = cc

ok_inj {ℓ} : {A : Type ℓ} {x y : A} → ok x ≡ ok y → x ≡ y
ok_inj h = cc

-- The entry that is appended to the history is the last one, after those that are not older than seven days, and its
-- ciphertext is parsed and decrypted back to the password with the same key.
pub append-decrypt :
    (c : Crypto) (laws : CryptoLaws c) (keys : Keys) (now later : ℕ) (iv pw : Bytes)
    (entries written : List StoredEntry)
    → ◌≡◌ {A = ℕ} (length keys.bytes) 64
    → ◌≡◌ {A = ℕ} (length iv) 16
    → append c keys now later iv pw entries ≡ ok written
    → (e : StoredEntry) × (written ≡ prune now entries ++ e ∷ [])
      × (e.created_at ≡ later)
      × ((new c e.ciphertext >>= λ t. decrypt_symmetric c t keys none) ≡ ok pw)
unfolding append
append-decrypt c laws keys now later iv pw entries written hk hi h =
    let a = >>=-eq-ok (encrypt_symmetric c iv keys pw) _ h in
    let d =
      ap (λ o. o >>= λ t. decrypt_symmetric c t keys none) (sym a.1)
      ∙ decrypt-encrypt c laws iv keys pw hk hi in
    (
      record { created_at = later; ciphertext = display c a.0 },
      sym (ok_inj a.2),
      refl,
      reparse-decrypt c laws a.0 keys pw d,
    )

-- Pruning later leaves what pruning earlier and then later leaves: nothing that a later reader may see is lost.
pub prune-prune :
    (now later : ℕ) (entries : List StoredEntry)
    → now ≤ later
    → prune later (prune now entries) ≡ prune later entries
unfolding prune
prune-prune now later [] h = refl
prune-prune now later (e ∷ es) h = ground (arith, prune-prune now later es h)
