-- ===== src/CipherString/Mac.antt =====
-- Encryption against decryption, and the MAC that is verified before anything is decrypted.
use cosmic_bwarden.Base.{
  ℕ, ◌≤◌, Option, none, some, ◌++◌, ◌≡◌, ◌≢◌, refl, ap, arith, length, take, drop, ==_iff, list_eq,
  nat_eq, length-take,
}
use cosmic_bwarden.Crypto.{
  Bytes, Crypto, CryptoLaws, Outcome, ok, err, panic, ◌>>=◌, >>=-eq-ok, invalid_mac,
}
use cosmic_bwarden.CipherString.{
  CipherString, symmetric, asymmetric, Keys, effective, enc_key, mac_key, encrypt_symmetric,
  decrypt_symmetric, decrypt_common_symmetric,
}

pub enc_key-eq : (k : Keys) → 64 ≤ length k.bytes → enc_key k ≡ ok (take 32 k.bytes)
unfolding enc_key
enc_key-eq k h = ground arith

pub mac_key-eq : (k : Keys) → 64 ≤ length k.bytes → mac_key k ≡ ok (take 32 (drop 32 k.bytes))
unfolding mac_key
mac_key-eq k h = ground arith

-- What `encrypt_symmetric` makes is decrypted by the same keys to the plaintext, for every plaintext, when the keys
-- have their 64 bytes and the iv its 16.
pub decrypt-encrypt :
    (c : Crypto) (laws : CryptoLaws c) (iv : Bytes) (keys : Keys) (p : Bytes)
    → ◌≡◌ {A = ℕ} (length keys.bytes) 64
    → ◌≡◌ {A = ℕ} (length iv) 16
    → (encrypt_symmetric c iv keys p >>= λ cs. decrypt_symmetric c cs keys none) ≡ ok p
unfolding encrypt_symmetric decrypt_symmetric
decrypt-encrypt c laws iv keys p hk hi =
    let ek : Bytes = take 32 keys.bytes in
    let mk : Bytes = take 32 (drop 32 keys.bytes) in
    let ct : Bytes = c.cbc_encrypt ek iv p in
    ground (
      arith,
      enc_key-eq keys,
      mac_key-eq keys,
      length-take 32 keys.bytes,
      laws.length-hmac mk (iv ++ ct),
      ==_iff (c.hmac_sha256 mk (iv ++ ct)) (c.hmac_sha256 mk (iv ++ ct)),
      laws.decrypt-encrypt ek iv p,
    )

-- A decryptor is handed out only where the MAC was verified.
common-authentic_key :
    (c : Crypto) (keys : Keys) (iv ct mac : Bytes) (r : Bytes × Bytes) (mk : Outcome Bytes)
    → mac_key keys ≡ mk
    → decrypt_common_symmetric c keys iv ct (some mac) ≡ ok r
    → (k : Bytes) × (mac ≡ c.hmac_sha256 k (iv ++ ct)) × (mac_key keys ≡ ok k)
unfolding decrypt_common_symmetric
common-authentic_key c keys iv ct mac r (ok k) e h =
    (k, ground (arith, ==_iff (c.hmac_sha256 k (iv ++ ct)) mac), ground arith)
common-authentic_key c keys iv ct mac r (err x) e h = ground arith
common-authentic_key c keys iv ct mac r panic e h = ground arith

pub common-authentic :
    (c : Crypto) (keys : Keys) (iv ct : Bytes) (mac : Option Bytes) {r : Bytes × Bytes}
    → decrypt_common_symmetric c keys iv ct mac ≡ ok r
    → (k : Bytes) × (mac ≡ some (c.hmac_sha256 k (iv ++ ct))) × (mac_key keys ≡ ok k)
unfolding decrypt_common_symmetric
common-authentic c keys iv ct none h = cc
common-authentic c keys iv ct (some mac) {r} h =
    let a = common-authentic_key c keys iv ct mac r _ refl h in (a.0, ap some a.1, a.2)

module _ (c : Crypto) where
  -- A decryption that succeeds was given a symmetric cipherstring whose MAC is the HMAC of iv and ciphertext under
  -- the MAC half of the key that was used: the entry's own key if it has one, else the vault's.
  pub decrypt-authentic :
      (cs : CipherString) (keys : Keys) (entry_key : Option Keys) (p : Bytes)
      → decrypt_symmetric c cs keys entry_key ≡ ok p
      → (iv ct mk : Bytes) × (cs ≡ symmetric iv ct (some (c.hmac_sha256 mk (iv ++ ct))))
        × (mac_key (effective keys entry_key) ≡ ok mk)
  unfolding decrypt_symmetric
  decrypt-authentic (asymmetric ct) keys ek p h = cc
  decrypt-authentic (symmetric iv ct mac) keys ek p h =
      let b = >>=-eq-ok (decrypt_common_symmetric c (effective keys ek) iv ct mac) _ h in
      let a = common-authentic c (effective keys ek) iv ct mac b.1 in
      (iv, ct, a.0, ap (symmetric iv ct) a.1, a.2)

  -- A MAC of the right length that is not the HMAC of iv and ciphertext is refused as such, whatever the ciphertext
  -- would decrypt to: bad padding and good padding look alike.
  pub decrypt-tampered :
      (iv ct mac mk : Bytes) (keys : Keys) (entry_key : Option Keys)
      → mac_key (effective keys entry_key) ≡ ok mk
      → ◌≡◌ {A = ℕ} (length mac) 32
      → c.hmac_sha256 mk (iv ++ ct) ≢ mac
      → decrypt_symmetric c (symmetric iv ct (some mac)) keys entry_key ≡ err invalid_mac
  unfolding decrypt_symmetric
  decrypt-tampered iv ct mac mk keys ek hm hl hne =
      ground (arith, ==_iff (c.hmac_sha256 mk (iv ++ ct)) mac)

  -- A MAC of another length than 32 bytes, which the parser accepts, makes the decryption panic under every key of
  -- at least 64 bytes.
  pub decrypt-short_mac :
      (iv ct mac : Bytes) (keys : Keys) (entry_key : Option Keys)
      → 64 ≤ length (effective keys entry_key).bytes
      → length mac ≢ 32
      → decrypt_symmetric c (symmetric iv ct (some mac)) keys entry_key ≡ panic
  unfolding decrypt_symmetric
  decrypt-short_mac iv ct mac keys ek hk hl = ground (arith, mac_key-eq (effective keys ek))
