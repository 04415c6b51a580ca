-- ===== src/Encrypt/Texts.antt =====
-- The texts that `encrypt_text` makes are decrypted by `vault::decrypt` (crates/cosmarden-core/src/vault.rs) under the
-- same keys.
use cosmic_bwarden.Base.{
  ℕ, ◌≤◌, String, Option, none, some, ◌++◌, ◌≡◌, ap, arith, length, take, drop, codes, All,
  All-append, ◌<◌, Text, ==_iff, list_eq, nat_eq, length-take,
}
use cosmic_bwarden.Crypto.{Bytes, Crypto, CryptoLaws, Outcome, ok, err, panic}
use cosmic_bwarden.CipherString.{
  CipherString, symmetric, Keys, effective, new, display, encrypt_symmetric, decrypt_symmetric,
  decrypt_common_symmetric,
}
use cosmic_bwarden.CipherString.Mac.{enc_key-eq, mac_key-eq}
use cosmic_bwarden.CipherString.Format.{new-display}
use cosmic_bwarden.Vault.{item_key, decrypt_text}
use cosmic_bwarden.Entry.Decrypt.{Decryptor}
use cosmic_bwarden.Encrypt.{Ivs, Slot, encrypt_text}
use cosmic_bwarden.Encrypt.Seal.{Seals}

-- What the program relies on of Rust's strings and of base64: a text has UTF-8 and is read from it, base64 writes ASCII
-- characters, and an ASCII text is the string of its characters.
pub record TextLaws (c : Crypto) : Type 0 where
  pub from-to_utf8 : (s : String) → c.from_utf8 (c.to_utf8 s) ≡ some s
  pub encode-ascii : (b : Bytes) → All (λ x. x < 128) (c.base64_encode b)
  pub codes-to_string : (t : Text) → All (λ x. x < 128) t → codes (c.to_string t) ≡ t

abbrev pub to_option : Outcome String → Option String
to_option (ok p) = some p
to_option (err e) = none
to_option panic = none

-- `vault::decrypt`, a failure of which the closures of `Entry::decrypt` only log.
unfoldable pub decryptor : Crypto → Decryptor
unfolding decrypt_text
decryptor c s keys entry_key = to_option (decrypt_text c s keys entry_key)

module _ (c : Crypto) (laws : CryptoLaws c) (texts : TextLaws c) where
  abbrev sealed_bytes : Bytes → Keys → Bytes → CipherString
  sealed_bytes iv k p =
      let ct : Bytes = c.cbc_encrypt (take 32 k.bytes) iv p in
      symmetric iv ct (some (c.hmac_sha256 (take 32 (drop 32 k.bytes)) (iv ++ ct)))

  encrypt-sealed :
      (iv : Bytes) (k : Keys) (p : Bytes)
      → 64 ≤ length k.bytes
      → encrypt_symmetric c iv k p ≡ ok (sealed_bytes iv k p)
  unfolding encrypt_symmetric
  encrypt-sealed iv k p h = rw (enc_key-eq k h, mac_key-eq k h)

  decrypt-sealed :
      (iv : Bytes) (keys : Keys) (ek : Option Keys) (p : Bytes)
      → 64 ≤ length (effective keys ek).bytes
      → ◌≡◌ {A = ℕ} (length iv) 16
      → decrypt_symmetric c (sealed_bytes iv (effective keys ek) p) keys ek ≡ ok p
  unfolding decrypt_symmetric decrypt_common_symmetric
  decrypt-sealed iv keys ek p hk hi =
      let k : Keys = effective keys ek in
      let mk : Bytes = take 32 (drop 32 k.bytes) in
      let ct : Bytes = c.cbc_encrypt (take 32 k.bytes) iv p in
      ground (
        arith,
        enc_key-eq k,
        mac_key-eq k,
        length-take 32 k.bytes,
        laws.length-hmac mk (iv ++ ct),
        ==_iff (c.hmac_sha256 mk (iv ++ ct)) (c.hmac_sha256 mk (iv ++ ct)),
        laws.decrypt-encrypt (take 32 k.bytes) iv p,
      )

  display-ascii : (iv ct mac : Bytes) → All (λ x. x < 128) (display c (symmetric iv ct (some mac)))
  unfolding display
  display-ascii iv ct mac = (
    omega arith,
    (
      omega arith,
      All-append _ (c.base64_encode iv) _ (texts.encode-ascii iv) (
        omega arith,
        All-append _ (c.base64_encode ct) _ (texts.encode-ascii ct)
            (omega arith, texts.encode-ascii mac),
      ),
    ),
  )

  abbrev sealed_text : Bytes → Keys → String → String
  sealed_text iv k s = c.to_string (display c (sealed_bytes iv k (c.to_utf8 s)))

  new-sealed_text :
      (iv : Bytes) (k : Keys) (s : String)
      → new c (codes (sealed_text iv k s)) ≡ ok (sealed_bytes iv k (c.to_utf8 s))
  new-sealed_text iv k s =
      rw (texts.codes-to_string _ (display-ascii iv _ _))
        (new-display c laws (sealed_bytes iv k (c.to_utf8 s)))

  module _ (ivs : Ivs) (keys : Keys) (key : Option String) (ek : Option Keys) where
    decrypt_text-sealed :
        (iv : Bytes) (s : String)
        → item_key c keys key ≡ ok ek
        → 64 ≤ length (effective keys ek).bytes
        → ◌≡◌ {A = ℕ} (length iv) 16
        → decrypt_text c (sealed_text iv (effective keys ek) s) keys key ≡ ok s
    unfolding decrypt_text
    decrypt_text-sealed iv s he hk hi = rw (
      new-sealed_text iv (effective keys ek) s,
      he,
      decrypt-sealed iv keys ek (c.to_utf8 s) hk hi,
      texts.from-to_utf8 s,
    )

    encrypt_text-sealed :
        (slot : Slot) (s : String)
        → 64 ≤ length (effective keys ek).bytes
        → encrypt_text c ivs (effective keys ek) slot s
          ≡ ok (sealed_text (ivs slot) (effective keys ek) s)
    unfolding encrypt_text
    encrypt_text-sealed slot s hk =
        rw (encrypt-sealed (ivs slot) (effective keys ek) (c.to_utf8 s) hk)

    -- Under keys of at least 64 bytes, the entry's own or the vault's, and ivs of 16, what `encrypt_text` makes of a
    -- text is decrypted to it.
    pub encrypt_text-Seals :
        item_key c keys key ≡ ok ek
        → 64 ≤ length (effective keys ek).bytes
        → ((slot : Slot) → ◌≡◌ {A = ℕ} (length (ivs slot)) 16)
        → Seals (encrypt_text c ivs (effective keys ek)) (λ s. decryptor c s keys key)
    unfolding decryptor
    encrypt_text-Seals he hk hi = record {
      seal = λ slot s. sealed_text (ivs slot) (effective keys ek) s;
      enc-eq = λ slot s. encrypt_text-sealed slot s hk;
      decrypt-seal = λ slot s. ap to_option (decrypt_text-sealed (ivs slot) s he hk (hi slot));
    }
