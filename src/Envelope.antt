-- ===== src/Envelope.antt =====
-- crates/cosmarden-core/src/session_envelope.rs: the refresh token at rest, under XChaCha20-Poly1305 with a key derived
-- from the vault keys. The AEAD and HKDF are arguments; the random nonce is too.
pub mod Binding
use cosmic_bwarden.Base.{
  ℕ, zero, suc, ◌+◌, ◌*◌, ◌<◌, ◌≤◌, Bool, true, false, not, ◌≡◌, refl, sym, ap, Option, none, some,
  List, [], ◌∷◌, ◌++◌, length, take, drop, if◌then◌else◌, ltb, leb, ◌==◌, nat_eq, arith, codes,
  Bool-cases, inl, inr, length-append, length-take, take-append, drop-append, String,
}
use cosmic_bwarden.Crypto.{
  Bytes, Crypto, Outcome, ok, err, panic, ◌>>=◌, or_err, Error, session_envelope,
  session_envelope_with, >>=-eq-ok, or_err-eq-ok,
}
use cosmic_bwarden.CipherString.{Keys, enc_key, capacity}
use cosmic_bwarden.Identity.{Kdf, ensure}

-- XChaCha20-Poly1305: key, nonce, additional data, and the plaintext or the ciphertext with its tag.
pub record Aead : Type 0 where
  pub encrypt : Bytes → Bytes → Bytes → Bytes → Option Bytes
  pub decrypt : Bytes → Bytes → Bytes → Bytes → Option Bytes

pub record AeadLaws (a : Aead) : Type 0 where
  pub decrypt-encrypt :
      (key nonce aad msg ct : Bytes)
      → a.encrypt key nonce aad msg ≡ some ct
      → a.decrypt key nonce aad ct ≡ some msg
  pub length-encrypt :
      (key nonce aad msg ct : Bytes)
      → a.encrypt key nonce aad msg ≡ some ct
      → ◌≡◌ {A = ℕ} (length ct) (length msg + 16)

abbrev pub envelope_version : ℕ
envelope_version = 1

abbrev pub nonce_len : ℕ
nonce_len = 24

abbrev pub tag_len : ℕ
tag_len = 16

abbrev pub max_envelope_bytes : ℕ
max_envelope_bytes = 16 * 1024

-- The server and the email are their UTF-8 bytes.
unfoldable pub account_aad : Bytes → Bytes → Bytes
account_aad server email = envelope_version ∷ server ++ 0 ∷ email

-- `blob[0]`
abbrev pub first_byte : Bytes → Outcome ℕ
first_byte [] = panic
first_byte (b ∷ bs) = ok b

module _ (c : Crypto) (k : Kdf) (a : Aead) where
  unfoldable pub derive_key : Keys → Outcome Bytes
  derive_key keys = do
    _ ←
        ensure (not (ltb (length keys.bytes) 64))
          (session_envelope "vault keys too short to derive an envelope key")
    prk ← enc_key keys
    or_err (k.hkdf_expand prk (c.to_utf8 "cosmarden session-envelope v1") 32)
        (session_envelope "HKDF expand failed")

  unfoldable pub seal : Keys → Bytes → Bytes → Bytes → Outcome Bytes
  unfolding derive_key
  seal keys plaintext aad nonce = do
    key ← derive_key keys
    ciphertext ←
        or_err (a.encrypt key nonce aad plaintext) (session_envelope "AEAD encryption failed")
    ok (envelope_version ∷ nonce ++ ciphertext)

  unfoldable pub open_envelope : Keys → Bytes → Bytes → Outcome Bytes
  unfolding derive_key
  open_envelope keys blob aad = do
    _ ←
        ensure (not (ltb max_envelope_bytes (length blob)))
          (session_envelope_with "envelope exceeds the 16384-byte cap" (length blob))
    _ ←
        ensure (not (ltb (length blob) (1 + nonce_len + tag_len)))
          (session_envelope_with "envelope truncated" (length blob))
    version ← first_byte blob
    _ ←
        ensure (version == envelope_version)
          (session_envelope_with "unsupported envelope version" version)
    key ← derive_key keys
    plaintext ←
        or_err (a.decrypt key (take nonce_len (drop 1 blob)) aad (drop (1 + nonce_len) blob)) (
          session_envelope
            "envelope authentication failed (wrong account, wrong vault keys, or the file was modified)")
    _ ←
        ensure (leb (length plaintext) capacity)
          (session_envelope_with "decrypted session exceeds the locked buffer" (length plaintext))
    ok plaintext
