-- ===== src/CipherString.antt =====
-- crates/cosmarden-core/src/cipherstring.rs and the key slices of
-- crates/cosmarden-core/src/locked.rs (`Keys::enc_key`, `Keys::mac_key`, the capacity of
-- `locked::Vec`). Slices out of range, a MAC of another length than the digest and a `locked::Vec`
-- that is too small panic in the source, and are `panic` here. HMAC takes keys of every length, so
-- `CreateHmac` does not occur.
pub mod Format
pub mod Mac
use cosmic_bwarden.Base.{
  ℕ, zero, suc, ◌+◌, ◌-◌, Bool, true, false, ◌&&◌, ◌||◌, Option, none, some, List, [], ◌∷◌, ◌++◌,
  length, take, drop, all, leb, ltb, ◌==◌, nat_eq, list_eq, if◌then◌else◌, Text,
}
use cosmic_bwarden.Base.Strings.{split}
use cosmic_bwarden.Crypto.{
  Bytes, Crypto, Outcome, ok, err, panic, ◌>>=◌, or_err, invalid_cipher_string, unimplemented_type,
  too_old_type, invalid_base64, invalid_mac, create_block_mode, decrypt_failed, padding, rsa,
  rsa_pkcs8, no_type, expected_symmetric, expected_asymmetric, type2_parts,
}

pub data CipherString : Type 0 where
  -- iv, ciphertext, mac
  symmetric : Bytes → Bytes → Option Bytes → CipherString
  asymmetric : Bytes → CipherString

pub record Keys : Type 0 where
  pub bytes : Bytes

abbrev pub capacity : ℕ
capacity = 4096

-- `locked::Vec::extend` on an empty buffer.
abbrev pub locked_vec : Bytes → Outcome Bytes
locked_vec b = if leb (length b) capacity then ok b else panic

unfoldable pub enc_key : Keys → Outcome Bytes
enc_key k = if leb 32 (length k.bytes) then ok (take 32 k.bytes) else panic

unfoldable pub mac_key : Keys → Outcome Bytes
mac_key k = if leb 64 (length k.bytes) then ok (take 32 (drop 32 k.bytes)) else panic

-- `ty.len() != 1 || !ty[0].is_ascii_digit()`, and the digit's value.
abbrev pub type_digit : Text → Option ℕ
type_digit [] = none
type_digit (d ∷ []) = if leb b'0' d && leb d b'9' then some (d - 48) else none
type_digit (d ∷ _ ∷ _) = none

-- `contents.split('|').next().unwrap()`
abbrev pub first_part : List Text → Text
first_part [] = []
first_part (w ∷ ws) = w

-- `pkcs7_unpad`
unfoldable pub pkcs7_unpad : Bytes → Option Bytes
pkcs7_unpad b = elim (drop (length b - 1) b) [
  | [] ↦ none
  | n ∷ _ ↦
      if n == 0
      then none
      else if ltb (length b) n
      then none
      else if all (λ x. x == n) (drop (length b - n) b)
      then some (take (length b - n) b)
      else none
]

-- `entry_key.unwrap_or(keys)`
abbrev pub effective : Keys → Option Keys → Keys
effective keys none = keys
effective keys (some k) = k

module _ (c : Crypto) where
  -- The arms of `CipherString::new` for type 2, and for types 4 and 6.
  unfoldable pub new_symmetric : List Text → Outcome CipherString
  new_symmetric (iv ∷ ct ∷ mac ∷ []) = do
    iv' ← or_err (c.base64_decode iv) invalid_base64
    ct' ← or_err (c.base64_decode ct) invalid_base64
    mac' ← or_err (c.base64_decode mac) invalid_base64
    ok (symmetric iv' ct' (some mac'))
  new_symmetric parts = err (invalid_cipher_string (type2_parts (length parts)))

  unfoldable pub new_asymmetric : List Text → Outcome CipherString
  new_asymmetric parts = do
    ct ← or_err (c.base64_decode (first_part parts)) invalid_base64
    ok (asymmetric ct)

  unfoldable pub new_typed : Text → Option ℕ → Text → Outcome CipherString
  unfolding new_symmetric new_asymmetric
  new_typed ty none contents = err (unimplemented_type ty)
  new_typed ty (some n) contents =
      if n == 2
      then new_symmetric (split b'|' contents)
      else if n == 4 || n == 6
      then new_asymmetric (split b'|' contents)
      else if ltb n 6
      then err (too_old_type ty)
      else err (unimplemented_type ty)

  unfoldable pub new_parts : List Text → Outcome CipherString
  unfolding new_typed
  new_parts (ty ∷ contents ∷ []) = new_typed ty (type_digit ty) contents
  new_parts _ = err (invalid_cipher_string no_type)

  unfoldable pub new : Text → Outcome CipherString
  unfolding new_parts split
  new s = new_parts (split b'.' s)

  -- `Display`
  unfoldable pub display : CipherString → Text
  display (symmetric iv ct (some mac)) =
      b'2'
      ∷ b'.'
      ∷ (c.base64_encode iv ++ b'|' ∷ (c.base64_encode ct ++ b'|' ∷ c.base64_encode mac))
  display (symmetric iv ct none) = b'2' ∷ b'.' ∷ (c.base64_encode iv ++ b'|' ∷ c.base64_encode ct)
  display (asymmetric ct) = b'4' ∷ b'.' ∷ c.base64_encode ct

  -- The random iv of the source is an argument.
  unfoldable pub encrypt_symmetric : Bytes → Keys → Bytes → Outcome CipherString
  encrypt_symmetric iv keys plaintext = do
    ek ← enc_key keys
    let ct = c.cbc_encrypt ek iv plaintext
    mk ← mac_key keys
    ok (symmetric iv ct (some (c.hmac_sha256 mk (iv ++ ct))))

  -- The key and the iv of the decryptor, once the MAC is verified.
  unfoldable pub decrypt_common_symmetric :
      Keys → Bytes → Bytes → Option Bytes → Outcome (Bytes × Bytes)
  decrypt_common_symmetric keys iv ct none = err invalid_mac
  decrypt_common_symmetric keys iv ct (some mac) = do
    mk ← mac_key keys
    _ ← (if length mac == 32 then ok mac else panic)
    _ ← (if c.hmac_sha256 mk (iv ++ ct) == mac then ok mac else err invalid_mac)
    ek ← enc_key keys
    if length iv == 16 then ok (ek, iv) else err create_block_mode

  unfoldable pub decrypt_symmetric : CipherString → Keys → Option Keys → Outcome Bytes
  unfolding decrypt_common_symmetric
  decrypt_symmetric (symmetric iv ct mac) keys entry_key = do
    (ek, iv') ← decrypt_common_symmetric (effective keys entry_key) iv ct mac
    or_err (c.cbc_decrypt ek iv' ct) decrypt_failed
  decrypt_symmetric (asymmetric ct) keys entry_key = err (invalid_cipher_string expected_symmetric)

  unfoldable pub decrypt_locked_symmetric : CipherString → Keys → Outcome Bytes
  unfolding decrypt_common_symmetric
  decrypt_locked_symmetric (symmetric iv ct mac) keys = do
    res ← locked_vec ct
    (ek, iv') ← decrypt_common_symmetric keys iv ct mac
    _ ← or_err (c.cbc_decrypt ek iv' res) decrypt_failed
    ok (c.cbc_decrypt_in_place ek iv' res)
  decrypt_locked_symmetric (asymmetric ct) keys = err (invalid_cipher_string expected_symmetric)

  unfoldable pub decrypt_locked_asymmetric : CipherString → Bytes → Outcome Bytes
  unfolding pkcs7_unpad
  decrypt_locked_asymmetric (asymmetric ct) private_key = do
    pk ← or_err (pkcs7_unpad private_key) padding
    _ ← (if c.is_pkcs8 pk then ok pk else err rsa_pkcs8)
    bytes ← or_err (c.rsa_oaep_decrypt pk ct) rsa
    locked_vec bytes
  decrypt_locked_asymmetric (symmetric iv ct mac) private_key =
      err (invalid_cipher_string expected_asymmetric)
