-- ===== src/Crypto.antt =====
-- What the program takes from other crates and from Rust's Unicode tables: base64, HMAC-SHA256,
-- AES-256-CBC with PKCS#7 padding, RSA-OAEP and UTF-8. The definitions that use it have it as an
-- argument; `CryptoLaws` is the documented behaviour that some theorems rely on.
-- `Outcome` is the result of code that may return an error or panic
-- (crates/cosmarden-core/src/error.rs has the errors).
use Prim.Native.String.{String}
use cosmic_bwarden.Base.{ℕ, List, Option, none, some, Bool, ◌≡◌, refl, length, Text}
use cosmic_bwarden.Base.Strings.{Without}

abbrev pub Bytes : Type 0
Bytes = List ℕ

pub record Crypto : Type 0 where
  pub base64_encode : Bytes → Text
  pub base64_decode : Text → Option Bytes
  -- key, message
  pub hmac_sha256 : Bytes → Bytes → Bytes
  -- key, iv, plaintext
  pub cbc_encrypt : Bytes → Bytes → Bytes → Bytes
  -- key, iv, ciphertext: the plaintext, if the length and the padding are right
  pub cbc_decrypt : Bytes → Bytes → Bytes → Option Bytes
  -- the same, but the whole buffer that an in-place decryption leaves, its padding included
  pub cbc_decrypt_in_place : Bytes → Bytes → Bytes → Bytes
  -- is this the PKCS#8 encoding of an RSA key?
  pub is_pkcs8 : Bytes → Bool
  -- PKCS#8 key, ciphertext
  pub rsa_oaep_decrypt : Bytes → Bytes → Option Bytes
  pub from_utf8 : Bytes → Option String
  pub to_utf8 : String → Bytes
  -- a text as the `String` that its code points spell
  pub to_string : Text → String

pub record CryptoLaws (c : Crypto) : Type 0 where
  pub decode-encode : (b : Bytes) → c.base64_decode (c.base64_encode b) ≡ some b
  pub encode-no-dot : (b : Bytes) → Without b'.' (c.base64_encode b)
  pub encode-no-bar : (b : Bytes) → Without b'|' (c.base64_encode b)
  pub length-hmac : (k m : Bytes) → ◌≡◌ {A = ℕ} (length (c.hmac_sha256 k m)) 32
  pub decrypt-encrypt :
      (k iv p : Bytes)
      → ◌≡◌ {A = ℕ} (length k) 32
      → ◌≡◌ {A = ℕ} (length iv) 16
      → c.cbc_decrypt k iv (c.cbc_encrypt k iv p) ≡ some p

-- The texts of `InvalidCipherString`.
pub data Reason : Type 0 where
  no_type expected_symmetric expected_asymmetric : Reason
  type2_parts : ℕ → Reason

pub data Error : Type 0 where
  invalid_cipher_string : Reason → Error
  unimplemented_type too_old_type : Text → Error
  invalid_base64 invalid_mac create_block_mode decrypt_failed padding rsa rsa_pkcs8 : Error
  other : String → Error
  -- the text around a number that is out of range, and the number
  out_of_range : String → ℕ → Error
  session_envelope : String → Error
  -- the text around a number of bytes or a version, and that number
  session_envelope_with : String → ℕ → Error

pub data Outcome {ℓ} (A : Type ℓ) : Type ℓ where
  ok : A → Outcome A
  err : Error → Outcome A
  panic : Outcome A

infixl 5 ◌>>=◌
abbrev pub ◌>>=◌ {ℓ κ} : {S : Type ℓ} {T : Type κ} → Outcome S → (S → Outcome T) → Outcome T
panic >>= next = panic
err e >>= next = err e
ok s >>= next = next s

-- `?` on a value whose failure is the error `e`.
abbrev pub or_err {ℓ} : {A : Type ℓ} → Option A → Error → Outcome A
or_err none e = err e
or_err (some a) e = ok a

-- A chain that returns had a first step that returned.
pub >>=-eq-ok {ℓ κ} :
    {S : Type ℓ} {T : Type κ} (first : Outcome S) (next : S → Outcome T) {t : T}
    → (first >>= next) ≡ ok t
    → (s : S) × (first ≡ ok s) × (next s ≡ ok t)
>>=-eq-ok panic next h = cc
>>=-eq-ok (err e) next h = cc
>>=-eq-ok (ok s) next h = (s, refl, h)

pub or_err-eq-ok {ℓ} :
    {A : Type ℓ} (o : Option A) (e : Error) {a : A} → or_err o e ≡ ok a → o ≡ some a
or_err-eq-ok none e h = cc
or_err-eq-ok (some a) e h = cc
