-- ===== src/Examples/Ciphers.antt =====
-- The cipherstrings, the unlock, the envelope and the generator on small inputs.
use cosmic_bwarden.Base.{
  ℕ, ◌+◌, ◌≤◌, ◌≡◌, ◌≢◌, refl, String, true, false, none, some, [], ◌∷◌, ◌++◌, map, length, Text,
  codes, arith, All,
}
use cosmic_bwarden.Base.Strings.{Without, trim}
use cosmic_bwarden.Crypto.{Bytes, ok, err, panic, ◌>>=◌, invalid_mac}
use cosmic_bwarden.CipherString.{
  symmetric, Keys, new, enc_key, decrypt_locked_symmetric, display, encrypt_symmetric,
  decrypt_symmetric, mac_key, capacity, effective,
}
use cosmic_bwarden.CipherString.Format.{new-display}
use cosmic_bwarden.CipherString.Mac.{
  decrypt-encrypt, decrypt-authentic, decrypt-tampered, decrypt-short_mac,
}
use cosmic_bwarden.Vault.{unlock_from_keys}
use cosmic_bwarden.Vault.Unlock.{unlock_sound}
use cosmic_bwarden.State.{pbkdf2}
use cosmic_bwarden.Identity.{Identity, new_identity}
use cosmic_bwarden.Envelope.{seal, open_envelope}
use cosmic_bwarden.Envelope.Binding.{account_aad_inj, open-seal}
use cosmic_bwarden.Protocol.{GeneratorSettings}
use cosmic_bwarden.Generator.{generate_password, pools_of, append, StoredEntry, flatten}
use cosmic_bwarden.Generator.Classes.{generate-HasClasses, HasOneOf, AreIn}
use cosmic_bwarden.Examples.Data.{
  crypto, crypto_laws, aead, aead_laws, rng, rng_laws, kdf, zero_keys, times16, times32,
}

new-display_example :
    new crypto (display crypto (symmetric (times16 1) (5 ∷ []) (some (times32 9))))
    ≡ ok (symmetric (times16 1) (5 ∷ []) (some (times32 9)))
new-display_example =
    new-display crypto crypto_laws (symmetric (times16 1) (5 ∷ []) (some (times32 9)))

decrypt-encrypt_example :
    (encrypt_symmetric crypto (times16 1) zero_keys (5 ∷ 6 ∷ []) >>= λ cs.
    decrypt_symmetric crypto cs zero_keys none)
    ≡ ok (5 ∷ 6 ∷ [])
decrypt-encrypt_example =
    decrypt-encrypt crypto crypto_laws (times16 1) zero_keys (5 ∷ 6 ∷ []) refl refl

zero_mac_key : mac_key (effective zero_keys none) ≡ ok (times32 0)
unfolding mac_key
zero_mac_key = refl

other_mac : crypto.hmac_sha256 (times32 0) (times16 1 ++ 5 ∷ []) ≢ times32 9
other_mac = ground arith

decrypt-tampered_example :
    decrypt_symmetric crypto (symmetric (times16 1) (5 ∷ []) (some (times32 9))) zero_keys none
    ≡ err invalid_mac
decrypt-tampered_example =
    decrypt-tampered crypto (times16 1) (5 ∷ []) (times32 9) (times32 0) zero_keys none zero_mac_key
      refl other_mac

decrypted :
    decrypt_symmetric crypto (symmetric (times16 0) (5 ∷ []) (some (times32 5))) zero_keys none
    ≡ ok (5 ∷ [])
unfolding decrypt_symmetric mac_key enc_key
decrypted = refl

decrypt-authentic_example :
    (iv ct mk : Bytes) × (symmetric (times16 0) (5 ∷ []) (some (times32 5))
      ≡ symmetric iv ct (some (crypto.hmac_sha256 mk (iv ++ ct))))
    × (mac_key (effective zero_keys none) ≡ ok mk)
decrypt-authentic_example =
    decrypt-authentic crypto (symmetric (times16 0) (5 ∷ []) (some (times32 5))) zero_keys none
      (5 ∷ []) decrypted

long_enough : 64 ≤ length (effective zero_keys none).bytes
long_enough = omega arith

one_not_32 : length {A = ℕ} (9 ∷ []) ≢ 32
one_not_32 = omega arith

decrypt-short_mac_example :
    decrypt_symmetric crypto (symmetric (times16 1) (5 ∷ []) (some (9 ∷ []))) zero_keys none ≡ panic
decrypt-short_mac_example =
    decrypt-short_mac crypto (times16 1) (5 ∷ []) (9 ∷ []) zero_keys none long_enough one_not_32

abbrev protected : String
protected = "2.aaaaaaaaaaaaaaaa|b|cccccccccccccccccccccccccccccccc"

unlocked : unlock_from_keys crypto zero_keys protected none [] ≡ ok (record { bytes = 0 ∷ [] }, [])
unfolding unlock_from_keys new decrypt_locked_symmetric mac_key enc_key
unlocked = refl

unlock_sound_example :
    (map (λ (p : String × Keys). p.0) [] ≡ [])
    × (iv ct mk : Bytes) × (new crypto (codes protected)
        ≡ ok (symmetric iv ct (some (crypto.hmac_sha256 mk (iv ++ ct)))))
    × (mac_key zero_keys ≡ ok mk)
unlock_sound_example =
    unlock_sound crypto zero_keys protected none [] (record { bytes = 0 ∷ [] }) [] unlocked

abbrev ones : Keys
ones = record { bytes = times32 0 ++ times32 1 }

parsed_protected :
    new crypto (codes protected) ≡ ok (symmetric (times16 0) (0 ∷ []) (some (times32 0)))
unfolding new
parsed_protected = refl

ones-mac_key : mac_key ones ≡ ok (times32 1)
unfolding mac_key
ones-mac_key = refl

small : length {A = ℕ} (0 ∷ []) ≤ capacity
small = omega arith

wrong_mac : crypto.hmac_sha256 (times32 1) (times16 0 ++ 0 ∷ []) ≢ times32 0
wrong_mac = ground arith

abbrev ada : Identity
ada = record { email = codes "ada@example.com"; keys = zero_keys; master_password_hash = times32 0 }

derived :
    new_identity crypto kdf (λ t. t) " ada@example.com " (codes "pw") pbkdf2 600000 none none
    ≡ ok ada
unfolding new_identity trim
derived = refl

not_zero : Without 0 (7 ∷ 8 ∷ [])
not_zero = (ground arith, (ground arith, tt))

abbrev server : Bytes
server = 7 ∷ 8 ∷ []

abbrev email : Bytes
email = 9 ∷ []

account_aad_inj_example : (server ≡ server) × (email ≡ email)
account_aad_inj_example = account_aad_inj server server email email not_zero not_zero refl

abbrev nonce : Bytes
nonce = times16 1 ++ 1 ∷ 1 ∷ 1 ∷ 1 ∷ 1 ∷ 1 ∷ 1 ∷ 1 ∷ []

abbrev envelope : Bytes
envelope = 1 ∷ nonce ++ times16 0 ++ 5 ∷ []

sealed : seal crypto kdf aead zero_keys (5 ∷ []) (7 ∷ []) nonce ≡ ok envelope
unfolding seal enc_key
sealed = refl

one_fits : length {A = ℕ} (5 ∷ []) ≤ capacity
one_fits = omega arith

open-seal_example : open_envelope crypto kdf aead zero_keys envelope (7 ∷ []) ≡ ok (5 ∷ [])
open-seal_example =
    open-seal crypto kdf aead aead_laws zero_keys (5 ∷ []) (7 ∷ []) nonce envelope refl sealed
      one_fits

abbrev settings : GeneratorSettings
settings = record {
  uppercase = false;
  lowercase = true;
  numbers = true;
  special = false;
  length = 8;
}

generate-HasClasses_example :
    (pw : Text) × (generate_password rng settings ≡ ok pw)
    × (length pw ≡ 8)
    × AreIn (flatten (pools_of settings)) pw
    × All (λ q. HasOneOf q pw) (pools_of settings)
generate-HasClasses_example = generate-HasClasses rng rng_laws settings refl refl

abbrev appended : StoredEntry
appended = record {
  created_at = 9;
  ciphertext = codes "2." ++ map (λ x. x + 200) (times16 1) ++ b'|' ∷ 205 ∷ b'|' ∷ times32 221;
}

written : append crypto zero_keys 8 9 (times16 1) (5 ∷ []) [] ≡ ok (appended ∷ [])
unfolding append encrypt_symmetric display mac_key enc_key
written = refl
