-- ===== src/Vault.antt =====
-- crates/cosmarden-core/src/vault.rs: unlocking the vault keys and the organisation keys, and the decryption of one
-- text. A `HashMap` of organisation keys is the list of its pairs in the order of iteration.
pub mod Unlock
use cosmic_bwarden.Base.{String, Option, none, some, List, [], ◌∷◌, codes, lookup}
use cosmic_bwarden.Crypto.{
  Bytes, Crypto, Outcome, ok, err, panic, ◌>>=◌, or_err, invalid_mac, other,
}
use cosmic_bwarden.CipherString.{
  CipherString, Keys, new, decrypt_symmetric, decrypt_locked_symmetric, decrypt_locked_asymmetric,
}
use cosmic_bwarden.Entry.Decrypt.{OrgKeys}

module _ (c : Crypto) where
  abbrev pub org_key_loop : Bytes → List (String × String) → Outcome OrgKeys
  org_key_loop pk [] = ok []
  org_key_loop pk ((org_id, protected_org_key) ∷ rest) = do
    pok_cipher ← new c (codes protected_org_key)
    k ← decrypt_locked_asymmetric c pok_cipher pk
    later ← org_key_loop pk rest
    ok ((org_id, record { bytes = k }) ∷ later)

  unfoldable pub decrypt_org_keys : Keys → Option String → List (String × String) → Outcome OrgKeys
  decrypt_org_keys vault_keys none protected_org_keys = ok []
  decrypt_org_keys vault_keys (some ppk) protected_org_keys = do
    ppk_cipher ← new c (codes ppk)
    pk ← decrypt_locked_symmetric c ppk_cipher vault_keys
    org_key_loop pk protected_org_keys

  -- `Err(InvalidMac)` is told as a wrong password; any other error is passed on.
  abbrev pub vault_keys_or : Outcome Bytes → Outcome Keys
  vault_keys_or (ok master_keys) = ok (record { bytes = master_keys })
  vault_keys_or (err invalid_mac) = err (other "Password is incorrect. Try again.")
  vault_keys_or (err e) = err e
  vault_keys_or panic = panic

  unfoldable pub unlock_from_keys :
      Keys → String → Option String → List (String × String) → Outcome (Keys × OrgKeys)
  unfolding decrypt_org_keys
  unlock_from_keys identity_keys protected_key protected_private_key protected_org_keys = do
    cipher ← new c (codes protected_key)
    vault_keys ← vault_keys_or (decrypt_locked_symmetric c cipher identity_keys)
    org_keys ← decrypt_org_keys vault_keys protected_private_key protected_org_keys
    ok (vault_keys, org_keys)

  abbrev pub item_key : Keys → Option String → Outcome (Option Keys)
  item_key keys none = ok none
  item_key keys (some ek) = do
    ek_cipher ← new c (codes ek)
    k ← decrypt_locked_symmetric c ek_cipher keys
    ok (some (record { bytes = k }))

  -- `decrypt`
  unfoldable pub decrypt_text : String → Keys → Option String → Outcome String
  decrypt_text cipherstring keys entry_key = do
    cipher ← new c (codes cipherstring)
    ek ← item_key keys entry_key
    plaintext ← decrypt_symmetric c cipher keys ek
    or_err (c.from_utf8 plaintext) (other "invalid utf8 in decrypted secret")
