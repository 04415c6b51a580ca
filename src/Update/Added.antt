-- ===== src/Update/Added.antt =====
-- What an entry is after it was added on the server and synced back.
pub mod Kinds
pub mod Decrypted
use cosmic_bwarden.Base.{
  ℕ, ◌≤◌, String, Bool, Option, none, some, List, [], ◌∷◌, map, ◌≡◌, refl, ap, length,
}
use cosmic_bwarden.Crypto.{Crypto, CryptoLaws, Outcome, ok, ◌>>=◌}
use cosmic_bwarden.CipherString.{Keys, new}
use cosmic_bwarden.Vault.{decrypt_text}
use cosmic_bwarden.Entry.{
  Entry, EntryData, login, card, identity, secure_note, ssh_key, bank_account, drivers_license,
  passport, Login, Card, Identity, SshKey, BankAccount, DriversLicense, Passport, Uri,
  CipherRepromptType, no_reprompt,
}
use cosmic_bwarden.Entry.Decrypt.{
  OrgKeys, decrypt, decrypt_with, entry_keys, decrypt_data, decrypt_login, decrypt_identity,
  decrypt_ssh_key, ssh_fallback, or_keep, opt, decrypt_uri,
}
use cosmic_bwarden.Wire.{
  CipherLogin, CipherUri, CipherField, Object, CipherIdentity, SyncResCipher, SyncResFolder,
  CiphersPostReq,
}
use cosmic_bwarden.Wire.Read.{
  to_entry, to_data, read_login, to_login, to_card, to_identity, to_ssh_key, to_bank_account,
  to_drivers_license, to_passport, folder_of, entry_field, uris_or_empty,
}
use cosmic_bwarden.Encrypt.{Ivs, Slot, part, encrypt_text}
use cosmic_bwarden.Encrypt.Add.{
  Parts, no_parts, add_parts, add_login, add_identity_parts, add_ssh_parts, encrypt_some_uris, post,
  add_cipher, add_ssh_key, add_card, add_identity, add_new_type_cipher, prepare_add, or_blank,
}
use cosmic_bwarden.Encrypt.Seal.{
  Seals, by_domain, seal_opt, login_back, card_back, bank_account_back, drivers_license_back,
  passport_back, encrypt-eq, opt-seal, opt_keep-seal, fields_back, encrypt_uris-eq, sealed_uris,
  read_sealed, read_uris-sealed, uris_back,
}
use cosmic_bwarden.Encrypt.Texts.{TextLaws, decryptor, encrypt_text-Seals}
use cosmic_bwarden.Update.Saved.{readable}

-- The server gives the new entry an id and keeps what the body says; it has no key of its own.
-- As for an update, every field is assumed to be kept under the key that it is sent with, and every type to be accepted.
pub record Created (req : CiphersPostReq) (r : SyncResCipher) : Type 0 where
  pub same_ty : r.ty ≡ req.ty
  pub same_folder : r.folder_id ≡ req.folder_id
  pub no_organization : r.organization_id ≡ none
  pub same_favorite : r.favorite ≡ req.favorite
  pub same_name : r.name ≡ req.name
  pub same_login : r.login ≡ readable (read_login req.login)
  pub same_card : r.card ≡ req.card
  pub same_identity : r.identity ≡ req.identity
  pub same_ssh_key : r.ssh_key ≡ req.ssh_key
  pub same_bank_account : r.bank_account ≡ req.bank_account
  pub same_drivers_license : r.drivers_license ≡ req.drivers_license
  pub same_passport : r.passport ≡ req.passport
  pub same_notes : r.notes ≡ req.notes
  pub no_history : r.password_history ≡ none
  pub same_fields : r.fields ≡ some req.fields
  pub no_key : r.key ≡ none
  pub same_reprompt : r.reprompt ≡ req.reprompt
  pub not_deleted : r.deleted_date ≡ none

pub record Creator : Type 0 where
  pub reply : CiphersPostReq → SyncResCipher
  pub created : (req : CiphersPostReq) → Created req (reply req)

abbrev pub added_identity : Identity → Identity
added_identity i = record i {
  title = none;
  middle_name = none;
  address2 = none;
  address3 = none;
  ssn = none;
  license_number = none;
  passport_number = none;
  username = none;
}

abbrev pub added_data : EntryData → EntryData
added_data (login l) = login (record l { uris = map by_domain l.uris })
added_data (identity i) = identity (added_identity i)
added_data (ssh_key s) = ssh_key (record s { fingerprint = none })
added_data d = d

-- What becomes of an entry that is added, once the server has given it an id.
abbrev pub added : String → Entry → Entry
added id e = record e {
  id = id;
  org_id = none;
  folder = none;
  folder_id = none;
  content = ssh_fallback e.fields (added_data e.content);
  history = [];
  key = none;
  reprompt = no_reprompt;
}
