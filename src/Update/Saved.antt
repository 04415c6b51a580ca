-- ===== src/Update/Saved.antt =====
-- What an entry is after it was sent to the server as an update and synced back.
use cosmic_bwarden.Base.{
  ℕ, ◌≤◌, String, Option, none, some, List, [], ◌∷◌, map, ◌≡◌, refl, ap, length,
}
use cosmic_bwarden.Crypto.{Crypto, CryptoLaws, Outcome, ok}
use cosmic_bwarden.CipherString.{Keys, effective}
use cosmic_bwarden.Vault.{item_key}
use cosmic_bwarden.Entry.{
  Entry, EntryData, login, card, identity, secure_note, ssh_key, bank_account, drivers_license,
  passport, HistoryEntry,
}
use cosmic_bwarden.Entry.Decrypt.{
  OrgKeys, decrypt, decrypt_with, entry_keys, decrypt_data, ssh_fallback, or_keep,
}
use cosmic_bwarden.Wire.{
  CipherLogin, SyncResCipher, SyncResFolder, SyncResPasswordHistory, CiphersPutReq,
  CipherPasswordHistoryEntry,
}
use cosmic_bwarden.Wire.Read.{
  to_entry, to_data, read_login, entry_history, folder_of, entry_field, to_login, to_card,
  to_identity, to_ssh_key, to_bank_account, to_drivers_license, to_passport,
}
use cosmic_bwarden.Encrypt.{Ivs, Slot, encrypt_text, Payload, empty_payload, update_payload}
use cosmic_bwarden.Encrypt.Seal.{
  Seals, by_domain, login_back, card_back, identity_back, ssh_key_back, bank_account_back,
  drivers_license_back, passport_back, encrypt-eq, opt_keep-seal, fields_back, seal_opt,
}
use cosmic_bwarden.Encrypt.Texts.{TextLaws, decryptor, encrypt_text-Seals}
use cosmic_bwarden.Update.{prepare_update, update_cipher, sent_history}

abbrev pub readable : Option (Option CipherLogin) → Option CipherLogin
readable none = none
readable (some l) = l

abbrev pub synced_history : CipherPasswordHistoryEntry → SyncResPasswordHistory
synced_history h = record { password = some h.password; last_used_date = h.last_used_date }

-- `PUT /ciphers/{id}` replaces the whole cipher: the next sync has what the body said. So every field is assumed to be
-- kept under the key that it is sent with, `linked_id` of a custom field among them, which goes out and is read in
-- snake case, and the types 6 to 8 to be accepted, which not every server does yet. The date of a past password is
-- sent as `lastUsedDate` and assumed to come back as `last_used_date`, the only key that it is read under.
pub record Stored (id : String) (req : CiphersPutReq) (r : SyncResCipher) : Type 0 where
  pub same_id : r.id ≡ id
  pub same_ty : r.ty ≡ req.ty
  pub same_folder : r.folder_id ≡ req.folder_id
  pub same_organization : r.organization_id ≡ req.organization_id
  pub same_favorite : r.favorite ≡ req.favorite
  pub same_name : r.name ≡ req.name
  pub same_login : r.login ≡ readable (read_login req.login)
  pub same_card : r.card ≡ req.card
  pub same_identity : r.identity ≡ req.identity
  pub same_ssh_key : r.ssh_key ≡ req.ssh_key
  pub same_bank_account : r.bank_account ≡ req.bank_account
  pub same_drivers_license : r.drivers_license ≡ req.drivers_license
  pub same_passport : r.passport ≡ req.passport
  pub same_notes : r.notes ≡ req.notes
  pub same_history : r.password_history ≡ some (map synced_history req.password_history)
  pub same_fields : r.fields ≡ some req.fields
  pub same_key : r.key ≡ req.key
  pub same_reprompt : r.reprompt ≡ req.reprompt
  pub not_deleted : r.deleted_date ≡ none

-- What the server answers to a sync after the update, and that it is what was stored.
pub record Server : Type 0 where
  pub reply : String → CiphersPutReq → SyncResCipher
  pub stored : (id : String) (req : CiphersPutReq) → Stored id req (reply id req)

abbrev pub saved_data : EntryData → EntryData
saved_data (login l) = login (record l { uris = map by_domain l.uris })
saved_data (ssh_key s) = ssh_key (record s { fingerprint = none })
saved_data d = d

-- What becomes of an entry: it leaves its folder, its URIs match by domain, an SSH key loses its fingerprint, and the
-- custom fields stand in for a key that is not there.
abbrev pub saved : Entry → Entry
saved e = record e {
  folder = none;
  folder_id = none;
  content = ssh_fallback e.fields (saved_data e.content);
}

-- The part of a response that holds the data of the entry is that of the payload.
record Carries (p : Payload) (r : SyncResCipher) : Type 0 where
  pub ty_eq : r.ty ≡ p.ty
  pub login_eq : r.login ≡ readable (read_login p.login)
  pub card_eq : r.card ≡ p.card
  pub identity_eq : r.identity ≡ p.identity
  pub ssh_key_eq : r.ssh_key ≡ p.ssh_key
  pub bank_account_eq : r.bank_account ≡ p.bank_account
  pub drivers_license_eq : r.drivers_license ≡ p.drivers_license
  pub passport_eq : r.passport ≡ p.passport

-- What a payload is read back as.
abbrev Returns : (String → Option String) → Payload → EntryData → Type 0
Returns d p x =
    (r : SyncResCipher)
    → Carries p r
    → (y : EntryData) × (to_data r ≡ some y) × (decrypt_data d y ≡ x)

module _ (enc : Slot → String → Outcome String) (d : String → Option String) (h : Seals enc d) where
  data_back :
      (x : EntryData) → (p : Payload) × (update_payload enc x ≡ ok p) × Returns d p (saved_data x)
  unfolding update_payload to_data decrypt_data
  data_back (login l) =
      let b = login_back enc d h l in
      (
        record (empty_payload 1) { login = some b.0 },
        rw b.2,
        λ r k. (login (to_login (some b.1)), rw (k.ty_eq, k.login_eq, b.3), ap login b.4),
      )
  data_back (card c) =
      let b = card_back enc d h c in
      (
        record (empty_payload 3) { card = some b.0 },
        rw b.1,
        λ r k. (card (to_card (some b.0)), rw (k.ty_eq, k.card_eq), ap card b.2),
      )
  data_back secure_note = (empty_payload 2, refl, λ r k. (secure_note, rw k.ty_eq, refl))
  data_back (identity i) =
      let b = identity_back enc d h i in
      (
        record (empty_payload 4) { identity = some b.0 },
        rw b.1,
        λ r k. (identity (to_identity (some b.0)), rw (k.ty_eq, k.identity_eq), ap identity b.2),
      )
  data_back (ssh_key s) =
      let b = ssh_key_back enc d h s in
      (
        record (empty_payload 5) { ssh_key = some b.0 },
        rw b.1,
        λ r k. (ssh_key (to_ssh_key (some b.0)), rw (k.ty_eq, k.ssh_key_eq), ap ssh_key b.2),
      )
  data_back (bank_account b') =
      let b = bank_account_back enc d h b' in
      (
        record (empty_payload 6) { bank_account = some b.0 },
        rw b.1,
        λ r k. (
          bank_account (to_bank_account (some b.0)),
          rw (k.ty_eq, k.bank_account_eq),
          ap bank_account b.2,
        ),
      )
  data_back (drivers_license l) =
      let b = drivers_license_back enc d h l in
      (
        record (empty_payload 7) { drivers_license = some b.0 },
        rw b.1,
        λ r k. (
          drivers_license (to_drivers_license (some b.0)),
          rw (k.ty_eq, k.drivers_license_eq),
          ap drivers_license b.2,
        ),
      )
  data_back (passport p) =
      let b = passport_back enc d h p in
      (
        record (empty_payload 8) { passport = some b.0 },
        rw b.1,
        λ r k. (passport (to_passport (some b.0)), rw (k.ty_eq, k.passport_eq), ap passport b.2),
      )

history_back :
    (hs : List HistoryEntry) → entry_history (map synced_history (map sent_history hs)) ≡ hs
history_back [] = refl
history_back (x ∷ hs) = ap (◌∷◌ x) (history_back hs)

Stored-Carries :
    {id : String} {r : SyncResCipher} (req : CiphersPutReq)
    → Stored id req r
    → Carries
        (record {
          ty = req.ty;
          login = req.login;
          ssh_key = req.ssh_key;
          card = req.card;
          identity = req.identity;
          bank_account = req.bank_account;
          drivers_license = req.drivers_license;
          passport = req.passport;
        })
        r
Stored-Carries req k = record {
  ty_eq = k.same_ty;
  login_eq = k.same_login;
  card_eq = k.same_card;
  identity_eq = k.same_identity;
  ssh_key_eq = k.same_ssh_key;
  bank_account_eq = k.same_bank_account;
  drivers_license_eq = k.same_drivers_license;
  passport_eq = k.same_passport;
}

-- The entry that a sync makes of what was stored.
abbrev synced : List SyncResFolder → String → CiphersPutReq → EntryData → Entry
synced folders id req y = record {
  id = id;
  org_id = req.organization_id;
  folder = folder_of folders req.folder_id;
  folder_id = req.folder_id;
  name = req.name;
  favorite = req.favorite;
  content = y;
  fields = map entry_field req.fields;
  notes = req.notes;
  history = entry_history (map synced_history req.password_history);
  key = req.key;
  reprompt = req.reprompt;
}

to_entry-Stored :
    (folders : List SyncResFolder) (id : String) (req : CiphersPutReq) (r : SyncResCipher)
    (y : EntryData)
    → Stored id req r
    → to_data r ≡ some y
    → to_entry folders r ≡ some (synced folders id req y)
unfolding to_entry
to_entry-Stored folders id req r y k h = rw (
  k.not_deleted, h, k.same_id, k.same_organization, k.same_folder, k.same_name, k.same_favorite,
  k.same_fields, k.same_notes, k.same_history, k.same_key, k.same_reprompt,
)

-- The request that updates `e`, sent under the user's id, names the entry `id`, and the next sync decrypts `x` under it.
abbrev pub SavedAs :
    Crypto
    → Server
    → Ivs
    → List SyncResFolder
    → Keys
    → OrgKeys
    → String
    → String
    → Entry
    → Entry
    → Type 0
SavedAs c server ivs folders keys org_keys user_id id e x =
    (req : CiphersPutReq) × (prepare_update c ivs keys (some user_id) e ≡ ok (id, req))
    × (y : Entry) × (to_entry folders (server.reply id req) ≡ some y)
    × (decrypt (decryptor c) keys org_keys y ≡ x)

-- An entry that belongs to no organisation is encrypted and sent, whatever its kind, if the account's id is known, the
-- entry's key can be decrypted, the keys have 64 bytes and the ivs 16; what the next sync then reads and decrypts is the
-- entry, but that it has left its folder, its URIs match by domain, and an SSH key has lost its fingerprint and takes a
-- key that was missing from the custom fields.
pub update-decrypt :
    (c : Crypto) (laws : CryptoLaws c) (texts : TextLaws c) (server : Server) (ivs : Ivs)
    (folders : List SyncResFolder) (keys : Keys) (org_keys : OrgKeys) (user_id : String) (e : Entry)
    (ek : Option Keys)
    → e.org_id ≡ none
    → item_key c keys e.key ≡ ok ek
    → 64 ≤ length (effective keys ek).bytes
    → ((slot : Slot) → ◌≡◌ {A = ℕ} (length (ivs slot)) 16)
    → (req : CiphersPutReq) × (prepare_update c ivs keys (some user_id) e ≡ ok (e.id, req))
      × (x : Entry) × (to_entry folders (server.reply e.id req) ≡ some x)
      × (decrypt (decryptor c) keys org_keys x ≡ saved e)
unfolding prepare_update decrypt decrypt_with entry_keys
update-decrypt c laws texts server ivs folders keys org_keys user_id e ek ho he hk hi =
    let enc : Slot → String → Outcome String = encrypt_text c ivs (effective keys ek) in
    let d : String → Option String = λ s. decryptor c s keys e.key in
    let h : Seals enc d = encrypt_text-Seals c laws texts ivs keys e.key ek he hk hi in
    let b = data_back enc d h e.content in
    let fs = fields_back enc d h e.fields in
    let req : CiphersPutReq =
      update_cipher user_id (h.seal Slot.name e.name) e.favorite b.0
        (seal_opt h.seal Slot.notes e.notes) (some e.reprompt) (some fs.0) e.key
        (map sent_history e.history) in
    let k = server.stored e.id req in
    let y = b.2 (server.reply e.id req) (Stored-Carries req k) in
    (
      req,
      rw (he, h.enc-eq Slot.name e.name, encrypt-eq enc d h Slot.notes e.notes, b.1, fs.1),
      synced folders e.id req y.0,
      to_entry-Stored folders e.id req (server.reply e.id req) y.0 k y.1,
      rw (
        h.decrypt-seal Slot.name e.name,
        or_keep,
        opt_keep-seal enc d h Slot.notes e.notes,
        fs.2,
        y.2,
        history_back e.history,
        ho,
      ),
    )
