-- ===== src/Update/Added/Decrypted.antt =====
-- The whole way of a new entry.
use cosmic_bwarden.Base.{ℕ, ◌≤◌, String, Option, none, some, List, [], map, ◌≡◌, refl, length}
use cosmic_bwarden.Crypto.{Crypto, CryptoLaws, Outcome, ok}
use cosmic_bwarden.CipherString.{Keys, new}
use cosmic_bwarden.Base.Strings.{split}
use cosmic_bwarden.Vault.{decrypt_text}
use cosmic_bwarden.Entry.{Entry, EntryData, no_reprompt}
use cosmic_bwarden.Entry.Decrypt.{OrgKeys, decrypt, decrypt_with, entry_keys, or_keep}
use cosmic_bwarden.Wire.{SyncResCipher, SyncResFolder, CiphersPostReq}
use cosmic_bwarden.Wire.Read.{to_entry, to_data, entry_field}
use cosmic_bwarden.Encrypt.{Ivs, Slot, encrypt_text}
use cosmic_bwarden.Encrypt.Add.{prepare_add}
use cosmic_bwarden.Encrypt.Seal.{Seals, seal_opt, encrypt-eq, opt_keep-seal, fields_back}
use cosmic_bwarden.Encrypt.Texts.{TextLaws, decryptor, encrypt_text-Seals}
use cosmic_bwarden.Update.Added.{Created, Creator, added}
use cosmic_bwarden.Update.Added.Kinds.{data-Adds}

-- The entry that a sync makes of what was created.
abbrev synced_new : String → CiphersPostReq → EntryData → Entry
synced_new id req y = record {
  id = id;
  org_id = none;
  folder = none;
  folder_id = none;
  name = req.name;
  favorite = req.favorite;
  content = y;
  fields = map entry_field req.fields;
  notes = req.notes;
  history = [];
  key = none;
  reprompt = no_reprompt;
}

to_entry-Created :
    (folders : List SyncResFolder) (req : CiphersPostReq) (r : SyncResCipher) (y : EntryData)
    → Created req r
    → req.folder_id ≡ none
    → req.reprompt ≡ no_reprompt
    → to_data r ≡ some y
    → to_entry folders r ≡ some (synced_new r.id req y)
unfolding to_entry
to_entry-Created folders req r y k hf hr h = rw (
  k.not_deleted, h, k.no_organization, k.same_folder, hf, k.same_name, k.same_favorite,
  k.same_fields, k.same_notes, k.no_history, k.no_key, k.same_reprompt, hr,
)

decryptor-blank : (c : Crypto) (keys : Keys) → decryptor c "" keys none ≡ none
unfolding decryptor decrypt_text new split
decryptor-blank c keys = refl

-- A new entry of any kind is encrypted under the vault's keys and sent, if these have their 64 bytes and the ivs 16;
-- what the next sync then reads and decrypts is the entry under the id that the server gave it, but that its URIs match
-- by domain, an identity has kept nine of its parts, an SSH key has lost its fingerprint and takes a key that was
-- missing from the custom fields, and it asks for no reprompt.
pub add-decrypt :
    (c : Crypto) (laws : CryptoLaws c) (texts : TextLaws c) (server : Creator) (ivs : Ivs)
    (folders : List SyncResFolder) (keys : Keys) (org_keys : OrgKeys) (user_id : String) (e : Entry)
    → 64 ≤ length keys.bytes
    → ((slot : Slot) → ◌≡◌ {A = ℕ} (length (ivs slot)) 16)
    → (req : CiphersPostReq) × (prepare_add c ivs keys (some user_id) e ≡ ok req)
      × (y : Entry) × (to_entry folders (server.reply req) ≡ some y)
      × (decrypt (decryptor c) keys org_keys y ≡ added (server.reply req).id e)
unfolding prepare_add decrypt decrypt_with entry_keys
add-decrypt c laws texts server ivs folders keys org_keys user_id e hk hi =
    let enc : Slot → String → Outcome String = encrypt_text c ivs keys in
    let d : String → Option String = λ s. decryptor c s keys none in
    let h : Seals enc d = encrypt_text-Seals c laws texts ivs keys none none refl hk hi in
    let fs = fields_back enc d h e.fields in
    let n : String = h.seal Slot.name e.name in
    let nt : Option String = seal_opt h.seal Slot.notes e.notes in
    let b = data-Adds enc d h (decryptor-blank c keys) user_id n e.favorite nt fs.0 e.content in
    let req : CiphersPostReq = b.1 in
    let k = server.created req in
    let y = b.5 (server.reply req) k in
    (
      req,
      rw (h.enc-eq Slot.name e.name, encrypt-eq enc d h Slot.notes e.notes, b.2, fs.1, b.3),
      synced_new (server.reply req).id req y.0,
      to_entry-Created folders req (server.reply req) y.0 k b.4.folder_eq b.4.reprompt_eq y.1,
      rw (
        b.4.name_eq,
        b.4.favorite_eq,
        b.4.notes_eq,
        b.4.fields_eq,
        h.decrypt-seal Slot.name e.name,
        or_keep,
        opt_keep-seal enc d h Slot.notes e.notes,
        fs.2,
        y.2,
      ),
    )
