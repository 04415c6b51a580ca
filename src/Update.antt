-- ===== src/Update.antt =====
-- crates/cosmarden-agent/src/server/ops/update.rs: the request that replaces an entry on the server, with
-- `update_cipher` of crates/cosmarden-core/src/api/client/ops.rs. The text that is put around an error is left out.
pub mod Saved
pub mod Added
use cosmic_bwarden.Base.{ℕ, String, Bool, false, Option, none, some, List, [], map, ◌==◌, nat_eq}
use cosmic_bwarden.Crypto.{Crypto, Outcome, ok, err, panic, ◌>>=◌, or_err, other}
use cosmic_bwarden.CipherString.{Keys, effective}
use cosmic_bwarden.Vault.{item_key}
use cosmic_bwarden.Entry.{Entry, HistoryEntry, CipherRepromptType, no_reprompt}
use cosmic_bwarden.Wire.{CiphersPutReq, CipherField, CipherPasswordHistoryEntry}
use cosmic_bwarden.Encrypt.{
  Ivs, Slot, name, notes, encrypt_text, encrypt, encrypt_fields, Payload, update_payload,
}

-- `reprompt.unwrap_or(CipherRepromptType::None)` and `fields.unwrap_or_default()`
abbrev pub reprompt_or : Option CipherRepromptType → CipherRepromptType
reprompt_or none = no_reprompt
reprompt_or (some r) = r

abbrev pub fields_or : Option (List CipherField) → List CipherField
fields_or none = []
fields_or (some fs) = fs

-- The body of the request of `Client::update_cipher`.
unfoldable pub update_cipher :
    String
    → String
    → Bool
    → Payload
    → Option String
    → Option CipherRepromptType
    → Option (List CipherField)
    → Option String
    → List CipherPasswordHistoryEntry
    → CiphersPutReq
update_cipher user_id name_enc favorite p notes_enc reprompt fields key history = record {
  ty = p.ty;
  encrypted_for = user_id;
  folder_id = none;
  organization_id = none;
  favorite = favorite;
  key = key;
  name = name_enc;
  notes = notes_enc;
  login = p.login;
  card = p.card;
  identity = p.identity;
  fields = fields_or fields;
  secure_note = p.ty == 2;
  ssh_key = p.ssh_key;
  bank_account = p.bank_account;
  drivers_license = p.drivers_license;
  passport = p.passport;
  password_history = history;
  reprompt = reprompt_or reprompt;
}

abbrev pub sent_history : HistoryEntry → CipherPasswordHistoryEntry
sent_history h = record { last_used_date = h.last_used_date; password = h.password }

-- `update_entry_on_server` up to its request: the id in the path, and the body. The keys are the vault's, whatever
-- the organisation of the entry; the user's id is the one in the state.
unfoldable pub prepare_update :
    Crypto → Ivs → Keys → Option String → Entry → Outcome (String × CiphersPutReq)
unfolding update_cipher
prepare_update c ivs keys user_id e = do
  entry_key ← item_key c keys e.key
  let enc = encrypt_text c ivs (effective keys entry_key)
  name_enc ← enc name e.name
  notes_enc ← encrypt enc notes e.notes
  p ← update_payload enc e.content
  fields_enc ← encrypt_fields enc 0 e.fields
  id ← or_err user_id (other "account user id not cached; sync before editing entries")
  ok (
    e.id,
    update_cipher id name_enc e.favorite p notes_enc (some e.reprompt) (some fields_enc) e.key
        (map sent_history e.history),
  )
