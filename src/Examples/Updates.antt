-- ===== src/Examples/Updates.antt =====
-- An entry that is updated on the server, and what is synced back.
use cosmic_bwarden.Base.{◌≡◌, refl, String, true, none, some, [], ◌∷◌, map, arith, inr}
use cosmic_bwarden.Crypto.{ok}
use cosmic_bwarden.Entry.{Entry, login, hidden, password_reprompt, never}
use cosmic_bwarden.Entry.Decrypt.{decrypt}
use cosmic_bwarden.Wire.{CiphersPutReq, SyncResCipher}
use cosmic_bwarden.Wire.Read.{read_login, to_entry}
use cosmic_bwarden.Encrypt.Texts.{decryptor}
use cosmic_bwarden.Update.{prepare_update}
use cosmic_bwarden.Wire.{CiphersPostReq}
use cosmic_bwarden.Entry.{Login, EntryData}
use cosmic_bwarden.Entry.Decrypt.{decrypt_with, decrypt_data, ssh_fallback}
use cosmic_bwarden.Vault.{item_key}
use cosmic_bwarden.State.{State}
use cosmic_bwarden.Redact.{redact_entry_secrets}
use cosmic_bwarden.Redact.Restore.{Distinct}
use cosmic_bwarden.Update.Added.{Creator}
use cosmic_bwarden.Edit.{edited, sync_ssh_fields, with_login_password}
use cosmic_bwarden.Edit.Unchanged.{Shown, edited-saved, update_password-saved, with_new_password}
use cosmic_bwarden.Update.Saved.{Server, readable, synced_history, saved, update-decrypt}
use cosmic_bwarden.Examples.Data.{times16, zero_keys, opened, db}
use cosmic_bwarden.Examples.Ascii.{ascii, ascii_laws, ascii_texts}

abbrev echoed : String → CiphersPutReq → SyncResCipher
echoed id req = record {
  id = id;
  ty = req.ty;
  folder_id = req.folder_id;
  organization_id = req.organization_id;
  favorite = req.favorite;
  name = req.name;
  login = readable (read_login req.login);
  card = req.card;
  identity = req.identity;
  secure_note = req.secure_note;
  ssh_key = req.ssh_key;
  bank_account = req.bank_account;
  drivers_license = req.drivers_license;
  passport = req.passport;
  notes = req.notes;
  password_history = some (map synced_history req.password_history);
  fields = some req.fields;
  deleted_date = none;
  key = req.key;
  reprompt = req.reprompt;
}

abbrev echo : Server
echo = record {
  reply = echoed;
  stored = λ id req. record {
    same_id = refl;
    same_ty = refl;
    same_folder = refl;
    same_organization = refl;
    same_favorite = refl;
    same_name = refl;
    same_login = refl;
    same_card = refl;
    same_identity = refl;
    same_ssh_key = refl;
    same_bank_account = refl;
    same_drivers_license = refl;
    same_passport = refl;
    same_notes = refl;
    same_history = refl;
    same_fields = refl;
    same_key = refl;
    same_reprompt = refl;
    not_deleted = refl;
  };
}

-- A login in a folder, with a URI that is never to match.
abbrev filed : Entry
filed = record {
  id = "id";
  org_id = none;
  folder = some "work";
  folder_id = some "f";
  name = "site";
  favorite = true;
  content = login (record {
    username = some "ada";
    password = some "pw";
    totp = none;
    uris = record { uri = "https://a.b"; match_type = some never } ∷ [];
  });
  fields = record { ty = some hidden; name = some "pin"; value = some "1"; linked_id = none } ∷ [];
  notes = some "note";
  history = [];
  key = none;
  reprompt = password_reprompt;
}

update-decrypt_example :
    (req : CiphersPutReq) × (prepare_update ascii (λ slot. times16 1) zero_keys (some "user") filed
      ≡ ok ("id", req))
    × (x : Entry) × (to_entry [] (echoed "id" req) ≡ some x)
    × (decrypt (decryptor ascii) zero_keys [] x ≡ saved filed)
update-decrypt_example =
    update-decrypt ascii ascii_laws ascii_texts echo (λ slot. times16 1) [] zero_keys [] "user"
      filed none refl refl (omega arith) (λ slot. refl)

abbrev pub created : CiphersPostReq → SyncResCipher
created req = record {
  id = "new";
  ty = req.ty;
  folder_id = req.folder_id;
  organization_id = none;
  favorite = req.favorite;
  name = req.name;
  login = readable (read_login req.login);
  card = req.card;
  identity = req.identity;
  secure_note = req.secure_note;
  ssh_key = req.ssh_key;
  bank_account = req.bank_account;
  drivers_license = req.drivers_license;
  passport = req.passport;
  notes = req.notes;
  password_history = none;
  fields = some req.fields;
  deleted_date = none;
  key = none;
  reprompt = req.reprompt;
}

abbrev pub creator : Creator
creator = record {
  reply = created;
  created = λ req. record {
    same_ty = refl;
    same_folder = refl;
    no_organization = refl;
    same_favorite = refl;
    same_name = refl;
    same_login = refl;
    same_card = refl;
    same_identity = refl;
    same_ssh_key = refl;
    same_bank_account = refl;
    same_drivers_license = refl;
    same_passport = refl;
    same_notes = refl;
    no_history = refl;
    same_fields = refl;
    no_key = refl;
    same_reprompt = refl;
    not_deleted = refl;
  };
}

-- As it is stored: the password is the ciphertext of a single character.
abbrev stored_login : Entry
stored_login = record filed {
  content = login (record {
    username = none;
    password = some "2.bbbbbbbbbbbbbbbb|aaaaaaaaaab|bbbbbbbbbbbbbbbbbbbbbbbbbbbbbbbb";
    totp = none;
    uris = [];
  });
}

abbrev shown_login : Entry
shown_login = decrypt (decryptor ascii) zero_keys [] stored_login

abbrev holding : State
holding = record opened { db = some (record db { entries = stored_login ∷ [] }) }

shown : Shown (decryptor ascii) holding "id" shown_login
shown = (record db { entries = stored_login ∷ [] }, zero_keys, stored_login, refl, refl, refl, refl)

abbrev OwnKey : Entry → Type 0
OwnKey x = (x.id ≡ "id") × (x.org_id ≡ none) × (x.key ≡ none) × Distinct x.fields

shown_login-OwnKey : OwnKey shown_login
unfolding decrypt decrypt_with
shown_login-OwnKey = (refl, refl, refl, (tt, tt))

same-Shown : Shown (decryptor ascii) holding shown_login.id shown_login
unfolding decrypt decrypt_with
same-Shown = shown

keyless : item_key ascii zero_keys shown_login.key ≡ ok none
keyless = rw shown_login-OwnKey.2 refl

edited-saved_example :
    (req : CiphersPutReq) × (prepare_update ascii
        (λ slot. times16 1)
        zero_keys
        (some "user")
        (edited (decryptor ascii) holding (redact_entry_secrets shown_login))
      ≡ ok (shown_login.id, req))
    × (y : Entry) × (to_entry [] (echoed shown_login.id req) ≡ some y)
    × (decrypt (decryptor ascii) zero_keys [] y
        ≡ saved (sync_ssh_fields shown_login.content (record shown_login { notes = none })))
edited-saved_example =
    edited-saved ascii ascii_laws ascii_texts echo (λ slot. times16 1) [] zero_keys [] "user"
      holding shown_login none same-Shown shown_login-OwnKey.3 shown_login-OwnKey.1 keyless
      (omega arith) (λ slot. refl)

abbrev login_of : EntryData → Login
login_of (login l) = l
login_of d = record { username = none; password = none; totp = none; uris = [] }

abbrev shown_data : Login
shown_data = login_of shown_login.content

shown_login-login : shown_login.content ≡ login shown_data
unfolding decrypt decrypt_with decrypt_data ssh_fallback
shown_login-login = refl

abbrev renewed_login : Entry
renewed_login = with_new_password "better" shown_data shown_login

update_password-saved_example :
    (with_login_password (decryptor ascii) holding shown_login.id "better" ≡ inr renewed_login)
    × (edited (decryptor ascii) holding renewed_login ≡ renewed_login)
    × (req : CiphersPutReq) × (prepare_update ascii
          (λ slot. times16 1)
          zero_keys
          (some "user")
          (edited (decryptor ascii) holding renewed_login)
        ≡ ok (shown_login.id, req))
    × (y : Entry) × (to_entry [] (echoed shown_login.id req) ≡ some y)
    × (decrypt (decryptor ascii) zero_keys [] y ≡ saved renewed_login)
update_password-saved_example =
    update_password-saved ascii ascii_laws ascii_texts echo (λ slot. times16 1) [] zero_keys []
      "user" holding shown_login none shown_data "better" same-Shown shown_login-login
      shown_login-OwnKey.3 shown_login-OwnKey.1 keyless (omega arith) (λ slot. refl)
