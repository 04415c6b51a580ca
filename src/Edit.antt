-- ===== src/Edit.antt =====
-- The handlers that change an entry: `handle_update_entry` and `handle_delete_entry` of
-- crates/cosmarden-agent/src/handler/vault/ops.rs and `handle_update_login_password` of browser_save.rs beside it. The
-- first sections only read the state; what is done once the server has answered is a section of its own.
pub mod Unchanged
use cosmic_bwarden.Base.{String, Option, none, some, find, ◌==◌, string_eq, ◌⊎◌, inl, inr}
use cosmic_bwarden.CipherString.{Keys}
use cosmic_bwarden.Entry.{
  Entry, EntryData, login, ssh_key, FieldType, hidden, text, Secret, set_field,
}
use cosmic_bwarden.Entry.Decrypt.{Decryptor, decrypt}
use cosmic_bwarden.Redact.{merge_redacted_secrets}
use cosmic_bwarden.Protocol.{Response, error, plain, because}
use cosmic_bwarden.State.{State, Db, or_no_keys}
use cosmic_bwarden.Session.{record_failure}

-- `db.entries.iter().find(|e| e.id == id)`
abbrev pub entry_of : String → Db → Option Entry
entry_of id db = find (λ e. e.id == id) db.entries

abbrev pub set_if : String → FieldType → Option Secret → Entry → Entry
set_if n t none e = e
set_if n t (some v) e = set_field e n v t

-- The custom fields that repeat an SSH key.
unfoldable pub sync_ssh_fields : EntryData → Entry → Entry
sync_ssh_fields (ssh_key s) e =
    set_if "public_key" text s.public_key (set_if "private_key" hidden s.private_key e)
sync_ssh_fields d e = e

module _ (d : Decryptor) where
  abbrev pub merge_with : State → Keys → Entry → Option Entry → Entry
  merge_with s keys e none = e
  merge_with s keys e (some stored) =
      merge_redacted_secrets e (decrypt d keys (or_no_keys s.org_keys) stored)

  abbrev pub restore_from : State → Entry → Option Db → Option Keys → Entry
  restore_from s e none keys = e
  restore_from s e (some db) none = e
  restore_from s e (some db) (some keys) = merge_with s keys e (entry_of e.id db)

  -- What `handle_update_entry` sends to the server: the secrets that the incoming entry leaves blank are restored
  -- from the stored one, and the custom fields of an SSH key follow its data.
  unfoldable pub edited : State → Entry → Entry
  unfolding sync_ssh_fields
  edited s e = let m = restore_from s e s.db s.keys in sync_ssh_fields m.content m

  abbrev pub with_password : String → Entry → EntryData → Response ⊎ Entry
  with_password password e (login l) =
      inr (record e { content = login (record l { password = some password }) })
  with_password password e other = inl (error (plain "entry is not a Login"))

  abbrev pub password_in : State → String → String → Keys → Option Entry → Response ⊎ Entry
  password_in s id password keys none = inl (error (plain "entry not found"))
  password_in s id password keys (some e) =
      let x = decrypt d keys (or_no_keys s.org_keys) e in with_password password x x.content

  abbrev pub password_unlocked :
      State → String → String → Option Db → Option Keys → Response ⊎ Entry
  password_unlocked s id password none keys = inl (error (plain "agent is locked"))
  password_unlocked s id password (some db) none = inl (error (plain "agent is locked"))
  password_unlocked s id password (some db) (some keys) =
      password_in s id password keys (entry_of id db)

  -- `handle_update_login_password`: a refusal, or the entry that goes on to `handle_update_entry`.
  unfoldable pub with_login_password : State → String → String → Response ⊎ Entry
  with_login_password s id password = password_unlocked s id password s.db s.keys

-- What `handle_update_entry`, `handle_delete_entry` and `add_entry_to_server` do when the server refuses; once it has
-- accepted, they go on to `handle_sync`.
unfoldable pub refused : String → String → State → Response × State
unfolding record_failure
refused what e s = (error (because what e), record_failure (plain e) s)
