-- ===== src/Edit/Unchanged.antt =====
-- What becomes of an entry that a client was shown, changed or left as it was, and sent back.
use cosmic_bwarden.Base.{
  ℕ, ◌≤◌, String, Option, none, some, List, ◌≡◌, refl, ◌∙◌, subst, ap, length, inr,
}
use cosmic_bwarden.Crypto.{Crypto, CryptoLaws, ok}
use cosmic_bwarden.CipherString.{Keys, effective}
use cosmic_bwarden.Vault.{item_key}
use cosmic_bwarden.Entry.{
  Entry, EntryData, login, ssh_key, Login, Secret, FieldType, hidden, text, set_field,
}
use cosmic_bwarden.Entry.Decrypt.{Decryptor, OrgKeys, decrypt}
use cosmic_bwarden.Redact.{redact_entry_secrets, merge_redacted_secrets, merge_data, or_stored}
use cosmic_bwarden.Redact.Restore.{Distinct, merge-redact, merge_self}
use cosmic_bwarden.State.{State, Db, or_no_keys}
use cosmic_bwarden.Wire.{CiphersPutReq, SyncResFolder}
use cosmic_bwarden.Wire.Read.{to_entry}
use cosmic_bwarden.Encrypt.{Ivs, Slot}
use cosmic_bwarden.Encrypt.Texts.{TextLaws, decryptor}
use cosmic_bwarden.Update.{prepare_update}
use cosmic_bwarden.Update.Saved.{Server, SavedAs, saved, update-decrypt}
use cosmic_bwarden.Edit.{
  entry_of, restore_from, edited, sync_ssh_fields, set_if, with_login_password,
}

-- What a client sees of a stored entry while the vault is unlocked.
abbrev pub Shown : Decryptor → State → String → Entry → Type 0
Shown d s id x =
    (db : Db) × (keys : Keys) × (e : Entry) × (s.db ≡ some db)
    × (s.keys ≡ some keys)
    × (entry_of id db ≡ some e)
    × (x ≡ decrypt d keys (or_no_keys s.org_keys) e)

restore-Shown :
    (d : Decryptor) (s : State) (x y : Entry)
    → Shown d s y.id x
    → restore_from d s y s.db s.keys ≡ merge_redacted_secrets y x
restore-Shown d s x y h = rw (h.3, h.4, h.5, h.6)

-- An entry that a client read in bulk and sends back as it was shown goes to the server as it is stored, but for the
-- notes, which are cleared, and for the custom fields that repeat an SSH key: while the vault is unlocked and no two
-- hidden fields share a name.
pub edited-redact :
    (d : Decryptor) (s : State) (x : Entry)
    → Shown d s x.id x
    → Distinct x.fields
    → edited d s (redact_entry_secrets x) ≡ sync_ssh_fields x.content (record x { notes = none })
unfolding edited redact_entry_secrets
edited-redact d s x h hd =
    ap (λ m. sync_ssh_fields m.content m)
      (restore-Shown d s x (redact_entry_secrets x) h ∙ merge-redact x hd)

abbrev pub with_new_password : String → Login → Entry → Entry
with_new_password password l x = record x {
  content = login (record l { password = some password });
}

or_stored_self : (o : Option Secret) → or_stored o o ≡ o
or_stored_self none = refl
or_stored_self (some v) = refl

merge_new_password :
    (password : String) (l : Login) (x : Entry)
    → x.content ≡ login l
    → Distinct x.fields
    → merge_redacted_secrets (with_new_password password l x) x ≡ with_new_password password l x
unfolding merge_redacted_secrets merge_data
merge_new_password password l x hl hd =
    let m = merge_self x hd in
    rw (hl, or_stored_self l.totp, or_stored_self x.key, ap (λ (e : Entry). e.fields) m)

-- What an edit of the custom fields leaves alone.
abbrev SameKey : Entry → Entry → Type 0
SameKey x y = (x.id ≡ y.id) × (x.org_id ≡ y.org_id) × (x.key ≡ y.key)

set_if-SameKey :
    (n : String) (t : FieldType) (o : Option Secret) (e : Entry) → SameKey (set_if n t o e) e
unfolding set_field
set_if-SameKey n t none e = (refl, refl, refl)
set_if-SameKey n t (some v) e = (refl, refl, refl)

sync_ssh_fields-SameKey : (content : EntryData) (e : Entry) → SameKey (sync_ssh_fields content e) e
unfolding sync_ssh_fields
sync_ssh_fields-SameKey (ssh_key s) e =
    let f = set_if-SameKey "private_key" hidden s.private_key e in
    let g =
      set_if-SameKey "public_key" text s.public_key (set_if "private_key" hidden s.private_key e) in
    (g.0 ∙ f.0, g.1 ∙ f.1, g.2 ∙ f.2)
sync_ssh_fields-SameKey _ e = (refl, refl, refl)

-- The whole way of an edit that changes nothing: an entry of no organisation, shown in a bulk read of the unlocked
-- vault and sent back, is what the next sync decrypts, as it was stored but for the notes, the custom fields that
-- repeat an SSH key, and what no update keeps (`saved`). No two hidden fields share a name, the account's id is known,
-- the entry's key can be decrypted, and the keys have 64 bytes and the ivs 16.
pub edited-saved :
    (c : Crypto) (laws : CryptoLaws c) (texts : TextLaws c) (server : Server) (ivs : Ivs)
    (folders : List SyncResFolder) (keys : Keys) (org_keys : OrgKeys) (user_id : String) (s : State)
    (x : Entry) (ek : Option Keys)
    → Shown (decryptor c) s x.id x
    → Distinct x.fields
    → x.org_id ≡ none
    → item_key c keys x.key ≡ ok ek
    → 64 ≤ length (effective keys ek).bytes
    → ((slot : Slot) → ◌≡◌ {A = ℕ} (length (ivs slot)) 16)
    → (req : CiphersPutReq) × (prepare_update c ivs keys
          (some user_id)
          (edited (decryptor c) s (redact_entry_secrets x))
        ≡ ok (x.id, req))
      × (y : Entry) × (to_entry folders (server.reply x.id req) ≡ some y)
      × (decrypt (decryptor c) keys org_keys y
          ≡ saved (sync_ssh_fields x.content (record x { notes = none })))
edited-saved c laws texts server ivs folders keys org_keys user_id s x ek h hd ho he hk hi =
    let e : Entry = record x { notes = none } in
    let z : Entry = sync_ssh_fields x.content e in
    let f = sync_ssh_fields-SameKey x.content e in
    let u =
      update-decrypt c laws texts server ivs folders keys org_keys user_id z ek (f.1 ∙ ho)
        (rw f.2 he) hk hi in
    rw (edited-redact (decryptor c) s x h hd)
      (subst (λ id. SavedAs c server ivs folders keys org_keys user_id id z (saved z)) f.0 u)

new_password-edited :
    (d : Decryptor) (s : State) (x : Entry) (l : Login) (password : String)
    → Shown d s x.id x
    → x.content ≡ login l
    → Distinct x.fields
    → (with_login_password d s x.id password ≡ inr (with_new_password password l x))
      × (edited d s (with_new_password password l x) ≡ with_new_password password l x)
unfolding edited with_login_password sync_ssh_fields
new_password-edited d s x l password h hl hd = (
  rw (h.3, h.4, h.5, ← h.6, hl),
  ap (λ m. sync_ssh_fields m.content m)
      (restore-Shown d s x (with_new_password password l x) h
        ∙ merge_new_password password l x hl hd),
)

-- The whole way of a new password for a login of no organisation: what goes on to the encryption is the entry as it is
-- stored with that password and nothing else changed, and the next sync decrypts that, but for what no update keeps
-- (`saved`: it leaves its folder and its URIs match by domain). The vault is unlocked, no two hidden fields share a
-- name, the account's id is known, the entry's key can be decrypted, and the keys have 64 bytes and the ivs 16.
pub update_password-saved :
    (c : Crypto) (laws : CryptoLaws c) (texts : TextLaws c) (server : Server) (ivs : Ivs)
    (folders : List SyncResFolder) (keys : Keys) (org_keys : OrgKeys) (user_id : String) (s : State)
    (x : Entry) (ek : Option Keys) (l : Login) (password : String)
    → Shown (decryptor c) s x.id x
    → x.content ≡ login l
    → Distinct x.fields
    → x.org_id ≡ none
    → item_key c keys x.key ≡ ok ek
    → 64 ≤ length (effective keys ek).bytes
    → ((slot : Slot) → ◌≡◌ {A = ℕ} (length (ivs slot)) 16)
    → (with_login_password (decryptor c) s x.id password ≡ inr (with_new_password password l x))
      × (edited (decryptor c) s (with_new_password password l x) ≡ with_new_password password l x)
      × (req : CiphersPutReq) × (prepare_update c ivs keys
            (some user_id)
            (edited (decryptor c) s (with_new_password password l x))
          ≡ ok (x.id, req))
      × (y : Entry) × (to_entry folders (server.reply x.id req) ≡ some y)
      × (decrypt (decryptor c) keys org_keys y ≡ saved (with_new_password password l x))
update_password-saved c laws texts server ivs folders keys org_keys user_id s x ek l password h hl
      hd ho he hk hi =
    let z : Entry = with_new_password password l x in
    let w = new_password-edited (decryptor c) s x l password h hl hd in
    let u = update-decrypt c laws texts server ivs folders keys org_keys user_id z ek ho he hk hi in
    (w.0, w.1, u.0, rw w.1 u.1, u.2, u.3, u.4)
