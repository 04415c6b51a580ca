-- ===== src/Create/Kept.antt =====
-- A client that adds an entry gets that entry back.
use cosmic_bwarden.Base.{
  ℕ, ◌≤◌, String, Option, none, some, List, [], ◌∷◌, ◌++◌, map, ◌≡◌, refl, ap, ◌∙◌, subst, inl, inr,
  length, ◌⊎◌, if◌then◌else◌,
}
use cosmic_bwarden.Crypto.{Crypto, CryptoLaws, ok}
use cosmic_bwarden.CipherString.{Keys}
use cosmic_bwarden.Entry.{
  Entry, EntryData, login, ssh_key, Field, Secret, hidden, text, is_named, new_field, SshKey,
}
use cosmic_bwarden.Entry.Decrypt.{OrgKeys, decrypt, ssh_fallback, last_value, or_fallback}
use cosmic_bwarden.Protocol.{EntryType, Response}
use cosmic_bwarden.State.{State}
use cosmic_bwarden.Session.{has_email}
use cosmic_bwarden.Wire.{CiphersPostReq, SyncResFolder}
use cosmic_bwarden.Wire.Read.{to_entry}
use cosmic_bwarden.Encrypt.{Ivs, Slot}
use cosmic_bwarden.Encrypt.Seal.{by_domain}
use cosmic_bwarden.Encrypt.Texts.{TextLaws, decryptor}
use cosmic_bwarden.Update.Added.{Creator, added}
use cosmic_bwarden.Update.Added.Decrypted.{add-decrypt}
use cosmic_bwarden.Create.{
  AddAction, add_entry, add_secure_note, add_ssh_key, add_card, add_identity, add_bank_account,
  add_drivers_license, add_passport, entry_to_add, handle_add_ssh_key, add_entry_to_server,
}

abbrev pub kept_data : EntryData → EntryData
kept_data (login l) = login (record l { uris = map by_domain l.uris })
kept_data d = d

-- The entry under its new id: its URIs match by domain, and an SSH key that was given without its public half takes it
-- from a custom field of that name.
abbrev pub kept : String → Entry → Entry
kept id e = record e { id = id; content = ssh_fallback e.fields (kept_data e.content) }

module _ (id : String) where
  -- What `added` takes away was not there.
  abbrev IsWhole : Response ⊎ Entry → Type 0
  IsWhole (inl r) = Unit
  IsWhole (inr e) = added id e ≡ kept id e

  entry_to_add-IsWhole : (a : AddAction) → IsWhole (entry_to_add a)
  unfolding entry_to_add
  entry_to_add-IsWhole (add_entry name EntryType.login u p notes fields t us) = refl
  entry_to_add-IsWhole (add_entry name EntryType.secure_note u p notes fields t us) = refl
  entry_to_add-IsWhole (add_entry name _ u p notes fields t us) = tt
  entry_to_add-IsWhole (add_secure_note name notes fields) = refl
  entry_to_add-IsWhole (add_ssh_key name private_key public_key notes fields) = refl
  entry_to_add-IsWhole (add_card name c notes fields) = refl
  entry_to_add-IsWhole (add_identity name i notes fields) = refl
  entry_to_add-IsWhole (add_bank_account name b notes fields) = refl
  entry_to_add-IsWhole (add_drivers_license name l notes fields) = refl
  entry_to_add-IsWhole (add_passport name p notes fields) = refl

last_value-append :
    (n : String) (fallback : Option Secret) (fs gs : List Field)
    → last_value n fallback (fs ++ gs) ≡ last_value n (last_value n fallback fs) gs
unfolding last_value
last_value-append n fallback [] gs = refl
last_value-append n fallback (f ∷ fs) gs =
    last_value-append n (if is_named n f then f.value else fallback) fs gs

abbrev pub blank_key : SshKey
blank_key = record { private_key = none; public_key = none; fingerprint = none }

-- A server that keeps the custom fields of an entry but not its SSH key still gives the key back: it is read from the
-- custom fields that were added with it, whatever fields of the client are before them. A public half that was not given
-- is that of the client's own fields, if they have one.
pub ssh_key-restored :
    (name : String) (private_key : Secret) (public_key : Option String) (notes : Option Secret)
    (fields : List Field)
    → ssh_fallback
        (handle_add_ssh_key name private_key public_key notes fields).fields
        (ssh_key blank_key)
      ≡ ssh_key (record {
        private_key = some private_key;
        public_key = or_fallback public_key (last_value "public_key" none fields);
        fingerprint = none;
      })
unfolding handle_add_ssh_key ssh_fallback last_value
ssh_key-restored name private_key none notes fields = rw (
  last_value-append "private_key" none fields (new_field "private_key" private_key hidden ∷ []),
  last_value-append "public_key" none fields (new_field "private_key" private_key hidden ∷ []),
)
ssh_key-restored name private_key (some pubk) notes fields = rw (
  last_value-append "private_key" none fields
      (new_field "private_key" private_key hidden ∷ new_field "public_key" pubk text ∷ []),
  last_value-append "public_key" none fields
      (new_field "private_key" private_key hidden ∷ new_field "public_key" pubk text ∷ []),
)

-- While the vault is unlocked, the configuration can be read with an email and the account's id is known, every
-- request that adds an entry of a kind that can be added is encrypted and sent, if the vault's keys have their 64
-- bytes and the ivs 16; what the next sync reads and decrypts is the entry that the handler built under the id that
-- the server gave it, where its URIs match by domain and an SSH key that was given without its public half takes it
-- from a custom field of that name.
pub action-decrypt :
    (c : Crypto) (laws : CryptoLaws c) (texts : TextLaws c) (server : Creator) (ivs : Ivs)
    (folders : List SyncResFolder) (keys : Keys) (org_keys : OrgKeys) (user_id m : String)
    (s : State) (a : AddAction) (e : Entry)
    → entry_to_add a ≡ inr e
    → s.keys ≡ some keys
    → s.user_id ≡ some user_id
    → 64 ≤ length keys.bytes
    → ((slot : Slot) → ◌≡◌ {A = ℕ} (length (ivs slot)) 16)
    → (req : CiphersPostReq) × (add_entry_to_server c ivs (has_email m) s e ≡ inr (ok req))
      × (y : Entry) × (to_entry folders (server.reply req) ≡ some y)
      × (decrypt (decryptor c) keys org_keys y ≡ kept (server.reply req).id e)
unfolding add_entry_to_server
action-decrypt c laws texts server ivs folders keys org_keys user_id m s a e ha hs hu hk hi =
    let d = add-decrypt c laws texts server ivs folders keys org_keys user_id e hk hi in
    (
      d.0,
      rw (hs, hu) (ap inr d.1),
      d.2,
      d.3,
      d.4 ∙ subst (IsWhole (server.reply d.0).id) ha (entry_to_add-IsWhole (server.reply d.0).id a),
    )
