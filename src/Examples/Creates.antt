-- ===== src/Examples/Creates.antt =====
-- Entries that a client adds.
use cosmic_bwarden.Base.{◌≡◌, refl, none, some, List, [], ◌∷◌, inr, arith}
use cosmic_bwarden.Crypto.{ok}
use cosmic_bwarden.Entry.{Entry, Field, text, ssh_key, new_field}
use cosmic_bwarden.Entry.Decrypt.{decrypt, ssh_fallback, or_fallback, last_value}
use cosmic_bwarden.State.{State}
use cosmic_bwarden.Session.{has_email}
use cosmic_bwarden.Wire.{CiphersPostReq}
use cosmic_bwarden.Wire.Read.{to_entry}
use cosmic_bwarden.Encrypt.Texts.{decryptor}
use cosmic_bwarden.Create.{
  AddAction, add_ssh_key, entry_to_add, handle_add_ssh_key, add_entry_to_server,
}
use cosmic_bwarden.Create.Kept.{kept, blank_key, action-decrypt, ssh_key-restored}
use cosmic_bwarden.Examples.Data.{times16, zero_keys, opened}
use cosmic_bwarden.Examples.Ascii.{ascii, ascii_laws, ascii_texts}
use cosmic_bwarden.Examples.Updates.{created, creator}

-- A key without its public half, which is in a custom field of the client.
abbrev own_fields : List Field
own_fields = new_field "public_key" "ssh-ed25519 AAAA" text ∷ []

abbrev laptop : AddAction
laptop = add_ssh_key "laptop" "PRIVATE" none (some "note") own_fields

abbrev laptop_entry : Entry
laptop_entry = handle_add_ssh_key "laptop" "PRIVATE" none (some "note") own_fields

builds : entry_to_add laptop ≡ inr laptop_entry
unfolding entry_to_add
builds = refl

abbrev synced : State
synced = record opened { user_id = some "user" }

action-decrypt_example :
    (req : CiphersPostReq) × (add_entry_to_server ascii
        (λ slot. times16 1)
        (has_email "ada@example.com")
        synced
        laptop_entry
      ≡ inr (ok req))
    × (y : Entry) × (to_entry [] (created req) ≡ some y)
    × (decrypt (decryptor ascii) zero_keys [] y ≡ kept "new" laptop_entry)
action-decrypt_example =
    action-decrypt ascii ascii_laws ascii_texts creator (λ slot. times16 1) [] zero_keys [] "user"
      "ada@example.com" synced laptop laptop_entry builds refl refl (omega arith) (λ slot. refl)

ssh_key-restored_example :
    ssh_fallback laptop_entry.fields (ssh_key blank_key)
    ≡ ssh_key (record {
      private_key = some "PRIVATE";
      public_key = or_fallback none (last_value "public_key" none own_fields);
      fingerprint = none;
    })
ssh_key-restored_example = ssh_key-restored "laptop" "PRIVATE" none (some "note") own_fields
