-- ===== src/Create.antt =====
-- crates/cosmarden-agent/src/handler/vault/add.rs: the handlers of the requests that add an entry, which build the entry
-- and go on to `add_entry_to_server`, with their dispatch in mod.rs beside it. The text of the type that an entry cannot
-- be added with is left out of its message. What is done when the server refuses is `refused` of Edit.
pub mod Kept
use cosmic_bwarden.Base.{
  String, Bool, false, Option, none, some, List, [], ◌∷◌, ◌++◌, ◌⊎◌, inl, inr,
}
use cosmic_bwarden.Crypto.{Crypto, Outcome}
use cosmic_bwarden.CipherString.{Keys}
use cosmic_bwarden.Entry.{
  Entry, EntryData, login, card, identity, secure_note, ssh_key, bank_account, drivers_license,
  passport, Card, BankAccount, DriversLicense, Passport, Field, Secret, Uri, hidden, text,
  no_reprompt, new_field,
}
use cosmic_bwarden.Protocol.{EntryType, Response, error, plain, because}
use cosmic_bwarden.State.{State}
use cosmic_bwarden.Session.{ConfigRead, unreadable, no_email, has_email}
use cosmic_bwarden.Wire.{CiphersPostReq}
use cosmic_bwarden.Encrypt.{Ivs}
use cosmic_bwarden.Encrypt.Add.{prepare_add}

-- The names and addresses that an identity is added with.
pub record AddIdentity : Type 0 where
  pub first_name : Option String
  pub last_name : Option String
  pub address1 : Option String
  pub city : Option String
  pub state_code : Option String
  pub postal_code : Option String
  pub country : Option String
  pub email : Option String
  pub phone : Option String

-- The variants of `Action` that add an entry: its name, what is of its kind, its notes and its custom fields.
pub data AddAction : Type 0 where
  add_entry :
      String
      → EntryType
      → Option String
      → Option Secret
      → Option Secret
      → List Field
      → Option Secret
      → List Uri
      → AddAction
  add_secure_note : String → Secret → List Field → AddAction
  add_ssh_key : String → Secret → Option String → Option Secret → List Field → AddAction
  add_card : String → Card → Option Secret → List Field → AddAction
  add_identity : String → AddIdentity → Option Secret → List Field → AddAction
  add_bank_account : String → BankAccount → Option Secret → List Field → AddAction
  add_drivers_license : String → DriversLicense → Option Secret → List Field → AddAction
  add_passport : String → Passport → Option Secret → List Field → AddAction

-- The entry that each of the handlers builds of its data.
abbrev pub new_entry : String → EntryData → List Field → Option Secret → Entry
new_entry name data' fields notes = record {
  id = "";
  org_id = none;
  folder = none;
  folder_id = none;
  name = name;
  favorite = false;
  content = data';
  fields = fields;
  notes = notes;
  history = [];
  key = none;
  reprompt = no_reprompt;
}

unfoldable pub handle_add_entry :
    String
    → EntryType
    → Option String
    → Option Secret
    → Option Secret
    → List Field
    → Option Secret
    → List Uri
    → Response ⊎ Entry
handle_add_entry name EntryType.login username password notes fields totp uris = inr (
    new_entry name
      (login (record { username = username; password = password; totp = totp; uris = uris })) fields
      notes)
handle_add_entry name EntryType.secure_note username password notes fields totp uris =
    inr (new_entry name secure_note fields notes)
handle_add_entry name other username password notes fields totp uris =
    inl (error (plain "unsupported entry type for AddEntry"))

-- The custom fields that repeat an SSH key, behind those of the client.
abbrev pub public_field : Option String → List Field
public_field none = []
public_field (some pubk) = new_field "public_key" pubk text ∷ []

unfoldable pub handle_add_ssh_key :
    String → Secret → Option String → Option Secret → List Field → Entry
handle_add_ssh_key name private_key public_key notes fields =
    new_entry name
      (ssh_key
        (record { private_key = some private_key; public_key = public_key; fingerprint = none }))
      (fields ++ new_field "private_key" private_key hidden ∷ public_field public_key) notes

unfoldable pub handle_add_identity : String → AddIdentity → Option Secret → List Field → Entry
handle_add_identity name i notes fields =
    new_entry name
      (identity (record {
        title = none;
        first_name = i.first_name;
        middle_name = none;
        last_name = i.last_name;
        address1 = i.address1;
        address2 = none;
        address3 = none;
        city = i.city;
        state = i.state_code;
        postal_code = i.postal_code;
        country = i.country;
        phone = i.phone;
        email = i.email;
        ssn = none;
        license_number = none;
        passport_number = none;
        username = none;
      }))
      fields notes

-- The dispatch of the requests.
unfoldable pub entry_to_add : AddAction → Response ⊎ Entry
unfolding handle_add_entry handle_add_ssh_key handle_add_identity
entry_to_add (add_entry name ty username password notes fields totp uris) =
    handle_add_entry name ty username password notes fields totp uris
entry_to_add (add_secure_note name notes fields) =
    handle_add_entry name EntryType.secure_note none none (some notes) fields none []
entry_to_add (add_ssh_key name private_key public_key notes fields) =
    inr (handle_add_ssh_key name private_key public_key notes fields)
entry_to_add (add_card name c notes fields) = inr (new_entry name (card c) fields notes)
entry_to_add (add_identity name i notes fields) = inr (handle_add_identity name i notes fields)
entry_to_add (add_bank_account name b notes fields) =
    inr (new_entry name (bank_account b) fields notes)
entry_to_add (add_drivers_license name l notes fields) =
    inr (new_entry name (drivers_license l) fields notes)
entry_to_add (add_passport name p notes fields) = inr (new_entry name (passport p) fields notes)

abbrev pub add_unlocked :
    Crypto → Ivs → State → Entry → Option Keys → Response ⊎ Outcome CiphersPostReq
add_unlocked c ivs s e none = inl (error (plain "agent is locked"))
add_unlocked c ivs s e (some keys) = inr (prepare_add c ivs keys s.user_id e)

-- `add_entry_to_server` up to the request to the server, with the configuration.
unfoldable pub add_entry_to_server :
    Crypto → Ivs → ConfigRead → State → Entry → Response ⊎ Outcome CiphersPostReq
add_entry_to_server c ivs (unreadable e) s x = inl (error (because "failed to load config: " e))
add_entry_to_server c ivs cfg s x = add_unlocked c ivs s x s.keys
