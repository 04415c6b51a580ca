-- ===== src/FieldAccess.antt =====
-- crates/cosmarden-core/src/field_access.rs: which rows of the detail view are secret, how one is fetched, and what the
-- copy button copies.
pub mod Loaded
pub mod Reported
use cosmic_bwarden.Base.{
  String, Bool, true, false, not, ◌&&◌, ◌||◌, Option, none, some, List, [], ◌∷◌, any, Text, codes,
  ◌==◌, string_eq, option_eq, if◌then◌else◌,
}
use cosmic_bwarden.Base.Strings.{contains, eq_ignore_ascii_case}
use cosmic_bwarden.Entry.{
  Entry, EntryData, login, card, identity, secure_note, ssh_key, bank_account, drivers_license,
  passport, Field, Secret, is_named,
}
use cosmic_bwarden.Redact.{is_some}
use cosmic_bwarden.Protocol.{
  Response, Message, error, entry, password, totp, plain, SecretAction, get_password, get_totp,
  get_entry,
}

-- `str::to_lowercase` is an argument.
unfoldable pub field_is_secret : (Text → Text) → Text → Bool → Bool
field_is_secret to_lowercase label hidden =
    if not hidden && eq_ignore_ascii_case label (codes "public key")
    then false
    else hidden
      || eq_ignore_ascii_case label (codes "TOTP")
      || contains (to_lowercase label) (codes "password")
      || contains (to_lowercase label) (codes "key")

unfoldable pub on_demand_secret : String → String → Option String → SecretAction
on_demand_secret field id reprompt =
    if field == "Password"
    then get_password id reprompt
    else if field == "TOTP"
    then get_totp id reprompt
    else get_entry id reprompt

pub data OnDemandPayload : Type 0 where
  password_payload totp_payload : Secret → OnDemandPayload
  entry_payload : Entry → OnDemandPayload

pub data Parsed : Type 0 where
  parsed : OnDemandPayload → Parsed
  refused : Message → Parsed
  -- `unexpected response: …`
  unexpected : Response → Parsed

unfoldable pub parse_on_demand_response : String → Response → Parsed
parse_on_demand_response field (password p) =
    if field == "Password" then parsed (password_payload p) else unexpected (password p)
parse_on_demand_response field (totp c) =
    if field == "TOTP" then parsed (totp_payload c) else unexpected (totp c)
parse_on_demand_response field (entry e) =
    if not (field == "Password") && not (field == "TOTP")
    then parsed (entry_payload e)
    else unexpected (entry e)
parse_on_demand_response field (error m) = refused m
parse_on_demand_response field other = unexpected other

-- One arm of the match: the row `key` with a filled slot.
abbrev pub arm : String → String → Option Secret → Bool
arm field key slot = field == key && is_some slot

-- `_ => entry.fields.iter().any(..)`
abbrev pub custom_loaded : String → List Field → Bool
custom_loaded field fs = any (λ f. is_named field f && is_some f.value) fs

unfoldable pub data_loaded : EntryData → String → Bool → Bool
data_loaded (login d) field custom =
    if arm field "Password" d.password then true else if field == "TOTP" then false else custom
data_loaded (ssh_key d) field custom =
    arm field "Private Key" d.private_key || arm field "Public Key" d.public_key || custom
data_loaded (card d) field custom =
    arm field "Card Number" d.number || arm field "Security Code" d.code || custom
data_loaded (bank_account d) field custom =
    arm field "Account Number" d.account_number
    || arm field "Routing Number" d.routing_number
    || arm field "PIN" d.pin
    || arm field "IBAN" d.iban
    || arm field "SWIFT Code" d.swift_code
    || arm field "Branch Number" d.branch_number
    || custom
data_loaded (identity d) field custom =
    arm field "SSN" d.ssn
    || arm field "License Number" d.license_number
    || arm field "Passport Number" d.passport_number
    || custom
data_loaded (drivers_license d) field custom = arm field "License Number" d.license_number || custom
data_loaded (passport d) field custom =
    arm field "Passport Number" d.passport_number
    || arm field "National Identification Number" d.national_identification_number
    || arm field "Date of Birth" d.date_of_birth
    || custom
data_loaded secure_note field custom = custom

unfoldable pub secret_is_loaded : Entry → String → Bool
unfolding data_loaded
secret_is_loaded e field =
    if field == "Notes"
    then is_some e.notes
    else data_loaded e.content field (custom_loaded field e.fields)

-- The value of a filled slot under its row, and otherwise what the later arms give.
abbrev pub pick : String → String → Option Secret → Option String → Option String
pick field key none later = later
pick field key (some v) later = if field == key then some v else later

-- `_ => entry.fields.iter().find_map(..)`
unfoldable pub custom_plaintext : String → List Field → Option String
custom_plaintext field [] = none
custom_plaintext field (f ∷ fs) =
    let rest = custom_plaintext field fs in
    if is_named field f && is_some f.value then f.value else rest

unfoldable pub data_plaintext : EntryData → String → Option String → Option String
data_plaintext (login d) field custom = pick field "Password" d.password custom
data_plaintext (ssh_key d) field custom =
    pick field "Private Key" d.private_key (pick field "Public Key" d.public_key custom)
data_plaintext (card d) field custom =
    pick field "Card Number" d.number (pick field "Security Code" d.code custom)
data_plaintext (bank_account d) field custom = pick field "Account Number" d.account_number (
    pick field "Routing Number" d.routing_number (
      pick field "PIN" d.pin (
        pick field "IBAN" d.iban (
          pick field "SWIFT Code" d.swift_code
            (pick field "Branch Number" d.branch_number custom)))))
data_plaintext (identity d) field custom = pick field "SSN" d.ssn (
    pick field "License Number" d.license_number
      (pick field "Passport Number" d.passport_number custom))
data_plaintext (drivers_license d) field custom =
    pick field "License Number" d.license_number custom
data_plaintext (passport d) field custom = pick field "Passport Number" d.passport_number (
    pick field "National Identification Number" d.national_identification_number
      (pick field "Date of Birth" d.date_of_birth custom))
data_plaintext secure_note field custom = custom

unfoldable pub field_plaintext : Entry → String → Option String
unfolding data_plaintext custom_plaintext
field_plaintext e field =
    if field == "Notes"
    then e.notes
    else data_plaintext e.content field (custom_plaintext field e.fields)
