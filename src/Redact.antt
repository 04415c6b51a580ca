-- ===== src/Redact.antt =====
-- crates/cosmarden-agent/src/handler/vault/query.rs (`redact_entry_secrets`, `filled_secret_keys`) and
-- crates/cosmarden-agent/src/handler/vault/merge.rs (`merge_redacted_secrets`): what a bulk read hides, how a client
-- learns what was hidden, and how an update fills it in again.
pub mod Slots
pub mod Mirror
pub mod Restore
use cosmic_bwarden.Base.{
  String, Bool, true, false, ◌&&◌, Option, none, some, List, [], ◌∷◌, ◌++◌, map, find, ◌==◌,
  string_eq, option_eq, if◌then◌else◌,
}
use cosmic_bwarden.Entry.{
  Entry, EntryData, login, card, identity, secure_note, ssh_key, bank_account, drivers_license,
  passport, Field, Secret, is_hidden,
}

abbrev pub is_some : Option Secret → Bool
is_some none = false
is_some (some v) = true

unfoldable pub redact_data : EntryData → EntryData
redact_data (login d) = login (record d { password = none; totp = none })
redact_data (card d) = card (record d { number = none; code = none })
redact_data (ssh_key d) = ssh_key (record d { private_key = none })
redact_data (bank_account d) = bank_account (record d {
  account_number = none;
  routing_number = none;
  pin = none;
  iban = none;
  swift_code = none;
  branch_number = none;
})
redact_data (drivers_license d) = drivers_license (record d { license_number = none })
redact_data (passport d) = passport (record d {
  passport_number = none;
  national_identification_number = none;
  date_of_birth = none;
})
redact_data (identity d) =
    identity (record d { ssn = none; license_number = none; passport_number = none })
redact_data secure_note = secure_note

abbrev pub redact_field : Field → Field
redact_field f = if is_hidden f then record f { value = none } else f

unfoldable pub redact_entry_secrets : Entry → Entry
unfolding redact_data
redact_entry_secrets e = record e {
  content = redact_data e.content;
  notes = none;
  fields = map redact_field e.fields;
}

-- `if slot.is_some() { keys.push(key) }` before the later keys.
abbrev pub push_if : Option Secret → String → List String → List String
push_if o key later = if is_some o then key ∷ later else later

unfoldable pub filled_data : EntryData → List String
filled_data (login d) = push_if d.password "Password" (push_if d.totp "TOTP" [])
filled_data (card d) = push_if d.number "Card Number" (push_if d.code "Security Code" [])
filled_data (ssh_key d) = push_if d.private_key "Private Key" []
filled_data (bank_account d) = push_if d.account_number "Account Number" (
    push_if d.routing_number "Routing Number" (
      push_if d.branch_number "Branch Number"
        (push_if d.pin "PIN" (push_if d.swift_code "SWIFT Code" (push_if d.iban "IBAN" [])))))
filled_data (drivers_license d) = push_if d.license_number "License Number" []
filled_data (passport d) = push_if d.passport_number "Passport Number" (
    push_if d.national_identification_number "National Identification Number"
      (push_if d.date_of_birth "Date of Birth" []))
filled_data (identity d) =
    push_if d.ssn "SSN"
      (push_if d.license_number "License Number" (push_if d.passport_number "Passport Number" []))
filled_data secure_note = []

abbrev pub push_name : Option String → List String → List String
push_name none later = later
push_name (some n) later = n ∷ later

unfoldable pub filled_fields : List Field → List String
filled_fields [] = []
filled_fields (f ∷ fs) =
    let rest = filled_fields fs in
    if is_hidden f && is_some f.value then push_name f.name rest else rest

unfoldable pub filled_secret_keys : Entry → List String
unfolding filled_data filled_fields
filled_secret_keys e = filled_data e.content ++ push_if e.notes "Notes" (filled_fields e.fields)

-- `if slot.is_none() { *slot = stored.clone() }`
abbrev pub or_stored : Option Secret → Option Secret → Option Secret
or_stored none stored = stored
or_stored (some v) stored = some v

unfoldable pub merge_data : EntryData → EntryData → EntryData
merge_data (login d) (login s) =
    login (record d { password = or_stored d.password s.password; totp = or_stored d.totp s.totp })
merge_data (card d) (card s) =
    card (record d { number = or_stored d.number s.number; code = or_stored d.code s.code })
merge_data (ssh_key d) (ssh_key s) =
    ssh_key (record d { private_key = or_stored d.private_key s.private_key })
merge_data (bank_account d) (bank_account s) = bank_account (record d {
  account_number = or_stored d.account_number s.account_number;
  routing_number = or_stored d.routing_number s.routing_number;
  pin = or_stored d.pin s.pin;
  iban = or_stored d.iban s.iban;
  swift_code = or_stored d.swift_code s.swift_code;
  branch_number = or_stored d.branch_number s.branch_number;
})
merge_data (drivers_license d) (drivers_license s) =
    drivers_license (record d { license_number = or_stored d.license_number s.license_number })
merge_data (passport d) (passport s) = passport (record d {
  passport_number = or_stored d.passport_number s.passport_number;
  national_identification_number =
      or_stored d.national_identification_number s.national_identification_number;
  date_of_birth = or_stored d.date_of_birth s.date_of_birth;
})
merge_data (identity d) (identity s) = identity (record d {
  ssn = or_stored d.ssn s.ssn;
  license_number = or_stored d.license_number s.license_number;
  passport_number = or_stored d.passport_number s.passport_number;
})
merge_data d s = d

-- The stored field that stands for a hidden field of that name.
abbrev pub is_twin : Option String → Field → Bool
is_twin name f = f.name == name && is_hidden f

abbrev pub take_value : Field → Option Field → Field
take_value f none = f
take_value f (some stored) = record f { value = stored.value }

abbrev pub is_blank : Option Secret → Bool
is_blank none = true
is_blank (some v) = false

unfoldable pub merge_field : List Field → Field → Field
merge_field stored f =
    if is_hidden f && is_blank f.value then take_value f (find (is_twin f.name) stored) else f

-- The incoming entry, then the stored one.
unfoldable pub merge_redacted_secrets : Entry → Entry → Entry
unfolding merge_data merge_field
merge_redacted_secrets e stored = record e {
  key = or_stored e.key stored.key;
  content = merge_data e.content stored.content;
  fields = map (merge_field stored.fields) e.fields;
}
