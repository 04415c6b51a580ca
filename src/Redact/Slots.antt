-- ===== src/Redact/Slots.antt =====
-- The secret slots of an entry, listed once, against what redaction blanks and what the merge fills.
use cosmic_bwarden.Base.{
  ℕ, ◌≡◌, refl, Option, none, List, [], ◌∷◌, ◌==◌, nat_eq, if◌then◌else◌, map,
}
use cosmic_bwarden.Entry.{
  EntryData, login, card, identity, secure_note, ssh_key, bank_account, drivers_license, passport,
  Secret,
}
use cosmic_bwarden.Redact.{redact_data, merge_data, or_stored}

-- The values of the slots that are secrets, type by type.
abbrev pub secret_slots : EntryData → List (Option Secret)
secret_slots (login d) = d.password ∷ d.totp ∷ []
secret_slots (card d) = d.number ∷ d.code ∷ []
secret_slots (ssh_key d) = d.private_key ∷ []
secret_slots (bank_account d) =
    d.account_number ∷ d.routing_number ∷ d.branch_number ∷ d.pin ∷ d.swift_code ∷ d.iban ∷ []
secret_slots (drivers_license d) = d.license_number ∷ []
secret_slots (passport d) =
    d.passport_number ∷ d.national_identification_number ∷ d.date_of_birth ∷ []
secret_slots (identity d) = d.ssn ∷ d.license_number ∷ d.passport_number ∷ []
secret_slots secure_note = []

-- The cipher type of the data, as the server numbers it.
abbrev pub type_number : EntryData → ℕ
type_number (login d) = 1
type_number secure_note = 2
type_number (card d) = 3
type_number (identity d) = 4
type_number (ssh_key d) = 5
type_number (bank_account d) = 6
type_number (drivers_license d) = 7
type_number (passport d) = 8

abbrev pub or_each : List (Option Secret) → List (Option Secret) → List (Option Secret)
or_each [] ys = []
or_each (x ∷ xs) [] = x ∷ xs
or_each (x ∷ xs) (y ∷ ys) = or_stored x y ∷ or_each xs ys

-- The merge leaves a secret slot that came with a value as it came, fills one that came blank from the stored entry
-- of the same type, and takes nothing from a stored entry of another type.
pub slots-merge_data :
    (d s : EntryData)
    → secret_slots (merge_data d s) ≡ (
        if type_number d == type_number s
        then or_each (secret_slots d) (secret_slots s)
        else secret_slots d)
unfolding merge_data
slots-merge_data (login d) (login s) = refl
slots-merge_data (card d) (card s) = refl
slots-merge_data (ssh_key d) (ssh_key s) = refl
slots-merge_data (bank_account d) (bank_account s) = refl
slots-merge_data (drivers_license d) (drivers_license s) = refl
slots-merge_data (passport d) (passport s) = refl
slots-merge_data (identity d) (identity s) = refl
slots-merge_data secure_note secure_note = refl
slots-merge_data _ _ = refl

-- Redaction keeps the type of the data and leaves no value in any of its secret slots.
pub slots-redact_data :
    (d : EntryData)
    → (type_number (redact_data d) ≡ type_number d)
      × (secret_slots (redact_data d) ≡ map (λ _. none) (secret_slots d))
unfolding redact_data
slots-redact_data (login d) = (refl, refl)
slots-redact_data _ = (refl, refl)
