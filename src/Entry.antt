-- ===== src/Entry.antt =====
-- The vault entries: crates/cosmarden-core/src/db/models.rs (`Entry`, `EntryData`, `Uri`, `Field`,
-- `HistoryEntry`, `get_field`, `set_field`, `remove_field`) and the enums of
-- crates/cosmarden-core/src/api/models that they hold. A `Secret` is the text that it wraps.
pub mod Fields
pub mod Decrypt
use cosmic_bwarden.Base.{
  String, Option, none, some, List, [], ◌∷◌, Bool, true, false, not, find, retain, ◌==◌, string_eq,
  option_eq, if◌then◌else◌,
}

abbrev pub Secret : Type 0
Secret = String

pub data FieldType : Type 0 where
  text hidden boolean linked : FieldType

pub data LinkedIdType : Type 0 where
  username password : LinkedIdType

pub data UriMatchType : Type 0 where
  domain host starts_with exact regular_expression never : UriMatchType

-- `None` and `Password` in the source.
pub data CipherRepromptType : Type 0 where
  no_reprompt password_reprompt : CipherRepromptType

pub record Uri : Type 0 where
  pub uri : String
  pub match_type : Option UriMatchType

pub record Field : Type 0 where
  pub ty : Option FieldType
  pub name : Option String
  pub value : Option Secret
  pub linked_id : Option LinkedIdType

pub record HistoryEntry : Type 0 where
  pub last_used_date : String
  pub password : Secret

-- The fields of each variant of `EntryData`.
pub record Login : Type 0 where
  pub username : Option String
  pub password : Option Secret
  pub totp : Option Secret
  pub uris : List Uri

pub record Card : Type 0 where
  pub cardholder_name : Option String
  pub number : Option Secret
  pub brand : Option String
  pub exp_month : Option String
  pub exp_year : Option String
  pub code : Option Secret

pub record Identity : Type 0 where
  pub title : Option String
  pub first_name : Option String
  pub middle_name : Option String
  pub last_name : Option String
  pub address1 : Option String
  pub address2 : Option String
  pub address3 : Option String
  pub city : Option String
  pub state : Option String
  pub postal_code : Option String
  pub country : Option String
  pub phone : Option String
  pub email : Option String
  pub ssn : Option String
  pub license_number : Option String
  pub passport_number : Option String
  pub username : Option String

pub record SshKey : Type 0 where
  pub private_key : Option Secret
  pub public_key : Option String
  pub fingerprint : Option String

pub record BankAccount : Type 0 where
  pub bank_name : Option String
  pub name_on_account : Option String
  pub account_type : Option String
  pub account_number : Option Secret
  pub routing_number : Option Secret
  pub branch_number : Option String
  pub pin : Option Secret
  pub swift_code : Option String
  pub iban : Option String
  pub bank_contact_phone : Option String

pub record DriversLicense : Type 0 where
  pub first_name : Option String
  pub middle_name : Option String
  pub last_name : Option String
  pub date_of_birth : Option String
  pub license_number : Option Secret
  pub issuing_country : Option String
  pub issuing_state : Option String
  pub issue_date : Option String
  pub expiration_date : Option String
  pub issuing_authority : Option String
  pub license_class : Option String

pub record Passport : Type 0 where
  pub surname : Option String
  pub given_name : Option String
  pub date_of_birth : Option String
  pub sex : Option String
  pub birth_place : Option String
  pub nationality : Option String
  pub issuing_country : Option String
  pub passport_number : Option Secret
  pub passport_type : Option String
  pub national_identification_number : Option String
  pub issuing_authority : Option String
  pub issue_date : Option String
  pub expiration_date : Option String

pub data EntryData : Type 0 where
  login : Login → EntryData
  card : Card → EntryData
  identity : Identity → EntryData
  secure_note : EntryData
  ssh_key : SshKey → EntryData
  bank_account : BankAccount → EntryData
  drivers_license : DriversLicense → EntryData
  passport : Passport → EntryData

pub record Entry : Type 0 where
  pub id : String
  pub org_id : Option String
  pub folder : Option String
  pub folder_id : Option String
  pub name : String
  pub favorite : Bool
  pub content : EntryData
  pub fields : List Field
  pub notes : Option Secret
  pub history : List HistoryEntry
  pub key : Option String
  pub reprompt : CipherRepromptType

-- `Entry::master_password_reprompt`
unfoldable pub master_password_reprompt : Entry → Bool
master_password_reprompt e = elim e.reprompt [ no_reprompt ↦ false | password_reprompt ↦ true ]

-- `f.ty == Some(FieldType::Hidden)`
abbrev pub is_hidden : Field → Bool
is_hidden f = elim f.ty [ none ↦ false | some t ↦ elim t [ hidden ↦ true | _ ↦ false ] ]

-- `f.name.as_deref() == Some(name)`
abbrev pub is_named : String → Field → Bool
is_named name f = f.name == some name

unfoldable pub get_field : Entry → String → Option Field
get_field e name = find (is_named name) e.fields

-- The field that `set_field` appends, and the loop that overwrites the first one of that name.
abbrev pub new_field : String → Secret → FieldType → Field
new_field n v t = record { ty = some t; name = some n; value = some v; linked_id = none }

unfoldable pub set_in_fields : String → Secret → FieldType → List Field → List Field
set_in_fields n v t [] = new_field n v t ∷ []
set_in_fields n v t (f ∷ fs) =
    if is_named n f
    then record f { value = some v; ty = some t } ∷ fs
    else f ∷ set_in_fields n v t fs

unfoldable pub set_field : Entry → String → Secret → FieldType → Entry
unfolding set_in_fields
set_field e n v t = record e { fields = set_in_fields n v t e.fields }

unfoldable pub remove_field : Entry → String → Entry
remove_field e n = record e { fields = retain (λ f. not (is_named n f)) e.fields }
