-- ===== src/Wire.antt =====
-- crates/cosmarden-core/src/api/models/vault.rs: what is exchanged with the server about entries. A struct that serde
-- derives is a record; the JSON object that is written for a URI keeps its keys, since it is read under other ones.
pub mod Read
use cosmic_bwarden.Base.{ℕ, zero, suc, String, Bool, Option, none, some, List}
use cosmic_bwarden.Entry.{
  FieldType, LinkedIdType, UriMatchType, domain, host, starts_with, exact, regular_expression,
  never, CipherRepromptType,
}

pub record CipherUri : Type 0 where
  pub uri : Option String
  pub match_type : Option UriMatchType

pub record CipherLogin : Type 0 where
  pub username : Option String
  pub password : Option String
  pub totp : Option String
  pub uris : Option (List CipherUri)

pub record CipherCard : Type 0 where
  pub cardholder_name : Option String
  pub brand : Option String
  pub number : Option String
  pub exp_month : Option String
  pub exp_year : Option String
  pub code : Option String

pub record CipherIdentity : Type 0 where
  pub title : Option String
  pub first_name : Option String
  pub middle_name : Option String
  pub last_name : Option String
  pub address1 : Option String
  pub address2 : Option String
  pub address3 : Option String
  pub city : Option String
  pub state : Option String
  pub postal_code : Option String
  pub country : Option String
  pub email : Option String
  pub phone : Option String
  pub ssn : Option String
  pub license_number : Option String
  pub passport_number : Option String
  pub username : Option String

pub record CipherSshKey : Type 0 where
  pub private_key : Option String
  pub public_key : Option String
  pub fingerprint : Option String

pub record CipherBankAccount : Type 0 where
  pub bank_name : Option String
  pub name_on_account : Option String
  pub account_type : Option String
  pub account_number : Option String
  pub routing_number : Option String
  pub branch_number : Option String
  pub pin : Option String
  pub swift_code : Option String
  pub iban : Option String
  pub bank_contact_phone : Option String

pub record CipherDriversLicense : Type 0 where
  pub first_name : Option String
  pub middle_name : Option String
  pub last_name : Option String
  pub date_of_birth : Option String
  pub license_number : Option String
  pub issuing_country : Option String
  pub issuing_state : Option String
  pub issue_date : Option String
  pub expiration_date : Option String
  pub issuing_authority : Option String
  pub license_class : Option String

pub record CipherPassport : Type 0 where
  pub surname : Option String
  pub given_name : Option String
  pub date_of_birth : Option String
  pub sex : Option String
  pub birth_place : Option String
  pub nationality : Option String
  pub issuing_country : Option String
  pub passport_number : Option String
  pub passport_type : Option String
  pub national_identification_number : Option String
  pub issuing_authority : Option String
  pub issue_date : Option String
  pub expiration_date : Option String

pub record CipherField : Type 0 where
  pub name : Option String
  pub value : Option String
  pub ty : Option FieldType
  pub linked_id : Option LinkedIdType

pub record SyncResPasswordHistory : Type 0 where
  pub password : Option String
  pub last_used_date : String

pub record CipherPasswordHistoryEntry : Type 0 where
  pub last_used_date : String
  pub password : String

pub record SyncResFolder : Type 0 where
  pub id : String
  pub name : String

-- `CipherSecureNote` has no fields: whether it is there is all there is to say.
pub record SyncResCipher : Type 0 where
  pub id : String
  pub ty : ℕ
  pub folder_id : Option String
  pub organization_id : Option String
  pub favorite : Bool
  pub name : String
  pub login : Option CipherLogin
  pub card : Option CipherCard
  pub identity : Option CipherIdentity
  pub secure_note : Bool
  pub ssh_key : Option CipherSshKey
  pub bank_account : Option CipherBankAccount
  pub drivers_license : Option CipherDriversLicense
  pub passport : Option CipherPassport
  pub notes : Option String
  pub password_history : Option (List SyncResPasswordHistory)
  pub fields : Option (List CipherField)
  pub deleted_date : Option String
  pub key : Option String
  pub reprompt : CipherRepromptType

-- The JSON values under the keys of a URI.
pub data Json : Type 0 where
  null : Json
  text : String → Json
  number : ℕ → Json

abbrev pub Object : Type 0
Object = List (String × Json)

-- `json!({"username": .., "password": .., "totp": .., "uris": ..})`
pub record LoginValue : Type 0 where
  pub username : Option String
  pub password : Option String
  pub totp : Option String
  pub uris : Option (List Object)

pub record CiphersPostReq : Type 0 where
  pub ty : ℕ
  pub encrypted_for : String
  pub folder_id : Option String
  pub favorite : Bool
  pub name : String
  pub notes : Option String
  pub login : Option LoginValue
  pub card : Option CipherCard
  pub identity : Option CipherIdentity
  pub secure_note : Bool
  pub ssh_key : Option CipherSshKey
  pub bank_account : Option CipherBankAccount
  pub drivers_license : Option CipherDriversLicense
  pub passport : Option CipherPassport
  pub fields : List CipherField
  pub reprompt : CipherRepromptType

pub record CiphersPutReq : Type 0 where
  pub ty : ℕ
  pub encrypted_for : String
  pub folder_id : Option String
  pub organization_id : Option String
  pub favorite : Bool
  pub key : Option String
  pub name : String
  pub notes : Option String
  pub login : Option LoginValue
  pub card : Option CipherCard
  pub identity : Option CipherIdentity
  pub fields : List CipherField
  pub secure_note : Bool
  pub ssh_key : Option CipherSshKey
  pub bank_account : Option CipherBankAccount
  pub drivers_license : Option CipherDriversLicense
  pub passport : Option CipherPassport
  pub password_history : List CipherPasswordHistoryEntry
  pub reprompt : CipherRepromptType

-- The number that stands for a variant of `UriMatchType`, and the variant that a number stands for.
abbrev pub match_number : UriMatchType → ℕ
match_number domain = 0
match_number host = 1
match_number starts_with = 2
match_number exact = 3
match_number regular_expression = 4
match_number never = 5

abbrev pub match_of : ℕ → Option UriMatchType
match_of n = elim n [
  | zero ↦ some domain
  | suc zero ↦ some host
  | suc (suc zero) ↦ some starts_with
  | suc (suc (suc zero)) ↦ some exact
  | suc (suc (suc (suc zero))) ↦ some regular_expression
  | suc (suc (suc (suc (suc zero)))) ↦ some never
  | _ ↦ none
]
