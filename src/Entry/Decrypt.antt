-- ===== src/Entry/Decrypt.antt =====
-- `Entry::decrypt` of crates/cosmarden-core/src/db/models.rs. The closures `d` and `ds` of the source, which
-- log a failure and return nothing, are the argument `d`: what `vault::decrypt` returns under the keys
-- that hold for the entry, in a run where it does not panic.
pub mod SshFallback
use cosmic_bwarden.Base.{
  String, Bool, true, false, Option, none, some, List, [], ◌∷◌, map, lookup, ◌==◌, string_eq,
  option_eq, if◌then◌else◌,
}
use cosmic_bwarden.Crypto.{Bytes}
use cosmic_bwarden.CipherString.{Keys, effective}
use cosmic_bwarden.Entry.{
  Entry, EntryData, login, card, identity, secure_note, ssh_key, bank_account, drivers_license,
  passport, Login, Card, Identity, SshKey, BankAccount, DriversLicense, Passport, Field, Uri,
  Secret, is_named,
}

-- `vault::decrypt`: the cipherstring, the keys and the item key.
abbrev pub Decryptor : Type 0
Decryptor = String → Keys → Option String → Option String

abbrev pub OrgKeys : Type 0
OrgKeys = List (String × Keys)

-- `self.org_id.as_ref().and_then(|id| org_keys.get(id)).unwrap_or(keys)`
unfoldable pub entry_keys : Entry → Keys → OrgKeys → Keys
entry_keys e keys org_keys =
    effective keys (elim e.org_id [ none ↦ none | some id ↦ lookup id org_keys ])

module _ (d : String → Option String) where
  -- A slot that is filled is decrypted, and blank if that fails.
  abbrev pub opt : Option String → Option String
  opt none = none
  opt (some v) = d v

  -- A text that stays as it is if the decryption fails.
  abbrev pub or_keep : String → String
  or_keep v = elim (d v) [ none ↦ v | some p ↦ p ]

  abbrev pub opt_keep : Option String → Option String
  opt_keep none = none
  opt_keep (some v) = some (or_keep v)

  unfoldable pub decrypt_identity : Identity → Identity
  decrypt_identity i = record {
    title = opt i.title;
    first_name = opt i.first_name;
    middle_name = opt i.middle_name;
    last_name = opt i.last_name;
    address1 = opt i.address1;
    address2 = opt i.address2;
    address3 = opt i.address3;
    city = opt i.city;
    state = opt i.state;
    postal_code = opt i.postal_code;
    country = opt i.country;
    phone = opt i.phone;
    email = opt i.email;
    ssn = opt i.ssn;
    license_number = opt i.license_number;
    passport_number = opt i.passport_number;
    username = opt i.username;
  }

  abbrev pub decrypt_uri : Uri → Uri
  decrypt_uri u = record u { uri = or_keep u.uri }

  unfoldable pub decrypt_login : Login → Login
  decrypt_login l = record {
    username = opt l.username;
    password = opt l.password;
    totp = opt l.totp;
    uris = map decrypt_uri l.uris;
  }

  unfoldable pub decrypt_card : Card → Card
  decrypt_card c = record {
    cardholder_name = opt c.cardholder_name;
    number = opt c.number;
    brand = opt c.brand;
    exp_month = opt c.exp_month;
    exp_year = opt c.exp_year;
    code = opt c.code;
  }

  unfoldable pub decrypt_ssh_key : SshKey → SshKey
  decrypt_ssh_key s = record {
    private_key = opt s.private_key;
    public_key = opt s.public_key;
    fingerprint = opt s.fingerprint;
  }

  unfoldable pub decrypt_bank_account : BankAccount → BankAccount
  decrypt_bank_account b = record {
    bank_name = opt b.bank_name;
    name_on_account = opt b.name_on_account;
    account_type = opt b.account_type;
    account_number = opt b.account_number;
    routing_number = opt b.routing_number;
    branch_number = opt b.branch_number;
    pin = opt b.pin;
    swift_code = opt b.swift_code;
    iban = opt b.iban;
    bank_contact_phone = opt b.bank_contact_phone;
  }

  unfoldable pub decrypt_drivers_license : DriversLicense → DriversLicense
  decrypt_drivers_license l = record {
    first_name = opt l.first_name;
    middle_name = opt l.middle_name;
    last_name = opt l.last_name;
    date_of_birth = opt l.date_of_birth;
    license_number = opt l.license_number;
    issuing_country = opt l.issuing_country;
    issuing_state = opt l.issuing_state;
    issue_date = opt l.issue_date;
    expiration_date = opt l.expiration_date;
    issuing_authority = opt l.issuing_authority;
    license_class = opt l.license_class;
  }

  unfoldable pub decrypt_passport : Passport → Passport
  decrypt_passport p = record {
    surname = opt p.surname;
    given_name = opt p.given_name;
    date_of_birth = opt p.date_of_birth;
    sex = opt p.sex;
    birth_place = opt p.birth_place;
    nationality = opt p.nationality;
    issuing_country = opt p.issuing_country;
    passport_number = opt p.passport_number;
    passport_type = opt p.passport_type;
    national_identification_number = opt p.national_identification_number;
    issuing_authority = opt p.issuing_authority;
    issue_date = opt p.issue_date;
    expiration_date = opt p.expiration_date;
  }

  unfoldable pub decrypt_data : EntryData → EntryData
  unfolding decrypt_login decrypt_card decrypt_identity decrypt_ssh_key decrypt_bank_account
      decrypt_drivers_license decrypt_passport
  decrypt_data (login l) = login (decrypt_login l)
  decrypt_data (card c) = card (decrypt_card c)
  decrypt_data (identity i) = identity (decrypt_identity i)
  decrypt_data secure_note = secure_note
  decrypt_data (ssh_key s) = ssh_key (decrypt_ssh_key s)
  decrypt_data (bank_account b) = bank_account (decrypt_bank_account b)
  decrypt_data (drivers_license l) = drivers_license (decrypt_drivers_license l)
  decrypt_data (passport p) = passport (decrypt_passport p)

  abbrev pub decrypt_field : Field → Field
  decrypt_field f = record f { name = opt_keep f.name; value = opt f.value }

-- The value of the last field of that name: `fallback` is overwritten by every match.
unfoldable pub last_value : String → Option Secret → List Field → Option Secret
last_value n fallback [] = fallback
last_value n fallback (f ∷ fs) = last_value n (if is_named n f then f.value else fallback) fs

abbrev pub or_fallback : Option String → Option String → Option String
or_fallback none fallback = fallback
or_fallback (some v) fallback = some v

-- A key that is missing in the data of an SSH key is read from the custom fields.
unfoldable pub ssh_fallback : List Field → EntryData → EntryData
unfolding last_value
ssh_fallback fs (ssh_key s) = ssh_key (record s {
  private_key = or_fallback s.private_key (last_value "private_key" none fs);
  public_key = or_fallback s.public_key (last_value "public_key" none fs);
})
ssh_fallback fs d = d

unfoldable pub decrypt_with : (String → Option String) → Entry → Entry
unfolding decrypt_data ssh_fallback
decrypt_with d e =
    let fs = map (decrypt_field d) e.fields in
    record e {
      name = or_keep d e.name;
      notes = opt_keep d e.notes;
      content = ssh_fallback fs (decrypt_data d e.content);
      fields = fs;
    }

unfoldable pub decrypt : Decryptor → Keys → OrgKeys → Entry → Entry
unfolding entry_keys decrypt_with
decrypt vault_decrypt keys org_keys e =
    decrypt_with (λ s. vault_decrypt s (entry_keys e keys org_keys) e.key) e
