-- ===== src/Encrypt.antt =====
-- How an entry is encrypted for the server: crates/cosmarden-agent/src/server/ops/update.rs and add.rs beside it, with
-- the requests of crates/cosmarden-core/src/api/client/ops.rs that carry it. Each call of `encrypt_symmetric` draws an
-- iv at random; the ivs of a run are an argument, one for each slot that may be encrypted.
pub mod Add
pub mod Seal
pub mod Texts
use cosmic_bwarden.Base.{ℕ, suc, String, Bool, Option, none, some, List, [], ◌∷◌}
use cosmic_bwarden.Crypto.{Bytes, Crypto, Outcome, ok, err, panic, ◌>>=◌}
use cosmic_bwarden.CipherString.{Keys, display, encrypt_symmetric}
use cosmic_bwarden.Entry.{
  EntryData, login, card, identity, secure_note, ssh_key, bank_account, drivers_license, passport,
  Login, Card, Identity, SshKey, BankAccount, DriversLicense, Passport, Field, Uri, UriMatchType,
}
use cosmic_bwarden.Wire.{
  CipherCard, CipherIdentity, CipherSshKey, CipherBankAccount, CipherDriversLicense, CipherPassport,
  CipherField, Json, null, text, number, Object, LoginValue, match_number,
}

-- The calls of `encrypt_symmetric` in one run: the name, the notes, the parts of the data in their order, and the
-- URIs and custom fields by their place.
pub data Slot : Type 0 where
  name notes : Slot
  part uri field_name field_value : ℕ → Slot

abbrev pub Ivs : Type 0
Ivs = Slot → Bytes

-- `CipherString::encrypt_symmetric(keys, s.as_bytes())` and `to_string`.
unfoldable pub encrypt_text : Crypto → Ivs → Keys → Slot → String → Outcome String
encrypt_text c ivs keys slot s = do
  cs ← encrypt_symmetric c (ivs slot) keys (c.to_utf8 s)
  ok (c.to_string (display c cs))

-- What `update_entry_on_server` and `add_entry_on_server` pass on to the client, by the type of the entry.
pub record Payload : Type 0 where
  pub ty : ℕ
  pub login : Option LoginValue
  pub ssh_key : Option CipherSshKey
  pub card : Option CipherCard
  pub identity : Option CipherIdentity
  pub bank_account : Option CipherBankAccount
  pub drivers_license : Option CipherDriversLicense
  pub passport : Option CipherPassport

abbrev pub empty_payload : ℕ → Payload
empty_payload n = record {
  ty = n;
  login = none;
  ssh_key = none;
  card = none;
  identity = none;
  bank_account = none;
  drivers_license = none;
  passport = none;
}

abbrev pub match_value : Option UriMatchType → Json
match_value none = null
match_value (some m) = number (match_number m)

-- `json!({"uri": uri_enc, "match": uri.match_type})`
abbrev pub uri_value : String → Option UriMatchType → Object
uri_value u m = ("uri", text u) ∷ ("match", match_value m) ∷ []

module _ (enc : Slot → String → Outcome String) where
  -- The closures `encrypt` and `encrypt_secret`.
  unfoldable pub encrypt : Slot → Option String → Outcome (Option String)
  encrypt slot none = ok none
  encrypt slot (some s) = do t ← enc slot s; ok (some t)

  unfoldable pub encrypt_uris : ℕ → List Uri → Outcome (List Object)
  encrypt_uris n [] = ok []
  encrypt_uris n (u ∷ us) = do
    t ← enc (uri n) u.uri
    rest ← encrypt_uris (suc n) us
    ok (uri_value t u.match_type ∷ rest)

  unfoldable pub encrypt_fields : ℕ → List Field → Outcome (List CipherField)
  unfolding encrypt
  encrypt_fields n [] = ok []
  encrypt_fields n (f ∷ fs) = do
    name_enc ← encrypt (field_name n) f.name
    value_enc ← encrypt (field_value n) f.value
    rest ← encrypt_fields (suc n) fs
    ok (record { name = name_enc; value = value_enc; ty = f.ty; linked_id = f.linked_id } ∷ rest)

  unfoldable pub encrypt_login : Login → Outcome LoginValue
  unfolding encrypt encrypt_uris
  encrypt_login l = do
    u ← encrypt (part 0) l.username
    p ← encrypt (part 1) l.password
    t ← encrypt (part 2) l.totp
    us ← encrypt_uris 0 l.uris
    ok (record { username = u; password = p; totp = t; uris = some us })

  unfoldable pub encrypt_identity : Identity → Outcome CipherIdentity
  unfolding encrypt
  encrypt_identity i = do
    title' ← encrypt (part 0) i.title
    first_name' ← encrypt (part 1) i.first_name
    middle_name' ← encrypt (part 2) i.middle_name
    last_name' ← encrypt (part 3) i.last_name
    address1' ← encrypt (part 4) i.address1
    address2' ← encrypt (part 5) i.address2
    address3' ← encrypt (part 6) i.address3
    city' ← encrypt (part 7) i.city
    state' ← encrypt (part 8) i.state
    postal_code' ← encrypt (part 9) i.postal_code
    country' ← encrypt (part 10) i.country
    email' ← encrypt (part 11) i.email
    phone' ← encrypt (part 12) i.phone
    ssn' ← encrypt (part 13) i.ssn
    license_number' ← encrypt (part 14) i.license_number
    passport_number' ← encrypt (part 15) i.passport_number
    username' ← encrypt (part 16) i.username
    ok (record {
      title = title';
      first_name = first_name';
      middle_name = middle_name';
      last_name = last_name';
      address1 = address1';
      address2 = address2';
      address3 = address3';
      city = city';
      state = state';
      postal_code = postal_code';
      country = country';
      email = email';
      phone = phone';
      ssn = ssn';
      license_number = license_number';
      passport_number = passport_number';
      username = username';
    })

  unfoldable pub encrypt_card : Card → Outcome CipherCard
  unfolding encrypt
  encrypt_card c = do
    cardholder_name' ← encrypt (part 0) c.cardholder_name
    brand' ← encrypt (part 1) c.brand
    number' ← encrypt (part 2) c.number
    exp_month' ← encrypt (part 3) c.exp_month
    exp_year' ← encrypt (part 4) c.exp_year
    code' ← encrypt (part 5) c.code
    ok (record {
      cardholder_name = cardholder_name';
      brand = brand';
      number = number';
      exp_month = exp_month';
      exp_year = exp_year';
      code = code';
    })

  -- The fingerprint is left blank.
  unfoldable pub encrypt_ssh_key : SshKey → Outcome CipherSshKey
  unfolding encrypt
  encrypt_ssh_key s = do
    priv ← encrypt (part 0) s.private_key
    publ ← encrypt (part 1) s.public_key
    ok (record { private_key = priv; public_key = publ; fingerprint = none })

  unfoldable pub encrypt_bank_account : BankAccount → Outcome CipherBankAccount
  unfolding encrypt
  encrypt_bank_account b = do
    bank_name' ← encrypt (part 0) b.bank_name
    name_on_account' ← encrypt (part 1) b.name_on_account
    account_type' ← encrypt (part 2) b.account_type
    account_number' ← encrypt (part 3) b.account_number
    routing_number' ← encrypt (part 4) b.routing_number
    branch_number' ← encrypt (part 5) b.branch_number
    pin' ← encrypt (part 6) b.pin
    swift_code' ← encrypt (part 7) b.swift_code
    iban' ← encrypt (part 8) b.iban
    bank_contact_phone' ← encrypt (part 9) b.bank_contact_phone
    ok (record {
      bank_name = bank_name';
      name_on_account = name_on_account';
      account_type = account_type';
      account_number = account_number';
      routing_number = routing_number';
      branch_number = branch_number';
      pin = pin';
      swift_code = swift_code';
      iban = iban';
      bank_contact_phone = bank_contact_phone';
    })

  unfoldable pub encrypt_drivers_license : DriversLicense → Outcome CipherDriversLicense
  unfolding encrypt
  encrypt_drivers_license l = do
    first_name' ← encrypt (part 0) l.first_name
    middle_name' ← encrypt (part 1) l.middle_name
    last_name' ← encrypt (part 2) l.last_name
    date_of_birth' ← encrypt (part 3) l.date_of_birth
    license_number' ← encrypt (part 4) l.license_number
    issuing_country' ← encrypt (part 5) l.issuing_country
    issuing_state' ← encrypt (part 6) l.issuing_state
    issue_date' ← encrypt (part 7) l.issue_date
    expiration_date' ← encrypt (part 8) l.expiration_date
    issuing_authority' ← encrypt (part 9) l.issuing_authority
    license_class' ← encrypt (part 10) l.license_class
    ok (record {
      first_name = first_name';
      middle_name = middle_name';
      last_name = last_name';
      date_of_birth = date_of_birth';
      license_number = license_number';
      issuing_country = issuing_country';
      issuing_state = issuing_state';
      issue_date = issue_date';
      expiration_date = expiration_date';
      issuing_authority = issuing_authority';
      license_class = license_class';
    })

  unfoldable pub encrypt_passport : Passport → Outcome CipherPassport
  unfolding encrypt
  encrypt_passport p = do
    surname' ← encrypt (part 0) p.surname
    given_name' ← encrypt (part 1) p.given_name
    date_of_birth' ← encrypt (part 2) p.date_of_birth
    sex' ← encrypt (part 3) p.sex
    birth_place' ← encrypt (part 4) p.birth_place
    nationality' ← encrypt (part 5) p.nationality
    issuing_country' ← encrypt (part 6) p.issuing_country
    passport_number' ← encrypt (part 7) p.passport_number
    passport_type' ← encrypt (part 8) p.passport_type
    national_identification_number' ← encrypt (part 9) p.national_identification_number
    issuing_authority' ← encrypt (part 10) p.issuing_authority
    issue_date' ← encrypt (part 11) p.issue_date
    expiration_date' ← encrypt (part 12) p.expiration_date
    ok (record {
      surname = surname';
      given_name = given_name';
      date_of_birth = date_of_birth';
      sex = sex';
      birth_place = birth_place';
      nationality = nationality';
      issuing_country = issuing_country';
      passport_number = passport_number';
      passport_type = passport_type';
      national_identification_number = national_identification_number';
      issuing_authority = issuing_authority';
      issue_date = issue_date';
      expiration_date = expiration_date';
    })

  -- `match &entry.data` of `update_entry_on_server`.
  unfoldable pub update_payload : EntryData → Outcome Payload
  unfolding encrypt_login encrypt_identity encrypt_card encrypt_ssh_key encrypt_bank_account
      encrypt_drivers_license encrypt_passport
  update_payload (login l) = do
    v ← encrypt_login l
    ok (record (empty_payload 1) { login = some v })
  update_payload secure_note = ok (empty_payload 2)
  update_payload (identity i) = do
    v ← encrypt_identity i
    ok (record (empty_payload 4) { identity = some v })
  update_payload (card c) = do v ← encrypt_card c; ok (record (empty_payload 3) { card = some v })
  update_payload (ssh_key s) = do
    v ← encrypt_ssh_key s
    ok (record (empty_payload 5) { ssh_key = some v })
  update_payload (bank_account b) = do
    v ← encrypt_bank_account b
    ok (record (empty_payload 6) { bank_account = some v })
  update_payload (drivers_license l) = do
    v ← encrypt_drivers_license l
    ok (record (empty_payload 7) { drivers_license = some v })
  update_payload (passport p) = do
    v ← encrypt_passport p
    ok (record (empty_payload 8) { passport = some v })
