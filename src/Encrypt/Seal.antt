-- ===== src/Encrypt/Seal.antt =====
-- The encryption of each kind of entry against `to_entry` and `Entry::decrypt`: the parts come back.
use cosmic_bwarden.Base.{ℕ, suc, String, Option, none, some, List, [], ◌∷◌, map, ◌≡◌, refl, ap}
use cosmic_bwarden.Crypto.{Outcome, ok}
use cosmic_bwarden.Entry.{
  Login, Card, Identity, SshKey, BankAccount, DriversLicense, Passport, Field, Uri, domain,
}
use cosmic_bwarden.Entry.Decrypt.{
  opt, decrypt_login, decrypt_card, decrypt_identity, decrypt_ssh_key, decrypt_bank_account,
  decrypt_drivers_license, decrypt_passport, decrypt_uri, decrypt_field, opt_keep, or_keep,
}
use cosmic_bwarden.Wire.{
  CipherLogin, CipherCard, CipherIdentity, CipherSshKey, CipherBankAccount, CipherDriversLicense,
  CipherPassport, CipherField, CipherUri, LoginValue, Object,
}
use cosmic_bwarden.Wire.Read.{
  to_login, to_card, to_identity, to_ssh_key, to_bank_account, to_drivers_license, to_passport,
  read_login, read_uris, read_uri, entry_field, entry_uris,
}
use cosmic_bwarden.Encrypt.{
  Slot, part, uri, field_name, field_value, encrypt, encrypt_uris, encrypt_fields, encrypt_login,
  encrypt_card, encrypt_identity, encrypt_ssh_key, encrypt_bank_account, encrypt_drivers_license,
  encrypt_passport, uri_value,
}

-- What an encryption that always succeeds makes of a slot that may be blank.
abbrev pub seal_opt : (Slot → String → String) → Slot → Option String → Option String
seal_opt seal slot none = none
seal_opt seal slot (some s) = some (seal slot s)

-- The encryption of every text succeeds, and what it makes is decrypted to the text.
pub record Seals (enc : Slot → String → Outcome String) (d : String → Option String) : Type 0 where
  pub seal : Slot → String → String
  pub enc-eq : (slot : Slot) (s : String) → enc slot s ≡ ok (seal slot s)
  pub decrypt-seal : (slot : Slot) (s : String) → d (seal slot s) ≡ some s

-- The match type of a URI is written under one key and read under another.
abbrev pub by_domain : Uri → Uri
by_domain u = record u { match_type = some domain }

module _ (enc : Slot → String → Outcome String) (d : String → Option String) (h : Seals enc d) where
  pub encrypt-eq :
      (slot : Slot) (o : Option String) → encrypt enc slot o ≡ ok (seal_opt h.seal slot o)
  unfolding encrypt
  encrypt-eq slot none = refl
  encrypt-eq slot (some s) = rw (h.enc-eq slot s)

  pub opt-seal : (slot : Slot) (o : Option String) → opt d (seal_opt h.seal slot o) ≡ o
  opt-seal slot none = refl
  opt-seal slot (some s) = h.decrypt-seal slot s

  abbrev sealed_card : Card → CipherCard
  sealed_card c = record {
    cardholder_name = seal_opt h.seal (part 0) c.cardholder_name;
    brand = seal_opt h.seal (part 1) c.brand;
    number = seal_opt h.seal (part 2) c.number;
    exp_month = seal_opt h.seal (part 3) c.exp_month;
    exp_year = seal_opt h.seal (part 4) c.exp_year;
    code = seal_opt h.seal (part 5) c.code;
  }

  pub card_back :
      (c : Card)
      → (v : CipherCard) × (encrypt_card enc c ≡ ok v) × (decrypt_card d (to_card (some v)) ≡ c)
  unfolding encrypt_card decrypt_card to_card
  card_back c = (sealed_card c, simp encrypt-eq, simp opt-seal)

  abbrev sealed_identity : Identity → CipherIdentity
  sealed_identity i = record {
    title = seal_opt h.seal (part 0) i.title;
    first_name = seal_opt h.seal (part 1) i.first_name;
    middle_name = seal_opt h.seal (part 2) i.middle_name;
    last_name = seal_opt h.seal (part 3) i.last_name;
    address1 = seal_opt h.seal (part 4) i.address1;
    address2 = seal_opt h.seal (part 5) i.address2;
    address3 = seal_opt h.seal (part 6) i.address3;
    city = seal_opt h.seal (part 7) i.city;
    state = seal_opt h.seal (part 8) i.state;
    postal_code = seal_opt h.seal (part 9) i.postal_code;
    country = seal_opt h.seal (part 10) i.country;
    email = seal_opt h.seal (part 11) i.email;
    phone = seal_opt h.seal (part 12) i.phone;
    ssn = seal_opt h.seal (part 13) i.ssn;
    license_number = seal_opt h.seal (part 14) i.license_number;
    passport_number = seal_opt h.seal (part 15) i.passport_number;
    username = seal_opt h.seal (part 16) i.username;
  }

  pub identity_back :
      (i : Identity)
      → (v : CipherIdentity) × (encrypt_identity enc i ≡ ok v)
        × (decrypt_identity d (to_identity (some v)) ≡ i)
  unfolding encrypt_identity decrypt_identity to_identity
  identity_back i = (sealed_identity i, simp encrypt-eq, simp opt-seal)

  abbrev sealed_bank_account : BankAccount → CipherBankAccount
  sealed_bank_account b = record {
    bank_name = seal_opt h.seal (part 0) b.bank_name;
    name_on_account = seal_opt h.seal (part 1) b.name_on_account;
    account_type = seal_opt h.seal (part 2) b.account_type;
    account_number = seal_opt h.seal (part 3) b.account_number;
    routing_number = seal_opt h.seal (part 4) b.routing_number;
    branch_number = seal_opt h.seal (part 5) b.branch_number;
    pin = seal_opt h.seal (part 6) b.pin;
    swift_code = seal_opt h.seal (part 7) b.swift_code;
    iban = seal_opt h.seal (part 8) b.iban;
    bank_contact_phone = seal_opt h.seal (part 9) b.bank_contact_phone;
  }

  pub bank_account_back :
      (b : BankAccount)
      → (v : CipherBankAccount) × (encrypt_bank_account enc b ≡ ok v)
        × (decrypt_bank_account d (to_bank_account (some v)) ≡ b)
  unfolding encrypt_bank_account decrypt_bank_account to_bank_account
  bank_account_back b = (sealed_bank_account b, simp encrypt-eq, simp opt-seal)

  abbrev sealed_drivers_license : DriversLicense → CipherDriversLicense
  sealed_drivers_license l = record {
    first_name = seal_opt h.seal (part 0) l.first_name;
    middle_name = seal_opt h.seal (part 1) l.middle_name;
    last_name = seal_opt h.seal (part 2) l.last_name;
    date_of_birth = seal_opt h.seal (part 3) l.date_of_birth;
    license_number = seal_opt h.seal (part 4) l.license_number;
    issuing_country = seal_opt h.seal (part 5) l.issuing_country;
    issuing_state = seal_opt h.seal (part 6) l.issuing_state;
    issue_date = seal_opt h.seal (part 7) l.issue_date;
    expiration_date = seal_opt h.seal (part 8) l.expiration_date;
    issuing_authority = seal_opt h.seal (part 9) l.issuing_authority;
    license_class = seal_opt h.seal (part 10) l.license_class;
  }

  pub drivers_license_back :
      (l : DriversLicense)
      → (v : CipherDriversLicense) × (encrypt_drivers_license enc l ≡ ok v)
        × (decrypt_drivers_license d (to_drivers_license (some v)) ≡ l)
  unfolding encrypt_drivers_license decrypt_drivers_license to_drivers_license
  drivers_license_back l = (sealed_drivers_license l, simp encrypt-eq, simp opt-seal)

  abbrev sealed_passport : Passport → CipherPassport
  sealed_passport p = record {
    surname = seal_opt h.seal (part 0) p.surname;
    given_name = seal_opt h.seal (part 1) p.given_name;
    date_of_birth = seal_opt h.seal (part 2) p.date_of_birth;
    sex = seal_opt h.seal (part 3) p.sex;
    birth_place = seal_opt h.seal (part 4) p.birth_place;
    nationality = seal_opt h.seal (part 5) p.nationality;
    issuing_country = seal_opt h.seal (part 6) p.issuing_country;
    passport_number = seal_opt h.seal (part 7) p.passport_number;
    passport_type = seal_opt h.seal (part 8) p.passport_type;
    national_identification_number = seal_opt h.seal (part 9) p.national_identification_number;
    issuing_authority = seal_opt h.seal (part 10) p.issuing_authority;
    issue_date = seal_opt h.seal (part 11) p.issue_date;
    expiration_date = seal_opt h.seal (part 12) p.expiration_date;
  }

  pub passport_back :
      (p : Passport)
      → (v : CipherPassport) × (encrypt_passport enc p ≡ ok v)
        × (decrypt_passport d (to_passport (some v)) ≡ p)
  unfolding encrypt_passport decrypt_passport to_passport
  passport_back p = (sealed_passport p, simp encrypt-eq, simp opt-seal)

  abbrev sealed_ssh_key : SshKey → CipherSshKey
  sealed_ssh_key s = record {
    private_key = seal_opt h.seal (part 0) s.private_key;
    public_key = seal_opt h.seal (part 1) s.public_key;
    fingerprint = none;
  }

  pub ssh_key_back :
      (s : SshKey)
      → (v : CipherSshKey) × (encrypt_ssh_key enc s ≡ ok v)
        × (decrypt_ssh_key d (to_ssh_key (some v)) ≡ record s { fingerprint = none })
  unfolding encrypt_ssh_key decrypt_ssh_key to_ssh_key
  ssh_key_back s = (sealed_ssh_key s, simp encrypt-eq, simp opt-seal)

  unfoldable pub sealed_uris : ℕ → List Uri → List Object
  sealed_uris n [] = []
  sealed_uris n (u ∷ us) = uri_value (h.seal (uri n) u.uri) u.match_type ∷ sealed_uris (suc n) us

  pub encrypt_uris-eq : (n : ℕ) (us : List Uri) → encrypt_uris enc n us ≡ ok (sealed_uris n us)
  unfolding encrypt_uris sealed_uris
  encrypt_uris-eq n [] = refl
  encrypt_uris-eq n (u ∷ us) = rw (h.enc-eq (uri n) u.uri, encrypt_uris-eq (suc n) us)

  unfoldable pub read_sealed : ℕ → List Uri → List CipherUri
  read_sealed n [] = []
  read_sealed n (u ∷ us) =
      record { uri = some (h.seal (uri n) u.uri); match_type = some domain }
      ∷ read_sealed (suc n) us

  pub read_uris-sealed :
      (n : ℕ) (us : List Uri) → read_uris (sealed_uris n us) ≡ some (read_sealed n us)
  unfolding read_uris read_uri sealed_uris read_sealed
  read_uris-sealed n [] = refl
  read_uris-sealed n (u ∷ us) = rw (read_uris-sealed (suc n) us)

  pub uris_back :
      (n : ℕ) (us : List Uri)
      → map (decrypt_uri d) (entry_uris (read_sealed n us)) ≡ map by_domain us
  unfolding read_sealed
  uris_back n [] = refl
  uris_back n (u ∷ us) =
      rw (h.decrypt-seal (uri n) u.uri, or_keep) (ap (◌∷◌ (by_domain u)) (uris_back (suc n) us))

  abbrev sealed_login : Login → LoginValue
  sealed_login l = record {
    username = seal_opt h.seal (part 0) l.username;
    password = seal_opt h.seal (part 1) l.password;
    totp = seal_opt h.seal (part 2) l.totp;
    uris = some (sealed_uris 0 l.uris);
  }

  abbrev read_login_of : Login → CipherLogin
  read_login_of l = record {
    username = seal_opt h.seal (part 0) l.username;
    password = seal_opt h.seal (part 1) l.password;
    totp = seal_opt h.seal (part 2) l.totp;
    uris = some (read_sealed 0 l.uris);
  }

  pub login_back :
      (l : Login)
      → (v : LoginValue) × (r : CipherLogin) × (encrypt_login enc l ≡ ok v)
        × (read_login (some v) ≡ some (some r))
        × (decrypt_login d (to_login (some r)) ≡ record l { uris = map by_domain l.uris })
  unfolding encrypt_login decrypt_login to_login read_login
  login_back l = (
    sealed_login l,
    read_login_of l,
    simp (encrypt-eq, encrypt_uris-eq),
    rw (read_uris-sealed 0 l.uris),
    simp (opt-seal, uris_back),
  )

  abbrev sealed_field : ℕ → Field → CipherField
  sealed_field n f = record {
    name = seal_opt h.seal (field_name n) f.name;
    value = seal_opt h.seal (field_value n) f.value;
    ty = f.ty;
    linked_id = f.linked_id;
  }

  sealed_fields : ℕ → List Field → List CipherField
  sealed_fields n [] = []
  sealed_fields n (f ∷ fs) = sealed_field n f ∷ sealed_fields (suc n) fs

  encrypt_fields-eq : (n : ℕ) (fs : List Field) → encrypt_fields enc n fs ≡ ok (sealed_fields n fs)
  unfolding encrypt_fields sealed_fields
  encrypt_fields-eq n [] = refl
  encrypt_fields-eq n (f ∷ fs) = simp (encrypt-eq, encrypt_fields-eq (suc n) fs)

  pub opt_keep-seal : (slot : Slot) (o : Option String) → opt_keep d (seal_opt h.seal slot o) ≡ o
  opt_keep-seal slot none = refl
  opt_keep-seal slot (some s) = rw (h.decrypt-seal slot s, or_keep)

  decrypt_fields-sealed :
      (n : ℕ) (fs : List Field) → map (decrypt_field d) (map entry_field (sealed_fields n fs)) ≡ fs
  unfolding sealed_fields
  decrypt_fields-sealed n [] = refl
  decrypt_fields-sealed n (f ∷ fs) =
      simp (opt-seal, opt_keep-seal, decrypt_fields-sealed (suc n) fs)

  pub fields_back :
      (fs : List Field)
      → (v : List CipherField) × (encrypt_fields enc 0 fs ≡ ok v)
        × (map (decrypt_field d) (map entry_field v) ≡ fs)
  fields_back fs = (sealed_fields 0 fs, encrypt_fields-eq 0 fs, decrypt_fields-sealed 0 fs)
