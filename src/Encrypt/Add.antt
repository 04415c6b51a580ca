-- ===== src/Encrypt/Add.antt =====
-- crates/cosmarden-agent/src/server/ops/add.rs: the request that creates an entry on the server, with the functions of
-- crates/cosmarden-core/src/api/client/ops.rs that write its body.
use cosmic_bwarden.Base.{
  ℕ, String, Bool, false, Option, none, some, List, [], ◌∷◌, ◌==◌, ◌||◌, nat_eq, if◌then◌else◌,
}
use cosmic_bwarden.Crypto.{Crypto, Outcome, ok, panic, ◌>>=◌, or_err, other}
use cosmic_bwarden.CipherString.{Keys}
use cosmic_bwarden.Entry.{
  Entry, EntryData, login, card, identity, secure_note, ssh_key, bank_account, drivers_license,
  passport, Login, Identity, SshKey, Uri, no_reprompt,
}
use cosmic_bwarden.Wire.{
  CipherCard, CipherIdentity, CipherBankAccount, CipherDriversLicense, CipherPassport, CipherField,
  Object, CiphersPostReq,
}
use cosmic_bwarden.Encrypt.{
  Ivs, Slot, name, notes, part, encrypt_text, encrypt, encrypt_uris, encrypt_fields, encrypt_card,
  encrypt_bank_account, encrypt_drivers_license, encrypt_passport,
}

-- The variables of `add_entry_on_server` that hold the encrypted parts.
pub record Parts : Type 0 where
  pub ty : ℕ
  pub u_enc : Option String
  pub p_enc : Option String
  pub totp_enc : Option String
  pub uris_enc : Option (List Object)
  pub priv_enc : Option String
  pub pub_enc : Option String
  pub card_payload : Option CipherCard
  pub identity_payload : Option CipherIdentity
  pub bank_payload : Option CipherBankAccount
  pub dl_payload : Option CipherDriversLicense
  pub passport_payload : Option CipherPassport

abbrev pub no_parts : ℕ → Parts
no_parts n = record {
  ty = n;
  u_enc = none;
  p_enc = none;
  totp_enc = none;
  uris_enc = none;
  priv_enc = none;
  pub_enc = none;
  card_payload = none;
  identity_payload = none;
  bank_payload = none;
  dl_payload = none;
  passport_payload = none;
}

module _ (enc : Slot → String → Outcome String) where
  -- Nothing is sent for a login without URIs.
  unfoldable pub encrypt_some_uris : List Uri → Outcome (Option (List Object))
  encrypt_some_uris [] = ok none
  encrypt_some_uris (u ∷ us) = do vs ← encrypt_uris enc 0 (u ∷ us); ok (some vs)

  unfoldable pub add_login : Login → Outcome Parts
  unfolding encrypt_some_uris
  add_login l = do
    u ← encrypt enc (part 0) l.username
    p ← encrypt enc (part 1) l.password
    t ← encrypt enc (part 2) l.totp
    us ← encrypt_some_uris l.uris
    ok (record (no_parts 1) { u_enc = u; p_enc = p; totp_enc = t; uris_enc = us })

  -- Nine of the parts of an identity are encrypted; the others stay blank.
  unfoldable pub add_identity_parts : Identity → Outcome CipherIdentity
  add_identity_parts i = do
    first_name' ← encrypt enc (part 0) i.first_name
    last_name' ← encrypt enc (part 1) i.last_name
    address1' ← encrypt enc (part 2) i.address1
    city' ← encrypt enc (part 3) i.city
    state' ← encrypt enc (part 4) i.state
    postal_code' ← encrypt enc (part 5) i.postal_code
    country' ← encrypt enc (part 6) i.country
    email' ← encrypt enc (part 7) i.email
    phone' ← encrypt enc (part 8) i.phone
    ok (record {
      title = none;
      first_name = first_name';
      middle_name = none;
      last_name = last_name';
      address1 = address1';
      address2 = none;
      address3 = none;
      city = city';
      state = state';
      postal_code = postal_code';
      country = country';
      email = email';
      phone = phone';
      ssn = none;
      license_number = none;
      passport_number = none;
      username = none;
    })

  unfoldable pub add_ssh_parts : SshKey → Outcome Parts
  add_ssh_parts s = do
    priv ← encrypt enc (part 0) s.private_key
    publ ← encrypt enc (part 1) s.public_key
    ok (record (no_parts 5) { priv_enc = priv; pub_enc = publ })

  -- `match &entry.data`
  unfoldable pub add_parts : EntryData → Outcome Parts
  unfolding add_login add_identity_parts add_ssh_parts
  add_parts (login l) = add_login l
  add_parts secure_note = ok (no_parts 2)
  add_parts (identity i) = do
    v ← add_identity_parts i
    ok (record (no_parts 4) { identity_payload = some v })
  add_parts (card c) = do v ← encrypt_card enc c; ok (record (no_parts 3) { card_payload = some v })
  add_parts (ssh_key s) = add_ssh_parts s
  add_parts (bank_account b) = do
    v ← encrypt_bank_account enc b
    ok (record (no_parts 6) { bank_payload = some v })
  add_parts (drivers_license l) = do
    v ← encrypt_drivers_license enc l
    ok (record (no_parts 7) { dl_payload = some v })
  add_parts (passport p) = do
    v ← encrypt_passport enc p
    ok (record (no_parts 8) { passport_payload = some v })

-- The body that all the functions of the client have in common.
abbrev pub blank_request :
    ℕ → String → String → Bool → Option String → List CipherField → CiphersPostReq
blank_request ty user_id name_enc favorite notes_enc fields = record {
  ty = ty;
  encrypted_for = user_id;
  folder_id = none;
  favorite = favorite;
  name = name_enc;
  notes = notes_enc;
  login = none;
  card = none;
  identity = none;
  secure_note = false;
  ssh_key = none;
  bank_account = none;
  drivers_license = none;
  passport = none;
  fields = fields;
  reprompt = no_reprompt;
}

abbrev pub or_blank : Option String → String
or_blank none = ""
or_blank (some s) = s

abbrev pub unwrap : {A : Type 0} → Option A → Outcome A
unwrap none = panic
unwrap (some a) = ok a

module _ (user_id name_enc : String) (favorite : Bool) (notes_enc : Option String)
    (fields : List CipherField) where
  abbrev request : ℕ → CiphersPostReq
  request ty = blank_request ty user_id name_enc favorite notes_enc fields

  unfoldable pub add_cipher :
      ℕ → Option String → Option String → Option String → Option (List Object) → CiphersPostReq
  add_cipher ty username password totp uris = record (request ty) {
    login =
        if ty == 1
        then some (record { username = username; password = password; totp = totp; uris = uris })
        else none;
    secure_note = ty == 2;
  }

  unfoldable pub add_ssh_key : String → Option String → CiphersPostReq
  add_ssh_key private_key public_key = record (request 5) {
    ssh_key =
        some
          (record { private_key = some private_key; public_key = public_key; fingerprint = none });
  }

  unfoldable pub add_card : CipherCard → CiphersPostReq
  add_card c = record (request 3) {
    card = some (record {
      cardholder_name = c.cardholder_name;
      brand = c.brand;
      number = c.number;
      exp_month = c.exp_month;
      exp_year = c.exp_year;
      code = c.code;
    });
  }

  unfoldable pub add_identity : CipherIdentity → CiphersPostReq
  add_identity i = record (request 4) {
    identity = some (record {
      first_name = i.first_name;
      last_name = i.last_name;
      address1 = i.address1;
      city = i.city;
      state = i.state;
      postal_code = i.postal_code;
      country = i.country;
      email = i.email;
      phone = i.phone;
      title = none;
      middle_name = none;
      address2 = none;
      address3 = none;
      ssn = none;
      license_number = none;
      passport_number = none;
      username = none;
    });
  }

  unfoldable pub add_new_type_cipher :
      ℕ
      → Option CipherBankAccount
      → Option CipherDriversLicense
      → Option CipherPassport
      → CiphersPostReq
  add_new_type_cipher ty bank dl pp = record (request ty) {
    bank_account = bank;
    drivers_license = dl;
    passport = pp;
  }

  -- `match ty`, with which the client is called.
  unfoldable pub post : Parts → Outcome CiphersPostReq
  unfolding add_cipher add_ssh_key add_card add_identity add_new_type_cipher
  post p =
      if p.ty == 1 || p.ty == 2
      then ok (add_cipher p.ty p.u_enc p.p_enc p.totp_enc p.uris_enc)
      else if p.ty == 5
      then ok (add_ssh_key (or_blank p.priv_enc) p.pub_enc)
      else if p.ty == 3
      then (unwrap p.card_payload >>= λ c. ok (add_card c))
      else if p.ty == 4
      then (unwrap p.identity_payload >>= λ i. ok (add_identity i))
      else if p.ty == 6
      then (unwrap p.bank_payload >>= λ b. ok (add_new_type_cipher 6 (some b) none none))
      else if p.ty == 7
      then (unwrap p.dl_payload >>= λ l. ok (add_new_type_cipher 7 none (some l) none))
      else if p.ty == 8
      then (unwrap p.passport_payload >>= λ x. ok (add_new_type_cipher 8 none none (some x)))
      else panic

-- `add_entry_on_server` up to its request.
unfoldable pub prepare_add : Crypto → Ivs → Keys → Option String → Entry → Outcome CiphersPostReq
unfolding add_parts post
prepare_add c ivs keys user_id e = do
  let enc = encrypt_text c ivs keys
  name_enc ← enc name e.name
  notes_enc ← encrypt enc notes e.notes
  p ← add_parts enc e.content
  fields_enc ← encrypt_fields enc 0 e.fields
  id ← or_err user_id (other "account user id not cached; sync before adding entries")
  post id name_enc e.favorite notes_enc fields_enc p
