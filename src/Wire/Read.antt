-- ===== src/Wire/Read.antt =====
-- `SyncResCipher::to_entry` of crates/cosmarden-core/src/api/models/vault.rs, and how serde reads the URIs of a login.
use cosmic_bwarden.Base.{
  String, Option, none, some, List, [], ◌∷◌, map, lookup, ◌==◌, string_eq, nat_eq, if◌then◌else◌,
}
use cosmic_bwarden.Entry.{
  Entry, EntryData, login, card, identity, secure_note, ssh_key, bank_account, drivers_license,
  passport, Login, Card, Identity, SshKey, BankAccount, DriversLicense, Passport, Field, Uri,
  HistoryEntry, UriMatchType, domain,
}
use cosmic_bwarden.Wire.{
  CipherUri, CipherLogin, CipherCard, CipherIdentity, CipherSshKey, CipherBankAccount,
  CipherDriversLicense, CipherPassport, CipherField, SyncResPasswordHistory, SyncResFolder,
  SyncResCipher, Json, null, text, number, Object, LoginValue, match_of,
}

-- A text or null; no other value is read as an `Option<String>`.
abbrev pub read_text : Option Json → Option (Option String)
read_text none = some none
read_text (some null) = some none
read_text (some (text s)) = some (some s)
read_text (some (number n)) = none

abbrev pub some_match : Option UriMatchType → Option (Option UriMatchType)
some_match none = none
some_match (some m) = some (some m)

-- A key that is missing reads as `default_uri_match_type()`.
abbrev pub read_match : Option Json → Option (Option UriMatchType)
read_match none = some (some domain)
read_match (some null) = some none
read_match (some (text s)) = none
read_match (some (number n)) = some_match (match_of n)

abbrev pub cipher_uri : Option (Option String) → Option (Option UriMatchType) → Option CipherUri
cipher_uri none m = none
cipher_uri (some u) none = none
cipher_uri (some u) (some m) = some (record { uri = u; match_type = m })

-- `CipherUri` is read under the names of its fields, `uri` and `match_type`; other keys are passed over.
unfoldable pub read_uri : Object → Option CipherUri
read_uri o = cipher_uri (read_text (lookup "uri" o)) (read_match (lookup "match_type" o))

abbrev pub cons_uri : Option CipherUri → Option (List CipherUri) → Option (List CipherUri)
cons_uri none us = none
cons_uri (some u) none = none
cons_uri (some u) (some us) = some (u ∷ us)

unfoldable pub read_uris : List Object → Option (List CipherUri)
unfolding read_uri
read_uris [] = some []
read_uris (o ∷ os) = cons_uri (read_uri o) (read_uris os)

abbrev pub cipher_login : LoginValue → Option (List CipherUri) → Option (Option CipherLogin)
cipher_login v none = none
cipher_login v (some us) =
    some (
      some (record { username = v.username; password = v.password; totp = v.totp; uris = some us }))

abbrev pub read_some_login : LoginValue → Option (List Object) → Option (Option CipherLogin)
read_some_login v none =
    some
      (some (record { username = v.username; password = v.password; totp = v.totp; uris = none }))
read_some_login v (some os) = cipher_login v (read_uris os)

-- The login of a response whose JSON is the given one; `none` says that it is no login.
unfoldable pub read_login : Option LoginValue → Option (Option CipherLogin)
read_login none = some none
read_login (some v) = read_some_login v v.uris

-- `part.and_then(|p| p.field.clone())`
abbrev pub and_then : {A : Type 0} → Option A → (A → Option String) → Option String
and_then none f = none
and_then (some a) f = f a

abbrev pub entry_uris : List CipherUri → List Uri
entry_uris [] = []
entry_uris (u ∷ us) =
    let rest = entry_uris us in
    elim u.uri [ none ↦ rest | some s ↦ record { uri = s; match_type = u.match_type } ∷ rest ]

abbrev pub uris_or_empty : Option (List CipherUri) → List Uri
uris_or_empty none = []
uris_or_empty (some us) = entry_uris us

abbrev pub uris_of_login : Option CipherLogin → List Uri
uris_of_login none = []
uris_of_login (some l) = uris_or_empty l.uris

unfoldable pub to_login : Option CipherLogin → Login
to_login l = record {
  username = and_then l (λ x. x.username);
  password = and_then l (λ x. x.password);
  totp = and_then l (λ x. x.totp);
  uris = uris_of_login l;
}

unfoldable pub to_card : Option CipherCard → Card
to_card c = record {
  cardholder_name = and_then c (λ x. x.cardholder_name);
  number = and_then c (λ x. x.number);
  brand = and_then c (λ x. x.brand);
  exp_month = and_then c (λ x. x.exp_month);
  exp_year = and_then c (λ x. x.exp_year);
  code = and_then c (λ x. x.code);
}

unfoldable pub to_identity : Option CipherIdentity → Identity
to_identity i = record {
  title = and_then i (λ x. x.title);
  first_name = and_then i (λ x. x.first_name);
  middle_name = and_then i (λ x. x.middle_name);
  last_name = and_then i (λ x. x.last_name);
  address1 = and_then i (λ x. x.address1);
  address2 = and_then i (λ x. x.address2);
  address3 = and_then i (λ x. x.address3);
  city = and_then i (λ x. x.city);
  state = and_then i (λ x. x.state);
  postal_code = and_then i (λ x. x.postal_code);
  country = and_then i (λ x. x.country);
  phone = and_then i (λ x. x.phone);
  email = and_then i (λ x. x.email);
  ssn = and_then i (λ x. x.ssn);
  license_number = and_then i (λ x. x.license_number);
  passport_number = and_then i (λ x. x.passport_number);
  username = and_then i (λ x. x.username);
}

unfoldable pub to_ssh_key : Option CipherSshKey → SshKey
to_ssh_key s = record {
  private_key = and_then s (λ x. x.private_key);
  public_key = and_then s (λ x. x.public_key);
  fingerprint = and_then s (λ x. x.fingerprint);
}

unfoldable pub to_bank_account : Option CipherBankAccount → BankAccount
to_bank_account b = record {
  bank_name = and_then b (λ x. x.bank_name);
  name_on_account = and_then b (λ x. x.name_on_account);
  account_type = and_then b (λ x. x.account_type);
  account_number = and_then b (λ x. x.account_number);
  routing_number = and_then b (λ x. x.routing_number);
  branch_number = and_then b (λ x. x.branch_number);
  pin = and_then b (λ x. x.pin);
  swift_code = and_then b (λ x. x.swift_code);
  iban = and_then b (λ x. x.iban);
  bank_contact_phone = and_then b (λ x. x.bank_contact_phone);
}

unfoldable pub to_drivers_license : Option CipherDriversLicense → DriversLicense
to_drivers_license l = record {
  first_name = and_then l (λ x. x.first_name);
  middle_name = and_then l (λ x. x.middle_name);
  last_name = and_then l (λ x. x.last_name);
  date_of_birth = and_then l (λ x. x.date_of_birth);
  license_number = and_then l (λ x. x.license_number);
  issuing_country = and_then l (λ x. x.issuing_country);
  issuing_state = and_then l (λ x. x.issuing_state);
  issue_date = and_then l (λ x. x.issue_date);
  expiration_date = and_then l (λ x. x.expiration_date);
  issuing_authority = and_then l (λ x. x.issuing_authority);
  license_class = and_then l (λ x. x.license_class);
}

unfoldable pub to_passport : Option CipherPassport → Passport
to_passport p = record {
  surname = and_then p (λ x. x.surname);
  given_name = and_then p (λ x. x.given_name);
  date_of_birth = and_then p (λ x. x.date_of_birth);
  sex = and_then p (λ x. x.sex);
  birth_place = and_then p (λ x. x.birth_place);
  nationality = and_then p (λ x. x.nationality);
  issuing_country = and_then p (λ x. x.issuing_country);
  passport_number = and_then p (λ x. x.passport_number);
  passport_type = and_then p (λ x. x.passport_type);
  national_identification_number = and_then p (λ x. x.national_identification_number);
  issuing_authority = and_then p (λ x. x.issuing_authority);
  issue_date = and_then p (λ x. x.issue_date);
  expiration_date = and_then p (λ x. x.expiration_date);
}

-- `match self.ty`; a type that is not known is skipped.
unfoldable pub to_data : SyncResCipher → Option EntryData
unfolding to_login to_card to_identity to_ssh_key to_bank_account to_drivers_license to_passport
to_data r =
    if r.ty == 1
    then some (login (to_login r.login))
    else if r.ty == 2
    then some secure_note
    else if r.ty == 3
    then some (card (to_card r.card))
    else if r.ty == 4
    then some (identity (to_identity r.identity))
    else if r.ty == 5
    then some (ssh_key (to_ssh_key r.ssh_key))
    else if r.ty == 6
    then some (bank_account (to_bank_account r.bank_account))
    else if r.ty == 7
    then some (drivers_license (to_drivers_license r.drivers_license))
    else if r.ty == 8
    then some (passport (to_passport r.passport))
    else none

-- The name of the last folder with that id.
unfoldable pub folder_name : String → Option String → List SyncResFolder → Option String
folder_name id found [] = found
folder_name id found (f ∷ fs) = folder_name id (if f.id == id then some f.name else found) fs

abbrev pub entry_history : List SyncResPasswordHistory → List HistoryEntry
entry_history [] = []
entry_history (h ∷ hs) =
    let rest = entry_history hs in
    elim h.password [
      | none ↦ rest
      | some p ↦ record { last_used_date = h.last_used_date; password = p } ∷ rest
    ]

abbrev pub entry_field : CipherField → Field
entry_field f = record { ty = f.ty; name = f.name; value = f.value; linked_id = f.linked_id }

abbrev pub or_empty : {A : Type 0} → Option (List A) → List A
or_empty none = []
or_empty (some xs) = xs

abbrev pub folder_of : List SyncResFolder → Option String → Option String
folder_of folders none = none
folder_of folders (some id) = folder_name id none folders

abbrev pub with_data : List SyncResFolder → SyncResCipher → Option EntryData → Option Entry
with_data folders r none = none
with_data folders r (some d) = some (record {
  id = r.id;
  org_id = r.organization_id;
  folder = folder_of folders r.folder_id;
  folder_id = r.folder_id;
  name = r.name;
  favorite = r.favorite;
  content = d;
  fields = map entry_field (or_empty r.fields);
  notes = r.notes;
  history = entry_history (or_empty r.password_history);
  key = r.key;
  reprompt = r.reprompt;
})

abbrev pub unless_deleted : Option String → Option Entry → Option Entry
unless_deleted none e = e
unless_deleted (some when) e = none

unfoldable pub to_entry : List SyncResFolder → SyncResCipher → Option Entry
unfolding to_data
to_entry folders r = unless_deleted r.deleted_date (with_data folders r (to_data r))
