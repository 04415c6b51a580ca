-- ===== src/Query/Release.antt =====
-- The requests for one secret: `GetPassword` in crates/cosmarden-agent/src/handler/vault/mod.rs, `handle_get_totp` in
-- crates/cosmarden-agent/src/handler/vault/ops.rs and crates/cosmarden-agent/src/handler/vault/totp.rs.
-- The one-time passwords themselves are computed by the crate totp_rs, whose functions are arguments.
use cosmic_bwarden.Base.{
  ℕ, String, not, ◌⊎◌, inl, inr, Option, none, some, List, Text, codes, retain, if◌then◌else◌,
}
use cosmic_bwarden.Base.Strings.{starts_with, is_whitespace}
use cosmic_bwarden.Crypto.{Crypto, Outcome, ok, err, panic}
use cosmic_bwarden.CipherString.{Keys}
use cosmic_bwarden.Entry.{
  Entry, EntryData, login, card, identity, secure_note, ssh_key, bank_account, drivers_license,
  passport, Secret,
}
use cosmic_bwarden.Entry.Decrypt.{OrgKeys}
use cosmic_bwarden.Protocol.{Response, error, entry, password, totp, plain, because}
use cosmic_bwarden.State.{State, Db, Platform}
use cosmic_bwarden.Identity.{Kdf}
use cosmic_bwarden.Session.{ConfigRead}
use cosmic_bwarden.Query.{handle_get_entry, find_entry, passed_reprompt, or_refuse, decrypt_entry}

abbrev pub password_or : String → Option Secret → Response
password_or refusal none = error (plain refusal)
password_or refusal (some s) = password s

-- The secret that `GetPassword` gives of an entry, by its type.
unfoldable pub password_of : Entry → EntryData → Response
password_of e (login d) = password_or "entry has no password" d.password
password_of e (ssh_key d) = password_or "entry has no password" d.private_key
password_of e (card d) = password_or "entry has no password" d.number
password_of e (bank_account d) = password_or "entry has no password" d.account_number
password_of e (drivers_license d) = password_or "entry has no password" d.license_number
password_of e (passport d) = password_or "entry has no password" d.passport_number
password_of e secure_note = password_or "entry has no notes" e.notes
password_of e (identity d) = error (plain "entry has no password")

abbrev pub password_of_answer : Response → Response
password_of_answer (entry e) = password_of e e.content
password_of_answer r = r

abbrev pub map_ok {ℓ κ} : {A : Type ℓ} {B : Type κ} → (A → B) → Outcome A → Outcome B
map_ok f (ok a) = ok (f a)
map_ok f (err e) = err e
map_ok f panic = panic

-- totp_rs, and the upper-casing of Unicode. The left is the text of an error.
pub record TotpLibrary : Type 1 where
  pub Generator : Type 0
  pub from_url_unchecked : Text → String ⊎ Generator
  pub decode_base32 : Text → String ⊎ List ℕ
  -- SHA-1, 6 digits, a skew of 1 and a step of 30 seconds
  pub new_unchecked : List ℕ → Generator
  pub generate_current : Generator → String ⊎ Secret
  pub to_uppercase : Text → Text

module _ (t : TotpLibrary) where
  abbrev pub or_because {ℓ} : {A : Type ℓ} → String → String ⊎ A → (A → Response) → Response
  or_because message (inl e) f = error (because message e)
  or_because message (inr a) f = f a

  abbrev pub code_of : t.Generator → Response
  code_of g = or_because "TOTP generation failed: " (t.generate_current g) totp

  -- `generate_code (build secret)`
  unfoldable pub generate_code : Text → Response
  generate_code secret =
      if starts_with secret (codes "otpauth://")
      then or_because "Invalid otpauth URL: " (t.from_url_unchecked secret) code_of
      else or_because "Invalid TOTP secret: "
          (t.decode_base32 (t.to_uppercase (retain (λ ch. not (is_whitespace ch)) secret)))
          (λ key. code_of (t.new_unchecked key))

  abbrev pub totp_code : Option Secret → Response
  totp_code none = error (plain "Entry has no TOTP secret")
  totp_code (some s) = generate_code (codes s)

  abbrev pub totp_of : EntryData → Response
  totp_of (login d) = totp_code d.totp
  totp_of _ = error (plain "Entry has no TOTP secret")

  module _ (p : Platform) (c : Crypto) (k : Kdf) (cfg : ConfigRead) where
    abbrev pub totp_answer : Option Entry → Option Keys → Option OrgKeys → Response
    totp_answer (some e) (some keys) org_keys = totp_of (decrypt_entry p keys org_keys e).content
    totp_answer e keys org_keys = error (plain "Agent is locked or entry not found")

    abbrev pub totp_in :
        Option String → Option Keys → Option OrgKeys → Db → Option Entry → Outcome Response
    totp_in pw keys org_keys db none = ok (totp_answer none keys org_keys)
    totp_in pw keys org_keys db (some e) =
        or_refuse p c k cfg (passed_reprompt p c k cfg pw db e) (totp_answer (some e) keys org_keys)

    abbrev pub totp_from :
        String → Option String → Option Keys → Option OrgKeys → Option Db → Outcome Response
    totp_from id pw keys org_keys none = ok (totp_answer none keys org_keys)
    totp_from id pw keys org_keys (some db) = totp_in pw keys org_keys db (find_entry id db)

    unfoldable pub handle_get_totp : String → Option String → State → Outcome Response
    unfolding generate_code
    handle_get_totp id pw s = totp_from id pw s.keys s.org_keys s.db

module _ (p : Platform) (c : Crypto) (k : Kdf) (cfg : ConfigRead) where
  unfoldable pub handle_get_password : String → Option String → State → Outcome Response
  unfolding password_of
  handle_get_password id pw s = map_ok password_of_answer (handle_get_entry p c k cfg id pw s)
