-- ===== src/Query.antt =====
-- crates/cosmarden-agent/src/handler/vault/query.rs, and the requests for one secret in
-- crates/cosmarden-agent/src/handler/vault/mod.rs (`GetPassword`) and
-- crates/cosmarden-agent/src/handler/vault/ops.rs (`handle_get_totp`): what the agent answers about the vault.
pub mod Release
pub mod Secrecy
pub mod Reprompt
pub mod Guard
use cosmic_bwarden.Base.{
  ℕ, String, Bool, true, false, not, ◌&&◌, ◌||◌, Option, none, some, List, [], ◌∷◌, map, Text,
  codes, any, find, retain, ◌==◌, string_eq, nat_eq, list_eq, if◌then◌else◌,
}
use cosmic_bwarden.Base.Strings.{contains}
use cosmic_bwarden.Crypto.{Crypto, Bytes, Outcome, ok, err, panic, ◌>>=◌}
use cosmic_bwarden.CipherString.{Keys, locked_vec}
use cosmic_bwarden.Entry.{
  Entry, EntryData, login, card, identity, secure_note, ssh_key, bank_account, drivers_license,
  passport, Secret, master_password_reprompt,
}
use cosmic_bwarden.Entry.Decrypt.{OrgKeys, entry_keys, decrypt}
use cosmic_bwarden.Vault.{unlock_from_keys}
use cosmic_bwarden.Domain.{host_from_uri, hosts_match}
use cosmic_bwarden.Redact.{redact_entry_secrets, filled_secret_keys}
use cosmic_bwarden.Protocol
use cosmic_bwarden.Protocol.{
  EntryType, SidebarEntry, Response, error, entries, sidebar_entries, entry, entry_meta, password,
  totp, Message, plain, because, failure,
}
use cosmic_bwarden.State.{State, Db, Platform, CachedSidebarEntry, KdfType, pbkdf2, or_no_keys}
use cosmic_bwarden.Identity.{Kdf, Identity, new_identity}
use cosmic_bwarden.Session.{ConfigRead, unreadable, no_email, has_email}

-- The place of a constructor: `==` on `EntryType` compares these.
abbrev pub type_number : EntryType → ℕ
type_number EntryType.login = 0
type_number EntryType.card = 1
type_number EntryType.identity = 2
type_number EntryType.secure_note = 3
type_number EntryType.ssh_key = 4
type_number EntryType.bank_account = 5
type_number EntryType.drivers_license = 6
type_number EntryType.passport = 7

abbrev pub is_login : EntryData → Bool
is_login (login d) = true
is_login _ = false

abbrev pub kind_of : EntryData → EntryType
kind_of (login d) = EntryType.login
kind_of (card d) = EntryType.card
kind_of (identity d) = EntryType.identity
kind_of secure_note = EntryType.secure_note
kind_of (ssh_key d) = EntryType.ssh_key
kind_of (bank_account d) = EntryType.bank_account
kind_of (drivers_license d) = EntryType.drivers_license
kind_of (passport d) = EntryType.passport

-- No type, or this one.
abbrev pub has_type : Option EntryType → EntryType → Bool
has_type none t = true
has_type (some et) t = type_number t == type_number et

abbrev pub or_default {ℓ} : {A : Type ℓ} → Option A → A → A
or_default none d = d
or_default (some a) d = a

abbrev pub secret_or_empty : Option Secret → String
secret_or_empty none = ""
secret_or_empty (some s) = s

abbrev pub agent_locked : Response
agent_locked = error (plain "agent is locked")

-- `db.entries.iter().find(|e| e.id == id)`
abbrev pub find_entry : String → Db → Option Entry
find_entry id db = find (λ e. e.id == id) db.entries

module _ (p : Platform) where
  abbrev pub lower : String → Text
  lower s = p.names.to_lowercase (codes s)

  abbrev pub lower_contains : Option String → Text → Bool
  lower_contains none q = false
  lower_contains (some u) q = contains (lower u) q

  -- A typed search wins over the domain.
  abbrev pub row_matches : Option Text → Option Text → CachedSidebarEntry → Bool
  row_matches (some q) d c =
      contains (lower c.entry.name) q || codes c.entry.id == q || lower_contains c.entry.username q
  row_matches none (some d) c = any (λ h. hosts_match p.names h d) c.hosts
  row_matches none none c = true

  unfoldable pub row_shown :
      Option Text → Option Text → Option EntryType → Bool → CachedSidebarEntry → Bool
  row_shown q d entry_type only_pinned c =
      not (only_pinned && not c.entry.is_pinned)
      && has_type entry_type c.entry.entry_type
      && row_matches q d c

  abbrev pub typed : Option String → Option Text
  typed none = none
  typed (some q) = some (lower q)

  abbrev pub domain_host : Option String → Option String → Option Text
  domain_host none (some d) = host_from_uri p.names (codes d)
  domain_host query domain = none

  unfoldable pub handle_get_sidebar_entries :
      Option String → Option EntryType → Bool → Option String → State → Response
  unfolding row_shown
  handle_get_sidebar_entries query entry_type only_pinned domain s = elim s.keys [
    | none ↦ agent_locked
    | some _ ↦ sidebar_entries (
        map (λ c. c.entry)
          (retain (row_shown (typed query) (domain_host query domain) entry_type only_pinned)
            s.sidebar_cache))
  ]

  abbrev pub username_of : EntryData → Option String
  username_of (login l) = l.username
  username_of _ = none

  abbrev pub entry_found : Option String → Entry → Bool
  entry_found none e = true
  entry_found (some q) e =
      contains (lower e.name) (lower q)
      || codes e.id == lower q
      || lower_contains (username_of e.content) (lower q)

  -- `entry.decrypt(keys, org_keys)`
  abbrev pub decrypt_entry : Keys → Option OrgKeys → Entry → Entry
  decrypt_entry keys org_keys e = decrypt p.vault_decrypt keys (or_no_keys org_keys) e

  -- One pass of the bulk read.
  abbrev pub bulk : Keys → Option OrgKeys → Option EntryType → Bool → List Entry → List Entry
  bulk keys org_keys entry_type only_pinned [] = []
  bulk keys org_keys entry_type only_pinned (e ∷ es) =
      let rest = bulk keys org_keys entry_type only_pinned es in
      if not (only_pinned && not e.favorite) && has_type entry_type (kind_of e.content)
      then redact_entry_secrets (decrypt_entry keys org_keys e) ∷ rest
      else rest

  -- What a handler does with a database and keys; it refuses without either.
  abbrev pub when_unlocked {ℓ} : {A : Type ℓ} → A → Option Db → Option Keys → (Db → Keys → A) → A
  when_unlocked refusal (some db) (some keys) f = f db keys
  when_unlocked refusal db keys f = refusal

  unfoldable pub handle_get_entries : Option String → Option EntryType → Bool → State → Response
  handle_get_entries query entry_type only_pinned s =
      when_unlocked agent_locked s.db s.keys (λ db keys.
        entries
          (retain (entry_found query) (bulk keys s.org_keys entry_type only_pinned db.entries)))

  abbrev pub meta_of : Keys → Option OrgKeys → Option Entry → Response
  meta_of keys org_keys none = error (plain "entry not found")
  meta_of keys org_keys (some e) =
      entry_meta (redact_entry_secrets (decrypt_entry keys org_keys e))
        (filled_secret_keys (decrypt_entry keys org_keys e))

  unfoldable pub handle_get_entry_meta : String → State → Response
  handle_get_entry_meta id s =
      when_unlocked agent_locked s.db s.keys (λ db keys. meta_of keys s.org_keys (find_entry id db))

  -- The password of a reprompt is proved by decrypting the protected key with it.
  module _ (c : Crypto) (k : Kdf) (cfg : ConfigRead) where
    abbrev pub proof_answer : Outcome (Keys × OrgKeys) → Outcome (Option Response)
    proof_answer (ok r) = ok none
    proof_answer (err e) = ok (some (error (plain "incorrect password")))
    proof_answer panic = panic

    abbrev pub prove_password : Db → Outcome Identity → Outcome (Option Response)
    prove_password db (ok id) =
        proof_answer (unlock_from_keys c id.keys (secret_or_empty db.protected_key) none [])
    prove_password db (err e) = ok (some (error (failure "identity derivation failed: " e)))
    prove_password db panic = panic

    abbrev pub verify_as : ConfigRead → String → Db → Outcome (Option Response)
    verify_as (unreadable e) pw db = ok (some (error (because "failed to load config: " e)))
    verify_as no_email pw db = ok (some (error (plain "email not set in config")))
    verify_as (has_email email) pw db = do
      bytes ← locked_vec (c.to_utf8 pw)
      prove_password db (
          new_identity c k p.names.to_lowercase email bytes (or_default db.kdf pbkdf2)
            (or_default db.iterations 100000) db.memory db.parallelism)

    unfoldable pub verify_reprompt : Option String → Db → Outcome (Option Response)
    verify_reprompt none db = ok (some (error (plain "reprompt_required")))
    verify_reprompt (some pw) db = verify_as cfg pw db

    -- The answer, once the reprompt of the entry has been passed.
    abbrev pub or_refuse : Outcome (Option Response) → Response → Outcome Response
    or_refuse (ok none) r = ok r
    or_refuse (ok (some refusal)) r = ok refusal
    or_refuse (err e) r = err e
    or_refuse panic r = panic

    abbrev pub passed_reprompt : Option String → Db → Entry → Outcome (Option Response)
    passed_reprompt pw db e = if master_password_reprompt e then verify_reprompt pw db else ok none

    abbrev pub entry_of :
        Option String → Db → Keys → Option OrgKeys → Option Entry → Outcome Response
    entry_of pw db keys org_keys none = ok (error (plain "entry not found"))
    entry_of pw db keys org_keys (some e) =
        or_refuse (passed_reprompt pw db e) (entry (decrypt_entry keys org_keys e))

    unfoldable pub handle_get_entry : String → Option String → State → Outcome Response
    handle_get_entry id pw s =
        when_unlocked (ok agent_locked) s.db s.keys
          (λ db keys. entry_of pw db keys s.org_keys (find_entry id db))
