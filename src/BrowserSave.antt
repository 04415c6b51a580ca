-- ===== src/BrowserSave.antt =====
-- crates/cosmarden-agent/src/handler/vault/browser_save.rs: whether a login that was just submitted is in the vault.
pub mod Match
use cosmic_bwarden.Base.{
  String, Bool, true, false, not, ◌&&◌, ◌||◌, Option, none, some, List, [], ◌∷◌, Text, codes, any,
  if◌then◌else◌, ◌==◌, string_eq, list_eq, nat_eq,
}
use cosmic_bwarden.Base.Strings.{trim}
use cosmic_bwarden.CipherString.{Keys}
use cosmic_bwarden.Entry.{Entry, EntryData, login, Uri, Secret}
use cosmic_bwarden.Entry.Decrypt.{OrgKeys}
use cosmic_bwarden.Domain.{Names, host_from_uri, host_from_name, hosts_match}
use cosmic_bwarden.Protocol.{Response, login_match, LoginMatch}
use cosmic_bwarden.State.{State, Db, Platform}
use cosmic_bwarden.State.Cache.{is_never}
use cosmic_bwarden.Query.{agent_locked, decrypt_entry, when_unlocked, is_login}

abbrev pub host_matches : Names → Text → Option Text → Bool
host_matches n domain none = false
host_matches n domain (some h) = hosts_match n h domain

unfoldable pub entry_matches_domain : Names → String → List Uri → Text → Bool
entry_matches_domain n name uris domain =
    any (λ u. not (is_never u.match_type) && host_matches n domain (host_from_uri n (codes u.uri)))
      uris
    || host_matches n domain (host_from_name n (codes name))

abbrev pub no_match : LoginMatch
no_match = record { entry_id = none; name = none; password_matches = false }

abbrev pub match_of : Entry → Bool → LoginMatch
match_of e same = record { entry_id = some e.id; name = some e.name; password_matches = same }

-- What is left of the loop when it ends: the first entry with the right user and domain.
abbrev pub first_or_none : Option Entry → LoginMatch
first_or_none none = no_match
first_or_none (some e) = match_of e false

abbrev pub or_first : Option Entry → Entry → Option Entry
or_first none e = some e
or_first (some f) e = some f

abbrev pub is_same : Option Secret → String → Bool
is_same none password = false
is_same (some p) password = p == password

module _ (p : Platform) where
  -- `s.trim().to_lowercase()`
  abbrev pub folded : String → Text
  folded s = p.names.to_lowercase (trim (codes s))

  abbrev pub user_matches : Option String → Text → Bool
  user_matches none wanted = false
  user_matches (some u) wanted = folded u == wanted

  abbrev pub login_matches : Text → Text → Entry → EntryData → Bool
  login_matches domain wanted e (login l) =
      user_matches l.username wanted && entry_matches_domain p.names e.name l.uris domain
  login_matches domain wanted e _ = false

  abbrev pub same_password : String → EntryData → Bool
  same_password password (login l) = is_same l.password password
  same_password password _ = false

  -- The loop over the decrypted entries; the second list is of those that are logins before decryption too.
  abbrev pub match_loop : Text → Text → String → Option Entry → List Entry → LoginMatch
  match_loop domain wanted password first [] = first_or_none first
  match_loop domain wanted password first (e ∷ es) =
      let found = match_loop domain wanted password (or_first first e) es in
      let skipped = match_loop domain wanted password first es in
      if login_matches domain wanted e e.content
      then if same_password password e.content then match_of e true else found
      else skipped

  abbrev pub decrypted_logins : Keys → Option OrgKeys → List Entry → List Entry
  decrypted_logins keys org_keys [] = []
  decrypted_logins keys org_keys (e ∷ es) =
      let rest = decrypted_logins keys org_keys es in
      if is_login e.content then decrypt_entry p keys org_keys e ∷ rest else rest

  abbrev pub is_blank : Text → Bool
  is_blank [] = true
  is_blank (x ∷ xs) = false

  unfoldable pub handle_check_login_match : String → String → String → State → Response
  unfolding entry_matches_domain
  handle_check_login_match domain username password s =
      when_unlocked p agent_locked s.db s.keys (λ db keys. login_match (
        if is_blank (folded domain) || is_blank (folded username)
        then no_match
        else match_loop (folded domain) (folded username) password none
            (decrypted_logins keys s.org_keys db.entries)))
