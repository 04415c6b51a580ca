-- ===== src/State/Cache.antt =====
-- crates/cosmarden-agent/src/state.rs (`rebuild_sidebar_cache`) and
-- crates/cosmarden-agent/src/ssh_agent/identities.rs (`rebuild_from_sidebar`): the rows of the vault list, which are
-- decrypted once, and the public half of the SSH keys among them.
use cosmic_bwarden.Base.{
  String, Bool, true, false, Option, none, some, List, [], ◌∷◌, map, Text, codes, string_eq,
  if◌then◌else◌,
}
use cosmic_bwarden.CipherString.{Keys}
use cosmic_bwarden.Entry.{
  Entry, EntryData, login, card, identity, secure_note, ssh_key, bank_account, drivers_license,
  passport, Uri, UriMatchType, never,
}
use cosmic_bwarden.Entry.Decrypt.{OrgKeys, entry_keys, decrypt}
use cosmic_bwarden.Domain.{Names, host_from_uri, host_from_name}
use cosmic_bwarden.Protocol.{EntryType}
use cosmic_bwarden.State.{
  State, Db, Platform, CachedSidebarEntry, CachedSshIdentity, session_unlocked, or_no_keys,
}

abbrev pub and_then : Option String → (String → Option String) → Option String
and_then none f = none
and_then (some v) f = f v

abbrev pub is_never : Option UriMatchType → Bool
is_never none = false
is_never (some t) = elim t [ never ↦ true | _ ↦ false ]

-- `Vec::push` of what a `filter_map` yields.
abbrev pub push_some {ℓ} : {A : Type ℓ} → Option A → List A → List A
push_some none xs = xs
push_some (some x) xs = x ∷ xs

abbrev pub host_of : Names → Option String → Option Text
host_of n none = none
host_of n (some plain) = host_from_uri n (codes plain)

-- The hosts of the URIs that do not have the match type `Never`.
unfoldable pub uri_hosts : Names → (String → Option String) → List Uri → List Text
uri_hosts n d [] = []
uri_hosts n d (u ∷ us) =
    let rest = uri_hosts n d us in
    if is_never u.match_type then rest else push_some (host_of n (d u.uri)) rest

-- An entry with no host is bound to its name.
abbrev pub or_name_host : Names → String → List Text → List Text
or_name_host n name [] = push_some (host_from_name n (codes name)) []
or_name_host n name (h ∷ hs) = h ∷ hs

abbrev pub or_else : Option String → Option String → Option String
or_else none o = o
or_else (some v) o = some v

abbrev pub public_key_of : EntryData → Option String
public_key_of (ssh_key k) = k.public_key
public_key_of _ = none

abbrev pub or_name : Option String → String → String
or_name none name = name
or_name (some n) name = n

-- Username, public key, type and hosts of a row.
pub record Row : Type 0 where
  pub username : Option String
  pub public_key : Option String
  pub entry_type : EntryType
  pub hosts : List Text

abbrev pub plain_row : EntryType → Row
plain_row t = record { username = none; public_key = none; entry_type = t; hosts = [] }

abbrev pub is_ssh_key : EntryType → Bool
is_ssh_key EntryType.ssh_key = true
is_ssh_key _ = false

abbrev pub named_key : String → Option String → Option CachedSshIdentity
named_key name none = none
named_key name (some pk) = some (record { pubkey = pk; comment = name })

module _ (p : Platform) where
  -- `vault::decrypt` under the keys that hold for the entry.
  abbrev pub decrypt_text : Keys → OrgKeys → Entry → String → Option String
  decrypt_text keys org_keys e s = p.vault_decrypt s (entry_keys e keys org_keys) e.key

  abbrev pub sidebar_row : Keys → OrgKeys → Entry → String → EntryData → Row
  sidebar_row keys org_keys e name (login l) = record {
    username = and_then l.username (decrypt_text keys org_keys e);
    public_key = none;
    entry_type = EntryType.login;
    hosts = or_name_host p.names name (uri_hosts p.names (decrypt_text keys org_keys e) l.uris);
  }
  sidebar_row keys org_keys e name (ssh_key k) = record {
    username = none;
    public_key =
        or_else (and_then k.public_key (decrypt_text keys org_keys e))
          (public_key_of (decrypt p.vault_decrypt (entry_keys e keys org_keys) org_keys e).content);
    entry_type = EntryType.ssh_key;
    hosts = [];
  }
  sidebar_row keys org_keys e name (card c) = plain_row EntryType.card
  sidebar_row keys org_keys e name (identity i) = plain_row EntryType.identity
  sidebar_row keys org_keys e name secure_note = plain_row EntryType.secure_note
  sidebar_row keys org_keys e name (bank_account b) = plain_row EntryType.bank_account
  sidebar_row keys org_keys e name (drivers_license l) = plain_row EntryType.drivers_license
  sidebar_row keys org_keys e name (passport d) = plain_row EntryType.passport

  unfoldable pub sidebar_entry : Keys → OrgKeys → Entry → CachedSidebarEntry
  unfolding uri_hosts
  sidebar_entry keys org_keys e =
      let name = or_name (decrypt_text keys org_keys e e.name) e.name in
      let row = sidebar_row keys org_keys e name e.content in
      record {
        entry = record {
          id = e.id;
          name = name;
          username = row.username;
          public_key = row.public_key;
          entry_type = row.entry_type;
          is_pinned = e.favorite;
        };
        hosts = row.hosts;
      }

  -- The cache that belongs to a state: empty unless there is a database and the vault is unlocked.
  abbrev pub sidebar_of : Option Db → Option Keys → Option OrgKeys → List CachedSidebarEntry
  sidebar_of none keys org_keys = []
  sidebar_of (some db) none org_keys = []
  sidebar_of (some db) (some keys) org_keys =
      map (sidebar_entry keys (or_no_keys org_keys)) db.entries

  abbrev pub ssh_identity : CachedSidebarEntry → Option CachedSshIdentity
  ssh_identity c =
      if is_ssh_key c.entry.entry_type
      then named_key c.entry.name (and_then c.entry.public_key p.parse_public_key)
      else none

  unfoldable pub ssh_identities : List CachedSidebarEntry → List CachedSshIdentity
  ssh_identities [] = []
  ssh_identities (c ∷ cs) = push_some (ssh_identity c) (ssh_identities cs)

  unfoldable pub rebuild_sidebar_cache : State → State
  unfolding sidebar_entry ssh_identities
  rebuild_sidebar_cache s =
      let cache = sidebar_of s.db s.keys s.org_keys in
      elim s.keys [
        | none ↦ record s { sidebar_cache = cache }
        | some _ ↦ record s {
          sidebar_cache = cache;
          ssh_identity_cache = ssh_identities cache;
          session = session_unlocked;
        }
      ]
