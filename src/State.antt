-- ===== src/State.antt =====
-- crates/cosmarden-agent/src/state.rs, crates/cosmarden-core/src/db/persistence.rs (`Db`, `has_account`, `needs_login`)
-- and crates/cosmarden-agent/src/ssh_agent/identities.rs (`rebuild_from_sidebar`): the agent's state and its lock.
-- A `HashSet` of ids is a list without duplicates; the receiver of an event channel is a flag and a queue.
-- The channel that shuts the agent down and the mutex around the exchange of a refresh token are left out.
pub mod Cache
pub mod Locking
use cosmic_bwarden.Base.{
  ℕ, ◌+◌, ◌%◌, ◌^◌, String, Bool, true, false, not, ◌&&◌, Option, none, some, List, [], ◌∷◌, ◌++◌,
  map, Text, codes, retain, ◌==◌, string_eq, if◌then◌else◌,
}
use cosmic_bwarden.CipherString.{Keys}
use cosmic_bwarden.Entry.{
  Entry, EntryData, login, card, identity, secure_note, ssh_key, bank_account, drivers_license,
  passport, Uri, UriMatchType, never, Secret,
}
use cosmic_bwarden.Entry.Decrypt.{Decryptor, OrgKeys, entry_keys, decrypt}
use cosmic_bwarden.Domain.{Names, host_from_uri, host_from_name}
use cosmic_bwarden.Protocol
use cosmic_bwarden.Protocol.{
  EntryType, SidebarEntry, Event, locked, unlock_requested, pin_requested, Message,
}

pub data VaultSession : Type 0 where
  session_locked session_unlocked logged_out : VaultSession

pub data KdfType : Type 0 where
  pbkdf2 argon2id : KdfType

pub record Db : Type 0 where
  pub access_token : Option String
  pub refresh_token : Option String
  pub kdf : Option KdfType
  pub iterations : Option ℕ
  pub memory : Option ℕ
  pub parallelism : Option ℕ
  pub protected_key : Option Secret
  pub protected_private_key : Option Secret
  pub protected_org_keys : List (String × Secret)
  pub entries : List Entry

pub record CachedSidebarEntry : Type 0 where
  pub entry : SidebarEntry
  pub hosts : List Text

-- The parsed public key is the text of its key data.
pub record CachedSshIdentity : Type 0 where
  pub pubkey : String
  pub comment : String

-- A subscriber's channel: `send` succeeds while the receiver is there.
pub record Subscriber : Type 0 where
  pub is_open : Bool
  pub received : List Event

pub record State : Type 0 where
  pub keys : Option Keys
  pub org_keys : Option OrgKeys
  pub db : Option Db
  pub user_id : Option String
  pub pinned_ids : List String
  pub sidebar_cache : List CachedSidebarEntry
  pub ssh_identity_cache : List CachedSshIdentity
  pub session : VaultSession
  pub pending_entry_id : Option String
  pub subscribers : List Subscriber
  pub unlock_requested_notified : Bool
  pub sync_failed : Bool
  pub last_sync_error : Option Message
  pub session_id : ℕ
  pub lock_epoch : ℕ
  pub tpm_configured : Bool

-- What the agent uses of other code: the name rules, `vault::decrypt`, and the parser of OpenSSH public keys.
pub record Platform : Type 0 where
  pub names : Names
  pub vault_decrypt : Decryptor
  pub parse_public_key : String → Option String

-- `State::new`; the session id is random.
abbrev pub new_state : ℕ → State
new_state id = record {
  keys = none;
  org_keys = none;
  db = none;
  user_id = none;
  pinned_ids = [];
  sidebar_cache = [];
  ssh_identity_cache = [];
  session = logged_out;
  pending_entry_id = none;
  subscribers = [];
  unlock_requested_notified = false;
  sync_failed = false;
  last_sync_error = none;
  session_id = id;
  lock_epoch = 0;
  tpm_configured = false;
}

abbrev pub is_some_of {ℓ} : {A : Type ℓ} → Option A → Bool
is_some_of none = false
is_some_of (some a) = true

unfoldable pub has_account : Db → Bool
has_account db = is_some_of db.iterations && is_some_of db.kdf && is_some_of db.protected_key

unfoldable pub needs_login : Db → Bool
unfolding has_account
needs_login db = not (has_account db)

-- `self.org_keys.as_ref().unwrap_or(&empty_org_keys)`
abbrev pub or_no_keys : Option OrgKeys → OrgKeys
or_no_keys none = []
or_no_keys (some m) = m

-- `tx.send(event).is_ok()` keeps the subscriber.
unfoldable pub send_all : Event → List Subscriber → List Subscriber
send_all ev [] = []
send_all ev (s ∷ ss) =
    let rest = send_all ev ss in
    if s.is_open then record s { received = s.received ++ ev ∷ [] } ∷ rest else rest

unfoldable pub broadcast : Event → State → State
unfolding send_all
broadcast ev s = record s { subscribers = send_all ev s.subscribers }

-- `wrapping_add(1)` on a `u64`.
unfoldable pub bump_epoch : State → State
bump_epoch s = record s { lock_epoch = (s.lock_epoch + 1) % 2 ^ 64 }

abbrev pub access_token_of : Option Db → Option String
access_token_of none = none
access_token_of (some db) = db.access_token

abbrev pub refresh_token_of : Option Db → Option String
refresh_token_of none = none
refresh_token_of (some db) = db.refresh_token

abbrev pub entries_of : Option Db → List Entry
entries_of none = []
entries_of (some db) = db.entries

abbrev pub without_tokens : Option Db → Option Db
without_tokens none = none
without_tokens (some db) = some (record db { access_token = none; refresh_token = none })

unfoldable pub lock : State → State
unfolding bump_epoch broadcast
lock s =
    let s1 = record s {
      keys = none;
      org_keys = none;
      pinned_ids = [];
      sidebar_cache = [];
      pending_entry_id = none;
      unlock_requested_notified = false;
      session = session_locked;
    } in
    let s2 = bump_epoch s1 in broadcast locked (record s2 { db = without_tokens s2.db })

unfoldable pub request_unlock : State → State
unfolding broadcast
request_unlock s =
    if s.unlock_requested_notified
    then s
    else record (broadcast (if s.tpm_configured then pin_requested else unlock_requested) s) {
      unlock_requested_notified = true;
    }

unfoldable pub clear_account : State → State
unfolding lock
clear_account s = record (lock s) {
  ssh_identity_cache = [];
  db = none;
  user_id = none;
  sync_failed = false;
  last_sync_error = none;
  session = logged_out;
}
