-- ===== src/Session/Requests.antt =====
-- The sections of crates/cosmarden-agent/src/handler that do not decrypt: the answer to a favourite, new tokens, the
-- report of the configuration, the entry that is to be opened, a new subscriber, and the flag of the TPM (also of its
-- start, crates/cosmarden-agent/src/lib.rs).
use cosmic_bwarden.Base.{
  String, Bool, true, false, not, Option, none, some, [], ◌∷◌, ◌++◌, string_eq, nat_eq,
}
use cosmic_bwarden.Protocol.{
  vault_changed, open_entry, plain, because, ConfigStatus, Response, ack, error, config,
}
use cosmic_bwarden.State.{State, Db, is_some_of, has_account, needs_login, broadcast}
use cosmic_bwarden.Session.{ConfigRead, unreadable, record_failure}

-- The second section of `set_favorite`: the server's answer.
unfoldable pub favorite_answer : Option String → State → Response × State
unfolding record_failure
favorite_answer none s = (ack, broadcast vault_changed s)
favorite_answer (some e) s =
    (error (because "failed to update favorite on server: " e), record_failure (plain e) s)

abbrev pub with_tokens : String → Option String → Option Db → Option Db
with_tokens access refresh none = none
with_tokens access none (some db) = some (record db { access_token = some access })
with_tokens access (some rt) (some db) =
    some (record db { access_token = some access; refresh_token = some rt })

-- The section of `adopt_tokens` that stores a new pair of tokens.
unfoldable pub adopt_tokens : String → Option String → State → State
adopt_tokens access refresh s = record s { db = with_tokens access refresh s.db }

-- The database on disk with the tokens of the keyring.
abbrev pub with_keyring : Option (String × String) → Db → Db
with_keyring none db = db
with_keyring (some (access, refresh)) db = record db {
  access_token = some access;
  refresh_token = some refresh;
}

-- `handle_get_config` reads the database when there is none in memory.
abbrev pub db_or : Option Db → Option (String × String) → Option Db → Option Db
db_or (some db) tokens loaded = some db
db_or none tokens none = none
db_or none tokens (some db) = some (with_keyring tokens db)

unfoldable pub load_db : Option Db → Option (String × String) → State → State
load_db loaded tokens s = record s { db = db_or s.db tokens loaded }

abbrev pub config_status : State → ConfigStatus
config_status s = record {
  needs_login = elim s.db [ none ↦ true | some db ↦ needs_login db ];
  has_account = elim s.db [ none ↦ false | some db ↦ has_account db ];
  is_locked = not (is_some_of s.keys);
  sync_failed = s.sync_failed;
  session_id = s.session_id;
  lock_epoch = s.lock_epoch;
}

-- `handle_get_config`, with whether the configuration can be read.
unfoldable pub get_config :
    Option Db → Option (String × String) → ConfigRead → State → Response × State
unfolding load_db
get_config loaded tokens cfg s =
    let s1 = load_db loaded tokens s in
    (
      elim cfg [
        | unreadable e ↦ error (because "failed to load config: " e)
        | _ ↦ config (config_status s1)
      ],
      s1,
    )

-- Whether a PIN is offered: what a check of the TPM or the start finds on disk, and the last section of the handlers
-- that set the PIN up and disable it.
abbrev pub set_tpm_configured : Bool → State → State
set_tpm_configured configured s = record s { tpm_configured = configured }

unfoldable pub set_pending_entry : String → State → State
set_pending_entry id s = record (broadcast (open_entry id) s) { pending_entry_id = some id }

-- A new subscriber gets the entry that is to be opened.
unfoldable pub subscribe : State → State
subscribe s = record s {
  pending_entry_id = none;
  subscribers =
      s.subscribers
      ++ record {
        is_open = true;
        received = elim s.pending_entry_id [ none ↦ [] | some id ↦ open_entry id ∷ [] ];
      }
        ∷ [];
}
