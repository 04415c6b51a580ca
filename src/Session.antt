-- ===== src/Session.antt =====
-- The critical sections of the handlers under crates/cosmarden-agent/src/handler: what each does with the state
-- while it holds the lock. What the server, the disk and the keyring answer is an argument; the answer may come
-- after other handlers have run. Saving the database to disk leaves the state as it is and is left out.
pub mod Requests
pub mod Consistent
pub mod Steps
pub mod Epoch
pub mod Answers
pub mod Autolock
use cosmic_bwarden.Base.{
  ℕ, ◌-◌, String, Bool, true, false, not, ◌&&◌, ◌||◌, Option, none, some, List, [], ◌∷◌, ◌++◌,
  retain, any, find, ◌==◌, string_eq, nat_eq, if◌then◌else◌, leb,
}
use cosmic_bwarden.CipherString.{Keys}
use cosmic_bwarden.Entry.{Entry, Secret}
use cosmic_bwarden.Entry.Decrypt.{OrgKeys}
use cosmic_bwarden.Protocol.{
  Event, unlocked, vault_changed, open_entry, Message, plain, because, ConfigStatus, Response, ack,
  error, config,
}
use cosmic_bwarden.State.{
  State, Db, Platform, Subscriber, is_some_of, has_account, needs_login, broadcast, bump_epoch,
  lock, access_token_of,
}
use cosmic_bwarden.State.Cache.{rebuild_sidebar_cache}

-- `CosmardenConfig::load_legacy`, as far as a handler looks at it.
pub data ConfigRead : Type 0 where
  unreadable : String → ConfigRead
  no_email : ConfigRead
  -- the account's email address
  has_email : String → ConfigRead

-- `HashSet::insert` and `HashSet::remove`
abbrev pub insert_id : String → List String → List String
insert_id id ids = if any (λ i. i == id) ids then ids else id ∷ ids

abbrev pub remove_id : String → List String → List String
remove_id id ids = retain (λ i. not (i == id)) ids

-- The ids of the favourites.
unfoldable pub favorite_ids : List Entry → List String
favorite_ids [] = []
favorite_ids (e ∷ es) =
    let rest = favorite_ids es in if e.favorite then insert_id e.id rest else rest

-- A database without a session token takes over the tokens that are in memory.
unfoldable pub inherit_tokens : Option Db → Db → Db
inherit_tokens none db = db
inherit_tokens (some prev) db =
    if is_some_of db.access_token
    then db
    else record db { access_token = prev.access_token; refresh_token = prev.refresh_token }

-- What `client.sync` returns.
pub record SyncResult : Type 0 where
  pub user_id : String
  pub key : Secret
  pub protected_private_key : Option Secret
  pub org_keys : List (String × Secret)
  pub entries : List Entry

abbrev pub store_sync : SyncResult → Db → Db
store_sync r db = record db {
  protected_key = some r.key;
  protected_private_key = r.protected_private_key;
  protected_org_keys = r.org_keys;
  entries = r.entries;
}

unfoldable pub failed_sync_is_lock_race : Bool → Bool → Bool
failed_sync_is_lock_race locked_now locked_at_entry = locked_now && not locked_at_entry

-- What several handlers do when a request to the server fails.
unfoldable pub record_failure : Message → State → State
record_failure e s = record s { sync_failed = true; last_sync_error = some e }

-- `SystemTime` and the timer's two counters: the seconds to sleep, at most 30; 0 says to lock now.
unfoldable pub remaining_sleep_secs : ℕ → ℕ → ℕ → ℕ
remaining_sleep_secs now last timeout =
    if timeout == 0
    then 30
    else if leb timeout (now - last)
    then 0
    else if leb (timeout - (now - last)) 30
    then timeout - (now - last)
    else 30

-- One pass of the loop of `AutolockTimer::run` after its sleep: the timeout, the last activity and the time as read
-- then.
unfoldable pub autolock : ℕ → ℕ → ℕ → State → State
autolock now last timeout s =
    if not (timeout == 0) && leb timeout (now - last) && is_some_of s.keys then lock s else s

module _ (p : Platform) where
  -- The section of `handle_unlock` that commits the keys; `true` says that no session token is left.
  unfoldable pub unlock_commit : Keys → OrgKeys → Db → State → Bool × State
  unfolding inherit_tokens
  unlock_commit keys org_keys db s =
      let s1 = bump_epoch (record s { keys = some keys; org_keys = some org_keys }) in
      let db1 = inherit_tokens s1.db db in
      let s2 = record s1 { pinned_ids = favorite_ids db.entries; db = some db1 } in
      (not (is_some_of db1.access_token), broadcast unlocked (rebuild_sidebar_cache p s2))

  -- The section of `handle_login` that commits the keys.
  unfoldable pub login_commit : Keys → OrgKeys → String → Db → State → State
  login_commit keys org_keys user_id db s =
      let s1 =
        bump_epoch
          (record s { keys = some keys; org_keys = some org_keys; user_id = some user_id }) in
      let s2 = record s1 {
        sync_failed = false;
        last_sync_error = none;
        pinned_ids = favorite_ids db.entries;
        db = some db;
      } in
      broadcast unlocked (rebuild_sidebar_cache p s2)

  abbrev pub sync_finish : List Entry → State → Response × State
  sync_finish entries s =
      let s1 = record s {
        pinned_ids = favorite_ids entries;
        sync_failed = false;
        last_sync_error = none;
      } in
      (ack, broadcast vault_changed (rebuild_sidebar_cache p s1))

  -- The new vault goes into the database, if there is one; a database that cannot be saved under the account's name
  -- is an error after that.
  abbrev pub sync_store : SyncResult → ConfigRead → State → Option Db → Response × State
  sync_store r cfg s none = sync_finish r.entries s
  sync_store r (unreadable e) s (some db) =
      (error (because "failed to load config: " e), record s { db = some (store_sync r db) })
  sync_store r no_email s (some db) =
      (error (plain "email not set in config"), record s { db = some (store_sync r db) })
  sync_store r (has_email m) s (some db) =
      sync_finish r.entries (record s { db = some (store_sync r db) })

  -- `handle_sync` once the server has answered with the vault.
  unfoldable pub sync_ok : SyncResult → ConfigRead → State → Response × State
  sync_ok r cfg s = sync_store r cfg (record s { user_id = some r.user_id }) s.db

  -- `handle_sync` once the request has failed: with whether the vault was locked when it began.
  unfoldable pub sync_failed_with : Bool → String → State → Response × State
  unfolding failed_sync_is_lock_race record_failure
  sync_failed_with locked_at_entry e s =
      if failed_sync_is_lock_race (not (is_some_of s.keys)) locked_at_entry
      then (ack, s)
      else (error (because "sync failed: " e), record_failure (plain e) s)

  abbrev pub mark_favorite : String → Bool → List Entry → List Entry
  mark_favorite id favorite [] = []
  mark_favorite id favorite (e ∷ es) =
      let rest = mark_favorite id favorite es in
      if e.id == id then record e { favorite = favorite } ∷ es else e ∷ rest

  abbrev pub favorite_found :
      String → Bool → State → Db → Option Entry → (Option Response × Option String) × State
  favorite_found id favorite s db none = ((some (error (plain "entry not found")), none), s)
  favorite_found id favorite s db (some e) = (
    (none, e.folder_id),
    rebuild_sidebar_cache p (record s {
      db = some (record db { entries = mark_favorite id favorite db.entries });
      pinned_ids = if favorite then insert_id id s.pinned_ids else remove_id id s.pinned_ids;
    }),
  )

  abbrev pub favorite_unlocked :
      String → Bool → State → Option Keys → Option Db → (Option Response × Option String) × State
  favorite_unlocked id favorite s none db = ((some (error (plain "agent is locked")), none), s)
  favorite_unlocked id favorite s (some k) none =
      ((some (error (plain "agent is locked")), none), s)
  favorite_unlocked id favorite s (some k) (some db) =
      favorite_found id favorite s db (find (λ e. e.id == id) db.entries)

  -- The first section of `set_favorite`: a refusal, or the entry's folder, which the request to the server repeats.
  unfoldable pub favorite_commit : String → Bool → State → (Option Response × Option String) × State
  favorite_commit id favorite s = favorite_unlocked id favorite s s.keys s.db
