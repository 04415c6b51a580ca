-- ===== src/Session/Consistent.antt =====
-- Each critical section of crates/cosmarden-agent/src/handler keeps the state consistent: the session flag and what
-- was decrypted go with the vault keys.
use cosmic_bwarden.Base.{
  ℕ, String, Bool, true, false, not, ◌≡◌, refl, sym, ◌≢◌, Option, none, some, List, [], arith,
  Bool-cases, inl, inr, leb, ◌==◌, nat_eq, ◌&&◌, ◌-◌,
}
use cosmic_bwarden.CipherString.{Keys}
use cosmic_bwarden.Entry.{Entry}
use cosmic_bwarden.Entry.Decrypt.{OrgKeys}
use cosmic_bwarden.Protocol.{Event, vault_changed}
use cosmic_bwarden.State.{
  State, Db, Platform, session_locked, session_unlocked, logged_out, lock, clear_account,
  request_unlock, broadcast, bump_epoch, is_some_of, CachedSidebarEntry, VaultSession,
}
use cosmic_bwarden.State.Cache.{rebuild_sidebar_cache, sidebar_of}
use cosmic_bwarden.Session.{
  ConfigRead, unreadable, no_email, has_email, SyncResult, autolock, unlock_commit, login_commit,
  sync_ok, sync_failed_with, favorite_commit, sync_finish, sync_store, favorite_found,
  favorite_unlocked, store_sync, failed_sync_is_lock_race,
}
use cosmic_bwarden.Session.Requests.{favorite_answer, adopt_tokens, with_tokens, db_or}

-- The session flag and the decrypted parts of the state go with the vault keys.
abbrev pub AreConsistent :
    Option Keys → Option OrgKeys → Option Db → List CachedSidebarEntry → VaultSession → Type 0
AreConsistent none org_keys db cache session =
    (org_keys ≡ none) × (cache ≡ []) × (session ≢ session_unlocked)
AreConsistent (some k) org_keys db cache session =
    (session ≡ session_unlocked) × (is_some_of db ≡ true)

unfoldable pub IsConsistent : State → Type 0
IsConsistent s = AreConsistent s.keys s.org_keys s.db s.sidebar_cache s.session

locked_not_unlocked : session_locked ≢ session_unlocked
locked_not_unlocked = ground arith

pub out_not_unlocked : logged_out ≢ session_unlocked
out_not_unlocked = ground arith

pub lock-IsConsistent : (s : State) → IsConsistent (lock s)
unfolding IsConsistent lock
lock-IsConsistent s = (refl, refl, locked_not_unlocked)

pub clear_account-IsConsistent : (s : State) → IsConsistent (clear_account s)
unfolding IsConsistent clear_account
clear_account-IsConsistent s = (refl, refl, out_not_unlocked)

pub autolock-IsConsistent :
    (now last timeout : ℕ) (s : State) → IsConsistent s → IsConsistent (autolock now last timeout s)
unfolding autolock
autolock-IsConsistent now last timeout s h =
    elim (Bool-cases (not (timeout == 0) && leb timeout (now - last) && is_some_of s.keys)) [
      | inl e ↦ rw e (lock-IsConsistent s)
      | inr e ↦ rw e h
    ]

-- A change of the database that is not its removal.
db-IsConsistent :
    (keys : Option Keys) (org_keys : Option OrgKeys) (db db1 : Option Db)
    (cache : List CachedSidebarEntry) (session : VaultSession)
    → is_some_of db1 ≡ is_some_of db
    → AreConsistent keys org_keys db cache session
    → AreConsistent keys org_keys db1 cache session
db-IsConsistent none org_keys db db1 cache session e h = h
db-IsConsistent (some k) org_keys db db1 cache session e h = (h.0, rw e h.1)

-- Rebuilding the cache of the rows, in an unlocked vault and in a locked one.
rebuild-unlocked :
    (p : Platform) (s : State) (k : Keys)
    → s.keys ≡ some k
    → is_some_of s.db ≡ true
    → IsConsistent (rebuild_sidebar_cache p s)
unfolding IsConsistent rebuild_sidebar_cache
rebuild-unlocked p s k e h = rw e (refl, h)

sidebar_of-locked :
    (p : Platform) (db : Option Db) (org_keys : Option OrgKeys) → sidebar_of p db none org_keys ≡ []
sidebar_of-locked p none org_keys = refl
sidebar_of-locked p (some db) org_keys = refl

rebuild-locked :
    (p : Platform) (s : State)
    → s.keys ≡ none
    → s.org_keys ≡ none
    → s.session ≢ session_unlocked
    → IsConsistent (rebuild_sidebar_cache p s)
unfolding IsConsistent rebuild_sidebar_cache
rebuild-locked p s e o h = rw e (o, sidebar_of-locked p s.db s.org_keys, h)

rebuild-IsConsistent :
    (p : Platform) (s : State) (keys : Option Keys)
    → s.keys ≡ keys
    → AreConsistent keys s.org_keys s.db s.sidebar_cache s.session
    → IsConsistent (rebuild_sidebar_cache p s)
rebuild-IsConsistent p s none e h = rebuild-locked p s e h.0 h.2
rebuild-IsConsistent p s (some k) e h = rebuild-unlocked p s k e h.1

pub unlock_commit-IsConsistent :
    (p : Platform) (keys : Keys) (org_keys : OrgKeys) (db : Db) (s : State)
    → IsConsistent (unlock_commit p keys org_keys db s).1
unfolding unlock_commit IsConsistent broadcast bump_epoch rebuild_sidebar_cache
unlock_commit-IsConsistent p keys org_keys db s = (refl, refl)

pub login_commit-IsConsistent :
    (p : Platform) (keys : Keys) (org_keys : OrgKeys) (user_id : String) (db : Db) (s : State)
    → IsConsistent (login_commit p keys org_keys user_id db s)
unfolding login_commit IsConsistent broadcast bump_epoch rebuild_sidebar_cache
login_commit-IsConsistent p keys org_keys user_id db s = (refl, refl)

broadcast-IsConsistent : (ev : Event) (s : State) → IsConsistent s → IsConsistent (broadcast ev s)
unfolding IsConsistent broadcast
broadcast-IsConsistent ev s h = h

sync_finish-IsConsistent :
    (p : Platform) (entries : List Entry) (s : State)
    → IsConsistent s
    → IsConsistent (sync_finish p entries s).1
unfolding IsConsistent
sync_finish-IsConsistent p entries s h =
    broadcast-IsConsistent vault_changed _ (rebuild-IsConsistent p _ s.keys refl h)

sync_store-IsConsistent :
    (p : Platform) (r : SyncResult) (cfg : ConfigRead) (s : State) (db : Option Db)
    → s.db ≡ db
    → IsConsistent s
    → IsConsistent (sync_store p r cfg s db).1
unfolding IsConsistent
sync_store-IsConsistent p r cfg s none e h = sync_finish-IsConsistent p r.entries s h
sync_store-IsConsistent p r (unreadable m) s (some db) e h =
    db-IsConsistent s.keys s.org_keys s.db _ s.sidebar_cache s.session (rw e refl) h
sync_store-IsConsistent p r no_email s (some db) e h =
    db-IsConsistent s.keys s.org_keys s.db _ s.sidebar_cache s.session (rw e refl) h
sync_store-IsConsistent p r (has_email m) s (some db) e h =
    sync_finish-IsConsistent p r.entries (record s { db = some (store_sync r db) })
      (db-IsConsistent s.keys s.org_keys s.db _ s.sidebar_cache s.session (rw e refl) h)

pub sync_ok-IsConsistent :
    (p : Platform) (r : SyncResult) (cfg : ConfigRead) (s : State)
    → IsConsistent s
    → IsConsistent (sync_ok p r cfg s).1
unfolding sync_ok IsConsistent
sync_ok-IsConsistent p r cfg s h =
    sync_store-IsConsistent p r cfg (record s { user_id = some r.user_id }) s.db refl h

pub sync_failed_with-IsConsistent :
    (p : Platform) (at_entry : Bool) (e : String) (s : State)
    → IsConsistent s
    → IsConsistent (sync_failed_with p at_entry e s).1
unfolding sync_failed_with IsConsistent
sync_failed_with-IsConsistent p at_entry e s h =
    elim (Bool-cases (failed_sync_is_lock_race (not (is_some_of s.keys)) at_entry)) [
      | inl t ↦ rw t h
      | inr t ↦ rw t h
    ]

favorite_found-IsConsistent :
    (p : Platform) (id : String) (favorite : Bool) (s : State) (db : Db) (o : Option Entry)
    → s.db ≡ some db
    → IsConsistent s
    → IsConsistent (favorite_found p id favorite s db o).1
unfolding IsConsistent
favorite_found-IsConsistent p id favorite s db none e h = h
favorite_found-IsConsistent p id favorite s db (some en) e h =
    rebuild-IsConsistent p _ s.keys refl
      (db-IsConsistent s.keys s.org_keys s.db _ s.sidebar_cache s.session (rw e refl) h)

favorite_unlocked-IsConsistent :
    (p : Platform) (id : String) (favorite : Bool) (s : State) (keys : Option Keys) (db : Option Db)
    → s.db ≡ db
    → IsConsistent s
    → IsConsistent (favorite_unlocked p id favorite s keys db).1
favorite_unlocked-IsConsistent p id favorite s none db e h = h
favorite_unlocked-IsConsistent p id favorite s (some k) none e h = h
favorite_unlocked-IsConsistent p id favorite s (some k) (some db) e h =
    favorite_found-IsConsistent p id favorite s db _ e h

pub favorite_commit-IsConsistent :
    (p : Platform) (id : String) (favorite : Bool) (s : State)
    → IsConsistent s
    → IsConsistent (favorite_commit p id favorite s).1
unfolding favorite_commit
favorite_commit-IsConsistent p id favorite s h =
    favorite_unlocked-IsConsistent p id favorite s s.keys s.db refl h

pub favorite_answer-IsConsistent :
    (e : Option String) (s : State) → IsConsistent s → IsConsistent (favorite_answer e s).1
unfolding favorite_answer IsConsistent broadcast
favorite_answer-IsConsistent none s h = h
favorite_answer-IsConsistent (some e) s h = h

is_some-with_tokens :
    (access : String) (refresh : Option String) (db : Option Db)
    → is_some_of (with_tokens access refresh db) ≡ is_some_of db
is_some-with_tokens access refresh none = refl
is_some-with_tokens access none (some db) = refl
is_some-with_tokens access (some r) (some db) = refl

pub adopt_tokens-IsConsistent :
    (access : String) (refresh : Option String) (s : State)
    → IsConsistent s
    → IsConsistent (adopt_tokens access refresh s)
unfolding adopt_tokens IsConsistent
adopt_tokens-IsConsistent access refresh s h =
    db-IsConsistent s.keys s.org_keys s.db _ s.sidebar_cache s.session
      (is_some-with_tokens access refresh s.db) h

true_not_false : true ≢ false
true_not_false = ground arith

-- Reading the database never takes it away.
pub db_or-IsConsistent :
    (keys : Option Keys) (org_keys : Option OrgKeys) (db loaded : Option Db)
    (tokens : Option (String × String)) (cache : List CachedSidebarEntry) (session : VaultSession)
    → AreConsistent keys org_keys db cache session
    → AreConsistent keys org_keys (db_or db tokens loaded) cache session
db_or-IsConsistent none org_keys db loaded tokens cache session h = h
db_or-IsConsistent (some k) org_keys (some db) loaded tokens cache session h = h
db_or-IsConsistent (some k) org_keys none loaded tokens cache session h =
    absurd (true_not_false (sym h.1))

pub request_unlock-IsConsistent : (s : State) → IsConsistent s → IsConsistent (request_unlock s)
unfolding request_unlock IsConsistent
request_unlock-IsConsistent s h = elim (Bool-cases s.unlock_requested_notified) [
  | inl e ↦ rw e h
  | inr e ↦ rw e h
]
