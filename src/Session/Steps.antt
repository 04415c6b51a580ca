-- ===== src/Session/Steps.antt =====
-- The states that the agent can get into: any order of the handlers' critical sections, with any answers of the server,
-- the disk and the keyring between them.
use cosmic_bwarden.Base.{ℕ, String, Bool, refl, Option, List, nat_eq}
use cosmic_bwarden.CipherString.{Keys}
use cosmic_bwarden.Entry.Decrypt.{OrgKeys}
use cosmic_bwarden.Protocol.{Message}
use cosmic_bwarden.State.{
  State, Db, Platform, Subscriber, new_state, lock, clear_account, request_unlock, broadcast,
}
use cosmic_bwarden.Session.{
  ConfigRead, SyncResult, autolock, unlock_commit, login_commit, sync_ok, sync_failed_with,
  favorite_commit, record_failure,
}
use cosmic_bwarden.Session.Requests.{
  favorite_answer, adopt_tokens, get_config, set_pending_entry, subscribe, load_db,
  set_tpm_configured,
}
use cosmic_bwarden.Session.Consistent.{
  IsConsistent, autolock-IsConsistent, db_or-IsConsistent, lock-IsConsistent,
  clear_account-IsConsistent, unlock_commit-IsConsistent, login_commit-IsConsistent,
  sync_ok-IsConsistent, sync_failed_with-IsConsistent, favorite_commit-IsConsistent,
  favorite_answer-IsConsistent, adopt_tokens-IsConsistent, request_unlock-IsConsistent,
  out_not_unlocked,
}

pub data Step (p : Platform) (s : State) : State → Type 0 where
  locks : Step p s (lock s)
  logs_out : Step p s (clear_account s)
  times_out : (now last timeout : ℕ) → Step p s (autolock now last timeout s)
  unlocks :
      (keys : Keys) (org_keys : OrgKeys) (db : Db) → Step p s (unlock_commit p keys org_keys db s).1
  logs_in :
      (keys : Keys) (org_keys : OrgKeys) (user_id : String) (db : Db)
      → Step p s (login_commit p keys org_keys user_id db s)
  syncs : (r : SyncResult) (cfg : ConfigRead) → Step p s (sync_ok p r cfg s).1
  sync_fails :
      (locked_at_entry : Bool) (e : String) → Step p s (sync_failed_with p locked_at_entry e s).1
  fails : (e : Message) → Step p s (record_failure e s)
  favorites : (id : String) (favorite : Bool) → Step p s (favorite_commit p id favorite s).1
  favorite_answered : (e : Option String) → Step p s (favorite_answer e s).1
  adopts : (access : String) (refresh : Option String) → Step p s (adopt_tokens access refresh s)
  loads :
      (db : Option Db) (tokens : Option (String × String)) (cfg : ConfigRead)
      → Step p s (get_config db tokens cfg s).1
  asks_unlock : Step p s (request_unlock s)
  sets_pending : (id : String) → Step p s (set_pending_entry id s)
  subscribes : Step p s (subscribe s)
  -- The receivers take what they were sent, or close.
  receives : (subscribers : List Subscriber) → Step p s (record s { subscribers = subscribers })
  configures_tpm : (configured : Bool) → Step p s (set_tpm_configured configured s)

pub data Reach (p : Platform) : State → Type 0 where
  start : (id : ℕ) → Reach p (new_state id)
  next : {s t : State} → Reach p s → Step p s t → Reach p t

Step-IsConsistent : {p : Platform} {s t : State} → Step p s t → IsConsistent s → IsConsistent t
unfolding IsConsistent record_failure get_config load_db set_pending_entry subscribe broadcast
Step-IsConsistent {s = s} locks h = lock-IsConsistent s
Step-IsConsistent {s = s} logs_out h = clear_account-IsConsistent s
Step-IsConsistent {s = s} (times_out now last timeout) h =
    autolock-IsConsistent now last timeout s h
Step-IsConsistent {p = p} {s = s} (unlocks keys org_keys db) h =
    unlock_commit-IsConsistent p keys org_keys db s
Step-IsConsistent {p = p} {s = s} (logs_in keys org_keys user_id db) h =
    login_commit-IsConsistent p keys org_keys user_id db s
Step-IsConsistent {p = p} {s = s} (syncs r cfg) h = sync_ok-IsConsistent p r cfg s h
Step-IsConsistent {p = p} {s = s} (sync_fails at_entry e) h =
    sync_failed_with-IsConsistent p at_entry e s h
Step-IsConsistent (fails e) h = h
Step-IsConsistent {p = p} {s = s} (favorites id favorite) h =
    favorite_commit-IsConsistent p id favorite s h
Step-IsConsistent {s = s} (favorite_answered e) h = favorite_answer-IsConsistent e s h
Step-IsConsistent {s = s} (adopts access refresh) h = adopt_tokens-IsConsistent access refresh s h
Step-IsConsistent {s = s} (loads db tokens cfg) h =
    db_or-IsConsistent s.keys s.org_keys s.db db tokens s.sidebar_cache s.session h
Step-IsConsistent {s = s} asks_unlock h = request_unlock-IsConsistent s h
Step-IsConsistent (sets_pending id) h = h
Step-IsConsistent subscribes h = h
Step-IsConsistent (receives subscribers) h = h
Step-IsConsistent (configures_tpm configured) h = h

-- In every state that the agent can get into, a locked vault has no organisation keys and no decrypted rows and its
-- session does not say that it is unlocked; an unlocked vault has a database and its session says so.
pub Reach-IsConsistent : {p : Platform} {s : State} → Reach p s → IsConsistent s
unfolding IsConsistent
Reach-IsConsistent (start id) = (refl, refl, out_not_unlocked)
Reach-IsConsistent (next r st) = Step-IsConsistent st (Reach-IsConsistent r)
