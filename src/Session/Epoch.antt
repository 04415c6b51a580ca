-- ===== src/Session/Epoch.antt =====
-- The lock epoch orders the reports of `handle_get_config` (crates/cosmarden-agent/src/handler/auth/config.rs).
use cosmic_bwarden.Base.{
  ℕ, ◌+◌, ◌%◌, ◌^◌, ◌<◌, String, Bool, ◌≡◌, refl, ◌⊎◌, inl, inr, Option, none, some, arith,
  Bool-cases, Option-cases, not, ◌&&◌, leb, ◌==◌, nat_eq, ◌-◌, find, string_eq,
}
use cosmic_bwarden.Entry.{Entry}
use cosmic_bwarden.State.{
  State, Db, Platform, lock, clear_account, request_unlock, broadcast, bump_epoch, is_some_of,
}
use cosmic_bwarden.State.Cache.{rebuild_sidebar_cache}
use cosmic_bwarden.CipherString.{Keys}
use cosmic_bwarden.Session.{
  autolock, unlock_commit, login_commit, sync_ok, sync_store, sync_failed_with, ConfigRead,
  unreadable, no_email, has_email, SyncResult, failed_sync_is_lock_race, favorite_commit,
  favorite_unlocked, favorite_found, record_failure,
}
use cosmic_bwarden.Session.Requests.{
  favorite_answer, adopt_tokens, get_config, load_db, set_pending_entry, subscribe,
}
use cosmic_bwarden.Session.Steps.{
  Step, Reach, start, next, locks, logs_out, times_out, unlocks, logs_in, syncs, sync_fails, fails,
  favorites, favorite_answered, adopts, loads, asks_unlock, sets_pending, subscribes, receives,
  configures_tpm,
}

-- Keys and epoch are as before, or the epoch has advanced.
abbrev HasTracked : State → State → Type 0
HasTracked s t =
    ((t.keys ≡ s.keys) × (t.lock_epoch ≡ s.lock_epoch))
    ⊎ (t.lock_epoch ≡ (s.lock_epoch + 1) % 2 ^ 64)

rebuild-tracked :
    (p : Platform) (s : State)
    → ((rebuild_sidebar_cache p s).keys ≡ s.keys)
      × ((rebuild_sidebar_cache p s).lock_epoch ≡ s.lock_epoch)
unfolding rebuild_sidebar_cache
rebuild-tracked p s = elim (Option-cases s.keys) [
  | inl e ↦ rw e (refl, refl)
  | inr (k, e) ↦ rw e (refl, refl)
]

sync_store-tracked :
    (p : Platform) (r : SyncResult) (cfg : ConfigRead) (s : State) (db : Option Db)
    → HasTracked s (sync_store p r cfg s db).1
unfolding broadcast
sync_store-tracked p r cfg s none = inl (rebuild-tracked p _)
sync_store-tracked p r (unreadable m) s (some db) = inl (refl, refl)
sync_store-tracked p r no_email s (some db) = inl (refl, refl)
sync_store-tracked p r (has_email m) s (some db) = inl (rebuild-tracked p _)

favorite-tracked :
    (p : Platform) (id : String) (favorite : Bool) (s : State) (keys : Option Keys) (db : Option Db)
    → HasTracked s (favorite_unlocked p id favorite s keys db).1
favorite-tracked p id favorite s none db = inl (refl, refl)
favorite-tracked p id favorite s (some k) none = inl (refl, refl)
favorite-tracked p id favorite s (some k) (some db) = found (find (λ e. e.id == id) db.entries)
  where
    found : (o : Option Entry) → HasTracked s (favorite_found p id favorite s db o).1
    found none = inl (refl, refl)
    found (some e) = inl (rebuild-tracked p _)

autolock-tracked : (now last timeout : ℕ) (s : State) → HasTracked s (autolock now last timeout s)
unfolding autolock lock broadcast bump_epoch
autolock-tracked now last timeout s =
    elim (Bool-cases (not (timeout == 0) && leb timeout (now - last) && is_some_of s.keys)) [
      | inl e ↦ rw e (inr refl)
      | inr e ↦ rw e (inl (refl, refl))
    ]

sync_failed-tracked :
    (p : Platform) (at_entry : Bool) (e : String) (s : State)
    → HasTracked s (sync_failed_with p at_entry e s).1
unfolding sync_failed_with record_failure
sync_failed-tracked p at_entry e s =
    elim (Bool-cases (failed_sync_is_lock_race (not (is_some_of s.keys)) at_entry)) [
      | inl t ↦ rw t (inl (refl, refl))
      | inr t ↦ rw t (inl (refl, refl))
    ]

answer-tracked : (e : Option String) (s : State) → HasTracked s (favorite_answer e s).1
unfolding favorite_answer record_failure broadcast
answer-tracked none s = inl (refl, refl)
answer-tracked (some e) s = inl (refl, refl)

request-tracked : (s : State) → HasTracked s (request_unlock s)
unfolding request_unlock broadcast
request-tracked s = elim (Bool-cases s.unlock_requested_notified) [
  | inl e ↦ rw e (inl (refl, refl))
  | inr e ↦ rw e (inl (refl, refl))
]

Step-tracked : {p : Platform} {s t : State} → Step p s t → HasTracked s t
unfolding lock clear_account broadcast bump_epoch unlock_commit login_commit sync_ok record_failure
    get_config load_db set_pending_entry subscribe favorite_commit adopt_tokens
Step-tracked locks = inr refl
Step-tracked logs_out = inr refl
Step-tracked {s = s} (times_out now last timeout) = autolock-tracked now last timeout s
Step-tracked {p = p} {s = s} (unlocks keys org_keys db) = inr (rebuild-tracked p _).1
Step-tracked {p = p} {s = s} (logs_in keys org_keys user_id db) = inr (rebuild-tracked p _).1
Step-tracked {p = p} {s = s} (syncs r cfg) =
    sync_store-tracked p r cfg (record s { user_id = some r.user_id }) s.db
Step-tracked {p = p} {s = s} (sync_fails at_entry e) = sync_failed-tracked p at_entry e s
Step-tracked (fails e) = inl (refl, refl)
Step-tracked {p = p} {s = s} (favorites id favorite) = favorite-tracked p id favorite s s.keys s.db
Step-tracked {s = s} (favorite_answered e) = answer-tracked e s
Step-tracked (adopts access refresh) = inl (refl, refl)
Step-tracked (loads db tokens cfg) = inl (refl, refl)
Step-tracked {s = s} asks_unlock = request-tracked s
Step-tracked (sets_pending id) = inl (refl, refl)
Step-tracked subscribes = inl (refl, refl)
Step-tracked (receives subscribers) = inl (refl, refl)
Step-tracked (configures_tpm configured) = inl (refl, refl)

below_after : (m n : ℕ) → n ≡ (m + 1) % 2 ^ 64 → n < 2 ^ 64
below_after m n e = omega arith

epoch_below : {p : Platform} {s : State} → Reach p s → s.lock_epoch < 2 ^ 64
epoch_below (start id) = omega arith
epoch_below (next {s = s} {t = t} r st) = elim (Step-tracked st) [
  | inl h ↦ rw h.1 (epoch_below r)
  | inr e ↦ below_after s.lock_epoch t.lock_epoch e
]

not_same_after : (m n : ℕ) → m < 2 ^ 64 → n ≡ (m + 1) % 2 ^ 64 → n ≡ m → ⊥
not_same_after m n bound e same = omega arith

-- In every state that the agent can get into, a step that leaves the lock epoch as it is leaves the vault keys as they
-- are: a lock or an unlock never hides behind an unchanged epoch.
pub same_epoch-same_keys :
    {p : Platform} {s t : State}
    → Reach p s
    → Step p s t
    → t.lock_epoch ≡ s.lock_epoch
    → t.keys ≡ s.keys
same_epoch-same_keys {p = p} {s = s} {t = t} r st same = elim (Step-tracked st) [
  | inl h ↦ h.0
  | inr e ↦ absurd (not_same_after s.lock_epoch t.lock_epoch (epoch_below r) e same)
]
