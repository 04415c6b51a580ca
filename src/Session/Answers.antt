-- ===== src/Session/Answers.antt =====
-- What a sync, an unlock and a login leave behind: the vault list belongs to the database and the keys
-- (crates/cosmarden-agent/src/handler/vault/sync.rs and crates/cosmarden-agent/src/handler/auth).
use cosmic_bwarden.Base.{
  String, Bool, true, false, not, ◌≡◌, ◌≢◌, refl, ◌⊎◌, inl, inr, Option, none, some, List, [],
  arith, Bool-cases, if◌then◌else◌, ◌&&◌, Option-cases,
}
use cosmic_bwarden.CipherString.{Keys}
use cosmic_bwarden.Entry.{Entry}
use cosmic_bwarden.Entry.Decrypt.{OrgKeys}
use cosmic_bwarden.Protocol.{ack, error, Message, plain, because}
use cosmic_bwarden.State.{
  State, Db, Platform, is_some_of, broadcast, bump_epoch, access_token_of, entries_of,
}
use cosmic_bwarden.State.Cache.{rebuild_sidebar_cache, sidebar_of}
use cosmic_bwarden.Session.{
  ConfigRead, unreadable, no_email, has_email, SyncResult, sync_ok, sync_store, sync_finish,
  sync_failed_with, failed_sync_is_lock_race, record_failure, unlock_commit, inherit_tokens,
  store_sync, favorite_ids,
}

-- The rows of the vault list are those of the entries in the database under the keys.
unfoldable pub IsCurrent : Platform → State → Type 0
IsCurrent p s = s.sidebar_cache ≡ sidebar_of p s.db s.keys s.org_keys

pub rebuild-IsCurrent : (p : Platform) (s : State) → IsCurrent p (rebuild_sidebar_cache p s)
unfolding IsCurrent rebuild_sidebar_cache
rebuild-IsCurrent p s = elim (Option-cases s.keys) [ inl e ↦ rw e refl | inr (k, e) ↦ rw e refl ]

error_not_ack : (m : Message) → error m ≢ ack
error_not_ack m = ground arith

-- Rebuilding the rows changes nothing but the rows, the SSH identities and the session flag.
rebuild-rest :
    (p : Platform) (s : State)
    → ((rebuild_sidebar_cache p s).db ≡ s.db)
      × ((rebuild_sidebar_cache p s).sync_failed ≡ s.sync_failed)
      × ((rebuild_sidebar_cache p s).last_sync_error ≡ s.last_sync_error)
      × ((rebuild_sidebar_cache p s).pinned_ids ≡ s.pinned_ids)
unfolding rebuild_sidebar_cache
rebuild-rest p s = elim (Option-cases s.keys) [
  | inl e ↦ rw e (refl, refl, refl, refl)
  | inr (k, e) ↦ rw e (refl, refl, refl, refl)
]

-- The vault list belongs to the database, which has these entries, and nothing says that the vault is out of sync.
unfoldable pub IsSynced : Platform → List Entry → State → Type 0
unfolding IsCurrent
IsSynced p entries s =
    IsCurrent p s
    × (s.sync_failed ≡ false)
    × (s.last_sync_error ≡ none)
    × (s.pinned_ids ≡ favorite_ids entries)

sync_finish-IsSynced :
    (p : Platform) (entries : List Entry) (s : State)
    → IsSynced p entries (sync_finish p entries s).1 × ((sync_finish p entries s).1.db ≡ s.db)
unfolding IsSynced IsCurrent broadcast
sync_finish-IsSynced p entries s =
    let s1 = record s {
      pinned_ids = favorite_ids entries;
      sync_failed = false;
      last_sync_error = none;
    } in
    let rest = rebuild-rest p s1 in ((rebuild-IsCurrent p s1, rest.1, rest.2, rest.3), rest.0)

sync_store-IsSynced :
    (p : Platform) (r : SyncResult) (cfg : ConfigRead) (s : State) (db : Option Db)
    → s.db ≡ db
    → (sync_store p r cfg s db).0 ≡ ack
    → IsSynced p r.entries (sync_store p r cfg s db).1
      × (entries_of (sync_store p r cfg s db).1.db ≡ (if is_some_of db then r.entries else []))
sync_store-IsSynced p r cfg s none e a =
    let done = sync_finish-IsSynced p r.entries s in (done.0, rw (done.1, e) refl)
sync_store-IsSynced p r (unreadable m) s (some db) e a = absurd (error_not_ack _ a)
sync_store-IsSynced p r no_email s (some db) e a = absurd (error_not_ack _ a)
sync_store-IsSynced p r (has_email m) s (some db) e a =
    let done = sync_finish-IsSynced p r.entries (record s { db = some (store_sync r db) }) in
    (done.0, rw done.1 refl)

-- A sync that is acknowledged has the server's entries in the database, if there is one in memory, the vault list
-- rebuilt from it, the favourites marked as pinned and the out-of-sync flag cleared.
pub sync_ok-IsSynced :
    (p : Platform) (r : SyncResult) (cfg : ConfigRead) (s : State)
    → (sync_ok p r cfg s).0 ≡ ack
    → IsSynced p r.entries (sync_ok p r cfg s).1
      × (entries_of (sync_ok p r cfg s).1.db ≡ (if is_some_of s.db then r.entries else []))
unfolding sync_ok
sync_ok-IsSynced p r cfg s a =
    sync_store-IsSynced p r cfg (record s { user_id = some r.user_id }) s.db refl a

-- A failed sync is acknowledged only when the vault was unlocked when it began and is locked now, and then
-- changes nothing; any other failure is an error and sets the out-of-sync flag with that error.
pub sync_failed_with_lem :
    (p : Platform) (at_entry : Bool) (e : String) (s : State)
    → ((is_some_of s.keys ≡ false)
        × (at_entry ≡ false)
        × (sync_failed_with p at_entry e s ≡ (ack, s)))
      ⊎ (((is_some_of s.keys ≡ true) ⊎ (at_entry ≡ true))
          × ((sync_failed_with p at_entry e s).0 ≡ error (because "sync failed: " e))
          × ((sync_failed_with p at_entry e s).1.sync_failed ≡ true)
          × ((sync_failed_with p at_entry e s).1.last_sync_error ≡ some (plain e)))
unfolding sync_failed_with failed_sync_is_lock_race record_failure
sync_failed_with_lem p at_entry e s = elim (Bool-cases (is_some_of s.keys)) [
  | inl k ↦ rw k (inr (inl refl, refl, refl, refl))
  | inr k ↦ elim (Bool-cases at_entry) [
    | inl t ↦ rw (k, t) (inr (inr refl, refl, refl, refl))
    | inr t ↦ rw (k, t) (inl (refl, refl, refl))
  ]
]

inherit_tokens_lem :
    (prev : Option Db) (db : Db)
    → ((inherit_tokens prev db).entries ≡ db.entries)
      × (not (is_some_of (inherit_tokens prev db).access_token)
          ≡ (not (is_some_of db.access_token) && not (is_some_of (access_token_of prev))))
unfolding inherit_tokens
inherit_tokens_lem none db = ground arith
inherit_tokens_lem (some prev) db = ground arith

-- Committing an unlock leaves an unlocked vault whose list belongs to the entries read from disk, and asks for a new
-- session exactly when neither the disk and the keyring nor the memory had an access token.
pub unlock_commit-IsCurrent :
    (p : Platform) (keys : Keys) (org_keys : OrgKeys) (db : Db) (s : State)
    → let (needs_reauth, t) = unlock_commit p keys org_keys db s in
      IsCurrent p t
      × (t.keys ≡ some keys)
      × (entries_of t.db ≡ db.entries)
      × (needs_reauth
          ≡ (not (is_some_of db.access_token) && not (is_some_of (access_token_of s.db))))
      × (needs_reauth ≡ not (is_some_of (access_token_of t.db)))
unfolding unlock_commit IsCurrent broadcast bump_epoch rebuild_sidebar_cache
unlock_commit-IsCurrent p keys org_keys db s =
    let inherited = inherit_tokens_lem s.db db in (refl, refl, inherited.0, inherited.1, refl)
