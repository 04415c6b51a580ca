-- ===== src/Examples/Sessions.antt =====
-- The agent's state on small inputs: locking, unlocking, syncing and the timer.
use cosmic_bwarden.Base.{
  ◌+◌, ◌-◌, ◌%◌, ◌^◌, ◌<◌, ◌≤◌, ◌≡◌, ◌⊎◌, ◌↔◌, refl, true, false, not, none, some, [], ◌∷◌, arith,
}
use cosmic_bwarden.Protocol.{ack, locked}
use cosmic_bwarden.State.{
  State, lock, clear_account, is_some_of, entries_of, access_token_of, new_state, request_unlock,
}
use cosmic_bwarden.State.Locking.{
  IsSealed, lock-IsSealed, clear_account-IsSealed, request_times, told,
}
use cosmic_bwarden.Session.{SyncResult, sync_ok, unlock_commit, has_email, remaining_sleep_secs}
use cosmic_bwarden.Session.Steps.{
  Reach, start, next, unlocks, locks, asks_unlock, configures_tpm, Reach-IsConsistent,
}
use cosmic_bwarden.Session.Requests.{set_tpm_configured}
use cosmic_bwarden.Session.Consistent.{IsConsistent}
use cosmic_bwarden.Session.Epoch.{same_epoch-same_keys}
use cosmic_bwarden.Session.Answers.{IsSynced, IsCurrent, sync_ok-IsSynced, unlock_commit-IsCurrent}
use cosmic_bwarden.Session.Autolock.{remaining-deadline}
use cosmic_bwarden.Examples.Data.{
  platform, zero_keys, guarded_login, db, opened, subscriber, identity_key,
}

lock-IsSealed_example :
    IsSealed (lock opened)
    × (entries_of (lock opened).db ≡ guarded_login ∷ [])
    × ((lock opened).sync_failed ≡ false)
    × ((lock opened).last_sync_error ≡ none)
    × ((lock opened).ssh_identity_cache ≡ identity_key ∷ [])
    × ((lock opened).lock_epoch ≡ (0 + 1) % 2 ^ 64)
    × ((lock opened).subscribers ≡ told locked subscriber ∷ [])
lock-IsSealed_example = lock-IsSealed opened

clear_account-IsSealed_example :
    IsSealed (clear_account opened)
    × ((clear_account opened).db ≡ none)
    × ((clear_account opened).user_id ≡ none)
    × ((clear_account opened).ssh_identity_cache ≡ [])
    × ((clear_account opened).sync_failed ≡ false)
    × ((clear_account opened).last_sync_error ≡ none)
    × ((clear_account opened).subscribers ≡ (lock opened).subscribers)
clear_account-IsSealed_example = clear_account-IsSealed opened

-- A PIN is set up on disk; an unlock and then a lock.
abbrev after_unlock : State
after_unlock = (unlock_commit platform zero_keys [] db (set_tpm_configured true (new_state 7))).1

abbrev and_locked : Reach platform (lock after_unlock)
and_locked = next (next (next (start 7) (configures_tpm true)) (unlocks zero_keys [] db)) locks

Reach-IsConsistent_example : IsConsistent (lock after_unlock)
Reach-IsConsistent_example = Reach-IsConsistent and_locked

same : (request_times 1 (lock after_unlock)).lock_epoch ≡ (lock after_unlock).lock_epoch
unfolding lock request_unlock
same = refl

same_epoch-same_keys_example : (request_times 1 (lock after_unlock)).keys ≡ (lock after_unlock).keys
same_epoch-same_keys_example = same_epoch-same_keys and_locked asks_unlock same

abbrev fresh : SyncResult
fresh = record {
  user_id = "u";
  key = "2.a|b|c";
  protected_private_key = none;
  org_keys = [];
  entries = guarded_login ∷ guarded_login ∷ [];
}

acknowledged : (sync_ok platform fresh (has_email "ada@example.com") opened).0 ≡ ack
unfolding sync_ok
acknowledged = refl

sync_ok-IsSynced_example :
    IsSynced platform fresh.entries (sync_ok platform fresh (has_email "ada@example.com") opened).1
    × (entries_of (sync_ok platform fresh (has_email "ada@example.com") opened).1.db
        ≡ fresh.entries)
sync_ok-IsSynced_example =
    sync_ok-IsSynced platform fresh (has_email "ada@example.com") opened acknowledged

unlock_commit-IsCurrent_example :
    IsCurrent platform after_unlock
    × (after_unlock.keys ≡ some zero_keys)
    × (entries_of after_unlock.db ≡ guarded_login ∷ [])
    × ((unlock_commit platform zero_keys [] db (set_tpm_configured true (new_state 7))).0 ≡ false)
    × ((unlock_commit platform zero_keys [] db (set_tpm_configured true (new_state 7))).0
        ≡ not (is_some_of (access_token_of after_unlock.db)))
unlock_commit-IsCurrent_example =
    unlock_commit-IsCurrent platform zero_keys [] db (set_tpm_configured true (new_state 7))

ten_after : 10 ≤ 100
ten_after = omega arith

set_timeout : 0 < 120
set_timeout = omega arith

ninety : 100 - 10 ≤ 120
ninety = omega arith

passed : 120 ≤ 200 - 10
passed = omega arith

remaining-deadline_example :
    (remaining_sleep_secs 100 10 120 ≤ 30)
    × ((100 + remaining_sleep_secs 100 10 120) - 10 ≤ 120)
    × ((120 ≤ (100 + remaining_sleep_secs 100 10 120) - 10)
        ⊎ (remaining_sleep_secs 100 10 120 ≡ 30))
    × ((remaining_sleep_secs 100 10 120 ≡ 0) ↔ (120 ≤ 100 - 10))
remaining-deadline_example = remaining-deadline 100 10 120 ten_after set_timeout ninety
