-- ===== src/State/Locking.antt =====
-- What locking and logging out leave in memory, and what the subscribers are told.
use cosmic_bwarden.Base.{
  ℕ, zero, suc, ◌+◌, ◌%◌, ◌^◌, true, false, ◌≡◌, refl, Option, none, some, List, [], ◌∷◌, ◌++◌, map,
  retain, arith, if◌then◌else◌,
}
use cosmic_bwarden.Protocol.{Event, locked, unlock_requested, pin_requested}
use cosmic_bwarden.State.{
  State, Db, Subscriber, lock, send_all, request_unlock, clear_account, without_tokens,
  access_token_of, refresh_token_of, entries_of,
}

-- A subscriber with one more event.
abbrev pub told : Event → Subscriber → Subscriber
told ev s = record s { received = s.received ++ ev ∷ [] }

abbrev pub open_of : List Subscriber → List Subscriber
open_of ss = retain (λ s. s.is_open) ss

-- Broadcasting keeps the subscribers whose receiver is there, in their order, and appends the event to each one's queue.
pub send_all-retain :
    (ev : Event) (ss : List Subscriber) → send_all ev ss ≡ map (told ev) (open_of ss)
unfolding send_all
send_all-retain ev [] = refl
send_all-retain ev (s ∷ ss) = ground (arith, send_all-retain ev ss)

open_of-told :
    (ev : Event) (ss : List Subscriber)
    → open_of (map (told ev) (open_of ss)) ≡ map (told ev) (open_of ss)
open_of-told ev [] = refl
open_of-told ev (s ∷ ss) = ground (arith, open_of-told ev ss)

-- Nothing that was decrypted and no session token is in memory, but for the public halves of the SSH keys.
unfoldable pub IsSealed : State → Type 0
IsSealed s =
    (s.keys ≡ none)
    × (s.org_keys ≡ none)
    × (s.sidebar_cache ≡ [])
    × (s.pinned_ids ≡ [])
    × (s.pending_entry_id ≡ none)
    × (access_token_of s.db ≡ none)
    × (refresh_token_of s.db ≡ none)

access_token_of-without : (db : Option Db) → access_token_of (without_tokens db) ≡ none
access_token_of-without none = refl
access_token_of-without (some db) = refl

refresh_token_of-without : (db : Option Db) → refresh_token_of (without_tokens db) ≡ none
refresh_token_of-without none = refl
refresh_token_of-without (some db) = refl

entries_of-without : (db : Option Db) → entries_of (without_tokens db) ≡ entries_of db
entries_of-without none = refl
entries_of-without (some db) = refl

-- Locking drops the keys, everything that was decrypted with them and the session's tokens. It keeps the
-- encrypted entries, the out-of-sync flag with its error and the public SSH identities, advances the epoch, and
-- tells every open subscriber once that the vault is locked.
pub lock-IsSealed :
    (s : State)
    → IsSealed (lock s)
      × (entries_of (lock s).db ≡ entries_of s.db)
      × ((lock s).sync_failed ≡ s.sync_failed)
      × ((lock s).last_sync_error ≡ s.last_sync_error)
      × ((lock s).ssh_identity_cache ≡ s.ssh_identity_cache)
      × ((lock s).lock_epoch ≡ (s.lock_epoch + 1) % 2 ^ 64)
      × ((lock s).subscribers ≡ map (told locked) (open_of s.subscribers))
unfolding lock IsSealed
lock-IsSealed s = (
  (refl, refl, refl, refl, refl, access_token_of-without s.db, refresh_token_of-without s.db),
  entries_of-without s.db,
  refl,
  refl,
  refl,
  refl,
  send_all-retain locked s.subscribers,
)

-- Logging out is locking, and then nothing of the account is left: no database, user, sync error or SSH identity.
pub clear_account-IsSealed :
    (s : State)
    → IsSealed (clear_account s)
      × ((clear_account s).db ≡ none)
      × ((clear_account s).user_id ≡ none)
      × ((clear_account s).ssh_identity_cache ≡ [])
      × ((clear_account s).sync_failed ≡ false)
      × ((clear_account s).last_sync_error ≡ none)
      × ((clear_account s).subscribers ≡ (lock s).subscribers)
unfolding clear_account IsSealed
clear_account-IsSealed s =
    ((refl, refl, refl, refl, refl, refl, refl), refl, refl, refl, refl, refl, refl)

-- The event that asks for an unlock: for the PIN when there is a TPM PIN, for the password otherwise.
abbrev pub unlock_event : State → Event
unlock_event s = if s.tpm_configured then pin_requested else unlock_requested

-- Some number of requests for an unlock, one after the other.
abbrev pub request_times : ℕ → State → State
request_times zero s = s
request_times (suc n) s = request_unlock (request_times n s)

request_unlock_once :
    (s : State)
    → s.unlock_requested_notified ≡ false
    → ((request_unlock s).unlock_requested_notified ≡ true)
      × ((request_unlock s).subscribers ≡ map (told (unlock_event s)) (open_of s.subscribers))
unfolding request_unlock
request_unlock_once s quiet = rw quiet (refl, send_all-retain (unlock_event s) s.subscribers)

request_unlock_again : (s : State) → s.unlock_requested_notified ≡ true → request_unlock s ≡ s
unfolding request_unlock
request_unlock_again s loud = rw loud refl

request_times-once :
    (n : ℕ) (s : State)
    → s.unlock_requested_notified ≡ false
    → request_times (suc n) s ≡ request_unlock s
request_times-once zero s quiet = refl
request_times-once (suc n) s quiet =
    rw (request_times-once n s quiet)
      (request_unlock_again (request_unlock s) (request_unlock_once s quiet).0)

-- However often an unlock is asked for in one lock period, every open subscriber gets exactly one request, for the PIN
-- when a TPM PIN is configured and for the password otherwise, after the event of the lock.
pub request-lock :
    (n : ℕ) (s : State)
    → (request_times (suc n) (lock s)).subscribers
      ≡ map (told (unlock_event s)) (map (told locked) (open_of s.subscribers))
unfolding lock
request-lock n s =
    rw (request_times-once n (lock s) refl, (request_unlock_once (lock s) refl).1)
      (rw (send_all-retain locked s.subscribers, open_of-told locked s.subscribers) refl)
