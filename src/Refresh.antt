-- ===== src/Refresh.antt =====
-- crates/cosmarden-agent/src/server/auth.rs: `with_refresh`, with the `restore_session` of handler/auth/reauth.rs that
-- it calls: a request to the server that may refresh its access token once. A request stands at a point between two of
-- its sections; what it awaits there is an event, and the other handlers may change the state before it comes. The
-- mutex of the refresh is held from the point that it is granted at.
pub mod Attempts
pub mod Ends
pub mod Tokens
pub mod Exclusive
use cosmic_bwarden.Base.{
  ℕ, String, Bool, true, false, not, ◌&&◌, Option, none, some, List, [], ◌∷◌, codes, if◌then◌else◌,
  ◌==◌, ◌⊎◌, inl, inr, nat_eq, string_eq,
}
use cosmic_bwarden.Base.Strings.{contains}
use cosmic_bwarden.CipherString.{Keys}
use cosmic_bwarden.Protocol.{Message, plain, because}
use cosmic_bwarden.State.{State, Db, access_token_of, refresh_token_of, is_some_of}
use cosmic_bwarden.Session.{ConfigRead, unreadable, no_email, has_email}
use cosmic_bwarden.Session.Requests.{adopt_tokens, with_keyring}

-- The errors of the client, as far as they are told apart here; the last one is any other, by its text.
pub data ApiError : Type 0 where
  request_unauthorized : ApiError
  request_failed : ℕ → ApiError
  other : String → ApiError
  another : String → ApiError

pub data Reply (A : Type 0) : Type 0 where
  ok : A → Reply A
  err : ApiError → Reply A

unfoldable pub is_unauthorized : ApiError → Bool
unfolding contains
is_unauthorized request_unauthorized = true
is_unauthorized (request_failed status) = status == 401
is_unauthorized (other msg) = contains (codes msg) (codes "401")
is_unauthorized (another text) = false

-- The text of an error that is passed on.
pub data Failure : Type 0 where
  told : Message → Failure
  api : ApiError → Failure
  refresh_failed : ApiError → Failure
  no_session unrestored : String → Failure
  unrestored_by : ApiError → Failure

pub data Point (A : Type 0) : Type 0 where
  -- No token: the request waits for the mutex; with it, the session file is opened with the keys; the refresh token
  -- that was in it is sent; and the request looks for the access token.
  waiting : Keys → Point A
  restoring : Keys → Point A
  redeeming : String → Point A
  restored : Point A
  -- `f` is called with the token; the server has rejected it and the request waits for the mutex.
  trying rejected : String → Point A
  -- With the mutex: the refresh token is to be read; it is sent (the rejected token, then the refresh token); `f` is
  -- called again (the rejected token, then the token of the second call).
  refreshing : String → Point A
  exchanging retrying : String → String → Point A
  finished : A → Point A
  failed : Failure → Point A

-- What a request awaits: the mutex, the state, the session file (an error, or the refresh token if there is one), the
-- answer to `f`, and that to the exchange of a refresh token: a new access token and maybe a new refresh token.
pub data Event (A : Type 0) : Type 0 where
  granted proceeds : Event A
  session_loaded : String ⊎ Option String → Event A
  replied : Reply A → Event A
  exchanged : Reply (String × Option String) → Event A

-- The tokens of the keyring, if the session is to persist and none is in memory.
abbrev pub loaded : Bool → ConfigRead → Option (String × String) → Db → Db
loaded persist (has_email m) tokens db =
    if not (is_some_of db.access_token) && persist then with_keyring tokens db else db
loaded persist cfg tokens db = db

module _ {A : Type 0} where
  abbrev pub try_or_wait : Option String → ConfigRead → Option Keys → Point A
  try_or_wait (some at) cfg keys = trying at
  try_or_wait none (has_email m) none =
      failed (no_session " — the vault is locked, so the saved session cannot be opened")
  try_or_wait none (has_email m) (some k) = waiting k
  try_or_wait none cfg keys = failed (told (plain "email not set in config"))

  abbrev pub begin_with :
      Bool → ConfigRead → Option (String × String) → State → Option Db → Point A × State
  begin_with persist (unreadable e) tokens s db = (failed (told (plain e)), s)
  begin_with persist cfg tokens s none = (failed (told (plain "agent is locked")), s)
  begin_with persist cfg tokens s (some db) =
      let db1 = loaded persist cfg tokens db in
      (try_or_wait db1.access_token cfg s.keys, record s { db = some db1 })

  -- The first section: whether the session is to persist, the configuration and the keyring.
  unfoldable pub begin : Bool → ConfigRead → Option (String × String) → State → Point A × State
  begin persist cfg tokens s = begin_with persist cfg tokens s s.db

  abbrev pub restore_or_try : Keys → Option String → Point A
  restore_or_try keys none = restoring keys
  restore_or_try keys (some at) = trying at

  -- `restore_session` without a hash of the master password, by what is loaded.
  abbrev pub redeem_or_fail : String ⊎ Option String → Point A
  redeem_or_fail (inl reason) = failed (unrestored reason)
  redeem_or_fail (inr none) = failed (
      unrestored
        "no saved session on this device — unlock with your master password to restore sync")
  redeem_or_fail (inr (some rt)) = redeeming rt

  abbrev pub try_restored : Option String → Point A
  try_restored none = failed (no_session " — session restore reported success but left no token")
  try_restored (some at) = trying at

  -- `if *current != *access_token`
  abbrev pub retry_or_refresh : String → Option String → Point A
  retry_or_refresh at none = refreshing at
  retry_or_refresh at (some current) =
      if not (current == at) then retrying at current else refreshing at

  abbrev pub exchange_or_fail : String → Option String → Point A
  exchange_or_fail at none = failed (told (plain "no refresh token"))
  exchange_or_fail at (some rt) = exchanging at rt

  abbrev pub answered : Reply A → Point A
  answered (ok a) = finished a
  answered (err e) = failed (api e)

  abbrev pub tried : String → Reply A → Point A
  tried at (ok a) = finished a
  tried at (err e) = if is_unauthorized e then rejected at else failed (api e)

  -- The section that an event starts; `none` where it is not awaited.
  unfoldable pub advance : Event A → Point A → State → Option (Point A × State)
  unfolding is_unauthorized adopt_tokens
  advance granted (waiting keys) s = some (restore_or_try keys (access_token_of s.db), s)
  advance (session_loaded l) (restoring keys) s = some (redeem_or_fail l, s)
  advance (exchanged (ok (new_at, new_rt))) (redeeming rt) s =
      some (restored, adopt_tokens new_at new_rt s)
  advance (exchanged (err e)) (redeeming rt) s = some (failed (unrestored_by e), s)
  advance proceeds restored s = some (try_restored (access_token_of s.db), s)
  advance (replied r) (trying at) s = some (tried at r, s)
  advance granted (rejected at) s = some (retry_or_refresh at (access_token_of s.db), s)
  advance proceeds (refreshing at) s = some (exchange_or_fail at (refresh_token_of s.db), s)
  advance (exchanged (ok (new_at, new_rt))) (exchanging at rt) s =
      some (retrying at new_at, adopt_tokens new_at new_rt s)
  advance (exchanged (err e)) (exchanging at rt) s = some (failed (refresh_failed e), s)
  advance (replied r) (retrying at now) s = some (answered r, s)
  advance e p s = none
