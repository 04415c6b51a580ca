-- ===== src/Restore.antt =====
-- crates/cosmarden-agent/src/handler/auth/reauth.rs and session_store.rs: the refresh token on disk, and the order in
-- which an unlock tries its credentials. All sections of a restore find the same state: another handler between them
-- is left out, and so are the keyring and the details of an error's text. The server's answers are functions of what
-- is sent.
pub mod Order
pub mod Persisted
use cosmic_bwarden.Base.{
  ℕ, String, Bool, true, false, Option, none, some, List, [], ◌∷◌, ◌++◌, ◌⊎◌, inl, inr, length, ltb,
  nat_eq, if◌then◌else◌,
}
use cosmic_bwarden.Crypto.{
  Bytes, Crypto, Error, other, Outcome, ok, err, panic, ◌>>=◌, or_err, session_envelope_with,
}
use cosmic_bwarden.CipherString.{Keys}
use cosmic_bwarden.Identity.{Kdf}
use cosmic_bwarden.Envelope.{Aead, seal, open_envelope, account_aad, max_envelope_bytes}
use cosmic_bwarden.Protocol.{Message, plain, because, failure}
use cosmic_bwarden.State.{State, Db, refresh_token_of}
use cosmic_bwarden.Session.Requests.{adopt_tokens}

-- What reading the session file gives.
pub data SessionFile : Type 0 where
  not_found : SessionFile
  unread : String → SessionFile
  contents : Bytes → SessionFile

-- The errors of a login that are told apart, and the text of any other.
pub data LoginFailure : Type 0 where
  two_factor_required new_device_verification_required : LoginFailure
  another_failure : String → LoginFailure

unfoldable pub describe_login_failure : LoginFailure → String
describe_login_failure two_factor_required =
    "two-factor authentication is required, which a silent re-auth cannot satisfy — unlock with your master password to restore sync"
describe_login_failure new_device_verification_required =
    "this device needs verification before it can log in — unlock with your master password to restore sync"
describe_login_failure (another_failure text) = text

-- A new access token and maybe a new refresh token.
abbrev pub Tokens : Type 0
Tokens = String × Option String

-- What the server and the device answer: to a refresh token, to the request for the device's id, and to the hash.
pub record Network : Type 0 where
  pub exchange_refresh_token : String → String ⊎ Tokens
  pub device_id : Option String
  pub login : LoginFailure ⊎ Tokens

pub data Credential : Type 0 where
  refresh_token : String → Credential
  password_hash : Credential

-- What a restore comes to: the reason if it fails, the state, the file, and the credentials that were sent.
pub record Restored : Type 0 where
  pub reason : Option Message
  pub state : State
  pub file : SessionFile
  pub sent : List Credential

module _ (c : Crypto) (k : Kdf) (a : Aead) (server email : Bytes) where
  -- `load_from`, the length of the file first.
  abbrev pub load_blob : Keys → Bytes → Outcome (Option String)
  load_blob keys blob =
      if ltb max_envelope_bytes (length blob)
      then err (session_envelope_with "session envelope past the 16384-byte cap" (length blob))
      else (open_envelope c k a keys blob (account_aad server email) >>= λ plaintext.
          or_err (c.from_utf8 plaintext) (other "stored session is not valid UTF-8") >>= λ token.
          ok (some token))

  unfoldable pub load_from : Keys → SessionFile → Outcome (Option String)
  load_from keys not_found = ok none
  load_from keys (unread e) = err (other e)
  load_from keys (contents blob) = load_blob keys blob

  -- What is on disk after `save_to`, whose errors are only logged, with whether the file can be written.
  abbrev pub written : Bool → SessionFile → Outcome Bytes → Outcome SessionFile
  written writes file (ok blob) = ok (if writes then contents blob else file)
  written writes file (err e) = ok file
  written writes file panic = panic

  abbrev pub persist_with :
      Bytes → Bool → SessionFile → Option Keys → Option String → Outcome SessionFile
  persist_with nonce writes file none token = ok file
  persist_with nonce writes file (some keys) none = ok file
  persist_with nonce writes file (some keys) (some token) =
      written writes file (seal c k a keys (c.to_utf8 token) (account_aad server email) nonce)

  -- `persist_current`
  unfoldable pub persist_current : Bytes → Bool → State → SessionFile → Outcome SessionFile
  persist_current nonce writes s file =
      persist_with nonce writes file s.keys (refresh_token_of s.db)

  module _ (nonce : Bytes) (writes : Bool) (s : State) (file : SessionFile) where
    abbrev pub unrestored : List Credential → Message → Outcome Restored
    unrestored sent reason =
        ok (record { reason = some reason; state = s; file = file; sent = sent })

    abbrev pub adopted : List Credential → State → Outcome SessionFile → Outcome Restored
    adopted sent t (ok f) = ok (record { reason = none; state = t; file = f; sent = sent })
    adopted sent t (err e) = err e
    adopted sent t panic = panic

    -- `adopt_tokens`
    abbrev pub minted : List Credential → Tokens → Outcome Restored
    minted sent (access, refresh) =
        let t = adopt_tokens access refresh s in
        adopted sent t (persist_current nonce writes t file)

    abbrev pub logged_in : List Credential → LoginFailure ⊎ Tokens → Outcome Restored
    logged_in sent (inl f) = unrestored sent (plain (describe_login_failure f))
    logged_in sent (inr tokens) = minted sent tokens

    -- `try_password_grant`
    abbrev pub try_password_grant : Network → List Credential → Option String → Outcome Restored
    try_password_grant net sent none = unrestored sent (plain "could not obtain device_id")
    try_password_grant net sent (some device) = logged_in (sent ++ password_hash ∷ []) net.login

    abbrev pub reason_or : Option Message → Message
    reason_or none =
        plain "no saved session on this device — unlock with your master password to restore sync"
    reason_or (some m) = m

    -- The refresh token did not help; `true` if a hash of the master password was given.
    abbrev pub second_source : Network → Bool → List Credential → Option Message → Outcome Restored
    second_source net true sent failure' = try_password_grant net sent net.device_id
    second_source net false sent failure' = unrestored sent (reason_or failure')

    abbrev pub refreshed : Network → Bool → String → String ⊎ Tokens → Outcome Restored
    refreshed net hash token (inl e) =
        second_source net hash (refresh_token token ∷ []) (some (plain e))
    refreshed net hash token (inr tokens) = minted (refresh_token token ∷ []) tokens

    -- `try_stored_refresh_token`, by what was loaded.
    abbrev pub first_source : Network → Bool → Outcome (Option String) → Outcome Restored
    first_source net hash (ok none) = second_source net hash [] none
    first_source net hash (ok (some token)) =
        refreshed net hash token (net.exchange_refresh_token token)
    first_source net hash (err e) = second_source net hash [] (some (failure "" e))
    first_source net hash panic = panic

    unfoldable pub restore_session : Network → Bool → Keys → Outcome Restored
    restore_session net hash keys = first_source net hash (load_from keys file)
