-- ===== src/MasterPassword/Returns.antt =====
-- The right master password opens the vault, whatever the server answers.
use cosmic_bwarden.Base.{
  String, Bool, true, false, Option, none, some, List, [], ◌∷◌, ◌++◌, ◌≡◌, ◌≢◌, refl, ◌⊎◌, inl, inr,
  Text,
}
use cosmic_bwarden.Crypto.{Bytes, Crypto, Outcome, ok, err, panic, >>=-eq-ok}
use cosmic_bwarden.CipherString.{Keys, locked_vec}
use cosmic_bwarden.Entry.Decrypt.{OrgKeys}
use cosmic_bwarden.Identity.{Kdf}
use cosmic_bwarden.Envelope.{Aead, derive_key}
use cosmic_bwarden.Protocol.{Message, ack, plain, failure}
use cosmic_bwarden.State.{State, Db, Platform, has_account}
use cosmic_bwarden.Session.{has_email, unlock_commit}
use cosmic_bwarden.Session.Requests.{with_keyring, adopt_tokens}
use cosmic_bwarden.Session.Answers.{unlock_commit-IsCurrent}
use cosmic_bwarden.Restore.{
  SessionFile, LoginFailure, Tokens, Network, Credential, refresh_token, password_hash, load_from,
  minted, try_password_grant, second_source, refreshed, first_source, restore_session,
}
use cosmic_bwarden.Restore.Persisted.{persist-total}
use cosmic_bwarden.MasterPassword.{
  identity_of, unlock_of, unlock, Unlocked, after_commit, noted, handle_unlock,
}

abbrev Returns : {A : Type 0} → Outcome A → Type 0
Returns {A = A} o = (r : A) × (o ≡ ok r)

module _ (c : Crypto) (k : Kdf) (a : Aead) (server email nonce : Bytes) (writes : Bool) (s : State)
    (file : SessionFile) (net : Network) (keys : Keys) (key : Bytes)
    (d : derive_key c k a keys ≡ ok key) (hs : s.keys ≡ some keys) where
  minted-total :
      (sent : List Credential) (tokens : Tokens)
      → Returns (minted c k a server email nonce writes s file sent tokens)
  unfolding adopt_tokens
  minted-total sent (access, refresh) =
      let p =
        persist-total c k a server email keys key nonce writes file (adopt_tokens access refresh s)
          d hs in
      (
        record { reason = none; state = adopt_tokens access refresh s; file = p.0; sent = sent },
        rw p.1 refl,
      )

  grant-total :
      (sent : List Credential) (device : Option String) (l : LoginFailure ⊎ Tokens)
      → Returns (
          try_password_grant c k a server email nonce writes s file
            (record net { login = l })
            sent
            device)
  grant-total sent none l = (_, refl)
  grant-total sent (some device) (inl f) = (_, refl)
  grant-total sent (some device) (inr tokens) = minted-total (sent ++ password_hash ∷ []) tokens

  second-total :
      (hash : Bool) (sent : List Credential) (m : Option Message)
      → Returns (second_source c k a server email nonce writes s file net hash sent m)
  second-total true sent m = grant-total sent net.device_id net.login
  second-total false sent m = (_, refl)

  refreshed-total :
      (hash : Bool) (token : String) (x : String ⊎ Tokens)
      → Returns (refreshed c k a server email nonce writes s file net hash token x)
  refreshed-total hash token (inl e) = second-total hash (refresh_token token ∷ []) (some (plain e))
  refreshed-total hash token (inr tokens) = minted-total (refresh_token token ∷ []) tokens

  first-total :
      (hash : Bool) (l : Outcome (Option String))
      → l ≢ panic
      → Returns (first_source c k a server email nonce writes s file net hash l)
  first-total hash (ok none) h = second-total hash [] none
  first-total hash (ok (some token)) h =
      refreshed-total hash token (net.exchange_refresh_token token)
  first-total hash (err e) h = second-total hash [] (some (failure "" e))
  first-total hash panic h = absurd (h refl)

identity-unlock :
    (c : Crypto) (k : Kdf) (lower : Text → Text) (email : String) (password : Bytes) (db : Db)
    {x : Keys × OrgKeys}
    → unlock_of c k lower email password db ≡ ok x
    → Returns (identity_of c k lower email password db)
unfolding unlock
identity-unlock c k lower email password db h =
    let i = >>=-eq-ok (identity_of c k lower email password db) _ h in (i.0, i.1)

module _ (c : Crypto) (k : Kdf) (a : Aead) (p : Platform) (server nonce : Bytes) (writes : Bool)
    (net : Network) (file : SessionFile) (s : State) where
  unfoldable Acknowledged : Outcome Unlocked → Type 0
  Acknowledged o = (r : Unlocked) × (o ≡ ok r) × (r.response ≡ ack)

  after_commit-Acknowledged :
      (email : Bytes) (keys : Keys) (key : Bytes) (needs : Bool) (t : State)
      → derive_key c k a keys ≡ ok key
      → t.keys ≡ some keys
      → load_from c k a server email keys file ≢ panic
      → Acknowledged (after_commit c k a p server nonce writes net file s email keys needs t)
  unfolding Acknowledged restore_session
  after_commit-Acknowledged email keys key true t d ht hl =
      let r = first-total c k a server email nonce writes t file net keys key d ht true _ hl in
      (
        record {
          response = ack;
          state = noted c k a p server nonce writes net file s r.0.reason r.0.state;
          file = r.0.file;
          sent = r.0.sent;
        },
        rw r.1 refl,
        refl,
      )
  after_commit-Acknowledged email keys key false t d ht hl =
      let f = persist-total c k a server email keys key nonce writes file t d ht in
      (record { response = ack; state = t; file = f.0; sent = [] }, rw f.1 refl, refl)

  -- A master password with which the vault's keys can be got from the account on disk (`unlock_of`: the vault key, and,
  -- if the account has a private key, that and every organisation key decrypt) is acknowledged, whatever the server
  -- answers and whether or not a session is restored: if the email is configured, the password fits into the locked
  -- buffer, there is an account, the vault keys can protect an envelope, and reading the session file is no panic.
  pub handle_unlock-right_password :
      (lower : Text → Text) (password key : Bytes) (tokens : Option (String × String)) (db : Db)
      (email : String) (keys : Keys) (org_keys : OrgKeys)
      → locked_vec password ≡ ok password
      → has_account db ≡ true
      → unlock_of c k lower email password (with_keyring tokens db) ≡ ok (keys, org_keys)
      → derive_key c k a keys ≡ ok key
      → load_from c k a server (c.to_utf8 email) keys file ≢ panic
      → (r : Unlocked) × (handle_unlock c k a p server nonce writes net file s lower password tokens
            (inr db)
            (has_email email)
          ≡ ok r)
        × (r.response ≡ ack)
  unfolding handle_unlock Acknowledged
  handle_unlock-right_password lower password key tokens db email keys org_keys hl ha hu d hf =
      let db1 : Db = with_keyring tokens db in
      let i = identity-unlock c k lower email password db1 hu in
      let q = unlock_commit-IsCurrent p keys org_keys db1 s in
      let r = unlock_commit p keys org_keys db1 s in
      let x = after_commit-Acknowledged (c.to_utf8 email) keys key r.0 r.1 d q.1 hf in
      (x.0, rw (ha, hl, i.1, hu) x.1, x.2)
