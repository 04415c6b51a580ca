-- ===== src/Restore/Order.antt =====
-- The weakest credential goes first.
use cosmic_bwarden.Base.{
  String, Bool, true, false, Option, none, some, List, [], ◌∷◌, ◌++◌, ◌≡◌, refl, ◌⊎◌, inl, inr,
  subst,
}
use cosmic_bwarden.Crypto.{Bytes, Crypto, Error, Outcome, ok, err, panic}
use cosmic_bwarden.CipherString.{Keys}
use cosmic_bwarden.Identity.{Kdf}
use cosmic_bwarden.Envelope.{Aead}
use cosmic_bwarden.Protocol.{Message, plain, failure}
use cosmic_bwarden.State.{State}
use cosmic_bwarden.Session.Requests.{adopt_tokens}
use cosmic_bwarden.Restore.{
  SessionFile, LoginFailure, Tokens, Network, Credential, refresh_token, password_hash, Restored,
  load_from, adopted, minted, try_password_grant, second_source, refreshed, first_source,
  restore_session,
}

module _ (c : Crypto) (k : Kdf) (a : Aead) (server email nonce : Bytes) (writes : Bool) (s : State)
    (file : SessionFile) (net : Network) (hash : Bool) (keys : Keys) where
  -- The session was restored with tokens of the server, which are in memory, after these credentials were sent.
  abbrev pub Succeeded : List Credential → Tokens → Restored → Type 0
  Succeeded sent tokens r =
      (r.reason ≡ none) × (r.sent ≡ sent) × (r.state ≡ adopt_tokens tokens.0 tokens.1 s)

  -- It was not, the state and the file are as they were.
  abbrev pub Failed : List Credential → Restored → Type 0
  Failed sent r =
      (m : Message) × (r.reason ≡ some m) × (r.sent ≡ sent) × (r.state ≡ s) × (r.file ≡ file)

  -- The refresh token was tried in vain, with what was sent: there was none, or the server refused the one that the
  -- keys open.
  abbrev pub TriedInVain : List Credential → Type 0
  TriedInVain sent =
      ((sent ≡ [])
        × ((load_from c k a server email keys file ≡ ok none)
            ⊎ ((e : Error) × (load_from c k a server email keys file ≡ err e))))
      ⊎ ((token : String) × (e : String) × (sent ≡ refresh_token token ∷ [])
          × (load_from c k a server email keys file ≡ ok (some token))
          × (net.exchange_refresh_token token ≡ inl e))

  -- The hash comes second, and only where there is one.
  abbrev pub SecondSource : List Credential → Restored → Type 0
  SecondSource sent r =
      Failed sent r
      ⊎ ((hash ≡ true)
          × (Failed (sent ++ password_hash ∷ []) r
              ⊎ ((tokens : Tokens) × (net.login ≡ inr tokens)
                  × Succeeded (sent ++ password_hash ∷ []) tokens r)))

  abbrev pub InOrder : Restored → Type 0
  InOrder r =
      ((token : String) × (tokens : Tokens) × (load_from c k a server email keys file
          ≡ ok (some token))
        × (net.exchange_refresh_token token ≡ inr tokens)
        × Succeeded (refresh_token token ∷ []) tokens r)
      ⊎ ((sent : List Credential) × TriedInVain sent × SecondSource sent r)

  abbrev On : (Restored → Type 0) → Outcome Restored → Type 0
  On P (ok r) = P r
  On P (err e) = Unit
  On P panic = Unit

  adopted-Succeeded :
      (sent : List Credential) (tokens : Tokens) (f : Outcome SessionFile)
      → On
          (Succeeded sent tokens)
          (adopted c k a server email nonce writes s file sent (adopt_tokens tokens.0 tokens.1 s) f)
  adopted-Succeeded sent tokens (ok f) = (refl, refl, refl)
  adopted-Succeeded sent tokens (err e) = tt
  adopted-Succeeded sent tokens panic = tt

  On-map :
      (P Q : Restored → Type 0) (o : Outcome Restored) (f : (r : Restored) → P r → Q r)
      → On P o
      → On Q o
  On-map P Q (ok r) f p = f r p
  On-map P Q (err e) f p = tt
  On-map P Q panic f p = tt

  grant-SecondSource :
      (sent : List Credential) (l : LoginFailure ⊎ Tokens) (device : Option String)
      → hash ≡ true
      → net.login ≡ l
      → On (SecondSource sent) (
          try_password_grant c k a server email nonce writes s file
            (record net { login = l })
            sent
            device)
  grant-SecondSource sent l none h e = inl (_, refl, refl, refl, refl)
  grant-SecondSource sent (inl f) (some device) h e = inr (h, inl (_, refl, refl, refl, refl))
  grant-SecondSource sent (inr tokens) (some device) h e =
      On-map (Succeeded (sent ++ password_hash ∷ []) tokens) (SecondSource sent)
        (minted c k a server email nonce writes s file (sent ++ password_hash ∷ []) tokens)
        (λ r p. inr (h, inr (tokens, e, p)))
        (adopted-Succeeded (sent ++ password_hash ∷ []) tokens _)

  second-SecondSource :
      (b : Bool) (sent : List Credential) (m : Option Message)
      → hash ≡ b
      → On (SecondSource sent) (second_source c k a server email nonce writes s file net b sent m)
  second-SecondSource true sent m h = grant-SecondSource sent net.login net.device_id h refl
  second-SecondSource false sent m h = inl (_, refl, refl, refl, refl)

  second-InOrder :
      (sent : List Credential) (m : Option Message)
      → TriedInVain sent
      → On InOrder (second_source c k a server email nonce writes s file net hash sent m)
  second-InOrder sent m v =
      On-map (SecondSource sent) InOrder
        (second_source c k a server email nonce writes s file net hash sent m)
        (λ r p. inr (sent, v, p)) (second-SecondSource hash sent m refl)

  refreshed-InOrder :
      (token : String) (x : String ⊎ Tokens)
      → load_from c k a server email keys file ≡ ok (some token)
      → net.exchange_refresh_token token ≡ x
      → On InOrder (refreshed c k a server email nonce writes s file net hash token x)
  refreshed-InOrder token (inl e) l h =
      second-InOrder (refresh_token token ∷ []) (some (plain e)) (inr (token, e, refl, l, h))
  refreshed-InOrder token (inr tokens) l h =
      On-map (Succeeded (refresh_token token ∷ []) tokens) InOrder
        (minted c k a server email nonce writes s file (refresh_token token ∷ []) tokens)
        (λ r p. inl (token, tokens, l, h, p))
        (adopted-Succeeded (refresh_token token ∷ []) tokens _)

  first-InOrder :
      (o : Outcome (Option String))
      → load_from c k a server email keys file ≡ o
      → On InOrder (first_source c k a server email nonce writes s file net hash o)
  first-InOrder (ok none) l = second-InOrder [] none (inl (refl, inl l))
  first-InOrder (ok (some token)) l =
      refreshed-InOrder token (net.exchange_refresh_token token) l refl
  first-InOrder (err e) l = second-InOrder [] (some (failure "" e)) (inl (refl, inr (e, l)))
  first-InOrder panic l = tt

  -- A session is restored with the refresh token that the keys open, if there is one and the server takes it, and then
  -- nothing else is sent; the hash of the master password is sent only after that failed and only if one was given. The
  -- tokens that end up in memory are those of the answer, and without one the state and the file are left as they were.
  pub restore_session-InOrder :
      (r : Restored)
      → restore_session c k a server email nonce writes s file net hash keys ≡ ok r
      → InOrder r
  unfolding restore_session
  restore_session-InOrder r h =
      subst (On InOrder) h (first-InOrder (load_from c k a server email keys file) refl)
