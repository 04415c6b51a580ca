-- ===== src/Restore/Persisted.antt =====
-- A session that was persisted can be restored.
use cosmic_bwarden.Base.{
  ◌≤◌, String, Bool, true, false, Option, none, some, [], ◌∷◌, ◌++◌, ◌≡◌, ◌≢◌, refl, inl, inr,
  length, ltb, nat_eq, Bool-cases,
}
use cosmic_bwarden.Crypto.{
  Bytes, Crypto, Error, session_envelope, ok, err, or_err, ◌>>=◌, >>=-eq-ok,
}
use cosmic_bwarden.CipherString.{Keys, capacity}
use cosmic_bwarden.Identity.{Kdf}
use cosmic_bwarden.Envelope.{
  Aead, AeadLaws, account_aad, derive_key, seal, open_envelope, envelope_version, nonce_len,
  max_envelope_bytes,
}
use cosmic_bwarden.Envelope.Binding.{open-seal}
use cosmic_bwarden.Encrypt.Texts.{TextLaws}
use cosmic_bwarden.State.{State, Db, access_token_of, refresh_token_of}
use cosmic_bwarden.Session.Requests.{adopt_tokens, with_tokens}
use cosmic_bwarden.Restore.{
  SessionFile, contents, Tokens, Network, refresh_token, Restored, load_from, persist_current,
  persist_with, written, restore_session,
}

err-ne-ok : {e : Error} {b : Bytes} → err e ≢ ok b
err-ne-ok h = cc

module _ (c : Crypto) (k : Kdf) (a : Aead) where
  opened-fits :
      (keys : Keys) (blob aad plaintext : Bytes)
      → open_envelope c k a keys blob aad ≡ ok plaintext
      → ltb max_envelope_bytes (length blob) ≡ false
  unfolding open_envelope
  opened-fits keys blob aad plaintext h = elim (Bool-cases (ltb max_envelope_bytes (length blob))) [
    | inl long ↦ absurd (err-ne-ok (rw long at h))
    | inr fits ↦ fits
  ]

  -- Keys that sealed something once never make a later seal panic.
  written-total :
      (keys : Keys) (p aad nonce key : Bytes) (server email : Bytes) (writes : Bool)
      (file : SessionFile)
      → derive_key c k a keys ≡ ok key
      → (f : SessionFile) × (written c k a server email writes file (seal c k a keys p aad nonce)
          ≡ ok f)
  unfolding seal
  written-total keys p aad nonce key server email writes file d =
      rw d (by_ciphertext (a.encrypt key nonce aad p))
    where
      by_ciphertext :
          (o : Option Bytes)
          → (f : SessionFile) × (written c k a server email writes file (
                or_err o (session_envelope "AEAD encryption failed") >>= λ ct.
                ok (envelope_version ∷ nonce ++ ct))
              ≡ ok f)
      by_ciphertext none = (_, refl)
      by_ciphertext (some ct) = (_, refl)

  module _ (server email : Bytes) where
    load-persisted :
        (laws : AeadLaws a) (texts : TextLaws c) (keys : Keys) (token : String) (nonce blob : Bytes)
        → length nonce ≡ nonce_len
        → seal c k a keys (c.to_utf8 token) (account_aad server email) nonce ≡ ok blob
        → length (c.to_utf8 token) ≤ capacity
        → load_from c k a server email keys (contents blob) ≡ ok (some token)
    unfolding load_from
    load-persisted laws texts keys token nonce blob n h fits =
        let o =
          open-seal c k a laws keys (c.to_utf8 token) (account_aad server email) nonce blob n h
            fits in
        rw (
          opened-fits keys blob (account_aad server email) (c.to_utf8 token) o,
          o,
          texts.from-to_utf8 token,
        )

    pub persist-total :
        (keys : Keys) (key nonce : Bytes) (writes : Bool) (file : SessionFile) (s : State)
        → derive_key c k a keys ≡ ok key
        → s.keys ≡ some keys
        → (f : SessionFile) × (persist_current c k a server email nonce writes s file ≡ ok f)
    unfolding persist_current
    persist-total keys key nonce writes file s d h = rw h (by_token (refresh_token_of s.db))
      where
        by_token :
            (o : Option String)
            → (f : SessionFile) × (persist_with c k a server email nonce writes file (some keys) o
                ≡ ok f)
        by_token none = (file, refl)
        by_token (some token) =
            written-total keys (c.to_utf8 token) (account_aad server email) nonce key server email
              writes file d

    access-adopted :
        (tokens : Tokens) (db : Db)
        → access_token_of (with_tokens tokens.0 tokens.1 (some db)) ≡ some tokens.0
    access-adopted (at, none) db = refl
    access-adopted (at, some rt) db = refl

    -- A refresh token that was in memory while the vault was unlocked and was written to the disk restores the session
    -- of any later unlock with the same keys, if the server takes it: nothing else is sent, and the server's access
    -- token is in memory. The token fits into the locked buffer, and the nonce has its 24 bytes.
    pub persist-restore :
        (laws : AeadLaws a) (texts : TextLaws c) (keys : Keys) (token : String)
        (nonce nonce' blob : Bytes) (writes hash : Bool) (s later : State) (file : SessionFile)
        (db : Db) (net : Network) (tokens : Tokens)
        → length nonce ≡ nonce_len
        → length (c.to_utf8 token) ≤ capacity
        → s.keys ≡ some keys
        → refresh_token_of s.db ≡ some token
        → seal c k a keys (c.to_utf8 token) (account_aad server email) nonce ≡ ok blob
        → later.keys ≡ some keys
        → later.db ≡ some db
        → net.exchange_refresh_token token ≡ inr tokens
        → (persist_current c k a server email nonce true s file ≡ ok (contents blob))
          × (r : Restored) × (restore_session c k a server email nonce' writes later
                (contents blob)
                net
                hash
                keys
              ≡ ok r)
          × (r.reason ≡ none)
          × (r.sent ≡ refresh_token token ∷ [])
          × (access_token_of r.state.db ≡ some tokens.0)
    unfolding restore_session adopt_tokens persist_current seal
    persist-restore laws texts keys token nonce nonce' blob writes hash s later file db net tokens n
          fits hs ht hb hk hd hx =
        let key = >>=-eq-ok (derive_key c k a keys) _ hb in
        let t : State = adopt_tokens tokens.0 tokens.1 later in
        let p = persist-total keys key.0 nonce' writes (contents blob) t key.1 hk in
        (
          rw (hs, ht, hb) refl,
          record { reason = none; state = t; file = p.0; sent = refresh_token token ∷ [] },
          rw (load-persisted laws texts keys token nonce blob n hb fits, hx, p.1) refl,
          refl,
          refl,
          rw hd (access-adopted tokens db),
        )
