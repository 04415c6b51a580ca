-- ===== src/Examples/Restores.antt =====
-- A refresh token that is written to the disk and restores a session.
use cosmic_bwarden.Base.{
  ◌≡◌, ◌≤◌, refl, true, false, none, some, [], ◌∷◌, ◌++◌, codes, inl, inr, arith, length,
}
use cosmic_bwarden.Crypto.{Bytes, ok}
use cosmic_bwarden.CipherString.{enc_key, mac_key, capacity}
use cosmic_bwarden.Envelope.{seal, derive_key, account_aad}
use cosmic_bwarden.Protocol.{plain}
use cosmic_bwarden.State.{access_token_of}
use cosmic_bwarden.Restore.{
  not_found, contents, Network, two_factor_required, Restored, refresh_token, password_hash,
  persist_current, restore_session, load_from, describe_login_failure,
}
use cosmic_bwarden.Restore.Order.{InOrder, restore_session-InOrder}
use cosmic_bwarden.Restore.Persisted.{persist-restore}
use cosmic_bwarden.Examples.Data.{times16, zero_keys, opened, db, kdf, aead, aead_laws}
use cosmic_bwarden.Examples.Ascii.{ascii, ascii_texts}

abbrev pub nonce : Bytes
nonce = times16 9 ++ 9 ∷ 9 ∷ 9 ∷ 9 ∷ 9 ∷ 9 ∷ 9 ∷ 9 ∷ []

abbrev blob : Bytes
blob = 1 ∷ nonce ++ times16 0 ++ codes "refresh"

seals :
    seal ascii kdf aead zero_keys (codes "refresh") (account_aad (codes "s") (codes "e")) nonce
    ≡ ok blob
unfolding seal derive_key enc_key mac_key
seals = refl

-- The server takes any refresh token, but no silent login.
abbrev pub network : Network
network = record {
  exchange_refresh_token = λ token. inr ("minted", none);
  device_id = some "device";
  login = inl two_factor_required;
}

fits : length (codes "refresh") ≤ capacity
fits = omega arith

persist-restore_example :
    (persist_current ascii kdf aead (codes "s") (codes "e") nonce true opened not_found
      ≡ ok (contents blob))
    × (r : Restored) × (restore_session ascii kdf aead
          (codes "s")
          (codes "e")
          nonce
          false
          opened
          (contents blob)
          network
          false
          zero_keys
        ≡ ok r)
    × (r.reason ≡ none)
    × (r.sent ≡ refresh_token "refresh" ∷ [])
    × (access_token_of r.state.db ≡ some "minted")
persist-restore_example =
    persist-restore ascii kdf aead (codes "s") (codes "e") aead_laws ascii_texts zero_keys "refresh"
      nonce nonce blob false false opened opened not_found db network ("minted", none) refl fits
      refl refl seals refl refl refl

-- There is no file, and a silent login with a hash is refused.
abbrev refused_login : Restored
refused_login = record {
  reason = some (plain (describe_login_failure two_factor_required));
  state = opened;
  file = not_found;
  sent = password_hash ∷ [];
}

refuses :
    restore_session ascii kdf aead
      (codes "s")
      (codes "e")
      nonce
      true
      opened
      not_found
      network
      true
      zero_keys
    ≡ ok refused_login
unfolding restore_session load_from
refuses = refl

restore_session-InOrder_example :
    InOrder ascii kdf aead
      (codes "s")
      (codes "e")
      nonce
      true
      opened
      not_found
      network
      true
      zero_keys
      refused_login
restore_session-InOrder_example =
    restore_session-InOrder ascii kdf aead (codes "s") (codes "e") nonce true opened not_found
      network true zero_keys refused_login refuses
