-- ===== src/Examples/Unlocks.antt =====
-- A vault that is unlocked with the master password, without a session to restore, and a PIN that is set up with it.
use cosmic_bwarden.Base.{◌≡◌, ◌⊎◌, refl, true, none, some, [], ◌∷◌, codes, inr, Text}
use cosmic_bwarden.Crypto.{ok}
use cosmic_bwarden.CipherString.{Keys, new, decrypt_locked_symmetric, enc_key, mac_key}
use cosmic_bwarden.Identity.{new_identity, stretch}
use cosmic_bwarden.Vault.{unlock_from_keys}
use cosmic_bwarden.Protocol.{ack, plain}
use cosmic_bwarden.State.{State, Db, has_account, bump_epoch}
use cosmic_bwarden.Session.{has_email, unlock_commit}
use cosmic_bwarden.Restore.{
  not_found, two_factor_required, describe_login_failure, password_hash, restore_session, load_from,
}
use cosmic_bwarden.Pin.{setup_from_unlocked}
use cosmic_bwarden.MasterPassword.{unlock, unlock_of, Unlocked, handle_unlock, setup_tpm_pin}
use cosmic_bwarden.MasterPassword.Unlocks.{Denied, Opened, handle_unlock_lem}
use cosmic_bwarden.MasterPassword.Returns.{handle_unlock-right_password}
use cosmic_bwarden.MasterPassword.Setup.{setup-same}
use cosmic_bwarden.Envelope.{derive_key}
use cosmic_bwarden.Examples.Data.{zero_keys, times32}
use cosmic_bwarden.Crypto.{panic}
use cosmic_bwarden.Base.{◌≢◌}
use cosmic_bwarden.Examples.Data.{crypto, kdf, aead, platform, db, opened, watched}
use cosmic_bwarden.Examples.Pins.{tpm, off, six}
use cosmic_bwarden.Examples.Restores.{network, nonce}

abbrev same_text : Text → Text
same_text t = t

abbrev on_disk : Db
on_disk = record db { access_token = none; refresh_token = none }

abbrev vault_keys : Keys
vault_keys = record { bytes = 0 ∷ [] }

right_password :
    unlock_of crypto kdf same_text "ada@example.com" (codes "pw") on_disk ≡ ok (vault_keys, [])
unfolding unlock new_identity stretch unlock_from_keys new decrypt_locked_symmetric mac_key enc_key
right_password = refl

abbrev offline : Unlocked
offline = record {
  response = ack;
  state = record (unlock_commit platform vault_keys [] on_disk watched).1 {
    sync_failed = true;
    last_sync_error = some (plain (describe_login_failure two_factor_required));
  };
  file = not_found;
  sent = password_hash ∷ [];
}

goes_offline :
    handle_unlock crypto kdf aead platform
      (codes "s")
      nonce
      true
      network
      not_found
      watched
      same_text
      (codes "pw")
      none
      (inr on_disk)
      (has_email "ada@example.com")
    ≡ ok offline
unfolding handle_unlock unlock new_identity stretch unlock_from_keys new decrypt_locked_symmetric
    mac_key enc_key has_account restore_session load_from unlock_commit bump_epoch
goes_offline = refl

handle_unlock_lem_example :
    Denied crypto kdf aead platform
      (codes "s")
      nonce
      true
      network
      not_found
      watched
      same_text
      (codes "pw")
      none
      (inr on_disk)
      (has_email "ada@example.com")
      offline
    ⊎ Opened crypto kdf aead platform
        (codes "s")
        nonce
        true
        network
        not_found
        watched
        same_text
        (codes "pw")
        none
        (inr on_disk)
        (has_email "ada@example.com")
        offline
handle_unlock_lem_example =
    handle_unlock_lem crypto kdf aead platform (codes "s") nonce true network not_found watched
      same_text (codes "pw") none (inr on_disk) (has_email "ada@example.com") offline goes_offline

abbrev unlocked_with : State
unlocked_with = record opened { keys = some vault_keys }

known : has_account on_disk ≡ true
unfolding has_account
known = refl

setup-same_example :
    setup_tpm_pin crypto kdf same_text tpm true six off unlocked_with
      (codes "pw")
      (inr on_disk)
      (has_email "ada@example.com")
    ≡ setup_from_unlocked tpm true six (has_email "ada@example.com") off unlocked_with
setup-same_example =
    setup-same crypto kdf same_text tpm true six off unlocked_with "ada@example.com" (codes "pw")
      on_disk vault_keys [] refl known right_password refl

-- An account whose keys are the keys of zeros.
abbrev account : Db
account = record on_disk {
  protected_key =
      some
        "2.aaaaaaaaaaaaaaaa|bbbbbbbbbbbbbbbbbbbbbbbbbbbbbbbbbbbbbbbbbbbbbbbbbbbbbbbbbbbbbbbb|cccccccccccccccccccccccccccccccc";
}

account_known : has_account account ≡ true
unfolding has_account
account_known = refl

opens : unlock_of crypto kdf same_text "ada@example.com" (codes "pw") account ≡ ok (zero_keys, [])
unfolding unlock new_identity stretch unlock_from_keys new decrypt_locked_symmetric mac_key enc_key
opens = refl

protects : derive_key crypto kdf aead zero_keys ≡ ok (times32 0)
unfolding derive_key enc_key
protects = refl

reads : load_from crypto kdf aead (codes "s") (codes "ada@example.com") zero_keys not_found ≢ panic
unfolding load_from
reads h = cc

handle_unlock-right_password_example :
    (r : Unlocked) × (handle_unlock crypto kdf aead platform
        (codes "s")
        nonce
        true
        network
        not_found
        watched
        same_text
        (codes "pw")
        none
        (inr account)
        (has_email "ada@example.com")
      ≡ ok r)
    × (r.response ≡ ack)
handle_unlock-right_password_example =
    handle_unlock-right_password crypto kdf aead platform (codes "s") nonce true network not_found
      watched same_text (codes "pw") (times32 0) none account "ada@example.com" zero_keys [] refl
      account_known opens protects reads
