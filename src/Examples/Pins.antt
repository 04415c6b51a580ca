-- ===== src/Examples/Pins.antt =====
-- A PIN that is set up, used and disabled.
use cosmic_bwarden.Base.{◌≡◌, ◌⊎◌, refl, true, false, none, some, [], inr, arith, Text, codes}
use cosmic_bwarden.Crypto.{Bytes, ok}
use cosmic_bwarden.CipherString.{Keys, enc_key, mac_key}
use cosmic_bwarden.Vault.{decrypt_org_keys}
use cosmic_bwarden.Protocol.{ack}
use cosmic_bwarden.State.{State, lock, has_account}
use cosmic_bwarden.Session.{has_email, unlock_commit}
use cosmic_bwarden.Session.Requests.{with_keyring}
use cosmic_bwarden.Pin.{
  Tpm, UnsealFailure, Disk, Attempt, setup_from_unlocked, unlock_with_pin, disable_tpm_pin, unseal,
  seal,
}
use cosmic_bwarden.Pin.Sealed.{TpmLaws, used, setup-unlock}
use cosmic_bwarden.Pin.Attempts.{Refused, Costs, unlock_with_pin-Costs}
use cosmic_bwarden.Pin.Disabled.{disable-unlock, setup-unsaved}
use cosmic_bwarden.Examples.Data.{crypto, platform, zero_keys, db, opened}

-- A TPM that hands out what it was given.
abbrev pub tpm : Tpm
tpm = record {
  is_available = true;
  seal_bytes = λ data' pin. some data';
  unseal_bytes = λ b pin. inr b;
}

tpm_laws : TpmLaws tpm
tpm_laws = record { unseal-seal = λ data' b pin h. ap_inr h }
  where
    ap_inr : {a b : Bytes} → some a ≡ some b → ◌≡◌ {A = UnsealFailure ⊎ Bytes} (inr b) (inr a)
    ap_inr h = cc

abbrev pub six : Text
six = codes "123456"

abbrev pub off : Disk
off = record { blob = none; tpm_enabled = false }

abbrev on : Disk
on = record { blob = some (used zero_keys); tpm_enabled = true }

no_org_keys :
    decrypt_org_keys crypto
      (record { bytes = used zero_keys })
      db.protected_private_key
      db.protected_org_keys
    ≡ ok []
unfolding decrypt_org_keys
no_org_keys = refl

configured : has_account db ≡ true
unfolding has_account
configured = refl

setup-unlock_example :
    (disk' : Disk) × (s' : State) × (setup_from_unlocked tpm true six
        (has_email "ada@example.com")
        off
        opened
      ≡ ok (ack, disk', s'))
    × (k : Keys) × (unlock_with_pin crypto platform tpm six
          (has_email "ada@example.com")
          disk'
          (inr db)
          none
          (lock opened)
        ≡ ok (record {
          response = ack;
          state = (unlock_commit platform k [] (with_keyring none db) (lock opened)).1;
          asked = 1;
        }))
    × (enc_key k ≡ enc_key zero_keys)
    × (mac_key k ≡ mac_key zero_keys)
setup-unlock_example =
    setup-unlock crypto platform tpm tpm_laws six "ada@example.com" off opened (lock opened)
      zero_keys (used zero_keys) db none [] refl refl refl (omega arith) refl configured no_org_keys

abbrev unlocked : Attempt
unlocked = record {
  response = ack;
  state =
      (unlock_commit platform (record { bytes = used zero_keys }) [] (with_keyring none db)
        (lock opened)).1;
  asked = 1;
}

tpm_unlocks :
    unlock_with_pin crypto platform tpm six
      (has_email "ada@example.com")
      on
      (inr db)
      none
      (lock opened)
    ≡ ok unlocked
unfolding unlock_with_pin unseal
tpm_unlocks = rw (configured, no_org_keys) refl

unlock_with_pin-Costs_example :
    Costs crypto platform tpm six on (inr db) none (lock opened) unlocked
unlock_with_pin-Costs_example =
    unlock_with_pin-Costs crypto platform tpm six on (inr db) none (lock opened)
      (has_email "ada@example.com") unlocked tpm_unlocks

disables :
    disable_tpm_pin tpm true true (has_email "ada@example.com") on opened
    ≡ (ack, off, record opened { tpm_configured = false })
unfolding disable_tpm_pin
disables = refl

disable-unlock_example :
    (a : Attempt) × (unlock_with_pin crypto platform tpm six
        (has_email "ada@example.com")
        off
        (inr db)
        none
        (lock opened)
      ≡ ok a)
    × Refused 0 (lock opened) a
disable-unlock_example =
    disable-unlock crypto platform tpm true true (has_email "ada@example.com")
      (has_email "ada@example.com") on off opened (record opened { tpm_configured = false })
      (lock opened) six (inr db) none disables

abbrev half : Disk
half = record { blob = some (used zero_keys); tpm_enabled = false }

sets_up :
    setup_from_unlocked tpm false six (has_email "ada@example.com") off opened
    ≡ ok (ack, half, record opened { tpm_configured = true })
unfolding setup_from_unlocked seal enc_key mac_key
sets_up = refl

setup-unsaved_example :
    (true ≡ true)
    × (a : Attempt) × (unlock_with_pin crypto platform tpm six
          (has_email "ada@example.com")
          half
          (inr db)
          none
          (lock opened)
        ≡ ok a)
    × Refused 0 (lock opened) a
setup-unsaved_example =
    setup-unsaved crypto platform tpm six "ada@example.com" off half opened
      (record opened { tpm_configured = true }) (lock opened) (inr db) none sets_up refl
