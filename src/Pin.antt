-- ===== src/Pin.antt =====
-- crates/cosmarden-agent/src/handler/auth/tpm_pin: unlocking with a PIN, whose handlers seal the vault keys in the TPM.
-- The TPM itself and its library are a parameter; `seal` and `unseal` of crates/cosmarden-agent/src/tpm/ops.rs say
-- what is sealed. The build without a TPM, where every handler refuses, and the TPM's own texts of
-- its errors are left out.
pub mod Sealed
pub mod Attempts
pub mod Disabled
use cosmic_bwarden.Base.{
  ℕ, String, Bool, true, false, Option, none, some, ◌++◌, length, ltb, Text, ◌==◌, nat_eq, ◌⊎◌, inl,
  inr, if◌then◌else◌, map, codes,
}
use cosmic_bwarden.Crypto.{Bytes, Crypto, Error, Outcome, ok, err, panic, ◌>>=◌}
use cosmic_bwarden.CipherString.{Keys, enc_key, mac_key}
use cosmic_bwarden.Entry.Decrypt.{OrgKeys}
use cosmic_bwarden.Vault.{decrypt_org_keys, unlock_from_keys}
use cosmic_bwarden.Identity.{Kdf, Identity, new_identity}
use cosmic_bwarden.Protocol.{Response, ack, error, plain, because, failure}
use cosmic_bwarden.State.{State, Db, Platform, KdfType, pbkdf2, has_account, is_some_of}
use cosmic_bwarden.Session.{ConfigRead, unreadable, no_email, has_email, unlock_commit}
use cosmic_bwarden.Session.Requests.{with_keyring, set_tpm_configured}

pub data UnsealFailure : Type 0 where
  wrong_pin state_changed lockout other_failure : UnsealFailure

-- The TPM with its present firmware and PIN counters: data and PIN to a sealed blob, and back.
pub record Tpm : Type 0 where
  pub is_available : Bool
  pub seal_bytes : Bytes → Text → Option Bytes
  pub unseal_bytes : Bytes → Text → UnsealFailure ⊎ Bytes

-- The account's files: the sealed blob and the flag of the configuration.
pub record Disk : Type 0 where
  pub blob : Option Bytes
  pub tpm_enabled : Bool

abbrev pub min_pin_len : ℕ
min_pin_len = 6

-- `validate_pin(&pin).is_err()`
abbrev pub is_short : Text → Bool
is_short pin = ltb (length pin) min_pin_len

-- `seal`: the two halves of the key that are used, without what a decryption left behind them.
unfoldable pub seal : Tpm → Keys → Text → Outcome (Option Bytes)
seal t keys pin = do ek ← enc_key keys; mk ← mac_key keys; ok (t.seal_bytes (ek ++ mk) pin)

abbrev pub keys_of_64 : UnsealFailure ⊎ Bytes → UnsealFailure ⊎ Keys
keys_of_64 (inl e) = inl e
keys_of_64 (inr raw) = if length raw == 64 then inr (record { bytes = raw }) else inl other_failure

-- `unseal`
unfoldable pub unseal : Tpm → Bytes → Text → UnsealFailure ⊎ Keys
unseal t blob pin = keys_of_64 (t.unseal_bytes blob pin)

-- The end of both ways to set the PIN up: with what `seal` returned and whether the configuration can be saved, the
-- failure of which is only logged.
abbrev pub sealed_with : Bool → Disk → State → Option Bytes → Response × Disk × State
sealed_with saves disk s none = (error (plain "TPM seal failed"), disk, s)
sealed_with saves disk s (some b) = (
  ack,
  record { blob = some b; tpm_enabled = if saves then true else disk.tpm_enabled },
  set_tpm_configured true s,
)

module _ (t : Tpm) (saves : Bool) where
  abbrev pub seal_configured :
      Text → Disk → State → Keys → ConfigRead → Outcome (Response × Disk × State)
  seal_configured pin disk s keys (unreadable e) =
      ok (error (because "failed to load config: " e), disk, s)
  seal_configured pin disk s keys no_email = ok (error (plain "email not set in config"), disk, s)
  seal_configured pin disk s keys (has_email m) = do
    b ← seal t keys pin
    ok (sealed_with saves disk s b)

  abbrev pub seal_unlocked :
      Text → Disk → State → ConfigRead → Option Keys → Outcome (Response × Disk × State)
  seal_unlocked pin disk s cfg none =
      ok (error (plain "vault is locked — unlock first before setting up PIN"), disk, s)
  seal_unlocked pin disk s cfg (some keys) = seal_configured pin disk s keys cfg

  -- `handle_setup_tpm_pin_from_unlocked`
  unfoldable pub setup_from_unlocked :
      Text → ConfigRead → Disk → State → Outcome (Response × Disk × State)
  unfolding seal
  setup_from_unlocked pin cfg disk s =
      if is_short pin
      then ok (error (plain "PIN must be at least 6 characters"), disk, s)
      else if t.is_available
      then seal_unlocked pin disk s cfg s.keys
      else ok (error (plain "TPM is not available on this system"), disk, s)

  -- `handle_disable_tpm_pin`, with whether the file can be removed and the configuration saved.
  abbrev pub disable_configured : Bool → Disk → State → ConfigRead → Response × Disk × State
  disable_configured removes disk s (unreadable e) =
      (error (because "failed to load config: " e), disk, s)
  disable_configured removes disk s no_email = (error (plain "email not set in config"), disk, s)
  disable_configured removes disk s (has_email m) =
      if is_some_of s.keys
      then (if removes
          then (if saves
              then (ack, record { blob = none; tpm_enabled = false }, set_tpm_configured false s)
              else (error (plain "failed to persist TPM disable"), record disk { blob = none }, s))
          else (error (plain "failed to remove TPM blob"), disk, s))
      else (error (plain "vault is locked — unlock first before disabling PIN"), disk, s)

  unfoldable pub disable_tpm_pin : Bool → ConfigRead → Disk → State → Response × Disk × State
  disable_tpm_pin removes cfg disk s = disable_configured removes disk s cfg

-- What an attempt to unlock with a PIN comes to: the answer, the state, and how often the TPM was asked to unseal.
pub record Attempt : Type 0 where
  pub response : Response
  pub state : State
  pub asked : ℕ

module _ (c : Crypto) (p : Platform) (t : Tpm) where
  abbrev pub refuse : ℕ → State → Response → Outcome Attempt
  refuse n s r = ok (record { response = r; state = s; asked = n })

  -- The message for a failure: only a changed machine is told apart.
  abbrev pub unseal_message : UnsealFailure → String
  unseal_message state_changed = "TPM state changed"
  unseal_message e = "TPM unseal failed"

  abbrev pub commit_or_refuse : Keys → Db → State → Outcome OrgKeys → Outcome Attempt
  commit_or_refuse keys db s (ok org_keys) =
      ok (record { response = ack; state = (unlock_commit p keys org_keys db s).1; asked = 1 })
  commit_or_refuse keys db s (err e) = refuse 1 s (error (failure "org key derivation failed: " e))
  commit_or_refuse keys db s panic = panic

  abbrev pub unsealed_or_refuse :
      Option (String × String) → Db → State → UnsealFailure ⊎ Keys → Outcome Attempt
  unsealed_or_refuse tokens db s (inl e) = refuse 1 s (error (plain (unseal_message e)))
  unsealed_or_refuse tokens db s (inr keys) =
      commit_or_refuse keys (with_keyring tokens db) s
        (decrypt_org_keys c keys db.protected_private_key db.protected_org_keys)

  abbrev pub with_blob :
      Text → Option (String × String) → Db → State → Option Bytes → Outcome Attempt
  with_blob pin tokens db s none = refuse 0 s (error (plain "TPM sealed blob missing"))
  with_blob pin tokens db s (some b) = unsealed_or_refuse tokens db s (unseal t b pin)

  abbrev pub with_db :
      Text → Option (String × String) → Option Bytes → State → String ⊎ Db → Outcome Attempt
  with_db pin tokens blob s (inl e) = refuse 0 s (error (because "failed to load db: " e))
  with_db pin tokens blob s (inr db) =
      if has_account db
      then with_blob pin tokens db s blob
      else refuse 0 s (error (plain "no account configured — please login first"))

  abbrev pub pin_configured :
      Text → Disk → String ⊎ Db → Option (String × String) → State → ConfigRead → Outcome Attempt
  pin_configured pin disk loaded tokens s (unreadable e) =
      refuse 0 s (error (because "failed to load config: " e))
  pin_configured pin disk loaded tokens s no_email =
      if disk.tpm_enabled
      then refuse 0 s (error (plain "email not set in config"))
      else refuse 0 s (error (plain "TPM PIN unlock is not enabled"))
  pin_configured pin disk loaded tokens s (has_email m) =
      if disk.tpm_enabled
      then with_db pin tokens disk.blob s loaded
      else refuse 0 s (error (plain "TPM PIN unlock is not enabled"))

  -- `handle_unlock_with_pin` up to the section that commits the keys: with the configuration, the files, the database
  -- that was loaded, and the tokens of the keyring if the session is to persist.
  unfoldable pub unlock_with_pin :
      Text → ConfigRead → Disk → String ⊎ Db → Option (String × String) → State → Outcome Attempt
  unfolding unseal
  unlock_with_pin pin cfg disk loaded tokens s = pin_configured pin disk loaded tokens s cfg
