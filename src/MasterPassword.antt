-- ===== src/MasterPassword.antt =====
-- What the master password opens: `unlock` of crates/cosmarden-core/src/vault.rs, `handle_unlock` of
-- crates/cosmarden-agent/src/handler/auth/unlock.rs and `handle_setup_tpm_pin` of tpm_pin/setup.rs beside it. As in
-- Restore, the sections after the commit find the state that it left; the sync that is started at the end is a request
-- of its own.
pub mod Unlocks
pub mod Returns
pub mod Setup
use cosmic_bwarden.Base.{
  ℕ, String, Bool, true, false, Option, none, some, List, [], ◌∷◌, ◌⊎◌, inl, inr, Text,
  if◌then◌else◌,
}
use cosmic_bwarden.Crypto.{Bytes, Crypto, Outcome, ok, err, panic, ◌>>=◌}
use cosmic_bwarden.CipherString.{Keys, locked_vec}
use cosmic_bwarden.Entry.Decrypt.{OrgKeys}
use cosmic_bwarden.Identity.{Kdf, Identity, new_identity}
use cosmic_bwarden.Vault.{unlock_from_keys}
use cosmic_bwarden.Envelope.{Aead}
use cosmic_bwarden.Protocol.{Message, Response, ack, error, plain, because, failure}
use cosmic_bwarden.State.{State, Db, Platform, KdfType, pbkdf2, has_account}
use cosmic_bwarden.Session.{ConfigRead, unreadable, no_email, has_email, unlock_commit}
use cosmic_bwarden.Session.Requests.{with_keyring}
use cosmic_bwarden.Restore.{
  SessionFile, Network, Credential, Restored, persist_current, restore_session,
}
use cosmic_bwarden.Pin.{Tpm, Disk, is_short, seal, sealed_with}

-- `db.kdf.unwrap_or(Pbkdf2)`, `db.iterations.unwrap_or(100_000)` and `unwrap_or("")`
abbrev pub kdf_or : Option KdfType → KdfType
kdf_or none = pbkdf2
kdf_or (some t) = t

abbrev pub iterations_or : Option ℕ → ℕ
iterations_or none = 100000
iterations_or (some n) = n

abbrev pub key_or : Option String → String
key_or none = ""
key_or (some k) = k

module _ (c : Crypto) (k : Kdf) (lower : Text → Text) where
  -- `unlock`
  unfoldable pub unlock :
      String
      → Bytes
      → KdfType
      → ℕ
      → Option ℕ
      → Option ℕ
      → String
      → Option String
      → List (String × String)
      → Outcome (Keys × OrgKeys)
  unlock email password kdf iterations memory lanes protected_key private_key org_keys = do
    identity ← new_identity c k lower email password kdf iterations memory lanes
    unlock_from_keys c identity.keys protected_key private_key org_keys

  -- The identity of the account, and the unlock of its keys.
  abbrev pub identity_of : String → Bytes → Db → Outcome Identity
  identity_of email password db =
      new_identity c k lower email password (kdf_or db.kdf) (iterations_or db.iterations) db.memory
        db.parallelism

  abbrev pub unlock_of : String → Bytes → Db → Outcome (Keys × OrgKeys)
  unlock_of email password db =
      unlock email password (kdf_or db.kdf) (iterations_or db.iterations) db.memory db.parallelism
        (key_or db.protected_key) db.protected_private_key db.protected_org_keys

-- What an unlock comes to, with the credentials that were sent.
pub record Unlocked : Type 0 where
  pub response : Response
  pub state : State
  pub file : SessionFile
  pub sent : List Credential

module _ (c : Crypto) (k : Kdf) (a : Aead) (p : Platform) (server nonce : Bytes) (writes : Bool)
    (net : Network) (file : SessionFile) (s : State) where
  abbrev pub denied : Message → Outcome Unlocked
  denied m = ok (record { response = error m; state = s; file = file; sent = [] })

  -- A session that could not be restored is told, without the text before the reason.
  abbrev pub noted : Option Message → State → State
  noted none t = t
  noted (some m) t = record t { sync_failed = true; last_sync_error = some m }

  abbrev pub restored_or_noted : Outcome Restored → Outcome Unlocked
  restored_or_noted (ok r) =
      ok (record { response = ack; state = noted r.reason r.state; file = r.file; sent = r.sent })
  restored_or_noted (err e) = err e
  restored_or_noted panic = panic

  abbrev pub rolled_forward : State → Outcome SessionFile → Outcome Unlocked
  rolled_forward t (ok f) = ok (record { response = ack; state = t; file = f; sent = [] })
  rolled_forward t (err e) = err e
  rolled_forward t panic = panic

  -- After the commit: `true` says that a session is to be restored.
  abbrev pub after_commit : Bytes → Keys → Bool → State → Outcome Unlocked
  after_commit email keys true t =
      restored_or_noted (restore_session c k a server email nonce writes t file net true keys)
  after_commit email keys false t =
      rolled_forward t (persist_current c k a server email nonce writes t file)

  abbrev pub committed : Bytes → Db → Outcome (Keys × OrgKeys) → Outcome Unlocked
  committed email db (ok (keys, org_keys)) =
      let r = unlock_commit p keys org_keys db s in after_commit email keys r.0 r.1
  committed email db (err e) = denied (failure "unlock failed: " e)
  committed email db panic = panic

  abbrev pub identified : (Text → Text) → String → Bytes → Db → Outcome Identity → Outcome Unlocked
  identified lower email password db (ok identity) =
      committed (c.to_utf8 email) db (unlock_of c k lower email password db)
  identified lower email password db (err e) = denied (failure "identity derivation failed: " e)
  identified lower email password db panic = panic

  abbrev pub account_unlocked :
      (Text → Text) → String → Bytes → Option (String × String) → String ⊎ Db → Outcome Unlocked
  account_unlocked lower email password tokens (inl e) = denied (because "failed to load db: " e)
  account_unlocked lower email password tokens (inr db) =
      if has_account db
      then (let db1 = with_keyring tokens db in
          identified lower email password db1
            (locked_vec password >>= λ pw. identity_of c k lower email pw db1))
      else denied (plain "No account configured on this agent. Please login first.")

  -- `handle_unlock`, with the configuration, the database on disk, and the tokens of the keyring if the session is to
  -- persist.
  unfoldable pub handle_unlock :
      (Text → Text) → Bytes → Option (String × String) → String ⊎ Db → ConfigRead → Outcome Unlocked
  handle_unlock lower password tokens loaded (unreadable e) =
      denied (because "failed to load config: " e)
  handle_unlock lower password tokens loaded no_email =
      denied (plain "email not set in config. Please login.")
  handle_unlock lower password tokens loaded (has_email email) =
      account_unlocked lower email password tokens loaded

module _ (c : Crypto) (k : Kdf) (lower : Text → Text) (t : Tpm) (saves : Bool) (pin : Text)
    (disk : Disk) (s : State) where
  abbrev pub not_set_up : Message → Outcome (Response × Disk × State)
  not_set_up m = ok (error m, disk, s)

  abbrev pub seal_validated : Outcome (Keys × OrgKeys) → Outcome (Response × Disk × State)
  seal_validated (ok (keys, org_keys)) = do b ← seal t keys pin; ok (sealed_with saves disk s b)
  seal_validated (err e) = not_set_up (failure "master password incorrect: " e)
  seal_validated panic = panic

  abbrev pub seal_identified : Db → Outcome Identity → Outcome (Response × Disk × State)
  seal_identified db (ok identity) = seal_validated (
      unlock_from_keys c identity.keys (key_or db.protected_key) db.protected_private_key
        db.protected_org_keys)
  seal_identified db (err e) = not_set_up (failure "key derivation failed: " e)
  seal_identified db panic = panic

  abbrev pub seal_account : String → Bytes → String ⊎ Db → Outcome (Response × Disk × State)
  seal_account email password (inl e) = not_set_up (because "failed to load db: " e)
  seal_account email password (inr db) =
      if has_account db
      then seal_identified db (locked_vec password >>= λ pw. identity_of c k lower email pw db)
      else not_set_up (plain "no account configured — please login first")

  abbrev pub seal_for_email : Bytes → String ⊎ Db → ConfigRead → Outcome (Response × Disk × State)
  seal_for_email password loaded (unreadable e) = not_set_up (because "failed to load config: " e)
  seal_for_email password loaded no_email = not_set_up (plain "email not set in config")
  seal_for_email password loaded (has_email email) = seal_account email password loaded

  -- `handle_setup_tpm_pin`
  unfoldable pub setup_tpm_pin :
      Bytes → String ⊎ Db → ConfigRead → Outcome (Response × Disk × State)
  setup_tpm_pin password loaded cfg =
      if is_short pin
      then not_set_up (plain "PIN must be at least 6 characters")
      else if t.is_available
      then seal_for_email password loaded cfg
      else not_set_up (plain "TPM is not available on this system")
