-- ===== src/Pin/Attempts.antt =====
-- What an attempt to unlock with a PIN needs and costs.
use cosmic_bwarden.Base.{
  ℕ, String, Bool, true, false, Option, none, some, ◌≡◌, ◌≢◌, refl, Text, ◌⊎◌, inl, inr,
  if◌then◌else◌, Bool-cases, subst, nat_eq,
}
use cosmic_bwarden.Crypto.{Bytes, Crypto, Outcome, ok, err, panic}
use cosmic_bwarden.CipherString.{Keys}
use cosmic_bwarden.Entry.Decrypt.{OrgKeys}
use cosmic_bwarden.Vault.{decrypt_org_keys}
use cosmic_bwarden.Protocol.{Message, ack, error, plain}
use cosmic_bwarden.State.{State, Db, Platform, has_account}
use cosmic_bwarden.Session.{ConfigRead, unreadable, no_email, has_email, unlock_commit}
use cosmic_bwarden.Session.Requests.{with_keyring}
use cosmic_bwarden.Pin.{
  Disk, UnsealFailure, unseal, Attempt, unlock_with_pin, commit_or_refuse, unsealed_or_refuse,
  with_blob, with_db, pin_configured, refuse, Tpm,
}

-- The attempt is refused after the TPM was asked `n` times, and the state is as it was.
abbrev pub Refused : ℕ → State → Attempt → Type 0
Refused n s a = (a.asked ≡ n) × (a.state ≡ s) × (a.response ≢ ack)

pub error-ne-ack : (m : Message) → error m ≢ ack
error-ne-ack m h = cc

module _ (c : Crypto) (p : Platform) (t : Tpm) (pin : Text) (disk : Disk) (loaded : String ⊎ Db)
    (tokens : Option (String × String)) (s : State) where
  -- The TPM has released keys for the PIN and the blob, and these and no others were committed.
  abbrev pub Released : Bytes → Db → Attempt → Type 0
  Released b db a =
      (keys : Keys) × (org_keys : OrgKeys) × (unseal t b pin ≡ inr keys)
      × (a.response ≡ ack)
      × (a.state ≡ (unlock_commit p keys org_keys (with_keyring tokens db) s).1)

  -- PIN unlock is enabled, and there are a sealed blob and an account.
  abbrev pub Ready : Bytes → Db → Type 0
  Ready b db =
      (disk.tpm_enabled ≡ true) × (disk.blob ≡ some b) × (loaded ≡ inr db) × (has_account db ≡ true)

  abbrev pub Costs : Attempt → Type 0
  Costs a =
      Refused 0 s a
      ⊎ ((b : Bytes) × (db : Db) × Ready b db × (a.asked ≡ 1) × (Refused 1 s a ⊎ Released b db a))

  abbrev Fine : Outcome Attempt → Type 0
  Fine (ok a) = Costs a
  Fine (err e) = Unit
  Fine panic = Unit

  committed-Fine :
      (b : Bytes) (db : Db) (keys : Keys) (o : Outcome OrgKeys)
      → Ready b db
      → unseal t b pin ≡ inr keys
      → Fine (commit_or_refuse c p t keys (with_keyring tokens db) s o)
  committed-Fine b db keys (ok org_keys) r u =
      inr (b, db, r, refl, inr (keys, org_keys, u, refl, refl))
  committed-Fine b db keys (err e) r u = inr (b, db, r, refl, inl (refl, refl, error-ne-ack _))
  committed-Fine b db keys panic r u = tt

  unsealed-Fine :
      (b : Bytes) (db : Db) (r : UnsealFailure ⊎ Keys)
      → Ready b db
      → unseal t b pin ≡ r
      → Fine (unsealed_or_refuse c p t tokens db s r)
  unsealed-Fine b db (inl e) r u = inr (b, db, r, refl, inl (refl, refl, error-ne-ack _))
  unsealed-Fine b db (inr keys) r u =
      committed-Fine b db keys
        (decrypt_org_keys c keys db.protected_private_key db.protected_org_keys) r u

  blob-Fine :
      (db : Db) (o : Option Bytes)
      → disk.tpm_enabled ≡ true
      → disk.blob ≡ o
      → loaded ≡ inr db
      → has_account db ≡ true
      → Fine (with_blob c p t pin tokens db s o)
  blob-Fine db none e eb el ea = inl (refl, refl, error-ne-ack _)
  blob-Fine db (some b) e eb el ea = unsealed-Fine b db (unseal t b pin) (e, eb, el, ea) refl

  db-Fine :
      (l : String ⊎ Db)
      → disk.tpm_enabled ≡ true
      → loaded ≡ l
      → Fine (with_db c p t pin tokens disk.blob s l)
  db-Fine (inl e) h el = inl (refl, refl, error-ne-ack _)
  db-Fine (inr db) h el = elim (Bool-cases (has_account db)) [
    | inl ha ↦ rw ha (blob-Fine db disk.blob h refl el ha)
    | inr ha ↦ rw ha (inl (refl, refl, error-ne-ack _))
  ]

  enabled-Fine :
      (b : Bool)
      → disk.tpm_enabled ≡ b
      → Fine (
          if b
          then with_db c p t pin tokens disk.blob s loaded
          else refuse c p t 0 s (error (plain "TPM PIN unlock is not enabled")))
  enabled-Fine true h = db-Fine loaded h refl
  enabled-Fine false h = inl (refl, refl, error-ne-ack _)

  email-Fine :
      (b : Bool)
      → Fine (
          if b
          then refuse c p t 0 s (error (plain "email not set in config"))
          else refuse c p t 0 s (error (plain "TPM PIN unlock is not enabled")))
  email-Fine true = inl (refl, refl, error-ne-ack _)
  email-Fine false = inl (refl, refl, error-ne-ack _)

  configured-Fine : (cfg : ConfigRead) → Fine (pin_configured c p t pin disk loaded tokens s cfg)
  configured-Fine (unreadable e) = inl (refl, refl, error-ne-ack _)
  configured-Fine no_email = email-Fine disk.tpm_enabled
  configured-Fine (has_email m) = enabled-Fine disk.tpm_enabled refl

  -- An attempt to unlock with a PIN asks the TPM at most once, and only if PIN unlock is enabled and there are an
  -- account and a sealed blob; it leaves the state as it is unless the TPM released keys, which are then committed.
  pub unlock_with_pin-Costs :
      (cfg : ConfigRead) (a : Attempt)
      → unlock_with_pin c p t pin cfg disk loaded tokens s ≡ ok a
      → Costs a
  unfolding unlock_with_pin
  unlock_with_pin-Costs cfg a h = subst Fine h (configured-Fine cfg)
