-- ===== src/Pin/Disabled.antt =====
-- What disabling a PIN leaves, and what a configuration that cannot be saved leads to.
use cosmic_bwarden.Base.{
  String, Bool, true, false, Option, none, some, ◌≡◌, ◌≢◌, refl, Text, ◌⊎◌, inl, inr, if◌then◌else◌,
  Bool-cases, subst, nat_eq,
}
use cosmic_bwarden.Crypto.{Bytes, Crypto, Outcome, ok, err, panic, ◌>>=◌}
use cosmic_bwarden.CipherString.{Keys}
use cosmic_bwarden.Protocol.{Message, Response, ack, error, plain}
use cosmic_bwarden.State.{State, Db, Platform, is_some_of}
use cosmic_bwarden.Session.{ConfigRead, unreadable, no_email, has_email}
use cosmic_bwarden.Pin.{
  Disk, disable_tpm_pin, Attempt, unlock_with_pin, setup_from_unlocked, seal, is_short,
  disable_configured, sealed_with, seal_unlocked, Tpm,
}
use cosmic_bwarden.Pin.Attempts.{Refused, error-ne-ack}

-- The request was not acknowledged, or PIN unlock is off on disk.
abbrev IsOff : Response × Disk × State → Type 0
IsOff r = (r.0 ≢ ack) ⊎ (r.1.tpm_enabled ≡ false)

refused-IsOff : (m : Message) (disk : Disk) (s : State) → IsOff (error m, disk, s)
refused-IsOff m disk s = inl (λ h. cc)

removal-IsOff :
    (saves removes : Bool) (disk : Disk) (s : State)
    → IsOff (
        if removes
        then (if saves
            then (
              ack,
              record { blob = none; tpm_enabled = false },
              record s { tpm_configured = false },
            )
            else (error (plain "failed to persist TPM disable"), record disk { blob = none }, s))
        else (error (plain "failed to remove TPM blob"), disk, s))
removal-IsOff true true disk s = inr refl
removal-IsOff false true disk s = refused-IsOff _ (record disk { blob = none }) s
removal-IsOff saves false disk s = refused-IsOff _ disk s

disable_configured-IsOff :
    (t : Tpm) (saves removes : Bool) (cfg : ConfigRead) (disk : Disk) (s : State)
    → IsOff (disable_configured t saves removes disk s cfg)
disable_configured-IsOff t saves removes (unreadable e) disk s = refused-IsOff _ disk s
disable_configured-IsOff t saves removes no_email disk s = refused-IsOff _ disk s
disable_configured-IsOff t saves removes (has_email m) disk s =
    elim (Bool-cases (is_some_of s.keys)) [
      | inl h ↦ rw h (removal-IsOff saves removes disk s)
      | inr h ↦ rw h (refused-IsOff _ disk s)
    ]

module _ (c : Crypto) (p : Platform) (t : Tpm) (pin : Text) (disk : Disk) (loaded : String ⊎ Db)
    (tokens : Option (String × String)) (s : State) where
  -- The attempt ends, refused before the TPM is asked.
  abbrev TurnedAway : ConfigRead → Type 0
  TurnedAway cfg =
      (a : Attempt) × (unlock_with_pin c p t pin cfg disk loaded tokens s ≡ ok a) × Refused 0 s a

  abbrev turned_away : Attempt
  turned_away = record {
    response = error (plain "TPM PIN unlock is not enabled");
    state = s;
    asked = 0;
  }

  off-TurnedAway : (cfg : ConfigRead) → disk.tpm_enabled ≡ false → TurnedAway cfg
  unfolding unlock_with_pin
  off-TurnedAway (unreadable e) h = (_, refl, (refl, refl, error-ne-ack _))
  off-TurnedAway no_email h = (turned_away, rw h refl, (refl, refl, error-ne-ack _))
  off-TurnedAway (has_email m) h = (turned_away, rw h refl, (refl, refl, error-ne-ack _))

-- Once PIN unlock was disabled, every attempt is refused before the TPM is asked, whatever the PIN, the state,
-- the rest of the configuration and the files that the account has by then loaded: if PIN unlock was not enabled again.
pub disable-unlock :
    (c : Crypto) (p : Platform) (t : Tpm) (saves removes : Bool) (cfg cfg' : ConfigRead)
    (disk disk' : Disk) (s s' later : State) (pin : Text) (loaded : String ⊎ Db)
    (tokens : Option (String × String))
    → disable_tpm_pin t saves removes cfg disk s ≡ (ack, disk', s')
    → (a : Attempt) × (unlock_with_pin c p t pin cfg' disk' loaded tokens later ≡ ok a)
      × Refused 0 later a
unfolding disable_tpm_pin
disable-unlock c p t saves removes cfg cfg' disk disk' s s' later pin loaded tokens h =
    elim (subst IsOff h (disable_configured-IsOff t saves removes cfg disk s)) [
      | inl n ↦ absurd (n refl)
      | inr off ↦ off-TurnedAway c p t pin disk' loaded tokens later cfg' off
    ]

-- The request was not acknowledged, or the agent now asks for a PIN though PIN unlock is off on disk.
abbrev IsPromised : Outcome (Response × Disk × State) → Type 0
IsPromised (ok r) = (r.0 ≢ ack) ⊎ ((r.1.tpm_enabled ≡ false) × (r.2.tpm_configured ≡ true))
IsPromised (err e) = Unit
IsPromised panic = Unit

refused-IsPromised : (m : Message) (disk : Disk) (s : State) → IsPromised (ok (error m, disk, s))
refused-IsPromised m disk s = inl (λ h. cc)

module _ (t : Tpm) (pin : Text) (disk : Disk) (s : State) (off : disk.tpm_enabled ≡ false) where
  sealed-IsPromised : (b : Option Bytes) → IsPromised (ok (sealed_with false disk s b))
  sealed-IsPromised none = refused-IsPromised _ disk s
  sealed-IsPromised (some b) = inr (off, refl)

  saved-IsPromised :
      (o : Outcome (Option Bytes)) → IsPromised (o >>= λ b. ok (sealed_with false disk s b))
  saved-IsPromised (ok b) = sealed-IsPromised b
  saved-IsPromised (err e) = tt
  saved-IsPromised panic = tt

  unlocked-IsPromised :
      (m : String) (keys : Option Keys)
      → IsPromised (seal_unlocked t false pin disk s (has_email m) keys)
  unlocked-IsPromised m none = refused-IsPromised _ disk s
  unlocked-IsPromised m (some keys) = saved-IsPromised (seal t keys pin)

  setup-IsPromised :
      (m : String) → IsPromised (setup_from_unlocked t false pin (has_email m) disk s)
  unfolding setup_from_unlocked
  setup-IsPromised m = elim (Bool-cases (is_short pin)) [
    | inl h ↦ rw h (refused-IsPromised _ disk s)
    | inr h ↦ elim (Bool-cases t.is_available) [
      | inl ha ↦ rw (h, ha) (unlocked-IsPromised m s.keys)
      | inr ha ↦ rw (h, ha) (refused-IsPromised _ disk s)
    ]
  ]

-- The configuration cannot be saved: setting the PIN up is acknowledged all the same, and where PIN unlock was not
-- enabled before, every attempt with that PIN is refused, though the agent goes on to ask for it.
pub setup-unsaved :
    (c : Crypto) (p : Platform) (t : Tpm) (pin : Text) (m : String) (disk disk' : Disk)
    (s s' later : State) (loaded : String ⊎ Db) (tokens : Option (String × String))
    → setup_from_unlocked t false pin (has_email m) disk s ≡ ok (ack, disk', s')
    → disk.tpm_enabled ≡ false
    → (s'.tpm_configured ≡ true)
      × (a : Attempt) × (unlock_with_pin c p t pin (has_email m) disk' loaded tokens later ≡ ok a)
      × Refused 0 later a
setup-unsaved c p t pin m disk disk' s s' later loaded tokens h he =
    elim (subst IsPromised h (setup-IsPromised t pin disk s he m)) [
      | inl n ↦ absurd (n refl)
      | inr e ↦
          let z = off-TurnedAway c p t pin disk' loaded tokens later (has_email m) e.0 in
          (e.1, z.0, z.1, z.2)
    ]
