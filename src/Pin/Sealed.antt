-- ===== src/Pin/Sealed.antt =====
-- What a PIN releases, and when the TPM is asked at all.
use cosmic_bwarden.Base.{
  ℕ, ◌≤◌, String, true, false, Option, some, [], ◌∷◌, ◌++◌, nat_eq, ◌≡◌, refl, arith, length, take,
  drop, Text, inr, take-append, drop-append, length-append, length-take, length-drop, ap, subst,
}
use cosmic_bwarden.Crypto.{Bytes, Crypto, ok}
use cosmic_bwarden.CipherString.{Keys, enc_key, mac_key}
use cosmic_bwarden.CipherString.Mac.{enc_key-eq, mac_key-eq}
use cosmic_bwarden.Entry.Decrypt.{OrgKeys}
use cosmic_bwarden.Vault.{decrypt_org_keys}
use cosmic_bwarden.Protocol.{ack}
use cosmic_bwarden.State.{State, Db, Platform, has_account}
use cosmic_bwarden.Session.{has_email, unlock_commit}
use cosmic_bwarden.Session.Requests.{with_keyring}
use cosmic_bwarden.Pin.{Tpm, Disk, seal, unseal, is_short, setup_from_unlocked, unlock_with_pin}

-- A sealed blob gives its data back for the PIN that it was sealed with, while the machine stays as it is.
pub record TpmLaws (t : Tpm) : Type 0 where
  pub unseal-seal :
      (data' b : Bytes) (pin : Text)
      → t.seal_bytes data' pin ≡ some b
      → t.unseal_bytes b pin ≡ inr data'

-- The 64 bytes of a key that are used.
abbrev pub used : Keys → Bytes
used k = take 32 k.bytes ++ take 32 (drop 32 k.bytes)

seal-used :
    (t : Tpm) (k : Keys) (pin : Text)
    → 64 ≤ length k.bytes
    → seal t k pin ≡ ok (t.seal_bytes (used k) pin)
unfolding seal
seal-used t k pin h = rw (enc_key-eq k h, mac_key-eq k h)

length-first : (k : Keys) → 64 ≤ length k.bytes → ◌≡◌ {A = ℕ} (length (take 32 k.bytes)) 32
length-first k h = omega (arith, length-take 32 k.bytes)

length-second :
    (k : Keys) → 64 ≤ length k.bytes → ◌≡◌ {A = ℕ} (length (take 32 (drop 32 k.bytes))) 32
length-second k h = omega (arith, length-take 32 (drop 32 k.bytes), length-drop 32 k.bytes)

length-used : (k : Keys) → 64 ≤ length k.bytes → ◌≡◌ {A = ℕ} (length (used k)) 64
length-used k h = omega (
  arith,
  length-append (take 32 k.bytes) (take 32 (drop 32 k.bytes)),
  length-first k h,
  length-second k h,
)

take-used : (k : Keys) → 64 ≤ length k.bytes → take 32 (used k) ≡ take 32 k.bytes
take-used k h =
    subst (λ (n : ℕ). take n (used k) ≡ take 32 k.bytes) (length-first k h)
      (take-append (take 32 k.bytes) (take 32 (drop 32 k.bytes)))

drop-used : (k : Keys) → 64 ≤ length k.bytes → drop 32 (used k) ≡ take 32 (drop 32 k.bytes)
drop-used k h =
    subst (λ (n : ℕ). drop n (used k) ≡ take 32 (drop 32 k.bytes)) (length-first k h)
      (drop-append (take 32 k.bytes) (take 32 (drop 32 k.bytes)))

take-length : (xs : Bytes) → take (length xs) xs ≡ xs
take-length [] = refl
take-length (x ∷ xs) = ap (◌∷◌ x) (take-length xs)

take-all : (xs : Bytes) → ◌≡◌ {A = ℕ} (length xs) 32 → take 32 xs ≡ xs
take-all xs h = subst (λ (n : ℕ). take n xs ≡ xs) h (take-length xs)

-- Setting a PIN up in an unlocked vault and unlocking with it later, in any state, commits keys that encrypt and
-- authenticate as those that were sealed, after the TPM was asked once: if the keys have their 64 bytes and the PIN its
-- six characters, the TPM is available and seals, the configuration is saved, and there is an account whose organisation
-- keys can be decrypted.
pub setup-unlock :
    (c : Crypto) (p : Platform) (t : Tpm) (laws : TpmLaws t) (pin : Text) (m : String) (disk : Disk)
    (s later : State) (keys : Keys) (b : Bytes) (db : Db) (tokens : Option (String × String))
    (org_keys : OrgKeys)
    → is_short pin ≡ false
    → t.is_available ≡ true
    → s.keys ≡ some keys
    → 64 ≤ length keys.bytes
    → t.seal_bytes (used keys) pin ≡ some b
    → has_account db ≡ true
    → decrypt_org_keys c
        (record { bytes = used keys })
        db.protected_private_key
        db.protected_org_keys
      ≡ ok org_keys
    → (disk' : Disk) × (s' : State) × (setup_from_unlocked t true pin (has_email m) disk s
        ≡ ok (ack, disk', s'))
      × (k : Keys) × (unlock_with_pin c p t pin (has_email m) disk' (inr db) tokens later
          ≡ ok (record {
            response = ack;
            state = (unlock_commit p k org_keys (with_keyring tokens db) later).1;
            asked = 1;
          }))
      × (enc_key k ≡ enc_key keys)
      × (mac_key k ≡ mac_key keys)
unfolding setup_from_unlocked unlock_with_pin unseal
setup-unlock c p t laws pin m disk s later keys b db tokens org_keys hp ha hs hk hb hd ho =
    let k : Keys = record { bytes = used keys } in
    let n : length (used keys) ≡ 64 = length-used keys hk in
    (
      record { blob = some b; tpm_enabled = true },
      record s { tpm_configured = true },
      rw (hp, ha, hs, seal-used t keys pin hk, hb),
      k,
      rw (hd, laws.unseal-seal (used keys) b pin hb, n, ho),
      rw (enc_key-eq k (omega arith), enc_key-eq keys hk, take-used keys hk),
      rw (
        mac_key-eq k (omega arith),
        mac_key-eq keys hk,
        drop-used keys hk,
        take-all (take 32 (drop 32 keys.bytes)) (length-second keys hk),
      ),
    )
