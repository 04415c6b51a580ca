-- ===== src/Identity.antt =====
-- crates/cosmarden-core/src/identity.rs: the keys that a master password gives, and the ranges of the parameters.
-- PBKDF2, Argon2id, SHA-256 and HKDF are arguments.
use cosmic_bwarden.Base.{
  ℕ, ◌*◌, ◌^◌, ◌≤◌, String, Bool, true, false, not, ◌≡◌, refl, sym, ap, Option, some, ◌++◌, Text,
  codes, ltb, leb, ◌&&◌, ◌==◌, nat_eq, arith,
}
use cosmic_bwarden.Base.Strings.{trim}
use cosmic_bwarden.Crypto.{
  Bytes, Crypto, Outcome, ok, err, ◌>>=◌, or_err, other, out_of_range, Error, >>=-eq-ok,
  or_err-eq-ok,
}
use cosmic_bwarden.CipherString.{Keys}
use cosmic_bwarden.State.{KdfType, pbkdf2, argon2id}

-- The derivation functions of other crates; `none` is the error that each may return.
pub record Kdf : Type 0 where
  -- password, salt, iterations, output length
  pub pbkdf2_hmac_sha256 : Bytes → Bytes → ℕ → ℕ → Option Bytes
  pub sha256 : Bytes → Bytes
  -- memory in KiB, iterations, parallelism, password, salt
  pub argon2_into : ℕ → ℕ → ℕ → Bytes → Bytes → Option Bytes
  -- pseudorandom key, label, output length
  pub hkdf_expand : Bytes → Bytes → ℕ → Option Bytes

pub record Identity : Type 0 where
  pub email : Text
  pub keys : Keys
  pub master_password_hash : Bytes

-- `(low..=high).contains(&n)`
abbrev pub in_range : ℕ → ℕ → ℕ → Bool
in_range low high n = leb low n && leb n high

-- `if !check { return Err(e) }`
abbrev pub ensure : Bool → Error → Outcome (Unit {0})
ensure true e = ok tt
ensure false e = err e

in_range-le : (low high n : ℕ) → in_range low high n ≡ true → (low ≤ n) × (n ≤ high)
in_range-le low high n h = ground arith

ok_inj {ℓ} : {A : Type ℓ} {a b : A} → ok a ≡ ok b → a ≡ b
ok_inj h = cc

module _ (c : Crypto) (k : Kdf) where
  -- The first 32 bytes of the key buffer, before their expansion.
  unfoldable pub stretch : Text → Bytes → KdfType → ℕ → Option ℕ → Option ℕ → Outcome Bytes
  stretch email password pbkdf2 iterations memory parallelism = do
    _ ←
        ensure (in_range 100000 2000000 iterations)
          (out_of_range "PBKDF2 iterations out of allowed range (100000..=2000000)" iterations)
    or_err (k.pbkdf2_hmac_sha256 password (c.to_utf8 (c.to_string email)) iterations 32)
        (other "failed to run pbkdf2")
  stretch email password argon2id iterations memory parallelism = do
    memory_mib ← or_err memory (other "Argon2id requires a memory parameter")
    lanes ← or_err parallelism (other "Argon2id requires a parallelism parameter")
    _ ←
        ensure (in_range 16 1024 memory_mib)
          (out_of_range "Argon2id memory MiB out of allowed range (16..=1024)" memory_mib)
    _ ←
        ensure (in_range 1 16 lanes)
          (out_of_range "Argon2id parallelism out of allowed range (1..=16)" lanes)
    _ ←
        ensure (in_range 2 10 iterations)
          (out_of_range "Argon2id iterations out of allowed range (2..=10)" iterations)
    _ ← ensure (ltb (memory_mib * 1024) (2 ^ 32)) (other "Argon2id memory parameter overflow")
    or_err
        (k.argon2_into (memory_mib * 1024) iterations lanes password
          (k.sha256 (c.to_utf8 (c.to_string email))))
        (other "failed to run argon2")

  -- `Identity::new`; the lower-casing of Unicode is an argument.
  unfoldable pub new_identity :
      (Text → Text) → String → Bytes → KdfType → ℕ → Option ℕ → Option ℕ → Outcome Identity
  unfolding stretch
  new_identity to_lowercase email password kdf iterations memory parallelism = do
    let account = to_lowercase (trim (codes email))
    _ ← ensure (not (iterations == 0)) (other "KDF iterations must be greater than zero")
    prk ← stretch account password kdf iterations memory parallelism
    hash ←
        or_err (k.pbkdf2_hmac_sha256 prk password 1 32)
          (other "failed to run pbkdf2 for master password hash")
    enc ←
        or_err (k.hkdf_expand prk (c.to_utf8 "enc") 32) (other "failed to expand enc key with hkdf")
    mac ←
        or_err (k.hkdf_expand prk (c.to_utf8 "mac") 32) (other "failed to expand mac key with hkdf")
    ok (record {
      email = account;
      keys = record { bytes = enc ++ mac };
      master_password_hash = hash;
    })

  -- The parameters are in the ranges that Bitwarden publishes.
  abbrev pub AreAllowed : KdfType → ℕ → Option ℕ → Option ℕ → Type 0
  AreAllowed pbkdf2 iterations memory parallelism = (100000 ≤ iterations) × (iterations ≤ 2000000)
  AreAllowed argon2id iterations memory parallelism =
      (2 ≤ iterations)
      × (iterations ≤ 10)
      × (m : ℕ) × (p : ℕ) × (memory ≡ some m)
      × (parallelism ≡ some p)
      × (16 ≤ m)
      × (m ≤ 1024)
      × (1 ≤ p)
      × (p ≤ 16)

  ensure-then :
      {A : Type 0} (b : Bool) (e : Error) (f : Unit {0} → Outcome A) {a : A}
      → (ensure b e >>= f) ≡ ok a
      → (b ≡ true) × (f tt ≡ ok a)
  ensure-then true e f h = (refl, h)
  ensure-then false e f h = cc

  stretch-AreAllowed :
      (email : Text) (password : Bytes) (kdf : KdfType) (iterations : ℕ)
      (memory parallelism : Option ℕ) {b : Bytes}
      → stretch email password kdf iterations memory parallelism ≡ ok b
      → AreAllowed kdf iterations memory parallelism
  unfolding stretch
  stretch-AreAllowed email password pbkdf2 iterations memory parallelism h =
      let a = ensure-then (in_range 100000 2000000 iterations) _ _ h in ground arith
  stretch-AreAllowed email password argon2id iterations memory parallelism h =
      let a = >>=-eq-ok (or_err memory _) _ h in
      let b = >>=-eq-ok (or_err parallelism _) _ a.2 in
      let m = ensure-then (in_range 16 1024 a.0) _ _ b.2 in
      let p = ensure-then (in_range 1 16 b.0) _ _ m.1 in
      let i = ensure-then (in_range 2 10 iterations) _ _ p.1 in
      let bounds = in_range-le 2 10 iterations i.0 in
      let lanes = in_range-le 1 16 b.0 p.0 in
      let mib = in_range-le 16 1024 a.0 m.0 in
      (
        bounds.0,
        bounds.1,
        a.0,
        b.0,
        or_err-eq-ok memory _ a.1,
        or_err-eq-ok parallelism _ b.1,
        mib.0,
        mib.1,
        lanes.0,
        lanes.1,
      )

  -- An identity is derived only with parameters in the published ranges: PBKDF2 with 100000 to 2000000 iterations,
  -- Argon2id with 2 to 10 iterations, 16 to 1024 MiB and 1 to 16 lanes; and its keys are the two expanded halves of the
  -- stretched password, under the trimmed and lower-cased email address.
  pub new_identity-AreAllowed :
      (to_lowercase : Text → Text) (email : String) (password : Bytes) (kdf : KdfType)
      (iterations : ℕ) (memory parallelism : Option ℕ) (id : Identity)
      → new_identity to_lowercase email password kdf iterations memory parallelism ≡ ok id
      → AreAllowed kdf iterations memory parallelism
        × (id.email ≡ to_lowercase (trim (codes email)))
        × (prk enc mac : Bytes) × (stretch id.email password kdf iterations memory parallelism
            ≡ ok prk)
        × (k.hkdf_expand prk (c.to_utf8 "enc") 32 ≡ some enc)
        × (k.hkdf_expand prk (c.to_utf8 "mac") 32 ≡ some mac)
        × (id.keys.bytes ≡ enc ++ mac)
  unfolding new_identity
  new_identity-AreAllowed to_lowercase email password kdf iterations memory parallelism id h =
      let account = to_lowercase (trim (codes email)) in
      let z = ensure-then (not (iterations == 0)) _ _ h in
      let s = >>=-eq-ok (stretch account password kdf iterations memory parallelism) _ z.1 in
      let hash = >>=-eq-ok (or_err (k.pbkdf2_hmac_sha256 s.0 password 1 32) _) _ s.2 in
      let enc = >>=-eq-ok (or_err (k.hkdf_expand s.0 (c.to_utf8 "enc") 32) _) _ hash.2 in
      let mac = >>=-eq-ok (or_err (k.hkdf_expand s.0 (c.to_utf8 "mac") 32) _) _ enc.2 in
      let e = ok_inj mac.2 in
      (
        stretch-AreAllowed account password kdf iterations memory parallelism s.1,
        sym (ap (λ i. i.email) e),
        s.0,
        enc.0,
        mac.0,
        rw⁻¹ e s.1,
        or_err-eq-ok (k.hkdf_expand s.0 (c.to_utf8 "enc") 32) _ enc.1,
        or_err-eq-ok (k.hkdf_expand s.0 (c.to_utf8 "mac") 32) _ mac.1,
        sym (ap (λ i. i.keys.bytes) e),
      )
