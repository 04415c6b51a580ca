-- ===== src/Vault/Unlock.antt =====
-- What a right and a wrong password do to an unlock.
use cosmic_bwarden.Base.{
  ℕ, ◌≤◌, String, ◌≡◌, ◌≢◌, ap, ◌∙◌, Option, none, some, List, [], ◌∷◌, ◌++◌, map, arith, codes,
  length, ==_iff, list_eq, nat_eq,
}
use cosmic_bwarden.Crypto.{Bytes, Crypto, Outcome, ok, err, panic, >>=-eq-ok, other}
use cosmic_bwarden.CipherString.{
  CipherString, symmetric, asymmetric, Keys, mac_key, new, decrypt_locked_symmetric,
  decrypt_locked_asymmetric, capacity, locked_vec, decrypt_common_symmetric,
}
use cosmic_bwarden.CipherString.Mac.{common-authentic}
use cosmic_bwarden.Entry.Decrypt.{OrgKeys}
use cosmic_bwarden.Vault.{unlock_from_keys, decrypt_org_keys, org_key_loop, vault_keys_or}

module _ (c : Crypto) where
  -- A key whose HMAC of the protected key is not the MAC that it carries is told as a wrong password, whatever else
  -- the account holds.
  pub unlock-wrong_password :
      (identity_keys : Keys) (protected_key : String) (private_key : Option String)
      (org_keys : List (String × String)) (iv ct mac mk : Bytes)
      → new c (codes protected_key) ≡ ok (symmetric iv ct (some mac))
      → mac_key identity_keys ≡ ok mk
      → length ct ≤ capacity
      → ◌≡◌ {A = ℕ} (length mac) 32
      → c.hmac_sha256 mk (iv ++ ct) ≢ mac
      → unlock_from_keys c identity_keys protected_key private_key org_keys
        ≡ err (other "Password is incorrect. Try again.")
  unfolding unlock_from_keys decrypt_locked_symmetric
  unlock-wrong_password keys pkey priv orgs iv ct mac mk hp hk hc hm hne =
      ground (arith, ==_iff (c.hmac_sha256 mk (iv ++ ct)) mac)

  org_key_loop-ids :
      (pk : Bytes) (orgs : List (String × String)) (keys : OrgKeys)
      → org_key_loop c pk orgs ≡ ok keys
      → map (λ (p : String × Keys). p.0) keys ≡ map (λ (p : String × String). p.0) orgs
  org_key_loop-ids pk [] keys h = cc
  org_key_loop-ids pk ((id, k) ∷ rest) keys h =
      let a = >>=-eq-ok (new c (codes k)) _ h in
      let b = >>=-eq-ok (decrypt_locked_asymmetric c a.0 pk) _ a.2 in
      let d = >>=-eq-ok (org_key_loop c pk rest) _ b.2 in
      ground (arith, org_key_loop-ids pk rest d.0 d.1, d.2)

  decrypt_org_keys-ids :
      (vk : Keys) (priv : Option String) (orgs : List (String × String)) (keys : OrgKeys)
      → decrypt_org_keys c vk priv orgs ≡ ok keys
      → map (λ (p : String × Keys). p.0) keys
        ≡ elim priv [ none ↦ [] | some _ ↦ map (λ (p : String × String). p.0) orgs ]
  unfolding decrypt_org_keys
  decrypt_org_keys-ids vk none orgs keys h = ground arith
  decrypt_org_keys-ids vk (some ppk) orgs keys h =
      let a = >>=-eq-ok (new c (codes ppk)) _ h in
      let b = >>=-eq-ok (decrypt_locked_symmetric c a.0 vk) _ a.2 in
      org_key_loop-ids b.0 orgs keys b.2

  vault_keys_or-eq-ok : (m : Outcome Bytes) {k : Keys} → vault_keys_or c m ≡ ok k → m ≡ ok k.bytes
  vault_keys_or-eq-ok (ok b) h = ground arith
  vault_keys_or-eq-ok (err e) h = ground arith
  vault_keys_or-eq-ok panic h = ground arith

  locked-authentic :
      (cs : CipherString) (keys : Keys) {p : Bytes}
      → decrypt_locked_symmetric c cs keys ≡ ok p
      → (iv ct mk : Bytes) × (cs ≡ symmetric iv ct (some (c.hmac_sha256 mk (iv ++ ct))))
        × (mac_key keys ≡ ok mk)
  unfolding decrypt_locked_symmetric
  locked-authentic (asymmetric ct) keys h = cc
  locked-authentic (symmetric iv ct mac) keys h =
      let a = >>=-eq-ok (locked_vec ct) _ h in
      let b = >>=-eq-ok (decrypt_common_symmetric c keys iv ct mac) _ a.2 in
      let r = common-authentic c keys iv ct mac b.1 in (iv, ct, r.0, ap (symmetric iv ct) r.1, r.2)

  -- An unlock that succeeds has a key for exactly the organisations of the account, in their order, and none at all
  -- if the account has no private key; and the protected key's MAC was the HMAC under the key that was tried.
  pub unlock_sound :
      (identity_keys : Keys) (protected_key : String) (private_key : Option String)
      (orgs : List (String × String)) (keys : Keys) (org_keys : OrgKeys)
      → unlock_from_keys c identity_keys protected_key private_key orgs ≡ ok (keys, org_keys)
      → (map (λ (p : String × Keys). p.0) org_keys
          ≡ elim private_key [ none ↦ [] | some _ ↦ map (λ (p : String × String). p.0) orgs ])
        × (iv ct mk : Bytes) × (new c (codes protected_key)
            ≡ ok (symmetric iv ct (some (c.hmac_sha256 mk (iv ++ ct)))))
        × (mac_key identity_keys ≡ ok mk)
  unfolding unlock_from_keys
  unlock_sound ik pkey priv orgs keys org_keys h =
      let a = >>=-eq-ok (new c (codes pkey)) _ h in
      let b = >>=-eq-ok (vault_keys_or c (decrypt_locked_symmetric c a.0 ik)) _ a.2 in
      let d = >>=-eq-ok (decrypt_org_keys c b.0 priv orgs) _ b.2 in
      let r =
        locked-authentic a.0 ik (vault_keys_or-eq-ok (decrypt_locked_symmetric c a.0 ik) b.1) in
      (
        decrypt_org_keys-ids b.0 priv orgs org_keys (ground (arith, d.1, d.2)),
        r.0,
        r.1,
        r.2,
        a.1 ∙ ap ok r.3,
        r.4,
      )
