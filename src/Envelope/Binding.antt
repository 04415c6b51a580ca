-- ===== src/Envelope/Binding.antt =====
-- What is sealed can be opened, under the same keys and for the same account only.
use cosmic_bwarden.Base.{
  ℕ, suc, ◌+◌, ◌≤◌, true, not, ◌≡◌, refl, sym, some, List, [], ◌∷◌, ◌++◌, length, take, drop, ltb,
  leb, nat_eq, arith, length-append, take-append, drop-append,
}
use cosmic_bwarden.Base.Strings.{Without}
use cosmic_bwarden.Crypto.{Bytes, Crypto, ok, or_err, >>=-eq-ok, or_err-eq-ok}
use cosmic_bwarden.CipherString.{Keys, capacity}
use cosmic_bwarden.Identity.{Kdf}
use cosmic_bwarden.Envelope.{
  Aead, AeadLaws, account_aad, derive_key, seal, open_envelope, envelope_version, nonce_len,
  max_envelope_bytes,
}

∷_inj {ℓ} : {A : Type ℓ} {x y : A} {xs ys : List A} → (x ∷ xs) ≡ (y ∷ ys) → (x ≡ y) × (xs ≡ ys)
∷_inj h = ground (arith, h)

before_zero :
    (s t : Bytes) {e f : Bytes}
    → Without 0 s
    → Without 0 t
    → (s ++ 0 ∷ e) ≡ (t ++ 0 ∷ f)
    → (s ≡ t) × (e ≡ f)
before_zero [] [] hs ht h = (refl, (∷_inj h).1)
before_zero [] (y ∷ t) hs ht h = absurd (ht.0 (sym (∷_inj h).0))
before_zero (x ∷ s) [] hs ht h = absurd (hs.0 (∷_inj h).0)
before_zero (x ∷ s) (y ∷ t) hs ht h =
    let i = ∷_inj h in let r = before_zero s t hs.1 ht.1 i.1 in (ground (arith, i.0, r.0), r.1)

-- The additional data tells accounts apart: for server names without a zero byte, equal data means the same server and
-- the same email.
pub account_aad_inj :
    (server server2 email email2 : Bytes)
    → Without 0 server
    → Without 0 server2
    → account_aad server email ≡ account_aad server2 email2
    → (server ≡ server2) × (email ≡ email2)
unfolding account_aad
account_aad_inj server server2 email email2 hs ht h = before_zero server server2 hs ht (∷_inj h).1

ok_inj {ℓ} : {A : Type ℓ} {x y : A} → ok x ≡ ok y → x ≡ y
ok_inj h = cc

module _ (c : Crypto) (k : Kdf) (a : Aead) (laws : AeadLaws a) where
  take-nonce :
      (nonce ct : Bytes)
      → ◌≡◌ {A = ℕ} (length nonce) nonce_len
      → (take nonce_len (nonce ++ ct) ≡ nonce) × (drop nonce_len (nonce ++ ct) ≡ ct)
  take-nonce nonce ct n = rw (← n) (take-append nonce ct, drop-append nonce ct)

  open-parts :
      (keys : Keys) (plaintext aad nonce ct key : Bytes)
      → ◌≡◌ {A = ℕ} (length nonce) nonce_len
      → ◌≡◌ {A = ℕ} (length ct) (length plaintext + 16)
      → length plaintext ≤ capacity
      → derive_key c k a keys ≡ ok key
      → a.decrypt key nonce aad ct ≡ some plaintext
      → open_envelope c k a keys (envelope_version ∷ nonce ++ ct) aad ≡ ok plaintext
  unfolding open_envelope
  open-parts keys plaintext aad nonce ct key n l fits d e =
      let len = length-append nonce ct in
      let cap : not (ltb max_envelope_bytes (suc (length (nonce ++ ct)))) ≡ true = ground arith in
      let whole : not (ltb (suc (length (nonce ++ ct))) 41) ≡ true = ground arith in
      let room : leb (length plaintext) capacity ≡ true = ground arith in
      let parts = take-nonce nonce ct n in rw (cap, whole, d, parts.0, parts.1, e, room) refl

  -- A token that has been sealed is opened again with the same keys and the same account, if the envelope is
  -- within its size limit and the token fits into the locked buffer.
  pub open-seal :
      (keys : Keys) (plaintext aad nonce blob : Bytes)
      → length nonce ≡ nonce_len
      → seal c k a keys plaintext aad nonce ≡ ok blob
      → length plaintext ≤ capacity
      → open_envelope c k a keys blob aad ≡ ok plaintext
  unfolding seal open_envelope
  open-seal keys plaintext aad nonce blob n h fits =
      let d = >>=-eq-ok (derive_key c k a keys) _ h in
      let e = >>=-eq-ok (or_err (a.encrypt d.0 nonce aad plaintext) _) _ d.2 in
      let sealed = or_err-eq-ok (a.encrypt d.0 nonce aad plaintext) _ e.1 in
      let size = laws.length-encrypt d.0 nonce aad plaintext e.0 sealed in
      let authentic = laws.decrypt-encrypt d.0 nonce aad plaintext e.0 sealed in
      rw (← ok_inj e.2) (open-parts keys plaintext aad nonce e.0 d.0 n size fits d.1 authentic)
