-- ===== src/Update/Added/Kinds.antt =====
-- The request that adds an entry, kind by kind: its data comes back.
use cosmic_bwarden.Base.{String, Bool, Option, none, some, List, [], ◌∷◌, map, ◌≡◌, refl, ap}
use cosmic_bwarden.Crypto.{Outcome, ok}
use cosmic_bwarden.Entry.{
  EntryData, login, card, identity, secure_note, ssh_key, bank_account, drivers_license, passport,
  Login, Card, Identity, SshKey, BankAccount, DriversLicense, Passport, Uri, no_reprompt,
}
use cosmic_bwarden.Entry.Decrypt.{
  decrypt_data, decrypt_login, decrypt_identity, decrypt_ssh_key, opt, decrypt_uri,
}
use cosmic_bwarden.Wire.{
  CipherUri, CipherField, Object, CipherIdentity, SyncResCipher, CiphersPostReq,
}
use cosmic_bwarden.Wire.Read.{
  to_data, read_login, to_login, to_card, to_identity, to_ssh_key, to_bank_account,
  to_drivers_license, to_passport, uris_or_empty,
}
use cosmic_bwarden.Encrypt.{Slot, part}
use cosmic_bwarden.Encrypt.Add.{
  Parts, no_parts, add_parts, add_login, add_identity_parts, add_ssh_parts, encrypt_some_uris, post,
  add_cipher, add_ssh_key, add_card, add_identity, add_new_type_cipher, or_blank,
}
use cosmic_bwarden.Encrypt.Seal.{
  Seals, by_domain, seal_opt, card_back, bank_account_back, drivers_license_back, passport_back,
  encrypt-eq, opt-seal, encrypt_uris-eq, sealed_uris, read_sealed, read_uris-sealed, uris_back,
}
use cosmic_bwarden.Update.Added.{Created, added_data}

-- The parts of a request that are the same for every kind of entry.
pub record Head (n : String) (f : Bool) (nt : Option String) (fs : List CipherField)
    (req : CiphersPostReq) : Type 0 where
  pub folder_eq : req.folder_id ≡ none
  pub favorite_eq : req.favorite ≡ f
  pub name_eq : req.name ≡ n
  pub notes_eq : req.notes ≡ nt
  pub fields_eq : req.fields ≡ fs
  pub reprompt_eq : req.reprompt ≡ no_reprompt

request-Head :
    (req : CiphersPostReq)
    → req.folder_id ≡ none
    → req.reprompt ≡ no_reprompt
    → Head req.name req.favorite req.notes req.fields req
request-Head req folder reprompt = record {
  folder_eq = folder;
  favorite_eq = refl;
  name_eq = refl;
  notes_eq = refl;
  fields_eq = refl;
  reprompt_eq = reprompt;
}

abbrev pub ReadAs : (String → Option String) → CiphersPostReq → EntryData → Type 0
ReadAs d req x =
    (r : SyncResCipher)
    → Created req r
    → (y : EntryData) × (to_data r ≡ some y) × (decrypt_data d y ≡ x)

module _ (enc : Slot → String → Outcome String) (d : String → Option String) (h : Seals enc d)
    (blank : d "" ≡ none) (id n : String) (f : Bool) (nt : Option String)
    (fs : List CipherField) where
  abbrev pub Adds : EntryData → Type 0
  Adds x =
      (p : Parts) × (req : CiphersPostReq) × (add_parts enc x ≡ ok p)
      × (post id n f nt fs p ≡ ok req)
      × Head n f nt fs req
      × ReadAs d req (added_data x)

  card-Adds : (c : Card) → Adds (card c)
  unfolding add_parts post to_data decrypt_data add_card
  card-Adds c =
      let b = card_back enc d h c in
      let req : CiphersPostReq = add_card id n f nt fs b.0 in
      (
        record (no_parts 3) { card_payload = some b.0 },
        req,
        rw b.1,
        refl,
        request-Head req refl refl,
        λ r k. (card (to_card (some b.0)), rw (k.same_ty, k.same_card), ap card b.2),
      )

  bank_account-Adds : (a : BankAccount) → Adds (bank_account a)
  unfolding add_parts post to_data decrypt_data add_new_type_cipher
  bank_account-Adds a =
      let b = bank_account_back enc d h a in
      let req : CiphersPostReq = add_new_type_cipher id n f nt fs 6 (some b.0) none none in
      (
        record (no_parts 6) { bank_payload = some b.0 },
        req,
        rw b.1,
        refl,
        request-Head req refl refl,
        λ r k. (
          bank_account (to_bank_account (some b.0)),
          rw (k.same_ty, k.same_bank_account),
          ap bank_account b.2,
        ),
      )

  drivers_license-Adds : (l : DriversLicense) → Adds (drivers_license l)
  unfolding add_parts post to_data decrypt_data add_new_type_cipher
  drivers_license-Adds l =
      let b = drivers_license_back enc d h l in
      let req : CiphersPostReq = add_new_type_cipher id n f nt fs 7 none (some b.0) none in
      (
        record (no_parts 7) { dl_payload = some b.0 },
        req,
        rw b.1,
        refl,
        request-Head req refl refl,
        λ r k. (
          drivers_license (to_drivers_license (some b.0)),
          rw (k.same_ty, k.same_drivers_license),
          ap drivers_license b.2,
        ),
      )

  passport-Adds : (p : Passport) → Adds (passport p)
  unfolding add_parts post to_data decrypt_data add_new_type_cipher
  passport-Adds p =
      let b = passport_back enc d h p in
      let req : CiphersPostReq = add_new_type_cipher id n f nt fs 8 none none (some b.0) in
      (
        record (no_parts 8) { passport_payload = some b.0 },
        req,
        rw b.1,
        refl,
        request-Head req refl refl,
        λ r k.
            (passport (to_passport (some b.0)), rw (k.same_ty, k.same_passport), ap passport b.2),
      )

  abbrev sealed_identity : Identity → CipherIdentity
  sealed_identity i = record {
    title = none;
    first_name = seal_opt h.seal (part 0) i.first_name;
    middle_name = none;
    last_name = seal_opt h.seal (part 1) i.last_name;
    address1 = seal_opt h.seal (part 2) i.address1;
    address2 = none;
    address3 = none;
    city = seal_opt h.seal (part 3) i.city;
    state = seal_opt h.seal (part 4) i.state;
    postal_code = seal_opt h.seal (part 5) i.postal_code;
    country = seal_opt h.seal (part 6) i.country;
    email = seal_opt h.seal (part 7) i.email;
    phone = seal_opt h.seal (part 8) i.phone;
    ssn = none;
    license_number = none;
    passport_number = none;
    username = none;
  }

  identity-Adds : (i : Identity) → Adds (identity i)
  unfolding add_parts add_identity_parts post to_data decrypt_data add_identity to_identity
      decrypt_identity
  identity-Adds i =
      let v : CipherIdentity = sealed_identity i in
      let req : CiphersPostReq = add_identity id n f nt fs v in
      (
        record (no_parts 4) { identity_payload = some v },
        req,
        simp (encrypt-eq enc d h),
        refl,
        request-Head req refl refl,
        λ r k. (
          identity (to_identity (some v)),
          rw (k.same_ty, k.same_identity),
          simp (opt-seal enc d h),
        ),
      )

  opt-or_blank :
      (slot : Slot) (o : Option String) → opt d (some (or_blank (seal_opt h.seal slot o))) ≡ o
  opt-or_blank slot none = blank
  opt-or_blank slot (some s) = h.decrypt-seal slot s

  ssh_key-Adds : (s : SshKey) → Adds (ssh_key s)
  unfolding add_parts add_ssh_parts post to_data decrypt_data add_ssh_key to_ssh_key decrypt_ssh_key
  ssh_key-Adds s =
      let priv : Option String = seal_opt h.seal (part 0) s.private_key in
      let publ : Option String = seal_opt h.seal (part 1) s.public_key in
      let req : CiphersPostReq = add_ssh_key id n f nt fs (or_blank priv) publ in
      (
        record (no_parts 5) { priv_enc = priv; pub_enc = publ },
        req,
        simp (encrypt-eq enc d h),
        refl,
        request-Head req refl refl,
        λ r k. (
          ssh_key (
              to_ssh_key (
                some (record {
                  private_key = some (or_blank priv);
                  public_key = publ;
                  fingerprint = none;
                }))),
          rw (k.same_ty, k.same_ssh_key),
          simp (opt-or_blank, opt-seal enc d h),
        ),
      )

  -- The URIs of a request, and what they are read as.
  some_uris_back :
      (us : List Uri)
      → (o : Option (List Object)) × (l : Option (List CipherUri)) × (encrypt_some_uris enc us
          ≡ ok o)
        × ((u p t : Option String)
            → read_login (some (record { username = u; password = p; totp = t; uris = o }))
              ≡ some (some (record { username = u; password = p; totp = t; uris = l })))
        × (map (decrypt_uri d) (uris_or_empty l) ≡ map by_domain us)
  unfolding encrypt_some_uris read_login
  some_uris_back [] = (none, none, refl, λ u p t. refl, refl)
  some_uris_back (u ∷ us) = (
    some (sealed_uris enc d h 0 (u ∷ us)),
    some (read_sealed enc d h 0 (u ∷ us)),
    rw (encrypt_uris-eq enc d h 0 (u ∷ us)),
    λ x y z. rw (read_uris-sealed enc d h 0 (u ∷ us)),
    uris_back enc d h 0 (u ∷ us),
  )

  login-Adds : (l : Login) → Adds (login l)
  unfolding add_parts add_login post to_data decrypt_data add_cipher to_login decrypt_login
  login-Adds l =
      let b = some_uris_back l.uris in
      let u : Option String = seal_opt h.seal (part 0) l.username in
      let p : Option String = seal_opt h.seal (part 1) l.password in
      let t : Option String = seal_opt h.seal (part 2) l.totp in
      let req : CiphersPostReq = add_cipher id n f nt fs 1 u p t b.0 in
      (
        record (no_parts 1) { u_enc = u; p_enc = p; totp_enc = t; uris_enc = b.0 },
        req,
        simp (encrypt-eq enc d h, b.2),
        refl,
        request-Head req refl refl,
        λ r k. (
          login (to_login (some (record { username = u; password = p; totp = t; uris = b.1 }))),
          rw (k.same_ty, k.same_login, b.3 u p t),
          simp (opt-seal enc d h, b.4),
        ),
      )

  pub data-Adds : (x : EntryData) → Adds x
  unfolding add_parts post to_data decrypt_data add_cipher
  data-Adds (login l) = login-Adds l
  data-Adds (card c) = card-Adds c
  data-Adds (identity i) = identity-Adds i
  data-Adds (ssh_key s) = ssh_key-Adds s
  data-Adds (bank_account a) = bank_account-Adds a
  data-Adds (drivers_license l) = drivers_license-Adds l
  data-Adds (passport p) = passport-Adds p
  data-Adds secure_note =
      let req : CiphersPostReq = add_cipher id n f nt fs 2 none none none none in
      (
        no_parts 2,
        req,
        refl,
        refl,
        request-Head req refl refl,
        λ r k. (secure_note, rw k.same_ty, refl),
      )
