-- ===== src/Query/Reprompt.antt =====
-- A secret leaves the agent only from an unlocked vault, and a guarded one only against the master password.
use cosmic_bwarden.Base.{
  String, Bool, true, false, ◌≡◌, refl, sym, subst, Option, none, some, [], if◌then◌else◌,
  Bool-cases, inl, inr, ◌⊎◌,
}
use cosmic_bwarden.Crypto.{Crypto, Bytes, Outcome, ok, err, panic, ◌>>=◌, >>=-eq-ok}
use cosmic_bwarden.CipherString.{Keys, locked_vec}
use cosmic_bwarden.Entry.{Entry, master_password_reprompt}
use cosmic_bwarden.Entry.Decrypt.{OrgKeys}
use cosmic_bwarden.Vault.{unlock_from_keys}
use cosmic_bwarden.Protocol.{Response, error, entry, password, totp}
use cosmic_bwarden.State.{Db, Platform, pbkdf2}
use cosmic_bwarden.Identity.{Kdf, Identity, new_identity}
use cosmic_bwarden.Session.{ConfigRead, unreadable, no_email, has_email}
use cosmic_bwarden.Query.{
  passed_reprompt, or_refuse, verify_reprompt, verify_as, prove_password, proof_answer,
  secret_or_empty, or_default,
}

abbrev pub IsRefusal : Response → Type 0
IsRefusal (error m) = Unit
IsRefusal _ = ⊥

abbrev pub AreRefusals : Outcome (Option Response) → Type 0
AreRefusals (ok (some r)) = IsRefusal r
AreRefusals _ = Unit

-- An answer with a secret in it.
abbrev pub IsRelease : Response → Type 0
IsRelease (entry e) = Unit
IsRelease (password s) = Unit
IsRelease (totp s) = Unit
IsRelease _ = ⊥

refusal-no_release : (r : Response) → IsRefusal r → IsRelease r → ⊥
refusal-no_release (error m) h r = r
refusal-no_release (entry e) h r = h
refusal-no_release (password e) h r = h
refusal-no_release (totp e) h r = h
refusal-no_release _ h r = h

pub ok_inj {ℓ} : {A : Type ℓ} {a b : A} → ok a ≡ ok b → a ≡ b
ok_inj h = cc

module _ (p : Platform) (c : Crypto) (k : Kdf) (cfg : ConfigRead) where
  -- The given password is the master password: the keys derived from it decrypt the protected key.
  abbrev pub IsProved : Option String → Db → Type 0
  IsProved pw db =
      (given : String) × (email : String) × (bytes : Bytes) × (id : Identity) × (r : Keys × OrgKeys)
      × (pw ≡ some given)
      × (cfg ≡ has_email email)
      × (locked_vec (c.to_utf8 given) ≡ ok bytes)
      × (new_identity c k p.names.to_lowercase email bytes (or_default db.kdf pbkdf2)
            (or_default db.iterations 100000) db.memory db.parallelism
          ≡ ok id)
      × (unlock_from_keys c id.keys (secret_or_empty db.protected_key) none [] ≡ ok r)

  proof_answer-AreRefusals : (o : Outcome (Keys × OrgKeys)) → AreRefusals (proof_answer p c k cfg o)
  proof_answer-AreRefusals (ok r) = tt
  proof_answer-AreRefusals (err e) = tt
  proof_answer-AreRefusals panic = tt

  prove_password-AreRefusals :
      (db : Db) (o : Outcome Identity) → AreRefusals (prove_password p c k cfg db o)
  prove_password-AreRefusals db (ok id) = proof_answer-AreRefusals _
  prove_password-AreRefusals db (err e) = tt
  prove_password-AreRefusals db panic = tt

  then-AreRefusals {ℓ} :
      {A : Type ℓ} (o : Outcome A) (f : A → Outcome (Option Response))
      → ((a : A) → AreRefusals (f a))
      → AreRefusals (o >>= f)
  then-AreRefusals (ok a) f h = h a
  then-AreRefusals (err e) f h = tt
  then-AreRefusals panic f h = tt

  verify_as-AreRefusals :
      (g : ConfigRead) (pw : String) (db : Db) → AreRefusals (verify_as p c k cfg g pw db)
  verify_as-AreRefusals (unreadable e) pw db = tt
  verify_as-AreRefusals no_email pw db = tt
  verify_as-AreRefusals (has_email m) pw db =
      then-AreRefusals (locked_vec (c.to_utf8 pw)) _ (λ b. prove_password-AreRefusals db _)

  verify_reprompt-AreRefusals :
      (pw : Option String) (db : Db) → AreRefusals (verify_reprompt p c k cfg pw db)
  unfolding verify_reprompt
  verify_reprompt-AreRefusals none db = tt
  verify_reprompt-AreRefusals (some pw) db = verify_as-AreRefusals cfg pw db

  proof_answer-passed :
      (o : Outcome (Keys × OrgKeys))
      → proof_answer p c k cfg o ≡ ok none
      → (r : Keys × OrgKeys) × (o ≡ ok r)
  proof_answer-passed (ok r) h = (r, refl)
  proof_answer-passed (err e) h = cc
  proof_answer-passed panic h = cc

  prove_password-passed :
      (db : Db) (o : Outcome Identity)
      → prove_password p c k cfg db o ≡ ok none
      → (id : Identity) × (r : Keys × OrgKeys) × (o ≡ ok id)
        × (unlock_from_keys c id.keys (secret_or_empty db.protected_key) none [] ≡ ok r)
  prove_password-passed db (ok id) h = let r = proof_answer-passed _ h in (id, r.0, refl, r.1)
  prove_password-passed db (err e) h = cc
  prove_password-passed db panic h = cc

  verify_as-passed :
      (g : ConfigRead) (pw : String) (db : Db)
      → cfg ≡ g
      → verify_as p c k cfg g pw db ≡ ok none
      → IsProved (some pw) db
  verify_as-passed (unreadable e) pw db s h = cc
  verify_as-passed no_email pw db s h = cc
  verify_as-passed (has_email email) pw db s h =
      let b = >>=-eq-ok (locked_vec (c.to_utf8 pw)) _ h in
      let r = prove_password-passed db _ b.2 in (pw, email, b.0, r.0, r.1, refl, s, b.1, r.2, r.3)

  -- A reprompt is passed only with the master password.
  pub verify_reprompt-IsProved :
      (pw : Option String) (db : Db) → verify_reprompt p c k cfg pw db ≡ ok none → IsProved pw db
  unfolding verify_reprompt
  verify_reprompt-IsProved none db h = cc
  verify_reprompt-IsProved (some pw) db h = verify_as-passed cfg pw db refl h

  or_refuse-release :
      (o : Outcome (Option Response)) (r answer : Response)
      → AreRefusals o
      → IsRelease answer
      → or_refuse p c k cfg o r ≡ ok answer
      → (o ≡ ok none) × (r ≡ answer)
  or_refuse-release (ok none) r answer a i h = (refl, ok_inj h)
  or_refuse-release (ok (some x)) r answer a i h =
      absurd (refusal-no_release x a (subst IsRelease (sym (ok_inj h)) i))
  or_refuse-release (err e) r answer a i h = cc
  or_refuse-release panic r answer a i h = cc

  -- The entry has no reprompt, or it has been passed.
  abbrev pub IsAllowed : Option String → Db → Entry → Type 0
  IsAllowed pw db stored = (master_password_reprompt stored ≡ false) ⊎ IsProved pw db

  guard-IsAllowed :
      (b : Bool) (pw : Option String) (db : Db) (r answer : Response)
      → IsRelease answer
      → or_refuse p c k cfg (if b then verify_reprompt p c k cfg pw db else ok none) r ≡ ok answer
      → ((b ≡ false) ⊎ IsProved pw db) × (r ≡ answer)
  guard-IsAllowed true pw db r answer i h =
      let a =
        or_refuse-release (verify_reprompt p c k cfg pw db) r answer
          (verify_reprompt-AreRefusals pw db) i h in
      (inr (verify_reprompt-IsProved pw db a.0), a.1)
  guard-IsAllowed false pw db r answer i h = (inl refl, ok_inj h)

  pub passed-IsAllowed :
      (pw : Option String) (db : Db) (stored : Entry) (r answer : Response)
      → IsRelease answer
      → or_refuse p c k cfg (passed_reprompt p c k cfg pw db stored) r ≡ ok answer
      → IsAllowed pw db stored × (r ≡ answer)
  passed-IsAllowed pw db stored = guard-IsAllowed (master_password_reprompt stored) pw db

  pub passed-AreRefusals :
      (pw : Option String) (db : Db) (stored : Entry)
      → AreRefusals (passed_reprompt p c k cfg pw db stored)
  passed-AreRefusals pw db stored = elim (Bool-cases (master_password_reprompt stored)) [
    | inl e ↦ rw e (verify_reprompt-AreRefusals pw db)
    | inr e ↦ rw e tt
  ]
