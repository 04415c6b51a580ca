-- ===== src/Query/Guard.antt =====
-- The requests for one secret, each from the request to the answer.
use cosmic_bwarden.Base.{String, ◌≡◌, refl, Option, none, some, arith}
use cosmic_bwarden.Crypto.{Crypto, Outcome, ok, err, panic}
use cosmic_bwarden.CipherString.{Keys}
use cosmic_bwarden.Entry.{Entry, Secret}
use cosmic_bwarden.Entry.Decrypt.{OrgKeys}
use cosmic_bwarden.Protocol.{Response, error, entry, password, totp}
use cosmic_bwarden.State.{State, Db, Platform}
use cosmic_bwarden.Identity.{Kdf}
use cosmic_bwarden.Session.{ConfigRead}
use cosmic_bwarden.Query.{
  handle_get_entry, find_entry, or_refuse, decrypt_entry, entry_of, when_unlocked, agent_locked,
}
use cosmic_bwarden.Query.Release.{
  TotpLibrary, handle_get_password, handle_get_totp, totp_from, totp_in, totp_answer, totp_of,
  map_ok, password_of_answer, password_of,
}
use cosmic_bwarden.Query.Reprompt.{
  IsAllowed, AreRefusals, passed-IsAllowed, passed-AreRefusals, ok_inj,
}

module _ (p : Platform) (c : Crypto) (k : Kdf) (cfg : ConfigRead) where
  -- The vault is unlocked, the entry is in it, and its reprompt has been passed if it has one.
  abbrev pub IsAuthorised : String → Option String → State → Db → Keys → Entry → Type 0
  IsAuthorised id pw s db keys stored =
      (s.db ≡ some db)
      × (s.keys ≡ some keys)
      × (find_entry id db ≡ some stored)
      × IsAllowed p c k cfg pw db stored

  entry_of-authorised :
      (pw : Option String) (db : Db) (keys : Keys) (org_keys : Option OrgKeys) (o : Option Entry)
      (e : Entry)
      → entry_of p c k cfg pw db keys org_keys o ≡ ok (entry e)
      → (stored : Entry) × (o ≡ some stored)
        × IsAllowed p c k cfg pw db stored
        × (e ≡ decrypt_entry p keys org_keys stored)
  entry_of-authorised pw db keys org_keys none e h = cc
  entry_of-authorised pw db keys org_keys (some stored) e h =
      let a = passed-IsAllowed p c k cfg pw db stored _ (entry e) tt h in
      (stored, refl, a.0, ground (arith, a.1))

  unlocked-authorised :
      (id : String) (pw : Option String) (org_keys : Option OrgKeys) (odb : Option Db)
      (okeys : Option Keys) (e : Entry)
      → when_unlocked p
          (ok agent_locked)
          odb
          okeys
          (λ db keys. entry_of p c k cfg pw db keys org_keys (find_entry id db))
        ≡ ok (entry e)
      → (db : Db) × (keys : Keys) × (stored : Entry) × (odb ≡ some db)
        × (okeys ≡ some keys)
        × (find_entry id db ≡ some stored)
        × IsAllowed p c k cfg pw db stored
        × (e ≡ decrypt_entry p keys org_keys stored)
  unlocked-authorised id pw org_keys none okeys e h = cc
  unlocked-authorised id pw org_keys (some db) none e h = cc
  unlocked-authorised id pw org_keys (some db) (some keys) e h =
      let a = entry_of-authorised pw db keys org_keys (find_entry id db) e h in
      (db, keys, a.0, refl, refl, a.1, a.2, a.3)

  -- A decrypted entry is answered only from an unlocked vault that has the entry; and if the entry asks for
  -- the master password, only when the password given with the request decrypts the protected key.
  pub get_entry-IsAuthorised :
      (id : String) (pw : Option String) (s : State) (e : Entry)
      → handle_get_entry p c k cfg id pw s ≡ ok (entry e)
      → (db : Db) × (keys : Keys) × (stored : Entry) × IsAuthorised id pw s db keys stored
        × (e ≡ decrypt_entry p keys s.org_keys stored)
  unfolding handle_get_entry
  get_entry-IsAuthorised id pw s e h =
      let a = unlocked-authorised id pw s.org_keys s.db s.keys e h in
      (a.0, a.1, a.2, (a.3, a.4, a.5, a.6), a.7)

  -- An error or an entry, if it is an answer.
  abbrev IsEntryAnswer : Outcome Response → Type 0
  IsEntryAnswer (ok (entry e)) = Unit
  IsEntryAnswer (ok (error m)) = Unit
  IsEntryAnswer (ok r) = ⊥
  IsEntryAnswer _ = Unit

  or_refuse-IsEntryAnswer :
      (o : Outcome (Option Response)) (e : Entry)
      → AreRefusals o
      → IsEntryAnswer (or_refuse p c k cfg o (entry e))
  or_refuse-IsEntryAnswer (ok none) e a = tt
  or_refuse-IsEntryAnswer (ok (some (error m))) e a = tt
  or_refuse-IsEntryAnswer (ok (some x)) e a = absurd a
  or_refuse-IsEntryAnswer (err x) e a = tt
  or_refuse-IsEntryAnswer panic e a = tt

  get_entry-IsEntryAnswer :
      (id : String) (pw : Option String) (org_keys : Option OrgKeys) (odb : Option Db)
      (okeys : Option Keys)
      → IsEntryAnswer (
          when_unlocked p
            (ok agent_locked)
            odb
            okeys
            (λ db keys. entry_of p c k cfg pw db keys org_keys (find_entry id db)))
  get_entry-IsEntryAnswer id pw org_keys none okeys = tt
  get_entry-IsEntryAnswer id pw org_keys (some db) none = tt
  get_entry-IsEntryAnswer id pw org_keys (some db) (some keys) = of_entry (find_entry id db)
    where
      of_entry : (o : Option Entry) → IsEntryAnswer (entry_of p c k cfg pw db keys org_keys o)
      of_entry none = tt
      of_entry (some e) = or_refuse-IsEntryAnswer _ _ (passed-AreRefusals p c k cfg pw db e)

  password_answer-entry :
      (o : Outcome Response) (v : Secret)
      → IsEntryAnswer o
      → map_ok password_of_answer o ≡ ok (password v)
      → (e : Entry) × (o ≡ ok (entry e)) × (password_of e e.content ≡ password v)
  password_answer-entry (ok (entry e)) v a h = (e, refl, ok_inj h)
  password_answer-entry (ok (error m)) v a h = cc
  password_answer-entry (ok r) v a h = absurd a
  password_answer-entry (err x) v a h = cc
  password_answer-entry panic v a h = cc

  -- `GetPassword` gives a secret only of an entry that `GetEntry` gives for the same request, so that the vault is
  -- unlocked, has the entry, and a reprompt has been passed; and it is that entry's secret, by its type.
  pub get_password-IsAuthorised :
      (id : String) (pw : Option String) (s : State) (v : Secret)
      → handle_get_password p c k cfg id pw s ≡ ok (password v)
      → (e : Entry) × (password_of e e.content ≡ password v)
        × (db : Db) × (keys : Keys) × (stored : Entry) × IsAuthorised id pw s db keys stored
        × (e ≡ decrypt_entry p keys s.org_keys stored)
  unfolding handle_get_password handle_get_entry
  get_password-IsAuthorised id pw s v h =
      let a = password_answer-entry _ v (get_entry-IsEntryAnswer id pw s.org_keys s.db s.keys) h in
      let b = get_entry-IsAuthorised id pw s a.0 a.1 in (a.0, a.2, b.0, b.1, b.2, b.3, b.4)

  module _ (t : TotpLibrary) where
    answer-unlocked :
        (e : Entry) (keys : Option Keys) (org_keys : Option OrgKeys) (code : Secret)
        → totp_answer t p c k cfg (some e) keys org_keys ≡ totp code
        → (ks : Keys) × (keys ≡ some ks)
          × (totp_of t (decrypt_entry p ks org_keys e).content ≡ totp code)
    answer-unlocked e none org_keys code h = cc
    answer-unlocked e (some ks) org_keys code h = (ks, refl, h)

    none-no_code :
        (keys : Option Keys) (org_keys : Option OrgKeys) (code : Secret)
        → totp_answer t p c k cfg none keys org_keys ≡ totp code
        → ⊥
    none-no_code none org_keys code h = ground arith
    none-no_code (some ks) org_keys code h = ground arith

    totp_in-authorised :
        (pw : Option String) (keys : Option Keys) (org_keys : Option OrgKeys) (db : Db)
        (o : Option Entry) (code : Secret)
        → totp_in t p c k cfg pw keys org_keys db o ≡ ok (totp code)
        → (stored : Entry) × (o ≡ some stored)
          × IsAllowed p c k cfg pw db stored
          × (ks : Keys) × (keys ≡ some ks)
          × (totp_of t (decrypt_entry p ks org_keys stored).content ≡ totp code)
    totp_in-authorised pw keys org_keys db none code h =
        absurd (none-no_code keys org_keys code (ok_inj h))
    totp_in-authorised pw keys org_keys db (some stored) code h =
        let a = passed-IsAllowed p c k cfg pw db stored _ (totp code) tt h in
        let b = answer-unlocked stored keys org_keys code a.1 in (stored, refl, a.0, b.0, b.1, b.2)

    totp_from-authorised :
        (id : String) (pw : Option String) (keys : Option Keys) (org_keys : Option OrgKeys)
        (odb : Option Db) (code : Secret)
        → totp_from t p c k cfg id pw keys org_keys odb ≡ ok (totp code)
        → (db : Db) × (odb ≡ some db)
          × (stored : Entry) × (find_entry id db ≡ some stored)
          × IsAllowed p c k cfg pw db stored
          × (ks : Keys) × (keys ≡ some ks)
          × (totp_of t (decrypt_entry p ks org_keys stored).content ≡ totp code)
    totp_from-authorised id pw keys org_keys none code h =
        absurd (none-no_code keys org_keys code (ok_inj h))
    totp_from-authorised id pw keys org_keys (some db) code h =
        let a = totp_in-authorised pw keys org_keys db (find_entry id db) code h in
        (db, refl, a.0, a.1, a.2, a.3, a.4, a.5)

    -- A one-time password is given only from an unlocked vault that has the entry and after its reprompt, if it has
    -- one, has been passed; and it is computed from the decrypted entry's own secret.
    pub get_totp-IsAuthorised :
        (id : String) (pw : Option String) (s : State) (code : Secret)
        → handle_get_totp t p c k cfg id pw s ≡ ok (totp code)
        → (db : Db) × (keys : Keys) × (stored : Entry) × IsAuthorised id pw s db keys stored
          × (totp_of t (decrypt_entry p keys s.org_keys stored).content ≡ totp code)
    unfolding handle_get_totp
    get_totp-IsAuthorised id pw s code h =
        let a = totp_from-authorised id pw s.keys s.org_keys s.db code h in
        (a.0, a.5, a.2, (a.1, a.6, a.3, a.4), a.7)
