-- ===== src/MasterPassword/Unlocks.antt =====
-- Only the master password opens the vault.
use cosmic_bwarden.Base.{
  String, Bool, true, false, Option, none, some, [], ◌≡◌, refl, ◌∙◌, ◌⊎◌, inl, inr, subst, Text,
  Bool-cases,
}
use cosmic_bwarden.Crypto.{Bytes, Crypto, Outcome, ok, err, panic, >>=-eq-ok}
use cosmic_bwarden.CipherString.{Keys}
use cosmic_bwarden.Entry.Decrypt.{OrgKeys}
use cosmic_bwarden.Identity.{Kdf, Identity}
use cosmic_bwarden.Vault.{unlock_from_keys}
use cosmic_bwarden.Envelope.{Aead}
use cosmic_bwarden.Protocol.{Message, ack, error}
use cosmic_bwarden.State.{State, Db, Platform, has_account, entries_of}
use cosmic_bwarden.Session.{ConfigRead, unreadable, no_email, has_email, unlock_commit}
use cosmic_bwarden.Session.Requests.{with_keyring, adopt_tokens, with_tokens}
use cosmic_bwarden.Session.Answers.{unlock_commit-IsCurrent}
use cosmic_bwarden.Restore.{SessionFile, Network, Restored, restore_session}
use cosmic_bwarden.Restore.Order.{InOrder, restore_session-InOrder}
use cosmic_bwarden.MasterPassword.{
  identity_of, unlock_of, unlock, Unlocked, noted, restored_or_noted, rolled_forward, after_commit,
  committed, identified, account_unlocked, handle_unlock, key_or,
}

entries-with_tokens :
    (access : String) (refresh : Option String) (db : Option Db)
    → entries_of (with_tokens access refresh db) ≡ entries_of db
entries-with_tokens access refresh none = refl
entries-with_tokens access none (some db) = refl
entries-with_tokens access (some rt) (some db) = refl

entries-with_keyring :
    (tokens : Option (String × String)) (db : Db) → (with_keyring tokens db).entries ≡ db.entries
entries-with_keyring none db = refl
entries-with_keyring (some (access, refresh)) db = refl

-- The same keys and the same entries.
abbrev SameVault : State → State → Type 0
SameVault s t = (s.keys ≡ t.keys) × (entries_of s.db ≡ entries_of t.db)

adopt_tokens-SameVault :
    (access : String) (refresh : Option String) (s : State)
    → SameVault (adopt_tokens access refresh s) s
unfolding adopt_tokens
adopt_tokens-SameVault access refresh s = (refl, entries-with_tokens access refresh s.db)

module _ (c : Crypto) (k : Kdf) (a : Aead) (server email nonce : Bytes) (writes : Bool) (s : State)
    (file : SessionFile) (net : Network) (hash : Bool) (keys : Keys) where
  InOrder-SameVault :
      (r : Restored)
      → InOrder c k a server email nonce writes s file net hash keys r
      → SameVault r.state s
  InOrder-SameVault r (inl (token, tokens, l, x, p)) =
      rw p.2 (adopt_tokens-SameVault tokens.0 tokens.1 s)
  InOrder-SameVault r (inr (sent, v, inl f)) = rw f.3 (refl, refl)
  InOrder-SameVault r (inr (sent, v, inr (h, inl f))) = rw f.3 (refl, refl)
  InOrder-SameVault r (inr (sent, v, inr (h, inr (tokens, x, p)))) =
      rw p.2 (adopt_tokens-SameVault tokens.0 tokens.1 s)

module _ (c : Crypto) (k : Kdf) (a : Aead) (p : Platform) (server nonce : Bytes) (writes : Bool)
    (net : Network) (file : SessionFile) (s : State) (lower : Text → Text) (password : Bytes)
    (tokens : Option (String × String)) (loaded : String ⊎ Db) (cfg : ConfigRead) where
  -- The unlock is refused: nothing is changed, and nothing sent.
  abbrev pub Denied : Unlocked → Type 0
  Denied r =
      (m : Message) × (r.response ≡ error m) × (r.state ≡ s) × (r.file ≡ file) × (r.sent ≡ [])

  -- The keys in memory are those that the password unlocks, and the entries those on disk.
  abbrev pub Opened : Unlocked → Type 0
  Opened r =
      (email : String) × (db : Db) × (identity : Identity) × (keys : Keys) × (org_keys : OrgKeys)
      × (cfg ≡ has_email email)
      × (loaded ≡ inr db)
      × (has_account db ≡ true)
      × (identity_of c k lower email password (with_keyring tokens db) ≡ ok identity)
      × (unlock_from_keys c identity.keys (key_or (with_keyring tokens db).protected_key)
            (with_keyring tokens db).protected_private_key
            (with_keyring tokens db).protected_org_keys
          ≡ ok (keys, org_keys))
      × (r.response ≡ ack)
      × (r.state.keys ≡ some keys)
      × (entries_of r.state.db ≡ db.entries)

  abbrev Ends : Outcome Unlocked → Type 0
  Ends (ok r) = Denied r ⊎ Opened r
  Ends (err e) = Unit
  Ends panic = Unit

  -- After the commit the keys and the entries stay.
  abbrev Keeps : State → Outcome Unlocked → Type 0
  Keeps t (ok r) = (r.response ≡ ack) × SameVault r.state t
  Keeps t (err e) = Unit
  Keeps t panic = Unit

  noted-SameVault :
      (m : Option Message) (t u : State)
      → SameVault t u
      → SameVault (noted c k a p server nonce writes net file s m t) u
  noted-SameVault none t u h = h
  noted-SameVault (some m) t u h = h

  restored-Keeps :
      (email : Bytes) (keys : Keys) (t : State) (o : Outcome Restored)
      → restore_session c k a server email nonce writes t file net true keys ≡ o
      → Keeps t (restored_or_noted c k a p server nonce writes net file s o)
  restored-Keeps email keys t (ok r) h =
      let x = restore_session-InOrder c k a server email nonce writes t file net true keys r h in
      (
        refl,
        noted-SameVault r.reason r.state t
            (InOrder-SameVault c k a server email nonce writes t file net true keys r x),
      )
  restored-Keeps email keys t (err e) h = tt
  restored-Keeps email keys t panic h = tt

  rolled-Keeps :
      (t : State) (o : Outcome SessionFile)
      → Keeps t (rolled_forward c k a p server nonce writes net file s t o)
  rolled-Keeps t (ok f) = (refl, (refl, refl))
  rolled-Keeps t (err e) = tt
  rolled-Keeps t panic = tt

  after_commit-Keeps :
      (email : Bytes) (keys : Keys) (needs : Bool) (t : State)
      → Keeps t (after_commit c k a p server nonce writes net file s email keys needs t)
  after_commit-Keeps email keys true t = restored-Keeps email keys t _ refl
  after_commit-Keeps email keys false t = rolled-Keeps t _

  -- What is known once the account was found.
  abbrev Found : String → Db → Type 0
  Found email db = (cfg ≡ has_email email) × (loaded ≡ inr db) × (has_account db ≡ true)

  kept-Ends :
      (email : String) (db : Db) (identity : Identity) (keys : Keys) (org_keys : OrgKeys)
      (t : State) (o : Outcome Unlocked)
      → Found email db
      → identity_of c k lower email password (with_keyring tokens db) ≡ ok identity
      → unlock_from_keys c identity.keys
          (key_or (with_keyring tokens db).protected_key)
          (with_keyring tokens db).protected_private_key
          (with_keyring tokens db).protected_org_keys
        ≡ ok (keys, org_keys)
      → (t.keys ≡ some keys) × (entries_of t.db ≡ db.entries)
      → Keeps t o
      → Ends o
  kept-Ends email db identity keys org_keys t (ok r) f hi hu ht h =
      inr (
        email,
        db,
        identity,
        keys,
        org_keys,
        f.0,
        f.1,
        f.2,
        hi,
        hu,
        h.0,
        h.1.0 ∙ ht.0,
        h.1.1 ∙ ht.1,
      )
  kept-Ends email db identity keys org_keys t (err e) f hi hu ht h = tt
  kept-Ends email db identity keys org_keys t panic f hi hu ht h = tt

  committed-Ends :
      (email : String) (db : Db) (o : Outcome (Keys × OrgKeys))
      → Found email db
      → unlock_of c k lower email password (with_keyring tokens db) ≡ o
      → Ends (
          committed c k a p server nonce writes net file s
            (c.to_utf8 email)
            (with_keyring tokens db)
            o)
  unfolding unlock
  committed-Ends email db (ok (keys, org_keys)) f h =
      let db1 : Db = with_keyring tokens db in
      let i = >>=-eq-ok (identity_of c k lower email password db1) _ h in
      let r = unlock_commit p keys org_keys db1 s in
      let q = unlock_commit-IsCurrent p keys org_keys db1 s in
      kept-Ends email db i.0 keys org_keys r.1 _ f i.1 i.2
        (q.1, q.2 ∙ entries-with_keyring tokens db)
        (after_commit-Keeps (c.to_utf8 email) keys r.0 r.1)
  committed-Ends email db (err e) f h = inl (_, refl, refl, refl, refl)
  committed-Ends email db panic f h = tt

  identified-Ends :
      (email : String) (db : Db) (o : Outcome Identity)
      → Found email db
      → Ends (
          identified c k a p server nonce writes net file s lower email password
            (with_keyring tokens db)
            o)
  identified-Ends email db (ok identity) f =
      committed-Ends email db (unlock_of c k lower email password (with_keyring tokens db)) f refl
  identified-Ends email db (err e) f = inl (_, refl, refl, refl, refl)
  identified-Ends email db panic f = tt

  account-Ends :
      (email : String) (l : String ⊎ Db)
      → cfg ≡ has_email email
      → loaded ≡ l
      → Ends (account_unlocked c k a p server nonce writes net file s lower email password tokens l)
  account-Ends email (inl e) hc hl = inl (_, refl, refl, refl, refl)
  account-Ends email (inr db) hc hl = elim (Bool-cases (has_account db)) [
    | inl h ↦ rw h (identified-Ends email db _ (hc, hl, h))
    | inr h ↦ rw h (inl (_, refl, refl, refl, refl))
  ]

  config-Ends :
      (x : ConfigRead)
      → cfg ≡ x
      → Ends (handle_unlock c k a p server nonce writes net file s lower password tokens loaded x)
  unfolding handle_unlock
  config-Ends (unreadable e) h = inl (_, refl, refl, refl, refl)
  config-Ends no_email h = inl (_, refl, refl, refl, refl)
  config-Ends (has_email email) h = account-Ends email loaded h refl

  -- An unlock with the master password that returns either refuses, changes nothing and sends nothing; or the keys in
  -- memory are those that the password's own keys decrypt from the account on disk, whose entries are in memory too,
  -- whatever becomes of the session afterwards.
  pub handle_unlock_lem :
      (r : Unlocked)
      → handle_unlock c k a p server nonce writes net file s lower password tokens loaded cfg ≡ ok r
      → Denied r ⊎ Opened r
  handle_unlock_lem r h = subst Ends h (config-Ends cfg refl)
