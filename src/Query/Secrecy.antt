-- ===== src/Query/Secrecy.antt =====
-- The bulk and meta reads never give a secret away, and a locked agent answers nothing about its entries.
use cosmic_bwarden.Base.{
  String, Bool, not, ◌&&◌, ◌≡◌, Option, none, some, List, [], ◌∷◌, retain, All, Bool-cases, inl,
  inr, string_eq,
}
use cosmic_bwarden.CipherString.{Keys}
use cosmic_bwarden.Entry.{Entry}
use cosmic_bwarden.Entry.Decrypt.{OrgKeys}
use cosmic_bwarden.Redact.{filled_secret_keys}
use cosmic_bwarden.Redact.Mirror.{filled-redact}
use cosmic_bwarden.Protocol.{EntryType, Response, entries, entry_meta, error, sidebar_entries}
use cosmic_bwarden.State.{State, Db, Platform}
use cosmic_bwarden.Query.{
  handle_get_entries, handle_get_entry_meta, bulk, entry_found, agent_locked, when_unlocked,
  has_type, kind_of, decrypt_entry, meta_of, find_entry,
}

-- No secret slot of the entry is filled.
abbrev pub HasNoSecret : Entry → Type 0
HasNoSecret e = filled_secret_keys e ≡ []

-- What a response tells of the entries has no secret in it; a secret by itself is not among these answers.
abbrev pub RevealsNoSecret : Response → Type 0
RevealsNoSecret (entries es) = All HasNoSecret es
RevealsNoSecret (entry_meta e keys) = HasNoSecret e
RevealsNoSecret (sidebar_entries es) = Unit
RevealsNoSecret (error m) = Unit
RevealsNoSecret _ = ⊥

bulk-HasNoSecret :
    (p : Platform) (keys : Keys) (org_keys : Option OrgKeys) (t : Option EntryType) (pinned : Bool)
    (es : List Entry)
    → All HasNoSecret (bulk p keys org_keys t pinned es)
bulk-HasNoSecret p keys org_keys t pinned [] = tt
bulk-HasNoSecret p keys org_keys t pinned (e ∷ es) =
    elim (Bool-cases (not (pinned && not e.favorite) && has_type t (kind_of e.content))) [
      | inl h ↦ rw h (
        filled-redact (decrypt_entry p keys org_keys e),
        bulk-HasNoSecret p keys org_keys t pinned es,
      )
      | inr h ↦ rw h (bulk-HasNoSecret p keys org_keys t pinned es)
    ]

All-retain {ℓ} :
    {A : Type 0} (P : A → Type ℓ) (f : A → Bool) (xs : List A) → All P xs → All P (retain f xs)
All-retain P f [] h = tt
All-retain P f (x ∷ xs) h = elim (Bool-cases (f x)) [
  | inl e ↦ rw e (h.0, All-retain P f xs h.1)
  | inr e ↦ rw e (All-retain P f xs h.1)
]

entries-RevealsNoSecret :
    (p : Platform) (query : Option String) (t : Option EntryType) (pinned : Bool)
    (org_keys : Option OrgKeys) (db : Option Db) (keys : Option Keys)
    → RevealsNoSecret (
        when_unlocked p agent_locked db keys
          (λ d k. entries (retain (entry_found p query) (bulk p k org_keys t pinned d.entries))))
entries-RevealsNoSecret p query t pinned org_keys none keys = tt
entries-RevealsNoSecret p query t pinned org_keys (some db) none = tt
entries-RevealsNoSecret p query t pinned org_keys (some db) (some k) =
    All-retain HasNoSecret (entry_found p query) _
      (bulk-HasNoSecret p k org_keys t pinned db.entries)

meta-RevealsNoSecret :
    (p : Platform) (id : String) (org_keys : Option OrgKeys) (db : Option Db) (keys : Option Keys)
    → RevealsNoSecret
        (when_unlocked p agent_locked db keys (λ d k. meta_of p k org_keys (find_entry id d)))
meta-RevealsNoSecret p id org_keys none keys = tt
meta-RevealsNoSecret p id org_keys (some db) none = tt
meta-RevealsNoSecret p id org_keys (some db) (some k) = of_entry (find_entry id db)
  where
    of_entry : (o : Option Entry) → RevealsNoSecret (meta_of p k org_keys o)
    of_entry none = tt
    of_entry (some e) = filled-redact (decrypt_entry p k org_keys e)

-- Whatever is asked for and in whatever state, an answer to a bulk read or to a meta read has no filled secret in any
-- of its entries; these reads take no password, so that no reprompt could guard one.
pub reads-RevealsNoSecret :
    (p : Platform) (query : Option String) (t : Option EntryType) (pinned : Bool) (id : String)
    (s : State)
    → RevealsNoSecret (handle_get_entries p query t pinned s)
      × RevealsNoSecret (handle_get_entry_meta p id s)
unfolding handle_get_entries handle_get_entry_meta
reads-RevealsNoSecret p query t pinned id s = (
  entries-RevealsNoSecret p query t pinned s.org_keys s.db s.keys,
  meta-RevealsNoSecret p id s.org_keys s.db s.keys,
)
