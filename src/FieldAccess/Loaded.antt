-- ===== src/FieldAccess/Loaded.antt =====
-- A row counts as loaded exactly when its copy button has something to copy; and a request's answer is understood.
use mathlib.Core.Bool.{or_assoc}
use cosmic_bwarden.Base.{
  String, Bool, true, false, ◌&&◌, ◌||◌, ◌≡◌, inl, inr, refl, Option, none, some, List, [], ◌∷◌,
  ◌==◌, string_eq, arith, ==_iff, Bool-cases, if◌then◌else◌,
}
use cosmic_bwarden.Entry.{
  Entry, EntryData, login, card, identity, secure_note, ssh_key, bank_account, drivers_license,
  passport, Field, Secret,
}
use cosmic_bwarden.Redact.{is_some}
use cosmic_bwarden.Protocol.{
  Response, entry, password, totp, SecretAction, get_password, get_totp, get_entry,
}
use cosmic_bwarden.FieldAccess.{
  secret_is_loaded, data_loaded, custom_loaded, arm, pick, field_plaintext, data_plaintext,
  custom_plaintext, on_demand_secret, parse_on_demand_response, parsed, password_payload,
  totp_payload, entry_payload, OnDemandPayload,
}

abbrev pub is_login : EntryData → Bool
is_login (login d) = true
is_login _ = false

custom_loaded-eq :
    (field : String) (fs : List Field)
    → custom_loaded field fs ≡ is_some (custom_plaintext field fs)
unfolding custom_plaintext
custom_loaded-eq field [] = refl
custom_loaded-eq field (f ∷ fs) = ground (arith, custom_loaded-eq field fs)

pub is_some-pick :
    (field key : String) (o : Option Secret) (later : Option String)
    → is_some (pick field key o later) ≡ (arm field key o || is_some later)
is_some-pick field key none later = ground arith
is_some-pick field key (some v) later = ground arith

data_loaded-eq :
    (d : EntryData) (field : String) (o : Option String)
    → data_loaded d field (is_some o)
      ≡ (if is_login d && field == "TOTP" then false else is_some (data_plaintext d field o))
unfolding data_loaded data_plaintext
data_loaded-eq (login d) field o =
    ground
      (arith, ==_iff field "Password", ==_iff field "TOTP", ==_iff {A = String} "Password" "TOTP")
data_loaded-eq (card d) field o = simp (is_some-pick, or_assoc)
data_loaded-eq (identity d) field o = simp (is_some-pick, or_assoc)
data_loaded-eq secure_note field o = ground arith
data_loaded-eq (ssh_key d) field o = simp (is_some-pick, or_assoc)
data_loaded-eq (bank_account d) field o = simp (is_some-pick, or_assoc)
data_loaded-eq (drivers_license d) field o = simp (is_some-pick, or_assoc)
data_loaded-eq (passport d) field o = simp (is_some-pick, or_assoc)

-- A row is loaded exactly when there is a plaintext to copy for it, in every type of entry, for the notes, the secret
-- slots and the custom fields; the TOTP row of a login is never loaded, since its code is fetched anew.
pub loaded-plaintext :
    (e : Entry) (field : String)
    → secret_is_loaded e field
      ≡ (if is_login e.content && field == "TOTP" then false else is_some (field_plaintext e field))
unfolding secret_is_loaded field_plaintext
loaded-plaintext e field = ground (
  arith,
  custom_loaded-eq field e.fields,
  data_loaded-eq e.content field (custom_plaintext field e.fields),
  ==_iff field "Notes",
  ==_iff field "TOTP",
  ==_iff {A = String} "Notes" "TOTP",
)

-- What the agent answers to a request for a secret when it grants it, given the secrets of the entry.
abbrev pub Grants : SecretAction → Response → Type 0
Grants (get_password id p) r = (s : Secret) × (r ≡ password s)
Grants (get_totp id p) r = (s : Secret) × (r ≡ totp s)
Grants (get_entry id p) r = (e : Entry) × (r ≡ entry e)

-- A granted request is never met with the error for an unexpected response: the answer to the request that a row makes
-- is parsed for that row.
pub parse-granted :
    (field id : String) (reprompt : Option String) (r : Response)
    → Grants (on_demand_secret field id reprompt) r
    → (p : OnDemandPayload) × (parse_on_demand_response field r ≡ parsed p)
unfolding on_demand_secret parse_on_demand_response
parse-granted field id reprompt r g = elim (Bool-cases (field == "Password")) [
  | inl e ↦
      let g' : (s : Secret) × (r ≡ password s) = rw e at g in
      (password_payload g'.0, rw g'.1 (rw e))
  | inr e ↦ elim (Bool-cases (field == "TOTP")) [
    | inl t ↦
        let g' : (s : Secret) × (r ≡ totp s) = rw (e, t) at g in (totp_payload g'.0, rw g'.1 (rw t))
    | inr t ↦
        let g' : (x : Entry) × (r ≡ entry x) = rw (e, t) at g in
        (entry_payload g'.0, rw g'.1 (rw (e, t)))
  ]
]
