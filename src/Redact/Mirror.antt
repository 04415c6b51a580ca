-- ===== src/Redact/Mirror.antt =====
-- `filled_secret_keys` mirrors what `redact_entry_secrets` blanks.
use cosmic_bwarden.Base.{String, true, false, ◌≡◌, refl, none, List, [], ◌∷◌, ◌++◌, map, arith, All}
use cosmic_bwarden.Entry.{Entry, EntryData, login, Field, is_hidden}
use cosmic_bwarden.Redact.{
  redact_entry_secrets, redact_data, redact_field, filled_secret_keys, filled_data, filled_fields,
  is_some,
}

redact_data_idem : (d : EntryData) → redact_data (redact_data d) ≡ redact_data d
unfolding redact_data
redact_data_idem (login d) = refl
redact_data_idem _ = refl

redact_fields_idem :
    (fs : List Field) → map redact_field (map redact_field fs) ≡ map redact_field fs
redact_fields_idem [] = refl
redact_fields_idem (f ∷ fs) = ground (arith, redact_fields_idem fs)

-- Redacting twice is redacting once.
pub redact_idem :
    (e : Entry) → redact_entry_secrets (redact_entry_secrets e) ≡ redact_entry_secrets e
unfolding redact_entry_secrets
redact_idem e = ground (arith, redact_data_idem e.content, redact_fields_idem e.fields)

filled-redact_data : (d : EntryData) → filled_data (redact_data d) ≡ []
unfolding filled_data redact_data
filled-redact_data (login d) = refl
filled-redact_data _ = refl

filled-redact_fields : (fs : List Field) → filled_fields (map redact_field fs) ≡ []
unfolding filled_fields
filled-redact_fields [] = refl
filled-redact_fields (f ∷ fs) = ground (arith, filled-redact_fields fs)

-- After redaction no secret is filled: every slot, note or hidden field that would be reported is blanked.
pub filled-redact : (e : Entry) → filled_secret_keys (redact_entry_secrets e) ≡ []
unfolding filled_secret_keys redact_entry_secrets
filled-redact e = rw (filled-redact_data e.content, filled-redact_fields e.fields)

-- Every hidden field that holds a value has a name.
abbrev pub IsNamed : Field → Type 0
IsNamed f = f.name ≡ none → is_some f.value ≡ true → is_hidden f ≡ false

redact_data-of_no_filled : (d : EntryData) → filled_data d ≡ [] → redact_data d ≡ d
unfolding filled_data redact_data
redact_data-of_no_filled (login d) h = ground arith
redact_data-of_no_filled _ h = ground arith

redact_fields-of_no_filled :
    (fs : List Field) → All IsNamed fs → filled_fields fs ≡ [] → map redact_field fs ≡ fs
unfolding filled_fields
redact_fields-of_no_filled [] n h = refl
redact_fields-of_no_filled (f ∷ fs) n h = ground (arith, redact_fields-of_no_filled fs n.1, n.0)

append-eq-nil : (xs ys : List String) → xs ++ ys ≡ [] → (xs ≡ []) × (ys ≡ [])
append-eq-nil [] ys h = (refl, h)
append-eq-nil (x ∷ xs) ys h = cc

-- An entry for which no filled secret is reported has nothing to hide: redaction leaves it as it is, provided that
-- every hidden field with a value has a name.
pub redact-of_no_filled :
    (e : Entry) → All IsNamed e.fields → filled_secret_keys e ≡ [] → redact_entry_secrets e ≡ e
unfolding filled_secret_keys redact_entry_secrets
redact-of_no_filled e n h =
    let p = append-eq-nil (filled_data e.content) _ h in
    ground
      (arith, redact_data-of_no_filled e.content p.0, redact_fields-of_no_filled e.fields n, p.1)
