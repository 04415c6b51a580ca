-- ===== src/Redact/Restore.antt =====
-- An update built from a redacted read gets its secrets back.
use cosmic_bwarden.Base.{
  true, ◌≡◌, ◌≢◌, refl, none, some, List, [], ◌∷◌, map, find, arith, All, ==_iff, string_eq,
  option_eq,
}
use cosmic_bwarden.Entry.{Entry, EntryData, login, Field, is_hidden}
use cosmic_bwarden.Redact.{
  redact_entry_secrets, redact_data, redact_field, merge_redacted_secrets, merge_data, merge_field,
  is_twin,
}

-- Two fields are apart unless both are hidden and they share a name.
abbrev pub Apart : Field → Field → Type 0
Apart f g = is_hidden f ≡ true → is_hidden g ≡ true → f.name ≢ g.name

-- No two hidden fields share a name.
abbrev pub Distinct : List Field → Type 0
Distinct [] = Unit
Distinct (f ∷ fs) = All (Apart f) fs × Distinct fs

-- Every hidden field of the list is the one that is found under its name.
abbrev Own : List Field → List Field → Type 0
Own stored = All (λ f. is_hidden f ≡ true → find (is_twin f.name) stored ≡ some f)

Own-cons :
    (f : Field) (stored fs : List Field) → All (Apart f) fs → Own stored fs → Own (f ∷ stored) fs
Own-cons f stored [] a o = tt
Own-cons f stored (g ∷ fs) a o =
    (λ h. ground (arith, o.0 h, a.0, ==_iff f.name g.name), Own-cons f stored fs a.1 o.1)

Distinct-Own : (fs : List Field) → Distinct fs → Own fs fs
Distinct-Own [] d = tt
Distinct-Own (f ∷ fs) d =
    (λ h. ground (arith, ==_iff f.name f.name), Own-cons f fs fs d.0 (Distinct-Own fs d.1))

merge-redact_fields :
    (stored fs : List Field) → Own stored fs → map (merge_field stored) (map redact_field fs) ≡ fs
unfolding merge_field
merge-redact_fields stored [] o = refl
merge-redact_fields stored (f ∷ fs) o = ground (arith, merge-redact_fields stored fs o.1, o.0)

merge_fields_self : (stored fs : List Field) → Own stored fs → map (merge_field stored) fs ≡ fs
unfolding merge_field
merge_fields_self stored [] o = refl
merge_fields_self stored (f ∷ fs) o = ground (arith, merge_fields_self stored fs o.1, o.0)

merge-redact_data : (d : EntryData) → merge_data (redact_data d) d ≡ d
unfolding merge_data redact_data
merge-redact_data (login d) = refl
merge-redact_data _ = refl

merge_data_self : (d : EntryData) → merge_data d d ≡ d
unfolding merge_data
merge_data_self (login d) = ground arith
merge_data_self _ = ground arith

-- A client that sends back the redacted copy of a stored entry changes nothing but the note, which it clears:
-- the merge restores every other secret and the item key, provided that no two hidden fields share a name.
pub merge-redact :
    (e : Entry)
    → Distinct e.fields
    → merge_redacted_secrets (redact_entry_secrets e) e ≡ record e { notes = none }
unfolding merge_redacted_secrets redact_entry_secrets
merge-redact e d = ground (
  arith,
  merge-redact_data e.content,
  merge-redact_fields e.fields e.fields (Distinct-Own e.fields d),
)

-- Merging an entry with itself changes nothing, also where some of its secrets are blank, provided that no two
-- hidden fields share a name.
pub merge_self : (e : Entry) → Distinct e.fields → merge_redacted_secrets e e ≡ e
unfolding merge_redacted_secrets
merge_self e d = ground (
  arith,
  merge_data_self e.content,
  merge_fields_self e.fields e.fields (Distinct-Own e.fields d),
)

-- Two hidden fields of one name: the second comes back from a redacted read with the value of the first.
pub merge-redact_twins :
    (e : Entry) (f g : Field)
    → e.fields ≡ f ∷ g ∷ []
    → is_hidden f ≡ true
    → is_hidden g ≡ true
    → f.name ≡ g.name
    → (merge_redacted_secrets (redact_entry_secrets e) e).fields
      ≡ f ∷ record g { value = f.value } ∷ []
unfolding merge_redacted_secrets redact_entry_secrets merge_field
merge-redact_twins e f g p hf hg hn =
    rw p (ground (arith, ==_iff f.name f.name, ==_iff f.name g.name))
