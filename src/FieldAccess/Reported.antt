-- ===== src/FieldAccess/Reported.antt =====
-- Every secret that a redacted read reports as filled can be fetched under the reported key.
use cosmic_bwarden.Base.{
  ◌⊎◌, inl, inr, Bool-cases, String, Bool, true, false, ◌&&◌, ◌≡◌, ◌≢◌, refl, ap, Option, none,
  some, List, [], ◌∷◌, ◌++◌, ◌==◌, string_eq, option_eq, arith, ==_iff, All, All-append,
  if◌then◌else◌,
}
use cosmic_bwarden.Entry.{
  Entry, EntryData, login, card, identity, secure_note, ssh_key, bank_account, drivers_license,
  passport, Field, is_hidden,
}
use cosmic_bwarden.Redact.{
  is_some, push_if, push_name, filled_secret_keys, filled_data, filled_fields,
}
use cosmic_bwarden.FieldAccess.{field_plaintext, data_plaintext, custom_plaintext, pick}

All-weaken :
    (P Q : String → Type 0) (xs : List String) → ((k : String) → P k → Q k) → All P xs → All Q xs
All-weaken P Q [] f h = tt
All-weaken P Q (x ∷ xs) f h = (f x h.0, All-weaken P Q xs f h.1)

-- The row `k` of the data is a slot of its own, and shows a value.
abbrev Shows : EntryData → String → Type 0
Shows d k =
    (k ≢ "Notes") × ((o : Option String) → k ≢ "TOTP" → is_some (data_plaintext d k o) ≡ true)

push :
    (d : EntryData) (o : Option String) (key : String) (later : List String)
    → (key == "Notes") ≡ false
    → ((p : Option String) → is_some o ≡ true → is_some (data_plaintext d key p) ≡ true)
    → All (Shows d) later
    → All (Shows d) (push_if o key later)
push d none key later n h l = l
push d (some v) key later n h l = ((ground (arith, ==_iff key "Notes"), λ p t. h p refl), l)

push_totp : (d : EntryData) (o : Option String) → All (Shows d) (push_if o "TOTP" [])
push_totp d none = tt
push_totp d (some v) =
    ((ground (arith, ==_iff {A = String} "TOTP" "Notes"), λ p t. absurd (t refl)), tt)

filled_data-Shows : (d : EntryData) → All (Shows d) (filled_data d)
unfolding filled_data data_plaintext
filled_data-Shows (login x) =
    push (login x) x.password "Password" _ refl (λ p h. ground arith) (push_totp (login x) x.totp)
filled_data-Shows (card x) =
    push (card x) x.number "Card Number" _ refl (λ p h. ground arith)
      (push (card x) x.code "Security Code" _ refl (λ p h. ground arith) tt)
filled_data-Shows (identity x) =
    push (identity x) x.ssn "SSN" _ refl (λ p h. ground arith)
      (push (identity x) x.license_number "License Number" _ refl (λ p h. ground arith)
        (push (identity x) x.passport_number "Passport Number" _ refl (λ p h. ground arith) tt))
filled_data-Shows (ssh_key x) =
    push (ssh_key x) x.private_key "Private Key" _ refl (λ p h. ground arith) tt
filled_data-Shows (bank_account x) =
    push (bank_account x) x.account_number "Account Number" _ refl (λ p h. ground arith)
      (push (bank_account x) x.routing_number "Routing Number" _ refl (λ p h. ground arith)
        (push (bank_account x) x.branch_number "Branch Number" _ refl (λ p h. ground arith)
          (push (bank_account x) x.pin "PIN" _ refl (λ p h. ground arith)
            (push (bank_account x) x.swift_code "SWIFT Code" _ refl (λ p h. ground arith)
              (push (bank_account x) x.iban "IBAN" _ refl (λ p h. ground arith) tt)))))
filled_data-Shows (drivers_license x) =
    push (drivers_license x) x.license_number "License Number" _ refl (λ p h. ground arith) tt
filled_data-Shows (passport x) =
    push (passport x) x.passport_number "Passport Number" _ refl (λ p h. ground arith)
      (push (passport x) x.national_identification_number "National Identification Number" _ refl
        (λ p h. ground arith)
        (push (passport x) x.date_of_birth "Date of Birth" _ refl (λ p h. ground arith) tt))
filled_data-Shows secure_note = tt

pick-some :
    (field key : String) (o later : Option String)
    → is_some later ≡ true
    → is_some (pick field key o later) ≡ true
pick-some field key none later h = h
pick-some field key (some v) later h = ground arith

data_plaintext-custom :
    (d : EntryData) (k : String) (o : Option String)
    → is_some o ≡ true
    → is_some (data_plaintext d k o) ≡ true
unfolding data_plaintext
data_plaintext-custom (login d) k o h = search pick-some depth 8
data_plaintext-custom _ k o h = search pick-some depth 8

filled_fields-named :
    (fs : List Field)
    → All (λ f. f.name ≢ some "Notes") fs
    → All (λ k. k ≢ "Notes") (filled_fields fs)
unfolding filled_fields
filled_fields-named [] n = tt
filled_fields-named (f ∷ fs) n =
    push_field (is_hidden f && is_some f.value) f.name n.0 (filled_fields-named fs n.1)
  where
    push_field :
        (b : Bool) (m : Option String)
        → m ≢ some "Notes"
        → All (λ k. k ≢ "Notes") (filled_fields fs)
        → All (λ k. k ≢ "Notes") (if b then push_name m (filled_fields fs) else filled_fields fs)
    push_field false m p l = l
    push_field true none p l = l
    push_field true (some m) p l = (λ q. p (ap some q), l)

filled_fields-custom :
    (fs : List Field) → All (λ k. is_some (custom_plaintext k fs) ≡ true) (filled_fields fs)
unfolding filled_fields custom_plaintext
filled_fields-custom [] = tt
filled_fields-custom (f ∷ fs) = push_field (is_hidden f && is_some f.value) f.name refl refl (
    All-weaken (λ k. is_some (custom_plaintext k fs) ≡ true) Q (filled_fields fs)
      (λ k h. ground arith) (filled_fields-custom fs))
  where
    Q : String → Type 0
    Q k = is_some (custom_plaintext k (f ∷ fs)) ≡ true

    push_field :
        (b : Bool) (n : Option String)
        → (is_hidden f && is_some f.value) ≡ b
        → f.name ≡ n
        → All Q (filled_fields fs)
        → All Q (if b then push_name n (filled_fields fs) else filled_fields fs)
    push_field false n e p l = l
    push_field true none e p l = l
    push_field true (some n) e p l = (ground (arith, ==_iff n n), l)

All-both :
    (P Q R : String → Type 0) (xs : List String)
    → ((k : String) → P k → Q k → R k)
    → All P xs
    → All Q xs
    → All R xs
All-both P Q R [] f p q = tt
All-both P Q R (x ∷ xs) f p q = (f x p.0 q.0, All-both P Q R xs f p.1 q.1)

All-notes :
    (P : String → Type 0) (o : Option String) (later : List String)
    → (is_some o ≡ true → P "Notes")
    → All P later
    → All P (push_if o "Notes" later)
All-notes P none later h l = l
All-notes P (some v) later h l = (h refl, l)

reported-or_totp :
    (e : Entry)
    → All (λ f. f.name ≢ some "Notes") e.fields
    → All (λ k. k ≢ "TOTP" → is_some (field_plaintext e k) ≡ true) (filled_secret_keys e)
unfolding filled_secret_keys field_plaintext
reported-or_totp e named =
    let Reads : String → Type 0 = λ k. k ≢ "TOTP" → is_some (field_plaintext e k) ≡ true in
    let custom = λ (k : String). custom_plaintext k e.fields in
    All-append Reads (filled_data e.content) _
      (All-weaken (Shows e.content) Reads (filled_data e.content)
        (λ k s t. ground (arith, ==_iff k "Notes", s.0, s.1 (custom k) t))
        (filled_data-Shows e.content))
      (All-notes Reads e.notes _ (λ h t. h)
        (All-both (λ k. k ≢ "Notes") (λ k. is_some (custom k) ≡ true) Reads (filled_fields e.fields)
          (λ k n h t.
            ground (arith, ==_iff k "Notes", data_plaintext-custom e.content k (custom k) h))
          (filled_fields-named e.fields named) (filled_fields-custom e.fields)))

totp_or :
    (e : Entry) (ks : List String)
    → All (λ k. k ≢ "TOTP" → is_some (field_plaintext e k) ≡ true) ks
    → All (λ k. (k ≡ "TOTP") ⊎ (is_some (field_plaintext e k) ≡ true)) ks
totp_or e [] h = tt
totp_or e (k ∷ ks) h = (
  elim (Bool-cases (k == "TOTP")) [
    | inl t ↦ inl ((==_iff k "TOTP").0 t)
    | inr t ↦ inr (h.0 (λ q. ground (arith, ==_iff k "TOTP")))
  ],
  totp_or e ks h.1,
)

-- A login's TOTP row apart, whose code the agent computes, every key that is reported as filled has a plaintext in the
-- full entry: in every type of entry, for the slots, the notes and the hidden fields, unless a custom field is itself
-- named `Notes`.
pub reported-plaintext :
    (e : Entry)
    → All (λ f. f.name ≢ some "Notes") e.fields
    → All (λ k. (k ≡ "TOTP") ⊎ (is_some (field_plaintext e k) ≡ true)) (filled_secret_keys e)
reported-plaintext e named = totp_or e (filled_secret_keys e) (reported-or_totp e named)

notes_name :
    (f : Field)
    → is_hidden f ≡ true
    → is_some f.value ≡ true
    → f.name ≡ some "Notes"
    → filled_fields (f ∷ []) ≡ "Notes" ∷ []
unfolding filled_fields
notes_name f h v m = rw (h, v, m)

-- A hidden field named `Notes` on an entry with no note is reported as filled, and has no plaintext to copy.
pub reported-notes_field :
    (e : Entry) (f : Field)
    → e.notes ≡ none
    → e.fields ≡ f ∷ []
    → is_hidden f ≡ true
    → is_some f.value ≡ true
    → f.name ≡ some "Notes"
    → (filled_secret_keys e ≡ filled_data e.content ++ "Notes" ∷ [])
      × (field_plaintext e "Notes" ≡ none)
unfolding filled_secret_keys field_plaintext
reported-notes_field e f n fs h v m =
    (rw (n, fs) (ap (λ xs. filled_data e.content ++ xs) (notes_name f h v m)), n)
