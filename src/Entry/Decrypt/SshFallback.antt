-- ===== src/Entry/Decrypt/SshFallback.antt =====
-- The custom fields that stand in for a missing SSH key, against the fields that `set_field` writes.
use cosmic_bwarden.Base.{
  ℕ, ◌≤◌, suc, String, ◌≡◌, ◌≢◌, refl, Option, none, some, List, [], ◌∷◌, arith, ==_iff, string_eq,
  option_eq, if◌then◌else◌,
}
use cosmic_bwarden.Entry.{
  Entry, SshKey, ssh_key, Field, FieldType, Secret, is_named, set_in_fields, set_field,
}
use cosmic_bwarden.Entry.Decrypt.{last_value, ssh_fallback}

-- The number of fields of that name.
abbrev pub copies : String → List Field → ℕ
copies n [] = 0
copies n (f ∷ fs) = let k = copies n fs in if is_named n f then suc k else k

last_value-no_copies :
    (n : String) (o : Option Secret) (fs : List Field) → copies n fs ≤ 0 → last_value n o fs ≡ o
unfolding last_value
last_value-no_copies n o [] h = refl
last_value-no_copies n o (f ∷ fs) h = ground (arith, last_value-no_copies n o fs)

last_value-set_in_fields :
    (n : String) (v : Secret) (t : FieldType) (o : Option Secret) (fs : List Field)
    → copies n fs ≤ 1
    → last_value n o (set_in_fields n v t fs) ≡ some v
unfolding last_value set_in_fields
last_value-set_in_fields n v t o [] h = ground (arith, ==_iff n n)
last_value-set_in_fields n v t o (f ∷ fs) h =
    ground (arith, last_value-no_copies n (some v) fs, last_value-set_in_fields n v t o fs)

last_value-set_ne :
    (n m : String) (v : Secret) (t : FieldType) (o : Option Secret) (fs : List Field)
    → n ≢ m
    → last_value m o (set_in_fields n v t fs) ≡ last_value m o fs
unfolding last_value set_in_fields
last_value-set_ne n m v t o [] h = ground (arith, ==_iff n m)
last_value-set_ne n m v t o (f ∷ fs) h = ground (
  arith,
  last_value-set_ne n m v t (if is_named m f then f.value else o) fs h,
  ==_iff f.name (some n),
  ==_iff f.name (some m),
)

-- An SSH key whose data lost its private key reads it from the custom field that `set_field` wrote last, as long as
-- the entry had at most one field of that name.
pub ssh_fallback-set_field :
    (e : Entry) (s : SshKey) (v : Secret) (t : FieldType)
    → copies "private_key" e.fields ≤ 1
    → s.private_key ≡ none
    → ssh_fallback (set_field e "private_key" v t).fields (ssh_key s)
      ≡ ssh_fallback e.fields (ssh_key (record s { private_key = some v }))
unfolding ssh_fallback set_field
ssh_fallback-set_field e s v t h p = ground (
  arith,
  last_value-set_in_fields "private_key" v t none e.fields h,
  last_value-set_ne "private_key" "public_key" v t none e.fields,
  ==_iff {A = String} "private_key" "public_key",
)

-- With a second field of that name behind the first, the fallback reads the old value of the second instead.
pub ssh_fallback-stale :
    (e : Entry) (f g : Field) (v : Secret) (t : FieldType)
    → e.fields ≡ f ∷ g ∷ []
    → f.name ≡ some "private_key"
    → g.name ≡ some "private_key"
    → last_value "private_key" none (set_field e "private_key" v t).fields ≡ g.value
unfolding last_value set_field
ssh_fallback-stale e f g v t p hf hg =
    rw p (ground (arith, ==_iff f.name (some "private_key"), ==_iff g.name (some "private_key")))
