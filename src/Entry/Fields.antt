-- ===== src/Entry/Fields.antt =====
-- The custom fields of an entry behave as an ordered map on their names.
use cosmic_bwarden.Base.{
  String, Option, none, some, List, [], ◌∷◌, find, retain, not, ◌==◌, ◌≡◌, if◌then◌else◌, arith,
  ==_iff, string_eq, option_eq,
}
use cosmic_bwarden.Entry.{
  Entry, Field, FieldType, Secret, is_named, new_field, set_in_fields, set_field, get_field,
  remove_field,
}

-- What `set_field` leaves under a name that had the field `o`.
abbrev pub overwritten : String → Secret → FieldType → Option Field → Field
overwritten n v t none = new_field n v t
overwritten n v t (some f) = record f { value = some v; ty = some t }

find-set_in_fields :
    (n m : String) (v : Secret) (t : FieldType) (fs : List Field)
    → find (is_named m) (set_in_fields n v t fs)
      ≡ (if n == m then some (overwritten n v t (find (is_named n) fs)) else find (is_named m) fs)
unfolding set_in_fields
find-set_in_fields n m v t [] = ground arith
find-set_in_fields n m v t (f ∷ fs) = ground (
  arith,
  find-set_in_fields n m v t fs,
  ==_iff n m,
  ==_iff f.name (some n),
  ==_iff f.name (some m),
)

-- Reading a field after `set_field n v t`: the name `n` has the value and the type that were set, and keeps the
-- `linked_id` of a field that was there; every other name reads as before.
pub get_field-set_field :
    (e : Entry) (n m : String) (v : Secret) (t : FieldType)
    → get_field (set_field e n v t) m
      ≡ (if n == m then some (overwritten n v t (get_field e n)) else get_field e m)
unfolding get_field set_field
get_field-set_field e n m v t = find-set_in_fields n m v t e.fields

find-retain :
    (n m : String) (fs : List Field)
    → find (is_named m) (retain (λ f. not (is_named n f)) fs)
      ≡ (if n == m then none else find (is_named m) fs)
find-retain n m [] = ground arith
find-retain n m (f ∷ fs) =
    ground (arith, find-retain n m fs, ==_iff n m, ==_iff f.name (some n), ==_iff f.name (some m))

-- After `remove_field n` no field is found under `n`, duplicates included, and every other name reads as before.
pub get_field-remove_field :
    (e : Entry) (n m : String)
    → get_field (remove_field e n) m ≡ (if n == m then none else get_field e m)
unfolding get_field remove_field
get_field-remove_field e n m = find-retain n m e.fields
