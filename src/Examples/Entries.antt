-- ===== src/Examples/Entries.antt =====
-- The entries, their redaction and the detail rows on small inputs.
use cosmic_bwarden.Base.{
  ◌≡◌, ◌≢◌, ◌≤◌, refl, String, none, some, [], ◌∷◌, string_eq, arith, All, ==_iff, nat_eq,
}
use cosmic_bwarden.Entry.{Entry, Field, hidden, SshKey, set_field}
use cosmic_bwarden.Entry.Decrypt.{last_value}
use cosmic_bwarden.Entry.Decrypt.SshFallback.{ssh_fallback-stale, copies}
use cosmic_bwarden.Redact.{redact_entry_secrets, filled_secret_keys, merge_redacted_secrets}
use cosmic_bwarden.Redact.Mirror.{filled-redact}
use cosmic_bwarden.Redact.Restore.{merge-redact_twins, Distinct}
use cosmic_bwarden.Protocol.{password}
use cosmic_bwarden.FieldAccess.{on_demand_secret, OnDemandPayload, parse_on_demand_response, parsed}
use cosmic_bwarden.FieldAccess.Loaded.{parse-granted, Grants}
use cosmic_bwarden.Examples.Data.{guarded_login, hidden_field}

filled-redact_example : filled_secret_keys (redact_entry_secrets guarded_login) ≡ []
filled-redact_example = filled-redact guarded_login

one_field : Distinct guarded_login.fields
one_field = (tt, tt)

abbrev second_field : Field
second_field = record hidden_field { value = some "other" }

abbrev twins : Entry
twins = record guarded_login { fields = hidden_field ∷ second_field ∷ [] }

merge-redact_twins_example :
    (merge_redacted_secrets (redact_entry_secrets twins) twins).fields
    ≡ hidden_field ∷ record second_field { value = some "word" } ∷ []
merge-redact_twins_example = merge-redact_twins twins hidden_field second_field refl refl refl refl

abbrev lost_key : SshKey
lost_key = record { private_key = none; public_key = none; fingerprint = none }

no_copies : copies "private_key" guarded_login.fields ≤ 1
no_copies = omega arith

abbrev old_key : Field
old_key = record {
  ty = some hidden;
  name = some "private_key";
  value = some "old";
  linked_id = none;
}

abbrev two_keys : Entry
two_keys = record guarded_login { fields = old_key ∷ old_key ∷ [] }

ssh_fallback-stale_example :
    last_value "private_key" none (set_field two_keys "private_key" "new" hidden).fields
    ≡ some "old"
ssh_fallback-stale_example = ssh_fallback-stale two_keys old_key old_key "new" hidden refl refl refl

granted : Grants (on_demand_secret "Password" "a" none) (password "secret")
unfolding on_demand_secret
granted = ("secret", refl)

parse-granted_example :
    (p : OnDemandPayload) × (parse_on_demand_response "Password" (password "secret") ≡ parsed p)
parse-granted_example = parse-granted "Password" "a" none (password "secret") granted

not_notes : All (λ f. f.name ≢ some "Notes") guarded_login.fields
not_notes = (ground (arith, ==_iff {A = String} "recovery" "Notes"), tt)
