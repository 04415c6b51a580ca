-- ===== src/MasterPassword/Setup.antt =====
-- The two ways to set a PIN up come to the same.
use cosmic_bwarden.Base.{String, Bool, true, some, ◌≡◌, refl, inr, Text}
use cosmic_bwarden.Crypto.{Bytes, Crypto, ok, >>=-eq-ok}
use cosmic_bwarden.CipherString.{Keys, locked_vec}
use cosmic_bwarden.Entry.Decrypt.{OrgKeys}
use cosmic_bwarden.Identity.{Kdf}
use cosmic_bwarden.State.{State, Db, has_account}
use cosmic_bwarden.Session.{has_email}
use cosmic_bwarden.Pin.{Tpm, Disk, setup_from_unlocked}
use cosmic_bwarden.MasterPassword.{identity_of, unlock_of, unlock, setup_tpm_pin}

-- A master password that fits into the locked buffer and opens the account's keys sets up the same PIN as the vault does
-- that is unlocked with these keys, with the same answer and the same effect on the disk and on the state: if the email
-- is configured and the account is on disk.
pub setup-same :
    (c : Crypto) (k : Kdf) (lower : Text → Text) (t : Tpm) (saves : Bool) (pin : Text) (disk : Disk)
    (s : State) (email : String) (password : Bytes) (db : Db) (keys : Keys) (org_keys : OrgKeys)
    → locked_vec password ≡ ok password
    → has_account db ≡ true
    → unlock_of c k lower email password db ≡ ok (keys, org_keys)
    → s.keys ≡ some keys
    → setup_tpm_pin c k lower t saves pin disk s password (inr db) (has_email email)
      ≡ setup_from_unlocked t saves pin (has_email email) disk s
unfolding setup_tpm_pin setup_from_unlocked unlock
setup-same c k lower t saves pin disk s email password db keys org_keys hl ha hu hs =
    let i = >>=-eq-ok (identity_of c k lower email password db) _ hu in
    rw (ha, hl, i.1, i.2, hs) refl
