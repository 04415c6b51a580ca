-- ===== src/Examples/Reads.antt =====
-- The read requests, the login match and the SSH list on the small vault.
use cosmic_bwarden.Base.{◌≡◌, refl, true, none, some, [], ◌∷◌, codes}
use cosmic_bwarden.Base.Strings.{split_once, after_last, trim, before_first}
use cosmic_bwarden.Crypto.{ok}
use cosmic_bwarden.CipherString.{Keys, new, decrypt_locked_symmetric, mac_key, enc_key}
use cosmic_bwarden.Entry.{Entry, master_password_reprompt}
use cosmic_bwarden.Entry.Decrypt.{decrypt}
use cosmic_bwarden.Vault.{unlock_from_keys}
use cosmic_bwarden.Identity.{new_identity}
use cosmic_bwarden.Protocol.{entry, password, totp}
use cosmic_bwarden.State.{Db}
use cosmic_bwarden.Session.{ConfigRead, has_email}
use cosmic_bwarden.Query.{
  handle_get_entry, handle_get_entries, handle_get_entry_meta, verify_reprompt, decrypt_entry,
}
use cosmic_bwarden.Query.Release.{handle_get_password, handle_get_totp, totp_of}
use cosmic_bwarden.Query.Secrecy.{reads-RevealsNoSecret, RevealsNoSecret}
use cosmic_bwarden.Query.Guard.{get_entry-IsAuthorised, get_totp-IsAuthorised, IsAuthorised}
use cosmic_bwarden.BrowserSave.{match_loop, match_of, entry_matches_domain}
use cosmic_bwarden.Domain.{host_from_uri, hosts_match}
use cosmic_bwarden.BrowserSave.Match.{match_loop_lem}
use cosmic_bwarden.Examples.Data.{
  crypto, kdf, platform, totp_library, zero_keys, guarded_login, opened,
}

abbrev config_of_ada : ConfigRead
config_of_ada = has_email "ada@example.com"

abbrev plain_login : Entry
plain_login = decrypt_entry platform zero_keys (some []) guarded_login

answered :
    handle_get_entry platform crypto kdf config_of_ada "a" (some "pw") opened
    ≡ ok (entry plain_login)
unfolding handle_get_entry verify_reprompt new_identity unlock_from_keys new
    decrypt_locked_symmetric mac_key enc_key master_password_reprompt
answered = refl

get_entry-IsAuthorised_example :
    (d : Db) × (keys : Keys) × (stored : Entry) × IsAuthorised platform crypto kdf config_of_ada "a"
      (some "pw")
      opened
      d
      keys
      stored
    × (plain_login ≡ decrypt_entry platform keys (some []) stored)
get_entry-IsAuthorised_example =
    get_entry-IsAuthorised platform crypto kdf config_of_ada "a" (some "pw") opened plain_login
      answered

password_answered :
    handle_get_password platform crypto kdf config_of_ada "a" (some "pw") opened
    ≡ ok (password "secret")
unfolding handle_get_password handle_get_entry verify_reprompt new_identity unlock_from_keys new
    decrypt_locked_symmetric mac_key enc_key decrypt master_password_reprompt
password_answered = refl

code_answered :
    handle_get_totp totp_library platform crypto kdf config_of_ada "a" (some "pw") opened
    ≡ ok (totp "123456")
unfolding handle_get_totp verify_reprompt new_identity unlock_from_keys new decrypt_locked_symmetric
    mac_key enc_key decrypt master_password_reprompt
code_answered = refl

get_totp-IsAuthorised_example :
    (d : Db) × (keys : Keys) × (stored : Entry) × IsAuthorised platform crypto kdf config_of_ada "a"
      (some "pw")
      opened
      d
      keys
      stored
    × (totp_of totp_library (decrypt_entry platform keys (some []) stored).content ≡ totp "123456")
get_totp-IsAuthorised_example =
    get_totp-IsAuthorised platform crypto kdf config_of_ada totp_library "a" (some "pw") opened
      "123456" code_answered

reads-RevealsNoSecret_example :
    RevealsNoSecret (handle_get_entries platform (some "exa") none true opened)
    × RevealsNoSecret (handle_get_entry_meta platform "a" opened)
reads-RevealsNoSecret_example = reads-RevealsNoSecret platform (some "exa") none true "a" opened

match_loop_lem_example :
    match_loop platform (codes "example.com") (codes "ada") "secret" none (guarded_login ∷ [])
    ≡ match_of guarded_login true
unfolding trim entry_matches_domain host_from_uri split_once after_last before_first hosts_match
match_loop_lem_example =
    match_loop_lem platform (codes "example.com") (codes "ada") "secret" (guarded_login ∷ [])
