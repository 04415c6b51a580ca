-- ===== src/Lib.antt =====
-- The core of Cosmic Bwarden, a Bitwarden client for the COSMIC desktop: the library crates/cosmarden-core and the agent
-- crates/cosmarden-agent, which holds the vault's keys and answers its clients (applet, window, command line, browser
-- host) over a socket.
--
-- The parts and the files that model them. Paths are from the repository's root.
--   Base, and Base/Tests, Base/Lists, Base/Strings: shared names, Boolean tests, list and text functions and their lemmas.
--   Crypto: the other crates' cryptography and Unicode as one record of functions, its documented laws, and the result type
--     of code that returns an error or panics (crates/cosmarden-core/src/error.rs).
--   CipherString: crates/cosmarden-core/src/cipherstring.rs and the key slices of locked.rs. Format is about parsing and
--     printing, Mac about authentication.
--   Entry: crates/cosmarden-core/src/db/models.rs. Fields is about custom fields, Decrypt is the decryption of a whole
--     entry, Decrypt/SshFallback its fallback for SSH keys.
--   Vault and Identity: vault.rs and identity.rs of the same crate, from a password to the vault's keys.
--   Domain: domain.rs of the same crate; Matching, Hosts and Links are about its three uses.
--   Envelope: session_envelope.rs of the same crate, the refresh token at rest.
--   Protocol: protocol.rs of the same crate, what the handlers and the clients exchange.
--   FieldAccess: field_access.rs of the same crate, the rows of the detail view.
--   State: crates/cosmarden-agent/src/state.rs, the agent's state; Cache rebuilds the decrypted rows, Locking is about
--     what a lock leaves.
--   Session: the critical sections of the handlers under crates/cosmarden-agent/src/handler and of timeout.rs, those that
--     do not decrypt in Requests. Steps is the relation of all of them and what is reachable by it, Consistent and Epoch
--     its invariants, Answers and Autolock what single sections do.
--   Query: crates/cosmarden-agent/src/handler/vault/query.rs, and Release the requests for one secret in mod.rs, ops.rs and
--     totp.rs beside it. Reprompt, Guard and Secrecy are about who gets a secret.
--   Redact: redaction in query.rs and its reversal in merge.rs.
--   BrowserSave: browser_save.rs beside it. SshList: crates/cosmarden-agent/src/ssh_agent/identities.rs.
--   Generator: crates/cosmarden-agent/src/handler/generator; Classes is about the passwords, History about the file.
--   Wire: the structs of crates/cosmarden-core/src/api/models/vault.rs; Read is what a sync makes of them.
--   Encrypt: the encryption of an entry in crates/cosmarden-agent/src/server/ops/update.rs; Add is add.rs beside it, with the
--     bodies of crates/cosmarden-core/src/api/client/ops.rs, Texts and Seal are about what can be read back.
--   Update: the request that replaces an entry. Saved and Added are about the whole way to the server and back.
--   Edit: what a client's edit sends, ops.rs and browser_save.rs of crates/cosmarden-agent/src/handler/vault; Unchanged is
--     about what it leaves alone.
--   Create: add.rs of crates/cosmarden-agent/src/handler/vault, the requests that add an entry; Kept is about what comes
--     back.
--   Restore: crates/cosmarden-agent/src/handler/auth/reauth.rs and session_store.rs, how an unlock gets a session; Order is
--     about the credentials that are tried, Persisted about the token on disk.
--   MasterPassword: unlock of vault.rs, and the handlers of the agent that take the master password, unlock.rs and
--     tpm_pin/setup.rs of handler/auth; Unlocks and Returns are about the one, Setup about the other.
--   Refresh: crates/cosmarden-agent/src/server/auth.rs, a request with a token that may have expired or not be there
--     yet. Attempts is about one request, Ends about its end, Exclusive about many at once with Tokens about one
--     section of one of them.
--   Pin: crates/cosmarden-agent/src/handler/auth/tpm_pin and seal and unseal of tpm/ops.rs; Sealed is about what a PIN
--     releases, Attempts about what an unlock needs and costs, Disabled about a PIN that is turned off or was not saved.
--   Examples: concrete inputs for the theorems.
--
-- How the code is read. A handler that holds the state's lock is a function of the state; where it gives the lock up,
-- for the server, its sections are functions, and the relation Step puts any order of them one after the other. What
-- the server, the disk, the keyring, the clock and the random generator answer is an argument. The handlers
-- `restore_session` and `handle_unlock` also give the lock up but are one function each, whose sections find the state
-- that the one before left; in Refresh the restore is three points of the machine, with any other handler between.
-- Errors are values; a panic of the source is the value `panic`. A HashMap is a list of pairs and a HashSet of ids a
-- list without duplicates, since no theorem depends on their order. Numbers are natural numbers; the lock epoch wraps
-- at 2 ^ 64 as in the source. All loops of the source that are modelled run over a list or down from a length, so no
-- fuel is needed. Every encryption has its own iv, a function of its place in the request, on which no theorem depends
-- but for its length. A request to the server is a machine whose events are the answers that it waits for; the state
-- may become any between two of them.
--
-- What the server does with an entry that is created or replaced is a record, of a function and of what it keeps: it is
-- assumed to accept every type of entry and to keep every field under the key that it is read with. The TPM is a record
-- of functions with the law that a sealed blob gives its data back.
--
-- Not modelled: the clients (applet, window, command line, tray, browser host and extension), the HTTP client and all
-- of its JSON but the keys of a URI, the keyring, the status requests of the TPM but for the flag that they set, the
-- rest of the login, signing with an SSH key, logging, and the locking and zeroizing of memory.
pub mod Base
pub mod Crypto
pub mod CipherString
pub mod Entry
pub mod Vault
pub mod Domain
pub mod Redact
pub mod Protocol
pub mod FieldAccess
pub mod State
pub mod Session
pub mod Identity
pub mod Query
pub mod Envelope
pub mod BrowserSave
pub mod SshList
pub mod Examples
pub mod Generator
pub mod Wire
pub mod Encrypt
pub mod Update
pub mod Edit
pub mod Refresh
pub mod Pin
pub mod Create
pub mod Restore
pub mod MasterPassword
