-- ===== src/Protocol.antt =====
-- crates/cosmarden-core/src/protocol.rs: the entry types, the events, the sidebar rows, and the requests and responses
-- of the handlers that are modelled. A formatted message is its fixed text and the cause or the error that follows it.
use cosmic_bwarden.Base.{ℕ, String, Bool, Option, List}
use cosmic_bwarden.Crypto.{Error}
use cosmic_bwarden.Entry.{Entry, Secret}

pub data EntryType : Type 0 where
  login card identity secure_note ssh_key bank_account drivers_license passport : EntryType

pub record SidebarEntry : Type 0 where
  pub id : String
  pub name : String
  pub username : Option String
  pub public_key : Option String
  pub entry_type : EntryType
  pub is_pinned : Bool

pub data Event : Type 0 where
  locked unlocked vault_changed unlock_requested pin_requested : Event
  open_entry : String → Event

pub record GeneratorSettings : Type 0 where
  pub uppercase : Bool
  pub lowercase : Bool
  pub numbers : Bool
  pub special : Bool
  pub length : ℕ

pub data Message : Type 0 where
  plain : String → Message
  because : String → String → Message
  failure : String → Error → Message

-- `Response::Config` without the configuration file's own contents.
pub record ConfigStatus : Type 0 where
  pub needs_login : Bool
  pub has_account : Bool
  pub is_locked : Bool
  pub sync_failed : Bool
  pub session_id : ℕ
  pub lock_epoch : ℕ

-- `LoginMatch`'s payload.
pub record LoginMatch : Type 0 where
  pub entry_id : Option String
  pub name : Option String
  pub password_matches : Bool

pub data Response : Type 0 where
  ack : Response
  error : Message → Response
  config : ConfigStatus → Response
  entries : List Entry → Response
  sidebar_entries : List SidebarEntry → Response
  entry : Entry → Response
  -- the redacted entry and the keys of its filled secrets
  entry_meta : Entry → List String → Response
  password : Secret → Response
  totp : Secret → Response
  login_match : LoginMatch → Response

-- The requests for one secret, with the password of a reprompt.
pub data SecretAction : Type 0 where
  get_password get_totp get_entry : String → Option String → SecretAction
