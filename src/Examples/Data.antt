-- ===== src/Examples/Data.antt =====
-- Concrete functions in place of the other crates, and a small vault. The cryptography is of no use but obeys the laws.
use cosmic_bwarden.Base.{
  ℕ, ◌+◌, ◌-◌, true, false, ◌≡◌, refl, ap, Option, none, some, [], ◌∷◌, ◌++◌, Text, codes, length,
  drop, sym, inr, ==_iff, arith, length-append, nat_eq,
}
use cosmic_bwarden.Base.Strings.{Without}
use cosmic_bwarden.Crypto.{Bytes, Crypto, CryptoLaws}
use cosmic_bwarden.CipherString.{Keys}
use cosmic_bwarden.Entry.{Entry, login, Field, hidden, password_reprompt}
use cosmic_bwarden.Domain.{Names}
use cosmic_bwarden.State.{
  State, Db, Platform, new_state, pbkdf2, session_unlocked, Subscriber, CachedSshIdentity,
}
use cosmic_bwarden.Identity.{Kdf}
use cosmic_bwarden.Envelope.{Aead, AeadLaws}
use cosmic_bwarden.Generator.{Rng, RngLaws}
use cosmic_bwarden.Query.Release.{TotpLibrary}

-- 32 and 16 times the same byte
abbrev pub times32 : ℕ → Bytes
times32 n =
    n ∷ n ∷ n ∷ n ∷ n ∷ n ∷ n ∷ n ∷ n ∷ n ∷ n ∷ n ∷ n ∷ n ∷ n ∷ n ∷ n ∷ n ∷ n ∷ n ∷ n ∷ n ∷ n ∷ n
    ∷ n ∷ n ∷ n ∷ n ∷ n ∷ n ∷ n ∷ n ∷ []

abbrev pub times16 : ℕ → Bytes
times16 n = n ∷ n ∷ n ∷ n ∷ n ∷ n ∷ n ∷ n ∷ n ∷ n ∷ n ∷ n ∷ n ∷ n ∷ n ∷ n ∷ []

abbrev pub sum : Bytes → ℕ
sum [] = 0
sum (x ∷ xs) = x + sum xs

abbrev pub shift_up : Bytes → Text
shift_up [] = []
shift_up (x ∷ xs) = (x + 200) ∷ shift_up xs

abbrev pub shift_down : Text → Bytes
shift_down [] = []
shift_down (x ∷ xs) = (x - 200) ∷ shift_down xs

abbrev pub crypto : Crypto
crypto = record {
  base64_encode = shift_up;
  base64_decode = λ t. some (shift_down t);
  hmac_sha256 = λ k m. times32 (sum k + sum m);
  cbc_encrypt = λ k iv p. p;
  cbc_decrypt = λ k iv p. some p;
  cbc_decrypt_in_place = λ k iv p. p;
  is_pkcs8 = λ p. true;
  rsa_oaep_decrypt = λ k p. some p;
  from_utf8 = λ b. some "text";
  to_utf8 = codes;
  to_string = λ t. "text";
}

shift_down-up : (b : Bytes) → shift_down (shift_up b) ≡ b
shift_down-up [] = refl
shift_down-up (x ∷ xs) = ground (arith, shift_down-up xs)

up_no_dot : (b : Bytes) → Without b'.' (shift_up b)
up_no_dot [] = tt
up_no_dot (x ∷ xs) = (λ h. omega arith, up_no_dot xs)

up_no_bar : (b : Bytes) → Without b'|' (shift_up b)
up_no_bar [] = tt
up_no_bar (x ∷ xs) = (λ h. omega arith, up_no_bar xs)

pub crypto_laws : CryptoLaws crypto
crypto_laws = record {
  decode-encode = λ b. ap some (shift_down-up b);
  encode-no-dot = up_no_dot;
  encode-no-bar = up_no_bar;
  length-hmac = λ k m. refl;
  decrypt-encrypt = λ k iv p hk hi. refl;
}

abbrev pub aead : Aead
aead = record {
  encrypt = λ key nonce aad msg. some (times16 0 ++ msg);
  decrypt = λ key nonce aad ct. some (drop 16 ct);
}

some_inj : {x y : Bytes} → some x ≡ some y → x ≡ y
some_inj h = cc

tagged :
    (msg ct : Bytes) → some (times16 0 ++ msg) ≡ some ct → ◌≡◌ {A = ℕ} (length ct) (length msg + 16)
tagged msg ct h = rw (← some_inj h) (omega (arith, length-append (times16 0) msg))

pub aead_laws : AeadLaws aead
aead_laws = record {
  decrypt-encrypt = λ key nonce aad msg ct h. ap (λ b. some (drop 16 b)) (sym (some_inj h));
  length-encrypt = λ key nonce aad msg ct h. tagged msg ct h;
}

abbrev pub first_of : Text → Option ℕ
first_of [] = none
first_of (x ∷ xs) = some x

-- Always the first of the pool, and no shuffling.
abbrev pub rng : Rng
rng = record { choose = λ n pool. first_of pool; shuffle = λ t. t }

pub rng_laws : RngLaws rng
rng_laws = record {
  choose-member = λ n x xs. (x, refl, ground (arith, ==_iff x x));
  length-shuffle = λ xs. refl;
  any-shuffle = λ f xs. refl;
  all-shuffle = λ f xs. refl;
}

abbrev pub kdf : Kdf
kdf = record {
  pbkdf2_hmac_sha256 = λ password salt iterations n. some (times32 0);
  sha256 = λ b. times32 0;
  argon2_into = λ memory iterations lanes password salt. some (times32 0);
  hkdf_expand = λ prk label n. some (times32 0);
}

abbrev pub names : Names
names = record {
  to_lowercase = λ t. t;
  is_ip_addr = λ t. false;
  public_suffix_list = false;
  psl_domain = λ t. none;
}

-- Every text is its own ciphertext.
abbrev pub platform : Platform
platform = record {
  names = names;
  vault_decrypt = λ s keys entry_key. some s;
  parse_public_key = λ s. some s;
}

abbrev pub totp_library : TotpLibrary
totp_library = record {
  Generator = Text;
  from_url_unchecked = λ t. inr t;
  decode_base32 = λ t. inr t;
  new_unchecked = λ key. key;
  generate_current = λ g. inr "123456";
  to_uppercase = λ t. t;
}

abbrev pub zero_keys : Keys
zero_keys = record { bytes = times32 0 ++ times32 0 }

abbrev pub hidden_field : Field
hidden_field = record {
  ty = some hidden;
  name = some "recovery";
  value = some "word";
  linked_id = none;
}

-- A login that asks for the master password.
abbrev pub guarded_login : Entry
guarded_login = record {
  id = "a";
  org_id = none;
  folder = none;
  folder_id = none;
  name = "example.com";
  favorite = true;
  content = login (record {
    username = some "ada";
    password = some "secret";
    totp = some "seed";
    uris = record { uri = "https://example.com/login"; match_type = none } ∷ [];
  });
  fields = hidden_field ∷ [];
  notes = some "note";
  history = [];
  key = none;
  reprompt = password_reprompt;
}

-- Its protected key decrypts under the keys of zeros: sixteen characters of iv, one of ciphertext, 32 of MAC.
abbrev pub db : Db
db = record {
  access_token = some "access";
  refresh_token = some "refresh";
  kdf = some pbkdf2;
  iterations = some 600000;
  memory = none;
  parallelism = none;
  protected_key = some "2.aaaaaaaaaaaaaaaa|b|cccccccccccccccccccccccccccccccc";
  protected_private_key = none;
  protected_org_keys = [];
  entries = guarded_login ∷ [];
}

abbrev pub subscriber : Subscriber
subscriber = record { is_open = true; received = [] }

-- Logged out, with a subscriber whose receiver is there and one whose receiver is gone.
abbrev pub watched : State
watched = record (new_state 7) {
  subscribers = subscriber ∷ record { is_open = false; received = [] } ∷ [];
}

abbrev pub identity_key : CachedSshIdentity
identity_key = record { pubkey = "ssh-ed25519 AAAA"; comment = "laptop" }

-- An unlocked vault.
abbrev pub opened : State
opened = record watched {
  keys = some zero_keys;
  org_keys = some [];
  db = some db;
  session = session_unlocked;
  ssh_identity_cache = identity_key ∷ [];
}
