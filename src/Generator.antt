-- ===== src/Generator.antt =====
-- crates/cosmarden-agent/src/handler/generator: the password generator (algorithm.rs) and the history of the last seven
-- days (storage.rs). The random choices are an argument; each draw has a number.
pub mod Classes
pub mod History
use cosmic_bwarden.Base.{
  ℕ, zero, suc, ◌+◌, ◌-◌, ◌*◌, String, Bool, true, false, not, ◌≡◌, Option, none, some, List, [],
  ◌∷◌, ◌++◌, length, any, all, retain, map, if◌then◌else◌, leb, ◌==◌, nat_eq, Text, codes,
}
use cosmic_bwarden.Crypto.{Crypto, Bytes, Outcome, ok, err, panic, ◌>>=◌, or_err, other}
use cosmic_bwarden.CipherString.{Keys, new, display, encrypt_symmetric, decrypt_symmetric}
use cosmic_bwarden.Identity.{in_range, ensure}
use cosmic_bwarden.Protocol.{GeneratorSettings}

-- `IndexedRandom::choose` and `SliceRandom::shuffle` of the crate rand.
pub record Rng : Type 0 where
  pub choose : ℕ → Text → Option ℕ
  pub shuffle : Text → Text

-- Is the character in the pool?
abbrev pub in_pool : ℕ → Text → Bool
in_pool ch pool = any (λ x. x == ch) pool

-- A choice from a slice that is not empty is one of its elements; shuffling keeps the length and the elements.
pub record RngLaws (r : Rng) : Type 0 where
  pub choose-member :
      (n x : ℕ) (xs : Text)
      → (ch : ℕ) × (r.choose n (x ∷ xs) ≡ some ch) × (in_pool ch (x ∷ xs) ≡ true)
  pub length-shuffle : (xs : Text) → ◌≡◌ {A = ℕ} (length (r.shuffle xs)) (length xs)
  pub any-shuffle : (f : ℕ → Bool) (xs : Text) → any f (r.shuffle xs) ≡ any f xs
  pub all-shuffle : (f : ℕ → Bool) (xs : Text) → all f (r.shuffle xs) ≡ all f xs

abbrev pub upper : Text
upper = codes "ABCDEFGHIJKLMNOPQRSTUVWXYZ"

abbrev pub lower : Text
lower = codes "abcdefghijklmnopqrstuvwxyz"

abbrev pub digits : Text
digits = codes "0123456789"

abbrev pub special : Text
special = codes "!@#$%^&*"

abbrev pub min_length : ℕ
min_length = 8

abbrev pub max_length : ℕ
max_length = 32

-- `if selected { pools.push(pool) }`
abbrev pub push_pool : Bool → Text → List Text → List Text
push_pool true pool pools = pool ∷ pools
push_pool false pool pools = pools

abbrev pub pools_of : GeneratorSettings → List Text
pools_of s =
    push_pool s.uppercase upper
      (push_pool s.lowercase lower (push_pool s.numbers digits (push_pool s.special special [])))

abbrev pub is_empty {ℓ} : {A : Type ℓ} → List A → Bool
is_empty [] = true
is_empty (x ∷ xs) = false

abbrev pub flatten : List Text → Text
flatten [] = []
flatten (x ∷ xs) = x ++ flatten xs

-- `.expect(..)`
abbrev pub expect {ℓ} : {A : Type ℓ} → Option A → Outcome A
expect none = panic
expect (some a) = ok a

module _ (r : Rng) where
  -- One character from each pool, with the draws from `n` on.
  abbrev pub choose_each : ℕ → List Text → Outcome Text
  choose_each n [] = ok []
  choose_each n (pool ∷ pools) = do
    ch ← expect (r.choose n pool)
    rest ← choose_each (suc n) pools
    ok (ch ∷ rest)

  -- The loop that pushes characters from the union until the length is reached: so many more.
  abbrev pub fill : ℕ → ℕ → Text → Outcome Text
  fill n zero union = ok []
  fill n (suc more) union = do
    ch ← expect (r.choose n union)
    rest ← fill (suc n) more union
    ok (ch ∷ rest)

  unfoldable pub generate_password : GeneratorSettings → Outcome Text
  generate_password s = do
    _ ← ensure (in_range min_length max_length s.length) (other "length must be between 8 and 32")
    let pools = pools_of s
    _ ← ensure (not (is_empty pools)) (other "select at least one character group")
    chars ← choose_each 0 pools
    rest ← fill (length chars) (s.length - length chars) (flatten pools)
    ok (r.shuffle (chars ++ rest))

-- An entry of the history file.
pub record StoredEntry : Type 0 where
  pub created_at : ℕ
  pub ciphertext : Text

abbrev pub history_ttl_secs : ℕ
history_ttl_secs = 7 * 24 * 60 * 60

unfoldable pub prune : ℕ → List StoredEntry → List StoredEntry
prune now entries = retain (λ e. leb (now - e.created_at) history_ttl_secs) entries

unfoldable pub delete_by_created_at : ℕ → List StoredEntry → List StoredEntry
delete_by_created_at created_at entries = retain (λ e. not (e.created_at == created_at)) entries

-- `append` on what the file holds: at the time of pruning and at the time of the new entry, with the iv of its
-- encryption.
unfoldable pub append :
    Crypto → Keys → ℕ → ℕ → Bytes → Bytes → List StoredEntry → Outcome (List StoredEntry)
unfolding prune
append c keys now later iv password entries = do
  cs ← encrypt_symmetric c iv keys password
  ok (prune now entries ++ record { created_at = later; ciphertext = display c cs } ∷ [])
