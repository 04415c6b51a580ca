-- ===== src/Generator/Classes.antt =====
-- The generator's promises: the length that was asked for, only selected characters, and one of each selected class.
use cosmic_bwarden.Base.{
  ℕ, zero, suc, ◌+◌, ◌-◌, ◌≤◌, Bool, true, false, ◌||◌, ◌&&◌, ◌≡◌, refl, ap, ◌∙◌, List, [], ◌∷◌,
  ◌++◌, length, any, all, arith, All, length-append, nat_eq, Text,
}
use cosmic_bwarden.Crypto.{ok, err, other}
use cosmic_bwarden.Identity.{in_range}
use cosmic_bwarden.Protocol.{GeneratorSettings}
use cosmic_bwarden.Generator.{
  Rng, RngLaws, in_pool, pools_of, push_pool, flatten, expect, choose_each, fill, generate_password,
  is_empty, upper, lower, digits, special, min_length, max_length,
}

-- The pool has an element.
abbrev IsPool : Text → Type 0
IsPool pool = is_empty pool ≡ false

abbrev pub HasOneOf : Text → Text → Type 0
HasOneOf pool chars = any (λ ch. in_pool ch pool) chars ≡ true

abbrev pub AreIn : Text → Text → Type 0
AreIn union chars = all (λ ch. in_pool ch union) chars ≡ true

in_pool-append : (ch : ℕ) (xs ys : Text) → in_pool ch (xs ++ ys) ≡ (in_pool ch xs || in_pool ch ys)
in_pool-append ch [] ys = refl
in_pool-append ch (x ∷ xs) ys = ground (arith, in_pool-append ch xs ys)

any-append : (f : ℕ → Bool) (xs ys : Text) → any f (xs ++ ys) ≡ (any f xs || any f ys)
any-append f [] ys = refl
any-append f (x ∷ xs) ys = ground (arith, any-append f xs ys)

all-append : (f : ℕ → Bool) (xs ys : Text) → all f (xs ++ ys) ≡ (all f xs && all f ys)
all-append f [] ys = refl
all-append f (x ∷ xs) ys = ground (arith, all-append f xs ys)

-- A larger union has the characters too.
AreIn-right : (pool union chars : Text) → AreIn union chars → AreIn (pool ++ union) chars
AreIn-right pool union [] h = refl
AreIn-right pool union (x ∷ xs) h =
    ground (arith, in_pool-append x pool union, AreIn-right pool union xs, h)

All-weaken :
    (pools : List Text) (ch : ℕ) (chars : Text)
    → All (λ q. HasOneOf q chars) pools
    → All (λ q. HasOneOf q (ch ∷ chars)) pools
All-weaken [] ch chars h = tt
All-weaken (q ∷ qs) ch chars h = (ground (arith, h.0), All-weaken qs ch chars h.1)

module _ (r : Rng) (laws : RngLaws r) where
  choose_member :
      (n : ℕ) (pool : Text)
      → IsPool pool
      → (ch : ℕ) × (expect (r.choose n pool) ≡ ok ch) × (in_pool ch pool ≡ true)
  choose_member n [] h = ground arith
  choose_member n (x ∷ xs) h = let m = laws.choose-member n x xs in (m.0, ap expect m.1, m.2)

  choose_each-ok :
      (n : ℕ) (pools : List Text)
      → All IsPool pools
      → (chars : Text) × (choose_each r n pools ≡ ok chars)
        × (length chars ≡ length pools)
        × AreIn (flatten pools) chars
        × All (λ q. HasOneOf q chars) pools
  choose_each-ok n [] h = ([], refl, refl, refl, tt)
  choose_each-ok n (pool ∷ pools) h =
      let m = choose_member n pool h.0 in
      let c = choose_each-ok (suc n) pools h.1 in
      (
        m.0 ∷ c.0,
        rw (m.1, c.1) refl,
        ap suc c.2,
        ground (
          arith,
          in_pool-append m.0 pool (flatten pools),
          AreIn-right pool (flatten pools) c.0 c.3,
          m.2,
        ),
        (ground (arith, m.2), All-weaken pools m.0 c.0 c.4),
      )

  fill-ok :
      (n more : ℕ) (union : Text)
      → IsPool union
      → (chars : Text) × (fill r n more union ≡ ok chars)
        × (length chars ≡ more)
        × AreIn union chars
  fill-ok n zero union h = ([], refl, refl, refl)
  fill-ok n (suc more) union h =
      let m = choose_member n union h in
      let c = fill-ok (suc n) more union h in
      (m.0 ∷ c.0, rw (m.1, c.1) refl, ap suc c.2, ground (arith, m.2, c.3))

push-IsPool :
    (b : Bool) (pool : Text) (pools : List Text)
    → IsPool pool
    → All IsPool pools
    → All IsPool (push_pool b pool pools)
push-IsPool true pool pools h t = (h, t)
push-IsPool false pool pools h t = t

length-push :
    (b : Bool) (pool : Text) (pools : List Text) (n : ℕ)
    → length pools ≤ n
    → length (push_pool b pool pools) ≤ suc n
length-push true pool pools n h = omega (arith, h)
length-push false pool pools n h = omega (arith, h)

pools-IsPool : (s : GeneratorSettings) → All IsPool (pools_of s)
pools-IsPool s = push-IsPool s.uppercase upper _ refl (
    push-IsPool s.lowercase lower _ refl
      (push-IsPool s.numbers digits _ refl (push-IsPool s.special special [] refl tt)))

length-pools : (s : GeneratorSettings) → length (pools_of s) ≤ 4
length-pools s = length-push s.uppercase upper _ 3 (
    length-push s.lowercase lower _ 2
      (length-push s.numbers digits _ 1 (length-push s.special special [] 0 (omega arith))))

flatten-IsPool :
    (pools : List Text) → is_empty pools ≡ false → All IsPool pools → IsPool (flatten pools)
flatten-IsPool [] e h = ground arith
flatten-IsPool ([] ∷ pools) e h = ground (arith, h.0)
flatten-IsPool ((x ∷ xs) ∷ pools) e h = refl

All-shuffled :
    (r : Rng) (laws : RngLaws r) (pools : List Text) (chars rest : Text)
    → All (λ q. HasOneOf q chars) pools
    → All (λ q. HasOneOf q (r.shuffle (chars ++ rest))) pools
All-shuffled r laws [] chars rest h = tt
All-shuffled r laws (q ∷ qs) chars rest h = (
  rw
      (
        laws.any-shuffle (λ ch. in_pool ch q) (chars ++ rest),
        any-append (λ ch. in_pool ch q) chars rest,
        h.0,
      )
      refl,
  All-shuffled r laws qs chars rest h.1,
)

add_up :
    (n : ℕ) {total each more pools : ℕ}
    → in_range min_length max_length n ≡ true
    → total ≡ each + more
    → each ≡ pools
    → more ≡ n - each
    → pools ≤ 4
    → total ≡ n
add_up n range t e m p = ground arith

-- With a length from 8 to 32 and at least one class selected, a password is generated: it has the length that was asked
-- for, only characters of the selected classes, and at least one of each selected class, whatever the random choices.
pub generate-HasClasses :
    (r : Rng) (laws : RngLaws r) (s : GeneratorSettings)
    → in_range min_length max_length s.length ≡ true
    → is_empty (pools_of s) ≡ false
    → (pw : Text) × (generate_password r s ≡ ok pw)
      × (length pw ≡ s.length)
      × AreIn (flatten (pools_of s)) pw
      × All (λ q. HasOneOf q pw) (pools_of s)
unfolding generate_password
generate-HasClasses r laws s range chosen =
    let pools = pools_of s in
    let each = choose_each-ok r laws 0 pools (pools-IsPool s) in
    let rest =
      fill-ok r laws (length each.0) (s.length - length each.0) (flatten pools)
        (flatten-IsPool pools chosen (pools-IsPool s)) in
    let few = length-pools s in
    let total = length-append each.0 rest.0 in
    (
      r.shuffle (each.0 ++ rest.0),
      rw (range, chosen, each.1, rest.1) refl,
      laws.length-shuffle (each.0 ++ rest.0) ∙ add_up s.length range total each.2 rest.2 few,
      rw
          (
            laws.all-shuffle (λ ch. in_pool ch (flatten pools)) (each.0 ++ rest.0),
            all-append (λ ch. in_pool ch (flatten pools)) each.0 rest.0,
            each.3,
            rest.3,
          )
          refl,
      All-shuffled r laws pools each.0 rest.0 each.4,
    )

-- A length outside of 8 to 32 is refused, and so is a selection without a class.
pub generate-refused :
    (r : Rng) (s : GeneratorSettings)
    → (in_range min_length max_length s.length ≡ false
        → generate_password r s ≡ err (other "length must be between 8 and 32"))
      × (in_range min_length max_length s.length ≡ true
          → is_empty (pools_of s) ≡ true
          → generate_password r s ≡ err (other "select at least one character group"))
unfolding generate_password
generate-refused r s = (λ h. rw h refl, λ h e. rw (h, e) refl)
