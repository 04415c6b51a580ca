-- ===== src/Base/Tests.antt =====
-- Conditionals, Boolean tests on native numbers, and case lemmas that keep the equation.
use Prim.Native.Nat.{ℕ, compare, Ordering}
use Prim.Native.String.{String}
use mathlib.Core.Path.{◌≡◌, refl}
use mathlib.Core.Logic.{◌↔◌, ◌⊎◌, inl, inr}
use mathlib.Core.Bool.{Bool, true, false}
use mathlib.Core.Option.{Option, none, some}
use mathlib.Core.List.{List, [], ◌∷◌}
use text.Mathlib.Text.{◌==◌ as string_beq}
use text.Mathlib.TextEquality.{eq_iff}
use native.Mathlib.Omega.{arith}

infix 1 if◌then◌else◌
abbrev pub if◌then◌else◌ {ℓ} : {A : Type ℓ} → Bool → A → A → A
if true then x else y = x
if false then x else y = y

abbrev pub ltb : ℕ → ℕ → Bool
ltb a b = elim (compare a b) [ Ordering.lt ↦ true | _ ↦ false ]

abbrev pub leb : ℕ → ℕ → Bool
leb a b = elim (compare a b) [ Ordering.gt ↦ false | _ ↦ true ]

abbrev nat_beq : ℕ → ℕ → Bool
nat_beq a b = elim (compare a b) [ Ordering.eq ↦ true | _ ↦ false ]

pub nat_beq_iff : (a b : ℕ) → (nat_beq a b ≡ true) ↔ (a ≡ b)
nat_beq_iff a b = ground arith

-- Rust's `PartialEq`, where the test decides equality.
pub record Eq {ℓ} (T : Type ℓ) : Type ℓ where
  pub is_equal : T → T → Bool
  pub is_equal_iff : (s t : T) → (is_equal s t ≡ true) ↔ (s ≡ t)

instance abbrev pub string_eq : Eq String
string_eq = record { is_equal = string_beq; is_equal_iff = eq_iff }

instance abbrev pub nat_eq : Eq ℕ
nat_eq = record { is_equal = nat_beq; is_equal_iff = nat_beq_iff }

infix 50 ◌==◌
abbrev pub ◌==◌ {ℓ} : {T : Type ℓ} ⦃test : Eq T⦄ → T → T → Bool
◌==◌ ⦃test⦄ = test.is_equal

pub ==_iff {ℓ} : {A : Type ℓ} ⦃test : Eq A⦄ (s t : A) → ((s == t) ≡ true) ↔ (s ≡ t)
==_iff ⦃test⦄ = test.is_equal_iff

pub beq_refl {ℓ} : {T : Type ℓ} ⦃test : Eq T⦄ (t : T) → (t == t) ≡ true
beq_refl ⦃test⦄ t = (test.is_equal_iff t t).1 refl

module _ {ℓ} {A : Type ℓ} ⦃e : Eq A⦄ where
  abbrev list_beq : List A → List A → Bool
  list_beq [] [] = true
  list_beq [] (y ∷ ys) = false
  list_beq (x ∷ xs) [] = false
  list_beq (x ∷ xs) (y ∷ ys) = if x == y then list_beq xs ys else false

  pub list_beq_iff : (xs ys : List A) → (list_beq xs ys ≡ true) ↔ (xs ≡ ys)
  list_beq_iff [] [] = ground arith
  list_beq_iff [] (y ∷ ys) = ground arith
  list_beq_iff (x ∷ xs) [] = ground arith
  list_beq_iff (x ∷ xs) (y ∷ ys) = ground (arith, e.is_equal_iff x y, list_beq_iff xs ys)

  instance abbrev pub list_eq : Eq (List A)
  list_eq = record { is_equal = list_beq; is_equal_iff = list_beq_iff }

  abbrev option_beq : Option A → Option A → Bool
  option_beq none none = true
  option_beq none (some b) = false
  option_beq (some a) none = false
  option_beq (some a) (some b) = a == b

  pub option_beq_iff : (o p : Option A) → (option_beq o p ≡ true) ↔ (o ≡ p)
  option_beq_iff none none = ground arith
  option_beq_iff none (some b) = ground arith
  option_beq_iff (some a) none = ground arith
  option_beq_iff (some a) (some b) = ground (arith, e.is_equal_iff a b)

  instance abbrev pub option_eq : Eq (Option A)
  option_eq = record { is_equal = option_beq; is_equal_iff = option_beq_iff }

-- To split on a computed value and keep the equation.
pub Bool-cases : (b : Bool) → (b ≡ true) ⊎ (b ≡ false)
Bool-cases true = inl refl
Bool-cases false = inr refl

pub Option-cases {ℓ} : {A : Type ℓ} (o : Option A) → (o ≡ none) ⊎ ((a : A) × (o ≡ some a))
Option-cases none = inl refl
Option-cases (some a) = inr (a, refl)
