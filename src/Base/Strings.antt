-- ===== src/Base/Strings.antt =====
-- The operations of Rust's `str` that the program calls, over lists of code points.
use Prim.Native.Nat.{ℕ, ◌+◌, ◌-◌}
use mathlib.Core.Path.{◌≡◌, refl}
use mathlib.Core.Logic.{◌≢◌, inl, inr}
use mathlib.Core.Bool.{Bool, true, false, ◌&&◌, ◌||◌}
use mathlib.Core.List.{List, [], ◌∷◌, ◌++◌, reverse}
use mathlib.Core.Option.{Option, none, some}
use native.Mathlib.Omega.{arith}
use cosmic_bwarden.Base.Tests.{
  if◌then◌else◌, ◌==◌, nat_eq, list_eq, ==_iff, leb, beq_refl, Bool-cases,
}
use cosmic_bwarden.Base.Lists.{
  Text, All, length, take, drop, length-append, drop-append, take-append-drop,
}

-- Put a character in front of the first piece.
abbrev pub push_first : ℕ → List Text → List Text
push_first c [] = (c ∷ []) ∷ []
push_first c (w ∷ ws) = (c ∷ w) ∷ ws

-- `s.split(c)`: the pieces between the separators, at least one.
unfoldable pub split : ℕ → Text → List Text
split c [] = [] ∷ []
split c (x ∷ s) = let rest = split c s in if x == c then [] ∷ rest else push_first x rest

-- `s.split([..]).next()`: the text before the first character that meets `p`, or all of it.
unfoldable pub before_first : (ℕ → Bool) → Text → Text
before_first p [] = []
before_first p (x ∷ s) = if p x then [] else x ∷ before_first p s

unfoldable pub contains_char : ℕ → Text → Bool
contains_char c [] = false
contains_char c (x ∷ s) = x == c || contains_char c s

-- `s.rsplit(c).next()`: the text behind the last `c`, or all of it.
unfoldable pub after_last : ℕ → Text → Text
unfolding contains_char
after_last c [] = []
after_last c (x ∷ s) =
    let rest = after_last c s in if contains_char c s then rest else if x == c then s else x ∷ s

abbrev pub starts_with : Text → Text → Bool
starts_with s [] = true
starts_with [] (y ∷ t) = false
starts_with (x ∷ s) (y ∷ t) = if x == y then starts_with s t else false

-- `s.contains(t)`
unfoldable pub contains : Text → Text → Bool
contains [] t = starts_with [] t
contains (x ∷ s) t = starts_with (x ∷ s) t || contains s t

-- `s.strip_prefix(t).unwrap_or(s)`
abbrev pub strip_prefix : Text → Text → Text
strip_prefix t s = if starts_with s t then drop (length t) s else s

abbrev pub with_first : ℕ → Option (Text × Text) → Option (Text × Text)
with_first x none = none
with_first x (some (a, b)) = some (x ∷ a, b)

-- `s.split_once(t)`
unfoldable pub split_once : Text → Text → Option (Text × Text)
split_once [] t = if starts_with [] t then some ([], []) else none
split_once (x ∷ s) t =
    let later = with_first x (split_once s t) in
    if starts_with (x ∷ s) t then some ([], drop (length t) (x ∷ s)) else later

unfoldable pub ends_with : Text → Text → Bool
ends_with s t = leb (length t) (length s) && drop (length s - length t) s == t

-- Unicode's White_Space, by which `trim` goes.
unfoldable pub is_whitespace : ℕ → Bool
is_whitespace c =
    (leb 9 c && leb c 13)
    || c == 32
    || c == 0x85
    || c == 0xA0
    || c == 0x1680
    || (leb 0x2000 c && leb c 0x200A)
    || c == 0x2028
    || c == 0x2029
    || c == 0x202F
    || c == 0x205F
    || c == 0x3000

unfoldable pub trim_start : Text → Text
unfolding is_whitespace
trim_start [] = []
trim_start (x ∷ s) = if is_whitespace x then trim_start s else x ∷ s

unfoldable pub trim : Text → Text
unfolding trim_start
trim s = reverse (trim_start (reverse (trim_start s)))

-- `to_ascii_lowercase`, on which `eq_ignore_ascii_case` rests.
abbrev pub ascii_lower : ℕ → ℕ
ascii_lower c = if leb b'A' c && leb c b'Z' then c + 32 else c

unfoldable pub eq_ignore_ascii_case : Text → Text → Bool
eq_ignore_ascii_case [] [] = true
eq_ignore_ascii_case [] (y ∷ t) = false
eq_ignore_ascii_case (x ∷ s) [] = false
eq_ignore_ascii_case (x ∷ s) (y ∷ t) =
    let rest = eq_ignore_ascii_case s t in if ascii_lower x == ascii_lower y then rest else false

-- A text without the character `c`.
abbrev pub Without : ℕ → Text → Type 0
Without c = All (λ x. x ≢ c)

pub split-Without : (c : ℕ) (s : Text) → Without c s → split c s ≡ s ∷ []
unfolding split
split-Without c [] h = refl
split-Without c (x ∷ s) h = ground (arith, split-Without c s h.1, ==_iff x c, h.0)

-- The piece before a separator is split off.
pub split-append : (c : ℕ) (s t : Text) → Without c s → split c (s ++ c ∷ t) ≡ s ∷ split c t
unfolding split
split-append c [] t h = ground (arith, ==_iff c c)
split-append c (x ∷ s) t h = ground (arith, split-append c s t h.1, ==_iff x c, h.0)

pub before_first-All : (p : ℕ → Bool) (s : Text) → All (λ x. p x ≡ false) (before_first p s)
unfolding before_first
before_first-All p [] = tt
before_first-All p (x ∷ s) = elim (Bool-cases (p x)) [
  | inl e ↦ rw e tt
  | inr e ↦ rw e (e, before_first-All p s)
]

pub contains_char-false : (c : ℕ) (s : Text) → contains_char c s ≡ false → Without c s
unfolding contains_char
contains_char-false c [] h = tt
contains_char-false c (x ∷ s) h =
    (ground (arith, ==_iff x c), contains_char-false c s (ground arith))

pub after_last-Without : (c : ℕ) (s : Text) → Without c (after_last c s)
unfolding after_last
after_last-Without c [] = tt
after_last-Without c (x ∷ s) = elim (Bool-cases (contains_char c s)) [
  | inl e ↦ rw e (after_last-Without c s)
  | inr e ↦ rw e (elim (Bool-cases (x == c)) [
    | inl q ↦ rw q (contains_char-false c s e)
    | inr q ↦ rw q (ground (arith, ==_iff x c), contains_char-false c s e)
  ])
]

pub ends_with-append : (s t : Text) → ends_with (s ++ t) t ≡ true
unfolding ends_with
ends_with-append s t =
    let e : length (s ++ t) - length t ≡ length s = omega (arith, length-append s t) in
    rw (e, drop-append s t, beq_refl t) (ground (arith, length-append s t))

pub ends_with-eq : (s t : Text) → ends_with s t ≡ true → s ≡ take (length s - length t) s ++ t
unfolding ends_with
ends_with-eq s t h =
    let n : ℕ = length s - length t in ground (arith, take-append-drop n s, ==_iff (drop n s) t)

pub starts_with-eq : (s t : Text) → starts_with s t ≡ true → s ≡ t ++ drop (length t) s
starts_with-eq s [] h = refl
starts_with-eq [] (y ∷ t) h = cc
starts_with-eq (x ∷ s) (y ∷ t) h = ground (arith, starts_with-eq s t, ==_iff x y)

-- The parts of a `split_once` and the separator make the text up.
pub split_once-eq : (s t a b : Text) → split_once s t ≡ some (a, b) → s ≡ a ++ (t ++ b)
unfolding split_once
split_once-eq [] [] a b h = ground arith
split_once-eq [] (y ∷ t) a b h = cc
split_once-eq (x ∷ s) t a b h = elim (Bool-cases (starts_with (x ∷ s) t)) [
  | inl e ↦ ground (arith, starts_with-eq (x ∷ s) t)
  | inr e ↦ later e (split_once s t) refl (split_once-eq s t)
]
  where
    later :
        starts_with (x ∷ s) t ≡ false
        → (o : Option (Text × Text)) → split_once s t ≡ o
        → ((a' b' : Text) → split_once s t ≡ some (a', b') → s ≡ a' ++ (t ++ b'))
        → x ∷ s ≡ a ++ (t ++ b)
    later e none p ih = ground arith
    later e (some (a', b')) p ih = ground (arith, ih a' b')
