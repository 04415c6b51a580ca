-- ===== src/Examples/Ascii.antt =====
-- Another toy in place of the other crates: its base64 is written with two letters, and its texts are read as they are.
use Prim.Native.Nat.{compare, Ordering}
use Prim.Native.Char.{Char, char, code, nul, IsScalar}
use text.Mathlib.TextEquality.{Char-path}
use cosmic_bwarden.Base.{
  ℕ, zero, suc, ◌<◌, String, ◌≡◌, ◌≢◌, refl, ap, some, [], ◌∷◌, Text, codes, All, ◌==◌, nat_eq,
  if◌then◌else◌, arith,
}
use cosmic_bwarden.Crypto.{Bytes, Crypto, CryptoLaws}
use cosmic_bwarden.Encrypt.Texts.{TextLaws}
use cosmic_bwarden.Examples.Data.{crypto, times32}

below-IsScalar : (n : ℕ) → compare n 55296 ≡ Ordering.lt → IsScalar n
below-IsScalar n h = rw h tt

-- The character of a number, if it is one.
abbrev chr_by :
    (n : ℕ) (a b c : Ordering)
    → compare n 55296 ≡ a
    → compare 57343 n ≡ b
    → compare n 1114112 ≡ c
    → Char
chr_by n Ordering.lt b c p q r = char n (rw p tt)
chr_by n Ordering.eq Ordering.lt Ordering.lt p q r = char n (rw (p, q, r) tt)
chr_by n Ordering.gt Ordering.lt Ordering.lt p q r = char n (rw (p, q, r) tt)
chr_by n a b c p q r = nul

abbrev chr : ℕ → Char
chr n = chr_by n (compare n 55296) (compare 57343 n) (compare n 1114112) refl refl refl

abbrev spell : Text → String
spell [] = String.[]
spell (x ∷ t) = String.◌∷◌ (chr x) (spell t)

code-chr_by :
    (n : ℕ) (a b c : Ordering) (p : compare n 55296 ≡ a) (q : compare 57343 n ≡ b)
    (r : compare n 1114112 ≡ c)
    → IsScalar n
    → code (chr_by n a b c p q r) ≡ n
code-chr_by n Ordering.lt b c p q r h = refl
code-chr_by n Ordering.eq Ordering.eq c p q r h = absurd (rw (p, q) at h)
code-chr_by n Ordering.eq Ordering.gt c p q r h = absurd (rw (p, q) at h)
code-chr_by n Ordering.eq Ordering.lt Ordering.eq p q r h = absurd (rw (p, q, r) at h)
code-chr_by n Ordering.eq Ordering.lt Ordering.gt p q r h = absurd (rw (p, q, r) at h)
code-chr_by n Ordering.eq Ordering.lt Ordering.lt p q r h = refl
code-chr_by n Ordering.gt Ordering.eq c p q r h = absurd (rw (p, q) at h)
code-chr_by n Ordering.gt Ordering.gt c p q r h = absurd (rw (p, q) at h)
code-chr_by n Ordering.gt Ordering.lt Ordering.eq p q r h = absurd (rw (p, q, r) at h)
code-chr_by n Ordering.gt Ordering.lt Ordering.gt p q r h = absurd (rw (p, q, r) at h)
code-chr_by n Ordering.gt Ordering.lt Ordering.lt p q r h = refl

code-IsScalar : (c : Char) → IsScalar (code c)
code-IsScalar (char n p) = p

chr-code : (c : Char) → chr (code c) ≡ c
chr-code c =
    Char-path (chr (code c)) c (code-chr_by (code c) _ _ _ refl refl refl (code-IsScalar c))

spell-codes : (s : String) → spell (codes s) ≡ s
spell-codes String.[] = refl
spell-codes (String.◌∷◌ c s) = rw (chr-code c) (ap (String.◌∷◌ c) (spell-codes s))

small-IsScalar : (n : ℕ) → n < 128 → IsScalar n
small-IsScalar n h = rw (lt_of n h) tt
  where
    lt_of : (n : ℕ) → n < 128 → compare n 55296 ≡ Ordering.lt
    lt_of n h = ground arith

codes-spell : (t : Text) → All (λ x. x < 128) t → codes (spell t) ≡ t
codes-spell [] h = refl
codes-spell (x ∷ t) h =
    rw (code-chr_by x _ _ _ refl refl refl (small-IsScalar x h.0)) (ap (◌∷◌ x) (codes-spell t h.1))

-- A number in unary, and a mark behind it.
abbrev unary : ℕ → Text → Text
unary zero t = b'b' ∷ t
unary (suc n) t = b'a' ∷ unary n t

abbrev encode : Bytes → Text
encode [] = []
encode (x ∷ b) = unary x (encode b)

abbrev bump : Bytes → Bytes
bump [] = []
bump (x ∷ b) = suc x ∷ b

abbrev decode : Text → Bytes
decode [] = []
decode (x ∷ t) = let rest = decode t in if x == b'b' then 0 ∷ rest else bump rest

decode-unary : (n : ℕ) (t : Text) → decode (unary n t) ≡ n ∷ decode t
decode-unary zero t = refl
decode-unary (suc n) t = ap bump (decode-unary n t)

decode-encode : (b : Bytes) → decode (encode b) ≡ b
decode-encode [] = refl
decode-encode (x ∷ b) = rw (decode-unary x (encode b)) (ap (◌∷◌ x) (decode-encode b))

module _ {ℓ} (P : ℕ → Type ℓ) (pa : P b'a') (pb : P b'b') where
  unary-All : (n : ℕ) (t : Text) → All P t → All P (unary n t)
  unary-All zero t w = (pb, w)
  unary-All (suc n) t w = (pa, unary-All n t w)

  encode-All : (b : Bytes) → All P (encode b)
  encode-All [] = tt
  encode-All (x ∷ b) = unary-All x (encode b) (encode-All b)

abbrev pub ascii : Crypto
ascii = record crypto {
  base64_encode = encode;
  base64_decode = λ t. some (decode t);
  from_utf8 = λ b. some (spell b);
  to_utf8 = codes;
  to_string = spell;
  hmac_sha256 = λ k m. times32 0;
}

pub ascii_laws : CryptoLaws ascii
ascii_laws = record {
  decode-encode = λ b. ap some (decode-encode b);
  encode-no-dot = λ b. encode-All (λ x. x ≢ b'.') (omega arith) (omega arith) b;
  encode-no-bar = λ b. encode-All (λ x. x ≢ b'|') (omega arith) (omega arith) b;
  length-hmac = λ k m. refl;
  decrypt-encrypt = λ k iv p hk hi. refl;
}

pub ascii_texts : TextLaws ascii
ascii_texts = record {
  from-to_utf8 = λ s. ap some (spell-codes s);
  encode-ascii = λ b. encode-All (λ x. x < 128) (omega arith) (omega arith) b;
  codes-to_string = codes-spell;
}
