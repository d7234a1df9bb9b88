-- ===== src/Api/Xml/Utf8.antt =====
-- `xmlUtf8Test` and the UTF-8 encoding of the characters that XML allows.
pub mod Sequence
pub mod Encoding
pub mod Decision
use Prim.Native.Nat.{bit_and, bit_or, max}
use native.Mathlib.Nat.{pow-suc}
use precision_location_lite.Base.{
  ℕ, zero, suc, ◌+◌, ◌-◌, ◌*◌, ◌/◌, ◌%◌, ◌^◌, ◌≤◌, ◌<◌, ◌↔◌, ◌⊎◌, Bool, true, false, not, ◌&&◌,
  ◌||◌, Bool-cases, List, [], ◌∷◌, ◌++◌, Option, none, some, inl, inr, ◌≡◌, refl, sym, ap, ◌∙◌,
  arith, ◌==◌, leb, ltb, if◌then◌else◌, ◌>>=◌, Bytes, codes, length, drop, All, take,
}
use precision_location_lite.Base.Bits.{bit_or-halves, bit_or-zero, passes, passes-at, ==→eq}
use precision_location_lite.Api.Xml.{
  Utf8Char, decode_utf8_first_byte, continue_utf8, decode_utf8_char, is_utf8_overlong_sequence,
  is_valid_xml_utf8, utf8_loop, xml_utf8_test,
}

-- The masks by arithmetic.
unfoldable pub first_of : ℕ → Utf8Char
first_of b =
    if ltb b 0x80
    then (1, b)
    else if ltb b 0xC0
    then (0, 0)
    else if ltb b 0xE0
    then (2, b % 32)
    else if ltb b 0xF0
    then (3, b % 16)
    else if ltb b 0xF8
    then (4, b % 8)
    else (0, 0)

same_pair : Utf8Char → Utf8Char → Bool
same_pair (a, b) (c, d) = a == c && b == d

same_pair→eq : (p q : Utf8Char) → same_pair p q ≡ true → p ≡ q
unfolding same_pair
same_pair→eq (a, b) (c, d) h =
    let e : a ≡ c = ground arith in let f : b ≡ d = ground arith in rw (e, f) refl

pub first_byte : (b : ℕ) → b < 256 → decode_utf8_first_byte b ≡ first_of b
unfolding passes decode_utf8_first_byte first_of same_pair
first_byte b h =
    same_pair→eq _ _
      (passes-at (λ b. same_pair (decode_utf8_first_byte b) (first_of b)) 256 b refl h)

unfoldable pub is_continuation : ℕ → Bool
is_continuation b = leb 0x80 b && ltb b 0xC0

bool_eq : Bool → Bool → Bool
bool_eq true b = b
bool_eq false b = not b

bool_eq→eq : (a b : Bool) → bool_eq a b ≡ true → a ≡ b
unfolding bool_eq
bool_eq→eq true true h = refl
bool_eq→eq false false h = refl
bool_eq→eq true false h = sym h
bool_eq→eq false true h = h

continuation : (b : ℕ) → b < 256 → (bit_and b 0xC0 == 0x80) ≡ is_continuation b
unfolding passes is_continuation bool_eq
continuation b h =
    bool_eq→eq _ _
      (passes-at (λ b. bool_eq (bit_and b 0xC0 == 0x80) (is_continuation b)) 256 b refl h)

low_bits : (b : ℕ) → b < 256 → bit_and b 0x3F ≡ b % 64
unfolding passes
low_bits b h = ==→eq _ _ (passes-at (λ b. bit_and b 0x3F == b % 64) 256 b refl h)

abbrev shift : ℕ → ℕ → ℕ
shift zero a = a
shift (suc k) a = shift k a * 2

-- A disjunction with low bits is a sum.
shift-or : (k a x : ℕ) → x < 2 ^ k → bit_or (shift k a) x ≡ shift k a + x
shift-or zero a x h = let e : x ≡ 0 = omega arith in rw e (bit_or-zero a ∙ omega arith)
shift-or (suc k) a x h =
    let half : shift k a * 2 / 2 ≡ shift k a = omega arith in
    let even : shift k a * 2 % 2 ≡ 0 = omega arith in
    bit_or-halves (shift k a * 2) x
    ∙ rw (half, even, shift-or k a (x / 2) (omega (arith, pow-suc 2 k))) (omega arith)

or_six_bits : (a x : ℕ) → x < 64 → bit_or (a * 64) x ≡ a * 64 + x
or_six_bits a x h = let e : a * 64 ≡ shift 6 a = omega arith in rw e (shift-or 6 a x h)

-- The encoding of a code point below 2^21.
unfoldable pub encode : ℕ → Bytes
encode c =
    if ltb c 0x80
    then c ∷ []
    else if ltb c 0x800
    then (0xC0 + c / 64) ∷ (0x80 + c % 64) ∷ []
    else if ltb c 0x10000
    then (0xE0 + c / 4096) ∷ (0x80 + c / 64 % 64) ∷ (0x80 + c % 64) ∷ []
    else (0xF0 + c / 262144) ∷ (0x80 + c / 4096 % 64) ∷ (0x80 + c / 64 % 64) ∷ (0x80 + c % 64) ∷ []

-- The characters of XML 1.0.
abbrev pub IsXmlChar : ℕ → Type 0
IsXmlChar c =
    (c ≡ 0x9)
    ⊎ (c ≡ 0xA)
    ⊎ (c ≡ 0xD)
    ⊎ ((0x20 ≤ c) × (c ≤ 0xD7FF))
    ⊎ ((0xE000 ≤ c) × (c ≤ 0xFFFD))
    ⊎ ((0x10000 ≤ c) × (c ≤ 0x10FFFF))

pub is_valid_xml_utf8_iff : (c : ℕ) → (is_valid_xml_utf8 c ≡ true) ↔ IsXmlChar c
is_valid_xml_utf8_iff c = ground arith

-- One continuation byte.
pub continue-suc :
    (n b code : ℕ) (p : Bytes)
    → b < 256
    → continue_utf8 (suc n) (b ∷ p) code
      ≡ (if is_continuation b then continue_utf8 n p (code * 64 + b % 64) else none)
unfolding continue_utf8
continue-suc n b code p h =
    rw (continuation b h, low_bits b h, or_six_bits code (b % 64) (omega arith)) refl
