-- ===== src/Base/Bits.antt =====
-- Laws of the native bit operations at variables, from an equation for the lowest binary digit; and
-- tests that are run on every number below a bound.
use Prim.Native.Nat.{ℕ, zero, suc, ◌+◌, ◌*◌, ◌/◌, ◌%◌, ◌^◌, ◌≤◌, ◌<◌, min, digits, bitwise, differ}
use Prim.Native.Nat.{
  max, bit_xor, bit_xor-bitwise, bit_and, bit_and-bitwise, bit_or, bit_or-bitwise,
}
use mathlib.Core.Path.{◌≡◌, refl, ap, ◌∙◌}
use mathlib.Core.Bool.{Bool, true, ◌&&◌}
use native.Mathlib.Decide.{dec_le}
use native.Mathlib.Nat.{pow-suc}
use native.Mathlib.Omega.{arith}
use precision_location_lite.Base.Tests.{◌==◌}

module _ (at_end : ℕ → ℕ) (op : ℕ → ℕ → ℕ) where
  -- A round of fuel too many is not used.
  spare_round : (n a b : ℕ) → a ≤ n → digits at_end op (suc n) a b ≡ digits at_end op n a b
  spare_round zero zero b h = refl
  spare_round zero (suc a) b h = absurd (omega arith)
  spare_round (suc n) zero b h = refl
  spare_round (suc n) (suc a) b h =
      ap (λ (t : ℕ). t * 2 + op (suc a % 2) (b % 2))
        (spare_round n (suc a / 2) (b / 2) (omega arith))

  all_fuel : (n a b : ℕ) → a ≤ n → digits at_end op n a b ≡ bitwise at_end op a b
  all_fuel zero zero b h = refl
  all_fuel zero (suc a) b h = absurd (omega arith)
  all_fuel (suc n) a b h = elim (dec_le a n) [
    | yes less ↦ spare_round n a b less ∙ all_fuel n a b less
    | no more ↦ let same : suc n ≡ a = omega arith in ap (λ (m : ℕ). digits at_end op m a b) same
  ]

  lowest_digit :
      (a b : ℕ)
      → bitwise at_end op (suc a) b
        ≡ bitwise at_end op (suc a / 2) (b / 2) * 2 + op (suc a % 2) (b % 2)
  lowest_digit a b =
      ap (λ (t : ℕ). t * 2 + op (suc a % 2) (b % 2)) (all_fuel a (suc a / 2) (b / 2) (omega arith))

zero-differ : (b : ℕ) → differ 0 b ≡ b
zero-differ b = refl

pub bit_xor-halves : (a b : ℕ) → bit_xor a b ≡ bit_xor (a / 2) (b / 2) * 2 + differ (a % 2) (b % 2)
bit_xor-halves zero b = simp bit_xor-bitwise (omega (arith, zero-differ (b % 2)))
bit_xor-halves (suc a) b = simp bit_xor-bitwise (lowest_digit (λ (d : ℕ). d) differ a b)

pub bit_and-halves : (a b : ℕ) → bit_and a b ≡ bit_and (a / 2) (b / 2) * 2 + min (a % 2) (b % 2)
bit_and-halves zero b = simp bit_and-bitwise (omega arith)
bit_and-halves (suc a) b = simp bit_and-bitwise (lowest_digit (λ (d : ℕ). 0) min a b)

pub bit_or-halves : (a b : ℕ) → bit_or a b ≡ bit_or (a / 2) (b / 2) * 2 + max (a % 2) (b % 2)
bit_or-halves zero b = simp bit_or-bitwise (omega arith)
bit_or-halves (suc a) b = simp bit_or-bitwise (lowest_digit (λ (d : ℕ). d) max a b)

digit_cases : (P : ℕ → Type 0) → P 0 → P 1 → (a : ℕ) → a < 2 → P a
digit_cases P p q zero h = p
digit_cases P p q (suc zero) h = q
digit_cases P p q (suc (suc a)) h = absurd (omega arith)

differ-le : (a b : ℕ) → a < 2 → b < 2 → differ a b < 2
differ-le a b ha hb =
    digit_cases (λ a. differ a b < 2) hb
      (digit_cases (λ b. differ 1 b < 2) (omega arith) (omega arith) b hb) a ha

differ-inj : (a b c : ℕ) → a < 2 → b < 2 → c < 2 → differ a b ≡ differ a c → b ≡ c
differ-inj zero b c ha hb hc e = e
differ-inj (suc zero) zero zero ha hb hc e = refl
differ-inj (suc zero) zero (suc zero) ha hb hc e = absurd (omega arith)
differ-inj (suc zero) (suc zero) zero ha hb hc e = absurd (omega arith)
differ-inj (suc zero) (suc zero) (suc zero) ha hb hc e = refl
differ-inj (suc (suc a)) b c ha hb hc e = absurd (omega arith)
differ-inj (suc zero) (suc (suc b)) c ha hb hc e = absurd (omega arith)
differ-inj (suc zero) zero (suc (suc c)) ha hb hc e = absurd (omega arith)
differ-inj (suc zero) (suc zero) (suc (suc c)) ha hb hc e = absurd (omega arith)

-- The exclusive or of two k-bit numbers fits k bits.
pub bit_xor-lt : (k a b : ℕ) → a < 2 ^ k → b < 2 ^ k → bit_xor a b < 2 ^ k
bit_xor-lt zero zero zero ha hb = omega arith
bit_xor-lt zero zero (suc b) ha hb = absurd (omega arith)
bit_xor-lt zero (suc a) b ha hb = absurd (omega arith)
bit_xor-lt (suc k) a b ha hb = omega (
  arith,
  bit_xor-halves a b,
  pow-suc 2 k,
  differ-le (a % 2) (b % 2) (omega arith) (omega arith),
  bit_xor-lt k (a / 2) (b / 2) (omega (arith, pow-suc 2 k)) (omega (arith, pow-suc 2 k)),
)

xor_cancel_fuel : (n a b c : ℕ) → a ≤ n → b ≤ n → c ≤ n → bit_xor a b ≡ bit_xor a c → b ≡ c
xor_cancel_fuel zero a b c ha hb hc e = omega arith
xor_cancel_fuel (suc n) a b c ha hb hc e =
    let dl = differ-le (a % 2) (b % 2) (omega arith) (omega arith) in
    let dr = differ-le (a % 2) (c % 2) (omega arith) (omega arith) in
    let high : b / 2 ≡ c / 2 =
      xor_cancel_fuel n (a / 2) (b / 2) (c / 2) (omega arith) (omega arith) (omega arith)
        (omega (arith, bit_xor-halves a b, bit_xor-halves a c)) in
    let low : b % 2 ≡ c % 2 =
      differ-inj (a % 2) (b % 2) (c % 2) (omega arith) (omega arith) (omega arith)
        (omega (arith, bit_xor-halves a b, bit_xor-halves a c)) in
    omega arith

-- Exclusive or with a fixed number is injective.
pub bit_xor_cancel : (a b c : ℕ) → bit_xor a b ≡ bit_xor a c → b ≡ c
bit_xor_cancel a b c = xor_cancel_fuel (a + b + c) a b c (omega arith) (omega arith) (omega arith)

differ_comm : (a b : ℕ) → differ a b ≡ differ b a
differ_comm zero zero = refl
differ_comm zero (suc b) = refl
differ_comm (suc a) zero = refl
differ_comm (suc a) (suc b) = differ_comm a b

xor_comm_fuel : (n a b : ℕ) → a ≤ n → b ≤ n → bit_xor a b ≡ bit_xor b a
xor_comm_fuel zero zero zero ha hb = refl
xor_comm_fuel zero (suc a) b ha hb = absurd (omega arith)
xor_comm_fuel zero zero (suc b) ha hb = absurd (omega arith)
xor_comm_fuel (suc n) a b ha hb = omega (
  arith,
  bit_xor-halves a b,
  bit_xor-halves b a,
  differ_comm (a % 2) (b % 2),
  xor_comm_fuel n (a / 2) (b / 2) (omega arith) (omega arith),
)

pub bit_xor_comm : (a b : ℕ) → bit_xor a b ≡ bit_xor b a
bit_xor_comm a b = xor_comm_fuel (a + b) a b (omega arith) (omega arith)

pub zero-bit_or : (b : ℕ) → bit_or 0 b ≡ b
zero-bit_or b = bit_or-bitwise 0 b

or_zero_fuel : (n a : ℕ) → a ≤ n → bit_or a 0 ≡ a
or_zero_fuel zero zero h = refl
or_zero_fuel zero (suc a) h = absurd (omega arith)
or_zero_fuel (suc n) zero h = refl
or_zero_fuel (suc n) (suc a) h =
    omega (arith, bit_or-halves (suc a) 0, or_zero_fuel n (suc a / 2) (omega arith))

pub bit_or-zero : (a : ℕ) → bit_or a 0 ≡ a
bit_or-zero a = or_zero_fuel a a (omega arith)

-- The digits of a disjunction.
or_halves :
    (a b : ℕ) → (bit_or a b / 2 ≡ bit_or (a / 2) (b / 2)) × (bit_or a b % 2 ≡ max (a % 2) (b % 2))
or_halves a b = omega (arith, bit_or-halves a b)

or_assoc_fuel :
    (n a b c : ℕ) → a ≤ n → b ≤ n → c ≤ n → bit_or (bit_or a b) c ≡ bit_or a (bit_or b c)
or_assoc_fuel zero zero zero zero ha hb hc = refl
or_assoc_fuel zero (suc a) b c ha hb hc = absurd (omega arith)
or_assoc_fuel zero zero (suc b) c ha hb hc = absurd (omega arith)
or_assoc_fuel zero zero zero (suc c) ha hb hc = absurd (omega arith)
or_assoc_fuel (suc n) a b c ha hb hc =
    let left = or_halves a b in
    let right = or_halves b c in
    let ih = or_assoc_fuel n (a / 2) (b / 2) (c / 2) (omega arith) (omega arith) (omega arith) in
    bit_or-halves (bit_or a b) c
    ∙ rw (left.0, left.1, ih, ← right.0) (rw (bit_or-halves a (bit_or b c), right.1) (omega arith))

pub bit_or_assoc : (a b c : ℕ) → bit_or (bit_or a b) c ≡ bit_or a (bit_or b c)
bit_or_assoc a b c = or_assoc_fuel (a + b + c) a b c (omega arith) (omega arith) (omega arith)

-- A test that every number below a bound passes, found out by running it.
unfoldable pub passes : ℕ → (ℕ → Bool) → Bool
passes zero test = true
passes (suc bound) test = test bound && passes bound test

pub passes-at :
    (test : ℕ → Bool) (bound x : ℕ) → passes bound test ≡ true → x < bound → test x ≡ true
unfolding passes
passes-at test zero x run lt = absurd (omega arith)
passes-at test (suc bound) x run lt = ground (arith, passes-at test bound x)

pub ==→eq : (a b : ℕ) → (a == b) ≡ true → a ≡ b
==→eq a b h = ground arith
