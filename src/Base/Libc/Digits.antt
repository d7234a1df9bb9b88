-- ===== src/Base/Libc/Digits.antt =====
-- What `printf("%0*d", …)` writes of a number: digits, and how many.
use precision_location_lite.Base.Int.{pos}
use precision_location_lite.Base.Libc.{emit_digits, print_nat, pad_zeros, print_int}
use precision_location_lite.Base.Lists.{length, All}
use precision_location_lite.Base.Tests.{◌==◌, Bool-cases, Bytes}
use Prim.Native.Nat.{ℕ, zero, suc, ◌+◌, ◌-◌, ◌/◌, ◌%◌, ◌^◌, ◌≤◌, ◌<◌}
use mathlib.Core.List.{[], ◌∷◌}
use mathlib.Core.Logic.{inl, inr}
use mathlib.Core.Path.{◌≡◌}
use native.Mathlib.Nat.{pow-suc}
use native.Mathlib.Omega.{arith}

abbrev pub IsDigit : ℕ → Type 0
IsDigit c = (b'0' ≤ c) × (c ≤ b'9')

emit-IsDigit : (fuel n : ℕ) (out : Bytes) → All IsDigit out → All IsDigit (emit_digits fuel n out)
unfolding emit_digits
emit-IsDigit zero n out h = h
emit-IsDigit (suc fuel) n out h = elim (Bool-cases (n == 0)) [
  | inl done ↦ rw done h
  | inr more ↦
      rw more (emit-IsDigit fuel (n / 10) ((b'0' + n % 10) ∷ out) ((omega arith, omega arith), h))
]

pub pad-IsDigit : (k : ℕ) (s : Bytes) → All IsDigit s → All IsDigit (pad_zeros k s)
unfolding pad_zeros
pad-IsDigit zero s h = h
pad-IsDigit (suc k) s h = ((omega arith, omega arith), pad-IsDigit k s h)

pub print_nat-IsDigit : (n : ℕ) → All IsDigit (print_nat n)
unfolding print_nat
print_nat-IsDigit n = elim (Bool-cases (n == 0)) [
  | inl done ↦ rw done ((omega arith, omega arith), tt)
  | inr more ↦
      rw more (emit-IsDigit n (n / 10) ((b'0' + n % 10) ∷ []) ((omega arith, omega arith), tt))
]

-- A number is printed in digits.
pub print_int-IsDigit : (w n : ℕ) → All IsDigit (print_int w (pos n))
unfolding print_int
print_int-IsDigit w n = pad-IsDigit _ (print_nat n) (print_nat-IsDigit n)

length-emit :
    (fuel k n : ℕ) (out : Bytes) → n < 10 ^ k → length (emit_digits fuel n out) ≤ k + length out
unfolding emit_digits
length-emit zero k n out h = omega arith
length-emit (suc fuel) zero zero out h = omega arith
length-emit (suc fuel) zero (suc n) out h = absurd (omega arith)
length-emit (suc fuel) (suc k) n out h = elim (Bool-cases (n == 0)) [
  | inl done ↦ rw done (omega arith)
  | inr more ↦ rw more (
      omega
        (arith, length-emit fuel k (n / 10) ((b'0' + n % 10) ∷ out) (omega (arith, pow-suc 10 k))))
]

length-pad : (k : ℕ) (s : Bytes) → length (pad_zeros k s) ≡ k + length s
unfolding pad_zeros
length-pad zero s = omega arith
length-pad (suc k) s = omega (arith, length-pad k s)

length-print_nat : (k n : ℕ) → n < 10 ^ suc k → length (print_nat n) ≤ suc k
unfolding print_nat
length-print_nat k n h = elim (Bool-cases (n == 0)) [
  | inl done ↦ rw done (omega arith)
  | inr more ↦
      rw more (
        omega
          (arith, length-emit n k (n / 10) ((b'0' + n % 10) ∷ []) (omega (arith, pow-suc 10 k))))
]

-- A number of at most `w` digits is printed in exactly `w` characters, with zeros in front.
pub length-print_int : (k n : ℕ) → n < 10 ^ suc k → length (print_int (suc k) (pos n)) ≡ suc k
unfolding print_int
length-print_int k n h =
    omega (arith, length-pad (suc k - length (print_nat n)) (print_nat n), length-print_nat k n h)

-- A number with one digit more is printed in full as well.
pub length-print_int-le : (k n : ℕ) → n < 10 ^ suc k → length (print_int k (pos n)) ≤ suc k
unfolding print_int
length-print_int-le k n h =
    omega (arith, length-pad (k - length (print_nat n)) (print_nat n), length-print_nat k n h)
