-- ===== src/Base/Libc/RoundTrip.antt =====
-- `atoi` reads back what `printf("%0*d", …)` writes of a number that an `int` holds.
use precision_location_lite.Base.Int.{pos}
use precision_location_lite.Base.Libc.{
  digits_value, atoi, emit_digits, print_nat, pad_zeros, print_int,
}
use precision_location_lite.Base.Tests.{◌==◌, Bool-cases, Bytes}
use Prim.Native.Nat.{ℕ, zero, suc, ◌+◌, ◌*◌, ◌/◌, ◌%◌, ◌^◌, ◌≤◌, ◌<◌}
use mathlib.Core.Bool.{false}
use mathlib.Core.List.{[], ◌∷◌}
use mathlib.Core.Logic.{inl, inr}
use mathlib.Core.Path.{◌≡◌, refl, ap, ◌∙◌}
use native.Mathlib.Omega.{arith}

value_step :
    (n : ℕ) (out : Bytes) (m : ℕ)
    → digits_value m ((b'0' + n % 10) ∷ out) ≡ digits_value (m * 10 + n % 10) out
unfolding digits_value
value_step n out m = ground arith

value-emit :
    (fuel n : ℕ) (out : Bytes)
    → n < fuel
    → digits_value 0 (emit_digits fuel n out) ≡ digits_value n out
unfolding emit_digits
value-emit zero n out h = absurd (omega arith)
value-emit (suc fuel) zero out h = refl
value-emit (suc fuel) (suc n) out h =
    let more : (suc n == 0) ≡ false = ground arith in
    let whole : suc n / 10 * 10 + suc n % 10 ≡ suc n = omega arith in
    rw more (
      value-emit fuel (suc n / 10) ((b'0' + suc n % 10) ∷ out) (omega arith)
      ∙ value_step (suc n) out (suc n / 10)
      ∙ ap (λ (m : ℕ). digits_value m out) whole)

value-print_nat : (n : ℕ) → digits_value 0 (print_nat n) ≡ n
unfolding print_nat digits_value
value-print_nat n = elim (Bool-cases (n == 0)) [
  | inl none_left ↦ rw none_left (ground arith)
  | inr some_left ↦ rw some_left (
      value-emit n (n / 10) ((b'0' + n % 10) ∷ []) (ground arith)
      ∙ value_step n [] (n / 10)
      ∙ omega arith)
]

value-pad : (k : ℕ) (s : Bytes) → digits_value 0 (pad_zeros k s) ≡ digits_value 0 s
unfolding pad_zeros digits_value
value-pad zero s = refl
value-pad (suc k) s = value-pad k s

-- A text that begins with a digit.
abbrev pub StartsWithDigit : Bytes → Type 0
StartsWithDigit [] = ⊥
StartsWithDigit (c ∷ s) = (b'0' ≤ c) × (c ≤ b'9')

starts-emit :
    (fuel n : ℕ) (out : Bytes) → StartsWithDigit out → StartsWithDigit (emit_digits fuel n out)
unfolding emit_digits
starts-emit zero n out h = h
starts-emit (suc fuel) n out h = elim (Bool-cases (n == 0)) [
  | inl done ↦ rw done h
  | inr more ↦ rw more (starts-emit fuel (n / 10) ((b'0' + n % 10) ∷ out) (omega arith))
]

starts-print_nat : (n : ℕ) → StartsWithDigit (print_nat n)
unfolding print_nat emit_digits
starts-print_nat n = elim (Bool-cases (n == 0)) [
  | inl done ↦ rw done (omega arith)
  | inr more ↦ rw more (starts-emit n (n / 10) ((b'0' + n % 10) ∷ []) (omega arith))
]

starts-pad : (k : ℕ) (s : Bytes) → StartsWithDigit s → StartsWithDigit (pad_zeros k s)
unfolding pad_zeros
starts-pad zero s h = h
starts-pad (suc k) s h = omega arith

pub starts-print_int : (w n : ℕ) → StartsWithDigit (print_int w (pos n))
unfolding print_int
starts-print_int w n = starts-pad _ (print_nat n) (starts-print_nat n)

value-print_int : (w n : ℕ) → digits_value 0 (print_int w (pos n)) ≡ n
unfolding print_int
value-print_int w n = value-pad _ (print_nat n) ∙ value-print_nat n

atoi_value :
    (s : Bytes) → StartsWithDigit s → digits_value 0 s < 2 ^ 31 → atoi s ≡ pos (digits_value 0 s)
unfolding atoi
atoi_value [] h fits = absurd h
atoi_value (c ∷ s) h fits = ground arith

-- A number below 2^31, printed with any width, is read back by `atoi`.
pub atoi-print_int : (w n : ℕ) → n < 2 ^ 31 → atoi (print_int w (pos n)) ≡ pos n
atoi-print_int w n h =
    atoi_value (print_int w (pos n)) (starts-print_int w n) (rw value-print_int h)
    ∙ ap pos (value-print_int w n)
