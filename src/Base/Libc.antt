-- ===== src/Base/Libc.antt =====
-- What the program uses of the C library: `atol`, and `printf` of integers and of doubles.
pub mod RoundTrip
pub mod Digits
use precision_location_lite.Base.Tests.{ltb, leb, ◌==◌, if◌then◌else◌, Bytes}
use precision_location_lite.Base.Lists.{length}
use precision_location_lite.Base.Int.{ℤ, pos, negsuc, to_int}
use Prim.Native.Nat.{ℕ, zero, suc, ◌+◌, ◌-◌, ◌*◌, ◌/◌, ◌%◌, ◌^◌, min}
use mathlib.Core.Bool.{Bool, true, false, ◌&&◌, ◌||◌}
use mathlib.Core.List.{[], ◌∷◌, ◌++◌}

abbrev pub is_digit : ℕ → Bool
is_digit c = leb b'0' c && leb c b'9'

abbrev is_space : ℕ → Bool
is_space c = c == 32 || leb 9 c && leb c 13

-- The number that the leading digits spell behind `n`.
unfoldable pub digits_value : ℕ → Bytes → ℕ
digits_value n [] = n
digits_value n (c ∷ s) =
    let more = digits_value (n * 10 + (c - b'0')) s in if is_digit c then more else n

-- `strtol` stops at the ends of `long`.
abbrev negate_long : ℕ → ℤ
negate_long n = if n == 0 then pos 0 else negsuc (min n (2 ^ 63) - 1)

unfoldable pub atol_signed : Bytes → ℤ
unfolding digits_value
atol_signed [] = pos 0
atol_signed (c ∷ s) =
    if c == b'-'
    then negate_long (digits_value 0 s)
    else if c == b'+'
    then pos (min (digits_value 0 s) (2 ^ 63 - 1))
    else pos (min (digits_value 0 (c ∷ s)) (2 ^ 63 - 1))

-- `::atol`: white space, a sign, digits, and anything behind them.
unfoldable pub atol : Bytes → ℤ
unfolding atol_signed
atol [] = pos 0
atol (c ∷ s) = let more = atol s in if is_space c then more else atol_signed (c ∷ s)

-- `SPI::atoi` narrows the `long` that `atol` returns.
unfoldable pub atoi : Bytes → ℤ
unfolding atol
atoi s = to_int (atol s)

-- The decimal digits of `n` in front of `out`; `n + 1` rounds are enough.
unfoldable pub emit_digits : ℕ → ℕ → Bytes → Bytes
emit_digits zero n out = out
emit_digits (suc fuel) n out =
    let more = emit_digits fuel (n / 10) ((b'0' + n % 10) ∷ out) in if n == 0 then out else more

unfoldable pub print_nat : ℕ → Bytes
unfolding emit_digits
print_nat n = if n == 0 then b'0' ∷ [] else emit_digits (suc n) n []

unfoldable pub pad_zeros : ℕ → Bytes → Bytes
pad_zeros zero s = s
pad_zeros (suc n) s = b'0' ∷ pad_zeros n s

-- `printf("%0*d", width, n)`: the sign counts, and stands in front of the zeros.
unfoldable pub print_int : ℕ → ℤ → Bytes
unfolding print_nat pad_zeros
print_int width (pos n) = let s = print_nat n in pad_zeros (width - length s) s
print_int width (negsuc n) = let s = print_nat (n + 1) in b'-' ∷ pad_zeros (width - 1 - length s) s

-- `double`, with the conversions that the platform's C library makes: `atof`, and `print total
-- decimal` for `printf("%0<total>.<decimal>f")`.
pub record Floats : Type 1 where
  pub D : Type 0
  pub zero_double : D
  pub atof : Bytes → D
  pub print : ℕ → ℕ → D → Bytes
