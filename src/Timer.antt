-- ===== src/Timer.antt =====
-- `Timer` of include/spi/Time.h: the tick at which it was started, an `unsigned long` of 64 bits.
-- `tick()` is an argument of the operations that call it.
pub mod Order
mod Tests
use precision_location_lite.Base.{
  ℕ, ◌+◌, ◌-◌, ◌%◌, ◌^◌, ◌<◌, Bool, ◌==◌, if◌then◌else◌, Bytes, take,
}
use precision_location_lite.Base.Int.{
  ℤ, pos, negsuc, pos_part, low_bits, ltb_ℤ, leb_ℤ, sub_ℤ, signed64,
}
use precision_location_lite.Base.Libc.{print_nat}

-- What the member `_t0` can hold.
abbrev pub IsTimer : ℕ → Type 0
IsTimer t = t < 2 ^ 64

-- `_t0 - rhs._t0` on unsigned longs.
abbrev pub ticks_since : ℕ → ℕ → ℕ
ticks_since t u = (t + 2 ^ 64 - u) % 2 ^ 64

-- `elapsed(now)`, and with `tick()` for `now` also `elapsed()`.
abbrev pub elapsed : ℕ → ℕ → ℕ
elapsed t now = ticks_since now t

-- `delta`: the difference as a long.
unfoldable pub delta : ℕ → ℕ → ℤ
delta t u = signed64 (ticks_since t u)

-- `operator<`, `<=`, `>` and `>=`
unfoldable pub less : ℕ → ℕ → Bool
unfolding delta
less t u = ltb_ℤ (delta t u) (pos 0)

unfoldable pub less_or_equal : ℕ → ℕ → Bool
unfolding delta
less_or_equal t u = leb_ℤ (delta t u) (pos 0)

unfoldable pub greater : ℕ → ℕ → Bool
unfolding delta
greater t u = ltb_ℤ (pos 0) (delta t u)

unfoldable pub greater_or_equal : ℕ → ℕ → Bool
unfolding delta
greater_or_equal t u = leb_ℤ (pos 0) (delta t u)

-- `compare`: the newer timer comes first.
unfoldable pub compare : ℕ → ℕ → ℤ
unfolding delta
compare t u = if t == u then pos 0 else if ltb_ℤ (pos 0) (delta t u) then negsuc 0 else pos 1

-- `reset(initialElapsed, now)`, and with `tick()` for `now` also `reset(initialElapsed)`.
abbrev pub reset : ℤ → ℕ → ℕ
reset initial_elapsed now = low_bits 64 (sub_ℤ (pos now) initial_elapsed)

-- `toString`, whose buffer has room for 15 characters.
abbrev pub to_string : ℕ → Bytes
to_string t = take 15 (print_nat t)
