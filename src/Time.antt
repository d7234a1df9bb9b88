-- ===== src/Time.antt =====
-- `Time` of include/spi/Time.h: milliseconds since 1970 in an `unsigned long long`. The constructor
-- from seconds and milliseconds and `sec` are in Gps.
mod Laws
use precision_location_lite.Base.{
  ℕ, ◌+◌, ◌-◌, ◌%◌, ◌^◌, ◌<◌, Bool, ◌==◌, ltb, leb, not, if◌then◌else◌,
}
use precision_location_lite.Base.Int.{ℤ, pos, negsuc, low_bits, add_ℤ, sub_ℤ}

abbrev pub IsTime : ℕ → Type 0
IsTime t = t < 2 ^ 64

-- `operator==`, `!=`, `<`, `<=`, `>` and `>=`
abbrev pub equal : ℕ → ℕ → Bool
equal t u = t == u

abbrev pub not_equal : ℕ → ℕ → Bool
not_equal t u = not (t == u)

abbrev pub less : ℕ → ℕ → Bool
less t u = ltb t u

abbrev pub less_or_equal : ℕ → ℕ → Bool
less_or_equal t u = leb t u

abbrev pub greater : ℕ → ℕ → Bool
greater t u = ltb u t

abbrev pub greater_or_equal : ℕ → ℕ → Bool
greater_or_equal t u = leb u t

unfoldable pub compare : ℕ → ℕ → ℤ
compare t u = if t == u then pos 0 else if ltb t u then negsuc 0 else pos 1

-- `operator+=` and `operator+`, `operator-=` and `operator-` by a `long`.
unfoldable pub add : ℕ → ℤ → ℕ
add t msec = low_bits 64 (add_ℤ (pos t) msec)

unfoldable pub subtract : ℕ → ℤ → ℕ
subtract t msec = low_bits 64 (sub_ℤ (pos t) msec)

-- `msec()`
abbrev pub time_msec : ℕ → ℕ
time_msec t = t % 1000
