-- ===== src/Gps/FixTests.antt =====
-- Two fixes, over integers and natural numbers in place of `double` and `float`.
use precision_location_lite.Base.{ℕ, ◌≡◌, refl, arith, [], ltb, ◌==◌}
use precision_location_lite.Base.Int.{ℤ, pos, negsuc, quot, ltb_ℤ, sub_ℤ, is_zero}
use precision_location_lite.Gps.{Reals, Fix}
use precision_location_lite.Gps.FixOrder.{Compared, compare, compare-newer}

abbrev reals : Reals
reals = record {
  D = ℤ;
  F = ℕ;
  zero_double = pos 0;
  max_double = pos 2147483647;
  double_of_int = λ n. n;
  div_double = λ a k. quot a k;
  zero_float = 0;
  float_of = λ n. n;
  div_float = λ a k. a;
  leb_float = λ k a. ltb k a;
}

abbrev compared : Compared reals
compared = record {
  less_double = ltb_ℤ;
  equal_double = λ a b. is_zero (sub_ℤ a b);
  less_float = ltb;
  equal_float = λ a b. a == b;
  int_of_float = λ a. pos a;
}

abbrev fix_at : ℕ → ℤ → Fix ℤ ℕ
fix_at tick speed = record {
  quality = 1;
  latitude = pos 52;
  longitude = pos 13;
  height = pos 2147483647;
  altitude = pos 40;
  speed = speed;
  bearing = pos 90;
  hdop = 2;
  hpe = 12;
  local_time = tick;
  gps_time = 0;
  timetag = 0;
  sv_in_fix = 5;
  prn = [];
}

compare-newer_example : compare reals compared (fix_at 2000 (pos 3)) (fix_at 1000 (pos 3)) ≡ pos 1
compare-newer_example =
    compare-newer reals compared (fix_at 2000 (pos 3)) (fix_at 1000 (pos 3)) 500 1500 500
      (omega arith) (omega arith) (omega arith) (omega arith) (omega arith)

-- Fixes that differ in an optional member only: one that has a speed is greater.
by_speed : compare reals compared (fix_at 1000 (pos 2147483647)) (fix_at 1000 (pos 3)) ≡ negsuc 0
unfolding compare
by_speed = refl
