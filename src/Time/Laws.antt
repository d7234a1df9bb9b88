-- ===== src/Time/Laws.antt =====
-- `Time` is the milliseconds since 1970: its parts and its arithmetic.
use precision_location_lite.Base.{ℕ, ◌^◌, ◌<◌, ◌≤◌, ◌≡◌, arith}
use precision_location_lite.Base.Int.{ℤ, pos, negsuc, pos_part, neg_part, neg_ℤ}
use precision_location_lite.Gps.{time_of, time_sec}
use precision_location_lite.Time.{IsTime, compare, add, subtract, time_msec}

pub time_of-sec : (t : ℕ) → IsTime t → time_of (time_sec t) (time_msec t) ≡ t
time_of-sec t h = omega arith

pub subtract-add :
    (t : ℕ) (m : ℤ)
    → IsTime t
    → pos_part m < 2 ^ 63
    → neg_part m ≤ 2 ^ 63
    → subtract (add t m) m ≡ t
unfolding subtract add
subtract-add t (pos n) h p q = ground arith
subtract-add t (negsuc n) h p q = ground arith

pub compare_antisym : (t u : ℕ) → compare t u ≡ neg_ℤ (compare u t)
unfolding compare
compare_antisym t u = ground arith
