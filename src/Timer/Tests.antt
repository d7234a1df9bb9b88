-- ===== src/Timer/Tests.antt =====
-- Runs on concrete timers.
use precision_location_lite.Base.{◌-◌, ◌^◌, ◌≡◌, ◌↔◌, refl, arith}
use precision_location_lite.Base.Int.{pos, negsuc, neg_ℤ}
use precision_location_lite.Timer.{compare, elapsed}
use precision_location_lite.Timer.Order.{IsLater, compare_antisym, compare-later}

-- A timer that was started after the tick counter had wrapped around.
wrapped : elapsed (2 ^ 64 - 10) 5 ≡ 15
wrapped = refl

newer_first : compare 2000 1000 ≡ negsuc 0
unfolding compare
newer_first = refl

compare_antisym_example :
    ((compare 2000 1000 ≡ neg_ℤ (compare 1000 2000)) ↔ (¬ IsLater (2 ^ 63) 2000 1000))
    × (IsLater (2 ^ 63) 2000 1000 → (compare 2000 1000 ≡ pos 1) × (compare 1000 2000 ≡ pos 1))
compare_antisym_example = compare_antisym 2000 1000 (omega arith) (omega arith)

compare-later_example : compare 4 (2 ^ 64 - 3) ≡ negsuc 0
compare-later_example =
    compare-later (2 ^ 64 - 5) 9 2 4 (2 ^ 64 - 3) (omega arith) (omega arith) (omega arith)
      (omega arith) (omega arith)
