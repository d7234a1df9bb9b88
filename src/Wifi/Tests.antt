-- ===== src/Wifi/Tests.antt =====
-- The theorem on addresses at two of them.
use precision_location_lite.Base.{[], ◌∷◌, ◌≡◌, refl, arith, Bytes, codes}
use precision_location_lite.Base.Int.{negsuc}
use precision_location_lite.Wifi.Mac.Order.{sign, octets, compare-to_long}
use precision_location_lite.Wifi.Mac.{compare, to_long, to_string}

abbrev low : Bytes
low = 0xFF ∷ 0xFF ∷ 0 ∷ 0 ∷ 0 ∷ 0x10 ∷ []

abbrev high : Bytes
high = 1 ∷ 0 ∷ 0 ∷ 0 ∷ 0 ∷ 0x20 ∷ []

low_run : compare low high ≡ negsuc 0
unfolding compare
low_run = refl

printed : to_string low ≡ codes "10000000FFFF"
printed = refl

compare-to_long_example : compare low high ≡ sign (to_long low) (to_long high)
compare-to_long_example =
    compare-to_long low high
      (octets 0xFF 0xFF 0 0 0 0x10
        (omega arith, omega arith, omega arith, omega arith, omega arith, omega arith))
      (octets 1 0 0 0 0 0x20
        (omega arith, omega arith, omega arith, omega arith, omega arith, omega arith))
