-- ===== src/Gps/FixOrder.antt =====
-- `GPSData::Fix::compare` of src/spi/gps/GPSData.cpp, and the tests of a fix's members of
-- include/spi/GPSData.h. The comparisons of `double` and `float` are parameters.
use precision_location_lite.Base.{
  ℕ, ◌<◌, Bool, true, false, not, ltb, if◌then◌else◌, ◌≡◌, refl, arith, ◌==◌, ◌^◌,
}
use precision_location_lite.Base.Int.{ℤ, pos, negsuc, neg_ℤ, sub_ℤ}
use precision_location_lite.Cell.{first_nonzero}
use precision_location_lite.Gps.{Reals, Fix}
use precision_location_lite.Timer
use precision_location_lite.Timer.Order.{IsLater}
use precision_location_lite.Timer.Order
use precision_location_lite.Time

-- `<` and `==` of the numbers, and `static_cast<int>` of a float.
pub record Compared (rs : Reals) : Type 0 where
  pub less_double : rs.D → rs.D → Bool
  pub equal_double : rs.D → rs.D → Bool
  pub less_float : rs.F → rs.F → Bool
  pub equal_float : rs.F → rs.F → Bool
  pub int_of_float : rs.F → ℤ

-- `simpleCompare`
abbrev pub simple_compare : {A : Type 0} → (A → A → Bool) → A → A → ℤ
simple_compare less x y = if less x y then negsuc 0 else if less y x then pos 1 else pos 0

-- An optional member: one that is not set comes first.
abbrev pub compare_set : Bool → Bool → ℤ → ℤ
compare_set true false r = pos 1
compare_set false true r = negsuc 0
compare_set _ _ r = r

module _ (rs : Reals) (o : Compared rs) where
  abbrev pub is_set : rs.D → Bool
  is_set x = not (o.equal_double x rs.max_double)

  abbrev pub has_altitude : Fix rs.D rs.F → Bool
  has_altitude f = is_set f.altitude

  abbrev pub has_height : Fix rs.D rs.F → Bool
  has_height f = is_set f.height

  abbrev pub has_speed : Fix rs.D rs.F → Bool
  has_speed f = is_set f.speed

  abbrev pub has_bearing : Fix rs.D rs.F → Bool
  has_bearing f = is_set f.bearing

  abbrev pub has_hdop : Fix rs.D rs.F → Bool
  has_hdop f = not (o.equal_float f.hdop rs.zero_float)

  abbrev pub has_hpe : Fix rs.D rs.F → Bool
  has_hpe f = not (o.equal_float f.hpe rs.zero_float)

  -- The optional members, and the quality.
  unfoldable pub compare_optional : Fix rs.D rs.F → Fix rs.D rs.F → ℤ
  compare_optional f g =
      let quality = sub_ℤ (pos f.quality) (pos g.quality) in
      let bearing =
        compare_set (has_bearing f) (has_bearing g)
          (first_nonzero (simple_compare o.less_double f.bearing g.bearing) quality) in
      let speed =
        compare_set (has_speed f) (has_speed g)
          (first_nonzero (simple_compare o.less_double f.speed g.speed) bearing) in
      let height =
        compare_set (has_height f) (has_height g)
          (first_nonzero (simple_compare o.less_double f.height g.height) speed) in
      compare_set (has_altitude f) (has_altitude g)
        (first_nonzero (simple_compare o.less_double f.altitude g.altitude) height)

  unfoldable pub compare : Fix rs.D rs.F → Fix rs.D rs.F → ℤ
  unfolding compare_optional Timer.compare Time.compare
  compare f g = first_nonzero (neg_ℤ (Timer.compare f.local_time g.local_time)) (
      first_nonzero (neg_ℤ (Time.compare f.gps_time g.gps_time)) (
        first_nonzero (neg_ℤ (simple_compare ltb f.timetag g.timetag)) (
          first_nonzero (simple_compare o.less_double f.latitude g.latitude) (
            first_nonzero (simple_compare o.less_double f.longitude g.longitude) (
              first_nonzero (sub_ℤ (pos f.sv_in_fix) (pos g.sv_in_fix)) (
                first_nonzero (sub_ℤ (o.int_of_float f.hpe) (o.int_of_float g.hpe)) (
                  first_nonzero (simple_compare o.less_float f.hdop g.hdop)
                    (compare_optional f g))))))))

  -- Of two fixes, the one whose timer was started later, in half the timers' range from a common
  -- start on, is the greater.
  pub compare-newer :
      (f g : Fix rs.D rs.F) (base i j : ℕ)
      → Timer.IsTimer base
      → i < 2 ^ 63
      → j < i
      → IsLater i f.local_time base
      → IsLater j g.local_time base
      → compare f g ≡ pos 1
  unfolding compare
  compare-newer f g base i j hb hi hij ef eg =
      let differ : i == j ≡ false = ground (arith, hij) in
      let later : ltb j i ≡ true = ground (arith, hij) in
      let newer : Timer.compare f.local_time g.local_time ≡ negsuc 0 =
        rw (differ, later) at
          (Order.compare-later base i j f.local_time g.local_time hb hi (omega (arith, hij, hi)) ef
            eg) in
      rw newer refl
