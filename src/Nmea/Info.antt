-- ===== src/Nmea/Info.antt =====
-- `Info` of src/spi/utils/nmea/include/nmea/Info.h: a dataset read by the names of its fields. A
-- failed `assert` of a conversion is `none`. The setters that only simulators use are left out.
use precision_location_lite.Base.{
  ℕ, zero, suc, List, [], ◌∷◌, Option, some, ◌==◌, if◌then◌else◌, ◌>>=◌,
}
use precision_location_lite.Base.Int.{ℤ, pos}
use precision_location_lite.Nmea.Dataset.{
  Satellite, Time, Date, Variant, Dataset, reset, is_present, get, set, remove, to_char, to_int,
  to_double, to_satellite, to_time, to_date,
}
use precision_location_lite.Nmea.Field
use precision_location_lite.Nmea.Format.{max_sat_in_use, max_sat_in_view}
use precision_location_lite.Nmea.Units.{Arith, knots2kph}

abbrev pub fix_type_bad : ℕ
fix_type_bad = 1

abbrev pub fix_quality_bad : ℕ
fix_quality_bad = 0

module _ {D : Type 0} where
  -- `setFixQuality` and the constructor.
  unfoldable pub set_fix_quality : ℕ → Dataset D → Dataset D
  unfolding set
  set_fix_quality quality info =
      let bad = quality == fix_quality_bad in
      let info₁ = set info Field.fix_quality (Variant.int (pos quality)) in
      let info₂ = set info₁ Field.fix_mode_indicator (Variant.char (if bad then b'N' else b'A')) in
      set info₂ Field.status (Variant.char (if bad then b'V' else b'A'))

  unfoldable pub new_info : Dataset D
  unfolding set set_fix_quality
  new_info =
      let info₁ = set reset Field.fix_mode (Variant.char b'A') in
      let info₂ = set info₁ Field.fix_type (Variant.int (pos fix_type_bad)) in
      set_fix_quality fix_quality_bad info₂

  -- The loop of `clearSatsInView` over n fields from the given one on.
  unfoldable pub remove_fields : ℕ → ℕ → Dataset D → Dataset D
  unfolding remove
  remove_fields zero field info = info
  remove_fields (suc n) field info = remove_fields n (suc field) (remove info field)

  unfoldable pub clear_sats_in_view : Dataset D → Dataset D
  unfolding set remove_fields
  clear_sats_in_view info =
      remove_fields max_sat_in_view Field.satellite_01
        (set info Field.sat_in_view (Variant.int (pos 0)))

  abbrev pub get_fix_quality : Dataset D → Option ℤ
  get_fix_quality info = to_int (get info Field.fix_quality)

  abbrev pub get_time : Dataset D → Option Time
  get_time info = to_time (get info Field.time)

  abbrev pub get_date : Dataset D → Option Date
  get_date info = to_date (get info Field.date)

  -- The loops over the fields of the satellites, n of them from the given one on.
  unfoldable pub sats_in_view_from : ℕ → ℕ → Dataset D → Option (List Satellite)
  sats_in_view_from zero field info = some []
  sats_in_view_from (suc n) field info =
      let rest = sats_in_view_from n (suc field) info in
      if is_present info field
      then (do sat ← to_satellite (get info field); sats ← rest; some (sat ∷ sats))
      else rest

  unfoldable pub get_sats_in_view : Dataset D → Option (List Satellite)
  unfolding sats_in_view_from
  get_sats_in_view info = sats_in_view_from max_sat_in_view Field.satellite_01 info

  unfoldable pub count_present : ℕ → ℕ → Dataset D → ℕ
  count_present zero field info = 0
  count_present (suc n) field info =
      let rest = count_present n (suc field) info in
      if is_present info field then suc rest else rest

  unfoldable pub get_sats_in_use_count : Dataset D → ℕ
  unfolding count_present
  get_sats_in_use_count info = count_present max_sat_in_use Field.sat_in_use_01 info

  -- The array that `getSatsInUse` fills, before the conversion to `unsigned char`.
  unfoldable pub sats_in_use_from : ℕ → ℕ → Dataset D → Option (List ℤ)
  sats_in_use_from zero field info = some []
  sats_in_use_from (suc n) field info = do
    prn ← if is_present info field then to_int (get info field) else some (pos 0)
    rest ← sats_in_use_from n (suc field) info
    some (prn ∷ rest)

  unfoldable pub get_sats_in_use : Dataset D → Option (List ℤ)
  unfolding sats_in_use_from
  get_sats_in_use info = sats_in_use_from max_sat_in_use Field.sat_in_use_01 info

module _ {D : Type 0} (op : Arith D) (zero_double : D) where
  abbrev pub get_double : ℕ → Dataset D → Option D
  get_double field info = to_double zero_double (get info field)

  -- `getLatitude` and `getLongitude`: the sign by the hemisphere.
  abbrev pub get_signed : ℕ → ℕ → ℕ → Dataset D → Option D
  get_signed mark mark_field field info = do
    c ← to_char (get info mark_field)
    a ← get_double field info
    some (if c == mark then a else op.negate a)

  abbrev pub get_latitude : Dataset D → Option D
  get_latitude info = get_signed b'N' Field.latitude_ns Field.latitude info

  abbrev pub get_longitude : Dataset D → Option D
  get_longitude info = get_signed b'E' Field.longitude_ew Field.longitude info

  abbrev pub get_speed : Dataset D → Option D
  get_speed info = do knots ← get_double Field.speed info; some (knots2kph op knots)
