-- ===== src/Nmea/Dataset.antt =====
-- `Variant` and `Dataset` of src/spi/utils/nmea/include/nmea, and the value types of Types.h.
-- The type `D` stands for `double`. A failed `assert` is `none`.
use precision_location_lite.Base.{
  ℕ, Bool, true, false, [], Option, none, some, ◌==◌, if◌then◌else◌, Bytes,
}
use precision_location_lite.Base.Int.{ℤ, pos}

pub record Satellite : Type 0 where
  pub prn : ℤ
  pub elevation : ℤ
  pub azimuth : ℤ
  pub snr : ℤ

pub record Time : Type 0 where
  pub hour : ℤ
  pub minute : ℤ
  pub second : ℤ
  pub hsecond : ℤ

pub record Date : Type 0 where
  pub day : ℤ
  pub month : ℤ
  pub year : ℤ

-- The tagged union of Variant.h; a constructor is the tag with its member of `Value`.
pub data Variant (D : Type 0) : Type 0 where
  uninitialized : Variant D
  char : ℕ → Variant D
  int : ℤ → Variant D
  double : D → Variant D
  satellite : Satellite → Variant D
  time : Time → Variant D
  date : Date → Variant D
  string : Bytes → Variant D

module _ {D : Type 0} where
  -- The conversion operators.
  abbrev pub to_char : Variant D → Option ℕ
  to_char Variant.uninitialized = some 0
  to_char (Variant.char c) = some c
  to_char _ = none

  abbrev pub to_int : Variant D → Option ℤ
  to_int Variant.uninitialized = some (pos 0)
  to_int (Variant.int d) = some d
  to_int _ = none

  abbrev pub to_double : D → Variant D → Option D
  to_double zero_double Variant.uninitialized = some zero_double
  to_double zero_double (Variant.double f) = some f
  to_double zero_double _ = none

  abbrev pub to_satellite : Variant D → Option Satellite
  to_satellite (Variant.satellite s) = some s
  to_satellite _ = none

  abbrev pub to_time : Variant D → Option Time
  to_time (Variant.time t) = some t
  to_time _ = none

  abbrev pub to_date : Variant D → Option Date
  to_date (Variant.date d) = some d
  to_date _ = none

  abbrev pub to_string : Variant D → Option Bytes
  to_string Variant.uninitialized = some []
  to_string (Variant.string s) = some s
  to_string _ = none

-- The container, `std::map<int, Variant>`, as the function that looks a field up.
abbrev pub Dataset : Type 0 → Type 0
Dataset D = ℕ → Option (Variant D)

module _ {D : Type 0} where
  abbrev pub reset : Dataset D
  reset field = none

  abbrev pub is_present : Dataset D → ℕ → Bool
  is_present data' field = elim (data' field) [ none ↦ false | some v ↦ true ]

  abbrev pub get : Dataset D → ℕ → Variant D
  get data' field = elim (data' field) [ none ↦ Variant.uninitialized | some v ↦ v ]

  unfoldable pub set : Dataset D → ℕ → Variant D → Dataset D
  set data' field value i = if i == field then some value else data' i

  unfoldable pub remove : Dataset D → ℕ → Dataset D
  remove data' field i = if i == field then none else data' i

  unfoldable pub copy : Dataset D → ℕ → Dataset D → Dataset D
  unfolding set remove
  copy from field to =
      if is_present from field then set to field (get from field) else remove to field
