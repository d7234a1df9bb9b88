-- ===== src/Gps.antt =====
-- `GPSData` of include/spi/GPSData.h and `Time` of include/spi/Time.h. `double` and `float` are
-- parameters: the code only carries, scales and compares their values.
pub mod FixOrder
pub mod Sirf
pub mod Protocol
pub mod Serial
mod SerialTests
pub mod NmeaProtocol
mod Tests
mod FixTests
mod NmeaTests
use precision_location_lite.Base.{ℕ, ◌+◌, ◌*◌, ◌/◌, ◌%◌, ◌^◌, Bool, List, [], ◌∷◌, Option, none}
use precision_location_lite.Base.Int.{ℤ}

-- What the code relies on of floating-point numbers: conversions, quotients and comparisons.
pub record Reals : Type 1 where
  pub D : Type 0
  pub F : Type 0
  pub zero_double : D
  pub max_double : D
  pub double_of_int : ℤ → D
  pub div_double : D → ℕ → D
  pub zero_float : F
  pub float_of : ℕ → F
  pub div_float : F → ℕ → F
  pub leb_float : ℕ → F → Bool

-- `Time(sec, msec)` and `sec()` on the milliseconds that a `Time` keeps in 64 bits.
abbrev pub time_of : ℕ → ℕ → ℕ
time_of sec msec = (sec * 1000 + msec) % 2 ^ 64

abbrev pub time_sec : ℕ → ℕ
time_sec msec = msec / 1000

pub record Satellite (D : Type 0) : Type 0 where
  pub satellite_id : ℕ
  pub timetag : D
  pub azimuth : ℕ
  pub elevation : ℤ
  pub snr : ℕ

-- `prn` lists the entries of the array from its start; those left out are 0.
pub record Fix (D F : Type 0) : Type 0 where
  pub quality : ℕ
  pub latitude : D
  pub longitude : D
  pub height : D
  pub altitude : D
  pub speed : D
  pub bearing : D
  pub hdop : F
  pub hpe : F
  pub local_time : ℕ
  pub gps_time : ℕ
  pub timetag : ℕ
  pub sv_in_fix : ℕ
  pub prn : List ℕ

pub record GpsData (D F : Type 0) : Type 0 where
  pub fix : Option (Fix D F)
  pub satellites : List (Satellite D)

abbrev pub max_sat_in_use : ℕ
max_sat_in_use = 12

module _ (rs : Reals) where
  -- The constructor of `Fix`; `local_time` is the tick at which it runs.
  unfoldable pub new_fix : ℕ → Fix rs.D rs.F
  new_fix tick = record {
    quality = 0;
    latitude = rs.zero_double;
    longitude = rs.zero_double;
    height = rs.max_double;
    altitude = rs.max_double;
    speed = rs.max_double;
    bearing = rs.max_double;
    hdop = rs.zero_float;
    hpe = rs.zero_float;
    local_time = tick;
    gps_time = 0;
    timetag = 0;
    sv_in_fix = 0;
    prn = [];
  }

  -- `GPSData()`, which `clear` returns to.
  abbrev pub clear : GpsData rs.D rs.F
  clear = record { fix = none; satellites = [] }
