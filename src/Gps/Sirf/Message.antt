-- ===== src/Gps/Sirf/Message.antt =====
-- The payloads of the SiRF messages 41 and 4: `fromGPSTime`, `parseFix` and `parseSatellites`.
pub mod Position
pub mod Channels
use Prim.Native.Nat.{bit_and}
use precision_location_lite.Base.{
  ℕ, zero, suc, ◌+◌, ◌-◌, ◌*◌, ◌/◌, ◌%◌, ◌^◌, Bool, true, false, not, ◌||◌, List, [], ◌∷◌, ◌++◌,
  Option, none, some, ◌==◌, if◌then◌else◌, ◌>>=◌, Bytes, length,
}
use precision_location_lite.Base.Int.{ℤ, pos, pos_part, neg_part, scale, signed32, to_int}
use precision_location_lite.Gps.Sirf.Input.{
  InputStream, size, avail, read8, read16, read32, read32s, skip,
}
use precision_location_lite.Gps.{Reals, Satellite, Fix, new_fix, time_of, time_sec, max_sat_in_use}

-- `GPS_TIME_OFFSET + week * 7 * 24 * 3600 + timeOfWeek`: the product is an `int`, which wraps here
-- (in C the overflow of weeks from 3551 on is undefined), the sum a 64-bit `time_t`.
unfoldable pub from_gps_time : ℕ → ℕ → ℕ
from_gps_time week time_of_week =
    let seconds = to_int (pos (week * 7 * 24 * 3600)) in
    let sum = 315964800 + pos_part seconds + (2 ^ 64 - neg_part seconds) + time_of_week in
    time_of (sum % 2 ^ 64) 0

-- The loop over the bits of `satsMap` from bit i on, which stops when the array is full. `rounds` is
-- the number of bits left, 32 - i.
unfoldable pub sats_in_map : ℕ → ℕ → ℕ → List ℕ → List ℕ
sats_in_map zero i map prn = prn
sats_in_map (suc rounds) i map prn =
    let prn' = if (map / 2 ^ i) % 2 == 1 then prn ++ (suc i ∷ []) else prn in
    let more = sats_in_map rounds (suc i) map prn' in
    if length prn' == max_sat_in_use then prn' else more

-- Reads whose result the source drops, by their widths.
pub data Width : Type 0 where
  w8 w16 w32 : Width

unfoldable pub discard : List Width → InputStream → Option InputStream
discard [] p = some p
discard (w8 ∷ ws) p = read8 p >>= λ r. discard ws r.1
discard (w16 ∷ ws) p = read16 p >>= λ r. discard ws r.1
discard (w32 ∷ ws) p = read32 p >>= λ r. discard ws r.1

module _ (rs : Reals) (tick : ℕ) where
  -- `parseFix`: `none` is a failed assertion, `some none` the null pointer.
  unfoldable pub parse_fix : InputStream → Option (Option (Fix rs.D rs.F))
  unfolding new_fix
  parse_fix payload = if not (size payload == 91) then some none else do
    (_, p) ← skip payload 2
    (type, p) ← read16 p
    if bit_and type 7 == 0 then some none else do
      (week, p) ← read16 p
      (msec_of_week, p) ← read32 p
      let gps_time = from_gps_time week (msec_of_week / 1000)
      -- year, month, day, hour, minute, second
      p ← discard (w16 ∷ w8 ∷ w8 ∷ w8 ∷ w8 ∷ w16 ∷ []) p
      (sats_map, p) ← read32 p
      let prn = sats_in_map 32 0 sats_map []
      (latitude, p) ← read32s p
      (longitude, p) ← read32s p
      (height, p) ← read32s p
      (altitude, p) ← read32s p
      -- map datum
      p ← discard (w8 ∷ []) p
      (speed, p) ← read16 p
      (bearing, p) ← read16 p
      -- magnetic variation, climb rate, heading rate
      p ← discard (w16 ∷ w16 ∷ w16 ∷ []) p
      (hpe, p) ← read32 p
      -- vertical error, time error, velocity error, clock bias and drift with their errors, distance
      -- and bearing with theirs, satellites in the fix
      p ← discard (w32 ∷ w32 ∷ w16 ∷ w32 ∷ w32 ∷ w32 ∷ w32 ∷ w32 ∷ w16 ∷ w16 ∷ w8 ∷ []) p
      (hdop, p) ← read8 p
      -- additional mode info
      p ← discard (w8 ∷ []) p
      free ← avail p
      let hpe_meters = rs.div_float (rs.float_of hpe) 100
      let fix = record (new_fix rs tick) {
        quality = 1;
        gps_time = gps_time;
        timetag = time_sec gps_time;
        prn = prn;
        sv_in_fix = length prn;
        latitude = rs.div_double (rs.double_of_int latitude) 10000000;
        longitude = rs.div_double (rs.double_of_int longitude) 10000000;
        height = rs.div_double (rs.double_of_int height) 100;
        altitude = rs.div_double (rs.double_of_int altitude) 100;
        speed = rs.div_double (rs.double_of_int (pos speed)) 100;
        bearing = rs.div_double (rs.double_of_int (pos bearing)) 100;
        hpe = if rs.leb_float 8 hpe_meters then hpe_meters else rs.zero_float;
        hdop = rs.div_float (rs.float_of hdop) 5;
      }
      if free == 0 then some (some fix) else none

-- The loop of `parseSatellites` over the channels, with the satellites pushed so far.
unfoldable pub read_channels :
    {D : Type 0}
    → ℕ
    → D
    → InputStream
    → List (Satellite D)
    → Option (List (Satellite D) × InputStream)
read_channels {D} zero timetag p sats = some (sats, p)
read_channels {D} (suc n) timetag p sats = do
  (id, p) ← read8 p
  (azimuth, p) ← read8 p
  (elevation, p) ← read8 p
  (_, p) ← skip p 2
  (_, p) ← skip p 9
  (snr, p) ← read8 p
  let sat : Satellite D = record {
    satellite_id = id;
    timetag = timetag;
    azimuth = azimuth * 3 / 2;
    elevation = pos (elevation / 2);
    snr = snr;
  }
  read_channels n timetag p (if id == 0 then sats else sats ++ (sat ∷ []))

module _ (rs : Reals) where
  unfoldable pub parse_satellites : InputStream → Option (List (Satellite rs.D))
  unfolding from_gps_time read_channels
  parse_satellites payload = do
    (week, p) ← read16 payload
    (time, p) ← read32 p
    let timetag = rs.double_of_int (pos (time_sec (from_gps_time week (time / 100))))
    (nsat, p) ← read8 p
    free ← avail p
    if not (free == nsat * 15) then some [] else do
      (sats, p) ← read_channels nsat timetag p []
      free ← avail p
      if free == 0 then some sats else none
