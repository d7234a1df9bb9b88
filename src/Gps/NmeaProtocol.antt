-- ===== src/Gps/NmeaProtocol.antt =====
-- `NMEAProtocol` of src/spi/gps/protocol/nmea. A failed `assert` is `none`.
pub mod Calls
pub mod Feeding
use Prim.Native.Nat.{bit_and}
use precision_location_lite.Base.{
  ℕ, zero, suc, ◌+◌, ◌-◌, ◌*◌, ◌%◌, ◌^◌, Bool, true, false, not, ◌&&◌, List, [], ◌∷◌, Option, none,
  some, ◌==◌, ltb, if◌then◌else◌, ◌>>=◌, Bytes, length,
}
use precision_location_lite.Base.Int.{
  ℤ, pos, negsuc, scale, add_ℤ, leb_ℤ, to_uchar, to_ushort, to_short,
}
use precision_location_lite.Base.Libc.{Floats}
use precision_location_lite.Gps.{Reals, Satellite, Fix, GpsData, time_of, time_sec}
use precision_location_lite.Nmea.Dataset
use precision_location_lite.Nmea.Dataset.{Time, Date, Dataset, is_present}
use precision_location_lite.Nmea.Field
use precision_location_lite.Nmea.Info.{
  fix_quality_bad, new_info, clear_sats_in_view, get_fix_quality, get_time, get_date,
  get_sats_in_view, get_sats_in_use_count, get_sats_in_use, get_double, get_latitude, get_longitude,
  get_speed,
}
use precision_location_lite.Nmea.Stream
use precision_location_lite.Nmea.Units.{Arith, ndeg2degree}

-- `GSV_TIMEOUT`, in milliseconds.
abbrev pub gsv_timeout : ℕ
gsv_timeout = 5000

-- The bytes of a `std::string` up to its first NUL, as `c_str` shows them to C code.
unfoldable pub c_string : Bytes → Bytes
c_string [] = []
c_string (c ∷ s) = let rest = c_string s in if c == 0 then [] else c ∷ rest

-- The members of `tm` that `Time::fromDate` sets.
pub record CalendarTime : Type 0 where
  pub sec : ℕ
  pub min : ℕ
  pub hour : ℕ
  pub day : ℕ
  pub month : ℕ
  pub year : ℕ

-- What the code takes from its surroundings: `double` and `float`, and `timegm` of the C library.
pub record Platform : Type 1 where
  pub D : Type 0
  pub F : Type 0
  pub zero_double : D
  pub max_double : D
  pub zero_float : F
  pub op : Arith D
  pub of_int : ℤ → D
  pub to_float : D → F
  pub atof : Bytes → D
  pub print : ℕ → ℕ → D → Bytes
  pub timegm : CalendarTime → ℕ

-- The clocks during a call: `Timer::tick()` and `Time::now()`, in milliseconds; and what the stack
-- holds during it, where a time is read that does not set its `hsecond`.
pub record Clocks : Type 0 where
  pub tick : ℕ
  pub now : ℕ
  pub junk : Stream.Junk

-- The members `_info`, `_gsvTimer` and `_data`.
pub record Members (D F : Type 0) : Type 0 where
  pub info : Dataset D
  pub gsv_timer : ℕ
  pub gps_data : GpsData D F

-- `tick() - _t0`, an `unsigned long`.
abbrev pub elapsed : ℕ → ℕ → ℕ
elapsed t₀ tick = (tick + (2 ^ 64 - t₀ % 2 ^ 64)) % 2 ^ 64

module _ (pf : Platform) where
  abbrev pub floats : Floats
  floats = record { D = pf.D; zero_double = pf.zero_double; atof = pf.atof; print = pf.print }

  -- `Time(date)` of the `Date` that `updateGPSData` fills in.
  abbrev pub from_date : Time → Date → ℕ
  from_date time date =
      time_of
        (pf.timegm (record {
          sec = to_ushort time.second;
          min = to_ushort time.minute;
          hour = to_ushort time.hour;
          day = to_ushort date.day;
          month = to_ushort (add_ℤ date.month (negsuc 0));
          year = to_ushort (add_ℤ date.year (pos 100));
        }))
        (to_ushort (scale time.hsecond 10))

  -- The time of `updateGPSData`: that of the sentences, or the present.
  unfoldable pub time_of_info : Clocks → Dataset pf.D → Option ℕ
  time_of_info clocks info =
      if is_present info Field.time && is_present info Field.date
      then (do time ← get_time info; date ← get_date info; some (from_date time date))
      else some clocks.now

  abbrev pub new_satellite : ℕ → Dataset.Satellite → Satellite pf.D
  new_satellite time sat = record {
    satellite_id = to_uchar sat.prn;
    timetag = pf.of_int (pos (time_sec time));
    azimuth = to_ushort sat.azimuth;
    elevation = to_short sat.elevation;
    snr = to_uchar sat.snr;
  }

  abbrev pub new_satellites : ℕ → List Dataset.Satellite → List (Satellite pf.D)
  new_satellites time [] = []
  new_satellites time (sat ∷ sats) = new_satellite time sat ∷ new_satellites time sats

  abbrev pub to_uchars : List ℤ → List ℕ
  to_uchars [] = []
  to_uchars (n ∷ ns) = to_uchar n ∷ to_uchars ns

  -- The fix that `updateGPSData` fills in; `local_time` is the tick of the constructor.
  unfoldable pub new_fix : Clocks → ℕ → ℤ → Dataset pf.D → Option (Fix pf.D pf.F)
  new_fix clocks time quality info = do
    latitude ← get_latitude pf.op pf.zero_double info
    longitude ← get_longitude pf.op pf.zero_double info
    altitude ←
        if is_present info Field.altitude
        then get_double pf.op pf.zero_double Field.altitude info
        else some pf.max_double
    diff ← get_double pf.op pf.zero_double Field.diff info
    let height =
        if is_present info Field.altitude && is_present info Field.diff
        then pf.op.add altitude diff
        else pf.max_double
    hdop ← get_double pf.op pf.zero_double Field.hdop info
    speed ← get_speed pf.op pf.zero_double info
    bearing ← get_double pf.op pf.zero_double Field.direction info
    prn ← get_sats_in_use info
    some (record {
      quality = to_uchar quality;
      latitude = ndeg2degree pf.op latitude;
      longitude = ndeg2degree pf.op longitude;
      height = height;
      altitude = altitude;
      speed = pf.op.divide speed (pf.op.thousandths 3600);
      bearing = bearing;
      hdop = pf.to_float hdop;
      hpe = pf.zero_float;
      local_time = clocks.tick;
      gps_time = time;
      timetag = time_sec time;
      sv_in_fix = get_sats_in_use_count info % 2 ^ 8;
      prn = to_uchars prn;
    })

  unfoldable pub update_gps_data : Clocks → Dataset pf.D → Option (GpsData pf.D pf.F)
  unfolding time_of_info new_fix
  update_gps_data clocks info = do
    time ← time_of_info clocks info
    sats_in_view ← get_sats_in_view info
    let satellites = new_satellites time sats_in_view
    quality ← get_fix_quality info
    let with_fix = (do
      fix ← new_fix clocks time quality info
      some (record { fix = some fix; satellites = satellites }))
    if leb_ℤ quality (pos fix_quality_bad) && leb_ℤ (pos fix_quality_bad) quality
        then some (record { fix = none; satellites = satellites })
        else with_fix

  -- What `tryParse` does behind `NMEA::parse` when it has taken some bytes.
  unfoldable pub update :
      Clocks → Members pf.D pf.F → Stream.Parsed pf.D → Option (Members pf.D pf.F)
  unfolding update_gps_data
  update clocks st parsed = do
    gps_data ← update_gps_data clocks parsed.to
    let st' : Members pf.D pf.F = record {
      info = parsed.to;
      gsv_timer = st.gsv_timer;
      gps_data = gps_data;
    }
    some (
        if not (bit_and parsed.seen (Stream.sentence_bit Stream.gsv) == 0)
        then record st' { gsv_timer = clocks.tick }
        else if ltb gsv_timeout (elapsed st.gsv_timer clocks.tick)
        then record st' { info = clear_sats_in_view parsed.to; gsv_timer = clocks.tick }
        else st')

  unfoldable pub try_parse : Clocks → Bytes → Members pf.D pf.F → Option (ℕ × Members pf.D pf.F)
  unfolding update
  try_parse clocks buffer st = do
    let from = c_string buffer
    parsed ← Stream.parse floats clocks.junk from st.info Stream.all_sentences
    let bytes_parsed = Stream.bytes_parsed floats from parsed
    let updated = (do st' ← update clocks st parsed; some (bytes_parsed, st'))
    if bytes_parsed == 0
        then some (0, record st { info = parsed.to })
        else if ltb 2 bytes_parsed
        then updated
        else none

  -- `reset`, which leaves the buffer alone.
  abbrev pub clear : Clocks → Members pf.D pf.F → Members pf.D pf.F
  clear clocks st = record {
    info = new_info;
    gsv_timer = clocks.tick;
    gps_data = record { fix = none; satellites = [] };
  }
