-- ===== src/Nmea/Format.antt =====
-- The sentence formats of GGA.h, GSA.h, GSA1.h, GSV.h, RMC.h, RMC1.h and GLL.h of
-- src/spi/utils/nmea/src, and the limits of Fields.h.
use precision_location_lite.Base.{ℕ, zero, suc, ◌+◌, ◌*◌, List, [], ◌∷◌, ◌++◌}
use precision_location_lite.Nmea.Field
use precision_location_lite.Nmea.Token.{Token}

abbrev pub max_sat_in_use : ℕ
max_sat_in_use = 12

abbrev pub max_sat_in_view : ℕ
max_sat_in_view = 16

abbrev pub format_gga : List (ℕ × Token)
format_gga =
    (Field.time, Token.time)
    ∷ (Field.latitude, Token.float 9 4)
    ∷ (Field.latitude_ns, Token.char)
    ∷ (Field.longitude, Token.float 10 4)
    ∷ (Field.longitude_ew, Token.char)
    ∷ (Field.fix_quality, Token.int 1)
    ∷ (Field.sat_in_use, Token.int 2)
    ∷ (Field.hdop, Token.float 3 1)
    ∷ (Field.altitude, Token.float 3 1)
    ∷ (Field.altitude_units, Token.char)
    ∷ (Field.diff, Token.float 3 1)
    ∷ (Field.diff_units, Token.char)
    ∷ (Field.dgps_time, Token.float 3 1)
    ∷ (Field.dgps_id, Token.int 4)
    ∷ []

abbrev pub format_rmc : List (ℕ × Token)
format_rmc =
    (Field.time, Token.time)
    ∷ (Field.status, Token.char)
    ∷ (Field.latitude, Token.float 9 4)
    ∷ (Field.latitude_ns, Token.char)
    ∷ (Field.longitude, Token.float 10 4)
    ∷ (Field.longitude_ew, Token.char)
    ∷ (Field.speed, Token.float 3 1)
    ∷ (Field.direction, Token.float 3 1)
    ∷ (Field.date, Token.date)
    ∷ (Field.declination, Token.float 3 1)
    ∷ (Field.declination_ew, Token.char)
    ∷ []

abbrev pub format_rmc1 : List (ℕ × Token)
format_rmc1 =
    (Field.time, Token.time)
    ∷ (Field.status, Token.char)
    ∷ (Field.latitude, Token.float 9 4)
    ∷ (Field.latitude_ns, Token.char)
    ∷ (Field.longitude, Token.float 10 4)
    ∷ (Field.longitude_ew, Token.char)
    ∷ (Field.speed, Token.float 3 1)
    ∷ (Field.direction, Token.float 3 1)
    ∷ (Field.date, Token.date)
    ∷ (Field.declination, Token.float 3 1)
    ∷ (Field.declination_ew, Token.char)
    ∷ (Field.fix_mode_indicator, Token.char)
    ∷ []

abbrev pub format_gll : List (ℕ × Token)
format_gll =
    (Field.latitude, Token.float 9 4)
    ∷ (Field.latitude_ns, Token.char)
    ∷ (Field.longitude, Token.float 10 4)
    ∷ (Field.longitude_ew, Token.char)
    ∷ (Field.time, Token.time)
    ∷ (Field.status, Token.char)
    ∷ []

-- The twelve fields of the satellites in use.
abbrev pub format_sats_in_use : ℕ → ℕ → List (ℕ × Token)
format_sats_in_use zero field = []
format_sats_in_use (suc n) field = (field, Token.int 2) ∷ format_sats_in_use n (field + 1)

abbrev gsa_front : List (ℕ × Token)
gsa_front =
    (Field.fix_mode, Token.char)
    ∷ (Field.fix_type, Token.int 1)
    ∷ format_sats_in_use 12 Field.sat_in_use_01

abbrev gsa_back : List (ℕ × Token)
gsa_back =
    (Field.pdop, Token.float 3 1)
    ∷ (Field.hdop, Token.float 3 1)
    ∷ (Field.vdop, Token.float 3 1)
    ∷ []

abbrev pub format_gsa : List (ℕ × Token)
format_gsa = gsa_front ++ gsa_back

abbrev pub format_gsa1 : List (ℕ × Token)
format_gsa1 = gsa_front ++ ((Field.gsa_unknown_1, Token.int 2) ∷ gsa_back)

-- `GSV_FORMAT_SAT` for `n` satellites, from the number `sat` on.
abbrev pub format_gsv_sats : ℕ → ℕ → List (ℕ × Token)
format_gsv_sats zero sat = []
format_gsv_sats (suc n) sat =
    (Field.gsv_satellite_01_prn + sat * 4, Token.int 2)
    ∷ (Field.gsv_satellite_01_elv + sat * 4, Token.int 2)
    ∷ (Field.gsv_satellite_01_azm + sat * 4, Token.int 3)
    ∷ (Field.gsv_satellite_01_snr + sat * 4, Token.int 2)
    ∷ format_gsv_sats n (sat + 1)

-- fGSV1, fGSV2, fGSV3 and fGSV: `GSV_FORMAT_HEADER` and one to four satellites.
abbrev pub format_gsv : ℕ → List (ℕ × Token)
format_gsv sats =
    (Field.gsv_message_count, Token.int 1)
    ∷ (Field.gsv_message_number, Token.int 1)
    ∷ (Field.sat_in_view, Token.int 2)
    ∷ format_gsv_sats sats 0
