-- ===== src/Nmea/Field.antt =====
-- The field numbers: the anonymous enumerations of src/spi/utils/nmea/include/nmea/Fields.h, in its
-- order, and of GSA1.h and GSV.h of src/spi/utils/nmea/src.
use precision_location_lite.Base.{ℕ}

abbrev pub fix_type : ℕ
fix_type = 0

abbrev pub fix_quality : ℕ
fix_quality = 1

abbrev pub fix_mode : ℕ
fix_mode = 2

abbrev pub latitude : ℕ
latitude = 3

abbrev pub latitude_ns : ℕ
latitude_ns = 4

abbrev pub longitude : ℕ
longitude = 5

abbrev pub longitude_ew : ℕ
longitude_ew = 6

abbrev pub altitude : ℕ
altitude = 7

abbrev pub altitude_units : ℕ
altitude_units = 8

abbrev pub speed : ℕ
speed = 9

abbrev pub direction : ℕ
direction = 10

abbrev pub declination : ℕ
declination = 11

abbrev pub declination_ew : ℕ
declination_ew = 12

abbrev pub diff : ℕ
diff = 13

abbrev pub diff_units : ℕ
diff_units = 14

abbrev pub fix_mode_indicator : ℕ
fix_mode_indicator = 15

abbrev pub status : ℕ
status = 16

abbrev pub pdop : ℕ
pdop = 17

abbrev pub hdop : ℕ
hdop = 18

abbrev pub vdop : ℕ
vdop = 19

abbrev pub time : ℕ
time = 20

abbrev pub date : ℕ
date = 21

abbrev pub dgps_time : ℕ
dgps_time = 22

abbrev pub dgps_id : ℕ
dgps_id = 23

abbrev pub sat_in_view : ℕ
sat_in_view = 24

abbrev pub sat_in_use : ℕ
sat_in_use = 25

abbrev pub sat_in_use_01 : ℕ
sat_in_use_01 = 26

abbrev pub satellite_01 : ℕ
satellite_01 = 38

abbrev pub gsa_unknown_1 : ℕ
gsa_unknown_1 = 1000

abbrev pub gsv_message_count : ℕ
gsv_message_count = 100

abbrev pub gsv_message_number : ℕ
gsv_message_number = 101

abbrev pub gsv_satellite_01_prn : ℕ
gsv_satellite_01_prn = 102

abbrev pub gsv_satellite_01_elv : ℕ
gsv_satellite_01_elv = 103

abbrev pub gsv_satellite_01_azm : ℕ
gsv_satellite_01_azm = 104

abbrev pub gsv_satellite_01_snr : ℕ
gsv_satellite_01_snr = 105
