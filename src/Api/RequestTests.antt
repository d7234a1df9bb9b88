-- ===== src/Api/RequestTests.antt =====
-- A request and an answer of a small scan, and their theorems at them.
use precision_location_lite.Base.{
  ℕ, ◌+◌, ◌^◌, ◌<◌, length, true, [], ◌∷◌, ◌++◌, none, some, ◌≡◌, refl, arith, Bytes, codes, ◌==◌,
}
use precision_location_lite.Base.Int.{pos, negsuc}
use precision_location_lite.Wifi.AccessPoint.{ScannedAccessPoint}
use precision_location_lite.Cell.Scanned.{ScannedCellTower}
use precision_location_lite.Gps.{Fix}
use precision_location_lite.Cell.GlobalId.{made_gsm}
use precision_location_lite.Api.Request.{
  Printing, Scan, print_long, location_rq, x_access_points, x_cell_towers, x_gps_locations,
  x_gps_location, append_buffer, x_access_point, x_ssid, x_cell_tower,
}
use precision_location_lite.Api.Request.Texts.{print_long-IsPlain, print_long-IsFull}
use precision_location_lite.Api.Request.Tree.{location_request}
use precision_location_lite.Base.{bytes_eq, ◌↔◌}
use precision_location_lite.Base.Libc.{print_int}
use precision_location_lite.Api.Xml.{
  xml_utf8_test, complete_utf8, decode_utf8_first_byte, xml_escape,
}
use precision_location_lite.Api.Dom.{Namespace, XmlNode, element, text, end, next, children_of}
use precision_location_lite.Api.Response.{Reader, parse_location_rs, select_single_node}
use precision_location_lite.Api.Response.Ages.{parse_location_rs-none_iff}
use precision_location_lite.Api.Request.{namespace_uri}
use precision_location_lite.Api.Request.Document.{read_node}
use precision_location_lite.Api.Request.Document.Reading.{size}
use precision_location_lite.Api.Request.Printable.{IsNumber}
use precision_location_lite.Api.Request.Reads.{location_rq-read}

-- Whole numbers for `double`; the largest one is 999.
abbrev whole_numbers : Printing
whole_numbers = record {
  D = ℕ;
  F = ℕ;
  print_double = λ d. print_long (pos d);
  is_max = λ d. d == 999;
  is_zero_float = λ f. f == 0;
  int_of_float = λ f. pos f;
}

numbers : (d : ℕ) → IsNumber (print_long (pos d))
numbers d = (print_long-IsFull (pos d), print_long-IsPlain (pos d))

abbrev router : ScannedAccessPoint
router = record {
  mac = 0x0F ∷ 0x0E ∷ 0x0D ∷ 0x0C ∷ 0x0B ∷ 0x0A ∷ [];
  rssi = negsuc 59;
  timestamp = 900;
  ssid = codes "A&B";
}

abbrev tower : ScannedCellTower
tower = record {
  cell = made_gsm 244 5 3001 21845;
  timing = pos 0;
  rssi = negsuc 70;
  timestamp = 1000;
}

abbrev fix : ℕ → Fix ℕ ℕ
fix latitude = record {
  quality = 1;
  latitude = latitude;
  longitude = 24;
  height = 999;
  altitude = 40;
  speed = 999;
  bearing = 999;
  hdop = 2;
  hpe = 0;
  local_time = 990;
  gps_time = 0;
  timetag = 0;
  sv_in_fix = 5;
  prn = [];
}

abbrev small_scan : Scan whole_numbers
small_scan = record { aps = router ∷ []; cells = tower ∷ []; gps = fix 60 ∷ [] }

request_text :
    location_rq whole_numbers 1000 (codes "k") (codes "u") small_scan true
    ≡ some (
        codes "<LocationRQ xmlns='http://skyhookwireless.com/wps/2005' version='2.23'>"
        ++ (codes "<authentication version='2.2'><key key='k' username='u'/></authentication>"
            ++ (codes
                  "<access-point><mac>0A0B0C0D0E0F</mac><ssid>A&amp;B</ssid><signal-strength>-60</signal-strength><age>100</age></access-point>"
                ++ codes
                    "<gsm-tower><mcc>244</mcc><mnc>5</mnc><lac>3001</lac><ci>21845</ci><rssi>-71</rssi></gsm-tower><gps-location fix='1' nsat='5'><latitude>60</latitude><longitude>24</longitude><altitude>40</altitude><age>10</age></gps-location></LocationRQ>")))
unfolding location_rq x_access_points x_cell_towers x_gps_locations x_gps_location x_access_point
    x_ssid xml_utf8_test complete_utf8 decode_utf8_first_byte xml_escape x_cell_tower print_int
request_text = refl

short_60 : length (print_long (pos 60)) < 32
unfolding print_int
short_60 = omega arith

short_24 : length (print_long (pos 24)) < 32
unfolding print_int
short_24 = omega arith

short_40 : length (print_long (pos 40)) < 32
unfolding print_int
short_40 = omega arith

location_rq-read_example :
    (text : Bytes) × (location_rq whole_numbers 1000 (codes "k") (codes "u") small_scan true
      ≡ some text)
    × (read_node
          (size (location_request whole_numbers 1000 (codes "k") (codes "u") small_scan true))
          text
        ≡ some (location_request whole_numbers 1000 (codes "k") (codes "u") small_scan true, []))
location_rq-read_example =
    location_rq-read whole_numbers numbers 1000 (codes "k") (codes "u") small_scan true
      (ground arith) (ground arith) ((omega arith, (omega arith, (omega arith, tt))), tt)
      ((λ e. cc), tt) ((short_60, short_24, (λ e. short_40), (λ e. cc), (λ e. cc), (λ e. cc)), tt)

-- `<LocationRS><location age='250'><latitude>60</latitude></location></LocationRS>`
abbrev skyhook : Namespace
skyhook = record { href = some namespace_uri; prefix = none }

abbrev found_place : XmlNode
found_place =
    element (codes "location") (some skyhook)
      (record { name = codes "age"; ns = none; content = some (codes "250") } ∷ [])
      (next (element (codes "latitude") (some skyhook) [] (next (text (codes "60")) end)) end)

abbrev answer : XmlNode
answer = element (codes "LocationRS") (some skyhook) [] (next found_place end)

-- Texts for `double`.
abbrev texts : Reader
texts = record {
  D = Bytes;
  zero_double = [];
  minus_one = codes "-1";
  atof = λ s. s;
  is_minus_one = λ s. bytes_eq s (codes "-1");
  is_not_negative = λ s. true;
  times_3_6 = λ s. s;
  to_text = λ s. s;
  to_xml = λ s. s;
}

parse_location_rs-none_iff_example :
    (parse_location_rs texts (λ i. 1000 + i) (λ i. 50) (some answer) 0 ≡ none)
    ↔ (select_single_node texts (children_of answer) (codes "location") ≡ none)
parse_location_rs-none_iff_example =
    parse_location_rs-none_iff texts (λ i. 1000 + i) (λ i. 50) answer 0

-- A number of more than 31 characters is not printed whole: one of 32 leaves a NUL behind the first
-- 31, and a longer one is read past the buffer.
too_long : x_gps_location whole_numbers 1000 (fix (10 ^ 32)) ≡ none
unfolding x_gps_location print_int
too_long = refl

cut_short :
    append_buffer (print_long (pos (10 ^ 31)))
    ≡ some (codes "1000000000000000000000000000000" ++ (0 ∷ []))
unfolding print_int
cut_short = refl
