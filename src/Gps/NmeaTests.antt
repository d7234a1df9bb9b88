-- ===== src/Gps/NmeaTests.antt =====
-- Runs of the NMEA protocol on pieces of a text, and its theorem at one of them.
use precision_location_lite.Base.{
  Bool, true, [], ◌∷◌, ◌++◌, Option, none, some, ◌≡◌, refl, arith, Bytes, codes, bytes_eq,
}
use precision_location_lite.Base.Int.{pos}
use precision_location_lite.Gps.NmeaProtocol.Calls.{Nmea, is_text-IsText}
use precision_location_lite.Gps.NmeaProtocol.Feeding.{
  whole, met, Feeds, done, feed, IsWhole, Feeds-IsWhole,
}
use precision_location_lite.Gps.NmeaProtocol.{Platform, Clocks, c_string, try_parse}
use precision_location_lite.Gps.Protocol.{parse, new_protocol}
use precision_location_lite.Nmea.Info.{new_info, get_sats_in_view}
use precision_location_lite.Nmea.Scan.{find}
use precision_location_lite.Nmea.Checksum.{calc_checksum, extract_checksum}
use precision_location_lite.Nmea.Dataset.{set}
use precision_location_lite.Nmea.Gsv.{parse_gsv}
use precision_location_lite.Nmea.Scan.{calc_tokens}
use precision_location_lite.Nmea.Sentence.{parse_sentence}
use precision_location_lite.Nmea.Stream
use precision_location_lite.Nmea.Token.{parse_token}

-- `double` as the text that it was read from.
abbrev text_platform : Platform
text_platform = record {
  D = Bytes;
  F = Bytes;
  zero_double = [];
  max_double = [];
  zero_float = [];
  op = record {
    negate = λ a. b'-' ∷ a;
    add = λ a b. a ++ b;
    subtract = λ a b. a;
    multiply = λ a b. a;
    divide = λ a b. a;
    whole = λ a. a;
    number = λ n. [];
    thousandths = λ n. [];
  };
  of_int = λ n. [];
  to_float = λ a. a;
  atof = λ s. s;
  print = λ total decimal f. f;
  timegm = λ t. 0;
}

abbrev first : Bytes
first = codes "noise$GPGLL,4916.45,N,12311.12,W"

abbrev second : Bytes
second = codes ",225444.50,A*1A\r\n$GP"

abbrev clocks : Clocks
clocks = record { tick = 100; now = 1000; junk = λ n. pos 0 }

abbrev start : Nmea text_platform
start =
    new_protocol
      (record { info = new_info; gsv_timer = 0; gps_data = record { fix = none; satellites = [] } })

abbrev result : Option (Bool × Nmea text_platform) → Nmea text_platform
result none = start
result (some (ok, st)) = st

abbrev middle : Nmea text_platform
middle = result (parse (try_parse text_platform clocks) first start)

abbrev last : Nmea text_platform
last = result (parse (try_parse text_platform clocks) second middle)

first_call : parse (try_parse text_platform clocks) first start ≡ some (true, middle)
unfolding parse try_parse find Stream.parse c_string Stream.parse_name parse_sentence bytes_eq
    parse_gsv calc_checksum extract_checksum calc_tokens parse_token set new_info get_sats_in_view
first_call = refl

second_call : parse (try_parse text_platform clocks) second middle ≡ some (true, last)
unfolding parse try_parse find Stream.parse c_string Stream.parse_name parse_sentence bytes_eq
    parse_gsv calc_checksum extract_checksum calc_tokens parse_token set new_info get_sats_in_view
second_call = refl

unread : last.parse_buffer ≡ codes "$GP"
unfolding parse try_parse find Stream.parse c_string Stream.parse_name parse_sentence bytes_eq
    parse_gsv calc_checksum extract_checksum calc_tokens parse_token set new_info get_sats_in_view
unread = refl

fed : Feeds text_platform ((clocks, first) ∷ (clocks, second) ∷ []) start last
unfolding parse try_parse find Stream.parse c_string
fed =
    feed (is_text-IsText first refl) (omega arith) (omega arith) first_call
      (feed (is_text-IsText second refl) (omega arith) (omega arith) second_call (done last))

nothing_found : find start.parse_buffer ≡ none
unfolding find
nothing_found = refl

Feeds-IsWhole_example :
    IsWhole text_platform
      (met text_platform fed)
      (whole text_platform ((clocks, first) ∷ (clocks, second) ∷ []))
      start
      last
Feeds-IsWhole_example = Feeds-IsWhole text_platform tt nothing_found fed
