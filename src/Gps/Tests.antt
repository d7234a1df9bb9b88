-- ===== src/Gps/Tests.antt =====
-- Runs of the GPS code on concrete bytes, and the theorems at inputs that meet their hypotheses.
use Prim.Native.Nat.{bit_and}
use precision_location_lite.Base.{
  ℕ, zero, suc, ◌/◌, not, ◌||◌, List, [], ◌∷◌, ◌++◌, Option, none, some, ◌≡◌, refl, ◌>>=◌, arith,
  Bytes, length, leb, ◌==◌, if◌then◌else◌,
}
use precision_location_lite.Base.Int.{ℤ, pos, quot}
use precision_location_lite.Gps.Sirf.Frame.Layout.{frame}
use precision_location_lite.Gps.Sirf.Frame.Rounds.{State}
use precision_location_lite.Gps.Sirf.Frame.Runs.{IsOutcome, try_parse-IsOutcome}
use precision_location_lite.Gps.Sirf.Frame.Texts.{
  frames, dispatch_all, try_parse-frames, try_parse-one_byte,
}
use precision_location_lite.Gps.Sirf.Frame.{try_parse}
use precision_location_lite.Gps.Sirf.Input.{
  open_stream, avail, read8, read16, read32, rewind, skip, checksum,
}
use precision_location_lite.Gps.Sirf.Input.Reads.{at, be16}
use precision_location_lite.Gps.Sirf.Message.Channels.{
  satellites_at, timetag_at, parse_satellites-at,
}
use precision_location_lite.Gps.Sirf.Message.Position.{fix_at, parse_fix-at}
use precision_location_lite.Gps.Sirf.Message.{parse_fix, parse_satellites}
use precision_location_lite.Gps.{Reals, Satellite, clear}

-- Integers and natural numbers in place of `double` and `float`.
abbrev int_reals : Reals
int_reals = record {
  D = ℤ;
  F = ℕ;
  zero_double = pos 0;
  max_double = pos 2147483647;
  double_of_int = λ n. n;
  div_double = λ a k. quot a k;
  zero_float = 0;
  float_of = λ n. n;
  div_float = λ a k. a / k;
  leb_float = λ k a. leb k a;
}

abbrev zeros : ℕ → Bytes
zeros zero = []
zeros (suc n) = 0 ∷ zeros n

-- Message 4 with one channel: satellite 7 at 90 and 45 degrees, with a ratio of 40.
abbrev sats_payload : Bytes
sats_payload =
    4 ∷ 0 ∷ 1 ∷ 0 ∷ 0 ∷ 0 ∷ 100 ∷ 1 ∷ 7 ∷ 60 ∷ 90 ∷ 0 ∷ 0 ∷ 0 ∷ 0 ∷ 0 ∷ 0 ∷ 0 ∷ 0 ∷ 0 ∷ 0 ∷ 0 ∷ 40
    ∷ []

-- Message 41 with a fix at 52.5 and 13 degrees, on the satellites 1, 3 and 4.
abbrev fix_payload : Bytes
fix_payload =
    41
    ∷ 0
    ∷ 0
    ∷ 0
    ∷ 4
    ∷ 0
    ∷ 1
    ∷ (zeros 4
        ++ (zeros 8
            ++ (0
                ∷ 0
                ∷ 0
                ∷ 13
                ∷ 31
                ∷ 74
                ∷ 222
                ∷ 64
                ∷ 7
                ∷ 191
                ∷ 164
                ∷ 128
                ∷ (zeros 48 ++ (zeros 10 ++ (10 ∷ 0 ∷ []))))))

fix_length : length fix_payload ≡ 91
fix_length = refl

abbrev sats_read : Option (List (Satellite ℤ))
sats_read = parse_satellites int_reals (at sats_payload 1)

sats_run :
    sats_read
    ≡ some (
        record {
          satellite_id = 7;
          timetag = pos 316569601;
          azimuth = 90;
          elevation = pos 45;
          snr = 40;
        }
        ∷ [])
unfolding parse_satellites read8 read16 read32 skip
sats_run = refl

parse_fix-at_example :
    parse_fix int_reals 0 (at fix_payload 1)
    ≡ some (
        if not (length fix_payload == 91) || (bit_and (be16 fix_payload 3) 7 == 0)
        then none
        else some (fix_at int_reals 0 fix_payload))
parse_fix-at_example = parse_fix-at int_reals 0 fix_payload

parse_satellites-at_example :
    parse_satellites int_reals (at sats_payload 1)
    ≡ some (satellites_at (timetag_at int_reals sats_payload) sats_payload 1 8)
parse_satellites-at_example = parse_satellites-at int_reals sats_payload

abbrev noise_and_frame : Bytes
noise_and_frame = 0xA0 ∷ 0xA2 ∷ 0 ∷ 0 ∷ 1 ∷ (frame sats_payload ++ (0xA0 ∷ []))

try_parse-IsOutcome_example :
    (o : Option (State int_reals 0)) × IsOutcome int_reals 0 noise_and_frame o
    × (try_parse int_reals 0 noise_and_frame (clear int_reals)
        ≡ (do end ← o; some (end.parsed_bytes, end.gps_data)))
try_parse-IsOutcome_example =
    try_parse-IsOutcome int_reals 0 noise_and_frame (clear int_reals) (omega arith)

noise_run : (try_parse int_reals 0 noise_and_frame (clear int_reals) >>= λ r. some r.0) ≡ some 36
unfolding try_parse open_stream avail read8 read16 read32 rewind skip checksum parse_satellites
noise_run = refl

-- The short message 4 that fails an assertion.
short_run : try_parse int_reals 0 (frame (4 ∷ 0 ∷ 1 ∷ [])) (clear int_reals) ≡ none
unfolding try_parse open_stream avail read8 read16 read32 rewind skip checksum parse_satellites
short_run = refl

try_parse-frames_example :
    try_parse int_reals 0 (frames int_reals 0 (sats_payload ∷ fix_payload ∷ [])) (clear int_reals)
    ≡ (do
      d ← dispatch_all int_reals 0 (sats_payload ∷ fix_payload ∷ []) (clear int_reals)
      some (130, d))
try_parse-frames_example =
    try_parse-frames int_reals 0 sats_payload (fix_payload ∷ []) (clear int_reals)
      ((omega arith, omega arith), ((omega arith, omega arith), tt))

try_parse-one_byte_example :
    try_parse int_reals 0
      (frames int_reals 0 (sats_payload ∷ []) ++ frame (2 ∷ []))
      (clear int_reals)
    ≡ (do d ← dispatch_all int_reals 0 (sats_payload ∷ []) (clear int_reals); some (31, d))
try_parse-one_byte_example =
    try_parse-one_byte int_reals 0 (sats_payload ∷ []) 2 (clear int_reals)
      ((omega arith, omega arith), tt)
