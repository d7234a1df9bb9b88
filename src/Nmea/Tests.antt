-- ===== src/Nmea/Tests.antt =====
-- Runs of the NMEA code on concrete texts, and the theorems at inputs that meet their hypotheses.
use precision_location_lite.Base.{
  ℕ, Bool, true, false, [], ◌∷◌, ◌++◌, Option, none, some, ◌≡◌, ◌≢◌, ◌↔◌, refl, ◌>>=◌, arith, Bytes,
  codes, length, bytes_eq, if◌then◌else◌,
}
use precision_location_lite.Base.Int.{pos}
use precision_location_lite.Base.Libc.{Floats, atoi}
use precision_location_lite.Nmea.Checksum.Detection.{extract-print, calc_checksum_detects}
use precision_location_lite.Nmea.Checksum.{calc_checksum, extract_checksum, print_checksum}
use precision_location_lite.Nmea.Dataset.{Variant, Dataset, reset, set}
use precision_location_lite.Nmea.Field
use precision_location_lite.Nmea.Gsv
use precision_location_lite.Nmea.Scan.Sentences.{HasSentence, find_iff}
use precision_location_lite.Nmea.Scan.Tokens.{tokens, calc_tokens-length}
use precision_location_lite.Nmea.Scan.{find, calc_tokens}
use precision_location_lite.Nmea.Sentence.Fields.{
  HasTokens, IsOutside, IsDistinct, parse_sentence-HasTokens,
}
use precision_location_lite.Nmea.Sentence.Payload.{
  assign, payload_of, is_acceptable, parse_sentence-assign,
}
use precision_location_lite.Nmea.Sentence.{parse_sentence}
use precision_location_lite.Nmea.Stream.Chunks.{parse-append, splice, sentences}
use precision_location_lite.Nmea.Stream.Progress.{IsStep, parse-IsStep}
use precision_location_lite.Nmea.Stream.Refusal.{
  TakesFirst, parse_first-TakesFirst, parse_name_refused,
}
use precision_location_lite.Nmea.Stream.{
  gll, gga, rmc, Parsed, Junk, sentence_of, parse_name, parse_first, parse, all_sentences,
}
use precision_location_lite.Nmea.Token.Clock.{
  time_of, written_fraction, time_token-read, parse_time-asserts,
}
use precision_location_lite.Nmea.Token.{time_to_string, parse_time, parse_token}
use Prim.Native.Nat.{bit_or}

-- `double` as the text that it was read from.
abbrev text_floats : Floats
text_floats = record { D = Bytes; zero_double = []; atof = λ s. s; print = λ total decimal f. f }

abbrev gll_body : Bytes
gll_body = codes "GPGLL,4916.45,N,12311.12,W,225444.50,A*1A"

abbrev gll_text : Bytes
gll_text = codes "noise$GPGLL,4916.45,N,12311.12,W,225444.50,A*1A\r\nmore"

abbrev gsv_body : Bytes
gsv_body = codes "GPGSV,1,1,02,01,40,083,46,02,17,308,41,,,,,,,,*7D"

gll_found : find gll_text ≡ some (gll_body, codes "more")
unfolding find
gll_found = refl

-- What the stack holds in two runs.
abbrev zeros : Junk
zeros n = pos 0

abbrev sevens : Junk
sevens n = pos 7

abbrev gll_parsed : Option (Parsed Bytes)
gll_parsed = parse text_floats zeros gll_text reset all_sentences

abbrev or_empty : Option (Parsed Bytes) → Parsed Bytes
or_empty none = record { seen = 0; to = reset; next = [] }
or_empty (some p) = p

gll_time : (or_empty gll_parsed).to Field.time ≡ some (Variant.time (time_of 22 54 44 50))
unfolding parse sentence_of parse_sentence parse_token find set calc_checksum extract_checksum
    bytes_eq calc_tokens atoi parse_name Gsv.parse_gsv
gll_time = refl

extract-print_example :
    (hi : ℕ) × (lo : ℕ) × (print_checksum 0x1A ≡ hi ∷ lo ∷ []) × (extract_checksum hi lo ≡ 0x1A)
extract-print_example = extract-print 0x1A (omega arith)

calc_checksum_detects_example :
    calc_checksum (codes "GP" ++ (b'G' ∷ codes "LL"))
    ≢ calc_checksum (codes "GP" ++ (b'R' ∷ codes "LL"))
calc_checksum_detects_example =
    calc_checksum_detects (codes "GP") (codes "LL") b'G' b'R' (omega arith) (omega arith)
      (omega arith)

find_iff_example :
    (find gll_text ≡ some (gll_body, codes "more")) ↔ HasSentence gll_text gll_body (codes "more")
find_iff_example = find_iff gll_text gll_body (codes "more")

calc_tokens-length_example : calc_tokens (codes "a,,b") ≡ some (length (tokens (codes "a,,b")))
calc_tokens-length_example = calc_tokens-length (codes "a,,b")

gll-IsDistinct : IsDistinct (sentence_of gll).format
unfolding sentence_of
gll-IsDistinct = omega arith

abbrev gll_dataset : Option (Bool × Dataset Bytes)
gll_dataset = parse_sentence text_floats (pos 0) (sentence_of gll) gll_body reset

abbrev dataset_of : Option (Bool × Dataset Bytes) → Dataset Bytes
dataset_of none = reset
dataset_of (some r) = r.1

gll_accepted : gll_dataset ≡ some (true, dataset_of gll_dataset)
unfolding parse sentence_of parse_sentence parse_token find set calc_checksum extract_checksum
    bytes_eq calc_tokens atoi parse_name Gsv.parse_gsv
gll_accepted = refl

parse_sentence-assign_example : gll_dataset ≡ (
    if is_acceptable text_floats (sentence_of gll) gll_body
    then (do
      to' ←
          assign text_floats
            (pos 0)
            (sentence_of gll).format
            (tokens (payload_of text_floats (sentence_of gll) gll_body))
            reset
      some (true, to'))
    else some (false, reset))
parse_sentence-assign_example =
    parse_sentence-assign text_floats (pos 0) (sentence_of gll) gll_body reset

parse_sentence-HasTokens_example :
    HasTokens text_floats
      (pos 0)
      (sentence_of gll).format
      (tokens (payload_of text_floats (sentence_of gll) gll_body))
      (dataset_of gll_dataset)
    × ((g : ℕ) → IsOutside g (sentence_of gll).format → dataset_of gll_dataset g ≡ reset g)
parse_sentence-HasTokens_example =
    parse_sentence-HasTokens text_floats (pos 0) (sentence_of gll) gll_body reset
      (dataset_of gll_dataset) gll-IsDistinct gll_accepted

gll_done : gll_parsed ≡ some (or_empty gll_parsed)
unfolding parse sentence_of parse_sentence parse_token find set calc_checksum extract_checksum
    bytes_eq calc_tokens atoi parse_name Gsv.parse_gsv
gll_done = refl

parse-append_example :
    parse text_floats
      (splice (sentences gll_text) zeros sevens)
      (gll_text ++ codes "$GP")
      reset
      all_sentences
    ≡ (do
      q ←
          parse text_floats sevens
            ((or_empty gll_parsed).next ++ codes "$GP")
            (or_empty gll_parsed).to
            all_sentences
      some (record q { seen = bit_or (or_empty gll_parsed).seen q.seen }))
parse-append_example =
    parse-append text_floats zeros sevens gll_text (codes "$GP") reset all_sentences
      (or_empty gll_parsed) gll_done

parse-IsStep_example :
    IsStep text_floats (record { seen = 0; to = reset; next = gll_text }) (or_empty gll_parsed)
parse-IsStep_example =
    parse-IsStep text_floats zeros gll_text reset all_sentences (or_empty gll_parsed) gll_done

gga_refuses : parse_name text_floats (pos 0) gga gll_body reset ≡ some (false, reset)
unfolding parse sentence_of parse_sentence parse_token find set calc_checksum extract_checksum
    bytes_eq calc_tokens atoi parse_name Gsv.parse_gsv
gga_refuses = refl

parse_name_refused_example : ◌≡◌ {A = Dataset Bytes} reset reset
parse_name_refused_example =
    parse_name_refused text_floats (pos 0) gga gll_body reset reset gga_refuses

abbrev gll_first : Option (ℕ × Dataset Bytes)
gll_first = parse_first text_floats (pos 0) (rmc ∷ gll ∷ []) gll_body reset

abbrev first_of : Option (ℕ × Dataset Bytes) → ℕ × Dataset Bytes
first_of none = (0, reset)
first_of (some r) = r

gll_first_done : gll_first ≡ some (first_of gll_first)
unfolding parse sentence_of parse_sentence parse_token find set calc_checksum extract_checksum
    bytes_eq calc_tokens atoi parse_name Gsv.parse_gsv parse_first
gll_first_done = refl

parse_first-TakesFirst_example :
    TakesFirst text_floats (pos 0) gll_body reset (first_of gll_first) (rmc ∷ gll ∷ [])
parse_first-TakesFirst_example =
    parse_first-TakesFirst text_floats (pos 0) (rmc ∷ gll ∷ []) gll_body reset (first_of gll_first)
      gll_first_done

time_token-read_example :
    (text : Bytes) × (time_to_string (time_of 22 54 44 5) ≡ some text)
    × (parse_time (pos 0) text ≡ some (some (time_of 22 54 44 (written_fraction 5))))
time_token-read_example =
    time_token-read (pos 0) 22 54 44 5 (omega arith) (omega arith) (omega arith) (omega arith)

parse_time-asserts_example :
    (parse_time (pos 0) (codes "225444.") ≡ none) ↔ (length (codes "225444.") ≡ 7)
parse_time-asserts_example = parse_time-asserts (pos 0) (codes "225444.")
