-- ===== src/Nmea/Stream.antt =====
-- `generate` and `parse` of src/spi/utils/nmea/src/NMEA.cpp: the sentences of a text, one after the
-- other, into one dataset. A failed `assert` is `none`.
pub mod Chunks
pub mod Progress
pub mod Refusal
use Prim.Native.Nat.{bit_and, bit_or}
use precision_location_lite.Base.{
  ℕ, zero, suc, ◌+◌, ◌-◌, Bool, true, false, not, List, [], ◌∷◌, ◌++◌, Option, none, some, ◌==◌,
  if◌then◌else◌, ◌>>=◌, Bytes, codes, length,
}
use precision_location_lite.Base.Int.{ℤ}
use precision_location_lite.Base.Libc.{Floats}
use precision_location_lite.Nmea.Dataset.{Dataset}
use precision_location_lite.Nmea.Format.{
  format_gga, format_gsa, format_gsa1, format_gsv, format_rmc, format_rmc1, format_gll,
}
use precision_location_lite.Nmea.Gsv.{gsv_to_string, parse_gsv}
use precision_location_lite.Nmea.Scan.{find}
use precision_location_lite.Nmea.Sentence.{Sentence, sentence_to_string, parse_sentence}

-- The constant sentence objects sGGA, sGSA, … by their names.
pub data SentenceName : Type 0 where
  gga gsa gsa1 gsv gsv1 gsv2 gsv3 rmc rmc1 gll : SentenceName

-- The enumerations of NMEA.h and NMEA.cpp. `sentence_id` is `toSentenceId`.
abbrev pub sentence_bit : SentenceName → ℕ
sentence_bit gga = 0x00000001
sentence_bit gsa = 0x00000002
sentence_bit gsv = 0x00000004
sentence_bit rmc = 0x00000008
sentence_bit gll = 0x00000010
sentence_bit gsa1 = 0x00010000
sentence_bit rmc1 = 0x00020000
sentence_bit gsv1 = 0x00400000
sentence_bit gsv2 = 0x00800000
sentence_bit gsv3 = 0x01000000

abbrev pub all_sentences : ℕ
all_sentences = 0x0000FFFF

unfoldable pub sentence_id : SentenceName → ℕ
sentence_id gga = sentence_bit gga
sentence_id gsa = sentence_bit gsa
sentence_id gsa1 = sentence_bit gsa
sentence_id gsv = sentence_bit gsv
sentence_id gsv1 = sentence_bit gsv
sentence_id gsv2 = sentence_bit gsv
sentence_id gsv3 = sentence_bit gsv
sentence_id rmc = sentence_bit rmc
sentence_id rmc1 = sentence_bit rmc
sentence_id gll = sentence_bit gll

unfoldable pub sentence_of : SentenceName → Sentence
sentence_of gga = record { head = codes "GPGGA"; format = format_gga }
sentence_of gsa = record { head = codes "GPGSA"; format = format_gsa }
sentence_of gsa1 = record { head = codes "GPGSA"; format = format_gsa1 }
sentence_of gsv = record { head = codes "GPGSV"; format = format_gsv 4 }
sentence_of gsv1 = record { head = codes "GPGSV"; format = format_gsv 1 }
sentence_of gsv2 = record { head = codes "GPGSV"; format = format_gsv 2 }
sentence_of gsv3 = record { head = codes "GPGSV"; format = format_gsv 3 }
sentence_of rmc = record { head = codes "GPRMC"; format = format_rmc }
sentence_of rmc1 = record { head = codes "GPRMC"; format = format_rmc1 }
sentence_of gll = record { head = codes "GPGLL"; format = format_gll }

-- The objects of the class `GSVSentence`.
abbrev pub is_gsv : SentenceName → Bool
is_gsv gsv = true
is_gsv gsv1 = true
is_gsv gsv2 = true
is_gsv gsv3 = true
is_gsv _ = false

-- `if (s & X) sentences.push_back(&sX)`, in the order of `getSentences`.
unfoldable pub select_sentences : ℕ → List SentenceName → List SentenceName
select_sentences s [] = []
select_sentences s (name ∷ names) =
    let rest = select_sentences s names in
    if bit_and s (sentence_bit name) == 0 then rest else name ∷ rest

unfoldable pub get_sentences : ℕ → List SentenceName
unfolding select_sentences
get_sentences s =
    select_sentences s (gga ∷ gsa ∷ gsa1 ∷ gsv ∷ gsv1 ∷ gsv2 ∷ gsv3 ∷ rmc ∷ rmc1 ∷ gll ∷ [])

-- The first lines of `parse`: what is asked for brings its variants along.
unfoldable pub with_variants : ℕ → ℕ
with_variants s =
    let s₁ = if bit_and s 0x2 == 0 then s else bit_or s 0x10000 in
    let s₂ = if bit_and s₁ 0x8 == 0 then s₁ else bit_or s₁ 0x20000 in
    if bit_and s₂ 0x4 == 0 then s₂ else bit_or s₂ (bit_or (bit_or 0x400000 0x800000) 0x1000000)

-- What the stack holds, one number for each sentence that is read: other calls find other numbers.
abbrev pub Junk : Type 0
Junk = ℕ → ℤ

abbrev pub later : Junk → Junk
later junk n = junk (suc n)

-- What `parse` leaves: the sentences seen, the dataset, and the unread text.
pub record Parsed (D : Type 0) : Type 0 where
  pub seen : ℕ
  pub to : Dataset D
  pub next : Bytes

module _ (fl : Floats) where
  -- The virtual functions.
  unfoldable pub name_to_string : SentenceName → Dataset fl.D → Option Bytes
  unfolding sentence_of
  name_to_string name from =
      if is_gsv name
      then gsv_to_string fl (sentence_of name) from
      else sentence_to_string fl (sentence_of name) from

  unfoldable pub parse_name : ℤ → SentenceName → Bytes → Dataset fl.D → Option (Bool × Dataset fl.D)
  unfolding sentence_of
  parse_name junk name s to =
      if is_gsv name
      then parse_gsv fl junk (sentence_of name) s to
      else parse_sentence fl junk (sentence_of name) s to

  unfoldable pub generate_all : List SentenceName → Dataset fl.D → Option Bytes
  unfolding name_to_string
  generate_all [] from = some []
  generate_all (name ∷ names) from = do
    text ← name_to_string name from
    rest ← generate_all names from
    some (text ++ rest)

  unfoldable pub generate : Dataset fl.D → ℕ → Option Bytes
  unfolding generate_all get_sentences
  generate from s = generate_all (get_sentences s) from

  -- The inner loop of `parse`; `junk` is what the stack holds where the time of the sentence is read,
  -- of which a format has one at most: the first sentence that accepts the text, with its id
  -- or 0.
  unfoldable pub parse_first :
      ℤ → List SentenceName → Bytes → Dataset fl.D → Option (ℕ × Dataset fl.D)
  unfolding sentence_id
  parse_first junk [] s to = some (0, to)
  parse_first junk (name ∷ names) s to = do
    (accepted, to') ← parse_name junk name s to
    let more = parse_first junk names s to'
    if accepted then some (sentence_id name, to') else more

  -- The outer loop, with a bound on its rounds; each round takes a '$' and an end of line at least.
  -- `junk n` is what the stack holds in the n-th round.
  unfoldable pub parse_loop : ℕ → Junk → List SentenceName → Parsed fl.D → Option (Parsed fl.D)
  unfolding parse_first
  parse_loop zero junk names st = some st
  parse_loop (suc fuel) junk names st = elim (find st.next) [
    | none ↦ some st
    | some (s, next) ↦ (do
      (id, to) ← parse_first (junk zero) names s st.to
      parse_loop fuel (later junk) names
          (record { seen = bit_or st.seen id; to = to; next = next }))
  ]

  -- `parse` returns `next - from`, here as the unread text `next`.
  unfoldable pub parse : Junk → Bytes → Dataset fl.D → ℕ → Option (Parsed fl.D)
  unfolding parse_loop get_sentences with_variants
  parse junk from to s =
      parse_loop (length from) junk (get_sentences (with_variants s))
        (record { seen = 0; to = to; next = from })

  -- The number of bytes that `parse` has taken from `from`.
  abbrev pub bytes_parsed : Bytes → Parsed fl.D → ℕ
  bytes_parsed from parsed = length from - length parsed.next
