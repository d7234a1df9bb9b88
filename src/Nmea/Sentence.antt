-- ===== src/Nmea/Sentence.antt =====
-- The class `Sentence` of src/spi/utils/nmea/src/Sentence.cpp: what a sentence looks like on the
-- wire. A failed `assert` is `none`.
pub mod Payload
pub mod Fields
use precision_location_lite.Base.{
  ℕ, zero, suc, ◌+◌, ◌-◌, ◌*◌, Bool, true, false, not, ◌&&◌, ◌||◌, List, [], ◌∷◌, ◌++◌, Option,
  none, some, ltb, leb, ◌==◌, if◌then◌else◌, ◌>>=◌, Bytes, take, drop, length, bytes_eq,
}
use precision_location_lite.Base.Int.{ℤ}
use precision_location_lite.Base.Libc.{Floats}
use precision_location_lite.Nmea.Checksum.{calc_checksum, extract_checksum, print_checksum}
use precision_location_lite.Nmea.Dataset.{Variant, Dataset, is_present, get, set, remove}
use precision_location_lite.Nmea.Scan.{char_at, find_char, calc_tokens}
use precision_location_lite.Nmea.Token.{Token, to_string_token, parse_token}

-- `_head` and `_format`.
pub record Sentence : Type 0 where
  pub head : Bytes
  pub format : List (ℕ × Token)

module _ (fl : Floats) where
  -- The loop of `toString` over the format: what it appends to `s`.
  unfoldable pub write_fields : Dataset fl.D → List (ℕ × Token) → Option Bytes
  write_fields from [] = some []
  write_fields from ((field, token) ∷ format) = do
    value ← if is_present from field then to_string_token fl token (get from field) else some []
    rest ← write_fields from format
    some (b',' ∷ (value ++ rest))

  -- '$', the sentence, '*', the checksum and the end of the line.
  abbrev pub frame : Bytes → Bytes
  frame s = b'$' ∷ (s ++ (b'*' ∷ (print_checksum (calc_checksum s) ++ (b'\r' ∷ b'\n' ∷ []))))

  unfoldable pub sentence_to_string : Sentence → Dataset fl.D → Option Bytes
  unfolding write_fields
  sentence_to_string sentence from = do
    fields ← write_fields from sentence.format
    some (frame (sentence.head ++ fields))

  -- One round of the loop of `parsePayload`: the value is stored, or the field is removed.
  unfoldable pub store_token : ℤ → ℕ → Token → Bytes → Dataset fl.D → Option (Dataset fl.D)
  store_token junk field token s to =
      if ltb 0 (length s)
      then (do
        value ← parse_token fl junk token s
        some (elim value [ none ↦ remove to field | some v ↦ set to field v ]))
      else some (remove to field)

  unfoldable pub parse_fields :
      ℤ → Bytes → List (ℕ × Token) → ℕ → Dataset fl.D → Option (Dataset fl.D)
  unfolding store_token
  parse_fields junk payload [] offset to = some to
  parse_fields junk payload ((field, token) ∷ format) offset to =
      let p = drop offset payload in
      let remaining = length payload - offset in
      let token_length : ℕ = elim (find_char p b',') [ none ↦ remaining | some i ↦ i ] in
      let round = (do
        to' ← store_token junk field token (take token_length p) to
        parse_fields junk payload format (offset + token_length + 1) to') in
      if leb offset (length payload) then round else none

  -- The flag that the C++ function returns, with the dataset; `none` also if `calcTokens` ran dry.
  unfoldable pub parse_payload :
      ℤ → List (ℕ × Token) → Bytes → Dataset fl.D → Option (Bool × Dataset fl.D)
  unfolding parse_fields
  parse_payload junk format payload to = do
    n ← calc_tokens payload
    let fields = parse_fields junk payload format 0 to
    if n == length format then (do to' ← fields; some (true, to')) else some (false, to)

  -- `s` is the sentence as `find` returns it: `length` bytes, with no '$' and no end of line.
  unfoldable pub parse_sentence : ℤ → Sentence → Bytes → Dataset fl.D → Option (Bool × Dataset fl.D)
  unfolding parse_payload
  parse_sentence junk sentence s to =
      let n = length sentence.head in
      let checksum_offset = length s - 3 in
      let digits = drop (checksum_offset + 1) s in
      if ltb (length s) (n + 4)
      then some (false, to)
      else if not (bytes_eq sentence.head (take n s))
      then some (false, to)
      else if not (
          calc_checksum (take checksum_offset s)
          == extract_checksum (char_at digits) (char_at (drop 1 digits)))
      then some (false, to)
      else parse_payload junk sentence.format (take (checksum_offset - n - 1) (drop (n + 1) s)) to
