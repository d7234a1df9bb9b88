-- ===== src/Nmea/Sentence/Payload.antt =====
-- `Sentence::parse` against a description with no offsets: split the payload at its commas, and
-- store the tokens in the fields of the format, one by one.
use precision_location_lite.Base.{
  ℕ, suc, ◌+◌, ◌-◌, ◌≤◌, ◌<◌, Bool, true, false, ◌&&◌, List, [], ◌∷◌, Option, none, some, ◌≡◌, refl,
  ap, arith, leb, ◌==◌, if◌then◌else◌, ◌>>=◌, Bool-cases, Option-cases, inl, inr, Bytes, bytes_eq,
  take, drop, length, length-drop, drop-drop, le→leb, take_all,
}
use mathlib.Core.Path.{fun_ext}
use precision_location_lite.Base.Int.{ℤ}
use precision_location_lite.Base.Libc.{Floats}
use precision_location_lite.Nmea.Checksum.{calc_checksum, extract_checksum}
use precision_location_lite.Nmea.Dataset.{Dataset}
use precision_location_lite.Nmea.Scan.Tokens.{tokens, tokens_first, tokens_last, calc_tokens-length}
use precision_location_lite.Nmea.Scan.{char_at, find_char}
use precision_location_lite.Nmea.Sentence.{
  Sentence, store_token, parse_fields, parse_payload, parse_sentence,
}
use precision_location_lite.Nmea.Token.{Token}

module _ (fl : Floats) where
  -- One token for each field, in order; `none` also where the tokens run out.
  unfoldable pub assign : ℤ → List (ℕ × Token) → List Bytes → Dataset fl.D → Option (Dataset fl.D)
  assign junk [] ts to = some to
  assign junk ((field, token) ∷ format) [] to = none
  assign junk ((field, token) ∷ format) (t ∷ ts) to = do
    to' ← store_token fl junk field token t to
    assign junk format ts to'

  fewer :
      (format : List (ℕ × Token)) (t : Bytes) (ts : List Bytes)
      → length format < length (t ∷ ts)
      → length format ≤ length ts
  fewer format t ts h = omega arith

  add_one_last : (a i : ℕ) → a + i + 1 ≡ a + suc i
  add_one_last a i = omega arith

  last_field :
      (junk : ℤ) (field : ℕ) (token : Token) (format : List (ℕ × Token)) (payload : Bytes)
      (offset : ℕ) (to : Dataset fl.D)
      → offset ≤ length payload
      → suc (length format) ≤ length (tokens (drop offset payload))
      → find_char (drop offset payload) b',' ≡ none
      → parse_fields fl junk payload ((field, token) ∷ format) offset to
        ≡ assign junk ((field, token) ∷ format) (tokens (drop offset payload)) to
  unfolding parse_fields assign
  last_field junk field token [] payload offset to le enough last =
      rw
        (
          le→leb _ _ le,
          last,
          tokens_last (drop offset payload) last,
          take_all (length payload - offset) (drop offset payload)
              (omega (arith, length-drop offset payload)),
        )
        refl
  last_field junk field token (x ∷ format) payload offset to le enough last =
      absurd (
        omega (arith, ap (λ (ts : List Bytes). length ts) (tokens_last (drop offset payload) last)))

  -- From an offset on, the loop assigns the tokens that begin there.
  parse_fields-assign :
      (junk : ℤ) (format : List (ℕ × Token)) (payload : Bytes) (offset : ℕ) (to : Dataset fl.D)
      → offset ≤ length payload
      → length format ≤ length (tokens (drop offset payload))
      → parse_fields fl junk payload format offset to
        ≡ assign junk format (tokens (drop offset payload)) to
  unfolding parse_fields assign
  parse_fields-assign junk [] payload offset to le enough = refl
  parse_fields-assign junk ((field, token) ∷ format) payload offset to le enough =
      elim (Option-cases (find_char (drop offset payload) b',')) [
        | inl last ↦ last_field junk field token format payload offset to le enough last
        | inr (i, comma) ↦
            let (split, lt) = tokens_first (drop offset payload) i comma in
            rw (le→leb _ _ le, comma, split, drop-drop, add_one_last offset i)
              (ap
                (λ (k : Dataset fl.D → Option (Dataset fl.D)).
                  store_token fl junk field token (take i (drop offset payload)) to >>= k)
                (fun_ext λ to'.
                  parse_fields-assign junk format payload (offset + suc i) to'
                    (omega (arith, length-drop offset payload))
                    (fewer format (take i (drop offset payload))
                      (tokens (drop (offset + suc i) payload)) (rw (split, drop-drop) at enough))))
      ]

  -- The number of tokens decides, then the tokens are assigned.
  pub parse_payload-assign :
      (junk : ℤ) (format : List (ℕ × Token)) (payload : Bytes) (to : Dataset fl.D)
      → parse_payload fl junk format payload to ≡ (
          if length (tokens payload) == length format
          then (do to' ← assign junk format (tokens payload) to; some (true, to'))
          else some (false, to))
  unfolding parse_payload
  parse_payload-assign junk format payload to =
      rw calc_tokens-length (elim (Bool-cases (length (tokens payload) == length format)) [
        | inl same ↦
            rw (same, parse_fields-assign junk format payload 0 to (omega arith) (ground arith))
        | inr other ↦ rw other
      ])

  -- What stands between the header's comma and the '*'.
  abbrev pub payload_of : Sentence → Bytes → Bytes
  payload_of sentence s =
      let n = length sentence.head in take (length s - 3 - n - 1) (drop (n + 1) s)

  -- Long enough, with the header, the checksum and the number of tokens of the sentence.
  abbrev pub is_acceptable : Sentence → Bytes → Bool
  is_acceptable sentence s =
      let digits = drop (length s - 3 + 1) s in
      leb (length sentence.head + 4) (length s)
      && bytes_eq sentence.head (take (length sentence.head) s)
      && calc_checksum (take (length s - 3) s)
        == extract_checksum (char_at digits) (char_at (drop 1 digits))
      && length (tokens (payload_of sentence s)) == length sentence.format

  -- `Sentence::parse` accepts a text exactly if it is long enough and has the header, the checksum
  -- and the number of tokens of the sentence; then it assigns the tokens between the commas to the
  -- fields of the format in order, and else it leaves the dataset as it was. No token is looked for
  -- behind the end of the payload.
  pub parse_sentence-assign :
      (junk : ℤ) (sentence : Sentence) (s : Bytes) (to : Dataset fl.D)
      → parse_sentence fl junk sentence s to ≡ (
          if is_acceptable sentence s
          then (do
            to' ← assign junk sentence.format (tokens (payload_of sentence s)) to
            some (true, to'))
          else some (false, to))
  unfolding parse_sentence
  parse_sentence-assign junk sentence s to =
      rw parse_payload-assign
        (elim (Bool-cases (length (tokens (payload_of sentence s)) == length sentence.format)) [
          | inl same ↦ rw same (ground arith)
          | inr other ↦ rw other (ground arith)
        ])
