-- ===== src/Api/Xml.antt =====
-- `xmlEscape` and `xmlUtf8Test` of src/spi/utils/xml/XmlUtils.cpp. A failed `assert` is `none`.
pub mod Escape
pub mod Utf8
use Prim.Native.Nat.{bit_and, bit_or}
use precision_location_lite.Base.{
  ℕ, zero, suc, ◌+◌, ◌-◌, ◌*◌, Bool, true, false, not, ◌&&◌, ◌||◌, List, [], ◌∷◌, ◌++◌, Option,
  none, some, ◌==◌, leb, ltb, if◌then◌else◌, ◌>>=◌, Bytes, codes, length, drop,
}

-- The characters at which the first loop stops.
abbrev pub is_special : ℕ → Bool
is_special c = c == b'&' || c == b'"' || c == b'\'' || c == b'<' || c == b'>'

-- The first loop: what stands before `it`, and the rest.
unfoldable pub scan_plain : Bytes → Option (Bytes × Bytes)
scan_plain [] = some ([], [])
scan_plain (c ∷ s) =
    let more = (do (plain, rest) ← scan_plain s; some (c ∷ plain, rest)) in
    if c == 0 then none else if is_special c then some ([], c ∷ s) else more

-- The `switch` of the second loop.
abbrev pub escape_char : ℕ → Bytes
escape_char c =
    if c == b'&'
    then codes "&amp;"
    else if c == b'<'
    then codes "&lt;"
    else if c == b'>'
    then codes "&gt;"
    else if c == b'"'
    then codes "&quot;"
    else if c == b'\''
    then codes "&apos;"
    else c ∷ []

unfoldable pub escape_rest : Bytes → Option Bytes
escape_rest [] = some []
escape_rest (c ∷ s) =
    let more = (do result ← escape_rest s; some (escape_char c ++ result)) in
    if c == 0 then none else more

unfoldable pub xml_escape : Bytes → Option Bytes
unfolding scan_plain escape_rest
xml_escape s = do
  (plain, rest) ← scan_plain s
  escaped ← escape_rest rest
  if length rest == 0 then some s else some (plain ++ escaped)

-- `Utf8Char`: the length of a sequence and its code point.
abbrev pub Utf8Char : Type 0
Utf8Char = ℕ × ℕ

-- The casts to `unsigned char` leave the low byte of the mask: ~0xE0 is 0x1F there.
unfoldable pub decode_utf8_first_byte : ℕ → Utf8Char
decode_utf8_first_byte c =
    if bit_and c 0x80 == 0
    then (1, c)
    else if bit_and c 0xE0 == 0xC0
    then (2, bit_and c 0x1F)
    else if bit_and c 0xF0 == 0xE0
    then (3, bit_and c 0x0F)
    else if bit_and c 0xF8 == 0xF0
    then (4, bit_and c 0x07)
    else (0, 0)

-- The loop over the continuation bytes of `p`, `rounds` of them; `none` where one is expected.
unfoldable pub continue_utf8 : ℕ → Bytes → ℕ → Option ℕ
continue_utf8 zero p code = some code
continue_utf8 (suc rounds) [] code = none
continue_utf8 (suc rounds) (b ∷ p) code =
    let more = continue_utf8 rounds p (bit_or (code * 64) (bit_and b 0x3F)) in
    if bit_and b 0xC0 == 0x80 then more else none

-- `decodeUtf8Char` behind its first line; p is what follows the first byte.
unfoldable pub complete_utf8 : Utf8Char → Bytes → Utf8Char
unfolding continue_utf8
complete_utf8 (first, second) p =
    if first == 0
    then (first, second)
    else if ltb (suc (length p)) first
    then (0, 0)
    else elim (continue_utf8 (first - 1) p second) [ none ↦ (0, 0) | some code ↦ (first, code) ]

-- At the end of the input the source does not call it.
unfoldable pub decode_utf8_char : Bytes → Utf8Char
decode_utf8_char [] = (0, 0)
decode_utf8_char (b ∷ p) = complete_utf8 (decode_utf8_first_byte b) p

abbrev pub is_utf8_overlong_sequence : Utf8Char → Bool
is_utf8_overlong_sequence (first, second) =
    if leb second 0x7F
    then not (first == 1)
    else if leb 0x80 second && leb second 0x7FF
    then not (first == 2)
    else if leb 0x800 second && leb second 0xFFFF
    then not (first == 3)
    else if leb 0x10000 second && leb second 0x10FFFF
    then not (first == 4)
    else true

abbrev pub is_valid_xml_utf8 : ℕ → Bool
is_valid_xml_utf8 c =
    c == 0x09
    || c == 0x0A
    || c == 0x0D
    || (leb 0x20 c && leb c 0xD7FF)
    || (leb 0xE000 c && leb c 0xFFFD)
    || (leb 0x10000 c && leb c 0x10FFFF)

-- The loop, with a bound on its rounds; each round takes a byte at least. `none` is a failed
-- assertion.
unfoldable pub utf8_loop : ℕ → Bytes → Option Bool
unfolding decode_utf8_char
utf8_loop zero v = some true
utf8_loop (suc fuel) v =
    let c = decode_utf8_char v in
    let more = utf8_loop fuel (drop (suc (c.0 - 1)) v) in
    if length v == 0
    then some true
    else if is_utf8_overlong_sequence c || not (is_valid_xml_utf8 c.1)
    then some false
    else if c.0 == 0
    then none
    else more

unfoldable pub xml_utf8_test : Bytes → Option Bool
unfolding utf8_loop
xml_utf8_test v = utf8_loop (length v) v
