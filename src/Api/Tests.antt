-- ===== src/Api/Tests.antt =====
-- Runs of the client library on concrete values, and the theorems at inputs that meet their
-- hypotheses.
use precision_location_lite.Api.Xml.Escape.{unescape, xml_escape-escape_rest, xml_escape-unescape}
use precision_location_lite.Api.Xml.Utf8.Decision.{Verdict, xml_utf8_test-Verdict}
use precision_location_lite.Api.Xml.{
  xml_escape, escape_rest, xml_utf8_test, complete_utf8, decode_utf8_first_byte,
}
use precision_location_lite.Base.{
  true, false, [], ◌∷◌, some, ◌≡◌, refl, arith, Bytes, codes, length,
}

abbrev quoted : Bytes
quoted = codes "a<b & \"c\""

quoted_run : xml_escape quoted ≡ some (codes "a&lt;b &amp; &quot;c&quot;")
unfolding xml_escape
quoted_run = refl

xml_escape-escape_rest_example : xml_escape quoted ≡ escape_rest quoted
xml_escape-escape_rest_example = xml_escape-escape_rest quoted

xml_escape-unescape_example :
    (t : Bytes) × (xml_escape quoted ≡ some t) × (unescape (length t) t ≡ some quoted)
xml_escape-unescape_example = xml_escape-unescape quoted (
  ground arith,
  (
    ground arith,
    (
      ground arith,
      (
        ground arith,
        (ground arith, (ground arith, (ground arith, (ground arith, (ground arith, tt))))),
      ),
    ),
  ),
)

-- "é€" and then a surrogate.
abbrev text : Bytes
text = 0xC3 ∷ 0xA9 ∷ 0xE2 ∷ 0x82 ∷ 0xAC ∷ []

text_run : xml_utf8_test text ≡ some true
unfolding xml_utf8_test complete_utf8 decode_utf8_first_byte
text_run = refl

surrogate_run : xml_utf8_test (0xED ∷ 0xA0 ∷ 0x80 ∷ []) ≡ some false
unfolding xml_utf8_test complete_utf8 decode_utf8_first_byte
surrogate_run = refl

overlong_run : xml_utf8_test (0xC0 ∷ 0x80 ∷ []) ≡ some false
unfolding xml_utf8_test complete_utf8 decode_utf8_first_byte
overlong_run = refl

xml_utf8_test-Verdict_example : Verdict text (xml_utf8_test text)
xml_utf8_test-Verdict_example =
    xml_utf8_test-Verdict text
      (omega arith, (omega arith, (omega arith, (omega arith, (omega arith, tt)))))
