-- ===== src/Api/Xml/Utf8/Decision.antt =====
-- `xmlUtf8Test` decides whether a text is the UTF-8 encoding of characters that XML allows.
use precision_location_lite.Base.{
  ℕ, zero, suc, ◌-◌, ◌≤◌, ◌<◌, Bool, true, false, not, ◌||◌, Bool-cases, List, [], ◌∷◌, ◌++◌,
  Option, none, some, inl, inr, ◌≡◌, refl, sym, ap, ◌∙◌, arith, ◌==◌, if◌then◌else◌, Bytes, length,
  drop, drop-append, All, length-drop,
}
use precision_location_lite.Api.Xml.{
  Utf8Char, decode_utf8_char, is_utf8_overlong_sequence, is_valid_xml_utf8, utf8_loop,
  xml_utf8_test,
}
use precision_location_lite.Api.Xml.Utf8.Encoding.{encode-value, encode-IsDecoded, IsXmlChar-lt}
use precision_location_lite.Api.Xml.Utf8.Sequence.{IsByte, Sequence, bad, good, decode-Sequence}
use precision_location_lite.Api.Xml.Utf8.{encode, IsXmlChar, is_valid_xml_utf8_iff}

-- The encodings of characters, one after the other.
abbrev pub encode_all : List ℕ → Bytes
encode_all [] = []
encode_all (c ∷ cs) = encode c ++ encode_all cs

abbrev pub IsXmlText : Bytes → Type 0
IsXmlText v = (chars : List ℕ) × All IsXmlChar chars × (v ≡ encode_all chars)

next : Bytes → Bytes
next v = drop (suc ((decode_utf8_char v).0 - 1)) v

abbrev rejected : Utf8Char → Bool
rejected c = is_utf8_overlong_sequence c || not (is_valid_xml_utf8 c.1)

loop-suc :
    (fuel b : ℕ) (p : Bytes)
    → utf8_loop (suc fuel) (b ∷ p) ≡ (
        if rejected (decode_utf8_char (b ∷ p))
        then some false
        else if (decode_utf8_char (b ∷ p)).0 == 0
        then none
        else utf8_loop fuel (next (b ∷ p)))
unfolding utf8_loop next
loop-suc fuel b p = let longer : (suc (length p) == 0) ≡ false = ground arith in rw longer refl

drop-next :
    (n : ℕ) (xs ys : Bytes) → 0 < length xs → n ≡ length xs → drop (suc (n - 1)) (xs ++ ys) ≡ ys
drop-next n xs ys pos e =
    let f : suc (n - 1) ≡ length xs = omega arith in
    ap (λ (k : ℕ). drop k (xs ++ ys)) f ∙ drop-append xs ys

-- An accepted sequence is the encoding of a character.
Sequence-next :
    (v : Bytes) (c : Utf8Char)
    → Sequence v c
    → is_utf8_overlong_sequence c ≡ false
    → (rest : Bytes) × (v ≡ encode c.1 ++ rest) × (c.0 ≡ length (encode c.1)) × (0 < c.0)
Sequence-next v c bad short = absurd (ground arith)
Sequence-next v c (good b x bs rest splits first all) short =
    let e = encode-value b x bs first all short in
    (rest, splits ∙ rw e refl, rw e refl, omega arith)

rejected-false : (a b : Bool) → (a || not b) ≡ false → (a ≡ false) × (b ≡ true)
rejected-false false true h = (refl, refl)
rejected-false false false h = cc
rejected-false true b h = cc

-- Where the first sequence is accepted, the text is a character and what comes next.
step_sound :
    (b : ℕ) (p : Bytes)
    → All IsByte (b ∷ p)
    → rejected (decode_utf8_char (b ∷ p)) ≡ false
    → IsXmlChar (decode_utf8_char (b ∷ p)).1
      × (b ∷ p ≡ encode (decode_utf8_char (b ∷ p)).1 ++ next (b ∷ p))
      × (0 < (decode_utf8_char (b ∷ p)).0)
unfolding next
step_sound b p h acc =
    let c = decode_utf8_char (b ∷ p) in
    let (short, valid) = rejected-false (is_utf8_overlong_sequence c) (is_valid_xml_utf8 c.1) acc in
    let (rest, splits, len, pos) = Sequence-next (b ∷ p) c (decode-Sequence (b ∷ p) h) short in
    let same : drop (suc (c.0 - 1)) (b ∷ p) ≡ rest =
      ap (drop (suc (c.0 - 1))) splits ∙ drop-next c.0 (encode c.1) rest (omega arith) len in
    ((is_valid_xml_utf8_iff c.1).0 valid, splits ∙ ap (encode c.1 ++◌) (sym same), pos)

-- The first sequence of a text of characters is accepted, and such a text comes next.
step_complete :
    (b : ℕ) (p : Bytes)
    → IsXmlText (b ∷ p)
    → (rejected (decode_utf8_char (b ∷ p)) ≡ false) × IsXmlText (next (b ∷ p))
unfolding next
step_complete b p ([], v, e) = cc
step_complete b p (c ∷ cs, (valid, all), e) =
    let d = encode-IsDecoded c (encode_all cs) (IsXmlChar-lt c valid) in
    let read : decode_utf8_char (b ∷ p) ≡ (length (encode c), c) =
      ap decode_utf8_char e ∙ d.decoded in
    let cut : next (b ∷ p) ≡ encode_all cs =
      ap (λ (r : Utf8Char). drop (suc (r.0 - 1)) (b ∷ p)) read
      ∙ ap (drop (suc (length (encode c) - 1))) e
      ∙ drop-next (length (encode c)) (encode c) (encode_all cs) d.some_bytes refl in
    (rw read (rw (d.short, (is_valid_xml_utf8_iff c).1 valid) refl), (cs, all, cut))

-- The verdict on a text.
pub data Verdict (v : Bytes) : Option Bool → Type 0 where
  accepts : IsXmlText v → Verdict v (some true)
  refuses : (¬ IsXmlText v) → Verdict v (some false)

All-drop : (n : ℕ) (v : Bytes) → All IsByte v → All IsByte (drop n v)
All-drop zero v h = h
All-drop (suc n) [] h = h
All-drop (suc n) (b ∷ p) (hb, h) = All-drop n p h

length-next : (b : ℕ) (p : Bytes) → length (next (b ∷ p)) ≤ length p
unfolding next
length-next b p = omega (arith, length-drop ((decode_utf8_char (b ∷ p)).0 - 1) p)

next-IsByte : (b : ℕ) (p : Bytes) → All IsByte (b ∷ p) → All IsByte (next (b ∷ p))
unfolding next
next-IsByte b p h = All-drop (suc ((decode_utf8_char (b ∷ p)).0 - 1)) (b ∷ p) h

clash : {x : Bool} → x ≡ true → x ≡ false → ⊥
clash e f = cc

extend :
    (b : ℕ) (p : Bytes) {o : Option Bool}
    → IsXmlChar (decode_utf8_char (b ∷ p)).1
    → (b ∷ p ≡ encode (decode_utf8_char (b ∷ p)).1 ++ next (b ∷ p))
    → Verdict (next (b ∷ p)) o
    → Verdict (b ∷ p) o
extend b p valid splits (accepts (cs, all, e)) =
    let c = (decode_utf8_char (b ∷ p)).1 in
    accepts (c ∷ cs, (valid, all), splits ∙ ap (encode c ++◌) e)
extend b p valid splits (refuses none_fits) = refuses (λ h. none_fits (step_complete b p h).1)

utf8_loop-Verdict :
    (fuel : ℕ) (v : Bytes) → length v ≤ fuel → All IsByte v → Verdict v (utf8_loop fuel v)
unfolding utf8_loop
utf8_loop-Verdict zero [] h all = accepts ([], tt, refl)
utf8_loop-Verdict (suc fuel) [] h all = accepts ([], tt, refl)
utf8_loop-Verdict zero (b ∷ p) h all = absurd (omega arith)
utf8_loop-Verdict (suc fuel) (b ∷ p) h all =
    rw (loop-suc fuel b p) (elim (Bool-cases (rejected (decode_utf8_char (b ∷ p)))) [
      | inl stop ↦ rw stop (refuses (λ text. clash stop (step_complete b p text).0))
      | inr ok ↦
          let (valid, splits, pos) = step_sound b p all ok in
          let nonzero : ((decode_utf8_char (b ∷ p)).0 == 0) ≡ false = ground arith in
          rw (ok, nonzero)
            (extend b p valid splits (
              utf8_loop-Verdict fuel (next (b ∷ p)) (omega (arith, length-next b p))
                (next-IsByte b p all)))
    ])

-- On every byte string `xmlUtf8Test` returns, without a failed assertion: true if the bytes are
-- the UTF-8 encodings of characters that XML allows, one after the other, and false if they are not.
pub xml_utf8_test-Verdict : (v : Bytes) → All IsByte v → Verdict v (xml_utf8_test v)
unfolding xml_utf8_test
xml_utf8_test-Verdict v h = utf8_loop-Verdict (length v) v (omega arith) h
