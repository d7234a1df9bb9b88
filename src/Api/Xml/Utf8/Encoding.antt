-- ===== src/Api/Xml/Utf8/Encoding.antt =====
-- The sequences that are not overlong are the encodings.
use native.Mathlib.Decide.{dec_le}
use precision_location_lite.Base.{
  ℕ, suc, ◌+◌, ◌*◌, ◌/◌, ◌%◌, ◌≤◌, ◌<◌, false, [], ◌∷◌, ◌++◌, ◌≡◌, refl, ap, ◌∙◌, arith, Bytes,
  length, All, lt→ltb, le→ltb_false,
}
use precision_location_lite.Api.Xml.{decode_utf8_char, is_utf8_overlong_sequence}
use precision_location_lite.Api.Xml.Utf8.Sequence.{
  IsContinuation, value, FirstByte, one, two, three, four, decode-good,
}
use precision_location_lite.Api.Xml.Utf8.{encode, IsXmlChar}

overlong_2 : (c : ℕ) → is_utf8_overlong_sequence (2, c) ≡ false → 0x80 ≤ c
overlong_2 c h = ground arith

overlong_3 : (c : ℕ) → is_utf8_overlong_sequence (3, c) ≡ false → 0x800 ≤ c
overlong_3 c h = ground arith

overlong_4 : (c : ℕ) → is_utf8_overlong_sequence (4, c) ≡ false → 0x10000 ≤ c
overlong_4 c h = ground arith

encode-one : (c : ℕ) → c < 0x80 → encode c ≡ c ∷ []
unfolding encode
encode-one c h = rw (lt→ltb c 0x80 h) refl

encode-two : (c : ℕ) → 0x80 ≤ c → c < 0x800 → encode c ≡ (0xC0 + c / 64) ∷ (0x80 + c % 64) ∷ []
unfolding encode
encode-two c lo hi = rw (le→ltb_false c 0x80 lo, lt→ltb c 0x800 hi) refl

encode-three :
    (c : ℕ)
    → 0x800 ≤ c
    → c < 0x10000
    → encode c ≡ (0xE0 + c / 4096) ∷ (0x80 + c / 64 % 64) ∷ (0x80 + c % 64) ∷ []
unfolding encode
encode-three c lo hi =
    rw (le→ltb_false c 0x80 (omega arith), le→ltb_false c 0x800 lo, lt→ltb c 0x10000 hi) refl

encode-four :
    (c : ℕ)
    → 0x10000 ≤ c
    → encode c
      ≡ (0xF0 + c / 262144) ∷ (0x80 + c / 4096 % 64) ∷ (0x80 + c / 64 % 64) ∷ (0x80 + c % 64) ∷ []
unfolding encode
encode-four c lo =
    rw
      (
        le→ltb_false c 0x80 (omega arith),
        le→ltb_false c 0x800 (omega arith),
        le→ltb_false c 0x10000 lo,
      )
      refl

-- A sequence that is not overlong is the encoding of its code point.
pub encode-value :
    (b x : ℕ) (bs : Bytes)
    → FirstByte b (suc (length bs), x)
    → All IsContinuation bs
    → is_utf8_overlong_sequence (suc (length bs), value x bs) ≡ false
    → encode (value x bs) ≡ b ∷ bs
encode-value b x [] (one h) all short = encode-one b h
encode-value b x (b₁ ∷ []) (two lo hi) ((l₁, h₁), all) short =
    let c = b % 32 * 64 + b₁ % 64 in
    let e₀ : 0xC0 + c / 64 ≡ b = omega arith in
    let e₁ : 0x80 + c % 64 ≡ b₁ = omega arith in
    encode-two c (overlong_2 c short) (omega arith) ∙ rw (e₀, e₁) refl
encode-value b x (b₁ ∷ b₂ ∷ []) (three lo hi) ((l₁, h₁), ((l₂, h₂), all)) short =
    let c = (b % 16 * 64 + b₁ % 64) * 64 + b₂ % 64 in
    let e₀ : 0xE0 + c / 4096 ≡ b = omega arith in
    let e₁ : 0x80 + c / 64 % 64 ≡ b₁ = omega arith in
    let e₂ : 0x80 + c % 64 ≡ b₂ = omega arith in
    encode-three c (overlong_3 c short) (omega arith) ∙ rw (e₀, e₁, e₂) refl
encode-value b x (b₁ ∷ b₂ ∷ b₃ ∷ []) (four lo hi) ((l₁, h₁), ((l₂, h₂), ((l₃, h₃), all))) short =
    let c = ((b % 8 * 64 + b₁ % 64) * 64 + b₂ % 64) * 64 + b₃ % 64 in
    let e₀ : 0xF0 + c / 262144 ≡ b = omega arith in
    let e₁ : 0x80 + c / 4096 % 64 ≡ b₁ = omega arith in
    let e₂ : 0x80 + c / 64 % 64 ≡ b₂ = omega arith in
    let e₃ : 0x80 + c % 64 ≡ b₃ = omega arith in
    encode-four c (overlong_4 c short) ∙ rw (e₀, e₁, e₂, e₃) refl
encode-value b x (b₁ ∷ (b₂ ∷ (b₃ ∷ (b₄ ∷ bs)))) first all short = elim first [ ]

-- The decoder on an encoding, and the test for overlong sequences on what it returns.
pub record IsDecoded (c : ℕ) (rest : Bytes) : Type 0 where
  pub decoded : decode_utf8_char (encode c ++ rest) ≡ (length (encode c), c)
  pub short : is_utf8_overlong_sequence (length (encode c), c) ≡ false
  pub some_bytes : 0 < length (encode c)

IsDecoded-good :
    (c b x : ℕ) (bs rest : Bytes)
    → encode c ≡ b ∷ bs
    → FirstByte b (suc (length bs), x)
    → All IsContinuation bs
    → value x bs ≡ c
    → is_utf8_overlong_sequence (suc (length bs), c) ≡ false
    → IsDecoded c rest
IsDecoded-good c b x bs rest e first all val short =
    let read : decode_utf8_char (b ∷ (bs ++ rest)) ≡ (suc (length bs), c) =
      decode-good b x bs rest first all ∙ ap (λ (v : ℕ). (suc (length bs), v)) val in
    record { decoded = rw e read; short = rw e short; some_bytes = rw e (omega arith) }

short_1 : (c : ℕ) → c < 0x80 → is_utf8_overlong_sequence (1, c) ≡ false
short_1 c h = ground arith

short_2 : (c : ℕ) → 0x80 ≤ c → c < 0x800 → is_utf8_overlong_sequence (2, c) ≡ false
short_2 c lo hi = ground arith

short_3 : (c : ℕ) → 0x800 ≤ c → c < 0x10000 → is_utf8_overlong_sequence (3, c) ≡ false
short_3 c lo hi = ground arith

short_4 : (c : ℕ) → 0x10000 ≤ c → c < 0x110000 → is_utf8_overlong_sequence (4, c) ≡ false
short_4 c lo hi = ground arith

pub encode-IsDecoded : (c : ℕ) (rest : Bytes) → c < 0x110000 → IsDecoded c rest
encode-IsDecoded c rest h = elim (dec_le 0x80 c) [
  | no ascii ↦
      IsDecoded-good c c c [] rest (encode-one c (omega arith)) (one (omega arith)) tt refl
        (short_1 c (omega arith))
  | yes l₂ ↦ elim (dec_le 0x800 c) [
    | no h₂ ↦
        IsDecoded-good c (0xC0 + c / 64) ((0xC0 + c / 64) % 32) _ rest
          (encode-two c l₂ (omega arith)) (two (omega arith) (omega arith))
          ((omega arith, omega arith), tt) (omega arith) (short_2 c l₂ (omega arith))
    | yes l₃ ↦ elim (dec_le 0x10000 c) [
      | no h₃ ↦
          IsDecoded-good c (0xE0 + c / 4096) ((0xE0 + c / 4096) % 16) _ rest
            (encode-three c l₃ (omega arith)) (three (omega arith) (omega arith))
            ((omega arith, omega arith), ((omega arith, omega arith), tt)) (omega arith)
            (short_3 c l₃ (omega arith))
      | yes l₄ ↦
          IsDecoded-good c (0xF0 + c / 262144) ((0xF0 + c / 262144) % 8) _ rest (encode-four c l₄)
            (four (omega arith) (omega arith))
            (
              (omega arith, omega arith),
              ((omega arith, omega arith), ((omega arith, omega arith), tt)),
            )
            (omega arith) (short_4 c l₄ h)
    ]
  ]
]

pub IsXmlChar-lt : (c : ℕ) → IsXmlChar c → c < 0x110000
IsXmlChar-lt c h = ground arith
