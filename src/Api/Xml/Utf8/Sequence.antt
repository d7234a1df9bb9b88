-- ===== src/Api/Xml/Utf8/Sequence.antt =====
-- `decode_utf8_char` reads exactly the sequences that `encode` writes.
use native.Mathlib.Decide.{dec_le}
use precision_location_lite.Base.{
  ℕ, zero, suc, ◌+◌, ◌-◌, ◌*◌, ◌%◌, ◌≤◌, ◌<◌, ◌⊎◌, true, false, Bool-cases, [], ◌∷◌, ◌++◌, Option,
  none, some, inl, inr, ◌≡◌, refl, ap, ◌∙◌, arith, ◌==◌, Bytes, length, All, lt→ltb, le→ltb_false,
  length-append,
}
use precision_location_lite.Api.Xml.{
  Utf8Char, decode_utf8_first_byte, continue_utf8, complete_utf8, decode_utf8_char,
}
use precision_location_lite.Api.Xml.Utf8.{first_of, first_byte, is_continuation, continue-suc}

abbrev pub IsByte : ℕ → Type 0
IsByte b = b < 256

abbrev pub IsContinuation : ℕ → Type 0
IsContinuation b = (0x80 ≤ b) × (b < 0xC0)

-- The code point of continuation bytes behind the bits `code`.
abbrev pub value : ℕ → Bytes → ℕ
value code [] = code
value code (b ∷ bs) = value (code * 64 + b % 64) bs

in_range : (b : ℕ) → 0x80 ≤ b → b < 0xC0 → is_continuation b ≡ true
unfolding is_continuation
in_range b lo hi = ground arith

range_of : (b : ℕ) → is_continuation b ≡ true → IsContinuation b
unfolding is_continuation
range_of b e = ground arith

continue-value :
    (bs rest : Bytes) (code : ℕ)
    → All IsContinuation bs
    → continue_utf8 (length bs) (bs ++ rest) code ≡ some (value code bs)
unfolding continue_utf8
continue-value [] rest code h = refl
continue-value (b ∷ bs) rest code ((lo, hi), h) =
    continue-suc (length bs) b code (bs ++ rest) (omega arith)
    ∙ rw (in_range b lo hi) (continue-value bs rest (code * 64 + b % 64) h)

-- The bytes that a run of n continuation bytes can begin with.
data Continued (n : ℕ) (p : Bytes) (code : ℕ) : Option ℕ → Type 0 where
  ends : Continued n p code none
  reads :
      (bs rest : Bytes)
      → p ≡ bs ++ rest
      → length bs ≡ n
      → All IsContinuation bs
      → Continued n p code (some (value code bs))

one_more :
    {n b code : ℕ} {p : Bytes} {o : Option ℕ}
    → IsContinuation b
    → Continued n p (code * 64 + b % 64) o
    → Continued (suc n) (b ∷ p) code o
one_more h ends = ends
one_more {b} h (reads bs rest splits len all) =
    reads (b ∷ bs) rest (ap (◌∷◌ b) splits) (omega (arith, len)) (h, all)

continue-cases :
    (n : ℕ) (p : Bytes) (code : ℕ) → All IsByte p → Continued n p code (continue_utf8 n p code)
unfolding continue_utf8
continue-cases zero p code h = reads [] p refl refl tt
continue-cases (suc n) [] code h = ends
continue-cases (suc n) (b ∷ p) code (hb, h) =
    rw (continue-suc n b code p hb) (elim (Bool-cases (is_continuation b)) [
      | inr other ↦ rw other ends
      | inl more ↦ rw more (one_more (range_of b more) (continue-cases n p (code * 64 + b % 64) h))
    ])

-- The sequences that `decode_utf8_char` reads: a first byte that announces n bytes, and n - 1
-- continuation bytes.
pub data FirstByte (b : ℕ) : Utf8Char → Type 0 where
  one : b < 0x80 → FirstByte b (1, b)
  two : 0xC0 ≤ b → b < 0xE0 → FirstByte b (2, b % 32)
  three : 0xE0 ≤ b → b < 0xF0 → FirstByte b (3, b % 16)
  four : 0xF0 ≤ b → b < 0xF8 → FirstByte b (4, b % 8)

suc_==_zero : (n : ℕ) → (suc n == 0) ≡ false
suc_==_zero n = ground arith

suc-sub : (n : ℕ) → suc n - 1 ≡ n
suc-sub n = omega arith

first-byte : (b : ℕ) (c : Utf8Char) → FirstByte b c → decode_utf8_first_byte b ≡ c
unfolding first_of
first-byte b c (one h) = first_byte b (omega arith) ∙ rw (lt→ltb b 0x80 h) refl
first-byte b c (two lo hi) =
    first_byte b (omega arith)
    ∙ rw (le→ltb_false b 0x80 (omega arith), le→ltb_false b 0xC0 lo, lt→ltb b 0xE0 hi) refl
first-byte b c (three lo hi) =
    first_byte b (omega arith)
    ∙ rw
        (
          le→ltb_false b 0x80 (omega arith),
          le→ltb_false b 0xC0 (omega arith),
          le→ltb_false b 0xE0 lo,
          lt→ltb b 0xF0 hi,
        )
        refl
first-byte b c (four lo hi) =
    first_byte b (omega arith)
    ∙ rw
        (
          le→ltb_false b 0x80 (omega arith),
          le→ltb_false b 0xC0 (omega arith),
          le→ltb_false b 0xE0 (omega arith),
          le→ltb_false b 0xF0 lo,
          lt→ltb b 0xF8 hi,
        )
        refl

lone : (b : ℕ) → 0x80 ≤ b → b < 0xC0 → decode_utf8_first_byte b ≡ (0, 0)
unfolding first_of
lone b lo hi = first_byte b (omega arith) ∙ rw (le→ltb_false b 0x80 lo, lt→ltb b 0xC0 hi) refl

too_high : (b : ℕ) → 0xF8 ≤ b → b < 256 → decode_utf8_first_byte b ≡ (0, 0)
unfolding first_of
too_high b lo hi =
    first_byte b hi
    ∙ rw
        (
          le→ltb_false b 0x80 (omega arith),
          le→ltb_false b 0xC0 (omega arith),
          le→ltb_false b 0xE0 (omega arith),
          le→ltb_false b 0xF0 (omega arith),
          le→ltb_false b 0xF8 lo,
        )
        refl

abbrev Announces : ℕ → Type 0
Announces b = (n : ℕ) × (x : ℕ) × (decode_utf8_first_byte b ≡ (suc n, x)) × FirstByte b (suc n, x)

announces : (b n x : ℕ) → FirstByte b (suc n, x) → Announces b
announces b n x h = (n, x, first-byte b (suc n, x) h, h)

first-cases : (b : ℕ) → b < 256 → (decode_utf8_first_byte b ≡ (0, 0)) ⊎ Announces b
first-cases b h = elim (dec_le 0x80 b) [
  | no ascii ↦ inr (announces b 0 b (one (omega arith)))
  | yes high ↦ elim (dec_le 0xC0 b) [
    | no tail ↦ inl (lone b high (omega arith))
    | yes start ↦ elim (dec_le 0xE0 b) [
      | no h2 ↦ inr (announces b 1 (b % 32) (two start (omega arith)))
      | yes l3 ↦ elim (dec_le 0xF0 b) [
        | no h3 ↦ inr (announces b 2 (b % 16) (three l3 (omega arith)))
        | yes l4 ↦ elim (dec_le 0xF8 b) [
          | no h4 ↦ inr (announces b 3 (b % 8) (four l4 (omega arith)))
          | yes l5 ↦ inl (too_high b l5 h)
        ]
      ]
    ]
  ]
]

pub data Sequence (v : Bytes) : Utf8Char → Type 0 where
  bad : Sequence v (0, 0)
  good :
      (b x : ℕ) (bs rest : Bytes)
      → v ≡ b ∷ (bs ++ rest)
      → FirstByte b (suc (length bs), x)
      → All IsContinuation bs
      → Sequence v (suc (length bs), value x bs)

complete-good :
    (n x : ℕ) (p : Bytes)
    → n ≤ length p
    → complete_utf8 (suc n, x) p
      ≡ elim (continue_utf8 n p x) [ none ↦ (0, 0) | some code ↦ (suc n, code) ]
unfolding complete_utf8
complete-good n x p h =
    rw (suc_==_zero n, le→ltb_false (suc (length p)) (suc n) (omega arith), suc-sub n) refl

complete-short : (n x : ℕ) (p : Bytes) → length p < n → complete_utf8 (suc n, x) p ≡ (0, 0)
unfolding complete_utf8
complete-short n x p h = rw (suc_==_zero n, lt→ltb (suc (length p)) (suc n) (omega arith)) refl

pub decode-good :
    (b x : ℕ) (bs rest : Bytes)
    → FirstByte b (suc (length bs), x)
    → All IsContinuation bs
    → decode_utf8_char (b ∷ (bs ++ rest)) ≡ (suc (length bs), value x bs)
unfolding decode_utf8_char
decode-good b x bs rest first all =
    ap (λ c. complete_utf8 c (bs ++ rest)) (first-byte b (suc (length bs), x) first)
    ∙ complete-good (length bs) x (bs ++ rest) (omega (arith, length-append bs rest))
    ∙ rw (continue-value bs rest x all) refl

finish :
    {b n x : ℕ} {p : Bytes} {o : Option ℕ}
    → FirstByte b (suc n, x)
    → Continued n p x o
    → Sequence (b ∷ p) (elim o [ none ↦ (0, 0) | some code ↦ (suc n, code) ])
finish first ends = bad
finish {b} {n} {x} {p} first (reads bs rest splits len all) =
    rw (← len) (good b x bs rest (ap (◌∷◌ b) splits) (rw len first) all)

completed :
    (b n x : ℕ) (p : Bytes)
    → All IsByte p
    → FirstByte b (suc n, x)
    → Sequence (b ∷ p) (complete_utf8 (suc n, x) p)
completed b n x p h first = elim (dec_le n (length p)) [
  | no few ↦ rw (complete-short n x p (omega arith)) bad
  | yes enough ↦ rw (complete-good n x p enough) (finish first (continue-cases n p x h))
]

not_started : (p : Bytes) → complete_utf8 (0, 0) p ≡ (0, 0)
unfolding complete_utf8
not_started p = refl

pub decode-Sequence : (v : Bytes) → All IsByte v → Sequence v (decode_utf8_char v)
unfolding decode_utf8_char
decode-Sequence [] h = bad
decode-Sequence (b ∷ p) (hb, h) = elim (first-cases b hb) [
  | inl other ↦ rw (other, not_started p) bad
  | inr (n, x, e, first) ↦ rw e (completed b n x p h first)
]
