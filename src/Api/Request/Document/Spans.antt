-- ===== src/Api/Request/Document/Spans.antt =====
-- The reader of names, escaped texts and attributes on what is printed.
use precision_location_lite.Base.{
  ℕ, zero, suc, ◌<◌, ◌≢◌, Bool, true, false, List, [], ◌∷◌, ◌++◌, some, ◌≡◌, refl, sym, some_inj,
  All-append, All-weaken, ◌∙◌, arith, ◌==◌, ==-refl, Bytes, length, All, inl, inr,
}
use precision_location_lite.Api.Xml.{escape_char, escape_rest}
use precision_location_lite.Api.Xml.Escape.{unescape, escape_rest-IsEscaped, special_or_plain}
use precision_location_lite.Api.Request.Document.{
  Attribute, escape, print_attributes, span, is_name_char, is_value_char, is_text_char, expect,
  read_name, read_attributes,
}

pub span-append :
    (test : ℕ → Bool) (s : Bytes) (c : ℕ) (rest : Bytes)
    → All (λ x. test x ≡ true) s
    → test c ≡ false
    → span test (s ++ c ∷ rest) ≡ (s, c ∷ rest)
unfolding span
span-append test [] c rest all stop = rw stop refl
span-append test (x ∷ s) c rest all stop = rw (span-append test s c rest all.1 stop, all.0) refl

pub expect-append : (p s : Bytes) → expect p (p ++ s) ≡ some s
unfolding expect
expect-append [] s = refl
expect-append (x ∷ p) s = rw (==-refl x) (expect-append p s)

-- A name has at least one character.
abbrev pub IsName : Bytes → Type 0
IsName [] = ⊥
IsName (x ∷ s) = (is_name_char x ≡ true) × All (λ c. is_name_char c ≡ true) s

pub read_name-append :
    (name : Bytes) (c : ℕ) (rest : Bytes)
    → IsName name
    → is_name_char c ≡ false
    → read_name (name ++ c ∷ rest) ≡ some (name, c ∷ rest)
unfolding read_name
read_name-append [] c rest h stop = elim h [ ]
read_name-append (x ∷ name) c rest h stop =
    let longer : (suc (length name) == 0) ≡ false = ground arith in
    rw (span-append is_name_char (x ∷ name) c rest h stop, longer) refl

-- What stands for a character holds no '<' and no apostrophe.
abbrev IsPart : ℕ → Type 0
IsPart c = (is_value_char c ≡ true) × (is_text_char c ≡ true)

escape_char-IsPart : (c : ℕ) → All IsPart (escape_char c)
escape_char-IsPart c = elim (special_or_plain c) [
  | inl e ↦ rw e (ground arith)
  | inr (inl e) ↦ rw e (ground arith)
  | inr (inr (inl e)) ↦ rw e (ground arith)
  | inr (inr (inr (inl e))) ↦ rw e (ground arith)
  | inr (inr (inr (inr (inl e)))) ↦ rw e (ground arith)
  | inr (inr (inr (inr (inr (plain, e))))) ↦ rw e ((ground arith, ground arith), tt)
]

pub escape-IsPart : (s : Bytes) → All IsPart (escape s)
unfolding escape
escape-IsPart [] = tt
escape-IsPart (c ∷ s) =
    All-append IsPart (escape_char c) (escape s) (escape_char-IsPart c) (escape-IsPart s)

abbrev pub IsText : Bytes → Type 0
IsText s = All (λ c. c ≢ 0) s

-- An escaped text is a span, which is read back.
pub escape_rest-escape : (s : Bytes) → IsText s → escape_rest s ≡ some (escape s)
unfolding escape_rest escape
escape_rest-escape [] h = refl
escape_rest-escape (c ∷ s) h =
    let plain : (c == 0) ≡ false = ground (arith, h.0) in rw (escape_rest-escape s h.1, plain) refl

pub unescape-escape : (s : Bytes) → IsText s → unescape (length (escape s)) (escape s) ≡ some s
unescape-escape s h =
    let (t, e, escaped) = escape_rest-IsEscaped s h in
    let same : t ≡ escape s = some_inj (sym e ∙ escape_rest-escape s h) in
    rw (← same) (escaped.read (length t) escaped.longer)

pub span-value :
    (s rest : Bytes) → span is_value_char (escape s ++ b'\'' ∷ rest) ≡ (escape s, b'\'' ∷ rest)
span-value s rest =
    span-append is_value_char (escape s) b'\'' rest
      (All-weaken IsPart (λ x. is_value_char x ≡ true) (λ c h. h.0) (escape s) (escape-IsPart s))
      refl

pub span-text :
    (s rest : Bytes) → span is_text_char (escape s ++ b'<' ∷ rest) ≡ (escape s, b'<' ∷ rest)
span-text s rest =
    span-append is_text_char (escape s) b'<' rest
      (All-weaken IsPart (λ x. is_text_char x ≡ true) (λ c h. h.1) (escape s) (escape-IsPart s))
      refl

abbrev pub IsAttribute : Attribute → Type 0
IsAttribute (name, value) = IsName name × IsText value

-- The attributes end where something other than a blank stands.
pub read_attributes-print :
    (attributes : List Attribute) (fuel c : ℕ) (rest : Bytes)
    → All IsAttribute attributes
    → length attributes < fuel
    → (c == b' ') ≡ false
    → read_attributes fuel (print_attributes attributes (c ∷ rest)) ≡ some (attributes, c ∷ rest)
unfolding read_attributes print_attributes
read_attributes-print attributes zero c rest all enough stop = absurd (omega arith)
read_attributes-print [] (suc fuel) c rest all enough stop = ground arith
read_attributes-print ((name, value) ∷ more) (suc fuel) c rest all enough stop =
    rw
      (
        read_name-append name b'='
            (b'\'' ∷ (escape value ++ (b'\'' ∷ print_attributes more (c ∷ rest)))) all.0.0 refl,
        span-value value (print_attributes more (c ∷ rest)),
        unescape-escape value all.0.1,
        read_attributes-print more fuel c rest all.1 (omega arith) stop,
      )
      refl
