-- ===== src/Api/Xml/Escape.antt =====
-- What `xmlEscape` writes is read back by replacing the five references that XML predefines.
use precision_location_lite.Base.{
  ℕ, zero, suc, ◌≤◌, ◌≢◌, false, ◌||◌, Bool-cases, [], ◌∷◌, ◌++◌, Option, none, some, inl, inr, ◌⊎◌,
  ◌≡◌, refl, sym, ap, ◌∙◌, arith, ◌==◌, if◌then◌else◌, ◌>>=◌, >>=_assoc, >>=_some, Option-cases,
  >>=-eq-some, some_pair_inj, Bytes, codes, length, drop, All, bytes_eq, take,
}
use precision_location_lite.Api.Xml.{is_special, scan_plain, escape_char, escape_rest, xml_escape}

-- The reference that starts a text, with its character and its length.
unfoldable pub reference : Bytes → Option (ℕ × ℕ)
unfolding bytes_eq
reference s =
    if bytes_eq (take 5 s) (codes "&amp;")
    then some (b'&', 5)
    else if bytes_eq (take 4 s) (codes "&lt;")
    then some (b'<', 4)
    else if bytes_eq (take 4 s) (codes "&gt;")
    then some (b'>', 4)
    else if bytes_eq (take 6 s) (codes "&quot;")
    then some (b'"', 6)
    else if bytes_eq (take 6 s) (codes "&apos;")
    then some (b'\'', 6)
    else none

-- The text that stands for s, read with fuel: a reference for its character, any other character
-- for itself. A special character that starts no reference is an error, and so is a NUL. The rules that
-- XML has beyond its references, for ends of lines and for the characters that it allows, are not in it.
unfoldable pub unescape : ℕ → Bytes → Option Bytes
unfolding reference
unescape fuel [] = some []
unescape zero (c ∷ s) = none
unescape (suc fuel) (c ∷ s) = elim (reference (c ∷ s)) [
  | some (r, n) ↦ unescape fuel (drop n (c ∷ s)) >>= λ t. some (r ∷ t)
  | none ↦
      let more = unescape fuel s >>= λ t. some (c ∷ t) in
      if c == 0 || is_special c then none else more
]

pub special_or_plain :
    (c : ℕ)
    → (c ≡ b'&')
      ⊎ (c ≡ b'<')
      ⊎ (c ≡ b'>')
      ⊎ (c ≡ b'"')
      ⊎ (c ≡ b'\'')
      ⊎ ((is_special c ≡ false) × (escape_char c ≡ c ∷ []))
special_or_plain c = ground arith

no_reference : (c : ℕ) (t : Bytes) → is_special c ≡ false → reference (c ∷ t) ≡ none
unfolding reference bytes_eq
no_reference c t plain = let other : (c == b'&') ≡ false = ground arith in rw other refl

unescape-plain :
    (fuel c : ℕ) (t : Bytes)
    → (c == 0) ≡ false
    → is_special c ≡ false
    → unescape (suc fuel) (c ∷ t) ≡ (unescape fuel t >>= λ s. some (c ∷ s))
unfolding unescape
unescape-plain fuel c t nz plain = rw (unescape, no_reference c t plain, nz, plain) refl

-- What stands for one character is read as that character.
unescape-escape_char :
    (fuel c : ℕ) (t : Bytes)
    → c ≢ 0
    → unescape (suc fuel) (escape_char c ++ t) ≡ (unescape fuel t >>= λ s. some (c ∷ s))
unfolding unescape reference bytes_eq
unescape-escape_char fuel c t nz = elim (special_or_plain c) [
  | inl e ↦ rw e refl
  | inr (inl e) ↦ rw e refl
  | inr (inr (inl e)) ↦ rw e refl
  | inr (inr (inr (inl e))) ↦ rw e refl
  | inr (inr (inr (inr (inl e)))) ↦ rw e refl
  | inr (inr (inr (inr (inr (plain, e))))) ↦
      let zero? : (c == 0) ≡ false = ground arith in rw e (unescape-plain fuel c t zero? plain)
]

-- The text that the second loop writes, and that reading it gives the characters back.
pub record IsEscaped (s t : Bytes) : Type 0 where
  pub longer : length s ≤ length t
  pub read : (fuel : ℕ) → length s ≤ fuel → unescape fuel t ≡ some s

length-escape_char : (c : ℕ) (t : Bytes) → suc (length t) ≤ length (escape_char c ++ t)
length-escape_char c t = elim (special_or_plain c) [
  | inl e ↦ rw e (omega arith)
  | inr (inl e) ↦ rw e (omega arith)
  | inr (inr (inl e)) ↦ rw e (omega arith)
  | inr (inr (inr (inl e))) ↦ rw e (omega arith)
  | inr (inr (inr (inr (inl e)))) ↦ rw e (omega arith)
  | inr (inr (inr (inr (inr (plain, e))))) ↦ rw e (omega arith)
]

IsEscaped-cons :
    (c : ℕ) (s t : Bytes) → c ≢ 0 → IsEscaped s t → IsEscaped (c ∷ s) (escape_char c ++ t)
IsEscaped-cons c s t nz h = record {
  longer = omega (arith, length-escape_char c t, h.longer);
  read = λ fuel enough. read_on fuel enough;
}
  where
    read_on : (fuel : ℕ) → suc (length s) ≤ fuel → unescape fuel (escape_char c ++ t) ≡ some (c ∷ s)
    read_on zero enough = absurd (omega arith)
    read_on (suc fuel) enough =
        unescape-escape_char fuel c t nz ∙ rw (h.read fuel (omega arith)) refl

pub escape_rest-IsEscaped :
    (s : Bytes) → All (λ c. c ≢ 0) s → (t : Bytes) × (escape_rest s ≡ some t) × IsEscaped s t
unfolding escape_rest unescape
escape_rest-IsEscaped [] h =
    ([], refl, record { longer = omega arith; read = λ fuel enough. read_nil fuel })
  where
    read_nil : (fuel : ℕ) → unescape fuel [] ≡ some []
    read_nil zero = refl
    read_nil (suc fuel) = refl
escape_rest-IsEscaped (c ∷ s) (nz, h) =
    let (t, e, escaped) = escape_rest-IsEscaped s h in
    let zero? : (c == 0) ≡ false = ground arith in
    (escape_char c ++ t, rw (zero?, e) refl, IsEscaped-cons c s t nz escaped)

-- The two loops together are the second one alone.
joined : Bytes → Option Bytes
joined s = do (plain, rest) ← scan_plain s; escaped ← escape_rest rest; some (plain ++ escaped)

shift :
    (c : ℕ) (o : Option (Bytes × Bytes))
    → (do
      (plain, rest) ← (do (plain, rest) ← o; some (c ∷ plain, rest))
      escaped ← escape_rest rest
      some (plain ++ escaped))
      ≡ (do
        result ← (do (plain, rest) ← o; escaped ← escape_rest rest; some (plain ++ escaped))
        some (c ∷ result))
shift c none = refl
shift c (some (plain, rest)) = sym (>>=_assoc (escape_rest rest) _ _)

joined-cons :
    (c : ℕ) (s : Bytes) → (joined s ≡ escape_rest s) → joined (c ∷ s) ≡ escape_rest (c ∷ s)
unfolding joined scan_plain escape_rest
joined-cons c s ih = elim (Bool-cases (c == 0)) [
  | inl nul ↦ rw nul refl
  | inr not_nul ↦ elim (special_or_plain c) [
    | inl e ↦ rw e (>>=_some _)
    | inr (inl e) ↦ rw e (>>=_some _)
    | inr (inr (inl e)) ↦ rw e (>>=_some _)
    | inr (inr (inr (inl e))) ↦ rw e (>>=_some _)
    | inr (inr (inr (inr (inl e)))) ↦ rw e (>>=_some _)
    | inr (inr (inr (inr (inr (plain, e))))) ↦ rw (not_nul, plain, e, ← ih) (shift c (scan_plain s))
  ]
]

joined-escape_rest : (s : Bytes) → joined s ≡ escape_rest s
unfolding joined scan_plain escape_rest
joined-escape_rest [] = refl
joined-escape_rest (c ∷ s) = joined-cons c s (joined-escape_rest s)

scan_plain-append : (s plain rest : Bytes) → scan_plain s ≡ some (plain, rest) → s ≡ plain ++ rest
unfolding scan_plain
scan_plain-append [] plain rest e = ground arith
scan_plain-append (c ∷ s) plain rest e = elim (Bool-cases (c == 0)) [
  | inl nul ↦ absurd (ground arith)
  | inr not_nul ↦ elim (Bool-cases (is_special c)) [
    | inl special ↦ let (p, q) = some_pair_inj (rw (not_nul, special) at e) in rw (← p, ← q) refl
    | inr more ↦
        let (r, scanned, out) = >>=-eq-some (scan_plain s) _ (rw (not_nul, more) at e) in
        let (p, q) = some_pair_inj out in
        rw (← p, ← q) (ap (◌∷◌ c) (scan_plain-append s r.0 r.1 scanned))
  ]
]

-- The first loop of `xmlEscape` and its shortcut change nothing: the result, a failed assertion
-- included, is that of replacing the characters one by one.
pub xml_escape-escape_rest : (s : Bytes) → xml_escape s ≡ escape_rest s
unfolding xml_escape joined escape_rest
xml_escape-escape_rest s = elim (Option-cases (scan_plain s)) [
  | inl nul ↦ first_fails s nul ∙ joined-escape_rest s
  | inr ((plain, rest), scanned) ↦ first_stops s plain rest scanned ∙ joined-escape_rest s
]
  where
    first_fails : (s : Bytes) → scan_plain s ≡ none → xml_escape s ≡ joined s
    first_fails s nul = rw nul refl

    first_stops :
        (s plain rest : Bytes) → scan_plain s ≡ some (plain, rest) → xml_escape s ≡ joined s
    first_stops s plain [] e = rw e (ap some (scan_plain-append s plain [] e))
    first_stops s plain (x ∷ rest) e =
        let longer : (suc (length rest) == 0) ≡ false = ground arith in rw (e, longer) refl

-- A text without NUL characters is escaped to a text in which '&', '<', '>', '"' and the apostrophe
-- stand in none but the five references that XML predefines; and replacing these references by their
-- characters, with no other change, gives the text itself.
pub xml_escape-unescape :
    (s : Bytes)
    → All (λ c. c ≢ 0) s
    → (t : Bytes) × (xml_escape s ≡ some t) × (unescape (length t) t ≡ some s)
xml_escape-unescape s h =
    let (t, e, escaped) = escape_rest-IsEscaped s h in
    (t, xml_escape-escape_rest s ∙ e, escaped.read (length t) escaped.longer)
