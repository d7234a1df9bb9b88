-- ===== src/Nmea/Sentence/Fields.antt =====
-- What an accepted sentence leaves in the fields of a dataset.
use precision_location_lite.Base.{
  ℕ, true, false, List, [], ◌∷◌, Option, none, some, ◌≡◌, ◌≢◌, ap, ◌∙◌, arith, ltb, if◌then◌else◌,
  ◌>>=◌, Bool-cases, Option-cases, >>=-eq-some, some_inj, some_pair_inj, sym, inl, inr, Bytes,
  length, All,
}
use mathlib.Core.Bool.{false≢true}
use precision_location_lite.Base.Int.{ℤ}
use precision_location_lite.Base.Libc.{Floats}
use precision_location_lite.Nmea.Dataset.{Variant, Dataset, set, remove}
use precision_location_lite.Nmea.Scan.Tokens.{tokens}
use precision_location_lite.Nmea.Sentence.Payload.{
  assign, payload_of, is_acceptable, parse_sentence-assign,
}
use precision_location_lite.Nmea.Sentence.{Sentence, store_token, parse_sentence}
use precision_location_lite.Nmea.Token.{Token, parse_token}

-- The format names no field twice.
abbrev pub IsDistinct : List (ℕ × Token) → Type 0
IsDistinct [] = Unit
IsDistinct (p ∷ format) = All (λ q. q.0 ≢ p.0) format × IsDistinct format

-- The field is none of the format's.
abbrev pub IsOutside : ℕ → List (ℕ × Token) → Type 0
IsOutside field = All (λ p. p.0 ≢ field)

module _ (fl : Floats) where
  -- What a token leaves in its field: nothing if it is empty or its class refuses it.
  abbrev pub token_value : ℤ → Token → Bytes → Option (Option (Variant fl.D))
  token_value junk token s = if ltb 0 (length s) then parse_token fl junk token s else some none

  -- Each field of the format holds what its token stands for.
  abbrev pub HasTokens : ℤ → List (ℕ × Token) → List Bytes → Dataset fl.D → Type 0
  HasTokens junk [] ts to = Unit
  HasTokens junk ((field, token) ∷ format) [] to = ⊥
  HasTokens junk ((field, token) ∷ format) (t ∷ ts) to =
      (token_value junk token t ≡ some (to field)) × HasTokens junk format ts to

  abbrev written : ℕ → Option (Variant fl.D) → Dataset fl.D → Dataset fl.D
  written field value to = elim value [ none ↦ remove to field | some v ↦ set to field v ]

  written-get :
      (field : ℕ) (value : Option (Variant fl.D)) (to : Dataset fl.D)
      → (some value ≡ some (written field value to field))
        × ((g : ℕ) → g ≢ field → written field value to g ≡ to g)
  unfolding set remove
  written-get field none to = (ground arith, λ g ne. ground arith)
  written-get field (some v) to = (ground arith, λ g ne. ground arith)

  store_token-written :
      (junk : ℤ) (field : ℕ) (token : Token) (s : Bytes) (to : Dataset fl.D)
      → store_token fl junk field token s to
        ≡ (do value ← token_value junk token s; some (written field value to))
  unfolding store_token
  store_token-written junk field token s to = elim (Bool-cases (ltb 0 (length s))) [
    | inl full ↦ rw full
    | inr empty ↦ rw empty
  ]

  store_token-get :
      (junk : ℤ) (field : ℕ) (token : Token) (s : Bytes) (to to' : Dataset fl.D)
      → store_token fl junk field token s to ≡ some to'
      → (token_value junk token s ≡ some (to' field)) × ((g : ℕ) → g ≢ field → to' g ≡ to g)
  store_token-get junk field token s to to' e = elim (Option-cases (token_value junk token s)) [
    | inl fails ↦ cc (store_token-written junk field token s to)
    | inr (value, read) ↦
        let same : written field value to ≡ to' = some_inj (rw (store_token-written, read) at e) in
        rw (← same) (read ∙ (written-get field value to).0, (written-get field value to).1)
  ]

  assign-outside :
      (junk : ℤ) (format : List (ℕ × Token)) (ts : List Bytes) (to to' : Dataset fl.D) (g : ℕ)
      → assign fl junk format ts to ≡ some to'
      → IsOutside g format
      → to' g ≡ to g
  unfolding assign
  assign-outside junk [] ts to to' g e out = ap (λ (d : Dataset fl.D). d g) (sym (some_inj e))
  assign-outside junk ((f, token) ∷ format) [] to to' g e out = cc
  assign-outside junk ((f, token) ∷ format) (t ∷ ts) to to' g e out =
      let (mid, stored, later) = >>=-eq-some (store_token fl junk f token t to) _ e in
      assign-outside junk format ts mid to' g later out.1
      ∙ (store_token-get junk f token t to mid stored).1 g (λ p. out.0 (sym p))

  assign-HasTokens :
      (junk : ℤ) (format : List (ℕ × Token)) (ts : List Bytes) (to to' : Dataset fl.D)
      → assign fl junk format ts to ≡ some to'
      → IsDistinct format
      → HasTokens junk format ts to'
  unfolding assign
  assign-HasTokens junk [] ts to to' e distinct = tt
  assign-HasTokens junk ((f, token) ∷ format) [] to to' e distinct = cc
  assign-HasTokens junk ((f, token) ∷ format) (t ∷ ts) to to' e distinct =
      let (mid, stored, later) = >>=-eq-some (store_token fl junk f token t to) _ e in
      (
        (store_token-get junk f token t to mid stored).0
            ∙ ap some (sym (assign-outside junk format ts mid to' f later distinct.0)),
        assign-HasTokens junk format ts mid to' later distinct.1,
      )

  -- After an accepted sentence each field of its format holds the value of the token at its place,
  -- or is absent if that token is empty or refused, and every other field is as it was.
  pub parse_sentence-HasTokens :
      (junk : ℤ) (sentence : Sentence) (s : Bytes) (to to' : Dataset fl.D)
      → IsDistinct sentence.format
      → parse_sentence fl junk sentence s to ≡ some (true, to')
      → HasTokens junk sentence.format (tokens (payload_of fl sentence s)) to'
        × ((g : ℕ) → IsOutside g sentence.format → to' g ≡ to g)
  parse_sentence-HasTokens junk sentence s to to' distinct e =
      elim (Bool-cases (is_acceptable fl sentence s)) [
        | inr refused ↦
            absurd (false≢true (some_pair_inj (rw (parse_sentence-assign, refused) at e)).0)
        | inl fine ↦
            let ts = tokens (payload_of fl sentence s) in
            let (d, assigned, same) =
              >>=-eq-some (assign fl junk sentence.format ts to) (λ d. some (true, d))
                (rw (parse_sentence-assign, fine) at e) in
            rw (← (some_pair_inj same).1) (
              assign-HasTokens junk sentence.format ts to d assigned distinct,
              λ g out. assign-outside junk sentence.format ts to d g assigned out,
            )
      ]

  -- A sentence that is not accepted leaves the dataset as it was.
  pub parse_sentence_refused :
      (junk : ℤ) (sentence : Sentence) (s : Bytes) (to to' : Dataset fl.D)
      → parse_sentence fl junk sentence s to ≡ some (false, to')
      → to' ≡ to
  parse_sentence_refused junk sentence s to to' e =
      elim (Bool-cases (is_acceptable fl sentence s)) [
        | inr refused ↦ sym (some_pair_inj (rw (parse_sentence-assign, refused) at e)).1
        | inl fine ↦
            let ts = tokens (payload_of fl sentence s) in
            let (d, assigned, same) =
              >>=-eq-some (assign fl junk sentence.format ts to) (λ d. some (true, d))
                (rw (parse_sentence-assign, fine) at e) in
            absurd (false≢true (sym (some_pair_inj same).0))
      ]
