-- ===== src/Nmea/Stream/Refusal.antt =====
-- A sentence that is refused changes nothing, so the first sentence format that accepts a text
-- reads it as if it were the only one.
use precision_location_lite.Base.{
  ℕ, Bool, true, false, List, [], ◌∷◌, Option, none, some, ◌≡◌, refl, sym, if◌then◌else◌, ◌>>=◌,
  >>=-eq-some, some_inj, some_pair_inj, Bytes,
}
use mathlib.Core.Bool.{false≢true}
use precision_location_lite.Base.Int.{ℤ}
use precision_location_lite.Base.Libc.{Floats}
use precision_location_lite.Nmea.Dataset.{Dataset, reset, get, to_int}
use precision_location_lite.Nmea.Field
use precision_location_lite.Nmea.Gsv.{merge_message, parse_gsv}
use precision_location_lite.Nmea.Sentence.Fields.{parse_sentence_refused}
use precision_location_lite.Nmea.Sentence.{Sentence, parse_sentence}
use precision_location_lite.Nmea.Stream.{
  SentenceName, is_gsv, sentence_of, sentence_id, parse_name, parse_first,
}

module _ (fl : Floats) where
  abbrev Result : Type 0
  Result = Option (Bool × Dataset fl.D)

  -- A result that says `false` holds the dataset that was given.
  abbrev Keeps : Dataset fl.D → Result → Type 0
  Keeps to r = (to' : Dataset fl.D) → ◌≡◌ {A = Result} r (some (false, to')) → to' ≡ to

  Keeps-refused : (to : Dataset fl.D) → Keeps to (some (false, to))
  Keeps-refused to to' e = sym (some_pair_inj e).1

  Keeps-accepted :
      (to : Dataset fl.D) (m : Option (Dataset fl.D)) → Keeps to (m >>= λ d. some (true, d))
  Keeps-accepted to none to' e = cc
  Keeps-accepted to (some d) to' e = absurd (false≢true (sym (some_pair_inj e).0))

  Keeps-if :
      (to : Dataset fl.D) (b : Bool) (r r' : Result)
      → Keeps to r
      → Keeps to r'
      → Keeps to (if b then r else r')
  Keeps-if to true r r' h k = h
  Keeps-if to false r r' h k = k

  Keeps-bind {ℓ} :
      (to : Dataset fl.D) {A : Type ℓ} (m : Option A) (f : A → Result)
      → ((a : A) → Keeps to (f a))
      → Keeps to (m >>= f)
  Keeps-bind to none f h = λ to' e. cc
  Keeps-bind to (some a) f h = h a

  merge_message-Keeps : (gsv to : Dataset fl.D) → Keeps to (merge_message fl gsv to)
  unfolding merge_message
  merge_message-Keeps gsv to = Keeps-bind to (to_int (get gsv Field.gsv_message_count)) _ λ count.
      Keeps-if to _ _ _ (Keeps-refused to) (
        Keeps-bind to (to_int (get gsv Field.gsv_message_number)) _
          λ number. Keeps-if to _ _ _ (Keeps-refused to) (Keeps-accepted to _))

  parse_gsv-Keeps :
      (junk : ℤ) (sentence : Sentence) (s : Bytes) (to : Dataset fl.D)
      → Keeps to (parse_gsv fl junk sentence s to)
  unfolding parse_gsv
  parse_gsv-Keeps junk sentence s to =
      Keeps-bind to (parse_sentence fl junk sentence s reset) _
        λ r. Keeps-if to r.0 _ _ (merge_message-Keeps r.1 to) (Keeps-refused to)

  -- A sentence format that refuses a text leaves the dataset as it was: the wrong header, checksum
  -- or number of fields, and for GSV also message numbers out of range.
  pub parse_name_refused :
      (junk : ℤ) (name : SentenceName) (s : Bytes) (to to' : Dataset fl.D)
      → parse_name fl junk name s to ≡ some (false, to')
      → to' ≡ to
  unfolding parse_name
  parse_name_refused junk name s to =
      Keeps-if to (is_gsv name) _ _ (parse_gsv-Keeps junk (sentence_of name) s to)
        (parse_sentence_refused fl junk (sentence_of name) s to)

  -- `parse_first` on `names`, from the dataset `to`, gives `r`: the first format that accepts the text
  -- gives its id and its dataset, every format before it having refused the text as it stands; if all
  -- refuse it, the id is 0 and the dataset the same.
  pub data TakesFirst (junk : ℤ) (s : Bytes) (to : Dataset fl.D) (r : ℕ × Dataset fl.D)
      : List SentenceName → Type 0 where
    refused_by_all : r ≡ (0, to) → TakesFirst junk s to r []
    accepted_by :
        (name : SentenceName) {names : List SentenceName}
        → ◌≡◌ {A = Result} (parse_name fl junk name s to) (some (true, r.1))
        → r.0 ≡ sentence_id name
        → TakesFirst junk s to r (name ∷ names)
    refused_by :
        (name : SentenceName) {names : List SentenceName}
        → ◌≡◌ {A = Result} (parse_name fl junk name s to) (some (false, to))
        → TakesFirst junk s to r names
        → TakesFirst junk s to r (name ∷ names)

  -- The inner loop of `parse` takes the first format that accepts the text, and nothing that a format
  -- before it did is left in the dataset.
  pub parse_first-TakesFirst :
      (junk : ℤ) (names : List SentenceName) (s : Bytes) (to : Dataset fl.D) (r : ℕ × Dataset fl.D)
      → parse_first fl junk names s to ≡ some r
      → TakesFirst junk s to r names
  unfolding parse_first
  parse_first-TakesFirst junk [] s to r e = refused_by_all (sym (some_inj e))
  parse_first-TakesFirst junk (name ∷ names) s to r e =
      let (result, tried, later) = >>=-eq-some (parse_name fl junk name s to) _ e in
      decide result.0 result.1 tried later (λ h. parse_first-TakesFirst junk names s to r h)
    where
      decide :
          (accepted : Bool) (to' : Dataset fl.D)
          → ◌≡◌ {A = Result} (parse_name fl junk name s to) (some (accepted, to'))
          → (if accepted then some (sentence_id name, to') else parse_first fl junk names s to')
            ≡ some r
          → (parse_first fl junk names s to ≡ some r → TakesFirst junk s to r names)
          → TakesFirst junk s to r (name ∷ names)
      decide true to' tried later rest =
          let same = some_inj later in rw (← same) (accepted_by name tried refl)
      decide false to' tried later rest =
          let kept = parse_name_refused junk name s to to' tried in
          refused_by name (rw kept at tried) (rest (rw kept at later))
