-- ===== src/Gps/NmeaProtocol/Calls.antt =====
-- One call of `GPSProtocol::parse` with `NMEAProtocol`: what it does with the buffer and the dataset.
use Prim.Native.Nat.{bit_and}
use precision_location_lite.Base.{
  ℕ, zero, suc, ◌+◌, ◌-◌, ◌≤◌, ◌<◌, ◌≢◌, Bool, true, false, not, ◌&&◌, [], ◌∷◌, ◌++◌, append_assoc,
  Option, some, inl, inr, ◌⊎◌, ◌≡◌, refl, sym, ap, ◌∙◌, arith, ◌==◌, >>=-eq-some, some_inj,
  some_pair_inj, Bool-cases, Bytes, length, drop, All, length-append, drop-append, lt→ltb,
  lt→leb_false, le→ltb_false,
}
use precision_location_lite.Gps.NmeaProtocol.{
  Platform, Clocks, Members, c_string, gsv_timeout, elapsed, floats, update_gps_data, update,
  try_parse,
}
use precision_location_lite.Gps.Protocol.{Protocol, State, parse, conclude, max_buf_size}
use precision_location_lite.Nmea.Scan.Sentences.{end_of_line}
use precision_location_lite.Nmea.Stream
use precision_location_lite.Nmea.Stream.Progress.{IsTaken, parse-IsStep}

abbrev pub IsText : Bytes → Type 0
IsText = All (λ c. c ≢ 0)

-- The test on a concrete text.
abbrev pub is_text : Bytes → Bool
is_text [] = true
is_text (c ∷ s) = not (c == 0) && is_text s

pub is_text-IsText : (s : Bytes) → is_text s ≡ true → IsText s
is_text-IsText [] h = tt
is_text-IsText (c ∷ s) h = (ground arith, is_text-IsText s (ground arith))

c_string-IsText : (s : Bytes) → IsText s → c_string s ≡ s
unfolding c_string
c_string-IsText [] h = refl
c_string-IsText (c ∷ s) (nz, h) =
    let zero? : (c == 0) ≡ false = ground arith in rw (zero?, c_string-IsText s h) refl

pub IsText-append : (s t : Bytes) → IsText s → IsText t → IsText (s ++ t)
IsText-append [] t h k = k
IsText-append (c ∷ s) t (nz, h) k = (nz, IsText-append s t h k)

pub IsText-drop : (n : ℕ) (s : Bytes) → IsText s → IsText (drop n s)
IsText-drop zero s h = h
IsText-drop (suc n) [] h = h
IsText-drop (suc n) (c ∷ s) (nz, h) = IsText-drop n s h

taken-drop :
    (from next : Bytes)
    → IsTaken from next
    → (drop (length from - length next) from ≡ next) × (2 < length from - length next)
taken-drop from next h =
    let front = h.lines ++ end_of_line in
    let splits : from ≡ front ++ next = h.splits ∙ sym (append_assoc h.lines end_of_line next) in
    let len : length front ≡ length h.lines + 2 = length-append h.lines end_of_line in
    let all : length from ≡ length front + length next =
      ap length splits ∙ length-append front next in
    let n : length from - length next ≡ length front = omega arith in
    (rw n (ap (drop (length front)) splits ∙ drop-append front next), omega (arith, h.not_empty))

nothing_taken : (a b : ℕ) → b ≡ a → (a - b == 0) ≡ true
nothing_taken a b e = ground arith

some_taken : (k : ℕ) → 2 < k → (k == 0) ≡ false
some_taken k h = ground arith

module _ (pf : Platform) where
  abbrev pub Nmea : Type 0
  Nmea = Protocol (Members pf.D pf.F)

  -- `NMEA::parse` on a text, with all sentences asked for.
  abbrev pub parse_info : Stream.Junk → Bytes → Members pf.D pf.F → Option (Stream.Parsed pf.D)
  parse_info junk from st = Stream.parse (floats pf) junk from st.info Stream.all_sentences

  -- `tryParse` that returns, on a text without NUL, while the satellites are not out of date.
  update-info :
      (clocks : Clocks) (st st' : Members pf.D pf.F) (p : Stream.Parsed pf.D)
      → elapsed st.gsv_timer clocks.tick ≤ gsv_timeout
      → update pf clocks st p ≡ some st'
      → st'.info ≡ p.to
  unfolding update
  update-info clocks st st' p fresh e =
      let (d, updated, out) = >>=-eq-some (update_gps_data pf clocks p.to) _ e in
      let in_time = le→ltb_false gsv_timeout (elapsed st.gsv_timer clocks.tick) fresh in
      elim (Bool-cases (bit_and p.seen (Stream.sentence_bit Stream.gsv) == 0)) [
        | inl none_seen ↦
            sym (ap (λ (m : Members pf.D pf.F). m.info) (some_inj (rw (none_seen, in_time) at out)))
        | inr seen ↦ sym (ap (λ (m : Members pf.D pf.F). m.info) (some_inj (rw seen at out)))
      ]

  -- What a call of `tryParse` leaves is what `NMEA::parse` leaves of its text.
  record IsRead (junk : Stream.Junk) (from : Bytes) (st : Members pf.D pf.F) (n : ℕ)
      (st' : Members pf.D pf.F) : Type 0 where
    parsed : Stream.Parsed pf.D
    parses : parse_info junk from st ≡ some parsed
    info : st'.info ≡ parsed.to
    rest : (drop n from ≡ parsed.next)
    count : (n ≡ 0) ⊎ (2 < n)

  try_parse-IsRead :
      (clocks : Clocks) (from : Bytes) (st st' : Members pf.D pf.F) (n : ℕ)
      → IsText from
      → elapsed st.gsv_timer clocks.tick ≤ gsv_timeout
      → try_parse pf clocks from st ≡ some (n, st')
      → IsRead clocks.junk from st n st'
  unfolding try_parse
  try_parse-IsRead clocks from st st' n text fresh e =
      let (p, parses, out) =
        >>=-eq-some (parse_info clocks.junk from st) _ (rw (c_string-IsText from text) at e) in
      let step = parse-IsStep (floats pf) clocks.junk from st.info Stream.all_sentences p parses in
      elim step.taken [
        | inl same ↦
            let k : ℕ = length from - length p.next in
            let z : (k == 0) ≡ true =
              nothing_taken _ _ (ap (λ (q : Stream.Parsed pf.D). length q.next) same) in
            let (zero_n, members) = some_pair_inj (rw z at out) in
            record {
              parsed = p;
              parses = parses;
              info = sym (ap (λ (m : Members pf.D pf.F). m.info) members);
              rest = rw (← zero_n) (sym (ap (λ (q : Stream.Parsed pf.D). q.next) same));
              count = inl (sym zero_n);
            }
        | inr taken ↦
            let (dropped, more) = taken-drop from p.next taken in
            let k : ℕ = length from - length p.next in
            let z : (k == 0) ≡ false = some_taken k more in
            let (m, updated, out') =
              >>=-eq-some (update pf clocks st p) _ (rw (z, lt→ltb 2 k more) at out) in
            let (kn, members) = some_pair_inj out' in
            record {
              parsed = p;
              parses = parses;
              info =
                  sym (ap (λ (m : Members pf.D pf.F). m.info) members)
                  ∙ update-info clocks st m p fresh updated;
              rest = rw (← kn) dropped;
              count = inr (rw (← kn) more);
            }
      ]

  abbrev pub Same : Stream.Parsed pf.D → Nmea → Type 0
  Same p st = (st.members.info ≡ p.to) × (st.parse_buffer ≡ p.next)

  conclude-Same :
      (junk : Stream.Junk) (from : Bytes) (state : State) (n : ℕ) (before m : Members pf.D pf.F)
      → length from < max_buf_size
      → (read : IsRead junk from before n m) → Same read.parsed (conclude from state (n, m))
  conclude-Same junk from state zero before m short read =
      rw (lt→leb_false max_buf_size (length from) short) (read.info, read.rest)
  conclude-Same junk from state (suc n) before m short read =
      rw (lt→ltb 0 (suc n) (omega arith)) (read.info, read.rest)

  concluded :
      (clocks : Clocks) (from : Bytes) (state : State) (before : Members pf.D pf.F)
      (r : ℕ × Members pf.D pf.F) (st' : Nmea)
      → IsText from
      → length from < max_buf_size
      → elapsed before.gsv_timer clocks.tick ≤ gsv_timeout
      → try_parse pf clocks from before ≡ some r
      → conclude from state r ≡ st'
      → (p : Stream.Parsed pf.D) × (parse_info clocks.junk from before ≡ some p) × Same p st'
  concluded clocks from state before (n, m) st' text short fresh tried same =
      let read = try_parse-IsRead clocks from before m n text fresh tried in
      (
        read.parsed,
        read.parses,
        rw (← same) (conclude-Same clocks.junk from state n before m short read),
      )

  -- A call of `parse` that does not find the buffer broken.
  pub parse-Same :
      (clocks : Clocks) (text : Bytes) (st st' : Nmea) (ok : Bool)
      → IsText (st.parse_buffer ++ text)
      → length (st.parse_buffer ++ text) < max_buf_size
      → elapsed st.members.gsv_timer clocks.tick ≤ gsv_timeout
      → parse (try_parse pf clocks) text st ≡ some (ok, st')
      → (p : Stream.Parsed pf.D) × (parse_info clocks.junk (st.parse_buffer ++ text) st.members
          ≡ some p)
        × Same p st'
  unfolding parse
  parse-Same clocks text st st' ok nul short fresh e =
      let from = st.parse_buffer ++ text in
      let (r, tried, out) = >>=-eq-some (try_parse pf clocks from st.members) _ e in
      concluded clocks from st.state st.members r st' nul short fresh tried ((some_pair_inj out).1)
