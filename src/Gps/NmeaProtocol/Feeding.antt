-- ===== src/Gps/NmeaProtocol/Feeding.antt =====
-- What arrives in pieces at `GPSProtocol::parse` is read by `NMEAProtocol` like the whole text.
use Prim.Native.Nat.{bit_or}
use precision_location_lite.Base.{
  ℕ, ◌≤◌, ◌<◌, Bool, List, [], ◌∷◌, ◌++◌, append_assoc, append-nil, Option, none, some, inl, inr,
  ◌≡◌, sym, ap, ◌∙◌, ltb, leb, ◌>>=◌, >>=-eq-some, some_pair_inj, Bool-cases, Bytes, length,
}
use precision_location_lite.Base.Int.{pos}
use precision_location_lite.Gps.NmeaProtocol.{
  Platform, Clocks, Members, gsv_timeout, elapsed, floats, try_parse,
}
use precision_location_lite.Gps.Protocol.{State, parse, conclude, max_buf_size}
use precision_location_lite.Nmea.Scan.{find}
use precision_location_lite.Nmea.Stream
use precision_location_lite.Nmea.Stream.Chunks.{loop-stop, parse-append, splice, sentences}
use precision_location_lite.Nmea.Stream.Progress.{parse-IsStep}
use precision_location_lite.Gps.NmeaProtocol.Calls.{
  IsText, IsText-append, IsText-drop, Nmea, parse_info, Same, parse-Same,
}

module _ (pf : Platform) where
  abbrev pub Chunks : Type 0
  Chunks = List (Clocks × Bytes)

  abbrev pub whole : Chunks → Bytes
  whole [] = []
  whole ((clocks, text) ∷ chunks) = text ++ whole chunks

  -- Calls of `parse`, each with a text without NUL, while the buffer stays below its bound and the
  -- satellites are not out of date.
  pub data Feeds : Chunks → Nmea pf → Nmea pf → Type 0 where
    done : (st : Nmea pf) → Feeds [] st st
    feed :
        {clocks : Clocks} {text : Bytes} {chunks : Chunks} {st st₁ st' : Nmea pf} {ok : Bool}
        → IsText text
        → length (st.parse_buffer ++ text) < max_buf_size
        → elapsed st.members.gsv_timer clocks.tick ≤ gsv_timeout
        → parse (try_parse pf clocks) text st ≡ some (ok, st₁)
        → Feeds chunks st₁ st'
        → Feeds ((clocks, text) ∷ chunks) st st'

  idle :
      (junk : Stream.Junk) (from : Bytes) (m : Members pf.D pf.F)
      → find from ≡ none
      → parse_info pf junk from m ≡ some (record { seen = 0; to = m.info; next = from })
  unfolding Stream.parse
  idle junk from m e = loop-stop (floats pf) _ junk (length from) _ e

  conclude-IsText :
      (from : Bytes) (state : State) (r : ℕ × Members pf.D pf.F)
      → IsText from
      → IsText (conclude from state r).parse_buffer
  conclude-IsText from state (n, m) text = elim (Bool-cases (ltb 0 n)) [
    | inl taken ↦ rw taken (IsText-drop n from text)
    | inr none_taken ↦ elim (Bool-cases (leb max_buf_size (length from))) [
      | inl broken ↦ rw (none_taken, broken) tt
      | inr waits ↦ rw (none_taken, waits) text
    ]
  ]

  parse-IsText :
      (clocks : Clocks) (text : Bytes) (st st' : Nmea pf) (ok : Bool)
      → IsText (st.parse_buffer ++ text)
      → parse (try_parse pf clocks) text st ≡ some (ok, st')
      → IsText st'.parse_buffer
  unfolding parse
  parse-IsText clocks text st st' ok nul e =
      let from = st.parse_buffer ++ text in
      let (r, tried, out) = >>=-eq-some (try_parse pf clocks from st.members) _ e in
      rw (← (some_pair_inj out).1) (conclude-IsText from st.state r nul)

  -- What the stack holds at the sentences that the calls read, one call after the other.
  unfoldable pub met : {chunks : Chunks} {st st' : Nmea pf} → Feeds chunks st st' → Stream.Junk
  met (done st) = λ n. pos 0
  met (feed {clocks} {text = piece} {chunks} {st} {st₁} {st'} {ok} nul short fresh e later) =
      splice (sentences (st.parse_buffer ++ piece)) clocks.junk (met later)

  -- `NMEA::parse` leaves the information and the unread bytes of the buffer with the text behind it.
  abbrev pub IsWhole : Stream.Junk → Bytes → Nmea pf → Nmea pf → Type 0
  IsWhole junk text st st' =
      (seen : ℕ) × (parse_info pf junk (st.parse_buffer ++ text) st.members
        ≡ some (record { seen = seen; to = st'.members.info; next = st'.parse_buffer }))

  -- One more piece in front of the others.
  IsWhole-piece :
      (junk junk' : Stream.Junk) (piece rest : Bytes) (st st₁ st' : Nmea pf)
      (p : Stream.Parsed pf.D)
      → parse_info pf junk (st.parse_buffer ++ piece) st.members ≡ some p
      → Same pf p st₁
      → IsWhole junk' rest st₁ st'
      → IsWhole (splice (sentences (st.parse_buffer ++ piece)) junk junk') (piece ++ rest) st st'
  IsWhole-piece junk junk' piece rest st st₁ st' p parses (info, buffer) (seen, after) =
      let both = splice (sentences (st.parse_buffer ++ piece)) junk junk' in
      (
        bit_or p.seen seen,
        ap (λ (s : Bytes). parse_info pf both s st.members)
              (sym (append_assoc st.parse_buffer piece rest))
            ∙ parse-append (floats pf) junk junk' (st.parse_buffer ++ piece) rest st.members.info
                Stream.all_sentences p parses
            ∙ ap
                (λ (o : Option (Stream.Parsed pf.D)).
                  o >>= λ q. some (record q { seen = bit_or p.seen q.seen }))
                (rw (info, buffer) at after),
      )

  -- Where a text without NUL arrives in pieces, no call fails an assertion, the buffer stays below
  -- its bound and the satellites do not go out of date, and no complete sentence stood in the buffer
  -- before: the calls leave the information and the unread bytes that `NMEA::parse` leaves of the
  -- buffer with the whole text behind it. For the fractions of times that have none, each call finds
  -- numbers of its own on the stack, and `NMEA::parse` at each sentence the one that was found there.
  pub Feeds-IsWhole :
      {chunks : Chunks} {st st' : Nmea pf}
      → IsText st.parse_buffer
      → find st.parse_buffer ≡ none
      → (feeds : Feeds chunks st st') → IsWhole (met feeds) (whole chunks) st st'
  unfolding met
  Feeds-IsWhole text idle_buffer (done st) = (
    0,
    rw (append-nil st.parse_buffer) (idle (λ n. pos 0) st.parse_buffer st.members idle_buffer),
  )
  Feeds-IsWhole text idle_buffer
        (feed {clocks} {text = piece} {chunks} {st} {st₁} {st'} {ok} nul short fresh e later) =
      let all = IsText-append st.parse_buffer piece text nul in
      let (p, parses, same) = parse-Same pf clocks piece st st₁ ok all short fresh e in
      let step =
        parse-IsStep (floats pf) clocks.junk (st.parse_buffer ++ piece) st.members.info
          Stream.all_sentences p parses in
      IsWhole-piece clocks.junk (met later) piece (whole chunks) st st₁ st' p parses same (
        Feeds-IsWhole (parse-IsText clocks piece st st₁ ok all e) (rw (same.1) step.no_sentence)
          later)
