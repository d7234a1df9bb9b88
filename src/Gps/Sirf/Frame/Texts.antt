-- ===== src/Gps/Sirf/Frame/Texts.antt =====
-- A text of frames is read frame by frame, and taken whole.
use precision_location_lite.Base.{
  >>=_assoc, ℕ, zero, suc, ◌+◌, ◌≤◌, ◌<◌, ◌^◌, List, [], ◌∷◌, ◌++◌, Option, some, inl, inr, ◌≡◌,
  refl, ap, ◌∙◌, arith, ◌>>=◌, Option-cases, Bytes, length, All, append-nil, append_assoc,
  length-append, ◌/◌, ◌%◌,
}
use precision_location_lite.Gps.Sirf.Frame.Layout.{frame, sum15, frame-IsFrameAt}
use precision_location_lite.Gps.Sirf.Frame.Rounds.{state_at, round-taken}
use precision_location_lite.Gps.Sirf.Frame.{dispatch, parse_frames, try_parse}
use precision_location_lite.Gps.Sirf.Input.Reads.{at, byte, open_stream-some}
use precision_location_lite.Gps.{Reals, GpsData}
use precision_location_lite.Gps.Sirf.Frame.Runs.{parse-stop, parse-go}

module _ (rs : Reals) (tick : ℕ) where
  abbrev pub frames : List Bytes → Bytes
  frames [] = []
  frames (q ∷ qs) = frame q ++ frames qs

  abbrev pub dispatch_all : List Bytes → GpsData rs.D rs.F → Option (GpsData rs.D rs.F)
  dispatch_all [] d = some d
  dispatch_all (q ∷ qs) d = do d' ← dispatch rs tick (byte q 0) (at q 1) d; dispatch_all qs d'

  -- The payloads that the loop takes up even at the end of a text.
  abbrev pub IsPayload : Bytes → Type 0
  IsPayload q = (2 ≤ length q) × (length q < 2 ^ 16)

  parse-frames :
      (fuel : ℕ) (pre : Bytes) (qs : List Bytes) (rest : Bytes) (d : GpsData rs.D rs.F)
      → All IsPayload qs
      → length rest < 10
      → length (frames qs ++ rest) ≤ fuel
      → parse_frames rs tick fuel
          (state_at rs tick (pre ++ (frames qs ++ rest)) (length pre) (length pre) d)
        ≡ (do
          d' ← dispatch_all qs d
          let read = length pre + length (frames qs)
          some (state_at rs tick (pre ++ (frames qs ++ rest)) read read d'))
  parse-frames fuel pre [] rest d h short enough =
      let same : length pre + 0 ≡ length pre = omega arith in
      rw same (
        parse-stop rs tick (pre ++ rest) fuel (length pre) (length pre) d
          (omega (arith, length-append pre rest)) (omega (arith, length-append pre rest)))
  parse-frames zero pre (q ∷ qs) rest d h short enough =
      absurd
        (omega (arith, length-append (frames (q ∷ qs)) rest, length-append (frame q) (frames qs)))
  parse-frames (suc fuel) pre (q ∷ qs) rest d ((long, small), h) short enough =
      let tail : Bytes = sum15 q / 256 ∷ sum15 q % 256 ∷ 0xB0 ∷ 0xB3 ∷ [] in
      let after = frames qs ++ rest in
      let stands = frame-IsFrameAt pre q after (omega arith) small in
      let whole = pre ++ (frame q ++ after) in
      let inner : (frame q ++ frames qs) ++ rest ≡ frame q ++ after =
        append_assoc (frame q) (frames qs) rest in
      let assoc : (pre ++ frame q) ++ after ≡ whole = append_assoc pre (frame q) after in
      let len : length (pre ++ frame q) ≡ length pre + 8 + length q =
        omega (arith, length-append pre (frame q), length-append q tail) in
      let read : length pre + 8 + length q + length (frames qs)
          ≡ length pre + length (frame q ++ frames qs) =
        omega (arith, length-append (frame q) (frames qs), length-append q tail) in
      rw inner (
        parse-go rs tick whole fuel (length pre) (length pre) d (omega (arith, stands.fits))
        ∙ rw (round-taken rs tick whole q (length pre) (length pre) d stands)
            (elim (Option-cases (dispatch rs tick (byte q 0) (at q 1) d)) [
              | inl fails ↦ rw fails refl
              | inr (d', found) ↦
                  let ih = parse-frames fuel (pre ++ frame q) qs rest d' h short (
                    omega (
                      arith,
                      enough,
                      length-append (frame q) after,
                      length-append q tail,
                      ap length inner,
                    )) in
                  rw found (rw (assoc, len, read) at ih)
            ]))

  -- A text that consists of one or more frames, with payloads of at least two and fewer than 2^16
  -- bytes, is taken whole, and leaves the data of the messages dispatched one after the other; an
  -- assertion fails only if it fails in one of them.
  pub try_parse-frames :
      (q : Bytes) (qs : List Bytes) (d : GpsData rs.D rs.F)
      → All IsPayload (q ∷ qs)
      → try_parse rs tick (frames (q ∷ qs)) d
        ≡ (do d' ← dispatch_all (q ∷ qs) d; some (length (frames (q ∷ qs)), d'))
  unfolding try_parse
  try_parse-frames q qs d h =
      let text = frames (q ∷ qs) in
      let all = rw (append-nil text) at (
        parse-frames (length text) [] (q ∷ qs) [] d h (omega arith)
          (omega (arith, ap length (append-nil text)))) in
      let from_start : 0 + length text ≡ length text = omega arith in
      rw (open_stream-some text (omega arith), all, from_start)
        (>>=_assoc (dispatch_all (q ∷ qs) d) _ _)

  -- Frames of payloads of two bytes or more are taken, but not the frame of a payload of one byte, the
  -- message id, that ends the text: its nine bytes are fewer than the `SIRF_MIN_SIZE` that the loop
  -- asks for.
  pub try_parse-one_byte :
      (qs : List Bytes) (x : ℕ) (d : GpsData rs.D rs.F)
      → All IsPayload qs
      → try_parse rs tick (frames qs ++ frame (x ∷ [])) d
        ≡ (do d' ← dispatch_all qs d; some (length (frames qs), d'))
  unfolding try_parse
  try_parse-one_byte qs x d h =
      let text = frames qs ++ frame (x ∷ []) in
      let from_start : 0 + length (frames qs) ≡ length (frames qs) = omega arith in
      rw
        (
          open_stream-some text (omega (arith, length-append (frames qs) (frame (x ∷ [])))),
          parse-frames (length text) [] qs (frame (x ∷ [])) d h (omega arith) (omega arith),
          from_start,
        )
        (>>=_assoc (dispatch_all qs d) _ _)
