-- ===== src/Gps/Sirf/Frame/Runs.antt =====
-- The whole loop of `tryParse`: how it can end.
use native.Mathlib.Decide.{dec_le}
use precision_location_lite.Base.{
  ℕ, zero, suc, ◌+◌, ◌-◌, ◌≤◌, ◌<◌, Bool-cases, Option, none, some, inl, inr, ◌≡◌, refl, arith,
  ◌>>=◌, ◌==◌, ltb, le→leb, lt→leb_false, ltb→lt, Bytes, length,
}
use precision_location_lite.Base.Bits.{==→eq}
use precision_location_lite.Gps.Sirf.Frame.Layout.{IsFrameAt}
use precision_location_lite.Gps.Sirf.Frame.Rounds.{State, state_at, Round, skips, takes, round}
use precision_location_lite.Gps.Sirf.Frame.{
  dispatch, loop_body, parse_frames, try_parse, sirf_min_size,
}
use precision_location_lite.Gps.Sirf.Input.Reads.{at, byte, avail-at, open_stream-some}
use precision_location_lite.Gps.Sirf.Message.Channels.{parse_satellites-at}
use precision_location_lite.Gps.Sirf.Message.Position.{parse_fix-at}
use precision_location_lite.Gps.{Reals, GpsData}

-- A frame of message 4 whose payload is too short for its fixed part.
pub record HasShort (p : Bytes) : Type 0 where
  pub place : ℕ
  pub payload : Bytes
  pub stands : IsFrameAt p place payload
  pub id : byte payload 0 ≡ 4
  pub short : length payload < 8

-- The offset behind a frame, or 0.
pub data IsFrameEnd (p : Bytes) : ℕ → Type 0 where
  start : IsFrameEnd p 0
  behind : (i : ℕ) (q : Bytes) → IsFrameAt p i q → IsFrameEnd p (i + 8 + length q)

module _ (rs : Reals) (tick : ℕ) where
  -- How the loop can end: with fewer than ten bytes left, or in a failed assertion.
  pub data IsOutcome (p : Bytes) : Option (State rs tick) → Type 0 where
    ends :
        (j n : ℕ) (d : GpsData rs.D rs.F)
        → length p < j + 10
        → n ≤ length p
        → IsFrameEnd p n
        → IsOutcome p (some (state_at rs tick p j n d))
    asserts : HasShort p → IsOutcome p none

  data Dispatched (q : Bytes) : Option (GpsData rs.D rs.F) → Type 0 where
    parsed : (d : GpsData rs.D rs.F) → Dispatched q (some d)
    short : byte q 0 ≡ 4 → length q < 8 → Dispatched q none

  dispatch-cases :
      (q : Bytes) (d : GpsData rs.D rs.F) → Dispatched q (dispatch rs tick (byte q 0) (at q 1) d)
  unfolding dispatch
  dispatch-cases q d = elim (Bool-cases (byte q 0 == 41)) [
    | inl fix ↦ rw (fix, parse_fix-at rs tick q) (parsed _)
    | inr no_fix ↦ elim (Bool-cases (byte q 0 == 4)) [
      | inr other ↦ rw (no_fix, other) (parsed d)
      | inl sats ↦
          rw (no_fix, sats, parse_satellites-at rs q)
            (elim (Bool-cases (ltb (length q) 8)) [
              | inl few ↦ rw few (short (==→eq _ _ sats) (ltb→lt _ _ few))
              | inr enough ↦ rw enough (parsed _)
            ])
    ]
  ]

  module _ (p : Bytes) where
    pub parse-stop :
        (fuel j n : ℕ) (d : GpsData rs.D rs.F)
        → j ≤ length p
        → length p < j + 10
        → parse_frames rs tick fuel (state_at rs tick p j n d) ≡ some (state_at rs tick p j n d)
    unfolding parse_frames
    parse-stop zero j n d h few = refl
    parse-stop (suc fuel) j n d h few =
        rw (avail-at p j h, lt→leb_false sirf_min_size (length p - j) (omega arith)) refl

    pub parse-go :
        (fuel i n : ℕ) (d : GpsData rs.D rs.F)
        → i + 10 ≤ length p
        → parse_frames rs tick (suc fuel) (state_at rs tick p i n d)
          ≡ (loop_body rs tick (state_at rs tick p i n d) >>= λ st. parse_frames rs tick fuel st)
    unfolding parse_frames
    parse-go fuel i n d h =
        rw (avail-at p i (omega arith), le→leb sirf_min_size (length p - i) (omega arith)) refl

    abbrev Reaches : ℕ → ℕ → Type 0
    Reaches fuel i =
        (n : ℕ) (d : GpsData rs.D rs.F)
        → n ≤ length p
        → IsFrameEnd p n
        → IsOutcome p (parse_frames rs tick fuel (state_at rs tick p i n d))

    -- Behind a frame the loop goes on, unless the parser of its message has failed.
    after :
        (fuel i : ℕ) (q : Bytes) {o : Option (GpsData rs.D rs.F)}
        → IsFrameAt p i q
        → Reaches fuel (i + 8 + length q)
        → Dispatched q o
        → IsOutcome p (
            o >>= (λ d. some (state_at rs tick p (i + 8 + length q) (i + 8 + length q) d)) >>= λ st.
            parse_frames rs tick fuel st)
    after fuel i q h later (parsed d) = later (i + 8 + length q) d h.fits (behind i q h)
    after fuel i q h later (short id few) =
        asserts (record { place = i; payload = q; stands = h; id = id; short = few })

    one_round :
        (fuel i n : ℕ) (d : GpsData rs.D rs.F)
        → ((j : ℕ) → i < j → j ≤ length p → Reaches fuel j)
        → n ≤ length p
        → IsFrameEnd p n
        → Round rs tick p i n d
        → IsOutcome p
            (loop_body rs tick (state_at rs tick p i n d) >>= λ st. parse_frames rs tick fuel st)
    one_round fuel i n d later le end (skips j more h e) = rw e (later j more h n d le end)
    one_round fuel i n d later le end (takes q h e) =
        rw e (after fuel i q h (later (i + 8 + length q) (omega arith) h.fits) (dispatch-cases q d))

    reaches : (fuel i : ℕ) → i ≤ length p → length p ≤ i + fuel → Reaches fuel i
    reaches zero i h enough n d le end =
        rw (parse-stop zero i n d h (omega arith)) (ends i n d (omega arith) le end)
    reaches (suc fuel) i h enough n d le end = elim (dec_le (i + 10) (length p)) [
      | no few ↦ rw (parse-stop (suc fuel) i n d h (omega arith)) (ends i n d (omega arith) le end)
      | yes ten ↦ rw (parse-go fuel i n d ten) (
          one_round fuel i n d (λ j more le_j. reaches fuel j le_j (omega arith)) le end
            (round rs tick p i n d ten))
    ]

  -- On every text that is not empty `tryParse` comes to an end, without running out of rounds.
  -- Either fewer than ten bytes were left unread, and the number of bytes that it returns is 0 or
  -- that of the text up to the end of a frame that stands in it; or an assertion has failed, and
  -- then a frame of message 4 with a payload of fewer than 8 bytes stands in the text.
  pub try_parse-IsOutcome :
      (p : Bytes) (d : GpsData rs.D rs.F)
      → 0 < length p
      → (o : Option (State rs tick)) × IsOutcome p o
        × (try_parse rs tick p d ≡ (do end ← o; some (end.parsed_bytes, end.gps_data)))
  unfolding try_parse
  try_parse-IsOutcome p d h = (
    parse_frames rs tick (length p) (state_at rs tick p 0 0 d),
    reaches p (length p) 0 (omega arith) (omega arith) 0 d (omega arith) start,
    rw (open_stream-some p h) refl,
  )
