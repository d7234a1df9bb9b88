-- ===== src/Gps/Sirf/Message/Channels.antt =====
-- `parseSatellites` and the layout of message 4.
use native.Mathlib.Decide.{dec_le}
use precision_location_lite.Base.{
  ℕ, zero, suc, ◌+◌, ◌-◌, ◌*◌, ◌/◌, ◌≤◌, ◌<◌, not, Bool-cases, List, [], ◌∷◌, ◌++◌, append-nil,
  append_assoc, none, some, inl, inr, ◌≡◌, refl, ◌∙◌, arith, if◌then◌else◌, ◌==◌, ltb, lt→ltb,
  le→ltb_false, Bytes, length,
}
use precision_location_lite.Base.Bits.{==→eq}
use precision_location_lite.Base.Int.{pos}
use precision_location_lite.Gps.Sirf.Input.Reads.{
  at, byte, be16, be32, avail-at, read8-at, read16-at, read32-at, read8-to, skip-to, read8-none,
  read16-none, read32-none,
}
use precision_location_lite.Gps.Sirf.Message.{from_gps_time, read_channels, parse_satellites}
use precision_location_lite.Gps.{Reals, Satellite, time_sec}

module _ {D : Type 0} (timetag : D) (p : Bytes) where
  -- The satellite of the 15 bytes from offset i on.
  abbrev pub satellite_at : ℕ → Satellite D
  satellite_at i = record {
    satellite_id = byte p i;
    timetag = timetag;
    azimuth = byte p (i + 1) * 3 / 2;
    elevation = pos (byte p (i + 2) / 2);
    snr = byte p (i + 14);
  }

  -- The satellites of n channels from offset i on; a channel without an id has none.
  unfoldable pub satellites_at : ℕ → ℕ → List (Satellite D)
  satellites_at zero i = []
  satellites_at (suc n) i =
      let rest = satellites_at n (i + 15) in if byte p i == 0 then rest else satellite_at i ∷ rest

  -- One channel that is there is read, and the loop goes on behind it.
  channel :
      (n i : ℕ) (sats : List (Satellite D))
      → i + 15 ≤ length p
      → read_channels (suc n) timetag (at p i) sats
        ≡ read_channels n timetag
            (at p (i + 15))
            (if byte p i == 0 then sats else sats ++ (satellite_at i ∷ []))
  unfolding read_channels
  channel n i sats h =
      rw
        (
          read8-at p i (omega arith),
          read8-to p (i + 1) (i + 2) (omega arith) (omega arith),
          read8-to p (i + 2) (i + 3) (omega arith) (omega arith),
          skip-to p (i + 3) 2 (i + 5) (omega arith) (omega arith),
          skip-to p (i + 5) 9 (i + 14) (omega arith) (omega arith),
          read8-to p (i + 14) (i + 15) (omega arith) (omega arith),
        )
        refl

  read_channels-at :
      (n i : ℕ) (sats : List (Satellite D))
      → i + n * 15 ≤ length p
      → read_channels n timetag (at p i) sats ≡ some (sats ++ satellites_at n i, at p (i + n * 15))
  unfolding read_channels satellites_at
  read_channels-at zero i sats h =
      let e : i ≡ i + 0 * 15 = omega arith in rw (append-nil sats, ← e) refl
  read_channels-at (suc n) i sats h =
      let e : i + 15 + n * 15 ≡ i + suc n * 15 = omega arith in
      channel n i sats (omega arith) ∙ elim (Bool-cases (byte p i == 0)) [
        | inl unused ↦ rw unused (read_channels-at n (i + 15) sats (omega arith) ∙ rw e refl)
        | inr used ↦ rw used (
            read_channels-at n (i + 15) (sats ++ (satellite_at i ∷ [])) (omega arith)
            ∙ rw (append_assoc sats (satellite_at i ∷ []) (satellites_at n (i + 15)), e) refl)
      ]

module _ (rs : Reals) (p : Bytes) where
  abbrev pub timetag_at : rs.D
  timetag_at = rs.double_of_int (pos (time_sec (from_gps_time (be16 p 1) (be32 p 3 / 100))))

  short : length p < 8 → parse_satellites rs (at p 1) ≡ none
  unfolding parse_satellites
  short h = elim (dec_le (length p) 2) [
    | yes no_week ↦ rw (read16-none p 1 (omega arith)) refl
    | no week ↦ elim (dec_le (length p) 6) [
      | yes no_time ↦ rw (read16-at p 1 (omega arith), read32-none p 3 (omega arith)) refl
      | no time ↦
          rw
            (read16-at p 1 (omega arith), read32-at p 3 (omega arith), read8-none p 7 (omega arith))
            refl
    ]
  ]

  whole :
      8 ≤ length p
      → parse_satellites rs (at p 1)
        ≡ some (
            if not (length p - 8 == byte p 7 * 15)
            then []
            else satellites_at timetag_at p (byte p 7) 8)
  unfolding parse_satellites
  whole h =
      rw
        (
          read16-at p 1 (omega arith),
          read32-at p 3 (omega arith),
          read8-at p 7 (omega arith),
          avail-at p 8 h,
        )
        (elim (Bool-cases (length p - 8 == byte p 7 * 15)) [
          | inr other ↦ rw other refl
          | inl fits ↦
              let e = ==→eq _ _ fits in
              let z : length p - (8 + byte p 7 * 15) ≡ 0 = omega (arith, e) in
              rw
                (
                  fits,
                  read_channels-at timetag_at p (byte p 7) 8 [] (omega (arith, e)),
                  avail-at p (8 + byte p 7 * 15) (omega (arith, e)),
                )
                (rw z refl)
        ])

  -- `parseSatellites` fails an assertion on payloads of fewer than 8 bytes, the id included.
  -- On all others it returns the satellites of the announced channels, those without an id left out,
  -- if the payload holds exactly these channels, and no satellite otherwise.
  pub parse_satellites-at : parse_satellites rs (at p 1) ≡ (
      if ltb (length p) 8
      then none
      else some (
          if not (length p - 8 == byte p 7 * 15)
          then []
          else satellites_at timetag_at p (byte p 7) 8))
  parse_satellites-at = elim (dec_le 8 (length p)) [
    | yes enough ↦ rw (le→ltb_false (length p) 8 enough) (whole enough)
    | no few ↦ rw (lt→ltb (length p) 8 (omega arith)) (short (omega arith))
  ]
