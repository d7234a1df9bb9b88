-- ===== src/Gps/Sirf/Frame/Rounds.antt =====
-- One round of the loop of `tryParse`: it takes a frame, or goes on behind what it has read.
use precision_location_lite.Base.{
  ℕ, ◌+◌, ◌-◌, ◌≤◌, ◌<◌, true, false, not, ◌||◌, Bool-cases, Option, some, inl, inr, ◌≡◌, refl, sym,
  ap, ◌∙◌, arith, ◌>>=◌, if◌then◌else◌, ◌==◌, ltb, leb, le→ltb_false, lt→leb_false, Bytes, length,
  take, drop, length-take, length-drop, ==-refl,
}
use precision_location_lite.Base.Bits.{==→eq}
use precision_location_lite.Gps.Sirf.Frame.Layout.{IsFrameAt, sum15, sirf_checksum-sum}
use precision_location_lite.Gps.Sirf.Frame.{
  Loop, sirf_header, sirf_footer, dispatch, read_frame, loop_body,
}
use precision_location_lite.Gps.Sirf.Input.Reads.{
  at, byte, be16, avail-at, read8-at, read16-at, read16-to, skip-at, open_stream-some, rewind-at,
}
use precision_location_lite.Gps.Sirf.Input.{checksum}
use precision_location_lite.Gps.{Reals, GpsData}

module _ (rs : Reals) (tick : ℕ) where
  abbrev pub State : Type 0
  State = Loop rs tick

  -- The state in front of the byte at offset i of p.
  abbrev pub state_at : Bytes → ℕ → ℕ → GpsData rs.D rs.F → State
  state_at p i n d = record { stream = at p i; parsed_bytes = n; gps_data = d }

  -- What a round does with the frame of the payload q at offset i.
  abbrev pub taken : Bytes → ℕ → Bytes → GpsData rs.D rs.F → Option State
  taken p i q d = dispatch rs tick (byte q 0) (at q 1) d >>= λ d'.
      some (state_at p (i + 8 + length q) (i + 8 + length q) d')

  pub data Round (p : Bytes) (i n : ℕ) (d : GpsData rs.D rs.F) : Type 0 where
    skips :
        (j : ℕ)
        → i < j
        → j ≤ length p
        → loop_body rs tick (state_at p i n d) ≡ some (state_at p j n d)
        → Round p i n d
    takes :
        (q : Bytes)
        → IsFrameAt p i q
        → loop_body rs tick (state_at p i n d) ≡ taken p i q d
        → Round p i n d

  -- Behind a header and a length that fits.
  framed :
      (p q : Bytes) (i n : ℕ) (d : GpsData rs.D rs.F)
      → 0 < length q
      → i + 8 + length q ≤ length p
      → be16 p i ≡ sirf_header
      → be16 p (i + 2) ≡ length q
      → take (length q) (drop (i + 4) p) ≡ q
      → loop_body rs tick (state_at p i n d) ≡ (
          if not (be16 p (i + 6 + length q) == sirf_footer)
          then some (state_at p (i + 8 + length q) n d)
          else if not (be16 p (i + 4 + length q) == sum15 q)
          then some (state_at p (i + 8 + length q) n d)
          else taken p i q d)
  unfolding loop_body read_frame checksum
  framed p q i n d pos fits header len payload =
      rw
        (
          read16-at p i (omega arith),
          header,
          read16-to p (i + 2) (i + 4) (omega arith) (omega arith),
          len,
          avail-at p (i + 4) (omega arith),
          le→ltb_false (length p - (i + 4)) (length q + 4) (omega arith),
          lt→leb_false (length q) 0 pos,
          skip-at p (i + 4) (length q) (omega arith),
          payload,
          open_stream-some q pos,
          read16-to p (i + 4 + length q) (i + 6 + length q) (omega arith) (omega arith),
          read16-to p (i + 6 + length q) (i + 8 + length q) (omega arith) (omega arith),
          sirf_checksum-sum q pos,
          read8-at q 0 (omega arith),
        )
        refl

  pub round-taken :
      (p q : Bytes) (i n : ℕ) (d : GpsData rs.D rs.F)
      → IsFrameAt p i q
      → loop_body rs tick (state_at p i n d) ≡ taken p i q d
  round-taken p q i n d h =
      framed p q i n d h.not_empty h.fits h.header h.len h.payload
      ∙ rw (h.footer, h.checksum, ==-refl (sum15 q)) refl

  no_header :
      (p : Bytes) (i n : ℕ) (d : GpsData rs.D rs.F)
      → i + 2 ≤ length p
      → (be16 p i == sirf_header) ≡ false
      → loop_body rs tick (state_at p i n d) ≡ some (state_at p (i + 1) n d)
  unfolding loop_body
  no_header p i n d h other =
      let e : i + 2 - 1 ≡ i + 1 = omega arith in
      rw (read16-at p i h, other, rewind-at p (i + 2) 1 (omega arith), e) refl

  bad_length :
      (p : Bytes) (i n : ℕ) (d : GpsData rs.D rs.F)
      → i + 4 ≤ length p
      → be16 p i ≡ sirf_header
      → (ltb (length p - (i + 4)) (be16 p (i + 2) + 4) || leb (be16 p (i + 2)) 0) ≡ true
      → loop_body rs tick (state_at p i n d) ≡ some (state_at p (i + 4) n d)
  unfolding loop_body read_frame
  bad_length p i n d h header bad =
      rw
        (
          read16-at p i (omega arith),
          header,
          read16-to p (i + 2) (i + 4) (omega arith) (omega arith),
          avail-at p (i + 4) (omega arith),
          bad,
        )
        refl

  good_length : (a b : ℕ) → (ltb a (b + 4) || leb b 0) ≡ false → (b + 4 ≤ a) × (0 < b)
  good_length a b h = ground arith

  -- Behind a header and a length that fits, footer and checksum decide.
  judged :
      (p q : Bytes) (i n : ℕ) (d : GpsData rs.D rs.F)
      → 0 < length q
      → i + 8 + length q ≤ length p
      → be16 p i ≡ sirf_header
      → be16 p (i + 2) ≡ length q
      → take (length q) (drop (i + 4) p) ≡ q
      → Round p i n d
  judged p q i n d pos fits header len payload =
      let body = framed p q i n d pos fits header len payload in
      elim (Bool-cases (be16 p (i + 6 + length q) == sirf_footer)) [
        | inr other ↦ skips (i + 8 + length q) (omega arith) fits (body ∙ rw other refl)
        | inl footer ↦ elim (Bool-cases (be16 p (i + 4 + length q) == sum15 q)) [
          | inr other ↦ skips (i + 8 + length q) (omega arith) fits (body ∙ rw (footer, other) refl)
          | inl sum ↦
              takes q
                (record {
                  fits = fits;
                  not_empty = pos;
                  header = header;
                  len = len;
                  payload = payload;
                  checksum = ==→eq _ _ sum;
                  footer = ==→eq _ _ footer;
                })
                (body ∙ rw (footer, sum) refl)
        ]
      ]

  length-slice : (p : Bytes) (i n : ℕ) → n + i ≤ length p → length (take n (drop i p)) ≡ n
  length-slice p i n h = omega (arith, length-take n (drop i p), length-drop i p)

  -- A round with ten bytes left.
  pub round : (p : Bytes) (i n : ℕ) (d : GpsData rs.D rs.F) → i + 10 ≤ length p → Round p i n d
  round p i n d h = elim (Bool-cases (be16 p i == sirf_header)) [
    | inr other ↦ skips (i + 1) (omega arith) (omega arith) (no_header p i n d (omega arith) other)
    | inl yes_header ↦
        let header = ==→eq _ _ yes_header in
        elim (Bool-cases
          (ltb (length p - (i + 4)) (be16 p (i + 2) + 4) || leb (be16 p (i + 2)) 0)) [
            | inl bad ↦
                skips (i + 4) (omega arith) (omega arith)
                  (bad_length p i n d (omega arith) header bad)
            | inr good ↦
                let g = good_length (length p - (i + 4)) (be16 p (i + 2)) good in
                let len = length-slice p (i + 4) (be16 p (i + 2)) (omega (arith, g.0)) in
                judged p (take (be16 p (i + 2)) (drop (i + 4) p)) i n d (rw len g.1)
                  (omega (arith, len, g.0)) header (sym len)
                  (ap (λ (k : ℕ). take k (drop (i + 4) p)) len)
          ]
  ]
