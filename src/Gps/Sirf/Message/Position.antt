-- ===== src/Gps/Sirf/Message/Position.antt =====
-- `parseFix` and the layout of message 41.
use Prim.Native.Nat.{bit_and}
use precision_location_lite.Base.{
  ℕ, zero, suc, ◌+◌, ◌/◌, ◌%◌, ◌^◌, ◌≤◌, ◌<◌, false, not, ◌||◌, List, [], ◌∷◌, ◌++◌, append-nil,
  append_assoc, take_all, take-append, length-append, none, some, inl, inr, Bool-cases, ◌≡◌, refl,
  sym, ap, ◌∙◌, arith, if◌then◌else◌, ◌==◌, Bytes, length, take,
}
use precision_location_lite.Base.Bits.{==→eq}
use precision_location_lite.Base.Int.{pos, signed32}
use precision_location_lite.Gps.Sirf.Input.Reads.{
  at, byte, be16, be32, avail-at, read8-at, read16-at, read32-at, read32s-at, skip-at,
}
use precision_location_lite.Gps.Sirf.Message.{
  from_gps_time, sats_in_map, Width, w8, w16, w32, discard, parse_fix,
}
use precision_location_lite.Gps.{Reals, Fix, new_fix, time_sec}

abbrev width : Width → ℕ
width w8 = 1
width w16 = 2
width w32 = 4

abbrev total : List Width → ℕ
total [] = 0
total (w ∷ ws) = width w + total ws

discard-at :
    (ws : List Width) (p : Bytes) (i : ℕ)
    → i + total ws ≤ length p
    → discard ws (at p i) ≡ some (at p (i + total ws))
unfolding discard
discard-at [] p i h = let e : i ≡ i + 0 = omega arith in ap (λ (j : ℕ). some (at p j)) e
discard-at (w8 ∷ ws) p i h =
    let e : i + 1 + total ws ≡ i + (1 + total ws) = omega arith in
    rw (read8-at p i (omega arith), discard-at ws p (i + 1) (omega arith), e) refl
discard-at (w16 ∷ ws) p i h =
    let e : i + 2 + total ws ≡ i + (2 + total ws) = omega arith in
    rw (read16-at p i (omega arith), discard-at ws p (i + 2) (omega arith), e) refl
discard-at (w32 ∷ ws) p i h =
    let e : i + 4 + total ws ≡ i + (4 + total ws) = omega arith in
    rw (read32-at p i (omega arith), discard-at ws p (i + 4) (omega arith), e) refl

-- The numbers i + 1 of the bits i that are set, from bit i on.
unfoldable pub set_bits : ℕ → ℕ → ℕ → List ℕ
set_bits zero i map = []
set_bits (suc rounds) i map =
    let more = set_bits rounds (suc i) map in if (map / 2 ^ i) % 2 == 1 then suc i ∷ more else more

shorter→==false : (a b : ℕ) → a < b → (a == b) ≡ false
shorter→==false a b h = ground arith

full_array :
    (prn rest : List ℕ) (x : ℕ)
    → length (prn ++ (x ∷ [])) ≡ 12
    → prn ++ (x ∷ []) ≡ take 12 (prn ++ (x ∷ rest))
full_array prn rest x e =
    let last = prn ++ (x ∷ []) in
    sym (
      ap (λ (n : ℕ). take n (prn ++ (x ∷ rest))) (sym e)
      ∙ ap (take (length last)) (sym (append_assoc prn (x ∷ []) rest))
      ∙ take-append last rest)

not_full : (l : ℕ) {n : ℕ} → n < 12 → l ≡ n + 1 → (l == 12) ≡ false → l < 12
not_full l h e neq = ground arith

-- The loop over the bits keeps the first twelve that are set.
sats_in_map-take :
    (rounds i map : ℕ) (prn : List ℕ)
    → length prn < 12
    → sats_in_map rounds i map prn ≡ take 12 (prn ++ set_bits rounds i map)
unfolding sats_in_map set_bits
sats_in_map-take zero i map prn h =
    sym (ap (take 12) (append-nil prn) ∙ take_all 12 prn (omega arith))
sats_in_map-take (suc rounds) i map prn h = elim (Bool-cases ((map / 2 ^ i) % 2 == 1)) [
  | inr clear ↦
      rw (clear, shorter→==false (length prn) 12 h) (sats_in_map-take rounds (suc i) map prn h)
  | inl set ↦ elim (Bool-cases (length (prn ++ (suc i ∷ [])) == 12)) [
    | inl full ↦
        rw (set, full) (full_array prn (set_bits rounds (suc i) map) (suc i) (==→eq _ _ full))
    | inr space ↦
        let shorter : length (prn ++ (suc i ∷ [])) < 12 =
          not_full _ h (length-append prn (suc i ∷ [])) space in
        rw (set, space)
          (sats_in_map-take rounds (suc i) map (prn ++ (suc i ∷ [])) shorter
            ∙ ap (take 12) (append_assoc prn (suc i ∷ []) (set_bits rounds (suc i) map)))
  ]
]

module _ (rs : Reals) (tick : ℕ) (p : Bytes) where
  -- The fix by the offsets of message 41, whose id stands at offset 0.
  abbrev pub fix_at : Fix rs.D rs.F
  fix_at =
      let gps_time = from_gps_time (be16 p 5) (be32 p 7 / 1000) in
      let prn = take 12 (set_bits 32 0 (be32 p 19)) in
      let hpe = rs.div_float (rs.float_of (be32 p 50)) 100 in
      record (new_fix rs tick) {
        quality = 1;
        gps_time = gps_time;
        timetag = time_sec gps_time;
        prn = prn;
        sv_in_fix = length prn;
        latitude = rs.div_double (rs.double_of_int (signed32 (be32 p 23))) 10000000;
        longitude = rs.div_double (rs.double_of_int (signed32 (be32 p 27))) 10000000;
        height = rs.div_double (rs.double_of_int (signed32 (be32 p 31))) 100;
        altitude = rs.div_double (rs.double_of_int (signed32 (be32 p 35))) 100;
        speed = rs.div_double (rs.double_of_int (pos (be16 p 40))) 100;
        bearing = rs.div_double (rs.double_of_int (pos (be16 p 42))) 100;
        hpe = if rs.leb_float 8 hpe then hpe else rs.zero_float;
        hdop = rs.div_float (rs.float_of (byte p 89)) 5;
      }

  parse_fix_91 :
      length p ≡ 91
      → parse_fix rs tick (at p 1) ≡ some (if bit_and (be16 p 3) 7 == 0 then none else some fix_at)
  unfolding parse_fix
  parse_fix_91 e =
      let h : (n : ℕ) → n ≤ 91 → n ≤ length p = λ n le. omega (arith, e) in
      rw (e, skip-at p 1 2 (h 3 (omega arith)), read16-at p 3 (h 5 (omega arith)))
        (elim (Bool-cases (bit_and (be16 p 3) 7 == 0)) [
          | inl unknown ↦ rw unknown refl
          | inr known ↦
              rw
                (
                  known,
                  read16-at p 5 (h 7 (omega arith)),
                  read32-at p 7 (h 11 (omega arith)),
                  discard-at (w16 ∷ w8 ∷ w8 ∷ w8 ∷ w8 ∷ w16 ∷ []) p 11 (h 19 (omega arith)),
                  read32-at p 19 (h 23 (omega arith)),
                  read32s-at p 23 (h 27 (omega arith)),
                  read32s-at p 27 (h 31 (omega arith)),
                  read32s-at p 31 (h 35 (omega arith)),
                  read32s-at p 35 (h 39 (omega arith)),
                  discard-at (w8 ∷ []) p 39 (h 40 (omega arith)),
                  read16-at p 40 (h 42 (omega arith)),
                  read16-at p 42 (h 44 (omega arith)),
                  discard-at (w16 ∷ w16 ∷ w16 ∷ []) p 44 (h 50 (omega arith)),
                  read32-at p 50 (h 54 (omega arith)),
                  discard-at (w32 ∷ w32 ∷ w16 ∷ w32 ∷ w32 ∷ w32 ∷ w32 ∷ w32 ∷ w16 ∷ w16 ∷ w8 ∷ []) p
                      54 (h 89 (omega arith)),
                  read8-at p 89 (h 90 (omega arith)),
                  discard-at (w8 ∷ []) p 90 (h 91 (omega arith)),
                  avail-at p 91 (h 91 (omega arith)),
                  e,
                  sats_in_map-take 32 0 (be32 p 19) [] (omega arith),
                )
                refl
        ])

  parse_fix_other : (length p == 91) ≡ false → parse_fix rs tick (at p 1) ≡ some none
  unfolding parse_fix
  parse_fix_other other = rw other refl

  -- `parseFix` never fails an assertion. It returns a fix exactly for payloads of 91 bytes whose
  -- type of fix is not "none", with the fields at their offsets of message 41, the first twelve
  -- satellites of the map in order, and nothing of the payload is left unread.
  pub parse_fix-at :
      parse_fix rs tick (at p 1)
      ≡ some (if not (length p == 91) || (bit_and (be16 p 3) 7 == 0) then none else some fix_at)
  parse_fix-at = elim (Bool-cases (length p == 91)) [
    | inl long ↦ rw long (parse_fix_91 (==→eq _ _ long))
    | inr other ↦ rw other (parse_fix_other other)
  ]
