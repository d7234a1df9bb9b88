-- ===== src/Nmea/Checksum/Detection.antt =====
-- What the checksum guarantees: its print is read back, and it changes with any one byte.
use Prim.Native.Nat.{bit_xor}
use precision_location_lite.Base.{
  ℕ, ◌/◌, ◌%◌, ◌^◌, ◌<◌, [], ◌∷◌, ◌++◌, ◌≡◌, ◌≢◌, refl, sym, ◌∙◌, arith, ◌==◌, Bytes, bytes_eq,
  bytes_eq_iff, All,
}
use precision_location_lite.Base.Bits.{
  bit_xor-lt, bit_xor_cancel, bit_xor_comm, passes, passes-at, ==→eq,
}
use precision_location_lite.Nmea.Checksum.{
  char_to_int, extract_checksum, calc_checksum_from, calc_checksum, hex_digit, print_checksum,
}

printed_digits : (c : ℕ) → c < 256 → print_checksum c ≡ hex_digit (c / 16) ∷ hex_digit (c % 16) ∷ []
unfolding passes print_checksum bytes_eq
printed_digits c h = (bytes_eq_iff _ _).0 (
    passes-at (λ c. bytes_eq (print_checksum c) (hex_digit (c / 16) ∷ hex_digit (c % 16) ∷ [])) 256
      c refl h)

extracted_digits :
    (c : ℕ) → c < 256 → extract_checksum (hex_digit (c / 16)) (hex_digit (c % 16)) ≡ c
unfolding passes extract_checksum
extracted_digits c h =
    ==→eq _ _ (
      passes-at (λ c. extract_checksum (hex_digit (c / 16)) (hex_digit (c % 16)) == c) 256 c refl h)

-- A checksum below 256 is printed as two characters from which `extractChecksum` reads it back.
pub extract-print :
    (c : ℕ)
    → c < 256
    → (hi : ℕ) × (lo : ℕ) × (print_checksum c ≡ hi ∷ lo ∷ []) × (extract_checksum hi lo ≡ c)
extract-print c h =
    (hex_digit (c / 16), hex_digit (c % 16), printed_digits c h, extracted_digits c h)

calc-append :
    (s t : Bytes) (c : ℕ)
    → calc_checksum_from c (s ++ t) ≡ calc_checksum_from (calc_checksum_from c s) t
unfolding calc_checksum_from
calc-append [] t c = refl
calc-append (x ∷ s) t c = calc-append s t (bit_xor c (char_to_int x))

calc_cancel : (s : Bytes) (c d : ℕ) → calc_checksum_from c s ≡ calc_checksum_from d s → c ≡ d
unfolding calc_checksum_from
calc_cancel [] c d e = e
calc_cancel (x ∷ s) c d e =
    bit_xor_cancel (char_to_int x) c d (bit_xor_comm _ c ∙ calc_cancel s _ _ e ∙ bit_xor_comm d _)

char_to_int_inj : (x y : ℕ) → x < 256 → y < 256 → char_to_int x ≡ char_to_int y → x ≡ y
char_to_int_inj x y hx hy e = ground arith

-- Replacing any one byte of a text by another changes its checksum, whatever stands around it.
pub calc_checksum_detects :
    (s t : Bytes) (x y : ℕ)
    → x < 256
    → y < 256
    → x ≢ y
    → calc_checksum (s ++ (x ∷ t)) ≢ calc_checksum (s ++ (y ∷ t))
unfolding calc_checksum
calc_checksum_detects s t x y hx hy ne e = ne (
    char_to_int_inj x y hx hy
      (bit_xor_cancel (calc_checksum_from 0 s) _ _ (calc_cancel t _ _ joined)))
  where
    joined :
        calc_checksum_from (bit_xor (calc_checksum_from 0 s) (char_to_int x)) t
        ≡ calc_checksum_from (bit_xor (calc_checksum_from 0 s) (char_to_int y)) t
    joined = sym (calc-append s (x ∷ t) 0) ∙ e ∙ calc-append s (y ∷ t) 0

calc-lt : (s : Bytes) (c : ℕ) → All (λ x. x < 128) s → c < 2 ^ 7 → calc_checksum_from c s < 2 ^ 7
unfolding calc_checksum_from
calc-lt [] c h hc = hc
calc-lt (x ∷ s) c h hc =
    calc-lt s (bit_xor c (char_to_int x)) h.1
      (bit_xor-lt 7 c (char_to_int x) hc (ground (arith, h.0)))

-- The checksum of an ASCII text is below 128, so it is printed in full.
pub calc_checksum-lt : (s : Bytes) → All (λ x. x < 128) s → calc_checksum s < 128
unfolding calc_checksum
calc_checksum-lt s h = calc-lt s 0 h (omega arith)
