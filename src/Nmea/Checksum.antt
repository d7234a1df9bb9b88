-- ===== src/Nmea/Checksum.antt =====
-- The checksum of src/spi/utils/nmea/src/Sentence.cpp. A `char` is a byte below 256 and is signed,
-- as on the platforms that the build files name; an `int` is its 32-bit pattern.
pub mod Detection
use Prim.Native.Nat.{bit_xor, bit_or}
use precision_location_lite.Base.{
  ℕ, zero, suc, ◌+◌, ◌-◌, ◌*◌, ◌/◌, ◌%◌, ◌^◌, ◌&&◌, [], ◌∷◌, ltb, leb, ◌==◌, if◌then◌else◌, Bytes,
  take, length,
}

-- `static_cast<int>(c)`: the sign is extended.
abbrev pub char_to_int : ℕ → ℕ
char_to_int c = if ltb c 128 then c else c + (2 ^ 32 - 256)

-- A byte from 0x80 on is negative, so it passes neither range test.
unfoldable pub hex_to_number : ℕ → ℕ
hex_to_number h =
    if leb b'0' h && leb h b'9'
    then h - b'0'
    else if leb b'A' h && leb h b'F'
    then h - b'A' + 0xA
    else (char_to_int h + (2 ^ 32 - b'a') + 0xA) % 2 ^ 32

unfoldable pub extract_checksum : ℕ → ℕ → ℕ
unfolding hex_to_number
extract_checksum hi lo = bit_or (hex_to_number hi * 16 % 2 ^ 32) (hex_to_number lo)

-- The loop over the payload, from the checksum so far.
unfoldable pub calc_checksum_from : ℕ → Bytes → ℕ
calc_checksum_from checksum [] = checksum
calc_checksum_from checksum (c ∷ s) = calc_checksum_from (bit_xor checksum (char_to_int c)) s

unfoldable pub calc_checksum : Bytes → ℕ
unfolding calc_checksum_from
calc_checksum s = calc_checksum_from 0 s

-- `%X` of an unsigned value, most significant digit first, in front of what is already written.
abbrev hex_digit : ℕ → ℕ
hex_digit d = if ltb d 10 then b'0' + d else b'A' + (d - 10)

print_hex : ℕ → ℕ → Bytes → Bytes
print_hex zero n out = out
print_hex (suc fuel) n out =
    let more = print_hex fuel (n / 16) (hex_digit (n % 16) ∷ out) in if n == 0 then out else more

abbrev pad_two : Bytes → Bytes
pad_two s = if ltb (length s) 2 then (if ltb (length s) 1 then b'0' ∷ b'0' ∷ s else b'0' ∷ s) else s

-- `snprintf(checksum, 3, "%02X", …)`: eight digits are enough for 32 bits, and two of them fit.
unfoldable pub print_checksum : ℕ → Bytes
unfolding print_hex
print_checksum n = take 2 (pad_two (print_hex 8 n []))
