-- ===== src/Gps/Sirf/Input.antt =====
-- `SirfInputStream`, which reads a buffer byte by byte. A failed `assert` is `none`. The multi-byte
-- reads are those of a little-endian machine: the bytes of a message are in big-endian order.
pub mod Reads
use precision_location_lite.Base.{
  ℕ, zero, suc, ◌+◌, ◌-◌, ◌*◌, ◌%◌, ◌^◌, List, [], ◌∷◌, Option, none, some, ◌>>=◌, Bytes, length,
  get_elem?, take, drop, leb, ltb, if◌then◌else◌,
}
use precision_location_lite.Base.Int.{ℤ, pos, negsuc, signed32}

-- The bytes at `_origin`, `_size` of them, and the offset of `_p`.
pub record InputStream : Type 0 where
  pub origin : Bytes
  pub offset : ℕ

abbrev pub size : InputStream → ℕ
size st = length st.origin

-- The constructor.
unfoldable pub open_stream : Bytes → Option InputStream
open_stream p = if ltb 0 (length p) then some (record { origin = p; offset = 0 }) else none

unfoldable pub avail : InputStream → Option ℕ
avail st = if leb st.offset (size st) then some (size st - st.offset) else none

-- `assertAvail`
unfoldable pub assert_avail : InputStream → ℕ → Option ℕ
unfolding avail
assert_avail st n = do free ← avail st; if leb n free then some free else none

-- The stream n bytes further on.
abbrev pub advance : ℕ → InputStream → InputStream
advance n st = record st { offset = st.offset + n }

-- `_p[i]`
abbrev pub byte_at : InputStream → ℕ → Option ℕ
byte_at st i = get_elem? st.origin (st.offset + i)

unfoldable pub read8 : InputStream → Option (ℕ × InputStream)
unfolding assert_avail
read8 st = do _ ← assert_avail st 1; a ← byte_at st 0; some (a, advance 1 st)

unfoldable pub read16 : InputStream → Option (ℕ × InputStream)
unfolding assert_avail
read16 st = do
  _ ← assert_avail st 2
  a ← byte_at st 0
  b ← byte_at st 1
  some (a * 256 + b, advance 2 st)

unfoldable pub read32 : InputStream → Option (ℕ × InputStream)
unfolding assert_avail
read32 st = do
  _ ← assert_avail st 4
  a ← byte_at st 0
  b ← byte_at st 1
  c ← byte_at st 2
  d ← byte_at st 3
  some (((a * 256 + b) * 256 + c) * 256 + d, advance 4 st)

unfoldable pub read32s : InputStream → Option (ℤ × InputStream)
unfolding read32
read32s st = do (n, st') ← read32 st; some (signed32 n, st')

-- The n bytes that were skipped, which the source returns a pointer to.
unfoldable pub skip : InputStream → ℕ → Option (Bytes × InputStream)
unfolding assert_avail
skip st n = do _ ← assert_avail st n; some (take n (drop st.offset st.origin), advance n st)

unfoldable pub rewind : InputStream → ℕ → Option InputStream
rewind st n = if leb n st.offset then some (record st { offset = st.offset - n }) else none

unfoldable pub sum_from : ℕ → Bytes → ℕ
sum_from c [] = c
sum_from c (x ∷ xs) = sum_from ((c + x) % 2 ^ 16) xs

-- `sirfChecksum`, and the stream's `checksum`, which is that of the whole buffer.
unfoldable pub sirf_checksum : Bytes → Option ℕ
unfolding sum_from
sirf_checksum payload = if ltb 0 (length payload) then some (sum_from 0 payload % 2 ^ 15) else none

unfoldable pub checksum : InputStream → Option ℕ
unfolding sirf_checksum
checksum st = sirf_checksum st.origin
