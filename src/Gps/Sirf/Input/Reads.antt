-- ===== src/Gps/Sirf/Input/Reads.antt =====
-- What the reads of a `SirfInputStream` return where there are bytes enough.
use mathlib.Core.Option.{get_or}
use native.Mathlib.Decide.{dec_le}
use precision_location_lite.Base.{
  ℕ, zero, suc, ◌+◌, ◌-◌, ◌*◌, ◌≤◌, ◌<◌, [], ◌∷◌, none, some, ◌≡◌, refl, ap, ◌∙◌, arith, le→leb,
  lt→ltb, lt→leb_false, Bytes, length, get_elem?, take, drop,
}
use precision_location_lite.Base.Int.{signed32}
use precision_location_lite.Gps.Sirf.Input.{
  InputStream, open_stream, avail, assert_avail, read8, read16, read32, read32s, skip, rewind,
}

-- The stream over p with `_p` at offset i.
abbrev pub at : Bytes → ℕ → InputStream
at p i = record { origin = p; offset = i }

-- The big-endian numbers in p at offset i.
abbrev pub byte : Bytes → ℕ → ℕ
byte p i = get_or (get_elem? p i) 0

abbrev pub be16 : Bytes → ℕ → ℕ
be16 p i = byte p i * 256 + byte p (i + 1)

abbrev pub be32 : Bytes → ℕ → ℕ
be32 p i = ((byte p i * 256 + byte p (i + 1)) * 256 + byte p (i + 2)) * 256 + byte p (i + 3)

pub get_elem?-byte : (p : Bytes) (i : ℕ) → i < length p → get_elem? p i ≡ some (byte p i)
get_elem?-byte [] i h = absurd (omega arith)
get_elem?-byte (x ∷ p) zero h = refl
get_elem?-byte (x ∷ p) (suc i) h = get_elem?-byte p i (omega arith)

pub avail-at : (p : Bytes) (i : ℕ) → i ≤ length p → avail (at p i) ≡ some (length p - i)
unfolding avail
avail-at p i h = rw (le→leb i (length p) h) refl

assert_avail-at :
    (p : Bytes) (i n : ℕ) → i + n ≤ length p → assert_avail (at p i) n ≡ some (length p - i)
unfolding assert_avail
assert_avail-at p i n h =
    rw (avail-at p i (omega arith), le→leb n (length p - i) (omega arith)) refl

first_byte : (p : Bytes) (i : ℕ) → i < length p → get_elem? p (i + 0) ≡ some (byte p i)
first_byte p i h = let e : i + 0 ≡ i = omega arith in rw e (get_elem?-byte p i h)

pub read8-at :
    (p : Bytes) (i : ℕ) → i + 1 ≤ length p → read8 (at p i) ≡ some (byte p i, at p (i + 1))
unfolding read8
read8-at p i h = rw (assert_avail-at p i 1 h, first_byte p i (omega arith)) refl

pub read16-at :
    (p : Bytes) (i : ℕ) → i + 2 ≤ length p → read16 (at p i) ≡ some (be16 p i, at p (i + 2))
unfolding read16
read16-at p i h =
    rw
      (
        assert_avail-at p i 2 h,
        first_byte p i (omega arith),
        get_elem?-byte p (i + 1) (omega arith),
      )
      refl

pub read32-at :
    (p : Bytes) (i : ℕ) → i + 4 ≤ length p → read32 (at p i) ≡ some (be32 p i, at p (i + 4))
unfolding read32
read32-at p i h =
    rw
      (
        assert_avail-at p i 4 h,
        first_byte p i (omega arith),
        get_elem?-byte p (i + 1) (omega arith),
        get_elem?-byte p (i + 2) (omega arith),
        get_elem?-byte p (i + 3) (omega arith),
      )
      refl

pub read32s-at :
    (p : Bytes) (i : ℕ)
    → i + 4 ≤ length p
    → read32s (at p i) ≡ some (signed32 (be32 p i), at p (i + 4))
unfolding read32s
read32s-at p i h = rw (read32-at p i h) refl

pub skip-at :
    (p : Bytes) (i n : ℕ)
    → i + n ≤ length p
    → skip (at p i) n ≡ some (take n (drop i p), at p (i + n))
unfolding skip
skip-at p i n h = rw (assert_avail-at p i n h) refl

pub open_stream-some : (p : Bytes) → 0 < length p → open_stream p ≡ some (at p 0)
unfolding open_stream
open_stream-some p h = rw (lt→ltb 0 (length p) h) refl

pub rewind-at : (p : Bytes) (i n : ℕ) → n ≤ i → rewind (at p i) n ≡ some (at p (i - n))
unfolding rewind
rewind-at p i n h = rw (le→leb n i h) refl

-- Where bytes are missing the assertion fails.
assert_avail-none : (p : Bytes) (i n : ℕ) → length p < i + n → assert_avail (at p i) n ≡ none
unfolding assert_avail avail
assert_avail-none p i n h = elim (dec_le i (length p)) [
  | yes le ↦ rw (le→leb i (length p) le, lt→leb_false n (length p - i) (omega arith)) refl
  | no nle ↦ rw (lt→leb_false i (length p) (omega arith)) refl
]

pub read8-none : (p : Bytes) (i : ℕ) → length p < i + 1 → read8 (at p i) ≡ none
unfolding read8
read8-none p i h = rw (assert_avail-none p i 1 h) refl

pub read16-none : (p : Bytes) (i : ℕ) → length p < i + 2 → read16 (at p i) ≡ none
unfolding read16
read16-none p i h = rw (assert_avail-none p i 2 h) refl

pub read32-none : (p : Bytes) (i : ℕ) → length p < i + 4 → read32 (at p i) ≡ none
unfolding read32
read32-none p i h = rw (assert_avail-none p i 4 h) refl

-- The reads with a name for the offset behind them.
pub read8-to :
    (p : Bytes) (i j : ℕ) → i + 1 ≡ j → j ≤ length p → read8 (at p i) ≡ some (byte p i, at p j)
read8-to p i j e h = read8-at p i (omega arith) ∙ ap (λ (k : ℕ). some (byte p i, at p k)) e

pub skip-to :
    (p : Bytes) (i n j : ℕ)
    → i + n ≡ j
    → j ≤ length p
    → skip (at p i) n ≡ some (take n (drop i p), at p j)
skip-to p i n j e h =
    skip-at p i n (omega arith) ∙ ap (λ (k : ℕ). some (take n (drop i p), at p k)) e

pub read16-to :
    (p : Bytes) (i j : ℕ) → i + 2 ≡ j → j ≤ length p → read16 (at p i) ≡ some (be16 p i, at p j)
read16-to p i j e h = read16-at p i (omega arith) ∙ ap (λ (k : ℕ). some (be16 p i, at p k)) e
