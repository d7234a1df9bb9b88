-- ===== src/Nmea/Scan.antt =====
-- `Sentence::find`, `findChar` and `calcTokens` of src/spi/utils/nmea/src/Sentence.cpp. A pointer
-- into a C string is the list of the bytes from it on; the list's end is the terminating NUL.
pub mod Sentences
pub mod Tokens
use precision_location_lite.Base.{
  ℕ, zero, suc, ◌+◌, ◌&&◌, [], ◌∷◌, Option, none, some, ltb, ◌==◌, if◌then◌else◌, ◌>>=◌, Bytes,
  drop, length,
}

-- `p[0]`.
abbrev pub char_at : Bytes → ℕ
char_at [] = 0
char_at (c ∷ s) = c

-- The first loop of `find`: the pointer behind the first '$'.
unfoldable pub find_begin : Bytes → Option Bytes
find_begin [] = none
find_begin (c ∷ s) = if c == 0 then none else if c == b'$' then some s else find_begin s

-- The second loop: the bytes up to the first "\r\n", and the pointer behind it.
unfoldable pub find_end : Bytes → Option (Bytes × Bytes)
find_end [] = none
find_end (c ∷ s) =
    let more = (do (body, next) ← find_end s; some (c ∷ body, next)) in
    if c == 0 then none else if c == b'\r' && char_at s == b'\n' then some ([], drop 1 s) else more

-- The sentence without its '$' and its end of line (`begin` and `length`), and `next`.
unfoldable pub find : Bytes → Option (Bytes × Bytes)
unfolding find_begin find_end
find s = do begin ← find_begin s; find_end begin

-- The offset of the first `c`, or `none` for NULL.
unfoldable pub find_char : Bytes → ℕ → Option ℕ
find_char [] c = none
find_char (x ∷ s) c =
    let more = (do i ← find_char s c; some (suc i)) in if x == c then some 0 else more

-- The loop of `calcTokens`: each round starts behind the comma of the round before.
unfoldable pub calc_tokens_loop : ℕ → Bytes → ℕ → ℕ → Option ℕ
unfolding find_char
calc_tokens_loop zero payload offset n = none
calc_tokens_loop (suc fuel) payload offset n =
    let next = find_char (drop offset payload) b',' in
    let more : Option ℕ = elim next [
      | none ↦ some n
      | some i ↦ calc_tokens_loop fuel payload (offset + i + 1) (n + 1)
    ] in
    if ltb offset (length payload) then more else some n

-- `none` would mean that the fuel ran out.
unfoldable pub calc_tokens : Bytes → Option ℕ
unfolding calc_tokens_loop
calc_tokens payload = calc_tokens_loop (suc (length payload)) payload 0 1
