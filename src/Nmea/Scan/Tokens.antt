-- ===== src/Nmea/Scan/Tokens.antt =====
-- `calcTokens` and the splitting of a payload at its commas.
use precision_location_lite.Base.{
  ℕ, zero, suc, ◌+◌, ◌≤◌, ◌<◌, List, [], ◌∷◌, none, some, ◌≡◌, refl, ap, ◌∙◌, arith, ◌==◌,
  if◌then◌else◌, Option-cases, Bool-cases, ltb, inl, inr, Bytes, take, drop, length, length-drop,
  drop-drop,
}
use native.Mathlib.Nat.{zero-add}
use native.Mathlib.Numerals.{add-one}
use precision_location_lite.Nmea.Scan.{find_char, calc_tokens_loop, calc_tokens}

-- A byte in front of the first of the tokens.
abbrev pub extend : ℕ → List Bytes → List Bytes
extend c [] = (c ∷ []) ∷ []
extend c (t ∷ ts) = (c ∷ t) ∷ ts

-- The tokens of a payload: what stands between its commas.
unfoldable pub tokens : Bytes → List Bytes
tokens [] = [] ∷ []
tokens (c ∷ s) = let rest = tokens s in if c == b',' then [] ∷ rest else extend c rest

pub tokens_last : (s : Bytes) → find_char s b',' ≡ none → tokens s ≡ s ∷ []
unfolding tokens find_char
tokens_last [] e = refl
tokens_last (c ∷ s) e = ground (arith, tokens_last s)

pub tokens_first :
    (s : Bytes) (i : ℕ)
    → find_char s b',' ≡ some i
    → (tokens s ≡ take i s ∷ tokens (drop (suc i) s)) × (i < length s)
unfolding tokens find_char
tokens_first [] i e = cc
tokens_first (c ∷ s) zero e = ground arith
tokens_first (c ∷ s) (suc i) e = ground (arith, tokens_first s i)

drop_all : (s : Bytes) (n : ℕ) → length s ≤ n → drop n s ≡ []
drop_all [] zero h = refl
drop_all [] (suc n) h = refl
drop_all (c ∷ s) zero h = absurd (omega arith)
drop_all (c ∷ s) (suc n) h = drop_all s n (omega arith)

add_suc_one : (a i : ℕ) → a + i + 1 ≡ a + suc i
add_suc_one a i = omega arith

-- One round counts the current token, or leaves it and the tokens behind it to the next round.
loop_step :
    (fuel : ℕ) (s : Bytes) (offset n : ℕ)
    → ((i : ℕ)
        → offset + i < length s
        → calc_tokens_loop fuel s (offset + i + 1) (suc n + 1)
          ≡ some (suc n + length (tokens (drop (offset + suc i) s))))
    → calc_tokens_loop (suc fuel) s offset (suc n) ≡ some (n + length (tokens (drop offset s)))
unfolding calc_tokens_loop
loop_step fuel s offset n later = elim (Bool-cases (ltb offset (length s))) [
  | inr end ↦ rw (end, drop_all s offset (ground arith)) (unfold tokens in ap some (omega arith))
  | inl inside ↦ elim (Option-cases (find_char (drop offset s) b',')) [
    | inl last ↦ rw (inside, last, tokens_last (drop offset s) last) (ap some (omega arith))
    | inr (i, comma) ↦
        let (split, lt) = tokens_first (drop offset s) i comma in
        rw (inside, comma, split, drop-drop)
          (later i (omega (arith, length-drop offset s)) ∙ ap some (omega arith))
  ]
]

-- The rounds from `offset` on count the tokens that are left; `n` are counted, the current one too.
loop-length :
    (fuel : ℕ) (s : Bytes) (offset n : ℕ)
    → length s ≤ fuel + offset
    → calc_tokens_loop (suc fuel) s offset (suc n) ≡ some (n + length (tokens (drop offset s)))
loop-length zero s offset n h = loop_step zero s offset n (λ i lt. absurd (omega arith))
loop-length (suc fuel) s offset n h = loop_step (suc fuel) s offset n λ i lt.
    rw (add_suc_one offset i, add-one) (loop-length fuel s (offset + suc i) (suc n) (omega arith))

-- `calcTokens` always ends, with the number of tokens.
pub calc_tokens-length : (s : Bytes) → calc_tokens s ≡ some (length (tokens s))
unfolding calc_tokens
calc_tokens-length s = loop-length (length s) s 0 0 (omega arith) ∙ ap some (zero-add _)
