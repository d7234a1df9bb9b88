-- ===== src/Nmea/Token/RoundTrip.antt =====
-- What the integer, date and time tokens write is what they read.
use precision_location_lite.Base.{
  ℕ, suc, ◌+◌, ◌^◌, ◌≤◌, ◌<◌, ◌++◌, some, ◌≡◌, refl, ap, ◌∙◌, arith, Bytes, take, drop, length,
  length-append, take-append, drop-append, take_all, drop-drop, sym,
}
use native.Mathlib.Nat.{le_trans, pow-le-pow_right}
use precision_location_lite.Base.Int.{ℤ, pos}
use precision_location_lite.Base.Libc.Digits.{length-print_int, length-print_int-le}
use precision_location_lite.Base.Libc.RoundTrip.{atoi-print_int}
use precision_location_lite.Base.Libc.{Floats, print_int}
use precision_location_lite.Nmea.Dataset.{Variant, Date}
use precision_location_lite.Nmea.Token.{
  Token, date_to_string, parse_date, to_string_token, parse_token,
}

-- An integer token of a width up to eight writes every number of at most one digit more in full,
-- and reads it back.
pub int_token-read :
    (fl : Floats) (junk : ℤ) (w n : ℕ)
    → w ≤ 8
    → n < 10 ^ suc w
    → (s : Bytes) × (to_string_token fl (Token.int w) (Variant.int (pos n)) ≡ some s)
      × (parse_token fl junk (Token.int w) s ≡ some (some (Variant.int (pos n))))
unfolding to_string_token parse_token
int_token-read fl junk w n hw hn =
    let whole : take (w + 1) (print_int w (pos n)) ≡ print_int w (pos n) =
      take_all (w + 1) (print_int w (pos n)) (omega (arith, length-print_int-le w n hn)) in
    let small : n < 2 ^ 31 = le_trans hn (
      le_trans (pow-le-pow_right {n = 10} (omega arith) {i = suc w} {j = 9} (omega arith))
        (omega arith)) in
    (print_int w (pos n), rw whole, rw (atoi-print_int w n small))

-- Two digits at the front of a text.
pub take_two :
    (n : ℕ) (rest : Bytes) → n < 100 → take 2 (print_int 2 (pos n) ++ rest) ≡ print_int 2 (pos n)
take_two n rest h =
    ap (λ (k : ℕ). take k (print_int 2 (pos n) ++ rest)) (sym (length-print_int 1 n h))
    ∙ take-append (print_int 2 (pos n)) rest

pub drop_two : (n : ℕ) (rest : Bytes) → n < 100 → drop 2 (print_int 2 (pos n) ++ rest) ≡ rest
drop_two n rest h =
    ap (λ (k : ℕ). drop k (print_int 2 (pos n) ++ rest)) (sym (length-print_int 1 n h))
    ∙ drop-append (print_int 2 (pos n)) rest

pub drop_four :
    (m n : ℕ) (rest : Bytes)
    → m < 100
    → n < 100
    → drop 4 (print_int 2 (pos m) ++ (print_int 2 (pos n) ++ rest)) ≡ rest
drop_four m n rest hm hn =
    sym (drop-drop 2 2 (print_int 2 (pos m) ++ (print_int 2 (pos n) ++ rest)))
    ∙ ap (λ (t : Bytes). drop 2 t) (drop_two m (print_int 2 (pos n) ++ rest) hm)
    ∙ drop_two n rest hn

abbrev date_of : ℕ → ℕ → ℕ → Date
date_of d m y = record { day = pos d; month = pos m; year = pos y }

abbrev date_text : ℕ → ℕ → ℕ → Bytes
date_text d m y = print_int 2 (pos d) ++ (print_int 2 (pos m) ++ print_int 2 (pos y))

date_text-length : (d m y : ℕ) → d < 100 → m < 100 → y < 100 → length (date_text d m y) ≡ 6
date_text-length d m y hd hm hy = omega (
  arith,
  length-append (print_int 2 (pos d)) (print_int 2 (pos m) ++ print_int 2 (pos y)),
  length-append (print_int 2 (pos m)) (print_int 2 (pos y)),
  length-print_int 1 d hd,
  length-print_int 1 m hm,
  length-print_int 1 y hy,
)

date_written :
    (d m y : ℕ)
    → 1 ≤ d
    → d ≤ 31
    → 1 ≤ m
    → m ≤ 12
    → y ≤ 99
    → date_to_string (date_of d m y) ≡ some (date_text d m y)
unfolding date_to_string
date_written d m y d1 d31 m1 m12 y99 = ground (
  arith,
  take_all 6 (date_text d m y),
  date_text-length d m y (omega arith) (omega arith) (omega arith),
)

date_read :
    (d m y : ℕ) → d < 100 → m < 100 → y < 100 → parse_date (date_text d m y) ≡ some (date_of d m y)
unfolding parse_date
date_read d m y hd hm hy =
    rw
      (
        date_text-length d m y hd hm hy,
        take_two d (print_int 2 (pos m) ++ print_int 2 (pos y)) hd,
        drop_two d (print_int 2 (pos m) ++ print_int 2 (pos y)) hd,
        take_two m (print_int 2 (pos y)) hm,
        drop_four d m (print_int 2 (pos y)) hd hm,
        take_all 2 (print_int 2 (pos y)) (omega (arith, length-print_int 1 y hy)),
        atoi-print_int 2 d (omega arith),
        atoi-print_int 2 m (omega arith),
        atoi-print_int 2 y (omega arith),
      )
      refl

-- A date in the ranges that the date token asserts is written as six digits and read back.
pub date_token-read :
    (d m y : ℕ)
    → 1 ≤ d
    → d ≤ 31
    → 1 ≤ m
    → m ≤ 12
    → y ≤ 99
    → (s : Bytes) × (date_to_string (date_of d m y) ≡ some s)
      × (parse_date s ≡ some (date_of d m y))
date_token-read d m y d1 d31 m1 m12 y99 = (
  date_text d m y,
  date_written d m y d1 d31 m1 m12 y99,
  date_read d m y (omega arith) (omega arith) (omega arith),
)
