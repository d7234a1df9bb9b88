-- ===== src/Nmea/Token/Clock.antt =====
-- The time token: which texts it reads, and what becomes of a time that is written and read.
use precision_location_lite.Base.{
  ℕ, ◌+◌, ◌*◌, ◌/◌, ◌≤◌, ◌<◌, ◌&&◌, ◌∷◌, ◌++◌, none, some, ◌≡◌, ◌↔◌, refl, sym, ap, ◌∙◌, arith, ltb,
  leb, if◌then◌else◌, Bytes, drop, length, length-append, length-drop, take_all, true, lt→ltb,
  drop-drop,
}
use native.Mathlib.Nat.{le_of_eq}
use precision_location_lite.Base.Int.{ℤ, pos}
use precision_location_lite.Base.Libc.Digits.{length-print_int}
use precision_location_lite.Base.Libc.RoundTrip.{atoi-print_int}
use precision_location_lite.Base.Libc.{print_int}
use precision_location_lite.Nmea.Dataset.{Time}
use precision_location_lite.Nmea.Token.RoundTrip.{take_two, drop_two, drop_four}
use precision_location_lite.Nmea.Token.{
  within, time_to_string, parse_hsecond, parse_time, rescale_hsecond,
}

-- A text of seven characters, "hhmmss." or the like, is the one that trips the assertion in the
-- `switch`; every other text is read or refused.
pub parse_time-asserts : (junk : ℤ) (s : Bytes) → (parse_time junk s ≡ none) ↔ (length s ≡ 7)
unfolding parse_time
parse_time-asserts junk s =
    (λ e. ground (arith, length-drop 7 s), λ e. ground (arith, length-drop 7 s))

abbrev pub time_of : ℕ → ℕ → ℕ → ℕ → Time
time_of h m s f = record { hour = pos h; minute = pos m; second = pos s; hsecond = pos f }

-- The two digits that are written for a fraction.
abbrev pub written_fraction : ℕ → ℕ
written_fraction f = if ltb 0 f && ltb f 10 then f * 10 else if leb 100 f then f / 10 else f

abbrev time_text : ℕ → ℕ → ℕ → ℕ → Bytes
time_text h m s k =
    print_int 2 (pos h)
    ++ (print_int 2 (pos m) ++ (print_int 2 (pos s) ++ (b'.' ∷ print_int 2 (pos k))))

time_text-length :
    (h m s k : ℕ) → h < 100 → m < 100 → s < 100 → k < 100 → length (time_text h m s k) ≡ 9
time_text-length h m s k hh hm hs hk = omega (
  arith,
  length-append (print_int 2 (pos h))
      (print_int 2 (pos m) ++ (print_int 2 (pos s) ++ (b'.' ∷ print_int 2 (pos k)))),
  length-append (print_int 2 (pos m)) (print_int 2 (pos s) ++ (b'.' ∷ print_int 2 (pos k))),
  length-append (print_int 2 (pos s)) (b'.' ∷ print_int 2 (pos k)),
  length-print_int 1 h hh,
  length-print_int 1 m hm,
  length-print_int 1 s hs,
  length-print_int 1 k hk,
)

written_fraction-lt : (f : ℕ) → f < 1000 → written_fraction f < 100
written_fraction-lt f h = ground arith

drop_seven :
    (h m s : ℕ) (rest : Bytes)
    → h < 100
    → m < 100
    → s < 100
    → drop 7
        (print_int 2 (pos h) ++ (print_int 2 (pos m) ++ (print_int 2 (pos s) ++ (b'.' ∷ rest))))
      ≡ rest
drop_seven h m s rest hh hm hs =
    let whole =
      print_int 2 (pos h) ++ (print_int 2 (pos m) ++ (print_int 2 (pos s) ++ (b'.' ∷ rest))) in
    sym (drop-drop 4 3 whole)
    ∙ ap (λ (t : Bytes). drop 3 t) (drop_four h m (print_int 2 (pos s) ++ (b'.' ∷ rest)) hh hm)
    ∙ sym (drop-drop 2 1 (print_int 2 (pos s) ++ (b'.' ∷ rest)))
    ∙ ap (λ (t : Bytes). drop 1 t) (drop_two s (b'.' ∷ rest) hs)

rescale_pos : (f : ℕ) → rescale_hsecond (pos f) ≡ pos (written_fraction f)
unfolding rescale_hsecond
rescale_pos f = ground arith

within-pos : (n lo hi : ℕ) → lo ≤ n → n ≤ hi → within (pos n) lo hi ≡ true
within-pos n lo hi h k = ground arith

time_written :
    (h m s f : ℕ)
    → h < 24
    → m < 60
    → s ≤ 60
    → f < 1000
    → time_to_string (time_of h m s f) ≡ some (time_text h m s (written_fraction f))
unfolding time_to_string
time_written h m s f hh hm hs hf =
    rw
      (
        within-pos h 0 23 (omega arith) (omega arith),
        within-pos m 0 59 (omega arith) (omega arith),
        within-pos s 0 60 (omega arith) hs,
        lt→ltb (f + 0) 1000 (omega arith),
        rescale_pos f,
        take_all 9 (time_text h m s (written_fraction f)) (
            le_of_eq (
              time_text-length h m s (written_fraction f) (omega arith) (omega arith) (omega arith)
                (written_fraction-lt f hf))),
      )
      refl

time_read :
    (junk : ℤ) (h m s k : ℕ)
    → h < 100
    → m < 100
    → s < 100
    → k < 100
    → parse_time junk (time_text h m s k) ≡ some (some (time_of h m s k))
unfolding parse_time parse_hsecond
time_read junk h m s k hh hm hs hk =
    let tail = b'.' ∷ print_int 2 (pos k) in
    rw
      (
        time_text-length h m s k hh hm hs hk,
        drop_seven h m s (print_int 2 (pos k)) hh hm hs,
        length-print_int 1 k hk,
        take_two h (print_int 2 (pos m) ++ (print_int 2 (pos s) ++ tail)) hh,
        drop_two h (print_int 2 (pos m) ++ (print_int 2 (pos s) ++ tail)) hh,
        take_two m (print_int 2 (pos s) ++ tail) hm,
        drop_four h m (print_int 2 (pos s) ++ tail) hh hm,
        take_two s tail hs,
        atoi-print_int 2 h (omega arith),
        atoi-print_int 2 m (omega arith),
        atoi-print_int 2 s (omega arith),
        atoi-print_int 2 k (omega arith),
      )
      refl

-- A time in the ranges that the time token asserts is written and read back with its hour, minute
-- and second. Its fraction comes back as it was if it is 0 or has two digits; one to nine
-- hundredths come back multiplied by ten, and a hundred or more divided by ten.
pub time_token-read :
    (junk : ℤ) (h m s f : ℕ)
    → h < 24
    → m < 60
    → s ≤ 60
    → f < 1000
    → (text : Bytes) × (time_to_string (time_of h m s f) ≡ some text)
      × (parse_time junk text ≡ some (some (time_of h m s (written_fraction f))))
time_token-read junk h m s f hh hm hs hf = (
  time_text h m s (written_fraction f),
  time_written h m s f hh hm hs hf,
  time_read junk h m s (written_fraction f) (omega arith) (omega arith) (omega arith)
      (written_fraction-lt f hf),
)
