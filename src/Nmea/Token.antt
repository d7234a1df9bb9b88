-- ===== src/Nmea/Token.antt =====
-- The token classes of src/spi/utils/nmea/src/Token.h. `toString` returns what it appends, `none`
-- for a failed `assert`. `parse` returns `none` for a failed `assert` and `some none` for `false`.
pub mod RoundTrip
pub mod Clock
use precision_location_lite.Base.{
  ℕ, zero, suc, ◌+◌, ◌-◌, ◌*◌, ◌/◌, ◌%◌, ◌^◌, Bool, true, false, not, ◌&&◌, ◌||◌, [], ◌∷◌, ◌++◌,
  Option, none, some, ltb, leb, ◌==◌, if◌then◌else◌, ◌>>=◌, Bytes, codes, take, drop, length,
  bytes_eq,
}
use precision_location_lite.Base.Int.{ℤ, pos, negsuc, neg_part, leb_ℤ, ltb_ℤ, scale, quot}
use precision_location_lite.Base.Libc.{atoi, print_int, Floats}
use precision_location_lite.Nmea.Dataset.{
  Variant, Time, Date, to_char, to_int, to_double, to_time, to_date, to_string,
}

-- The instances of Tokens.h, with their template arguments.
pub data Token : Type 0 where
  char string time date : Token
  int : ℕ → Token
  float : ℕ → ℕ → Token

abbrev first : Bytes → ℕ
first [] = 0
first (c ∷ s) = c

-- `assert(lo <= n && n <= hi)`.
abbrev within : ℤ → ℕ → ℕ → Bool
within n lo hi = leb_ℤ (pos lo) n && leb_ℤ n (pos hi)

-- Tenths to hundredths, and thousandths to hundredths.
unfoldable pub rescale_hsecond : ℤ → ℤ
rescale_hsecond h =
    if ltb_ℤ (pos 0) h && ltb_ℤ h (pos 10)
    then scale h 10
    else if leb_ℤ (pos 100) h
    then quot h 10
    else h

unfoldable pub time_to_string : Time → Option Bytes
time_to_string t =
    if within t.hour 0 23
      && within t.minute 0 59
      && within t.second 0 60
      && ltb_ℤ t.hsecond (pos 1000)
    then some (
        take 9 (
          print_int 2 t.hour
          ++ (print_int 2 t.minute
              ++ (print_int 2 t.second ++ (b'.' ∷ print_int 2 (rescale_hsecond t.hsecond))))))
    else none

unfoldable pub date_to_string : Date → Option Bytes
date_to_string d =
    if within d.day 1 31 && within d.month 1 12 && within d.year 0 99
    then some (take 6 (print_int 2 d.day ++ (print_int 2 d.month ++ print_int 2 d.year)))
    else none

-- `switch (hsec_length)`.
unfoldable pub parse_hsecond : Bytes → Option ℤ
parse_hsecond s =
    let hsec = atoi s in
    if length s == 1
    then some (scale hsec 10)
    else if length s == 2
    then some hsec
    else if length s == 3
    then some (quot hsec 10)
    else none

-- `Time time;` leaves `hsecond` undetermined: `junk` is what the stack holds there.
unfoldable pub parse_time : ℤ → Bytes → Option (Option Time)
unfolding parse_hsecond
parse_time junk s =
    let build : ℤ → Time = λ h. record {
      hour = atoi (take 2 s);
      minute = atoi (take 2 (drop 2 s));
      second = atoi (take 2 (drop 4 s));
      hsecond = h;
    } in
    if ltb (length s) 6 || ltb 10 (length s)
    then some none
    else if ltb 6 (length s)
    then (do h ← parse_hsecond (drop 7 s); some (some (build h)))
    else some (some (build junk))

unfoldable pub parse_date : Bytes → Option Date
parse_date s =
    if not (length s == 6)
    then none
    else some (record {
      day = atoi (take 2 s);
      month = atoi (take 2 (drop 2 s));
      year = atoi (take 2 (drop 4 s));
    })

module _ (fl : Floats) where
  unfoldable pub to_string_token : Token → Variant fl.D → Option Bytes
  unfolding time_to_string date_to_string
  to_string_token Token.char v = do c ← to_char v; some (c ∷ [])
  to_string_token Token.string v = to_string v
  to_string_token Token.time v = do t ← to_time v; time_to_string t
  to_string_token Token.date v = do d ← to_date v; date_to_string d
  to_string_token (Token.int digits) v = do
    n ← to_int v
    some (take (digits + 1) (print_int digits n))
  to_string_token (Token.float total decimal) v = do
    f ← to_double fl.zero_double v
    some (take (total + 2) (fl.print total decimal f))

  unfoldable pub parse_token : ℤ → Token → Bytes → Option (Option (Variant fl.D))
  unfolding parse_time parse_date
  parse_token junk Token.char s =
      some (if not (length s == 1) then none else some (Variant.char (first s)))
  parse_token junk Token.string s = some (some (Variant.string s))
  parse_token junk Token.time s = do r ← parse_time junk s; some (do t ← r; some (Variant.time t))
  parse_token junk Token.date s = some (do d ← parse_date s; some (Variant.date d))
  parse_token junk (Token.int digits) s = some (some (Variant.int (atoi s)))
  parse_token junk (Token.float total decimal) s =
      some (if bytes_eq s (codes "nan") then none else some (Variant.double (fl.atof s)))
