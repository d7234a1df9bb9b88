-- ===== src/Api/Request/Texts.antt =====
-- The texts that a request holds: printed numbers and addresses need no escape, and an SSID that is
-- sent holds no NUL.
use precision_location_lite.Base.{
  All-append, ℕ, ◌+◌, ◌/◌, ◌%◌, ◌≢◌, false, List, [], ◌∷◌, ◌≡◌, refl, arith, Bytes, All,
}
use precision_location_lite.Base.Int.{ℤ, pos, negsuc}
use precision_location_lite.Base.Libc.{print_int, print_nat}
use precision_location_lite.Base.Libc.Digits.{
  IsDigit, print_int-IsDigit, pad-IsDigit, print_nat-IsDigit,
}
use precision_location_lite.Base.Libc.RoundTrip.{StartsWithDigit, starts-print_int}
use precision_location_lite.Api.Xml.{is_special, escape_char}
use precision_location_lite.Api.Xml.Utf8.{encode, IsXmlChar}
use precision_location_lite.Api.Xml.Utf8.Decision.{IsXmlText, encode_all}
use precision_location_lite.Api.Request.{print_long}
use precision_location_lite.Api.Request.Document.{escape}
use precision_location_lite.Api.Request.Document.Reading.{IsFull}
use precision_location_lite.Wifi.Mac.{hex_upper, print_octet, octet}
use precision_location_lite.Wifi.Mac

-- A character that is neither special nor NUL.
abbrev pub IsPlainChar : ℕ → Type 0
IsPlainChar c = (is_special c ≡ false) × (c ≢ 0)

abbrev pub IsPlain : Bytes → Type 0
IsPlain s = All IsPlainChar s

escape_char-plain : (c : ℕ) → is_special c ≡ false → escape_char c ≡ c ∷ []
escape_char-plain c h = ground arith

pub escape-plain : (s : Bytes) → IsPlain s → escape s ≡ s
unfolding escape
escape-plain [] h = refl
escape-plain (c ∷ s) h = rw (escape_char-plain c h.0.0, escape-plain s h.1) refl

IsDigit-IsPlain : (s : Bytes) → All IsDigit s → IsPlain s
IsDigit-IsPlain [] h = tt
IsDigit-IsPlain (c ∷ s) h = ((ground (arith, h.0), omega (arith, h.0)), IsDigit-IsPlain s h.1)

-- "%ld"
pub print_long-IsPlain : (n : ℤ) → IsPlain (print_long n)
unfolding print_int
print_long-IsPlain (pos n) = IsDigit-IsPlain _ (print_int-IsDigit 0 n)
print_long-IsPlain (negsuc n) = (
  (refl, omega arith),
  IsDigit-IsPlain _ (pad-IsDigit _ (print_nat (n + 1)) (print_nat-IsDigit (n + 1))),
)

starts-IsFull : (s : Bytes) → StartsWithDigit s → IsFull s
starts-IsFull [] h = elim h [ ]
starts-IsFull (c ∷ s) h = tt

pub print_long-IsFull : (n : ℤ) → IsFull (print_long n)
unfolding print_int
print_long-IsFull (pos n) = starts-IsFull _ (starts-print_int 0 n)
print_long-IsFull (negsuc n) = tt

hex_upper-IsPlain : (d : ℕ) → IsPlainChar (hex_upper d)
hex_upper-IsPlain d = ground arith

print_octet-IsPlain : (c : ℕ) → IsPlain (print_octet c)
print_octet-IsPlain c = (hex_upper-IsPlain (c / 16), (hex_upper-IsPlain (c % 16), tt))

pub to_string-IsPlain : (mac : Bytes) → IsPlain (Mac.to_string mac)
to_string-IsPlain mac = (
  hex_upper-IsPlain (octet mac 5 / 16),
  (
    hex_upper-IsPlain (octet mac 5 % 16),
    (
      hex_upper-IsPlain (octet mac 4 / 16),
      (
        hex_upper-IsPlain (octet mac 4 % 16),
        (
          hex_upper-IsPlain (octet mac 3 / 16),
          (
            hex_upper-IsPlain (octet mac 3 % 16),
            (
              hex_upper-IsPlain (octet mac 2 / 16),
              (
                hex_upper-IsPlain (octet mac 2 % 16),
                (
                  hex_upper-IsPlain (octet mac 1 / 16),
                  (
                    hex_upper-IsPlain (octet mac 1 % 16),
                    (
                      hex_upper-IsPlain (octet mac 0 / 16),
                      (hex_upper-IsPlain (octet mac 0 % 16), tt),
                    ),
                  ),
                ),
              ),
            ),
          ),
        ),
      ),
    ),
  ),
)

encode-nonzero : (c : ℕ) → c ≢ 0 → All (λ b. b ≢ 0) (encode c)
unfolding encode
encode-nonzero c h = ground arith

encode_all-nonzero : (chars : List ℕ) → All IsXmlChar chars → All (λ b. b ≢ 0) (encode_all chars)
encode_all-nonzero [] h = tt
encode_all-nonzero (c ∷ cs) h =
    All-append (λ b. b ≢ 0) (encode c) (encode_all cs) (encode-nonzero c (ground (arith, h.0)))
      (encode_all-nonzero cs h.1)

-- A valid text holds no NUL.
pub IsXmlText-nonzero : (s : Bytes) → IsXmlText s → All (λ c. c ≢ 0) s
IsXmlText-nonzero s (chars, all, e) = rw e (encode_all-nonzero chars all)
