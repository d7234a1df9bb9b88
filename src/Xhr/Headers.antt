-- ===== src/Xhr/Headers.antt =====
-- The header lines of an answer.
use precision_location_lite.Base.{
  ℕ, suc, ◌+◌, ◌-◌, ◌%◌, ◌^◌, ◌<◌, Bool, true, false, ◌&&◌, [], ◌∷◌, ◌++◌, some, ◌==◌, leb, Bytes,
  bytes_eq, codes, length, take, drop, ◌≡◌, ◌≢◌, refl, ap, ◌∙◌, arith, All, length-append,
  take-append,
}
use precision_location_lite.Base.Int.{ℤ, pos}
use precision_location_lite.Base.Libc.{atoi, print_int}
use precision_location_lite.Base.Libc.RoundTrip.{atoi-print_int}
use precision_location_lite.Base.Libc.Digits.{length-print_int}
use precision_location_lite.Xhr.{assign, Members, find_colon, store_field, header_callback}

-- The names of header fields hold neither ':' nor '/'.
abbrev pub IsToken : Bytes → Type 0
IsToken name = All (λ (c : ℕ). (c ≢ b':') × (c ≢ b'/')) name

abbrev pub Field : Type 0
Field = Bytes × Bytes

abbrev pub crlf : Bytes
crlf = 13 ∷ 10 ∷ []

abbrev pub field_line : Field → Bytes
field_line (name, value) = name ++ (b':' ∷ b' ' ∷ (value ++ crlf))

find_colon-field :
    (name rest : Bytes)
    → IsToken name
    → find_colon (name ++ (b':' ∷ b' ' ∷ rest)) ≡ some (length name)
find_colon-field [] rest h = refl
find_colon-field (c ∷ []) rest h =
    let other : c == b':' ≡ false = ground (arith, h.0.0) in rw other refl
find_colon-field (c ∷ d ∷ name) rest h =
    let other : c == b':' ≡ false = ground (arith, h.0.0) in
    rw (other, find_colon-field (d ∷ name) rest h.1) (ap some (omega arith))

no_status_line :
    (name rest : Bytes)
    → IsToken name
    → bytes_eq (take 5 (name ++ (b':' ∷ rest))) (codes "HTTP/") ≡ false
unfolding bytes_eq
no_status_line [] rest h = ground arith
no_status_line (a ∷ []) rest h = ground arith
no_status_line (a ∷ b ∷ []) rest h = ground arith
no_status_line (a ∷ b ∷ c ∷ []) rest h = ground arith
no_status_line (a ∷ b ∷ c ∷ d ∷ []) rest h = ground arith
no_status_line (a ∷ b ∷ c ∷ d ∷ e ∷ name) rest h =
    let last : e == b'/' ≡ false = ground (arith, h.1.1.1.1.0.1) in rw last (ground arith)

drop_two : (x y : ℕ) (name rest : Bytes) → drop (length name + 2) (name ++ (x ∷ y ∷ rest)) ≡ rest
drop_two x y [] rest = refl
drop_two x y (c ∷ name) rest =
    let e : suc (length name) + 2 ≡ suc (length name + 2) = omega arith in
    rw e (drop_two x y name rest)

and_false : (b : Bool) → b && false ≡ false
and_false true = refl
and_false false = refl

store_field-line :
    (name value : Bytes) (m : Members)
    → length (field_line (name, value)) < 2 ^ 64
    → store_field (field_line (name, value)) (some (length name)) m
      ≡ record m { response_headers = assign name value m.response_headers }
store_field-line name value m fits =
    let line = field_line (name, value) in
    let size : length line ≡ length name + 4 + length value =
      omega (arith, length-append name (b':' ∷ b' ' ∷ (value ++ crlf)), length-append value crlf) in
    let count : (length line + 2 ^ 64 - (length name + 4)) % 2 ^ 64 ≡ length value =
      omega (arith, size, fits) in
    rw
      (
        count,
        drop_two b':' b' ' name (value ++ crlf),
        take-append value crlf,
        take-append name (b':' ∷ b' ' ∷ (value ++ crlf)),
      )
      refl

-- A line of a field sets the field.
pub header_callback-field :
    (name value : Bytes) (m : Members)
    → IsToken name
    → length (field_line (name, value)) < 2 ^ 64
    → header_callback (field_line (name, value)) m
      ≡ record m { response_headers = assign name value m.response_headers }
unfolding header_callback
header_callback-field name value m h fits =
    let line = field_line (name, value) in
    let other : leb 15 (length line) && bytes_eq (take 5 line) (codes "HTTP/") ≡ false =
      rw (no_status_line name (b' ' ∷ (value ++ crlf)) h) (and_false (leb 15 (length line))) in
    rw (other, find_colon-field name (value ++ crlf) h) (store_field-line name value m fits)

-- A status line: "HTTP/", the three characters of the version, the code and the reason.
abbrev line_of : ℕ → ℕ → ℕ → Bytes → Bytes → Bytes
line_of v w x digits reason =
    codes "HTTP/" ++ (v ∷ w ∷ x ∷ b' ' ∷ (digits ++ (b' ' ∷ (reason ++ crlf))))

abbrev pub status_line : ℕ → ℕ → ℕ → ℕ → Bytes → Bytes
status_line v w x code reason = line_of v w x (print_int 3 (pos code)) reason

header_callback-digits :
    (v w x : ℕ) (digits reason : Bytes) (m : Members)
    → length digits ≡ 3
    → header_callback (line_of v w x digits reason) m
      ≡ record m { status_code = atoi digits; status_text = reason }
unfolding header_callback
header_callback-digits v w x (a ∷ b ∷ c ∷ []) reason m three =
    let long : leb 15 (length (line_of v w x (a ∷ b ∷ c ∷ []) reason)) ≡ true =
      ground (arith, length-append reason crlf) in
    let count : length (line_of v w x (a ∷ b ∷ c ∷ []) reason) - 15 ≡ length reason =
      omega (arith, length-append reason crlf) in
    rw (long, count, take-append reason crlf) refl
header_callback-digits v w x [] reason m three = absurd (omega arith)
header_callback-digits v w x (a ∷ []) reason m three = absurd (omega arith)
header_callback-digits v w x (a ∷ b ∷ []) reason m three = absurd (omega arith)
header_callback-digits v w x (a ∷ b ∷ c ∷ d ∷ digits) reason m three = absurd (omega arith)

-- The line of the status sets the status.
pub header_callback-status :
    (v w x code : ℕ) (reason : Bytes) (m : Members)
    → code < 1000
    → header_callback (status_line v w x code reason) m
      ≡ record m { status_code = pos code; status_text = reason }
header_callback-status v w x code reason m small =
    header_callback-digits v w x (print_int 3 (pos code)) reason m (length-print_int 2 code small)
    ∙ ap (λ (k : ℤ). record m { status_code = k; status_text = reason })
        (atoi-print_int 3 code (omega (arith, small)))

-- The line that ends the headers is not stored.
pub header_callback-end : (m : Members) → header_callback crlf m ≡ m
unfolding header_callback
header_callback-end m = refl
