-- ===== src/Wifi/Mac.antt =====
-- `MAC` of src/spi/wifi/MAC.cpp: six bytes, the least significant first, on a little-endian machine.
pub mod Order
use mathlib.Core.Option.{get_or}
use Prim.Native.Nat.{bit_and}
use precision_location_lite.Base.{
  ℕ, zero, suc, ◌+◌, ◌-◌, ◌*◌, ◌/◌, ◌%◌, ◌&&◌, Bool, true, false, not, List, [], ◌∷◌, ◌++◌, ◌==◌,
  ltb, if◌then◌else◌, Bytes, bytes_eq, get_elem?, drop, take,
}
use precision_location_lite.Base.Int.{ℤ, pos, negsuc}

-- `_mac[i]`
abbrev pub octet : Bytes → ℕ → ℕ
octet mac i = get_or (get_elem? mac i) 0

-- `MAC()`
abbrev pub zero_mac : Bytes
zero_mac = 0 ∷ 0 ∷ 0 ∷ 0 ∷ 0 ∷ 0 ∷ []

-- `operator==`
abbrev pub equals : Bytes → Bytes → Bool
equals a b = bytes_eq a b

-- The loop of `compare` over the bytes below n, from the most significant one on.
unfoldable pub compare_below : ℕ → Bytes → Bytes → ℤ
compare_below zero a b = pos 0
compare_below (suc i) a b =
    let rest = compare_below i a b in
    if ltb (octet b i) (octet a i)
    then pos 1
    else if ltb (octet a i) (octet b i)
    then negsuc 0
    else rest

unfoldable pub compare : Bytes → Bytes → ℤ
unfolding compare_below
compare a b = compare_below 6 a b

-- `operator<`
abbrev pub less : Bytes → Bytes → Bool
less a b = elim (compare a b) [ pos n ↦ false | negsuc n ↦ true ]

-- The number that the bytes stand for in memory.
abbrev pub little_endian : Bytes → ℕ
little_endian [] = 0
little_endian (x ∷ xs) = x + 256 * little_endian xs

abbrev pub to_long : Bytes → ℕ
to_long mac = little_endian (take 6 mac)

abbrev pub get_oui : Bytes → ℕ
get_oui mac = little_endian (take 3 (drop 3 mac))

-- "%X" of a digit, and "%02X" of a byte.
abbrev pub hex_upper : ℕ → ℕ
hex_upper d = if ltb d 10 then b'0' + d else b'A' + (d - 10)

abbrev pub print_octet : ℕ → Bytes
print_octet c = hex_upper (c / 16) ∷ hex_upper (c % 16) ∷ []

abbrev pub to_string : Bytes → Bytes
to_string mac =
    print_octet (octet mac 5)
    ++ (print_octet (octet mac 4)
        ++ (print_octet (octet mac 3)
            ++ (print_octet (octet mac 2)
                ++ (print_octet (octet mac 1) ++ print_octet (octet mac 0)))))

abbrev pub virtual_oui : List ℕ
virtual_oui = 0x080027 ∷ 0x005056 ∷ 0x001C14 ∷ 0x000C29 ∷ 0x000569 ∷ 0x001C42 ∷ []

-- `std::find(...) == end`
abbrev pub is_absent : ℕ → List ℕ → Bool
is_absent n [] = true
is_absent n (x ∷ xs) = not (x == n) && is_absent n xs

unfoldable pub is_globally_unique : Bytes → Bool
is_globally_unique mac =
    if not (bit_and (octet mac 5) 0x2 == 0) then false else is_absent (get_oui mac) virtual_oui
