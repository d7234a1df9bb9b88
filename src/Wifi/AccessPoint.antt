-- ===== src/Wifi/AccessPoint.antt =====
-- `ScannedAccessPoint` of include/spi/ScannedAccessPoint.h. A failed `assert` is `none`.
pub mod Strength
use mathlib.Core.List.{map}
use precision_location_lite.Base.{
  ℕ, ◌+◌, ◌-◌, ◌*◌, ◌/◌, Bool, not, ◌&&◌, Option, none, some, List, [], ◌++◌, ◌∷◌, ◌==◌, leb, ltb,
  if◌then◌else◌, Bytes,
}
use precision_location_lite.Base.Int.{ℤ, pos, negsuc, leb_ℤ, ltb_ℤ, is_zero, add_ℤ, to_short}
use precision_location_lite.Base.Libc.{print_int}
use precision_location_lite.Wifi.Mac
use precision_location_lite.Timer

pub record ScannedAccessPoint : Type 0 where
  pub mac : Bytes
  pub rssi : ℤ
  pub timestamp : ℕ
  pub ssid : Bytes

-- `todBm`; in the second branch the value is positive, and so are its quotients.
unfoldable pub to_dbm : ℤ → ℤ
to_dbm (pos n) = if ltb 0 n && ltb n 100 then add_ℤ (pos (n * 69 / 100)) (negsuc 89) else negsuc 254
to_dbm (negsuc n) = if ltb n 254 then negsuc n else negsuc 254

-- The constructor, whose argument is a `short`, and its assertion.
unfoldable pub new_access_point : Bytes → ℤ → ℕ → Bytes → Option ScannedAccessPoint
unfolding to_dbm
new_access_point mac rssi timestamp ssid =
    let dbm = to_dbm (to_short rssi) in
    if leb_ℤ (negsuc 254) dbm && leb_ℤ dbm (pos 0)
    then some (record { mac = mac; rssi = dbm; timestamp = timestamp; ssid = ssid })
    else none

unfoldable pub compare_access_points : ScannedAccessPoint → ScannedAccessPoint → ℤ
unfolding Mac.compare Timer.compare
compare_access_points a b =
    let r = Mac.compare a.mac b.mac in
    if is_zero r then Timer.compare a.timestamp b.timestamp else r

abbrev pub to_ascii_char : ℕ → ℕ
to_ascii_char c = if leb 0x20 c && leb c 0x7F then c else b'?'

abbrev pub to_ascii_string : Bytes → Bytes
to_ascii_string s = map to_ascii_char s

abbrev pub access_point_to_string : ScannedAccessPoint → Bytes
access_point_to_string a =
    Mac.to_string a.mac
    ++ (b','
        ∷ (to_ascii_string a.ssid
            ++ (b',' ∷ (print_int 0 a.rssi ++ (b',' ∷ Timer.to_string a.timestamp)))))

-- The function objects `MacSame`, `MacLess`, `MacEqualsTo` and `WeakerRssi`.
abbrev pub mac_same : ScannedAccessPoint → ScannedAccessPoint → Bool
mac_same a b = is_zero (Mac.compare a.mac b.mac)

abbrev pub mac_less : ScannedAccessPoint → ScannedAccessPoint → Bool
mac_less a b = ltb_ℤ (Mac.compare a.mac b.mac) (pos 0)

abbrev pub mac_equals_to : ScannedAccessPoint → Bytes → Bool
mac_equals_to a mac = Mac.equals a.mac mac

abbrev pub weaker_rssi : ScannedAccessPoint → ScannedAccessPoint → Bool
weaker_rssi a b = ltb_ℤ a.rssi b.rssi
