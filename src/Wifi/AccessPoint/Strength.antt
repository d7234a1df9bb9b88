-- ===== src/Wifi/AccessPoint/Strength.antt =====
-- The signal strength of an access point.
use precision_location_lite.Base.{ℕ, some, ◌≡◌, arith, Bytes, ◌&&◌, true, refl}
use precision_location_lite.Base.Int.{ℤ, pos, negsuc, leb_ℤ, to_short}
use precision_location_lite.Wifi.AccessPoint.{to_dbm, new_access_point}

to_dbm-bounds : (rssi : ℤ) → leb_ℤ (negsuc 254) (to_dbm rssi) && leb_ℤ (to_dbm rssi) (pos 0) ≡ true
unfolding to_dbm
to_dbm-bounds (pos n) = ground arith
to_dbm-bounds (negsuc n) = ground arith

-- The assertion of the constructor never fails: every `short` is turned into a strength from -255 to
-- -1 dBm, those from -254 to -1 as they are.
pub new_access_point-dbm :
    (mac : Bytes) (rssi : ℤ) (timestamp : ℕ) (ssid : Bytes)
    → new_access_point mac rssi timestamp ssid
      ≡ some
          (record { mac = mac; rssi = to_dbm (to_short rssi); timestamp = timestamp; ssid = ssid })
unfolding new_access_point
new_access_point-dbm mac rssi timestamp ssid = rw (to_dbm-bounds (to_short rssi)) refl
