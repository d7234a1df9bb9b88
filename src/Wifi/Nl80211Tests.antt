-- ===== src/Wifi/Nl80211Tests.antt =====
-- Runs of the nl80211 adapter on concrete answers.
use precision_location_lite.Base.{
  ℕ, ◌≡◌, refl, Bool, true, false, List, [], ◌∷◌, Option, none, some, codes, Bytes, ◌&&◌, ◌||◌,
}
use precision_location_lite.Base.Int.{pos, negsuc}
use precision_location_lite.Api.Client.{ok, not_ready}
use precision_location_lite.Wifi.AccessPoint.{ScannedAccessPoint, new_access_point}
use precision_location_lite.Wifi.Nl80211.{
  ssid_ie_handler, parse_bss_ie, scan_completed, on_scan_completed, get_connected_mac, Request,
}
use precision_location_lite.Wifi.Mac
use precision_location_lite.Wifi.Nl80211.Scan.{
  Result, Report, result, without_signal, bss_of, answered, on_scan_completed-results,
}
use precision_location_lite.Wifi.Nl80211.Power.{Members, Link, open_adapter, close, new_adapter}
use precision_location_lite.Wifi.Nl80211.Power.Restored.{
  Steps, stay, open_step, close_step, steps-Restores,
}
use precision_location_lite.Wifi.Nl80211.Interface.{new_instance}
use precision_location_lite.Wifi.Nl80211.Interface.Choice.{messages}

abbrev found_at : ℕ → Option ℕ → Result
found_at capability status = record {
  tick = 5000;
  bssid = 0x00 ∷ 0x11 ∷ 0x22 ∷ 0x33 ∷ 0x44 ∷ 0x55 ∷ [];
  capability = capability;
  seen_ms_ago = 120;
  signal_mbm = 4294961596;
  elements = (1, 0x82 ∷ 0x84 ∷ []) ∷ (0, codes "cafe") ∷ (0, codes "other") ∷ [];
  behind = [];
  status = status;
}

abbrev seen : ScannedAccessPoint
seen = record {
  mac = 0x55 ∷ 0x44 ∷ 0x33 ∷ 0x22 ∷ 0x11 ∷ 0x00 ∷ [];
  rssi = negsuc 56;
  timestamp = 4880;
  ssid = codes "cafe";
}

-- The second result is of an ad-hoc network, and the third has no signal.
abbrev reports : List Report
reports =
    result (found_at 1 none)
    ∷ result (found_at 2 none)
    ∷ without_signal 5000 (bss_of (found_at 1 none))
    ∷ []

abbrev succeeds : List Report → Request
succeeds all = answered true true true true all

on_scan_completed-results_example :
    on_scan_completed 1 (succeeds reports) ≡ some (scan_completed (seen ∷ []))
unfolding precision_location_lite.Wifi.AccessPoint.to_dbm
on_scan_completed-results_example =
    on_scan_completed-results 1 true true true true reports (refl, (refl, (tt, tt)))

connected :
    get_connected_mac 1 true (succeeds (result (found_at 1 (some 1)) ∷ [])) Mac.zero_mac
    ≡ some (ok, seen.mac)
unfolding get_connected_mac precision_location_lite.Base.bytes_eq
connected = refl

not_connected :
    get_connected_mac 1 true (succeeds reports) Mac.zero_mac ≡ some (not_ready, Mac.zero_mac)
unfolding get_connected_mac precision_location_lite.Base.bytes_eq
not_connected = refl

-- A signal that does not fit in a `short` is narrowed: 65476 dBm are -60.
narrowed :
    new_access_point [] (pos 65476) 0 []
    ≡ some (record { mac = []; rssi = negsuc 59; timestamp = 0; ssid = [] })
unfolding new_access_point
narrowed = refl

-- An element that ends before its size is read from behind the attribute, and a result without
-- elements through a null pointer.
cut_off :
    parse_bss_ie ssid_ie_handler (some (record { len = 1; memory = 0 ∷ 3 ∷ codes "abc" })) []
    ≡ some (codes "abc")
unfolding parse_bss_ie
cut_off = refl

missing : parse_bss_ie ssid_ie_handler none [] ≡ none
unfolding parse_bss_ie
missing = refl

abbrev link : Link
link = record {
  associated = 1;
  connected = succeeds [];
  found = true;
  allocated = true;
  changed = true;
}

-- An interface that is down is brought up, and down again.
abbrev at_first : Members
at_first = new_adapter false true true true true true

abbrev opened : Members
opened = record at_first { listening_thread = true; should_bring_down = true; is_up = true }

opening : open_adapter true true link at_first ≡ some (ok, opened)
unfolding open_adapter precision_location_lite.Base.bytes_eq
opening = refl

closing : close link opened ≡ some at_first
unfolding close precision_location_lite.Base.bytes_eq
closing = refl

abbrev steps : Steps at_first at_first
steps =
    close_step link at_first opened at_first
      (open_step true true link at_first at_first opened ok (stay at_first) opening) closing

steps-Restores_example : (false ≡ false) × (false ≡ false)
steps-Restores_example = steps-Restores false true true true true true at_first steps

-- An interface of Wi-Fi Direct is chosen where there is no other.
only_p2p :
    new_instance true (messages ((codes "p2p-dev-wlan0", 4) ∷ [])) true
    ≡ some (some (codes "p2p-dev-wlan0", 4))
unfolding new_instance
only_p2p = refl
