-- ===== src/Wifi/Nl80211.antt =====
-- src/spi/wifi/nl80211/Nl80211WifiAdapter.cpp: the Wi-Fi adapter over nl80211. What libnl and the
-- kernel answer is an argument. `none` is a failed `assert`, a read that leaves the memory that is
-- given, or one through a null pointer.
pub mod Elements
pub mod Scan
pub mod Power
pub mod Interface
use mathlib.Core.List.{reverse}
use Prim.Native.Nat.{bit_and}
use precision_location_lite.Base.{
  ℕ, zero, suc, ◌+◌, ◌-◌, Bool, true, false, not, ◌||◌, ◌&&◌, List, [], ◌∷◌, ◌++◌, Option, none,
  some, ◌==◌, leb, ltb, if◌then◌else◌, ◌>>=◌, Bytes, length, take, drop,
}
use precision_location_lite.Base.Int.{ℤ, pos, negsuc, signed32, quot}
use precision_location_lite.Api.Client.{ErrorCode, ok, error, not_ready}
use precision_location_lite.Wifi.AccessPoint.{ScannedAccessPoint, new_access_point}
use precision_location_lite.Wifi.Mac
use precision_location_lite.Timer

-- A handler of information elements: whether to go on, and what is behind `arg`.
abbrev pub IeHandler : Type 0 → Type 0
IeHandler A = ℕ → ℕ → Bytes → A → Option (Bool × A)

module _ {A : Type 0} (handler : IeHandler A) where
  -- The loop of `parseBssIe`. `total_size` is the attribute's length less what `p` has gone over, and
  -- the bytes are the memory from `p` on. Each round takes two bytes at least, so that the attribute's
  -- length is enough fuel.
  unfoldable pub parse_elements : ℕ → ℕ → Bytes → A → Option A
  parse_elements fuel zero p arg = some arg
  parse_elements zero (suc total_size) p arg = none
  parse_elements (suc fuel) (suc total_size) (type ∷ size ∷ p) arg = do
    (more, arg) ← handler type size p arg
    if more then parse_elements fuel (total_size - 1 - size) (drop size p) arg else some arg
  parse_elements (suc fuel) (suc total_size) p arg = none

-- An attribute: its length, and the memory from its payload on.
pub record Attribute : Type 0 where
  pub len : ℕ
  pub memory : Bytes

unfoldable pub parse_bss_ie : {A : Type 0} → IeHandler A → Option Attribute → A → Option A
unfolding parse_elements
parse_bss_ie handler none arg = none
parse_bss_ie handler (some ie) arg = parse_elements handler ie.len ie.len ie.memory arg

-- `ssid->assign(data, data + size)`
abbrev pub read_bytes : ℕ → Bytes → Option Bytes
read_bytes size p = if leb size (length p) then some (take size p) else none

abbrev pub ssid_ie_handler : IeHandler Bytes
ssid_ie_handler type size p ssid =
    if not (type == 0) then some (true, ssid) else (do text ← read_bytes size p; some (false, text))

-- The answer of `nla_parse` or `nla_parse_nested`.
pub data Parsed (A : Type 0) : Type 0 where
  parse_failed : Parsed A
  parsed : A → Parsed A

-- The attributes of a scan result that are read. The numbers are of 16 bits for the capability, and of
-- 32 bits.
pub record Bss : Type 0 where
  pub bssid : Option Bytes
  pub capability : Option ℕ
  pub seen_ms_ago : Option ℕ
  pub signal_mbm : Option ℕ
  pub information_elements : Option Attribute
  pub status : Option ℕ

-- A message: whether its command is NL80211_CMD_NEW_SCAN_RESULTS, and its NL80211_ATTR_BSS.
pub record Message : Type 0 where
  pub is_new_scan_results : Bool
  pub bss : Parsed (Option (Parsed Bss))

-- `toMAC`
abbrev pub to_mac : Bytes → Option Bytes
to_mac p = do mac ← read_bytes 6 p; some (reverse mac)

-- `Timer age; age.reset(...)`
abbrev pub seen_at : ℕ → ℕ → ℕ
seen_at tick seen_ms_ago = Timer.reset (pos seen_ms_ago) tick

-- `parseAccessPoint` behind the test of the capability. The status is compared with
-- NL80211_BSS_STATUS_ASSOCIATED.
abbrev pub is_associated : ℕ → Option ℕ → Bool
is_associated associated none = false
is_associated associated (some status) = status == associated

unfoldable pub make_access_point : ℕ → ℕ → Bss → Bytes → ℕ → ℕ → Option (ScannedAccessPoint × Bool)
unfolding parse_bss_ie new_access_point
make_access_point associated tick bss bssid seen_ms_ago signal_mbm = do
  mac ← to_mac bssid
  ssid ← parse_bss_ie ssid_ie_handler bss.information_elements []
  ap ← new_access_point mac (quot (signed32 signal_mbm) 100) (seen_at tick seen_ms_ago) ssid
  some (ap, is_associated associated bss.status)

unfoldable pub parse_bss :
    ℕ
    → ℕ
    → Bss
    → Option Bytes
    → Option ℕ
    → Option ℕ
    → Option ℕ
    → Option (Option (ScannedAccessPoint × Bool))
unfolding make_access_point
parse_bss associated tick bss (some bssid) (some capability) (some seen) (some signal) =
    if not (bit_and capability 2 == 0)
    then some none
    else (do ap ← make_access_point associated tick bss bssid seen signal; some (some ap))
parse_bss associated tick bss bssid capability seen signal = some none

unfoldable pub parse_attributes :
    ℕ → ℕ → Parsed (Option (Parsed Bss)) → Option (Option (ScannedAccessPoint × Bool))
unfolding parse_bss
parse_attributes associated tick (parsed (some (parsed bss))) =
    parse_bss associated tick bss bss.bssid bss.capability bss.seen_ms_ago bss.signal_mbm
parse_attributes associated tick _ = some none

-- `parseAccessPoint`
unfoldable pub parse_access_point : ℕ → ℕ → Message → Option (Option (ScannedAccessPoint × Bool))
unfolding parse_attributes
parse_access_point associated tick msg =
    if not msg.is_new_scan_results then some none else parse_attributes associated tick msg.bss

-- `parseConnectedAp` and `parseScannedAp`
abbrev pub keep_connected : Option (ScannedAccessPoint × Bool) → Bytes → Bytes
keep_connected none mac = mac
keep_connected (some (ap, connected)) mac = if not connected then mac else ap.mac

abbrev pub keep_scanned :
    Option (ScannedAccessPoint × Bool) → List ScannedAccessPoint → List ScannedAccessPoint
keep_scanned none scan = scan
keep_scanned (some (ap, connected)) scan = scan ++ (ap ∷ [])

-- What the calls of libnl bring about for a request: whether `prepareMessage` makes the message,
-- `nl_send_auto_complete` and `nl_cb_alloc` succeed, each valid message that `nl_recvmsgs` hands to the
-- handler with the tick, and whether it succeeds.
pub record Request : Type 0 where
  pub prepared : Bool
  pub sent : Bool
  pub allocated : Bool
  pub messages : List (ℕ × Message)
  pub received : Bool

module _ (associated : ℕ) {A : Type 0} (keep : Option (ScannedAccessPoint × Bool) → A → A) where
  -- The handler's calls.
  unfoldable pub handle : List (ℕ × Message) → A → Option A
  unfolding parse_access_point
  handle [] arg = some arg
  handle ((tick, msg) ∷ msgs) arg = do
    ap ← parse_access_point associated tick msg
    handle msgs (keep ap arg)

  -- `doRequest`, and `getScan` around it.
  unfoldable pub do_request : Request → A → Option (Bool × A)
  unfolding handle
  do_request r arg =
      if not (r.sent && r.allocated)
      then some (false, arg)
      else (do arg ← handle r.messages arg; some (r.received, arg))

  unfoldable pub get_scan : Request → A → Option (ErrorCode × A)
  unfolding do_request
  get_scan r arg =
      if not r.prepared
      then some (error, arg)
      else (do (done, arg) ← do_request r arg; some (if done then ok else error, arg))

-- What the listener is told.
pub data WifiNotice : Type 0 where
  scan_completed : List ScannedAccessPoint → WifiNotice
  scan_failed : ErrorCode → WifiNotice

abbrev pub tell_scan : ErrorCode × List ScannedAccessPoint → WifiNotice
tell_scan (ok, scan) = scan_completed scan
tell_scan (code, scan) = scan_failed code

unfoldable pub on_scan_completed : ℕ → Request → Option WifiNotice
unfolding get_scan
on_scan_completed associated r = do
  result ← get_scan associated keep_scanned r []
  some (tell_scan result)

-- `startScan` with what `doRequest` returns; the message is made if `prepareMessage`, `nlmsg_alloc`,
-- `nla_put` and `nla_put_nested` succeed.
abbrev pub start_scan : Bool → Bool → List WifiNotice
start_scan made done = if not made then [] else if not done then scan_failed error ∷ [] else []

-- `getConnectedMAC`
abbrev pub connected_code : ErrorCode × Bytes → ErrorCode × Bytes
connected_code (ok, mac) = (if Mac.equals mac Mac.zero_mac then not_ready else ok, mac)
connected_code (code, mac) = (code, mac)

unfoldable pub get_connected_mac : ℕ → Bool → Request → Bytes → Option (ErrorCode × Bytes)
unfolding get_scan
get_connected_mac associated is_initialized r mac =
    if not is_initialized
    then some (error, mac)
    else (do result ← get_scan associated keep_connected r mac; some (connected_code result))

-- `getHardwareMAC`; the link's address is none where `getWifiLink` or `rtnl_link_get_addr` fails.
abbrev pub get_hardware_mac : Bool → Option Bytes → Bytes → Option (ErrorCode × Bytes)
get_hardware_mac is_initialized none mac = some (error, mac)
get_hardware_mac is_initialized (some addr) mac =
    if not is_initialized then some (error, mac) else (do mac ← to_mac addr; some (ok, mac))
