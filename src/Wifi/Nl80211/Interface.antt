-- ===== src/Wifi/Nl80211/Interface.antt =====
-- The choice of the interface: `getInterfaceCallback` and `WifiAdapter::newInstance` of
-- src/spi/wifi/nl80211/Nl80211WifiAdapter.cpp.
pub mod Choice
use precision_location_lite.Base.{
  ℕ, Bool, true, false, not, ◌&&◌, ◌||◌, List, [], ◌∷◌, Option, none, some, ◌==◌, if◌then◌else◌,
  ◌>>=◌, Bytes, codes,
}
use precision_location_lite.Base.Int.{ℤ, pos, negsuc, signed32, low_bits, add_ℤ, is_zero}
use precision_location_lite.Wifi.Nl80211.{Parsed, parse_failed, parsed}

-- `name.find(text, 0) != npos`
abbrev pub starts_with : Bytes → Bytes → Bool
starts_with [] name = true
starts_with (c ∷ text) [] = false
starts_with (c ∷ text) (d ∷ name) = c == d && starts_with text name

abbrev pub contains : Bytes → Bytes → Bool
contains text [] = starts_with text []
contains text (d ∷ name) = starts_with text (d ∷ name) || contains text name

abbrev pub is_p2p : Bytes → Bool
is_p2p name = contains (codes "p2p") name

-- A message: whether its command is NL80211_CMD_NEW_INTERFACE, and its attributes
-- NL80211_ATTR_IFNAME and NL80211_ATTR_IFINDEX.
pub record Message : Type 0 where
  pub is_new_interface : Bool
  pub attributes : Parsed (Option Bytes × Option ℕ)

-- `IfNameIndex`
abbrev pub IfNameIndex : Type 0
IfNameIndex = Bytes × ℤ

-- The callback, where a missing attribute is a null pointer: whether it returns NL_STOP.
abbrev pub keep_interface :
    Parsed (Option Bytes × Option ℕ) → IfNameIndex → Option (Bool × IfNameIndex)
keep_interface parse_failed found = some (false, found)
keep_interface (parsed (some name, some index)) found =
    some (not (is_p2p name), (name, signed32 index))
keep_interface (parsed _) found = none

abbrev pub get_interface : Message → IfNameIndex → Option (Bool × IfNameIndex)
get_interface msg found =
    if not msg.is_new_interface then some (false, found) else keep_interface msg.attributes found

-- The calls of `nl_recvmsgs_default`, up to the first that returns NL_STOP.
unfoldable pub get_interfaces : List Message → IfNameIndex → Option IfNameIndex
get_interfaces [] found = some found
get_interfaces (msg ∷ msgs) found = do
  (stop, found) ← get_interface msg found
  if stop then some found else get_interfaces msgs found

-- `newInstance`: the name and the index of the new adapter. `asked` is whether every call up to
-- `nl_send_auto_complete` succeeds, and `received` whether `nl_recvmsgs_default` does.
abbrev pub choose : Bool → IfNameIndex → Option (Bytes × ℕ)
choose received (name, index) =
    if not received
    then none
    else if is_zero (add_ℤ index (pos 1))
    then none
    else some (name, low_bits 32 index)

unfoldable pub new_instance : Bool → List Message → Bool → Option (Option (Bytes × ℕ))
unfolding get_interfaces
new_instance asked msgs received =
    if not asked
    then some none
    else (do found ← get_interfaces msgs ([], negsuc 0); some (choose received found))
