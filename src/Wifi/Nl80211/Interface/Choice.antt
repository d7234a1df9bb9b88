-- ===== src/Wifi/Nl80211/Interface/Choice.antt =====
-- Which interface is chosen.
use precision_location_lite.Base.{
  ℕ, ◌^◌, ◌<◌, true, not, List, [], ◌∷◌, Option, none, some, if◌then◌else◌, Bytes,
}
use precision_location_lite.Base.Int.{pos, negsuc}
use precision_location_lite.Wifi.Nl80211.{parsed}
use precision_location_lite.Wifi.Nl80211.Interface.{Message, is_p2p, IfNameIndex}

-- An interface: its name and its index, which the kernel numbers from 1 on.
abbrev pub Interface : Type 0
Interface = Bytes × ℕ

abbrev pub IsInterface : Interface → Type 0
IsInterface i = i.1 < 2 ^ 31

abbrev pub messages : List Interface → List Message
messages [] = []
messages ((name, index) ∷ interfaces) =
    record { is_new_interface = true; attributes = parsed (some name, some index) }
    ∷ messages interfaces

-- The first interface that is not one of Wi-Fi Direct, or the last of all.
abbrev pub preferred : Option Interface → List Interface → Option Interface
preferred last [] = last
preferred last ((name, index) ∷ interfaces) =
    if not (is_p2p name) then some (name, index) else preferred (some (name, index)) interfaces

abbrev pair : Option Interface → IfNameIndex
pair none = ([], negsuc 0)
pair (some (name, index)) = (name, pos index)
