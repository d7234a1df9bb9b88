-- ===== src/Wifi/Nl80211/Power.antt =====
-- The power of the interface, and `open` and `close`, of
-- src/spi/wifi/nl80211/Nl80211WifiAdapter.cpp.
pub mod Restored
use precision_location_lite.Base.{
  ℕ, Bool, true, false, not, ◌&&◌, ◌||◌, List, [], ◌∷◌, Option, none, some, if◌then◌else◌, ◌>>=◌,
  ◌==◌, Bytes,
}
use precision_location_lite.Api.Client.{ErrorCode, ok, error, is_ok}
use precision_location_lite.Wifi.Mac
use precision_location_lite.Wifi.Nl80211.{Request, get_connected_mac}

-- The members, and the interface's flag IFF_UP, which `rtnl_link_change` changes.
pub record Members : Type 0 where
  pub nl80211_sock : Bool
  pub route_sock : Bool
  pub listening_thread : Bool
  pub should_bring_down : Bool
  pub is_up : Bool

abbrev pub is_initialized : Members → Bool
is_initialized m = m.nl80211_sock && m.route_sock

-- What the calls of a request for power bring about: the request for the connected access point,
-- whether `getWifiLink` and `rtnl_link_alloc` succeed, and `rtnl_link_change`.
pub record Link : Type 0 where
  pub associated : ℕ
  pub connected : Request
  pub found : Bool
  pub allocated : Bool
  pub changed : Bool

-- `power` behind the test of the association; `bring_up` is whether the state is FULL.
abbrev pub change_power : Bool → Link → Members → ErrorCode × Members
change_power bring_up link m =
    if not (link.found && link.allocated)
    then (error, m)
    else if (m.is_up && bring_up) || (not m.is_up && not bring_up)
    then (ok, m)
    else if not bring_up && not m.should_bring_down
    then (error, m)
    else if not link.changed
    then (error, m)
    else (ok, record m { is_up = bring_up; should_bring_down = bring_up })

unfoldable pub power : Bool → Link → Members → Option (ErrorCode × Members)
unfolding get_connected_mac
power bring_up link m = if not (is_initialized m) then some (error, m) else (do
  (code, mac) ← get_connected_mac link.associated (is_initialized m) link.connected Mac.zero_mac
  some (if is_ok code then (ok, m) else change_power bring_up link m))

-- `open`, where `eventfd` and `pthread_create` succeed or not.
unfoldable pub open_adapter : Bool → Bool → Link → Members → Option (ErrorCode × Members)
unfolding power
open_adapter event_fd created link m =
    if not (is_initialized m)
    then some (error, m)
    else if m.listening_thread
    then some (ok, m)
    else if not (event_fd && created)
    then some (error, m)
    else (do (code, m) ← power true link (record m { listening_thread = true }); some (ok, m))

-- `close`, when the thread has ended.
unfoldable pub close : Link → Members → Option Members
unfolding power
close link m =
    if not m.listening_thread
    then some m
    else (do (code, m) ← power false link (record m { listening_thread = false }); some m)

-- `init`: whether `nl_socket_alloc` gives the two sockets, and whether `genl_connect`,
-- `genl_ctrl_resolve` and `nl_connect` succeed; and `deinit`.
abbrev pub deinit : Members → Members
deinit m = record m { nl80211_sock = false; route_sock = false }

abbrev pub init : Bool → Bool → Bool → Bool → Bool → Members → Members
init nl80211 route connected resolved connected_route m =
    let m = record m { nl80211_sock = nl80211; route_sock = route } in
    if not (nl80211 && route)
    then deinit m
    else if not connected
    then deinit m
    else if not resolved
    then deinit m
    else if not connected_route
    then deinit m
    else m

-- The constructor, on an interface that is up or not.
abbrev pub new_adapter : Bool → Bool → Bool → Bool → Bool → Bool → Members
new_adapter is_up nl80211 route connected resolved connected_route =
    init nl80211 route connected resolved connected_route (record {
      nl80211_sock = false;
      route_sock = false;
      listening_thread = false;
      should_bring_down = false;
      is_up = is_up;
    })

-- The destructor.
unfoldable pub destroy : Link → Members → Option Members
unfolding close
destroy link m = do m ← close link m; some (deinit m)
