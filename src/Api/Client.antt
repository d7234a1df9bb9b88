-- ===== src/Api/Client.antt =====
-- src/api/skyhookliteclient.cpp: the wrappers of the adapters, and `SHLC_location`. What the adapters,
-- the server and the operating system answer during a call is a parameter, `World`.
pub mod Meta
pub mod Fixes
pub mod Flow
use precision_location_lite.Base.{
  ℕ, zero, suc, ◌+◌, Bool, true, false, not, ◌&&◌, ◌||◌, List, [], ◌∷◌, ◌++◌, Option, none, some,
  ◌==◌, ltb, if◌then◌else◌, Bytes, codes, length,
}
use precision_location_lite.Gps.{Fix, GpsData}
use precision_location_lite.Wifi.Mac.{to_long, to_string}

-- `ErrorCode` of include/spi/ErrorCodes.h.
pub data ErrorCode : Type 0 where
  ok permission_denied connection_refused connection_reset protocol_not_supported : ErrorCode
  host_unreachable timed_out io not_ready no_memory error : ErrorCode

-- `SHLC_ReturnCode` of include/api/skyhookliteclient.h.
pub data ReturnCode : Type 0 where
  shlc_ok radio_not_available no_beacons_in_range unauthorized server_unavailable : ReturnCode
  location_cannot_be_determined timeout shlc_error : ReturnCode

abbrev pub is_ok : ErrorCode → Bool
is_ok ok = true
is_ok _ = false

abbrev pub is_empty {ℓ} : {A : Type ℓ} → List A → Bool
is_empty [] = true
is_empty (x ∷ xs) = false

-- The test of `isNotValidForMeta` on a `char`, whose values from 128 on are negative or above 126.
abbrev pub is_not_valid_for_meta : ℕ → Bool
is_not_valid_for_meta c = ltb c 32 || ltb 126 c || c == b';'

abbrev pub is_valid_for_meta : Bytes → Bool
is_valid_for_meta [] = true
is_valid_for_meta (c ∷ s) = not (is_not_valid_for_meta c) && is_valid_for_meta s

abbrev pub validate_for_meta : Bytes → Bytes
validate_for_meta s = if is_valid_for_meta s then s else []

-- `SystemInformation`, whose strings are empty where there is none.
pub record SystemInfo : Type 0 where
  pub os_type : Bytes
  pub os_version : Bytes
  pub manufacturer : Bytes
  pub model : Bytes

abbrev pub get_meta_string : Bytes → SystemInfo → Bytes
get_meta_string version info =
    codes "1;shlc;"
    ++ (version
        ++ (b';'
            ∷ (validate_for_meta info.os_type
                ++ (b';'
                    ∷ (validate_for_meta info.os_version
                        ++ (b';'
                            ∷ (validate_for_meta info.manufacturer
                                ++ (b';' ∷ validate_for_meta info.model))))))))

-- The last element, as `back()`.
abbrev pub last_gps_time : {D F : Type 0} → List (Fix D F) → Option ℕ
last_gps_time [] = none
last_gps_time (fix ∷ fixes) = elim (last_gps_time fixes) [
  | none ↦ some fix.gps_time
  | some t ↦ some t
]

-- `GpsWrapper::onGpsData`, on data with a fix and on any data.
unfoldable pub add_fix : {D F : Type 0} → List (Fix D F) → Fix D F → List (Fix D F)
add_fix fixes new_fix = elim (last_gps_time fixes) [
  | none ↦ fixes ++ (new_fix ∷ [])
  | some t ↦ if t == new_fix.gps_time then fixes else fixes ++ (new_fix ∷ [])
]

unfoldable pub on_gps_data : {D F : Type 0} → List (Fix D F) → GpsData D F → List (Fix D F)
unfolding add_fix
on_gps_data fixes gps_data = elim gps_data.fix [
  | none ↦ fixes
  | some new_fix ↦ add_fix fixes new_fix
]

-- The calls of the listener up to `getFixes`.
unfoldable pub get_fixes : {D F : Type 0} → List (Fix D F) → List (GpsData D F) → List (Fix D F)
unfolding on_gps_data
get_fixes fixes [] = fixes
get_fixes fixes (gps_data ∷ more) = get_fixes (on_gps_data fixes gps_data) more

-- What the listener of the Wi-Fi adapter hears before `wait` returns.
pub data ScanEvent (AP : Type 0) : Type 0 where
  nothing : ScanEvent AP
  completed : List AP → ScanEvent AP
  failed : ErrorCode → ScanEvent AP

-- The answer of the server: what `send` returns, the status and the data.
pub record Response : Type 0 where
  pub code : ErrorCode
  pub status : ℕ
  pub data_ : Bytes

-- The types of access points, cells and locations, with the functions that are modelled elsewhere or
-- not at all: `locationRQ`, the parsers of the answer (`none` for a null document or `false`) and
-- `md4`, and what the adapters answer. `none` for an adapter is the null pointer of `newInstance`.
pub record World : Type 1 where
  pub AP : Type 0
  pub Cell : Type 0
  pub Location : Type 0
  pub D : Type 0
  pub F : Type 0
  pub version : Bytes
  pub md4 : Bytes → Bytes
  pub location_rq : Bytes → Bytes → List AP → List Cell → List (Fix D F) → Bytes
  pub parse_location_rs : Bytes → Option (List Location)
  pub wifi_open : Option ErrorCode
  pub hardware_mac : ErrorCode × Bytes
  pub scan_event : ScanEvent AP
  pub cell_instance : Bool
  pub imei : ErrorCode × Bytes
  pub cells : List Cell
  pub gps_events : List (GpsData D F)
  pub system : SystemInfo
  pub post : Bytes → Bytes → Response

module _ (w : World) where
  -- `WifiWrapper::open`
  abbrev pub wifi_is_open : Bool
  wifi_is_open = elim w.wifi_open [ none ↦ false | some code ↦ is_ok code ]

  -- `WifiWrapper::getHardwareMAC`
  abbrev pub get_hardware_mac : Bytes
  get_hardware_mac =
      if not (is_ok w.hardware_mac.0)
      then []
      else if to_long w.hardware_mac.1 == 0
      then []
      else to_string w.hardware_mac.1

  -- `CellWrapper::getIMEI`
  abbrev pub get_imei : Bytes
  get_imei = if not w.cell_instance then [] else if not (is_ok w.imei.0) then [] else w.imei.1

  unfoldable pub get_device_username : Bytes
  get_device_username =
      if not (is_empty get_hardware_mac)
      then w.md4 get_hardware_mac
      else if not (is_empty get_imei)
      then w.md4 get_imei
      else []

  -- `WifiWrapper::scan` on an open adapter: the access points, or `none` for any other code. The
  -- wrapper is new in each call, so that `_rc` is `SPI_ERROR_NOT_READY` until the listener is called.
  unfoldable pub scan : Option (List w.AP)
  scan = elim w.scan_event [
    | nothing ↦ none
    | completed aps ↦ some aps
    | failed code ↦ if is_ok code then some [] else none
  ]

  -- `getLocation` behind `send`, on the answer of the server.
  unfoldable pub read_response : Response → ReturnCode × Option w.Location
  read_response rs =
      if not (is_ok rs.code)
      then (server_unavailable, none)
      else if rs.status == 401
      then (unauthorized, none)
      else if not (rs.status == 200)
      then (server_unavailable, none)
      else elim (w.parse_location_rs rs.data_) [
        | none ↦ (location_cannot_be_determined, none)
        | some locations ↦ elim locations [
          | [] ↦ (location_cannot_be_determined, none)
          | location ∷ more ↦ (shlc_ok, some location)
        ]
      ]

  -- What a call of `SHLC_location` does: the return code, `*location`, and the requests that were
  -- sent, each with its "Skyhook-Meta" header.
  pub record Outcome : Type 0 where
    pub code : ReturnCode
    pub location : Option w.Location
    pub sent : List (Bytes × Bytes)

  abbrev pub give_up : ReturnCode → Outcome
  give_up code = record { code = code; location = none; sent = [] }

  unfoldable pub get_location :
      Bytes → Bytes → List w.AP → List w.Cell → List (Fix w.D w.F) → Outcome
  get_location key username aps cells fixes =
      let rq = w.location_rq key username aps cells fixes in
      let meta = get_meta_string w.version w.system in
      let result = read_response (w.post meta rq) in
      record { code = result.0; location = result.1; sent = (meta, rq) ∷ [] }

  unfoldable pub shlc_location : Bytes → Outcome
  shlc_location key =
      if not wifi_is_open
      then give_up radio_not_available
      else if is_empty get_device_username
      then give_up unauthorized
      else elim scan [
        | none ↦ give_up radio_not_available
        | some aps ↦
            let fixes = get_fixes [] w.gps_events in
            if is_empty aps && (is_empty w.cells && is_empty fixes)
            then give_up no_beacons_in_range
            else get_location key get_device_username aps w.cells fixes
      ]
