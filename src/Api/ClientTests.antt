-- ===== src/Api/ClientTests.antt =====
-- A call of the client in a small world, and its theorems at that world.
use precision_location_lite.Api.Client.Fixes.{IsKept, last_received, get_fixes-IsKept}
use precision_location_lite.Api.Client.Flow.{GaveUp, IsAnswered, shlc_location-cases}
use precision_location_lite.Api.Client.Meta.{split, get_meta_string-split}
use precision_location_lite.Api.Client.{
  ok, Response, SystemInfo, validate_for_meta, get_meta_string, last_gps_time, get_fixes, World,
  completed, shlc_location, get_device_username, get_location, read_response, scan,
}
use precision_location_lite.Base.{
  ℕ, true, [], ◌∷◌, ◌++◌, none, some, ◌⊎◌, ◌≡◌, refl, arith, Bytes, List, codes,
}
use precision_location_lite.Gps.{Fix, GpsData}

abbrev linux : SystemInfo
linux = record {
  os_type = codes "Linux";
  os_version = codes "5;4";
  manufacturer = [];
  model = codes "X1";
}

meta_run : get_meta_string (codes "1.0") linux ≡ codes "1;shlc;1.0;Linux;;;X1"
meta_run = refl

get_meta_string-split_example :
    split (get_meta_string (codes "1.0") linux)
    ≡ codes "1"
      ∷ codes "shlc"
      ∷ codes "1.0"
      ∷ validate_for_meta linux.os_type
      ∷ validate_for_meta linux.os_version
      ∷ validate_for_meta linux.manufacturer
      ∷ validate_for_meta linux.model
      ∷ []
get_meta_string-split_example = get_meta_string-split (codes "1.0") linux (
  (omega arith, omega arith, omega arith),
  ((omega arith, omega arith, omega arith), ((omega arith, omega arith, omega arith), tt)),
)

abbrev fix_of : ℕ → Fix ℕ ℕ
fix_of time = record {
  quality = 1;
  latitude = 0;
  longitude = 0;
  height = 0;
  altitude = 0;
  speed = 0;
  bearing = 0;
  hdop = 0;
  hpe = 0;
  local_time = 0;
  gps_time = time;
  timetag = 0;
  sv_in_fix = 0;
  prn = [];
}

abbrev event : ℕ → GpsData ℕ ℕ
event time = record { fix = some (fix_of time); satellites = [] }

abbrev events : List (GpsData ℕ ℕ)
events = event 1 ∷ event 1 ∷ record { fix = none; satellites = [] } ∷ event 2 ∷ []

events_run : get_fixes [] events ≡ fix_of 1 ∷ fix_of 2 ∷ []
unfolding get_fixes
events_run = refl

get_fixes-IsKept_example :
    IsKept (get_fixes (fix_of 1 ∷ []) events) (last_received (last_gps_time (fix_of 1 ∷ [])) events)
get_fixes-IsKept_example = get_fixes-IsKept events (fix_of 1 ∷ []) tt

abbrev town : World
town = record {
  AP = ℕ;
  Cell = ℕ;
  Location = Bytes;
  D = ℕ;
  F = ℕ;
  version = codes "1.0";
  md4 = λ s. s;
  location_rq = λ key user aps cells fixes. key ++ user;
  parse_location_rs = λ s. some (s ∷ []);
  wifi_open = some ok;
  hardware_mac = (ok, 1 ∷ 2 ∷ 3 ∷ 4 ∷ 5 ∷ 6 ∷ []);
  scan_event = completed (7 ∷ []);
  cell_instance = true;
  imei = (ok, codes "49015420323751");
  cells = [];
  gps_events = events;
  system = linux;
  post = λ header request. record { code = ok; status = 200; data_ = request };
}

town_run : (shlc_location town (codes "key")).location ≡ some (codes "key060504030201")
unfolding shlc_location get_device_username get_location read_response scan get_fixes
town_run = refl

shlc_location-cases_example :
    GaveUp town (shlc_location town (codes "key"))
    ⊎ IsAnswered town (codes "key") (shlc_location town (codes "key"))
shlc_location-cases_example = shlc_location-cases town (codes "key")

abbrev answer : Response
answer = record { code = ok; status = 200; data_ = codes "here" }
