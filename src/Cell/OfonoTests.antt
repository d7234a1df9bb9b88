-- ===== src/Cell/OfonoTests.antt =====
-- Runs of the ofono adapter on concrete answers.
use precision_location_lite.Base.{
  ℕ, ◌≡◌, refl, Bool, true, false, List, [], ◌∷◌, Option, none, some, codes, Bytes,
}
use precision_location_lite.Base.Int.{pos, negsuc}
use precision_location_lite.Cell.GlobalId.{made_gsm}
use precision_location_lite.Cell.Scanned.{ScannedCellTower}
use precision_location_lite.Cell.Ofono.{
  Answer, refused, answered, Network, CellNotice, cell_changed, cell_error, property_changes,
  Members, Bus, get_imei,
}
use precision_location_lite.Cell.Ofono.Reports.{told, IsNews, Follows, property_changes-IsNews}
use precision_location_lite.Api.Client.{ok, error}

abbrev network : Option ℕ → Network
network cell_id = record {
  technology = some (codes "gsm");
  mcc = some (codes "244");
  mnc = some (codes "5");
  cell_id = cell_id;
  lac = some 3001;
  strength = some 40;
}

abbrev scanned_at : ℕ → ScannedCellTower
scanned_at tick = record {
  cell = made_gsm 244 5 3001 21845;
  timing = pos 0;
  rssi = negsuc 69;
  timestamp = tick;
}

-- The tower appears, stays, and is lost after a failed call.
abbrev changes : List (ℕ × Answer Network)
changes =
    (10, answered (network (some 21845)))
    ∷ (20, answered (network (some 21845)))
    ∷ (30, refused)
    ∷ (40, answered (network none))
    ∷ []

abbrev notices : List CellNotice
notices = cell_changed (scanned_at 10 ∷ []) ∷ cell_error error ∷ cell_changed [] ∷ []

changes_told : property_changes changes none ≡ some (none, notices)
unfolding property_changes precision_location_lite.Cell.compare
changes_told = refl

property_changes-IsNews_example :
    (told none notices ≡ none) × IsNews none notices × Follows none changes none
property_changes-IsNews_example = property_changes-IsNews changes none none notices changes_told

abbrev members : Bool → Bytes → Members
members connection imei = record {
  connection = connection;
  proxy = connection;
  current_modem = codes "/ril_0";
  imei = imei;
  last_cell = none;
}

abbrev bus : Bus
bus = record {
  connects = true;
  modems = answered ((codes "/ril_0", true) ∷ []);
  network = answered (network none);
  tick = 7;
  serial = answered (some (codes "356938035643809"));
}

imei_told :
    get_imei bus (members false [])
    ≡ some (ok, codes "356938035643809", members false (codes "356938035643809"), [])
unfolding get_imei
imei_told = refl
