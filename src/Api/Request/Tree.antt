-- ===== src/Api/Request/Tree.antt =====
-- The document that a request stands for.
use precision_location_lite.Base.{
  ℕ, Bool, false, not, ◌&&◌, List, [], ◌∷◌, Option, none, some, ◌==◌, if◌then◌else◌, Bytes, codes,
  length,
}
use precision_location_lite.Base.Int.{ℤ, pos, ltb_ℤ, leb_ℤ, is_zero}
use precision_location_lite.Timer.{delta}
use precision_location_lite.Wifi.Mac
use precision_location_lite.Wifi.AccessPoint.{ScannedAccessPoint}
use precision_location_lite.Cell.{CellTower, CellTowerType, gsm, umts, lte}
use precision_location_lite.Cell.Scanned.{ScannedCellTower}
use precision_location_lite.Gps.{Fix}
use precision_location_lite.Api.Xml.{xml_utf8_test}
use precision_location_lite.Api.Request.{Printing, Scan, version, namespace_uri, print_long}
use precision_location_lite.Api.Request.Document.{Node, leaf, empty, branch, Nodes, nil, cons}

-- An element in front of others, if it is there.
unfoldable pub optional : Bool → Node → Nodes → Nodes
optional present node nodes = if present then cons node nodes else nodes

-- A number as the text of an element.
abbrev pub number : Bytes → ℤ → Node
number name n = leaf name (print_long n)

abbrev pub is_true : Option Bool → Bool
is_true (some b) = b
is_true none = false

-- Whether the SSID of an access point is sent.
abbrev pub is_sent : Bool → Bytes → Bool
is_sent include_ssid ssid = include_ssid && not (length ssid == 0) && is_true (xml_utf8_test ssid)

unfoldable pub access_point : ℕ → Bool → ScannedAccessPoint → Node
unfolding optional delta
access_point now include_ssid ap =
    let age = delta now ap.timestamp in
    branch (codes "access-point") [] (
      cons (leaf (codes "mac") (Mac.to_string ap.mac)) (
        optional (is_sent include_ssid ap.ssid) (leaf (codes "ssid") ap.ssid) (
          cons (number (codes "signal-strength") ap.rssi)
            (optional (ltb_ℤ (pos 0) age) (number (codes "age") age) nil))))

abbrev pub cell_name : CellTowerType → Bytes
cell_name gsm = codes "gsm-tower"
cell_name umts = codes "umts-tower"
cell_name other = codes "lte-tower"

-- The code of a cell in front of what else is sent of it.
unfoldable pub cell_code : CellTowerType → CellTower → Nodes → Nodes
cell_code lte cell nodes =
    cons (number (codes "mcc") (pos cell.mcc))
      (cons (number (codes "mnc") (pos cell.mnc)) (cons (number (codes "eucid") cell.ci) nodes))
cell_code other cell nodes = cons (number (codes "mcc") (pos cell.mcc)) (
    cons (number (codes "mnc") (pos cell.mnc))
      (cons (number (codes "lac") cell.lac) (cons (number (codes "ci") cell.ci) nodes)))

unfoldable pub cell_tower : ℕ → ScannedCellTower → Node
unfolding optional delta cell_code
cell_tower now scanned =
    let age = delta now scanned.timestamp in
    branch (cell_name scanned.cell.type) [] (
      cell_code scanned.cell.type scanned.cell (
        cons (number (codes "rssi") scanned.rssi) (
          optional (not (is_zero scanned.timing)) (number (codes "timing-advance") scanned.timing)
            (optional (ltb_ℤ (pos 0) age) (number (codes "age") age) nil))))

module _ (p : Printing) where
  unfoldable pub gps_location : ℕ → Fix p.D p.F → Node
  unfolding optional delta
  gps_location now fix =
      let age = delta now fix.local_time in
      branch (codes "gps-location")
        ((codes "fix", print_long (pos fix.quality))
          ∷ (codes "nsat", print_long (pos fix.sv_in_fix))
          ∷ [])
        (cons (leaf (codes "latitude") (p.print_double fix.latitude)) (
          cons (leaf (codes "longitude") (p.print_double fix.longitude)) (
            optional (not (p.is_zero_float fix.hpe)) (number (codes "hpe") (p.int_of_float fix.hpe))
              (optional (not (p.is_max fix.altitude))
                (leaf (codes "altitude") (p.print_double fix.altitude))
                (optional (not (p.is_max fix.height))
                  (leaf (codes "height") (p.print_double fix.height))
                  (optional (not (p.is_max fix.speed))
                    (leaf (codes "speed") (p.print_double fix.speed))
                    (optional (not (p.is_max fix.bearing))
                      (leaf (codes "bearing") (p.print_double fix.bearing))
                      (optional (leb_ℤ (pos 0) age) (number (codes "age") age) nil))))))))

-- A list of elements in front of others.
unfoldable pub each : {A : Type 0} → (A → Node) → List A → Nodes → Nodes
each node [] nodes = nodes
each node (x ∷ xs) nodes = cons (node x) (each node xs nodes)

abbrev pub authentication : Bytes → Bytes → Node
authentication key username =
    branch (codes "authentication") ((codes "version", codes "2.2") ∷ [])
      (cons (empty (codes "key") ((codes "key", key) ∷ (codes "username", username) ∷ [])) nil)

unfoldable pub location_request : (p : Printing) → ℕ → Bytes → Bytes → Scan p → Bool → Node
unfolding access_point cell_tower gps_location each
location_request p now key username scan include_ssid =
    branch (codes "LocationRQ") ((codes "xmlns", namespace_uri) ∷ (codes "version", version) ∷ []) (
      cons (authentication key username) (
        each (access_point now include_ssid) scan.aps
          (each (cell_tower now) scan.cells (each (gps_location p now) scan.gps nil))))
