-- ===== src/Api/Request.antt =====
-- `Protocol::locationRQ` of src/api/Protocol.cpp: the text of a request, as the pieces that are
-- appended to `out`. A failed `assert`, and a read past the end of a buffer, is `none`. Printing a `double` by "%.6f" and the tests on
-- floating-point numbers are parameters.
pub mod Document
pub mod Pieces
pub mod Refines
pub mod Printable
pub mod Reads
pub mod Texts
pub mod Tree
use precision_location_lite.Base.{
  ℕ, Bool, true, false, not, ◌&&◌, List, [], ◌∷◌, ◌++◌, Option, none, some, ◌==◌, if◌then◌else◌,
  ◌>>=◌, Bytes, codes, length, take, ltb,
}
use precision_location_lite.Base.Int.{ℤ, pos, negsuc, ltb_ℤ, leb_ℤ, is_zero}
use precision_location_lite.Base.Libc.{print_int}
use precision_location_lite.Timer.{delta}
use precision_location_lite.Wifi.Mac
use precision_location_lite.Wifi.AccessPoint.{ScannedAccessPoint}
use precision_location_lite.Cell.{CellTower, CellTowerType, unknown, gsm, umts, lte}
use precision_location_lite.Cell.Scanned.{ScannedCellTower}
use precision_location_lite.Gps.{Fix}
use precision_location_lite.Api.Xml.{xml_escape, xml_utf8_test}

-- `double` and `float`: "%.6f", the test against the largest `double`, the test for 0, and the cast
-- from `float` to `int`.
pub record Printing : Type 1 where
  pub D : Type 0
  pub F : Type 0
  pub print_double : D → Bytes
  pub is_max : D → Bool
  pub is_zero_float : F → Bool
  pub int_of_float : F → ℤ

-- `xml << a << b << c`
abbrev pub concat : List Bytes → Bytes
concat [] = []
concat (s ∷ more) = s ++ concat more

abbrev pub version : Bytes
version = codes "2.23"

abbrev pub namespace_uri : Bytes
namespace_uri = codes "http://skyhookwireless.com/wps/2005"

-- "%d" and "%ld"
abbrev pub print_long : ℤ → Bytes
print_long n = print_int 0 n

abbrev pub x_version : Bytes
x_version =
    concat (codes "xmlns='" ∷ namespace_uri ∷ codes "' version='" ∷ version ∷ codes "'" ∷ [])

abbrev pub x_authentication : Bytes → Bytes → Bytes
x_authentication key username = concat (
    codes "<authentication version='2.2'><key key='"
    ∷ key
    ∷ codes "' username='"
    ∷ username
    ∷ codes "'/></authentication>"
    ∷ [])

abbrev pub x_age : ℤ → Bytes
x_age age = concat (codes "<age>" ∷ print_long age ∷ codes "</age>" ∷ [])

abbrev pub x_positive_age : ℤ → Bytes
x_positive_age age = if ltb_ℤ (pos 0) age then x_age age else []

-- The SSID is sent if it is wanted, not empty and valid.
unfoldable pub x_ssid : Bool → Bytes → Option Bytes
x_ssid include_ssid ssid =
    if include_ssid && not (length ssid == 0)
    then (do
      valid ← xml_utf8_test ssid
      if valid
          then (do
            escaped ← xml_escape ssid
            some (concat (codes "<ssid>" ∷ escaped ∷ codes "</ssid>" ∷ [])))
          else some [])
    else some []

unfoldable pub x_access_point : ℕ → Bool → ScannedAccessPoint → Option Bytes
unfolding delta
x_access_point now include_ssid ap = do
  ssid ← x_ssid include_ssid ap.ssid
  some (
      concat (
        codes "<access-point><mac>"
        ∷ Mac.to_string ap.mac
        ∷ codes "</mac>"
        ∷ ssid
        ∷ codes "<signal-strength>"
        ∷ print_long ap.rssi
        ∷ codes "</signal-strength>"
        ∷ x_positive_age (delta now ap.timestamp)
        ∷ codes "</access-point>"
        ∷ []))

unfoldable pub x_access_points : ℕ → Bool → List ScannedAccessPoint → Option Bytes
x_access_points now include_ssid [] = some []
x_access_points now include_ssid (ap ∷ aps) = do
  xml ← x_access_point now include_ssid ap
  more ← x_access_points now include_ssid aps
  some (xml ++ more)

-- The code of the cell, by its type; the getters are called on a type that is not unknown.
abbrev pub x_area : CellTower → Bytes
x_area cell = concat (
    codes "<mcc>"
    ∷ print_long (pos cell.mcc)
    ∷ codes "</mcc><mnc>"
    ∷ print_long (pos cell.mnc)
    ∷ codes "</mnc>"
    ∷ codes "<lac>"
    ∷ print_long cell.lac
    ∷ codes "</lac><ci>"
    ∷ print_long cell.ci
    ∷ codes "</ci>"
    ∷ [])

abbrev pub x_cell : CellTowerType → CellTower → Option Bytes
x_cell unknown cell = none
x_cell gsm cell = some (codes "<gsm-tower>" ++ x_area cell)
x_cell umts cell = some (codes "<umts-tower>" ++ x_area cell)
x_cell lte cell = some (
    concat (
      codes "<lte-tower><mcc>"
      ∷ print_long (pos cell.mcc)
      ∷ codes "</mcc><mnc>"
      ∷ print_long (pos cell.mnc)
      ∷ codes "</mnc><eucid>"
      ∷ print_long cell.ci
      ∷ codes "</eucid>"
      ∷ []))

abbrev pub x_cell_end : CellTowerType → Bytes
x_cell_end gsm = codes "</gsm-tower>"
x_cell_end umts = codes "</umts-tower>"
x_cell_end other = codes "</lte-tower>"

abbrev pub x_timing_advance : ℤ → Bytes
x_timing_advance timing =
    if is_zero timing
    then []
    else concat (codes "<timing-advance>" ∷ print_long timing ∷ codes "</timing-advance>" ∷ [])

unfoldable pub x_cell_tower : ℕ → ScannedCellTower → Option Bytes
unfolding delta
x_cell_tower now scanned = do
  xml ← x_cell scanned.cell.type scanned.cell
  some (
      concat (
        xml
        ∷ codes "<rssi>"
        ∷ print_long scanned.rssi
        ∷ codes "</rssi>"
        ∷ x_timing_advance scanned.timing
        ∷ x_positive_age (delta now scanned.timestamp)
        ∷ x_cell_end scanned.cell.type
        ∷ []))

unfoldable pub x_cell_towers : ℕ → List ScannedCellTower → Option Bytes
x_cell_towers now [] = some []
x_cell_towers now (cell ∷ cells) = do
  xml ← x_cell_tower now cell
  more ← x_cell_towers now cells
  some (xml ++ more)

-- `operator<<` for a `double`, whose text has `n` bytes without the NUL: `snprintf` leaves the first 31
-- and a NUL in the buffer of 32 bytes, and `append` takes n bytes from there, which is `none` where
-- they go past its end.
abbrev pub append_buffer : Bytes → Option Bytes
append_buffer text =
    if ltb (length text) 32
    then some text
    else if length text == 32
    then some (take 31 text ++ (0 ∷ []))
    else none

module _ (p : Printing) where
  abbrev pub x_double : p.D → Option Bytes
  x_double d = append_buffer (p.print_double d)

  -- An element that is sent only if it is set.
  unfoldable pub x_optional : Bool → Bytes → Option Bytes → Bytes → Option Bytes
  x_optional is_set start value end =
      if is_set then (do text ← value; some (concat (start ∷ text ∷ end ∷ []))) else some []

  unfoldable pub x_gps_location : ℕ → Fix p.D p.F → Option Bytes
  unfolding delta x_optional
  x_gps_location now fix = do
    latitude ← x_double fix.latitude
    longitude ← x_double fix.longitude
    hpe ←
        x_optional (not (p.is_zero_float fix.hpe)) (codes "<hpe>")
          (some (print_long (p.int_of_float fix.hpe))) (codes "</hpe>")
    altitude ←
        x_optional (not (p.is_max fix.altitude)) (codes "<altitude>") (x_double fix.altitude)
          (codes "</altitude>")
    height ←
        x_optional (not (p.is_max fix.height)) (codes "<height>") (x_double fix.height)
          (codes "</height>")
    speed ←
        x_optional (not (p.is_max fix.speed)) (codes "<speed>") (x_double fix.speed)
          (codes "</speed>")
    bearing ←
        x_optional (not (p.is_max fix.bearing)) (codes "<bearing>") (x_double fix.bearing)
          (codes "</bearing>")
    some (
        concat (
          codes "<gps-location fix='"
          ∷ print_long (pos fix.quality)
          ∷ codes "' nsat='"
          ∷ print_long (pos fix.sv_in_fix)
          ∷ codes "'><latitude>"
          ∷ latitude
          ∷ codes "</latitude><longitude>"
          ∷ longitude
          ∷ codes "</longitude>"
          ∷ hpe
          ∷ altitude
          ∷ height
          ∷ speed
          ∷ bearing
          ∷ (if leb_ℤ (pos 0) (delta now fix.local_time)
              then x_age (delta now fix.local_time)
              else [])
          ∷ codes "</gps-location>"
          ∷ []))

  unfoldable pub x_gps_locations : ℕ → List (Fix p.D p.F) → Option Bytes
  x_gps_locations now [] = some []
  x_gps_locations now (fix ∷ fixes) = do
    xml ← x_gps_location now fix
    more ← x_gps_locations now fixes
    some (xml ++ more)

  -- `Scan` of src/api/Wrappers.h
  pub record Scan : Type 0 where
    pub aps : List ScannedAccessPoint
    pub cells : List ScannedCellTower
    pub gps : List (Fix p.D p.F)

  -- `now` is the timer that is started in here.
  unfoldable pub x_location_common : ℕ → Bytes → Bytes → Scan → Bool → Option Bytes
  x_location_common now key username scan include_ssid = do
    aps ← x_access_points now include_ssid scan.aps
    cells ← x_cell_towers now scan.cells
    gps ← x_gps_locations now scan.gps
    some (concat (x_authentication key username ∷ aps ∷ cells ∷ gps ∷ []))

  unfoldable pub location_rq : ℕ → Bytes → Bytes → Scan → Bool → Option Bytes
  unfolding x_location_common
  location_rq now key username scan include_ssid = do
    common ← x_location_common now key username scan include_ssid
    some (
        concat (codes "<LocationRQ " ∷ x_version ∷ codes ">" ∷ common ∷ codes "</LocationRQ>" ∷ []))
