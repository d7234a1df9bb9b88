-- ===== src/Cell/Ofono.antt =====
-- src/spi/cell/ofono/OfonoCellAdapter.cpp: the cell adapter over ofono. What D-Bus answers is an
-- argument. A failed `assert` is `none`.
pub mod Reports
use precision_location_lite.Base.{
  ℕ, ◌+◌, ◌%◌, ◌^◌, Bool, true, false, not, ◌&&◌, ◌||◌, List, [], ◌∷◌, ◌++◌, Option, none, some,
  if◌then◌else◌, ◌>>=◌, Bytes, bytes_eq, codes,
}
use precision_location_lite.Base.Int.{ℤ, pos, negsuc, signed32, sub_ℤ, is_zero, to_ushort}
use precision_location_lite.Base.Libc.{atoi}
use precision_location_lite.Api.Client.{ErrorCode, ok, error, is_empty}
use precision_location_lite.Cell.{
  CellTower, CellTowerType, unknown, gsm, umts, lte, null_tower, is_null, gsm_tower, umts_tower,
  lte_tower, equal,
}
use precision_location_lite.Cell.Scanned.{ScannedCellTower, new_scanned}

-- A call over D-Bus that fails, one that answers with a null pointer, and one with an answer.
pub data Answer (A : Type 0) : Type 0 where
  refused null_answer : Answer A
  answered : A → Answer A

-- The properties of the network that are read, where they are there: texts, unsigned numbers of 32
-- bits, and a byte.
pub record Network : Type 0 where
  pub technology : Option Bytes
  pub mcc : Option Bytes
  pub mnc : Option Bytes
  pub cell_id : Option ℕ
  pub lac : Option ℕ
  pub strength : Option ℕ

-- `toCellType`
unfoldable pub to_cell_type : Option Bytes → CellTowerType
unfolding bytes_eq
to_cell_type none = unknown
to_cell_type (some tech) =
    if bytes_eq tech (codes "gsm") || bytes_eq tech (codes "edge")
    then gsm
    else if bytes_eq tech (codes "umts") || bytes_eq tech (codes "hspa")
    then umts
    else if bytes_eq tech (codes "lte")
    then lte
    else unknown

-- The `switch`, without WPS_OFONO_DEFAULT_TO_GSM.
abbrev pub make_tower : CellTowerType → ℕ → ℕ → ℤ → ℤ → Option CellTower
make_tower gsm mcc mnc ci lac = gsm_tower mcc mnc ci lac
make_tower umts mcc mnc ci lac = umts_tower mcc mnc ci lac
make_tower lte mcc mnc ci lac = lte_tower mcc mnc ci lac
make_tower unknown mcc mnc ci lac = some null_tower

abbrev pub lac_of : Option ℕ → ℤ
lac_of none = negsuc 0
lac_of (some lac) = signed32 lac

-- `if (tower) scannedCell.reset(new ScannedCellTower(...))`
unfoldable pub scan_tower : ℕ → CellTower → ℕ → Option (Option ScannedCellTower)
unfolding new_scanned
scan_tower tick tower strength = if is_null tower then some none else (do
  scanned ← new_scanned tower (pos 0) (sub_ℤ (pos strength) (pos 110)) tick
  some (some scanned))

-- The branch on the properties that must be there.
unfoldable pub read_network :
    ℕ
    → Network
    → Option Bytes
    → Option Bytes
    → Option ℕ
    → Option ℕ
    → Option (Option ScannedCellTower)
unfolding to_cell_type scan_tower atoi gsm_tower umts_tower lte_tower
read_network tick n (some mcc) (some mnc) (some cell_id) (some strength) = do
  tower ←
      make_tower (to_cell_type n.technology) (to_ushort (atoi mcc)) (to_ushort (atoi mnc))
        (signed32 cell_id) (lac_of n.lac)
  scan_tower tick tower strength
read_network tick n mcc mnc cell_id strength = some none

-- `getScannedCellTower`; `tick` is when the tower's timer is started.
unfoldable pub get_scanned_cell_tower :
    ℕ → Answer Network → Option (ErrorCode × Option ScannedCellTower)
unfolding read_network
get_scanned_cell_tower tick refused = some (error, none)
get_scanned_cell_tower tick null_answer = some (error, none)
get_scanned_cell_tower tick (answered n) = do
  scanned ← read_network tick n n.mcc n.mnc n.cell_id n.strength
  some (ok, scanned)

-- What the listener is told.
pub data CellNotice : Type 0 where
  cell_changed : List ScannedCellTower → CellNotice
  cell_error : ErrorCode → CellNotice

-- Whether the tower and the strength are those that were reported last.
abbrev pub is_same : ScannedCellTower → ScannedCellTower → Option Bool
is_same last scanned = do
  same ← equal last.cell scanned.cell
  some (same && is_zero (sub_ℤ last.rssi scanned.rssi))

abbrev pub is_cached : Option ScannedCellTower → ScannedCellTower → Option Bool
is_cached none scanned = some false
is_cached (some last) scanned = is_same last scanned

-- `reportCell`, behind the call of `getScannedCellTower`: `_lastCell`, and what is told.
unfoldable pub report :
    ErrorCode
    → Option ScannedCellTower
    → Option ScannedCellTower
    → Option (Option ScannedCellTower × List CellNotice)
report ok none none = some (none, [])
report ok none (some last) = some (none, cell_changed [] ∷ [])
report ok (some scanned) last = do
  cached ← is_cached last scanned
  some (if cached then (last, []) else (some scanned, cell_changed (scanned ∷ []) ∷ []))
report code scanned last = some (last, cell_error code ∷ [])

unfoldable pub report_cell :
    ℕ
    → Answer Network
    → Option ScannedCellTower
    → Option (Option ScannedCellTower × List CellNotice)
unfolding get_scanned_cell_tower report
report_cell tick network last = do
  (code, scanned) ← get_scanned_cell_tower tick network
  report code scanned last

-- The signal's callback for a sequence of changes, each at its tick.
unfoldable pub property_changes :
    List (ℕ × Answer Network)
    → Option ScannedCellTower
    → Option (Option ScannedCellTower × List CellNotice)
unfolding report_cell
property_changes [] last = some (last, [])
property_changes ((tick, network) ∷ more) last = do
  (last, notices) ← report_cell tick network last
  (last, others) ← property_changes more last
  some (last, notices ++ others)

-- `getCurrentModem`: the first modem that is online.
abbrev pub first_online : List (Bytes × Bool) → Bytes
first_online [] = []
first_online ((name, online) ∷ modems) = if online then name else first_online modems

abbrev pub get_current_modem : Answer (List (Bytes × Bool)) → Bytes
get_current_modem refused = []
get_current_modem null_answer = []
get_current_modem (answered modems) = first_online modems

-- The members, and what D-Bus answers during a call.
pub record Members : Type 0 where
  pub connection : Bool
  pub proxy : Bool
  pub current_modem : Bytes
  pub imei : Bytes
  pub last_cell : Option ScannedCellTower

pub record Bus : Type 0 where
  pub connects : Bool
  pub modems : Answer (List (Bytes × Bool))
  pub network : Answer Network
  pub tick : ℕ
  pub serial : Answer (Option Bytes)

abbrev pub close : Members → Members
close m = record m { connection = false; proxy = false }

-- `open`, with a listener that is set.
unfoldable pub open_adapter : Bus → Members → Option (ErrorCode × Members × List CellNotice)
unfolding report_cell
open_adapter bus m =
    let opened = record m { connection = true; current_modem = get_current_modem bus.modems } in
    if m.connection
    then some (ok, m, [])
    else if not bus.connects
    then some (error, m, [])
    else if is_empty (get_current_modem bus.modems)
    then some (error, close opened, [])
    else (do
      (last, notices) ← report_cell bus.tick bus.network m.last_cell
      some (ok, record opened { proxy = true; last_cell = last }, notices))

abbrev pub serial_of : Answer (Option Bytes) → Option Bytes
serial_of (answered serial) = serial
serial_of refused = none
serial_of null_answer = none

abbrev pub keep_imei : Option Bytes → Members → ErrorCode × Bytes × Members
keep_imei none m = (error, [], m)
keep_imei (some serial) m = (ok, serial, record m { imei = serial })

-- `getIMEI` on an adapter that is open; `needs_closing` says whether it was opened for the call.
unfoldable pub read_imei : Bus → Bool → Members → ErrorCode × Bytes × Members
read_imei bus needs_closing m =
    let (code, imei, m') = keep_imei (serial_of bus.serial) m in
    (code, imei, if needs_closing then close m' else m')

unfoldable pub get_imei : Bus → Members → Option (ErrorCode × Bytes × Members × List CellNotice)
unfolding open_adapter read_imei
get_imei bus m =
    if not (is_empty m.imei)
    then some (ok, m.imei, m, [])
    else if m.connection
    then (let read = read_imei bus false m in some (read.0, read.1, read.2, []))
    else (do
      (code, m', notices) ← open_adapter bus m
      let read = read_imei bus true m'
      some
          (elim code [ ok ↦ (read.0, read.1, read.2, notices) | other ↦ (other, [], m', notices) ]))
