-- ===== src/Cell/Scanned.antt =====
-- `ScannedCellTower` of include/spi/ScannedCellTower.h. A failed `assert` is `none`.
use precision_location_lite.Base.{
  ℕ, Bool, not, ◌&&◌, Option, none, some, ◌++◌, ◌∷◌, if◌then◌else◌, ◌>>=◌, Bytes,
}
use precision_location_lite.Base.Int.{ℤ, pos, negsuc, leb_ℤ, ltb_ℤ, sub_ℤ, is_zero, to_short}
use precision_location_lite.Base.Libc.{print_int}
use precision_location_lite.Cell.{
  CellTower, unknown, gsm, umts, lte, type_eq, first_nonzero, is_null, has_lac, get_lac,
}
use precision_location_lite.Cell
use precision_location_lite.Timer

pub record ScannedCellTower : Type 0 where
  pub cell : CellTower
  pub timing : ℤ
  pub rssi : ℤ
  pub timestamp : ℕ

-- The constructors, whose `rssi` is a `short`; the one without a time takes `tick()`.
unfoldable pub new_scanned : CellTower → ℤ → ℤ → ℕ → Option ScannedCellTower
new_scanned cell timing rssi timestamp =
    let dbm = to_short rssi in
    if leb_ℤ (negsuc 254) dbm && leb_ℤ dbm (pos 0)
    then some (record { cell = cell; timing = timing; rssi = dbm; timestamp = timestamp })
    else none

unfoldable pub compare_scanned : ScannedCellTower → ScannedCellTower → Option ℤ
unfolding Cell.compare Timer.compare
compare_scanned s t = do
  r ← Cell.compare s.cell t.cell
  some (
      first_nonzero r (
        first_nonzero (Timer.compare s.timestamp t.timestamp)
          (first_nonzero (sub_ℤ s.rssi t.rssi) (sub_ℤ s.timing t.timing))))

abbrev pub scanned_to_string : ScannedCellTower → Bytes
scanned_to_string s =
    Cell.to_string s.cell ++ (b',' ∷ (print_int 0 s.rssi ++ (b',' ∷ Timer.to_string s.timestamp)))

-- The function objects `CellSame`, `CellLess` and `CellEqualsTo`.
abbrev pub cell_same : ScannedCellTower → ScannedCellTower → Option Bool
cell_same s t = do r ← Cell.compare s.cell t.cell; some (is_zero r)

abbrev pub cell_less : ScannedCellTower → ScannedCellTower → Option Bool
cell_less s t = do r ← Cell.compare s.cell t.cell; some (ltb_ℤ r (pos 0))

abbrev pub cell_equals_to : ScannedCellTower → CellTower → Option Bool
cell_equals_to s c = Cell.equal s.cell c

-- `LacSame`, `LacLess`, `HasNoLac`, `IsNotGsmOrUmts` and `IsUmts`.
abbrev pub lac_same : ScannedCellTower → ScannedCellTower → Option Bool
lac_same s t = do a ← get_lac s.cell; b ← get_lac t.cell; some (is_zero (sub_ℤ a b))

abbrev pub lac_less : ScannedCellTower → ScannedCellTower → Option Bool
lac_less s t = do a ← get_lac s.cell; b ← get_lac t.cell; some (ltb_ℤ a b)

abbrev pub has_no_lac : ScannedCellTower → Bool
has_no_lac s = not (has_lac s.cell)

abbrev pub is_not_gsm_or_umts : ScannedCellTower → Bool
is_not_gsm_or_umts s = not (type_eq s.cell.type gsm) && not (type_eq s.cell.type umts)

abbrev pub is_umts : ScannedCellTower → Bool
is_umts s = type_eq s.cell.type umts
