-- ===== src/Cell/Tests.antt =====
-- Runs on concrete cells.
use precision_location_lite.Base.{
  ℕ, ◌≡◌, ◌↔◌, refl, arith, Option, none, some, codes, if◌then◌else◌, ltb, ◌&&◌,
}
use precision_location_lite.Base.Int.{pos}
use precision_location_lite.Cell.{
  CellTower, null_tower, gsm_tower, lte_tower, compare, cell_global_id, to_string,
}
use precision_location_lite.Cell.Created.{lte_tower_cases, gsm_tower_cases}
use precision_location_lite.Cell.GlobalId.{made_gsm, gsm_made, cell_global_id-compare}

abbrev helsinki : CellTower
helsinki = made_gsm 244 5 3001 21845

made : gsm_tower 244 5 (pos 21845) (pos 3001) ≡ some helsinki
unfolding gsm_tower
made = refl

unused_area : gsm_tower 244 5 (pos 21845) (pos 0xFFFE) ≡ some null_tower
unfolding gsm_tower
unused_area = refl

printed : to_string helsinki ≡ codes "GSM-244-005-21845-3001--1"
unfolding precision_location_lite.Base.Libc.print_int
printed = refl

packed : cell_global_id helsinki ≡ some 1073145020241237
unfolding cell_global_id
packed = refl

cell_global_id-compare_example :
    (cell_global_id helsinki ≡ cell_global_id (made_gsm 244 91 3001 21845))
    ↔ (compare helsinki (made_gsm 244 91 3001 21845) ≡ some (pos 0))
cell_global_id-compare_example =
    cell_global_id-compare helsinki (made_gsm 244 91 3001 21845)
      (gsm_made 244 5 3001 21845 (omega arith) (omega arith) (omega arith) (omega arith))
      (gsm_made 244 91 3001 21845 (omega arith) (omega arith) (omega arith) (omega arith)) refl

-- The tracking area code of 2 ^ 16 fails an assertion.
lte_tower_cases_example : lte_tower 244 5 (pos 7000) (pos 65536) ≡ none
lte_tower_cases_example = lte_tower_cases 244 5 (pos 7000) (pos 65536)

gsm_tower_cases_example : gsm_tower 244 5 (pos 21845) (pos 3001) ≡ some helsinki
gsm_tower_cases_example = gsm_tower_cases 244 5 (pos 21845) (pos 3001)
