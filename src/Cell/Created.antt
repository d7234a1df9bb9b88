-- ===== src/Cell/Created.antt =====
-- What the factory functions of `CellTower` create.
use precision_location_lite.Base.{
  ℕ, ◌/◌, ◌^◌, Bool, true, false, none, some, ◌≡◌, inl, inr, arith, some_inj, sym, ◌∙◌, Bool-cases,
  if◌then◌else◌, leb, ltb, ◌&&◌, not, ◌==◌,
}
use mathlib.Core.Path.{subst}
use precision_location_lite.Base.Int.{ℤ, pos, negsuc, pos_part}
use precision_location_lite.Cell.{
  gsm, umts, lte, CellTower, null_tower, gsm_tower, umts_tower, lte_tower, is_null,
}
use precision_location_lite.Cell.GlobalId.{IsTower, gsm_made, umts_made, lte_made}

-- The mobile country codes in use start with 2 to 7 or 9.
abbrev pub mcc_mnc_in_use : ℕ → ℕ → Bool
mcc_mnc_in_use mcc mnc = leb 200 mcc && (leb mcc 999 && (not (mcc / 100 == 8) && leb mnc 999))

abbrev pub lies_below : ℕ → ℤ → Bool
lies_below k (pos n) = ltb n k
lies_below k (negsuc n) = false

abbrev pub lac_in_use : ℤ → Bool
lac_in_use lac = lies_below (2 ^ 16) lac && not (pos_part lac == 0) && not (pos_part lac == 0xFFFE)

-- The factory functions never fail an assertion: they make a tower of what they are given if the
-- codes of country and network are in use, the cell number fits into 16 bits for GSM and 28 bits else
-- and, for GSM and UMTS, the area code is neither 0 nor 0xFFFE and fits into 16 bits; and else they
-- return the null tower. For LTE this wants a tracking area code that fits into 16 bits, or is
-- negative.
pub gsm_tower_cases :
    (mcc mnc : ℕ) (ci lac : ℤ)
    → gsm_tower mcc mnc ci lac
      ≡ some (
          if mcc_mnc_in_use mcc mnc && lac_in_use lac && lies_below (2 ^ 16) ci
          then record { type = gsm; mcc = mcc; mnc = mnc; ci = ci; lac = lac; tac = negsuc 0 }
          else null_tower)
unfolding gsm_tower
gsm_tower_cases mcc mnc (pos ci) (pos lac) = ground arith
gsm_tower_cases mcc mnc (pos ci) (negsuc lac) = ground arith
gsm_tower_cases mcc mnc (negsuc ci) (pos lac) = ground arith
gsm_tower_cases mcc mnc (negsuc ci) (negsuc lac) = ground arith

pub umts_tower_cases :
    (mcc mnc : ℕ) (ci lac : ℤ)
    → umts_tower mcc mnc ci lac
      ≡ some (
          if mcc_mnc_in_use mcc mnc && lac_in_use lac && lies_below (2 ^ 28) ci
          then record { type = umts; mcc = mcc; mnc = mnc; ci = ci; lac = lac; tac = negsuc 0 }
          else null_tower)
unfolding umts_tower
umts_tower_cases mcc mnc (pos ci) (pos lac) = ground arith
umts_tower_cases mcc mnc (pos ci) (negsuc lac) = ground arith
umts_tower_cases mcc mnc (negsuc ci) (pos lac) = ground arith
umts_tower_cases mcc mnc (negsuc ci) (negsuc lac) = ground arith

-- A tracking area code from 2 ^ 16 on is not refused, but fails an assertion.
pub lte_tower_cases :
    (mcc mnc : ℕ) (ci tac : ℤ)
    → lte_tower mcc mnc ci tac ≡ (
        if mcc_mnc_in_use mcc mnc && lies_below (2 ^ 28) ci
        then (if ltb 65535 (pos_part tac)
            then none
            else some
                (record { type = lte; mcc = mcc; mnc = mnc; ci = ci; lac = negsuc 0; tac = tac }))
        else some null_tower)
unfolding lte_tower
lte_tower_cases mcc mnc (pos ci) (pos tac) = ground arith
lte_tower_cases mcc mnc (pos ci) (negsuc tac) = ground arith
lte_tower_cases mcc mnc (negsuc ci) (pos tac) = ground arith
lte_tower_cases mcc mnc (negsuc ci) (negsuc tac) = ground arith

gsm_tower-IsTower :
    (mcc mnc : ℕ) (ci lac : ℤ) (c : CellTower)
    → gsm_tower mcc mnc ci lac ≡ some c
    → is_null c ≡ false
    → IsTower c
gsm_tower-IsTower mcc mnc ci lac c h full =
    elim (Bool-cases (mcc_mnc_in_use mcc mnc && lac_in_use lac && lies_below (2 ^ 16) ci)) [
      | inl good ↦
          make ci lac good (some_inj (sym (rw good at (gsm_tower_cases mcc mnc ci lac)) ∙ h))
      | inr bad ↦ absurd (ground (arith, gsm_tower_cases mcc mnc ci lac))
    ]
  where
    make :
        (ci lac : ℤ)
        → (mcc_mnc_in_use mcc mnc && lac_in_use lac && lies_below (2 ^ 16) ci) ≡ true
        → record { type = gsm; mcc = mcc; mnc = mnc; ci = ci; lac = lac; tac = negsuc 0 } ≡ c
        → IsTower c
    make (pos ci) (pos lac) good e =
        subst IsTower e
          (gsm_made mcc mnc lac ci (ground arith) (ground arith) (ground arith) (ground arith))
    make (pos ci) (negsuc lac) good e = ground arith
    make (negsuc ci) (pos lac) good e = ground arith
    make (negsuc ci) (negsuc lac) good e = ground arith

umts_tower-IsTower :
    (mcc mnc : ℕ) (ci lac : ℤ) (c : CellTower)
    → umts_tower mcc mnc ci lac ≡ some c
    → is_null c ≡ false
    → IsTower c
umts_tower-IsTower mcc mnc ci lac c h full =
    elim (Bool-cases (mcc_mnc_in_use mcc mnc && lac_in_use lac && lies_below (2 ^ 28) ci)) [
      | inl good ↦
          make ci lac good (some_inj (sym (rw good at (umts_tower_cases mcc mnc ci lac)) ∙ h))
      | inr bad ↦ absurd (ground (arith, umts_tower_cases mcc mnc ci lac))
    ]
  where
    make :
        (ci lac : ℤ)
        → (mcc_mnc_in_use mcc mnc && lac_in_use lac && lies_below (2 ^ 28) ci) ≡ true
        → record { type = umts; mcc = mcc; mnc = mnc; ci = ci; lac = lac; tac = negsuc 0 } ≡ c
        → IsTower c
    make (pos ci) (pos lac) good e =
        subst IsTower e
          (umts_made mcc mnc lac ci (ground arith) (ground arith) (ground arith) (ground arith))
    make (pos ci) (negsuc lac) good e = ground arith
    make (negsuc ci) (pos lac) good e = ground arith
    make (negsuc ci) (negsuc lac) good e = ground arith

lte_tower-IsTower :
    (mcc mnc : ℕ) (ci tac : ℤ) (c : CellTower)
    → lte_tower mcc mnc ci tac ≡ some c
    → is_null c ≡ false
    → IsTower c
lte_tower-IsTower mcc mnc ci tac c h full =
    elim (Bool-cases (mcc_mnc_in_use mcc mnc && lies_below (2 ^ 28) ci)) [
      | inl good ↦ elim (Bool-cases (ltb 65535 (pos_part tac))) [
        | inl large ↦ absurd (ground (arith, lte_tower_cases mcc mnc ci tac))
        | inr small ↦
            make ci good (some_inj (sym (rw (good, small) at (lte_tower_cases mcc mnc ci tac)) ∙ h))
      ]
      | inr bad ↦ absurd (ground (arith, lte_tower_cases mcc mnc ci tac))
    ]
  where
    make :
        (ci : ℤ)
        → (mcc_mnc_in_use mcc mnc && lies_below (2 ^ 28) ci) ≡ true
        → record { type = lte; mcc = mcc; mnc = mnc; ci = ci; lac = negsuc 0; tac = tac } ≡ c
        → IsTower c
    make (pos ci) good e =
        subst IsTower e (lte_made mcc mnc ci tac (ground arith) (ground arith) (ground arith))
    make (negsuc ci) good e = ground arith
