-- ===== src/Cell/GlobalId.antt =====
-- `getCellGlobalId` packs the codes of a tower into one number.
use Prim.Native.Nat.{bit_or}
use precision_location_lite.Base.{
  ℕ, ◌+◌, ◌*◌, ◌^◌, ◌<◌, true, some, ◌≡◌, ◌↔◌, refl, arith, some_inj, ap,
}
use precision_location_lite.Base.Int.{ℤ, pos, negsuc, low_bits, sub_ℤ}
use precision_location_lite.Base.Masks.{bit_or-disjoint, bit_and-mask}
use precision_location_lite.Cell.Order.{compare_iff}
use precision_location_lite.Cell.{
  gsm, umts, lte, CellTower, compare, cell_global_id, shift_left, mask, widen, type_eq,
}

-- The towers that the factory functions make; see Cell.Created.
abbrev pub made_gsm : ℕ → ℕ → ℕ → ℕ → CellTower
made_gsm mcc mnc lac ci = record {
  type = gsm;
  mcc = mcc;
  mnc = mnc;
  ci = pos ci;
  lac = pos lac;
  tac = negsuc 0;
}

abbrev pub made_umts : ℕ → ℕ → ℕ → ℕ → CellTower
made_umts mcc mnc lac ci = record {
  type = umts;
  mcc = mcc;
  mnc = mnc;
  ci = pos ci;
  lac = pos lac;
  tac = negsuc 0;
}

abbrev pub made_lte : ℕ → ℕ → ℕ → ℤ → CellTower
made_lte mcc mnc ci tac = record {
  type = lte;
  mcc = mcc;
  mnc = mnc;
  ci = pos ci;
  lac = negsuc 0;
  tac = tac;
}

pub data IsTower : CellTower → Type 0 where
  gsm_made :
      (mcc mnc lac ci : ℕ)
      → mcc < 1000
      → mnc < 1000
      → lac < 2 ^ 16
      → ci < 2 ^ 16
      → IsTower (made_gsm mcc mnc lac ci)
  umts_made :
      (mcc mnc lac ci : ℕ)
      → mcc < 1000
      → mnc < 1000
      → lac < 2 ^ 16
      → ci < 2 ^ 28
      → IsTower (made_umts mcc mnc lac ci)
  lte_made :
      (mcc mnc ci : ℕ) (tac : ℤ)
      → mcc < 1000
      → mnc < 1000
      → ci < 2 ^ 28
      → IsTower (made_lte mcc mnc ci tac)

-- The parts of the number do not overlap.
gsm_id :
    (mcc mnc lac ci : ℕ)
    → mcc < 1000
    → mnc < 1000
    → lac < 2 ^ 16
    → ci < 2 ^ 16
    → bit_or
        (bit_or (bit_or (shift_left mcc 42) (shift_left mnc 32)) (shift_left (widen (pos lac)) 16))
        (mask (pos ci) 0xFFFF)
      ≡ mcc * 2 ^ 42 + mnc * 2 ^ 32 + lac * 2 ^ 16 + ci
gsm_id mcc mnc lac ci h1 h2 h3 h4 =
    rw
      (
        big,
        mid,
        low,
        last,
        bit_or-disjoint 42 mcc (mnc * 2 ^ 32) (omega arith),
        upper,
        bit_or-disjoint 32 (mcc * 2 ^ 10 + mnc) (lac * 2 ^ 16) (omega arith),
        lower,
        bit_or-disjoint 16 ((mcc * 2 ^ 10 + mnc) * 2 ^ 16 + lac) ci h4,
      )
      (omega arith)
  where
    big : shift_left mcc 42 ≡ mcc * 2 ^ 42
    big = omega arith

    mid : shift_left mnc 32 ≡ mnc * 2 ^ 32
    mid = omega arith

    low : shift_left (widen (pos lac)) 16 ≡ lac * 2 ^ 16
    low = omega arith

    last : mask (pos ci) 0xFFFF ≡ ci
    last = omega (arith, bit_and-mask 16 (low_bits 32 (pos ci)))

    upper : mcc * 2 ^ 42 + mnc * 2 ^ 32 ≡ (mcc * 2 ^ 10 + mnc) * 2 ^ 32
    upper = omega arith

    lower :
        (mcc * 2 ^ 10 + mnc) * 2 ^ 32 + lac * 2 ^ 16
        ≡ ((mcc * 2 ^ 10 + mnc) * 2 ^ 16 + lac) * 2 ^ 16
    lower = omega arith

umts_id :
    (mcc mnc lac ci : ℕ)
    → mcc < 1000
    → mnc < 1000
    → lac < 2 ^ 16
    → ci < 2 ^ 28
    → bit_or
        (bit_or (bit_or (shift_left mcc 54) (shift_left mnc 44)) (shift_left (widen (pos lac)) 28))
        (mask (pos ci) 0xFFFFFFF)
      ≡ mcc * 2 ^ 54 + mnc * 2 ^ 44 + lac * 2 ^ 28 + ci
umts_id mcc mnc lac ci h1 h2 h3 h4 =
    rw
      (
        big,
        mid,
        low,
        last,
        bit_or-disjoint 54 mcc (mnc * 2 ^ 44) (omega arith),
        upper,
        bit_or-disjoint 44 (mcc * 2 ^ 10 + mnc) (lac * 2 ^ 28) (omega arith),
        lower,
        bit_or-disjoint 28 ((mcc * 2 ^ 10 + mnc) * 2 ^ 16 + lac) ci h4,
      )
      (omega arith)
  where
    big : shift_left mcc 54 ≡ mcc * 2 ^ 54
    big = omega arith

    mid : shift_left mnc 44 ≡ mnc * 2 ^ 44
    mid = omega arith

    low : shift_left (widen (pos lac)) 28 ≡ lac * 2 ^ 28
    low = omega arith

    last : mask (pos ci) 0xFFFFFFF ≡ ci
    last = omega (arith, bit_and-mask 28 (low_bits 32 (pos ci)))

    upper : mcc * 2 ^ 54 + mnc * 2 ^ 44 ≡ (mcc * 2 ^ 10 + mnc) * 2 ^ 44
    upper = omega arith

    lower :
        (mcc * 2 ^ 10 + mnc) * 2 ^ 44 + lac * 2 ^ 28
        ≡ ((mcc * 2 ^ 10 + mnc) * 2 ^ 16 + lac) * 2 ^ 28
    lower = omega arith

lte_id :
    (mcc mnc ci : ℕ)
    → mcc < 1000
    → mnc < 1000
    → ci < 2 ^ 28
    → bit_or (bit_or (shift_left mcc 38) (shift_left mnc 28)) (widen (pos ci))
      ≡ mcc * 2 ^ 38 + mnc * 2 ^ 28 + ci
lte_id mcc mnc ci h1 h2 h4 =
    rw
      (
        big,
        mid,
        last,
        bit_or-disjoint 38 mcc (mnc * 2 ^ 28) (omega arith),
        upper,
        bit_or-disjoint 28 (mcc * 2 ^ 10 + mnc) ci h4,
      )
      (omega arith)
  where
    big : shift_left mcc 38 ≡ mcc * 2 ^ 38
    big = omega arith

    mid : shift_left mnc 28 ≡ mnc * 2 ^ 28
    mid = omega arith

    last : widen (pos ci) ≡ ci
    last = omega arith

    upper : mcc * 2 ^ 38 + mnc * 2 ^ 28 ≡ (mcc * 2 ^ 10 + mnc) * 2 ^ 28
    upper = omega arith

difference_zero : (l l' : ℕ) → sub_ℤ (pos l) (pos l') ≡ pos 0 → l ≡ l'
difference_zero l l' h = ground arith

no_difference : (l l' : ℕ) → l ≡ l' → sub_ℤ (pos l) (pos l') ≡ pos 0
no_difference l l' h = ground arith

-- Among towers of one type whose codes are in their ranges, the global id tells apart exactly those
-- that `compare` tells apart.
pub cell_global_id-compare :
    (c d : CellTower)
    → IsTower c
    → IsTower d
    → type_eq c.type d.type ≡ true
    → (cell_global_id c ≡ cell_global_id d) ↔ (compare c d ≡ some (pos 0))
unfolding cell_global_id compare
cell_global_id-compare _ _ (gsm_made m n l c p q r s) (gsm_made m' n' l' c' p' q' r' s') e =
    rw (gsm_id m n l c p q r s, gsm_id m' n' l' c' p' q' r' s')
      (
        λ h. (compare_iff (made_gsm m n l c) (made_gsm m' n' l' c') refl refl).1 (
          refl,
          omega (arith, some_inj h),
          omega (arith, some_inj h),
          omega (arith, some_inj h),
          no_difference l l' (omega (arith, some_inj h)),
        ),
        λ h.
            let same = (compare_iff (made_gsm m n l c) (made_gsm m' n' l' c') refl refl).0 h in
            ap some (omega (arith, same.1, same.2, same.3, difference_zero l l' same.4)),
      )
cell_global_id-compare _ _ (umts_made m n l c p q r s) (umts_made m' n' l' c' p' q' r' s') e =
    rw (umts_id m n l c p q r s, umts_id m' n' l' c' p' q' r' s')
      (
        λ h. (compare_iff (made_umts m n l c) (made_umts m' n' l' c') refl refl).1 (
          refl,
          omega (arith, some_inj h),
          omega (arith, some_inj h),
          omega (arith, some_inj h),
          no_difference l l' (omega (arith, some_inj h)),
        ),
        λ h.
            let same = (compare_iff (made_umts m n l c) (made_umts m' n' l' c') refl refl).0 h in
            ap some (omega (arith, same.1, same.2, same.3, difference_zero l l' same.4)),
      )
cell_global_id-compare _ _ (lte_made m n c t p q s) (lte_made m' n' c' t' p' q' s') e =
    rw (lte_id m n c p q s, lte_id m' n' c' p' q' s')
      (
        λ h. (compare_iff (made_lte m n c t) (made_lte m' n' c' t') refl refl).1 (
          refl,
          omega (arith, some_inj h),
          omega (arith, some_inj h),
          omega (arith, some_inj h),
          refl,
        ),
        λ h.
            let same = (compare_iff (made_lte m n c t) (made_lte m' n' c' t') refl refl).0 h in
            ap some (omega (arith, same.1, same.2, same.3)),
      )
cell_global_id-compare _ _ (gsm_made m n l c p q r s) (umts_made m' n' l' c' p' q' r' s') e = cc
cell_global_id-compare _ _ (gsm_made m n l c p q r s) (lte_made m' n' c' t' p' q' s') e = cc
cell_global_id-compare _ _ (umts_made m n l c p q r s) (gsm_made m' n' l' c' p' q' r' s') e = cc
cell_global_id-compare _ _ (umts_made m n l c p q r s) (lte_made m' n' c' t' p' q' s') e = cc
cell_global_id-compare _ _ (lte_made m n c t p q s) (gsm_made m' n' l' c' p' q' r' s') e = cc
cell_global_id-compare _ _ (lte_made m n c t p q s) (umts_made m' n' l' c' p' q' r' s') e = cc
