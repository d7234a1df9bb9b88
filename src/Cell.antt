-- ===== src/Cell.antt =====
-- `CellTower` of include/spi/CellTower.h. A failed `assert` is `none`; an `int` is the integer that it
-- holds, an `unsigned short` a number below 2 ^ 16.
pub mod Created
pub mod Order
pub mod GlobalId
pub mod Scanned
pub mod Ofono
mod Tests
mod OfonoTests
use Prim.Native.Nat.{bit_and, bit_or, max, min}
use precision_location_lite.Base.{
  ℕ, ◌+◌, ◌-◌, ◌*◌, ◌%◌, ◌^◌, Bool, true, false, not, ◌&&◌, ◌||◌, Option, none, some, ◌++◌, ◌∷◌,
  ◌==◌, leb, ltb, if◌then◌else◌, ◌>>=◌, Bytes, codes, take, length,
}
use precision_location_lite.Base.Int.{
  ℤ, pos, negsuc, pos_part, neg_part, leb_ℤ, sub_ℤ, sub_ℕ, is_zero, low_bits, shift_right,
}
use precision_location_lite.Base.Libc.{print_int}

pub data CellTowerType : Type 0 where
  unknown gsm umts lte : CellTowerType

-- The values of the enumeration.
abbrev pub type_number : CellTowerType → ℕ
type_number unknown = 0
type_number gsm = 1
type_number umts = 2
type_number lte = 3

abbrev pub type_eq : CellTowerType → CellTowerType → Bool
type_eq a b = type_number a == type_number b

pub record CellTower : Type 0 where
  pub type : CellTowerType
  pub mcc : ℕ
  pub mnc : ℕ
  pub ci : ℤ
  pub lac : ℤ
  pub tac : ℤ

-- `CellTower()`
abbrev pub null_tower : CellTower
null_tower = record {
  type = unknown;
  mcc = 0;
  mnc = 0;
  ci = negsuc 0;
  lac = negsuc 0;
  tac = negsuc 0;
}

abbrev pub is_null : CellTower → Bool
is_null c = type_eq c.type unknown

abbrev pub has_lac : CellTower → Bool
has_lac c = not (is_zero (sub_ℤ c.lac (negsuc 0)))

-- `_ci < (1ULL << 28)`: the comparison is one of unsigned numbers of 64 bits.
abbrev pub ci_in_range : CellTowerType → ℤ → Bool
ci_in_range type ci =
    type_eq type gsm && leb_ℤ ci (pos 65535)
    || (type_eq type lte || type_eq type umts) && ltb (low_bits 64 ci) (2 ^ 28)

-- The private constructor with its assertions.
unfoldable pub new_tower : CellTower → Option CellTower
new_tower c =
    if not (leb c.mcc 999)
    then none
    else if not (leb c.mnc 999)
    then none
    else if not (ci_in_range c.type c.ci)
    then none
    else if not (leb_ℤ c.lac (pos 65535))
    then none
    else if not (leb_ℤ c.tac (pos 65535))
    then none
    else some c

abbrev pub is_valid_mcc_mnc : ℕ → ℕ → Bool
is_valid_mcc_mnc mcc mnc =
    not (ltb 999 mnc || (ltb mcc 200 || leb 800 mcc && ltb mcc 900 || ltb 999 mcc))

abbrev pub is_valid_lac : ℤ → Bool
is_valid_lac lac =
    is_zero (shift_right lac 16) && (not (is_zero lac) && not (is_zero (sub_ℤ lac (pos 0xFFFE))))

abbrev pub is_valid_gsm_umts_common : ℕ → ℕ → ℤ → Bool
is_valid_gsm_umts_common mcc mnc lac = is_valid_mcc_mnc mcc mnc && is_valid_lac lac

unfoldable pub gsm_tower : ℕ → ℕ → ℤ → ℤ → Option CellTower
unfolding new_tower
gsm_tower mcc mnc ci lac =
    if not (is_valid_gsm_umts_common mcc mnc lac) || not (is_zero (shift_right ci 16))
    then some null_tower
    else new_tower (record { type = gsm; mcc = mcc; mnc = mnc; ci = ci; lac = lac; tac = negsuc 0 })

unfoldable pub umts_tower : ℕ → ℕ → ℤ → ℤ → Option CellTower
unfolding new_tower
umts_tower mcc mnc ci lac =
    if not (is_valid_gsm_umts_common mcc mnc lac) || not (is_zero (shift_right ci 28))
    then some null_tower
    else new_tower
        (record { type = umts; mcc = mcc; mnc = mnc; ci = ci; lac = lac; tac = negsuc 0 })

unfoldable pub lte_tower : ℕ → ℕ → ℤ → ℤ → Option CellTower
unfolding new_tower
lte_tower mcc mnc ci tac =
    if not (is_valid_mcc_mnc mcc mnc) || not (is_zero (shift_right ci 28))
    then some null_tower
    else new_tower (record { type = lte; mcc = mcc; mnc = mnc; ci = ci; lac = negsuc 0; tac = tac })

-- `getMcc`, `getMnc`, `getCi`, `getLac` and `getTac` assert that the tower is not null.
abbrev pub get_mcc : CellTower → Option ℕ
get_mcc c = if is_null c then none else some c.mcc

abbrev pub get_mnc : CellTower → Option ℕ
get_mnc c = if is_null c then none else some c.mnc

abbrev pub get_ci : CellTower → Option ℤ
get_ci c = if is_null c then none else some c.ci

abbrev pub get_lac : CellTower → Option ℤ
get_lac c = if is_null c then none else some c.lac

abbrev pub get_tac : CellTower → Option ℤ
get_tac c = if is_null c then none else some c.tac

-- `if (const int r = ...) return r;`
abbrev pub first_nonzero : ℤ → ℤ → ℤ
first_nonzero r rest = if is_zero r then rest else r

unfoldable pub compare : CellTower → CellTower → Option ℤ
compare c d =
    if is_null c || is_null d
    then none
    else some (
        first_nonzero (sub_ℕ (type_number c.type) (type_number d.type)) (
          first_nonzero (sub_ℕ c.mcc d.mcc) (
            first_nonzero (sub_ℕ c.mnc d.mnc) (
              first_nonzero (sub_ℤ c.ci d.ci)
                (if type_eq c.type lte then pos 0 else sub_ℤ c.lac d.lac)))))

-- `operator==`, `!=` and `<`
abbrev pub equal : CellTower → CellTower → Option Bool
equal c d = do r ← compare c d; some (is_zero r)

abbrev pub less : CellTower → CellTower → Option Bool
less c d = do r ← compare c d; some (not (leb_ℤ (pos 0) r))

-- An `int` in the `unsigned long long` that it is shifted or or'ed in.
abbrev pub widen : ℤ → ℕ
widen a = low_bits 64 a

abbrev pub shift_left : ℕ → ℕ → ℕ
shift_left a k = a * 2 ^ k % 2 ^ 64

-- `(ci & 0xFFFF)` and the like, on an `int`, then widened.
abbrev pub mask : ℤ → ℕ → ℕ
mask a m = bit_and (low_bits 32 a) m

unfoldable pub get_adjacent_cell_id : CellTowerType → ℤ → ℤ → Option ℤ
get_adjacent_cell_id type ci delta =
    if is_zero delta
    then some ci
    else if not (type_eq type umts)
    then none
    else some (
        pos (
          bit_or (min 0xFFFF (pos_part (sub_ℕ (mask ci 0xFFFF + pos_part delta) (neg_part delta))))
            (mask ci 0xFFF0000)))

unfoldable pub get_cell_global_id : CellTowerType → ℕ → ℕ → ℤ → ℤ → Option ℕ
get_cell_global_id unknown mcc mnc lac ci = none
get_cell_global_id gsm mcc mnc lac ci = some (
    bit_or (bit_or (bit_or (shift_left mcc 42) (shift_left mnc 32)) (shift_left (widen lac) 16))
      (mask ci 0xFFFF))
get_cell_global_id umts mcc mnc lac ci = some (
    bit_or (bit_or (bit_or (shift_left mcc 54) (shift_left mnc 44)) (shift_left (widen lac) 28))
      (mask ci 0xFFFFFFF))
get_cell_global_id lte mcc mnc lac ci =
    if not (is_zero (sub_ℤ lac (negsuc 0)))
    then none
    else some (bit_or (bit_or (shift_left mcc 38) (shift_left mnc 28)) (widen ci))

unfoldable pub get_adjacent_cell_global_id : CellTower → ℤ → Option ℕ
unfolding get_adjacent_cell_id get_cell_global_id
get_adjacent_cell_global_id c delta = do
  ci ← get_adjacent_cell_id c.type c.ci delta
  get_cell_global_id c.type c.mcc c.mnc c.lac ci

-- `getCellGlobalId()`
unfoldable pub cell_global_id : CellTower → Option ℕ
unfolding get_adjacent_cell_global_id
cell_global_id c = get_adjacent_cell_global_id c (pos 0)

abbrev pub type_to_string : CellTowerType → Bytes
type_to_string unknown = codes "UNKNOWN"
type_to_string gsm = codes "GSM"
type_to_string umts = codes "UMTS"
type_to_string lte = codes "LTE"

-- `toString`, whose buffer has room for 31 characters.
abbrev pub to_string : CellTower → Bytes
to_string c = take 31 (
    type_to_string c.type
    ++ (b'-'
        ∷ (print_int 3 (pos c.mcc)
            ++ (b'-'
                ∷ (print_int 3 (pos c.mnc)
                    ++ (b'-'
                        ∷ (print_int 0 c.ci
                            ++ (b'-' ∷ (print_int 0 c.lac ++ (b'-' ∷ print_int 0 c.tac))))))))))
