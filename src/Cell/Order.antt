-- ===== src/Cell/Order.antt =====
-- `CellTower::compare` is an order on towers that are not null.
use precision_location_lite.Base.{
  ℕ, ◌+◌, ◌<◌, true, false, some, some_inj, ◌≡◌, ◌↔◌, ◌⊎◌, inl, inr, refl, arith, Bool-cases,
  if◌then◌else◌, ◌||◌, not, ap, ◌∙◌, ◌≢◌, >>=-eq-some,
}
use native.Mathlib.Decide.{ℕ_discrete}
use precision_location_lite.Base.Int.{
  ℤ, pos, negsuc, is_zero, pos_part, neg_part, neg_ℤ, sub_ℤ, sub_ℕ, leb_ℤ,
}
use precision_location_lite.Cell.{
  CellTower, lte, type_number, type_eq, is_null, first_nonzero, compare, equal, less,
}

-- One step of the chain of comparisons.
chain_zero : (a b : ℕ) (r : ℤ) → (first_nonzero (sub_ℕ a b) r ≡ pos 0) ↔ ((a ≡ b) × (r ≡ pos 0))
chain_zero a b r = (λ h. ground arith, λ h. ground arith)

chain_neg :
    (a b : ℕ) (r s : ℤ)
    → (a ≡ b → r ≡ neg_ℤ s)
    → first_nonzero (sub_ℕ a b) r ≡ neg_ℤ (first_nonzero (sub_ℕ b a) s)
chain_neg a b r s h = elim (ℕ_discrete a b) [
  | yes e ↦ let same : r ≡ neg_ℤ s = h e in ground arith
  | no n ↦ ground arith
]

abbrev pub IsNegative : ℤ → Type 0
IsNegative r = leb_ℤ (pos 0) r ≡ false

abbrev LessBy : ℕ → ℕ → ℤ → Type 0
LessBy a b r = (a < b) ⊎ ((a ≡ b) × IsNegative r)

chain-IsNegative : (a b : ℕ) (r : ℤ) → IsNegative (first_nonzero (sub_ℕ a b) r) ↔ LessBy a b r
chain-IsNegative a b r = (λ h. ground arith, λ h. ground arith)

chain_trans :
    (a b c : ℕ) (r s t : ℤ)
    → (a ≡ b → b ≡ c → IsNegative r → IsNegative s → IsNegative t)
    → IsNegative (first_nonzero (sub_ℕ a b) r)
    → IsNegative (first_nonzero (sub_ℕ b c) s)
    → IsNegative (first_nonzero (sub_ℕ a c) t)
chain_trans a b c r s t step h k =
    (chain-IsNegative a c t).1 (join ((chain-IsNegative a b r).0 h) ((chain-IsNegative b c s).0 k))
  where
    join : LessBy a b r → LessBy b c s → LessBy a c t
    join (inl p) (inl q) = inl (omega arith)
    join (inl p) (inr q) = inl (omega (arith, q.0))
    join (inr p) (inl q) = inl (omega (arith, p.0))
    join (inr p) (inr q) = inr (p.0 ∙ q.0, step p.0 q.0 p.1 q.1)

-- What `compare` returns for towers that are not null.
abbrev area : CellTower → CellTower → ℤ
area c d = if type_eq c.type lte then pos 0 else sub_ℤ c.lac d.lac

abbrev by_ci : CellTower → CellTower → ℤ
by_ci c d = first_nonzero (sub_ℤ c.ci d.ci) (area c d)

abbrev by_mnc : CellTower → CellTower → ℤ
by_mnc c d = first_nonzero (sub_ℕ c.mnc d.mnc) (by_ci c d)

abbrev by_mcc : CellTower → CellTower → ℤ
by_mcc c d = first_nonzero (sub_ℕ c.mcc d.mcc) (by_mnc c d)

abbrev order : CellTower → CellTower → ℤ
order c d = first_nonzero (sub_ℕ (type_number c.type) (type_number d.type)) (by_mcc c d)

abbrev SameArea : CellTower → CellTower → Type 0
SameArea c d = area c d ≡ pos 0

pub compare_iff :
    (c d : CellTower)
    → is_null c ≡ false
    → is_null d ≡ false
    → (compare c d ≡ some (pos 0)) ↔ (
        (type_number c.type ≡ type_number d.type)
        × (c.mcc ≡ d.mcc)
        × (c.mnc ≡ d.mnc)
        × (pos_part c.ci + neg_part d.ci ≡ pos_part d.ci + neg_part c.ci)
        × SameArea c d)
unfolding compare
compare_iff c d hc hd =
    rw (hc, hd)
      (
        λ h.
            let z1 = (chain_zero _ _ _).0 (some_inj h) in
            let z2 = (chain_zero _ _ _).0 z1.1 in
            let z3 = (chain_zero _ _ _).0 z2.1 in
            let z4 = (chain_zero _ _ _).0 z3.1 in (z1.0, z2.0, z3.0, z4.0, z4.1),
        λ e. ap some (
            (chain_zero _ _ _).1 (
              e.0,
              (chain_zero _ _ _).1
                  (e.1, (chain_zero _ _ _).1 (e.2, (chain_zero _ _ _).1 (e.3, e.4))),
            )),
      )

equal_int : (a b : ℤ) → pos_part a + neg_part b ≡ pos_part b + neg_part a → a ≡ b
equal_int (pos a) (pos b) h = ground arith
equal_int (pos a) (negsuc b) h = ground arith
equal_int (negsuc a) (pos b) h = ground arith
equal_int (negsuc a) (negsuc b) h = ground arith

zero_int : (r : ℤ) → is_zero r ≡ true → r ≡ pos 0
zero_int (pos n) h = ground arith
zero_int (negsuc n) h = ground arith

-- No tower is found to differ from itself.
pub equal_self : (c : CellTower) → equal c c ≢ some false
unfolding compare
equal_self c h = elim (Bool-cases (is_null c)) [
  | inl null ↦ cc (rw null at h)
  | inr known ↦
      let area_same : SameArea c c = ground arith in
      let same : compare c c ≡ some (pos 0) =
        (compare_iff c c known known).1 (refl, refl, refl, refl, area_same) in
      cc (rw same at h)
]

-- Towers that are found to be equal have the same type, codes and cell number.
pub equal_same :
    (c d : CellTower)
    → equal c d ≡ some true
    → (type_number c.type ≡ type_number d.type) × (c.mcc ≡ d.mcc) × (c.mnc ≡ d.mnc) × (c.ci ≡ d.ci)
unfolding compare
equal_same c d h = elim (Bool-cases (is_null c)) [
  | inl null ↦ cc (rw null at h)
  | inr known ↦ elim (Bool-cases (is_null d)) [
    | inl null ↦ cc (rw (known, null) at h)
    | inr known' ↦
        let (r, compared, zero) = >>=-eq-some (compare c d) _ h in
        let e : r ≡ pos 0 = zero_int r (some_inj zero) in
        let all = (compare_iff c d known known').0 (compared ∙ ap some e) in
        (all.0, all.1, all.2, equal_int c.ci d.ci all.3)
  ]
]

area_neg : (c d : CellTower) → type_number c.type ≡ type_number d.type → area c d ≡ neg_ℤ (area d c)
area_neg c d e = rw e (ground arith)

order_neg : (c d : CellTower) → order c d ≡ neg_ℤ (order d c)
order_neg c d = chain_neg (type_number c.type) (type_number d.type) (by_mcc c d) (by_mcc d c) λ e.
    chain_neg c.mcc d.mcc (by_mnc c d) (by_mnc d c) λ _.
      chain_neg c.mnc d.mnc (by_ci c d) (by_ci d c) λ _.
        chain_neg (pos_part c.ci + neg_part d.ci) (pos_part d.ci + neg_part c.ci) (area c d)
          (area d c) λ _. area_neg c d e

-- Swapping the arguments changes the sign.
pub compare_antisym :
    (c d : CellTower)
    → is_null c ≡ false
    → is_null d ≡ false
    → (r : ℤ) × (compare c d ≡ some r) × (compare d c ≡ some (neg_ℤ r))
unfolding compare
compare_antisym c d hc hd = rw (hc, hd) (order c d, refl, ap some (order_neg d c))

area_trans :
    (c d e : CellTower)
    → type_number c.type ≡ type_number d.type
    → IsNegative (area c d)
    → IsNegative (area d e)
    → IsNegative (area c e)
area_trans c d e same p q = ground arith

ci_trans :
    (c d e : CellTower)
    → type_number c.type ≡ type_number d.type
    → IsNegative (by_ci c d)
    → IsNegative (by_ci d e)
    → IsNegative (by_ci c e)
ci_trans c d e same p q =
    (chain-IsNegative (pos_part c.ci + neg_part e.ci) (pos_part e.ci + neg_part c.ci) (area c e)).1
      (join
        ((chain-IsNegative (pos_part c.ci + neg_part d.ci) (pos_part d.ci + neg_part c.ci)
            (area c d)).0
          p)
        ((chain-IsNegative (pos_part d.ci + neg_part e.ci) (pos_part e.ci + neg_part d.ci)
            (area d e)).0
          q))
  where
    join :
        LessBy (pos_part c.ci + neg_part d.ci) (pos_part d.ci + neg_part c.ci) (area c d)
        → LessBy (pos_part d.ci + neg_part e.ci) (pos_part e.ci + neg_part d.ci) (area d e)
        → LessBy (pos_part c.ci + neg_part e.ci) (pos_part e.ci + neg_part c.ci) (area c e)
    join (inl p) (inl q) = inl (omega arith)
    join (inl p) (inr q) = inl (omega (arith, q.0))
    join (inr p) (inl q) = inl (omega (arith, p.0))
    join (inr p) (inr q) = inr (omega (arith, p.0, q.0), area_trans c d e same p.1 q.1)

order_trans :
    (c d e : CellTower) → IsNegative (order c d) → IsNegative (order d e) → IsNegative (order c e)
order_trans c d e =
    chain_trans (type_number c.type) (type_number d.type) (type_number e.type) (by_mcc c d)
      (by_mcc d e) (by_mcc c e)
      λ same _. chain_trans c.mcc d.mcc e.mcc (by_mnc c d) (by_mnc d e) (by_mnc c e) λ _ _.
        chain_trans c.mnc d.mnc e.mnc (by_ci c d) (by_ci d e) (by_ci c e) λ _ _. ci_trans c d e same

less_iff :
    (c d : CellTower)
    → (less c d ≡ some true) ↔ ((is_null c || is_null d ≡ false) × IsNegative (order c d))
unfolding compare
less_iff c d = elim (Bool-cases (is_null c || is_null d)) [
  | inl null ↦ rw null (λ h. cc, λ h. cc)
  | inr full ↦ rw full (λ h. (refl, ground arith), λ h. ap some (ap not h.1))
]

-- A tower that comes before another also comes before what comes behind that one.
pub compare_trans :
    (c d e : CellTower) → less c d ≡ some true → less d e ≡ some true → less c e ≡ some true
compare_trans c d e p q =
    let (full, first) = (less_iff c d).0 p in
    let (full', second) = (less_iff d e).0 q in
    (less_iff c e).1 (ground arith, order_trans c d e first second)
