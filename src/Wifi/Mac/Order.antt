-- ===== src/Wifi/Mac/Order.antt =====
-- The order of addresses is that of the numbers that they are.
use precision_location_lite.Base.{
  ℕ, zero, suc, ◌+◌, ◌*◌, ◌<◌, [], ◌∷◌, ◌≡◌, refl, sym, ap, ◌∙◌, arith, ltb, if◌then◌else◌,
  Bool-cases, inl, inr, Bytes, lt→ltb, le→ltb_false,
}
use native.Mathlib.Decide.{dec_le}
use precision_location_lite.Base.Int.{ℤ, pos, negsuc}
use precision_location_lite.Wifi.Mac.{octet, compare_below, compare, to_long}

-- The sign of a - b.
unfoldable pub sign : ℕ → ℕ → ℤ
sign a b = if ltb b a then pos 1 else if ltb a b then negsuc 0 else pos 0

-- The first decision that is not "equal".
pick : ℤ → ℤ → ℤ
pick (pos zero) d = d
pick (pos (suc n)) d = pos (suc n)
pick (negsuc n) d = negsuc n

zero_pick : (d : ℤ) → pick (pos 0) d ≡ d
unfolding pick
zero_pick d = refl

pick_assoc : (a b c : ℤ) → pick (pick a b) c ≡ pick a (pick b c)
unfolding pick
pick_assoc (pos zero) b c = refl
pick_assoc (pos (suc n)) b c = refl
pick_assoc (negsuc n) b c = refl

pick_zero : (a : ℤ) → pick a (pos 0) ≡ a
unfolding pick
pick_zero (pos zero) = refl
pick_zero (pos (suc n)) = refl
pick_zero (negsuc n) = refl

data Compared (a b : ℕ) : Type 0 where
  greater : b < a → (sign a b ≡ pos 1) → Compared a b
  smaller : a < b → (sign a b ≡ negsuc 0) → Compared a b
  same : a ≡ b → (sign a b ≡ pos 0) → Compared a b

compared : (a b : ℕ) → Compared a b
unfolding sign
compared a b = elim (dec_le a b) [
  | no nle ↦ greater (omega arith) (rw (lt→ltb b a (omega arith)) refl)
  | yes le ↦ elim (dec_le b a) [
    | no nge ↦
        smaller (omega arith) (rw (le→ltb_false b a (omega arith), lt→ltb a b (omega arith)) refl)
    | yes ge ↦
        same (omega arith)
          (rw (le→ltb_false b a (omega arith), le→ltb_false a b (omega arith)) refl)
  ]
]

sign_refl : (a : ℕ) → sign a a ≡ pos 0
unfolding sign
sign_refl a = rw (le→ltb_false a a (omega arith)) refl

sign-gt : (a b : ℕ) → b < a → sign a b ≡ pos 1
unfolding sign
sign-gt a b h = rw (lt→ltb b a h) refl

sign-lt : (a b : ℕ) → a < b → sign a b ≡ negsuc 0
unfolding sign
sign-lt a b h = rw (le→ltb_false b a (omega arith), lt→ltb a b h) refl

-- The bytes above decide, and if they are equal the lowest one.
lowest_last :
    (x y r s : ℕ)
    → x < 256
    → y < 256
    → sign (x + 256 * r) (y + 256 * s) ≡ pick (sign r s) (sign x y)
unfolding pick
lowest_last x y r s hx hy = above (compared r s)
  where
    above : Compared r s → sign (x + 256 * r) (y + 256 * s) ≡ pick (sign r s) (sign x y)
    above (greater lt e) = rw e (sign-gt (x + 256 * r) (y + 256 * s) (omega arith))
    above (smaller lt e) = rw e (sign-lt (x + 256 * r) (y + 256 * s) (omega arith))
    above (same eq e) = rw e (below eq (compared x y))
      where
        below : r ≡ s → Compared x y → sign (x + 256 * r) (y + 256 * s) ≡ sign x y
        below eq (greater lt f) = rw f (sign-gt (x + 256 * r) (y + 256 * s) (omega arith))
        below eq (smaller lt f) = rw f (sign-lt (x + 256 * r) (y + 256 * s) (omega arith))
        below eq (same eq' f) =
            let e : x + 256 * r ≡ y + 256 * s = omega arith in
            rw (e, eq') (sign_refl (y + 256 * s) ∙ sym (sign_refl y))

highest_first :
    (i : ℕ) (a b : Bytes)
    → compare_below (suc i) a b ≡ pick (sign (octet a i) (octet b i)) (compare_below i a b)
unfolding compare_below pick sign
highest_first i a b = elim (Bool-cases (ltb (octet b i) (octet a i))) [
  | inl gt ↦ rw gt refl
  | inr ngt ↦ elim (Bool-cases (ltb (octet a i) (octet b i))) [
    | inl lt ↦ rw (ngt, lt) refl
    | inr nlt ↦ rw (ngt, nlt) refl
  ]
]

none_left : (a b : Bytes) → compare_below 0 a b ≡ pos 0
unfolding compare_below
none_left a b = refl

abbrev decisions : ℕ → Bytes → Bytes → ℤ
decisions zero a b = pos 0
decisions (suc i) a b = pick (sign (octet a i) (octet b i)) (decisions i a b)

compare_below-decisions : (n : ℕ) (a b : Bytes) → compare_below n a b ≡ decisions n a b
compare_below-decisions zero a b = none_left a b
compare_below-decisions (suc i) a b =
    highest_first i a b ∙ ap (pick (sign (octet a i) (octet b i))) (compare_below-decisions i a b)

then_byte :
    (x y r s : ℕ) {d : ℤ}
    → x < 256
    → y < 256
    → sign r s ≡ d
    → sign (x + 256 * r) (y + 256 * s) ≡ pick d (sign x y)
then_byte x y r s hx hy e = lowest_last x y r s hx hy ∙ ap (λ (d : ℤ). pick d (sign x y)) e

-- Six bytes.
pub data IsMac : Bytes → Type 0 where
  octets :
      (a₀ a₁ a₂ a₃ a₄ a₅ : ℕ)
      → (a₀ < 256) × (a₁ < 256) × (a₂ < 256) × (a₃ < 256) × (a₄ < 256) × (a₅ < 256)
      → IsMac (a₀ ∷ a₁ ∷ a₂ ∷ a₃ ∷ a₄ ∷ a₅ ∷ [])

-- `compare` returns 1, -1 or 0 as the number of the first address is greater than, less than or
-- equal to that of the second.
pub compare-to_long : (a b : Bytes) → IsMac a → IsMac b → compare a b ≡ sign (to_long a) (to_long b)
unfolding compare
compare-to_long _ _ (octets a₀ a₁ a₂ a₃ a₄ a₅ (ha₀, ha₁, ha₂, ha₃, ha₄, ha₅))
      (octets b₀ b₁ b₂ b₃ b₄ b₅ (hb₀, hb₁, hb₂, hb₃, hb₄, hb₅)) =
    let a = a₀ ∷ a₁ ∷ a₂ ∷ a₃ ∷ a₄ ∷ a₅ ∷ [] in
    let b = b₀ ∷ b₁ ∷ b₂ ∷ b₃ ∷ b₄ ∷ b₅ ∷ [] in
    compare_below-decisions 6 a b
    ∙ sym (
        then_byte a₀ b₀ _ _ ha₀ hb₀ (
          then_byte a₁ b₁ _ _ ha₁ hb₁ (
            then_byte a₂ b₂ _ _ ha₂ hb₂ (
              then_byte a₃ b₃ _ _ ha₃ hb₃
                (then_byte a₄ b₄ _ _ ha₄ hb₄ (lowest_last a₅ b₅ 0 0 ha₅ hb₅)))))
        ∙ simp (sign_refl, zero_pick, pick_zero, pick_assoc))
