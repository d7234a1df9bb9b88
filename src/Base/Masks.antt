-- ===== src/Base/Masks.antt =====
-- The bit operations on parts of a word that do not overlap.
use Prim.Native.Nat.{
  ℕ, zero, suc, ◌+◌, ◌-◌, ◌*◌, ◌/◌, ◌%◌, ◌^◌, ◌<◌, ◌≤◌, bit_or, bit_and, max, min,
}
use mathlib.Core.Path.{◌≡◌, refl, ap, ap₂, ◌≡⟨◌⟩◌, ◌∎}
use native.Mathlib.Omega.{arith}
use native.Mathlib.Nat.{
  pow-suc, mul_comm, add-mul-mod_self_right, mod-eq_of_lt, mod-lt, mod-add-div,
}
use precision_location_lite.Base.Bits.{bit_or-halves, bit_or-zero, bit_and-halves}

pow_pos : (k : ℕ) → 0 < 2 ^ k
pow_pos zero = omega arith
pow_pos (suc k) = omega (arith, pow-suc 2 k, pow_pos k)

shifted : (k a : ℕ) → a * 2 ^ suc k ≡ 2 * (a * 2 ^ k)
shifted k a = grind (arith, pow-suc 2 k)

pub bit_or-disjoint : (k a b : ℕ) → b < 2 ^ k → bit_or (a * 2 ^ k) b ≡ a * 2 ^ k + b
bit_or-disjoint zero a zero h = omega (arith, bit_or-zero (a * 2 ^ 0))
bit_or-disjoint zero a (suc b) h = absurd (omega arith)
bit_or-disjoint (suc k) a b h =
    bit_or (a * 2 ^ suc k) b
    ≡⟨ bit_or-halves _ b ⟩ bit_or (a * 2 ^ suc k / 2) (b / 2) * 2 + max (a * 2 ^ suc k % 2) (b % 2)
    ≡⟨ ap₂ (λ (x y : ℕ). bit_or x (b / 2) * 2 + max y (b % 2)) half even ⟩
      bit_or (a * 2 ^ k) (b / 2) * 2 + max 0 (b % 2)
    ≡⟨ omega (arith, shifted k a, pow-suc 2 k, bit_or-disjoint k a (b / 2)) ⟩ a * 2 ^ suc k + b ∎
  where
    half : a * 2 ^ suc k / 2 ≡ a * 2 ^ k
    half = omega (arith, shifted k a)

    even : a * 2 ^ suc k % 2 ≡ 0
    even = omega (arith, shifted k a)

and_zero_fuel : (n a : ℕ) → a ≤ n → bit_and a 0 ≡ 0
and_zero_fuel zero zero h = refl
and_zero_fuel zero (suc a) h = absurd (omega arith)
and_zero_fuel (suc n) zero h = refl
and_zero_fuel (suc n) (suc a) h =
    omega (arith, bit_and-halves (suc a) 0, and_zero_fuel n (suc a / 2) (omega arith))

all_ones : (k : ℕ) → (2 ^ suc k - 1) / 2 ≡ 2 ^ k - 1
all_ones k = omega (arith, pow-suc 2 k, pow_pos k)

mod_halves : (p a : ℕ) → 0 < p → a % (2 * p) ≡ a / 2 % p * 2 + a % 2
mod_halves p a h =
    a % (2 * p)
    ≡⟨ ap (λ (n : ℕ). n % (2 * p)) parts ⟩ (a / 2 % p * 2 + a % 2 + a / 2 / p * (2 * p)) % (2 * p)
    ≡⟨ add-mul-mod_self_right _ (a / 2 / p) (2 * p) ⟩ (a / 2 % p * 2 + a % 2) % (2 * p)
    ≡⟨ mod-eq_of_lt (omega (arith, mod-lt (a / 2) h)) ⟩ a / 2 % p * 2 + a % 2 ∎
  where
    parts : a ≡ a / 2 % p * 2 + a % 2 + a / 2 / p * (2 * p)
    parts = grind (arith, mod-add-div (a / 2) p)

pub bit_and-mask : (k a : ℕ) → bit_and a (2 ^ k - 1) ≡ a % 2 ^ k
bit_and-mask zero a = omega (arith, and_zero_fuel a a (omega arith))
bit_and-mask (suc k) a =
    bit_and a (2 ^ suc k - 1)
    ≡⟨ bit_and-halves a _ ⟩
      bit_and (a / 2) ((2 ^ suc k - 1) / 2) * 2 + min (a % 2) ((2 ^ suc k - 1) % 2)
    ≡⟨ ap₂ (λ (x y : ℕ). bit_and (a / 2) x * 2 + min (a % 2) y) (all_ones k) odd ⟩
      bit_and (a / 2) (2 ^ k - 1) * 2 + min (a % 2) 1
    ≡⟨ omega (arith, bit_and-mask k (a / 2), halves) ⟩ a % 2 ^ suc k ∎
  where
    odd : (2 ^ suc k - 1) % 2 ≡ 1
    odd = omega (arith, pow-suc 2 k, pow_pos k)

    halves : a % 2 ^ suc k ≡ a / 2 % 2 ^ k * 2 + a % 2
    halves = rw (pow-suc 2 k, mul_comm (2 ^ k) 2) (mod_halves (2 ^ k) a (pow_pos k))
