-- ===== src/Timer/Order.antt =====
-- The order of timers. It is that of a circle, on which a half turn has no direction.
use precision_location_lite.Base.{ℕ, ◌+◌, ◌%◌, ◌^◌, ◌<◌, ◌≡◌, ◌↔◌, arith, ◌==◌, ltb, if◌then◌else◌}
use precision_location_lite.Base.Int.{pos, negsuc, neg_ℤ}
use precision_location_lite.Timer.{IsTimer, elapsed, compare, reset}

-- `a` is `k` ticks later than `b`, over the end of the range where it comes.
abbrev pub IsLater : ℕ → ℕ → ℕ → Type 0
IsLater k a b = a ≡ (b + k) % 2 ^ 64

-- Between any two timers the signs of `compare` are opposite, as sorting needs, exactly if they do
-- not stand 2 ^ 63 milliseconds apart; at that distance `compare` finds each of them greater than the
-- other.
pub compare_antisym :
    (t u : ℕ)
    → IsTimer t
    → IsTimer u
    → ((compare t u ≡ neg_ℤ (compare u t)) ↔ (¬ IsLater (2 ^ 63) t u))
      × (IsLater (2 ^ 63) t u → (compare t u ≡ pos 1) × (compare u t ≡ pos 1))
unfolding compare
compare_antisym t u ht hu =
    ((λ h e. ground arith, λ h. ground arith), λ e. (ground arith, ground arith))

pub compare-lt :
    (t u : ℕ) (k : ℕ) → IsTimer u → IsLater k t u → k < 2 ^ 63 → 0 < k → compare t u ≡ negsuc 0
unfolding compare
compare-lt t u k hu e hk pos_k = ground arith

pub elapsed-reset :
    (d k now : ℕ)
    → IsTimer now
    → d + k < 2 ^ 64
    → elapsed (reset (pos d) now) ((now + k) % 2 ^ 64) ≡ d + k
elapsed-reset d k now hn h = ground arith

-- Timers less than half the range after a common one compare as the ticks that passed.
pub compare-later :
    (base i j t u : ℕ)
    → IsTimer base
    → i < 2 ^ 63
    → j < 2 ^ 63
    → IsLater i t base
    → IsLater j u base
    → compare t u ≡ (if i == j then pos 0 else if ltb j i then negsuc 0 else pos 1)
unfolding compare
compare-later base i j t u hb hi hj et eu = ground arith
