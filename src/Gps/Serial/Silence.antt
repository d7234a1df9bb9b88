-- ===== src/Gps/Serial/Silence.antt =====
-- A receiver that falls silent.
use precision_location_lite.Base.{
  ℕ, zero, suc, ◌+◌, ◌-◌, ◌%◌, ◌^◌, ◌<◌, Bool, List, [], ◌∷◌, ◌++◌, Option, some, leb,
  if◌then◌else◌, Bytes, ◌≡◌, refl, ap, ◌∙◌, arith, Bool-cases, inl, inr,
}
use precision_location_lite.Api.Client.{io}
use precision_location_lite.Gps.Protocol.{Protocol, parse}
use precision_location_lite.Gps.Serial.{
  Adapter, Notice, gps_data, gps_error, received, timed_out, run,
}

abbrev pub replicate {ℓ} : {A : Type ℓ} → ℕ → A → List A
replicate zero x = []
replicate (suc n) x = x ∷ replicate n x

-- The numbers from 4 on among m + 1, ..., m + n.
abbrev from_four : ℕ → ℕ → ℕ
from_four m n = m + n - 3 - (m - 3)

one_more {ℓ} :
    {A : Type ℓ} (m n : ℕ) (x : A)
    → (if leb 4 (m + 1) then x ∷ [] else []) ++ replicate (from_four (m + 1) n) x
      ≡ replicate (from_four m (suc n)) x
one_more m n x = elim (Bool-cases (leb 4 (m + 1))) [
  | inl reported ↦
      let e : from_four m (suc n) ≡ suc (from_four (m + 1) n) = ground arith in
      rw (reported, e) refl
  | inr early ↦
      let e : from_four m (suc n) ≡ from_four (m + 1) n = ground arith in rw (early, e) refl
]

module _ {X : Type 0} (try_parse : Bytes → X → Option (ℕ × X)) where
  timeouts :
      (n m : ℕ) (p : Protocol X)
      → m + n < 2 ^ 32
      → run try_parse (replicate n timed_out) (record { protocol = p; num_timeouts = m })
        ≡ some (
          record { protocol = p; num_timeouts = m + n },
          replicate (from_four m n) (gps_error io),
        )
  unfolding run
  timeouts zero m p h =
      let e : m + 0 ≡ m = omega arith in
      let none_yet : from_four m 0 ≡ 0 = omega arith in rw (none_yet, e) refl
  timeouts (suc n) m p h =
      let small : (m + 1) % 2 ^ 32 ≡ m + 1 = omega arith in
      let e : m + 1 + n ≡ m + suc n = omega arith in
      rw (small, timeouts n (m + 1) p (omega arith))
        (ap
            (λ (k : ℕ). some (
              record { protocol = p; num_timeouts = k },
              (if leb 4 (m + 1) then gps_error io ∷ [] else [])
                  ++ replicate (from_four (m + 1) n) (gps_error io),
            ))
            e
          ∙ ap
              (λ (l : List (Notice X)). some (record { protocol = p; num_timeouts = m + suc n }, l))
              (one_more m n (gps_error io)))

  -- Once data has come, the next n timeouts in a row are told to the listener from the fourth on: as
  -- an I/O error each, and nothing else is told.
  pub run-silence :
      (n : ℕ) (text : Bytes) (a : Adapter X) (ok : Bool) (p : Protocol X)
      → parse try_parse text a.protocol ≡ some (ok, p)
      → n < 2 ^ 32
      → run try_parse (received text ∷ replicate n timed_out) a
        ≡ some (
          record { protocol = p; num_timeouts = n },
          gps_data p.members ∷ replicate (n - 3) (gps_error io),
        )
  unfolding run
  run-silence n text a ok p e h =
      let same : 0 + n ≡ n = omega arith in
      let late : from_four 0 n ≡ n - 3 = omega arith in
      rw (e, timeouts n 0 p (omega arith), late, same) refl
