-- ===== src/Api/Client/Fixes.antt =====
-- `GpsWrapper` keeps a fix once: neighbours in its list have different times.
use precision_location_lite.Api.Client.{last_gps_time, add_fix, on_gps_data, get_fixes}
use precision_location_lite.Base.{
  ℕ, false, Bool-cases, Option-cases, some_inj, List, [], ◌∷◌, ◌++◌, Option, none, some, inl, inr,
  ◌≡◌, ◌≢◌, refl, ap, ◌∙◌, sym, arith, ◌==◌,
}
use precision_location_lite.Base.Bits.{==→eq}
use precision_location_lite.Gps.{Fix, GpsData}

clash : {o : Option ℕ} {t : ℕ} → o ≡ none → o ≡ some t → ⊥
clash a b = cc

differs : (a b : ℕ) → (a == b) ≡ false → a ≢ b
differs a b h = ground arith

module _ {D F : Type 0} where
  -- Neighbours have different times.
  abbrev pub IsDeduplicated : List (Fix D F) → Type 0
  IsDeduplicated [] = Unit
  IsDeduplicated (a ∷ fixes) = elim fixes [
    | [] ↦ Unit
    | b ∷ more ↦ (a.gps_time ≢ b.gps_time) × IsDeduplicated fixes
  ]

  snoc-IsDeduplicated :
      (fixes : List (Fix D F)) (f : Fix D F)
      → IsDeduplicated fixes
      → ((t : ℕ) → last_gps_time fixes ≡ some t → t ≢ f.gps_time)
      → IsDeduplicated (fixes ++ (f ∷ []))
  snoc-IsDeduplicated [] f h last = tt
  snoc-IsDeduplicated (a ∷ []) f h last = (last a.gps_time refl, tt)
  snoc-IsDeduplicated (a ∷ b ∷ more) f (ne, h) last =
      (ne, snoc-IsDeduplicated (b ∷ more) f h (λ t e. last t (rw e refl)))

  last-snoc :
      (fixes : List (Fix D F)) (f : Fix D F) → last_gps_time (fixes ++ (f ∷ [])) ≡ some f.gps_time
  last-snoc [] f = refl
  last-snoc (a ∷ fixes) f = rw (last-snoc fixes f) refl

  -- The time of the fix that was received last, or what was known before.
  abbrev pub last_received : Option ℕ → List (GpsData D F) → Option ℕ
  last_received t [] = t
  last_received t (gps_data ∷ events) = elim gps_data.fix [
    | none ↦ last_received t events
    | some fix ↦ last_received (some fix.gps_time) events
  ]

  pub record IsKept (fixes : List (Fix D F)) (t : Option ℕ) : Type 0 where
    pub distinct : IsDeduplicated fixes
    pub newest : last_gps_time fixes ≡ t

  add_fix-IsKept :
      (fixes : List (Fix D F)) (f : Fix D F)
      → IsDeduplicated fixes
      → IsKept (add_fix fixes f) (some f.gps_time)
  unfolding add_fix
  add_fix-IsKept fixes f h = elim (Option-cases (last_gps_time fixes)) [
    | inl no_fix ↦
        rw (add_fix, no_fix)
          (record {
            distinct = snoc-IsDeduplicated fixes f h (λ t et. absurd (clash no_fix et));
            newest = last-snoc fixes f;
          })
    | inr (t, last) ↦ elim (Bool-cases (t == f.gps_time)) [
      | inl same ↦
          rw (add_fix, last, same)
            (record { distinct = h; newest = last ∙ ap some (==→eq _ _ same) })
      | inr other ↦
          rw (add_fix, last, other)
            (record {
              distinct = snoc-IsDeduplicated fixes f h (λ t' et.
                  let tt' : t ≡ t' = some_inj (sym last ∙ et) in
                  λ eq. differs t f.gps_time other (tt' ∙ eq));
              newest = last-snoc fixes f;
            })
    ]
  ]

  no_fix_heard :
      (fixes : List (Fix D F)) (d : GpsData D F) → d.fix ≡ none → on_gps_data fixes d ≡ fixes
  unfolding on_gps_data
  no_fix_heard fixes d e = rw e refl

  fix_heard :
      (fixes : List (Fix D F)) (d : GpsData D F) (f : Fix D F)
      → d.fix ≡ some f
      → on_gps_data fixes d ≡ add_fix fixes f
  unfolding on_gps_data
  fix_heard fixes d f e = rw e refl

  no_fix_received :
      (t : Option ℕ) (d : GpsData D F) (events : List (GpsData D F))
      → d.fix ≡ none
      → last_received t (d ∷ events) ≡ last_received t events
  no_fix_received t d events e = rw e refl

  fix_received :
      (t : Option ℕ) (d : GpsData D F) (f : Fix D F) (events : List (GpsData D F))
      → d.fix ≡ some f
      → last_received t (d ∷ events) ≡ last_received (some f.gps_time) events
  fix_received t d f events e = rw e refl

  -- The list that `getFixes` returns after any calls of the listener has no two neighbours with the
  -- same GPS time, and its last fix has the time of the fix that was received last.
  pub get_fixes-IsKept :
      (events : List (GpsData D F)) (fixes : List (Fix D F))
      → IsDeduplicated fixes
      → IsKept (get_fixes fixes events) (last_received (last_gps_time fixes) events)
  unfolding get_fixes
  get_fixes-IsKept [] fixes h = record { distinct = h; newest = refl }
  get_fixes-IsKept (d ∷ events) fixes h = elim (Option-cases d.fix) [
    | inl no_fix ↦
        rw (no_fix_heard fixes d no_fix, no_fix_received (last_gps_time fixes) d events no_fix)
          (get_fixes-IsKept events fixes h)
    | inr (f, heard) ↦
        let kept = add_fix-IsKept fixes f h in
        rw (fix_heard fixes d f heard, fix_received (last_gps_time fixes) d f events heard)
          (rw (kept.newest) at (get_fixes-IsKept events (add_fix fixes f) kept.distinct))
  ]
