-- ===== src/Gps/Serial/Port.antt =====
-- The adapter over the reading thread of a Unix port.
use precision_location_lite.Base.{
  ℕ, true, List, [], ◌∷◌, Option, none, some, Bytes, length, All, ◌≡◌, refl, arith, >>=-eq-some,
  some_pair_inj, Option-cases, inl, inr, ◌⊎◌,
}
use precision_location_lite.Gps.Protocol.{Protocol, parse}
use precision_location_lite.Gps.Serial.{
  Adapter, Notice, gps_data, gps_error, Event, received, Outcome, select_failed, select_timed_out,
  stop_signal, end_of_file, read_failed, byte, on_data, run, read_thread,
}

-- The calls of `onData` that the thread makes: one for each byte before it ends.
unfoldable pub calls : List Outcome → List Event
calls [] = []
calls (select_failed ∷ more) = []
calls (stop_signal ∷ more) = []
calls (read_failed ∷ more) = []
calls (select_timed_out ∷ more) = calls more
calls (end_of_file ∷ more) = calls more
calls (byte c ∷ more) = received (c ∷ []) ∷ calls more

abbrev pub IsData : {X : Type 0} → Notice X → Type 0
IsData (gps_data x) = Unit {0}
IsData (gps_error code) = ⊥

module _ {X : Type 0} (try_parse : Bytes → X → Option (ℕ × X)) where
  read_thread-run :
      (outcomes : List Outcome) (a : Adapter X)
      → read_thread try_parse outcomes a ≡ run try_parse (calls outcomes) a
  unfolding read_thread run calls
  read_thread-run [] a = refl
  read_thread-run (select_failed ∷ more) a = refl
  read_thread-run (stop_signal ∷ more) a = refl
  read_thread-run (read_failed ∷ more) a = refl
  read_thread-run (select_timed_out ∷ more) a = read_thread-run more a
  read_thread-run (end_of_file ∷ more) a = read_thread-run more a
  read_thread-run (byte c ∷ more) a = elim (Option-cases (on_data try_parse (c ∷ []) a)) [
    | inl failed ↦ rw failed refl
    | inr ((go, a', notices), e) ↦ rw (e, read_thread-run more a') refl
  ]

  on_data-cases :
      (text : Bytes) (a : Adapter X)
      → (on_data try_parse text a ≡ none)
        ⊎ ((p : Protocol X) × (on_data try_parse text a
              ≡ some (true, record { protocol = p; num_timeouts = 0 }, gps_data p.members ∷ [])))
  unfolding on_data
  on_data-cases text a = elim (Option-cases (parse try_parse text a.protocol)) [
    | inl failed ↦ inl (rw failed refl)
    | inr ((ok, p), e) ↦ inr (p, rw e refl)
  ]

  -- Whatever happens at a Unix port, the listener hears `onGpsData` once for each byte that is read
  -- before the thread ends, and never `onGpsError`: neither a receiver that is silent nor a port
  -- that cannot be read is reported.
  pub read_thread-IsData :
      (outcomes : List Outcome) (a a' : Adapter X) (notices : List (Notice X))
      → read_thread try_parse outcomes a ≡ some (a', notices)
      → All IsData notices × (length notices ≡ length (calls outcomes))
  unfolding read_thread calls
  read_thread-IsData [] a a' notices h = rw (← (some_pair_inj h).1) (tt, omega arith)
  read_thread-IsData (select_failed ∷ more) a a' notices h =
      rw (← (some_pair_inj h).1) (tt, omega arith)
  read_thread-IsData (stop_signal ∷ more) a a' notices h =
      rw (← (some_pair_inj h).1) (tt, omega arith)
  read_thread-IsData (read_failed ∷ more) a a' notices h =
      rw (← (some_pair_inj h).1) (tt, omega arith)
  read_thread-IsData (select_timed_out ∷ more) a a' notices h =
      read_thread-IsData more a a' notices h
  read_thread-IsData (end_of_file ∷ more) a a' notices h = read_thread-IsData more a a' notices h
  read_thread-IsData (byte c ∷ more) a a' notices h = elim (on_data-cases (c ∷ []) a) [
    | inl failed ↦ cc (rw failed at h)
    | inr (p, e) ↦
        let ((a'', others), rest, out) =
          >>=-eq-some (read_thread try_parse more (record { protocol = p; num_timeouts = 0 })) _
            (rw e at h) in
        let (all, count) = read_thread-IsData more _ a'' others rest in
        rw (← (some_pair_inj out).1) ((tt, all), omega (arith, count))
  ]
