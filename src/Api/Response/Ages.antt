-- ===== src/Api/Response/Ages.antt =====
-- The first location of an answer, and the age that the client is told.
use precision_location_lite.Base.{
  ℕ, ◌+◌, List, [], ◌∷◌, none, some, ◌≡◌, refl, arith, some_inj, codes, Bool-cases, inl, inr,
  Option-cases, ◌↔◌,
}
use mathlib.Core.Path.{subst}
use precision_location_lite.Base.Int.{to_ushort}
use precision_location_lite.Api.Dom.{XmlNode, XmlNodes, end, next, children_of}
use precision_location_lite.Api.Response.{
  Reader, location_2d, LiteLocation, ShlcLocation, parse_double, number_of, delta_after,
  parse_location, parse_locations, parse_location_rs, select_single_node, is_named,
}

module _ (r : Reader) where
  -- What the client makes of a "location" element, k milliseconds after it was read.
  abbrev pub told : XmlNode → ℕ → ShlcLocation r.D
  told node age = record {
    latitude = parse_double r node (codes "latitude");
    longitude = parse_double r node (codes "longitude");
    altitude = r.zero_double;
    type = location_2d;
    hpe = parse_double r node (codes "hpe");
    nap = to_ushort (number_of r node (codes "nap"));
    nsat = to_ushort (number_of r node (codes "nsat"));
    ncell = to_ushort (number_of r node (codes "ncell"));
    nlac = to_ushort (number_of r node (codes "nlac"));
    speed = r.minus_one;
    bearing = r.minus_one;
    age = age;
  }

  first_location :
      (tick now : ℕ → ℕ) (i : ℕ) (nodes : XmlNodes) (time_delta : ℕ) (node : XmlNode)
      → select_single_node r nodes (codes "location") ≡ some node
      → (j : ℕ) × (more : List (LiteLocation r.D)) × (parse_locations r tick now i nodes time_delta
          ≡ parse_location r
              (tick j)
              node
              (delta_after (now j) (number_of r node (codes "rqtime")) time_delta)
            ∷ more)
  unfolding select_single_node parse_locations
  first_location tick now i end time_delta node h = cc
  first_location tick now i (next first nodes) time_delta node h =
      elim (Bool-cases (is_named r first (codes "location"))) [
        | inl named ↦
            let same : first ≡ node = some_inj (rw named at h) in
            let delta = delta_after (now i) (number_of r first (codes "rqtime")) time_delta in
            subst
              (λ (n : XmlNode).
                (j : ℕ) × (more : List (LiteLocation r.D)) × (parse_locations r tick now i
                    (next first nodes) time_delta
                  ≡ parse_location r (tick j) n
                      (delta_after (now j) (number_of r n (codes "rqtime")) time_delta)
                    ∷ more))
              same (i, parse_locations r tick now (i + 1) nodes delta, rw named refl)
        | inr other ↦
            let (j, more, e) =
              first_location tick now (i + 1) nodes time_delta node (rw other at h) in
            (j, more, rw other e)
      ]

  no_location :
      (tick now : ℕ → ℕ) (i : ℕ) (nodes : XmlNodes) (time_delta : ℕ)
      → select_single_node r nodes (codes "location") ≡ none
      → parse_locations r tick now i nodes time_delta ≡ []
  unfolding select_single_node parse_locations
  no_location tick now i end time_delta h = refl
  no_location tick now i (next first nodes) time_delta h =
      elim (Bool-cases (is_named r first (codes "location"))) [
        | inl named ↦ absurd (ground (arith, named))
        | inr other ↦ rw other (no_location tick now (i + 1) nodes time_delta (rw other at h))
      ]

  -- `parseLocationRS` returns false exactly if the document has no "location" element of the
  -- protocol's namespace on its second level.
  pub parse_location_rs-none_iff :
      (tick now : ℕ → ℕ) (root : XmlNode) (time_delta : ℕ)
      → (parse_location_rs r tick now (some root) time_delta ≡ none)
        ↔ (select_single_node r (children_of root) (codes "location") ≡ none)
  unfolding parse_location_rs
  parse_location_rs-none_iff tick now root time_delta = (
    λ h. elim (Option-cases (select_single_node r (children_of root) (codes "location"))) [
      | inl absent ↦ absent
      | inr (node, found) ↦
          let (j, more, e) = first_location tick now 0 (children_of root) time_delta node found in
          absurd (cc (rw e at h))
    ],
    λ h. rw (no_location tick now 0 (children_of root) time_delta h) refl,
  )
