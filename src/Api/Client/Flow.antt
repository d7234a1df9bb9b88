-- ===== src/Api/Client/Flow.antt =====
-- What a call of `SHLC_location` sends and returns.
use precision_location_lite.Api.Client.{
  radio_not_available, no_beacons_in_range, unauthorized, is_empty, get_meta_string, get_fixes,
  World, wifi_is_open, get_device_username, scan, read_response, Outcome, give_up, get_location,
  shlc_location,
}
use precision_location_lite.Base.{
  Bool, true, false, ◌&&◌, Bool-cases, Option-cases, List, [], ◌∷◌, none, some, inl, inr, ◌⊎◌, ◌≡◌,
  refl, ap, ◌∙◌, arith, Bytes,
}

module _ (w : World) where
  abbrev pub header : Bytes
  header = get_meta_string w.version w.system

  abbrev pub request : Bytes → Bytes → List w.AP → Bytes
  request key username aps = w.location_rq key username aps w.cells (get_fixes [] w.gps_events)

  -- A request was sent, and the answer read.
  pub record IsAnswered (key : Bytes) (out : Outcome w) : Type 0 where
    pub username : Bytes
    pub aps : List w.AP
    pub opened : wifi_is_open w ≡ true
    pub identified : is_empty username ≡ false
    pub is_user : get_device_username w ≡ username
    pub scanned : scan w ≡ some aps
    pub beacons :
        (is_empty aps && (is_empty w.cells && is_empty (get_fixes [] w.gps_events))) ≡ false
    pub one_request : out.sent ≡ (header, request key username aps) ∷ []
    pub answer :
        (out.code, out.location) ≡ read_response w (w.post header (request key username aps))

  is_empty→eq : {A : Type 0} (xs : List A) → is_empty xs ≡ true → xs ≡ []
  is_empty→eq [] h = refl
  is_empty→eq (x ∷ xs) h = cc

  -- Nothing was sent, for one of three reasons.
  pub data GaveUp : Outcome w → Type 0 where
    no_radio : (wifi_is_open w ≡ false) ⊎ (scan w ≡ none) → GaveUp (give_up w radio_not_available)
    no_user : is_empty (get_device_username w) ≡ true → GaveUp (give_up w unauthorized)
    no_beacon :
        (scan w ≡ some [])
        → (w.cells ≡ [])
        → (get_fixes [] w.gps_events ≡ [])
        → GaveUp (give_up w no_beacons_in_range)

  abbrev asked : Bytes → List w.AP → Outcome w
  asked key aps = get_location w key (get_device_username w) aps w.cells (get_fixes [] w.gps_events)

  get_location-sent :
      (key : Bytes) (aps : List w.AP)
      → ((asked key aps).sent ≡ (header, request key (get_device_username w) aps) ∷ [])
        × (((asked key aps).code, (asked key aps).location)
            ≡ read_response w (w.post header (request key (get_device_username w) aps)))
  unfolding get_location
  get_location-sent key aps = (refl, refl)

  all_empty : (a b c : Bool) → (a && (b && c)) ≡ true → (a ≡ true) × (b ≡ true) × (c ≡ true)
  all_empty a b c h = ground arith

  -- A call of `SHLC_location` either gives up, sends nothing and returns the code of its reason: no
  -- Wi-Fi adapter or no scan, no name for the device, nothing in range. Or it has an open adapter, a
  -- name that is not empty, a completed scan and something in range; then it sends one request, made
  -- of these, and returns what the answer of the server says.
  pub shlc_location-cases :
      (key : Bytes) → GaveUp (shlc_location w key) ⊎ IsAnswered key (shlc_location w key)
  unfolding shlc_location
  shlc_location-cases key = elim (Bool-cases (wifi_is_open w)) [
    | inr closed ↦ rw closed (inl (no_radio (inl closed)))
    | inl opened ↦ elim (Bool-cases (is_empty (get_device_username w))) [
      | inl anonymous ↦ rw (opened, anonymous) (inl (no_user anonymous))
      | inr identified ↦ elim (Option-cases (scan w)) [
        | inl failed_scan ↦ rw (opened, identified, failed_scan) (inl (no_radio (inr failed_scan)))
        | inr (aps, scanned) ↦
            elim (Bool-cases
              (is_empty aps && (is_empty w.cells && is_empty (get_fixes [] w.gps_events)))) [
                | inl nothing_there ↦
                    let (a, b, c) = all_empty _ _ _ nothing_there in
                    rw (opened, identified, scanned, nothing_there)
                      (inl (
                        no_beacon (scanned ∙ ap some (is_empty→eq aps a)) (is_empty→eq w.cells b)
                          (is_empty→eq (get_fixes [] w.gps_events) c)))
                | inr beacons ↦ inr (record {
                  username = get_device_username w;
                  aps = aps;
                  opened = opened;
                  identified = identified;
                  is_user = refl;
                  scanned = scanned;
                  beacons = beacons;
                  one_request =
                      rw (opened, identified, scanned, beacons) (get_location-sent key aps).0;
                  answer = rw (opened, identified, scanned, beacons) (get_location-sent key aps).1;
                })
              ]
      ]
    ]
  ]
