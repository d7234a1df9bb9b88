-- ===== src/Wifi/Nl80211/Scan.antt =====
-- What a scan tells the listener, for results as the kernel reports them.
use mathlib.Core.List.{reverse}
use Prim.Native.Nat.{bit_and}
use precision_location_lite.Base.{
  ℕ, true, List, [], ◌∷◌, ◌++◌, Option, some, ◌==◌, leb, if◌then◌else◌, Bytes, length, take, ◌≡◌,
  refl, sym, ap, arith, append_assoc, append-nil, take_all, Bool-cases, inl, inr, All, Bool, false,
  none, ◌&&◌, ◌⊎◌,
}
use precision_location_lite.Base.Int.{signed32, quot, to_short}
use precision_location_lite.Api.Client.{error}
use precision_location_lite.Wifi.AccessPoint.{ScannedAccessPoint, to_dbm}
use precision_location_lite.Wifi.AccessPoint.Strength.{new_access_point-dbm}
use precision_location_lite.Wifi.Nl80211.{
  Parsed, parse_failed, parsed, Bss, Message, scan_failed, to_mac, seen_at, is_associated,
  parse_bss_ie, make_access_point, parse_bss, parse_attributes, parse_access_point, keep_scanned,
  Request, handle, do_request, get_scan, scan_completed, on_scan_completed,
}
use precision_location_lite.Wifi.Nl80211.Elements.{
  Element, encode, first_ssid, parse_elements-encode,
}

-- A result of the kernel: an address of six bytes, the information elements, and in `behind` what
-- follows them in memory.
pub record Result : Type 0 where
  pub tick : ℕ
  pub bssid : Bytes
  pub capability : ℕ
  pub seen_ms_ago : ℕ
  pub signal_mbm : ℕ
  pub elements : List Element
  pub behind : Bytes
  pub status : Option ℕ

abbrev pub bss_of : Result → Bss
bss_of r = record {
  bssid = some r.bssid;
  capability = some r.capability;
  seen_ms_ago = some r.seen_ms_ago;
  signal_mbm = some r.signal_mbm;
  information_elements =
      some (record { len = length (encode r.elements); memory = encode r.elements ++ r.behind });
  status = r.status;
}

abbrev pub message : Result → ℕ × Message
message r = (r.tick, record { is_new_scan_results = true; bss = parsed (some (parsed (bss_of r))) })

-- What a message can be: a complete result; or one of another command, one whose attributes cannot be
-- parsed or are not those of a result, or one that lacks the address, the capability, the age or the
-- signal, whatever else it holds.
pub data Report : Type 0 where
  result : Result → Report
  other_command : ℕ → Parsed (Option (Parsed Bss)) → Report
  not_parsed no_bss bss_not_parsed : ℕ → Report
  without_bssid without_capability without_seen without_signal : ℕ → Bss → Report

abbrev new_results : Parsed (Option (Parsed Bss)) → Message
new_results bss = record { is_new_scan_results = true; bss = bss }

abbrev with_bss : Bss → Message
with_bss bss = new_results (parsed (some (parsed bss)))

abbrev pub message_of : Report → ℕ × Message
message_of (result r) = message r
message_of (other_command tick bss) = (tick, record { is_new_scan_results = false; bss = bss })
message_of (not_parsed tick) = (tick, new_results parse_failed)
message_of (no_bss tick) = (tick, new_results (parsed none))
message_of (bss_not_parsed tick) = (tick, new_results (parsed (some parse_failed)))
message_of (without_bssid tick bss) = (tick, with_bss (record bss { bssid = none }))
message_of (without_capability tick bss) = (tick, with_bss (record bss { capability = none }))
message_of (without_seen tick bss) = (tick, with_bss (record bss { seen_ms_ago = none }))
message_of (without_signal tick bss) = (tick, with_bss (record bss { signal_mbm = none }))

abbrev pub messages : List Report → List (ℕ × Message)
messages [] = []
messages (r ∷ reports) = message_of r ∷ messages reports

-- A request whose messages are these; its calls succeed or not.
abbrev pub answered : Bool → Bool → Bool → Bool → List Report → Request
answered prepared sent allocated received reports = record {
  prepared = prepared;
  sent = sent;
  allocated = allocated;
  messages = messages reports;
  received = received;
}

abbrev pub access_point : Result → ScannedAccessPoint
access_point r = record {
  mac = reverse r.bssid;
  rssi = to_dbm (to_short (quot (signed32 r.signal_mbm) 100));
  timestamp = seen_at r.tick r.seen_ms_ago;
  ssid = first_ssid [] r.elements;
}

-- The access points of the complete results but those of ad-hoc networks, which have the second bit
-- of the capability.
abbrev pub access_points : List Report → List ScannedAccessPoint
access_points [] = []
access_points (result r ∷ reports) =
    if bit_and r.capability 2 == 0
    then access_point r ∷ access_points reports
    else access_points reports
access_points (other ∷ reports) = access_points reports

abbrev pub HasAddress : Report → Type 0
HasAddress (result r) = length r.bssid ≡ 6
HasAddress other = Unit {0}

to_mac-six : (bssid : Bytes) → length bssid ≡ 6 → to_mac bssid ≡ some (reverse bssid)
to_mac-six bssid six =
    let fits : leb 6 (length bssid) ≡ true = ground (arith, six) in
    let all : take 6 bssid ≡ bssid = take_all 6 bssid (omega (arith, six)) in rw (fits, all) refl

module _ (associated : ℕ) where
  make_access_point-result :
      (r : Result) (bss : Bss)
      → length r.bssid ≡ 6
      → bss.information_elements
        ≡ some (record { len = length (encode r.elements); memory = encode r.elements ++ r.behind })
      → make_access_point associated r.tick bss r.bssid r.seen_ms_ago r.signal_mbm
        ≡ some (access_point r, is_associated associated bss.status)
  unfolding make_access_point parse_bss_ie
  make_access_point-result r bss six elements =
      rw
        (
          to_mac-six r.bssid six,
          elements,
          parse_elements-encode r.elements r.behind [],
          new_access_point-dbm,
        )
        refl

  parse_bss-missing :
      (tick : ℕ) (bss : Bss) (bssid : Option Bytes) (capability seen signal : Option ℕ)
      → (bssid ≡ none) ⊎ (capability ≡ none) ⊎ (seen ≡ none) ⊎ (signal ≡ none)
      → parse_bss associated tick bss bssid capability seen signal ≡ some none
  unfolding parse_bss
  parse_bss-missing tick bss none capability seen signal h = refl
  parse_bss-missing tick bss (some b) none seen signal h = refl
  parse_bss-missing tick bss (some b) (some c) none signal h = refl
  parse_bss-missing tick bss (some b) (some c) (some s) none h = refl
  parse_bss-missing tick bss (some b) (some c) (some s) (some m) (inl h) = cc
  parse_bss-missing tick bss (some b) (some c) (some s) (some m) (inr (inl h)) = cc
  parse_bss-missing tick bss (some b) (some c) (some s) (some m) (inr (inr (inl h))) = cc
  parse_bss-missing tick bss (some b) (some c) (some s) (some m) (inr (inr (inr h))) = cc

  abbrev kept : Result → Bool → Option (ScannedAccessPoint × Bool)
  kept r infrastructure =
      if infrastructure then some (access_point r, is_associated associated r.status) else none

  parse_bss-result :
      (r : Result)
      → length r.bssid ≡ 6
      → parse_bss associated r.tick
          (bss_of r)
          (some r.bssid)
          (some r.capability)
          (some r.seen_ms_ago)
          (some r.signal_mbm)
        ≡ some (kept r (bit_and r.capability 2 == 0))
  unfolding parse_bss
  parse_bss-result r six = elim (Bool-cases (bit_and r.capability 2 == 0)) [
    | inl infrastructure ↦ rw (infrastructure, make_access_point-result r (bss_of r) six refl) refl
    | inr ad_hoc ↦ rw ad_hoc refl
  ]

  handle-messages :
      (reports : List Report) (scan : List ScannedAccessPoint)
      → All HasAddress reports
      → handle associated keep_scanned (messages reports) scan
        ≡ some (scan ++ access_points reports)
  unfolding handle parse_access_point parse_attributes
  handle-messages [] scan h = ap some (sym (append-nil scan))
  handle-messages (result r ∷ reports) scan h =
      rw (parse_bss-result r h.0) (elim (Bool-cases (bit_and r.capability 2 == 0)) [
        | inl infrastructure ↦
            rw (infrastructure, handle-messages reports (scan ++ (access_point r ∷ [])) h.1)
              (ap some (append_assoc scan (access_point r ∷ []) (access_points reports)))
        | inr ad_hoc ↦ rw ad_hoc (handle-messages reports scan h.1)
      ])
  handle-messages (other_command tick bss ∷ reports) scan h = handle-messages reports scan h.1
  handle-messages (not_parsed tick ∷ reports) scan h = handle-messages reports scan h.1
  handle-messages (no_bss tick ∷ reports) scan h = handle-messages reports scan h.1
  handle-messages (bss_not_parsed tick ∷ reports) scan h = handle-messages reports scan h.1
  handle-messages (without_bssid tick bss ∷ reports) scan h = handle-messages reports scan h.1
  handle-messages (without_capability tick bss ∷ reports) scan h =
      rw
        (parse_bss-missing tick (record bss { capability = none }) bss.bssid none bss.seen_ms_ago
          bss.signal_mbm (inr (inl refl)))
        (handle-messages reports scan h.1)
  handle-messages (without_seen tick bss ∷ reports) scan h =
      rw
        (parse_bss-missing tick (record bss { seen_ms_ago = none }) bss.bssid bss.capability none
          bss.signal_mbm (inr (inr (inl refl))))
        (handle-messages reports scan h.1)
  handle-messages (without_signal tick bss ∷ reports) scan h =
      rw
        (parse_bss-missing tick (record bss { signal_mbm = none }) bss.bssid bss.capability
          bss.seen_ms_ago none (inr (inr (inr refl))))
        (handle-messages reports scan h.1)

  -- The listener is told of a failed scan if a call of the request fails. If none does, it is told of
  -- the access points of the complete results but those of ad-hoc networks, in order, and messages that
  -- are no complete result are passed over: an access point has the six bytes of the address reversed,
  -- the signal as a `short` in dBm, the age as the kernel gives it, and the contents of the first
  -- information element of type 0 as the name. The addresses have six bytes, and the information
  -- elements of complete results are there and whole.
  pub on_scan_completed-results :
      (prepared sent allocated received : Bool) (reports : List Report)
      → All HasAddress reports
      → on_scan_completed associated (answered prepared sent allocated received reports)
        ≡ some (
            if prepared && sent && allocated && received
            then scan_completed (access_points reports)
            else scan_failed error)
  unfolding on_scan_completed get_scan do_request
  on_scan_completed-results false sent allocated received reports h = refl
  on_scan_completed-results true false allocated received reports h = refl
  on_scan_completed-results true true false received reports h = refl
  on_scan_completed-results true true true false reports h = rw (handle-messages reports [] h) refl
  on_scan_completed-results true true true true reports h = rw (handle-messages reports [] h) refl
