-- ===== src/Wifi/Nl80211/Elements.antt =====
-- The information elements of a scan result.
use precision_location_lite.Base.{
  ℕ, zero, suc, ◌-◌, ◌≤◌, true, List, [], ◌∷◌, ◌++◌, some, ◌==◌, leb, if◌then◌else◌, Bytes, length,
  ◌≡◌, refl, arith, append_assoc, length-append, take-append, drop-append, Bool-cases, inl, inr,
}
use precision_location_lite.Wifi.Nl80211.{parse_elements, ssid_ie_handler, read_bytes}

-- The bytes of elements, each of which is its type and its contents, and the contents of the first of
-- type 0.
abbrev pub Element : Type 0
Element = ℕ × Bytes

abbrev pub encode : List Element → Bytes
encode [] = []
encode ((type, contents) ∷ elements) = type ∷ length contents ∷ (contents ++ encode elements)

abbrev pub first_ssid : Bytes → List Element → Bytes
first_ssid ssid [] = ssid
first_ssid ssid ((type, contents) ∷ elements) =
    if type == 0 then contents else first_ssid ssid elements

read_bytes-append :
    (contents behind : Bytes) → read_bytes (length contents) (contents ++ behind) ≡ some contents
read_bytes-append contents behind =
    let fits : leb (length contents) (length (contents ++ behind)) ≡ true =
      ground (arith, length-append contents behind) in
    rw (fits, take-append contents behind) refl

parse_elements-encode_fuel :
    (elements : List Element) (fuel : ℕ) (behind ssid : Bytes)
    → length (encode elements) ≤ fuel
    → parse_elements ssid_ie_handler fuel
        (length (encode elements))
        (encode elements ++ behind)
        ssid
      ≡ some (first_ssid ssid elements)
unfolding parse_elements
parse_elements-encode_fuel [] fuel behind ssid h = refl
parse_elements-encode_fuel (e ∷ elements) zero behind ssid h = absurd (omega arith)
parse_elements-encode_fuel ((type, contents) ∷ elements) (suc fuel) behind ssid h =
    let split : (contents ++ encode elements) ++ behind ≡ contents ++ (encode elements ++ behind) =
      append_assoc contents (encode elements) behind in
    let all = length-append contents (encode elements) in
    let left : suc (length (contents ++ encode elements)) - 1 - length contents
        ≡ length (encode elements) =
      omega (arith, all) in
    elim (Bool-cases (type == 0)) [
      | inl named ↦ rw (named, split, read_bytes-append contents (encode elements ++ behind)) refl
      | inr other ↦
          rw (other, split, drop-append contents (encode elements ++ behind), left)
            (parse_elements-encode_fuel elements fuel behind ssid (omega (arith, all)))
    ]

pub parse_elements-encode :
    (elements : List Element) (behind ssid : Bytes)
    → parse_elements ssid_ie_handler
        (length (encode elements))
        (length (encode elements))
        (encode elements ++ behind)
        ssid
      ≡ some (first_ssid ssid elements)
parse_elements-encode elements behind ssid =
    parse_elements-encode_fuel elements (length (encode elements)) behind ssid (omega arith)
