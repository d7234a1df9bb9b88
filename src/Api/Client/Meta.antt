-- ===== src/Api/Client/Meta.antt =====
-- The "Skyhook-Meta" header can be taken apart again.
use precision_location_lite.Api.Client.{
  is_valid_for_meta, validate_for_meta, SystemInfo, get_meta_string,
}
use precision_location_lite.Base.{
  ◌≤◌, ◌<◌, ◌≢◌, true, false, Bool-cases, List, [], ◌∷◌, ◌++◌, inl, inr, ◌≡◌, refl, ap, ◌∙◌, arith,
  ◌==◌, if◌then◌else◌, Bytes, codes, All,
}

-- The parts of a text between semicolons.
unfoldable pub split : Bytes → List Bytes
split [] = [] ∷ []
split (c ∷ s) =
    let rest = split s in
    if c == b';'
    then [] ∷ rest
    else elim rest [ [] ↦ (c ∷ []) ∷ [] | part ∷ parts ↦ (c ∷ part) ∷ parts ]

-- Printable ASCII without a semicolon.
abbrev pub IsPart : Bytes → Type 0
IsPart = All (λ c. (32 ≤ c) × (c < 127) × (c ≢ b';'))

split-last : (part : Bytes) → IsPart part → split part ≡ part ∷ []
unfolding split
split-last [] h = refl
split-last (c ∷ part) ((lo, hi, ne), h) =
    let other : (c == b';') ≡ false = ground arith in rw (other, split-last part h) refl

split-part : (part rest : Bytes) → IsPart part → split (part ++ (b';' ∷ rest)) ≡ part ∷ split rest
unfolding split
split-part [] rest h = refl
split-part (c ∷ part) rest ((lo, hi, ne), h) =
    let other : (c == b';') ≡ false = ground arith in rw (other, split-part part rest h) refl

valid-IsPart : (s : Bytes) → is_valid_for_meta s ≡ true → IsPart s
valid-IsPart [] h = tt
valid-IsPart (c ∷ s) h = ((ground arith, ground arith, ground arith), valid-IsPart s (ground arith))

validate_for_meta-IsPart : (s : Bytes) → IsPart (validate_for_meta s)
validate_for_meta-IsPart s = elim (Bool-cases (is_valid_for_meta s)) [
  | inl valid ↦ rw valid (valid-IsPart s valid)
  | inr other ↦ rw other tt
]

prefix : (s : Bytes) → split (codes "1;shlc;" ++ s) ≡ codes "1" ∷ codes "shlc" ∷ split s
unfolding split
prefix s = refl

-- Whatever the operating system says of itself, the header has seven parts between semicolons: "1",
-- "shlc", the version, if that is a part, and the four strings, each left empty unless it is
-- printable ASCII without semicolons.
pub get_meta_string-split :
    (version : Bytes) (info : SystemInfo)
    → IsPart version
    → split (get_meta_string version info)
      ≡ codes "1"
        ∷ codes "shlc"
        ∷ version
        ∷ validate_for_meta info.os_type
        ∷ validate_for_meta info.os_version
        ∷ validate_for_meta info.manufacturer
        ∷ validate_for_meta info.model
        ∷ []
get_meta_string-split version info h =
    let part = validate_for_meta-IsPart in
    prefix _
    ∙ ap (λ ps. codes "1" ∷ codes "shlc" ∷ ps)
        (split-part version _ h
          ∙ ap (◌∷◌ version) (
              split-part (validate_for_meta info.os_type) _ (part info.os_type)
              ∙ ap (◌∷◌ (validate_for_meta info.os_type)) (
                  split-part (validate_for_meta info.os_version) _ (part info.os_version)
                  ∙ ap (◌∷◌ (validate_for_meta info.os_version)) (
                      split-part (validate_for_meta info.manufacturer) _ (part info.manufacturer)
                      ∙ ap (◌∷◌ (validate_for_meta info.manufacturer))
                          (split-last (validate_for_meta info.model) (part info.model))))))
