-- ===== src/Api/Request/Printable.antt =====
-- The elements of a request can be printed and read back.
use precision_location_lite.Base.{
  ℕ, Bool, true, false, not, List, [], ◌∷◌, Option, ◌==◌, Bytes, codes, length, All, ◌≡◌, refl,
  arith,
}
use precision_location_lite.Base.Int.{ℤ, pos, ltb_ℤ, leb_ℤ, is_zero}
use precision_location_lite.Timer.{delta}
use precision_location_lite.Wifi.Mac
use precision_location_lite.Wifi.AccessPoint.{ScannedAccessPoint}
use precision_location_lite.Cell.{unknown, gsm, umts, lte, CellTowerType, CellTower}
use precision_location_lite.Cell.Scanned.{ScannedCellTower}
use precision_location_lite.Gps.{Fix}
use precision_location_lite.Api.Xml.{xml_utf8_test}
use precision_location_lite.Api.Xml.Utf8.Sequence.{IsByte}
use precision_location_lite.Api.Xml.Utf8.Decision.{Verdict, accepts, refuses, xml_utf8_test-Verdict}
use precision_location_lite.Api.Request.{Printing, print_long}
use precision_location_lite.Api.Request.Texts.{
  IsPlain, print_long-IsPlain, print_long-IsFull, to_string-IsPlain, IsXmlText-nonzero,
}
use precision_location_lite.Api.Request.Tree.{
  optional, number, is_true, is_sent, access_point, cell_name, cell_code, cell_tower, gps_location,
  each,
}
use precision_location_lite.Api.Request.Document.{Node, leaf, Nodes, nil}
use precision_location_lite.Api.Request.Document.Spans.{IsName, IsText}
use precision_location_lite.Api.Request.Document.Reading.{
  IsFull, IsPrintable, ArePrintable, HasElements,
}
use precision_location_lite.Api.Request.Refines.{HasBytes}

pub IsPlain-IsText : (s : Bytes) → IsPlain s → IsText s
IsPlain-IsText [] h = tt
IsPlain-IsText (c ∷ s) h = (h.0.1, IsPlain-IsText s h.1)

-- The text of an element that is not empty and needs no escape.
abbrev pub IsNumber : Bytes → Type 0
IsNumber s = IsFull s × IsPlain s

pub leaf-IsPrintable : (name s : Bytes) → IsName name → IsNumber s → IsPrintable (leaf name s)
unfolding IsPrintable
leaf-IsPrintable name s named h = (named, h.0, IsPlain-IsText s h.1)

print_long-IsNumber : (n : ℤ) → IsNumber (print_long n)
print_long-IsNumber n = (print_long-IsFull n, print_long-IsPlain n)

pub number-IsPrintable : (name : Bytes) (n : ℤ) → IsName name → IsPrintable (number name n)
number-IsPrintable name n named = leaf-IsPrintable name (print_long n) named (print_long-IsNumber n)

optional-ArePrintable :
    (present : Bool) (node : Node) (nodes : Nodes)
    → (present ≡ true → IsPrintable node)
    → ArePrintable nodes
    → ArePrintable (optional present node nodes)
unfolding IsPrintable optional
optional-ArePrintable true node nodes h all = (h refl, all)
optional-ArePrintable false node nodes h all = all

pub each-ArePrintable :
    {A : Type 0} (P : A → Type 0) (node : A → Node) (xs : List A) (nodes : Nodes)
    → ((x : A) → P x → IsPrintable (node x))
    → All P xs
    → ArePrintable nodes
    → ArePrintable (each node xs nodes)
unfolding IsPrintable each
each-ArePrintable P node [] nodes h ps all = all
each-ArePrintable P node (x ∷ xs) nodes h ps all =
    (h x ps.0, each-ArePrintable P node xs nodes h ps.1 all)

-- An SSID that is sent.
sent_ssid-IsPrintable :
    (include_ssid : Bool) (ssid : Bytes)
    → All IsByte ssid
    → is_sent include_ssid ssid ≡ true
    → IsPrintable (leaf (codes "ssid") ssid)
unfolding IsPrintable
sent_ssid-IsPrintable include_ssid ssid bytes h = (
  ground arith,
  full ssid (ground arith),
  valid (xml_utf8_test ssid) (xml_utf8_test-Verdict ssid bytes) (ground arith),
)
  where
    full : (s : Bytes) → (length s == 0) ≡ false → IsFull s
    full [] e = cc
    full (c ∷ s) e = tt

    valid : (o : Option Bool) → Verdict ssid o → is_true o ≡ true → IsText ssid
    valid _ (accepts text) e = IsXmlText-nonzero ssid text
    valid _ (refuses wrong) e = cc

pub access_point-IsPrintable :
    (now : ℕ) (include_ssid : Bool) (a : ScannedAccessPoint)
    → HasBytes a
    → IsPrintable (access_point now include_ssid a)
unfolding IsPrintable access_point
access_point-IsPrintable now include_ssid a bytes = (
  ground arith,
  tt,
  tt,
  (
    leaf-IsPrintable (codes "mac") (Mac.to_string a.mac) (ground arith)
        (tt, to_string-IsPlain a.mac),
    optional-ArePrintable (is_sent include_ssid a.ssid) (leaf (codes "ssid") a.ssid) _
        (sent_ssid-IsPrintable include_ssid a.ssid bytes)
        (
          number-IsPrintable (codes "signal-strength") a.rssi (ground arith),
          optional-ArePrintable _ (number (codes "age") (delta now a.timestamp)) nil
              (λ _. number-IsPrintable (codes "age") (delta now a.timestamp) (ground arith)) tt,
        ),
  ),
)

cell_name-IsName : (type : CellTowerType) → IsName (cell_name type)
cell_name-IsName unknown = ground arith
cell_name-IsName gsm = ground arith
cell_name-IsName umts = ground arith
cell_name-IsName lte = ground arith

cell_code-ArePrintable :
    (type : CellTowerType) (cell : CellTower) (nodes : Nodes)
    → ArePrintable nodes
    → ArePrintable (cell_code type cell nodes) × HasElements (cell_code type cell nodes)
unfolding IsPrintable cell_code
cell_code-ArePrintable type cell nodes all =
    elim type
      as (λ type.
        ArePrintable (cell_code type cell nodes) × HasElements (cell_code type cell nodes)) [
          | lte ↦
              ((mcc, (mnc, (number-IsPrintable (codes "eucid") cell.ci (ground arith), all))), tt)
          | unknown ↦ (gsm_code, tt)
          | gsm ↦ (gsm_code, tt)
          | umts ↦ (gsm_code, tt)
        ]
  where
    mcc : IsPrintable (number (codes "mcc") (pos cell.mcc))
    mcc = number-IsPrintable (codes "mcc") (pos cell.mcc) (ground arith)

    mnc : IsPrintable (number (codes "mnc") (pos cell.mnc))
    mnc = number-IsPrintable (codes "mnc") (pos cell.mnc) (ground arith)

    gsm_code : ArePrintable (cell_code gsm cell nodes)
    gsm_code = (
      mcc,
      (
        mnc,
        (
          number-IsPrintable (codes "lac") cell.lac (ground arith),
          (number-IsPrintable (codes "ci") cell.ci (ground arith), all),
        ),
      ),
    )

pub cell_tower-IsPrintable : (now : ℕ) (s : ScannedCellTower) → IsPrintable (cell_tower now s)
unfolding IsPrintable cell_tower
cell_tower-IsPrintable now s =
    let (codes_, some_) = cell_code-ArePrintable s.cell.type s.cell _ (
      number-IsPrintable (codes "rssi") s.rssi (ground arith),
      optional-ArePrintable (not (is_zero s.timing)) (number (codes "timing-advance") s.timing) _
          (λ _. number-IsPrintable (codes "timing-advance") s.timing (ground arith))
          (optional-ArePrintable (ltb_ℤ (pos 0) (delta now s.timestamp))
            (number (codes "age") (delta now s.timestamp)) nil
            (λ _. number-IsPrintable (codes "age") (delta now s.timestamp) (ground arith)) tt),
    ) in
    (cell_name-IsName s.cell.type, tt, some_, codes_)

module _ (p : Printing) (numbers : (d : p.D) → IsNumber (p.print_double d)) where
  double-IsPrintable :
      (name : Bytes) (d : p.D) → IsName name → IsPrintable (leaf name (p.print_double d))
  double-IsPrintable name d named = leaf-IsPrintable name (p.print_double d) named (numbers d)

  pub gps_location-IsPrintable :
      (now : ℕ) (fix : Fix p.D p.F) → IsPrintable (gps_location p now fix)
  unfolding IsPrintable gps_location
  gps_location-IsPrintable now fix =
      let from_age =
        optional (leb_ℤ (pos 0) (delta now fix.local_time))
          (number (codes "age") (delta now fix.local_time)) nil in
      let from_age_ok : ArePrintable from_age =
        optional-ArePrintable (leb_ℤ (pos 0) (delta now fix.local_time))
          (number (codes "age") (delta now fix.local_time)) nil
          (λ _. number-IsPrintable (codes "age") (delta now fix.local_time) (ground arith)) tt in
      let from_bearing =
        optional (not (p.is_max fix.bearing)) (leaf (codes "bearing") (p.print_double fix.bearing))
          from_age in
      let from_bearing_ok : ArePrintable from_bearing =
        optional-ArePrintable (not (p.is_max fix.bearing))
          (leaf (codes "bearing") (p.print_double fix.bearing)) from_age
          (λ _. double-IsPrintable (codes "bearing") fix.bearing (ground arith)) from_age_ok in
      let from_speed =
        optional (not (p.is_max fix.speed)) (leaf (codes "speed") (p.print_double fix.speed))
          from_bearing in
      let from_speed_ok : ArePrintable from_speed =
        optional-ArePrintable (not (p.is_max fix.speed))
          (leaf (codes "speed") (p.print_double fix.speed)) from_bearing
          (λ _. double-IsPrintable (codes "speed") fix.speed (ground arith)) from_bearing_ok in
      let from_height =
        optional (not (p.is_max fix.height)) (leaf (codes "height") (p.print_double fix.height))
          from_speed in
      let from_height_ok : ArePrintable from_height =
        optional-ArePrintable (not (p.is_max fix.height))
          (leaf (codes "height") (p.print_double fix.height)) from_speed
          (λ _. double-IsPrintable (codes "height") fix.height (ground arith)) from_speed_ok in
      let from_altitude =
        optional (not (p.is_max fix.altitude))
          (leaf (codes "altitude") (p.print_double fix.altitude)) from_height in
      let from_altitude_ok : ArePrintable from_altitude =
        optional-ArePrintable (not (p.is_max fix.altitude))
          (leaf (codes "altitude") (p.print_double fix.altitude)) from_height
          (λ _. double-IsPrintable (codes "altitude") fix.altitude (ground arith)) from_height_ok in
      let from_hpe =
        optional (not (p.is_zero_float fix.hpe)) (number (codes "hpe") (p.int_of_float fix.hpe))
          from_altitude in
      let from_hpe_ok : ArePrintable from_hpe =
        optional-ArePrintable (not (p.is_zero_float fix.hpe))
          (number (codes "hpe") (p.int_of_float fix.hpe)) from_altitude
          (λ _. number-IsPrintable (codes "hpe") (p.int_of_float fix.hpe) (ground arith))
          from_altitude_ok in
      (
        ground arith,
        (
          (ground arith, IsPlain-IsText _ (print_long-IsPlain (pos fix.quality))),
          ((ground arith, IsPlain-IsText _ (print_long-IsPlain (pos fix.sv_in_fix))), tt),
        ),
        tt,
        (
          double-IsPrintable (codes "latitude") fix.latitude (ground arith),
          (double-IsPrintable (codes "longitude") fix.longitude (ground arith), from_hpe_ok),
        ),
      )
