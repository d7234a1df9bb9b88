-- ===== src/Api/Request/Pieces.antt =====
-- The pieces that are appended for a scan make up the text of its document.
use precision_location_lite.Base.{
  ℕ, Bool, true, false, not, ◌&&◌, [], ◌∷◌, ◌++◌, Option, some, ◌==◌, if◌then◌else◌, ◌>>=◌, Bytes,
  codes, length, All, ◌≡◌, refl, append_assoc, append-nil, Bool-cases, inl, inr, ◌≢◌,
}
use precision_location_lite.Base.Int.{ℤ, pos, ltb_ℤ, is_zero}
use precision_location_lite.Timer.{delta}
use precision_location_lite.Wifi.Mac
use precision_location_lite.Wifi.AccessPoint.{ScannedAccessPoint}
use precision_location_lite.Cell.{CellTower, CellTowerType, unknown, gsm, umts, lte}
use precision_location_lite.Cell.Scanned.{ScannedCellTower}
use precision_location_lite.Api.Xml.{xml_escape, xml_utf8_test}
use precision_location_lite.Api.Xml.Escape.{xml_escape-escape_rest}
use precision_location_lite.Api.Xml.Utf8.Sequence.{IsByte}
use precision_location_lite.Api.Xml.Utf8.Decision.{Verdict, accepts, refuses, xml_utf8_test-Verdict}
use precision_location_lite.Api.Request.{
  print_long, concat, x_ssid, x_access_point, x_positive_age, x_area, x_cell, x_cell_end,
  x_timing_advance, x_cell_tower,
}
use precision_location_lite.Api.Request.Texts.{
  IsPlain, escape-plain, print_long-IsPlain, to_string-IsPlain, IsXmlText-nonzero,
}
use precision_location_lite.Api.Request.Tree.{
  optional, number, is_true, is_sent, access_point, cell_name, cell_code, cell_tower,
}
use precision_location_lite.Api.Request.Document.{
  leaf, branch, Nodes, nil, cons, escape, print, print_nodes,
}
use precision_location_lite.Api.Request.Document.Spans.{escape_rest-escape}

pub escape-print_long : (n : ℤ) → escape (print_long n) ≡ print_long n
escape-print_long n = escape-plain (print_long n) (print_long-IsPlain n)

-- `<name>text</name>`, where it is there.
abbrev pub piece : Bool → Bytes → Bytes → Bytes
piece present name text =
    if present
    then concat ((b'<' ∷ (name ++ (b'>' ∷ []))) ∷ text ∷ (b'<' ∷ b'/' ∷ (name ++ (b'>' ∷ []))) ∷ [])
    else []

pub if-not : (b : Bool) (s t : Bytes) → (if not b then s else t) ≡ (if b then t else s)
if-not true s t = refl
if-not false s t = refl

pub print_nodes-optional :
    (present : Bool) (name text : Bytes) (nodes : Nodes) (rest : Bytes)
    → print_nodes (optional present (leaf name text) nodes) rest
      ≡ piece present name (escape text) ++ print_nodes nodes rest
unfolding print optional
print_nodes-optional true name text nodes rest = simp (append_assoc, append-nil)
print_nodes-optional false name text nodes rest = refl

x_ssid_lem :
    (include_ssid : Bool) (ssid : Bytes)
    → All IsByte ssid
    → x_ssid include_ssid ssid
      ≡ some (piece (is_sent include_ssid ssid) (codes "ssid") (escape ssid))
unfolding x_ssid
x_ssid_lem include_ssid ssid bytes = elim (Bool-cases (include_ssid && not (length ssid == 0))) [
  | inl wanted ↦ rw wanted (decide (xml_utf8_test ssid) (xml_utf8_test-Verdict ssid bytes))
  | inr unwanted ↦ rw unwanted refl
]
  where
    decide :
        (o : Option Bool)
        → Verdict ssid o
        → (o >>= λ valid.
            if valid
            then (xml_escape ssid >>= λ escaped.
                some (concat (codes "<ssid>" ∷ escaped ∷ codes "</ssid>" ∷ [])))
            else some [])
          ≡ some (piece (is_true o) (codes "ssid") (escape ssid))
    decide _ (accepts text) =
        rw (xml_escape-escape_rest ssid, escape_rest-escape ssid (IsXmlText-nonzero ssid text)) refl
    decide _ (refuses h) = refl

abbrev pub access_point_text : ℕ → Bool → ScannedAccessPoint → Bytes
access_point_text now include_ssid a = concat (
    codes "<access-point><mac>"
    ∷ Mac.to_string a.mac
    ∷ codes "</mac>"
    ∷ piece (is_sent include_ssid a.ssid) (codes "ssid") (escape a.ssid)
    ∷ codes "<signal-strength>"
    ∷ print_long a.rssi
    ∷ codes "</signal-strength>"
    ∷ x_positive_age (delta now a.timestamp)
    ∷ codes "</access-point>"
    ∷ [])

pub x_access_point_lem :
    (now : ℕ) (include_ssid : Bool) (a : ScannedAccessPoint)
    → All IsByte a.ssid
    → x_access_point now include_ssid a ≡ some (access_point_text now include_ssid a)
unfolding x_access_point
x_access_point_lem now include_ssid a bytes = rw (x_ssid_lem include_ssid a.ssid bytes) refl

access_point_parts :
    (mac : Bytes) (sent : Bool) (ssid : Bytes) (rssi age : ℤ) (rest : Bytes)
    → IsPlain mac
    → concat (
          codes "<access-point><mac>"
          ∷ mac
          ∷ codes "</mac>"
          ∷ piece sent (codes "ssid") (escape ssid)
          ∷ codes "<signal-strength>"
          ∷ print_long rssi
          ∷ codes "</signal-strength>"
          ∷ x_positive_age age
          ∷ codes "</access-point>"
          ∷ [])
        ++ rest
      ≡ print
          (branch (codes "access-point") [] (
            cons (leaf (codes "mac") mac) (
              optional sent (leaf (codes "ssid") ssid) (
                cons
                  (number (codes "signal-strength") rssi)
                  (optional (ltb_ℤ (pos 0) age) (number (codes "age") age) nil)))))
          rest
unfolding print
access_point_parts mac sent ssid rssi age rest plain =
    simp (append_assoc, append-nil, print_nodes-optional, escape-print_long, escape-plain mac plain)

pub access_point-print :
    (now : ℕ) (include_ssid : Bool) (a : ScannedAccessPoint) (rest : Bytes)
    → access_point_text now include_ssid a ++ rest ≡ print (access_point now include_ssid a) rest
unfolding access_point
access_point-print now include_ssid a rest =
    access_point_parts (Mac.to_string a.mac) (is_sent include_ssid a.ssid) a.ssid a.rssi
      (delta now a.timestamp) rest (to_string-IsPlain a.mac)

abbrev cell_text : CellTowerType → CellTower → Bytes
cell_text lte cell = concat (
    codes "<lte-tower><mcc>"
    ∷ print_long (pos cell.mcc)
    ∷ codes "</mcc><mnc>"
    ∷ print_long (pos cell.mnc)
    ∷ codes "</mnc><eucid>"
    ∷ print_long cell.ci
    ∷ codes "</eucid>"
    ∷ [])
cell_text gsm cell = codes "<gsm-tower>" ++ x_area cell
cell_text other cell = codes "<umts-tower>" ++ x_area cell

x_cell_lem :
    (type : CellTowerType) (cell : CellTower)
    → type ≢ unknown
    → x_cell type cell ≡ some (cell_text type cell)
x_cell_lem unknown cell h = absurd (h refl)
x_cell_lem gsm cell h = refl
x_cell_lem umts cell h = refl
x_cell_lem lte cell h = refl

cell_parts :
    (type : CellTowerType) (cell : CellTower) (rssi timing age : ℤ) (rest : Bytes)
    → type ≢ unknown
    → concat (
          cell_text type cell
          ∷ codes "<rssi>"
          ∷ print_long rssi
          ∷ codes "</rssi>"
          ∷ x_timing_advance timing
          ∷ x_positive_age age
          ∷ x_cell_end type
          ∷ [])
        ++ rest
      ≡ print
          (branch (cell_name type) [] (
            cell_code type cell (
              cons (number (codes "rssi") rssi) (
                optional
                  (not (is_zero timing))
                  (number (codes "timing-advance") timing)
                  (optional (ltb_ℤ (pos 0) age) (number (codes "age") age) nil)))))
          rest
unfolding print cell_code
cell_parts unknown cell rssi timing age rest h = absurd (h refl)
cell_parts gsm cell rssi timing age rest h =
    simp (append_assoc, append-nil, print_nodes-optional, escape-print_long, if-not)
cell_parts umts cell rssi timing age rest h =
    simp (append_assoc, append-nil, print_nodes-optional, escape-print_long, if-not)
cell_parts lte cell rssi timing age rest h =
    simp (append_assoc, append-nil, print_nodes-optional, escape-print_long, if-not)

pub x_cell_tower_lem :
    (now : ℕ) (s : ScannedCellTower)
    → s.cell.type ≢ unknown
    → (text : Bytes) × (x_cell_tower now s ≡ some text)
      × ((rest : Bytes) → text ++ rest ≡ print (cell_tower now s) rest)
unfolding x_cell_tower cell_tower
x_cell_tower_lem now s known = (
  concat (
      cell_text s.cell.type s.cell
      ∷ codes "<rssi>"
      ∷ print_long s.rssi
      ∷ codes "</rssi>"
      ∷ x_timing_advance s.timing
      ∷ x_positive_age (delta now s.timestamp)
      ∷ x_cell_end s.cell.type
      ∷ []),
  rw (x_cell_lem s.cell.type s.cell known) refl,
  λ rest. cell_parts s.cell.type s.cell s.rssi s.timing (delta now s.timestamp) rest known,
)
