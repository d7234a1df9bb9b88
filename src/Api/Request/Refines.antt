-- ===== src/Api/Request/Refines.antt =====
-- `locationRQ` writes the text of the document of a scan, and a reader finds the document in it.
use precision_location_lite.Base.{
  ℕ, Bool, List, [], ◌∷◌, ◌++◌, some, Bytes, codes, All, ◌≡◌, ◌≢◌, refl, ap, ◌∙◌, append_assoc,
  append-nil, ◌<◌, length, ltb, not, true, false, if◌then◌else◌, arith,
}
use precision_location_lite.Base.Int.{pos, leb_ℤ}
use precision_location_lite.Timer.{delta}
use precision_location_lite.Wifi.AccessPoint.{ScannedAccessPoint}
use precision_location_lite.Cell.{unknown}
use precision_location_lite.Cell.Scanned.{ScannedCellTower}
use precision_location_lite.Gps.{Fix}
use precision_location_lite.Api.Xml.Utf8.Sequence.{IsByte}
use precision_location_lite.Api.Request.{
  Printing, Scan, concat, x_access_points, x_cell_towers, x_gps_location, x_gps_locations,
  x_optional, append_buffer, x_age, print_long, x_authentication, x_version, location_rq,
  namespace_uri, version,
}
use precision_location_lite.Api.Request.Texts.{IsPlain, escape-plain}
use precision_location_lite.Api.Request.Tree.{
  access_point, cell_tower, gps_location, each, authentication, location_request,
}
use precision_location_lite.Api.Request.Document.{
  Node, branch, Nodes, nil, cons, escape, print, print_nodes, print_end, print_attributes,
}
use precision_location_lite.Api.Request.Pieces.{
  escape-print_long, print_nodes-optional, if-not, access_point_text, x_access_point_lem,
  access_point-print, x_cell_tower_lem,
}

-- What `locationRQ` can be given: the SSID of an access point is a byte string, and no cell is null.
abbrev pub HasBytes : ScannedAccessPoint → Type 0
HasBytes a = All IsByte a.ssid

abbrev pub IsKnown : ScannedCellTower → Type 0
IsKnown s = s.cell.type ≢ unknown

-- `text` is what prints the elements that `front` puts in front of others.
abbrev Prints : Bytes → (Nodes → Nodes) → Type 0
Prints text front =
    (nodes : Nodes) (rest : Bytes) → text ++ print_nodes nodes rest ≡ print_nodes (front nodes) rest

Prints-cons :
    (text more : Bytes) (node : Node) (front : Nodes → Nodes)
    → ((rest : Bytes) → text ++ rest ≡ print node rest)
    → Prints more front
    → Prints (text ++ more) (λ nodes. cons node (front nodes))
unfolding print
Prints-cons text more node front one others nodes rest =
    append_assoc text more (print_nodes nodes rest)
    ∙ ap (λ (s : Bytes). text ++ s) (others nodes rest)
    ∙ one _

x_access_points_lem :
    (now : ℕ) (include_ssid : Bool) (aps : List ScannedAccessPoint)
    → All HasBytes aps
    → (text : Bytes) × (x_access_points now include_ssid aps ≡ some text)
      × Prints text (each (access_point now include_ssid) aps)
unfolding x_access_points each
x_access_points_lem now include_ssid [] h = ([], refl, λ nodes rest. refl)
x_access_points_lem now include_ssid (a ∷ aps) h =
    let (more, e, printed) = x_access_points_lem now include_ssid aps h.1 in
    (
      access_point_text now include_ssid a ++ more,
      rw (x_access_point_lem now include_ssid a h.0, e) refl,
      Prints-cons (access_point_text now include_ssid a) more (access_point now include_ssid a)
          (each (access_point now include_ssid) aps) (access_point-print now include_ssid a)
          printed,
    )

x_cell_towers_lem :
    (now : ℕ) (cells : List ScannedCellTower)
    → All IsKnown cells
    → (text : Bytes) × (x_cell_towers now cells ≡ some text)
      × Prints text (each (cell_tower now) cells)
unfolding x_cell_towers each
x_cell_towers_lem now [] h = ([], refl, λ nodes rest. refl)
x_cell_towers_lem now (c ∷ cells) h =
    let (text, e, printed) = x_cell_tower_lem now c h.0 in
    let (more, e', others) = x_cell_towers_lem now cells h.1 in
    (
      text ++ more,
      rw (e, e') refl,
      Prints-cons text more (cell_tower now c) (each (cell_tower now) cells) printed others,
    )

-- The outermost element, around the texts of its parts.
whole :
    (auth aps cells gps : Bytes) (nodes : Nodes)
    → auth ++ (aps ++ (cells ++ (gps ++ print_end (codes "LocationRQ") [])))
      ≡ print_nodes nodes (print_end (codes "LocationRQ") [])
    → concat (
        codes "<LocationRQ "
        ∷ x_version
        ∷ codes ">"
        ∷ concat (auth ∷ aps ∷ cells ∷ gps ∷ [])
        ∷ codes "</LocationRQ>"
        ∷ [])
      ≡ print
          (branch
            (codes "LocationRQ")
            ((codes "xmlns", namespace_uri) ∷ (codes "version", version) ∷ [])
            nodes)
          []
unfolding print print_attributes escape
whole auth aps cells gps nodes e =
    simp (append_assoc, append-nil)
      (ap
        (λ (s : Bytes).
          codes "<LocationRQ xmlns='http://skyhookwireless.com/wps/2005' version='2.23'>" ++ s)
        e)

-- The numbers of a fix that are sent, each printed with at most 31 characters.
abbrev pub IsShort : (p : Printing) → p.D → Type 0
IsShort p d = length (p.print_double d) < 32

abbrev pub HasShortNumbers : (p : Printing) → Fix p.D p.F → Type 0
HasShortNumbers p fix =
    IsShort p fix.latitude
    × IsShort p fix.longitude
    × (not (p.is_max fix.altitude) ≡ true → IsShort p fix.altitude)
    × (not (p.is_max fix.height) ≡ true → IsShort p fix.height)
    × (not (p.is_max fix.speed) ≡ true → IsShort p fix.speed)
    × (not (p.is_max fix.bearing) ≡ true → IsShort p fix.bearing)

append_buffer-short : (text : Bytes) → length text < 32 → append_buffer text ≡ some text
append_buffer-short text h = let e : ltb (length text) 32 ≡ true = ground (arith, h) in rw e refl

abbrev optional_text : Bool → Bytes → Bytes → Bytes → Bytes
optional_text is_set start value end = if is_set then concat (start ∷ value ∷ end ∷ []) else []

x_optional-short :
    (p : Printing) (is_set : Bool) (start value end : Bytes)
    → (is_set ≡ true → length value < 32)
    → x_optional p is_set start (append_buffer value) end
      ≡ some (optional_text is_set start value end)
unfolding x_optional
x_optional-short p true start value end h = rw (append_buffer-short value (h refl)) refl
x_optional-short p false start value end h = refl

x_optional-some :
    (p : Printing) (is_set : Bool) (start value end : Bytes)
    → x_optional p is_set start (some value) end ≡ some (optional_text is_set start value end)
unfolding x_optional
x_optional-some p true start value end = refl
x_optional-some p false start value end = refl

-- What is appended for a fix whose numbers are short.
unfoldable gps_location_text : (p : Printing) → ℕ → Fix p.D p.F → Bytes
unfolding delta
gps_location_text p now fix = concat (
    codes "<gps-location fix='"
    ∷ print_long (pos fix.quality)
    ∷ codes "' nsat='"
    ∷ print_long (pos fix.sv_in_fix)
    ∷ codes "'><latitude>"
    ∷ p.print_double fix.latitude
    ∷ codes "</latitude><longitude>"
    ∷ p.print_double fix.longitude
    ∷ codes "</longitude>"
    ∷ optional_text (not (p.is_zero_float fix.hpe)) (codes "<hpe>")
        (print_long (p.int_of_float fix.hpe)) (codes "</hpe>")
    ∷ optional_text (not (p.is_max fix.altitude)) (codes "<altitude>") (p.print_double fix.altitude)
        (codes "</altitude>")
    ∷ optional_text (not (p.is_max fix.height)) (codes "<height>") (p.print_double fix.height)
        (codes "</height>")
    ∷ optional_text (not (p.is_max fix.speed)) (codes "<speed>") (p.print_double fix.speed)
        (codes "</speed>")
    ∷ optional_text (not (p.is_max fix.bearing)) (codes "<bearing>") (p.print_double fix.bearing)
        (codes "</bearing>")
    ∷ (if leb_ℤ (pos 0) (delta now fix.local_time) then x_age (delta now fix.local_time) else [])
    ∷ codes "</gps-location>"
    ∷ [])

x_gps_location-short :
    (p : Printing) (now : ℕ) (fix : Fix p.D p.F)
    → HasShortNumbers p fix
    → x_gps_location p now fix ≡ some (gps_location_text p now fix)
unfolding x_gps_location gps_location_text
x_gps_location-short p now fix (latitude, longitude, altitude, height, speed, bearing) =
    rw
      (
        append_buffer-short (p.print_double fix.latitude) latitude,
        append_buffer-short (p.print_double fix.longitude) longitude,
        x_optional-some p (not (p.is_zero_float fix.hpe)) (codes "<hpe>")
            (print_long (p.int_of_float fix.hpe)) (codes "</hpe>"),
        x_optional-short p (not (p.is_max fix.altitude)) (codes "<altitude>")
            (p.print_double fix.altitude) (codes "</altitude>") altitude,
        x_optional-short p (not (p.is_max fix.height)) (codes "<height>")
            (p.print_double fix.height) (codes "</height>") height,
        x_optional-short p (not (p.is_max fix.speed)) (codes "<speed>") (p.print_double fix.speed)
            (codes "</speed>") speed,
        x_optional-short p (not (p.is_max fix.bearing)) (codes "<bearing>")
            (p.print_double fix.bearing) (codes "</bearing>") bearing,
      )
      refl

module _ (p : Printing) (plain : (d : p.D) → IsPlain (p.print_double d)) where
  escape-print_double : (d : p.D) → escape (p.print_double d) ≡ p.print_double d
  escape-print_double d = escape-plain (p.print_double d) (plain d)

  gps_location-print :
      (now : ℕ) (fix : Fix p.D p.F) (rest : Bytes)
      → gps_location_text p now fix ++ rest ≡ print (gps_location p now fix) rest
  unfolding gps_location_text gps_location print print_attributes
  gps_location-print now fix rest = simp (
    append_assoc, append-nil, print_nodes-optional, escape-print_long, escape-print_double, if-not,
  )

  x_gps_locations_lem :
      (now : ℕ) (fixes : List (Fix p.D p.F))
      → All (HasShortNumbers p) fixes
      → (text : Bytes) × (x_gps_locations p now fixes ≡ some text)
        × Prints text (each (gps_location p now) fixes)
  unfolding x_gps_locations each
  x_gps_locations_lem now [] h = ([], refl, λ nodes rest. refl)
  x_gps_locations_lem now (fix ∷ fixes) h =
      let (more, e, others) = x_gps_locations_lem now fixes h.1 in
      (
        gps_location_text p now fix ++ more,
        rw (x_gps_location-short p now fix h.0, e) refl,
        Prints-cons (gps_location_text p now fix) more (gps_location p now fix)
            (each (gps_location p now) fixes) (gps_location-print now fix) others,
      )

  authentication-print :
      (key username rest : Bytes)
      → IsPlain key
      → IsPlain username
      → x_authentication key username ++ rest ≡ print (authentication key username) rest
  unfolding print print_attributes escape
  authentication-print key username rest plain_key plain_name =
      simp (append_assoc, append-nil, escape-plain key plain_key, escape-plain username plain_name)

  pub location_rq-print :
      (now : ℕ) (key username : Bytes) (scan : Scan p) (include_ssid : Bool)
      → IsPlain key
      → IsPlain username
      → All HasBytes scan.aps
      → All IsKnown scan.cells
      → All (HasShortNumbers p) scan.gps
      → location_rq p now key username scan include_ssid
        ≡ some (print (location_request p now key username scan include_ssid) [])
  unfolding location_rq location_request print
  location_rq-print now key username scan include_ssid plain_key plain_name bytes known short =
      let (aps, e, printed_aps) = x_access_points_lem now include_ssid scan.aps bytes in
      let (cells, e', printed_cells) = x_cell_towers_lem now scan.cells known in
      let (gps, e₂, printed_gps) = x_gps_locations_lem now scan.gps short in
      let end = print_end (codes "LocationRQ") [] in
      let all_gps = each (gps_location p now) scan.gps nil in
      let all_cells = each (cell_tower now) scan.cells all_gps in
      rw (e, e', e₂)
        (ap some (
          whole (x_authentication key username) aps cells gps
            (cons (authentication key username)
              (each (access_point now include_ssid) scan.aps all_cells))
            (authentication-print key username (aps ++ (cells ++ (gps ++ end))) plain_key plain_name
              ∙ ap (print (authentication key username)) (
                  ap (λ (s : Bytes). aps ++ (cells ++ s)) (printed_gps nil end)
                  ∙ ap (λ (s : Bytes). aps ++ s) (printed_cells all_gps end)
                  ∙ printed_aps all_cells end))))
