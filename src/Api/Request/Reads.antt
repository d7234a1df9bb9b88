-- ===== src/Api/Request/Reads.antt =====
-- A reader of elements and attributes finds the scan in the text of a request.
use precision_location_lite.Base.{ℕ, Bool, List, [], ◌∷◌, some, Bytes, All, ◌≡◌, arith}
use precision_location_lite.Api.Request.{Printing, Scan, location_rq}
use precision_location_lite.Api.Request.Texts.{IsPlain}
use precision_location_lite.Api.Request.Tree.{
  access_point, cell_tower, gps_location, each, location_request,
}
use precision_location_lite.Api.Request.Document.{nil, print, read_node, escape}
use precision_location_lite.Api.Request.Document.Reading.{IsPrintable, size, read_node-print}
use precision_location_lite.Api.Request.Refines.{
  HasBytes, IsKnown, HasShortNumbers, location_rq-print,
}
use precision_location_lite.Api.Request.Printable.{
  IsPlain-IsText, IsNumber, each-ArePrintable, access_point-IsPrintable, cell_tower-IsPrintable,
  gps_location-IsPrintable,
}

trivial : {A : Type 0} (xs : List A) → All (λ _. Unit {0}) xs
trivial [] = tt
trivial (x ∷ xs) = (tt, trivial xs)

module _ (p : Printing) (numbers : (d : p.D) → IsNumber (p.print_double d)) where
  location_request-IsPrintable :
      (now : ℕ) (key username : Bytes) (scan : Scan p) (include_ssid : Bool)
      → IsPlain key
      → IsPlain username
      → All HasBytes scan.aps
      → IsPrintable (location_request p now key username scan include_ssid)
  unfolding IsPrintable location_request escape
  location_request-IsPrintable now key username scan include_ssid plain_key plain_name bytes =
      let all_gps = each (gps_location p now) scan.gps nil in
      let all_cells = each (cell_tower now) scan.cells all_gps in
      (
        ground arith,
        ((ground arith, ground arith), ((ground arith, ground arith), tt)),
        tt,
        (
          (
            ground arith,
            ((ground arith, ground arith), tt),
            tt,
            (
              (
                ground arith,
                (
                  (ground arith, IsPlain-IsText key plain_key),
                  ((ground arith, IsPlain-IsText username plain_name), tt),
                ),
              ),
              tt,
            ),
          ),
          each-ArePrintable HasBytes (access_point now include_ssid) scan.aps all_cells
              (access_point-IsPrintable now include_ssid) bytes
              (each-ArePrintable (λ _. Unit {0}) (cell_tower now) scan.cells all_gps
                (λ c _. cell_tower-IsPrintable now c) (trivial scan.cells)
                (each-ArePrintable (λ _. Unit {0}) (gps_location p now) scan.gps nil
                  (λ fix _. gps_location-IsPrintable p numbers now fix) (trivial scan.gps) tt)),
        ),
      )

  -- A scan whose SSIDs are bytes and whose cells are not null is written, without a failed assertion or
  -- a read past a buffer,
  -- as a text that a reader of elements and attributes takes whole, and in which it finds exactly the
  -- document of the scan with the key and the name, provided that neither of these holds a NUL or one
  -- of the characters '&', '<', '>', '"' and apostrophe, that "%.6f" prints a `double` as a text that
  -- holds none either and is not empty, and that the numbers of the fixes that are sent take at most
  -- 31 characters, the room that there is for them.
  pub location_rq-read :
      (now : ℕ) (key username : Bytes) (scan : Scan p) (include_ssid : Bool)
      → IsPlain key
      → IsPlain username
      → All HasBytes scan.aps
      → All IsKnown scan.cells
      → All (HasShortNumbers p) scan.gps
      → (text : Bytes) × (location_rq p now key username scan include_ssid ≡ some text)
        × (read_node (size (location_request p now key username scan include_ssid)) text
            ≡ some (location_request p now key username scan include_ssid, []))
  location_rq-read now key username scan include_ssid plain_key plain_name bytes known short =
      let doc = location_request p now key username scan include_ssid in
      (
        print doc [],
        location_rq-print p (λ d. (numbers d).1) now key username scan include_ssid plain_key
            plain_name bytes known short,
        read_node-print doc (size doc) []
            (location_request-IsPrintable now key username scan include_ssid plain_key plain_name
              bytes)
            (omega arith),
      )
