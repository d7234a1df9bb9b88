-- ===== src/Gps/Sirf/Frame/Layout.antt =====
-- The layout of a SiRF frame: header, length, payload, checksum, footer.
use precision_location_lite.Base.{
  ℕ, suc, ◌+◌, ◌*◌, ◌/◌, ◌%◌, ◌^◌, ◌≤◌, ◌<◌, [], ◌∷◌, ◌++◌, append_assoc, ◌≡◌, refl, sym, ap, ◌∙◌,
  arith, some, lt→ltb, Bytes, length, take, drop, take-append, drop-append, drop-drop,
  length-append,
}
use precision_location_lite.Gps.Sirf.Frame.{sirf_header, sirf_footer}
use precision_location_lite.Gps.Sirf.Input.Reads.{byte, be16}
use precision_location_lite.Gps.Sirf.Input.{sum_from, sirf_checksum}

-- The sum of the bytes, and what a frame holds of it.
abbrev pub sum : Bytes → ℕ
sum [] = 0
sum (x ∷ xs) = x + sum xs

abbrev pub sum15 : Bytes → ℕ
sum15 q = sum q % 2 ^ 15

sum_from-sum : (c : ℕ) (q : Bytes) → sum_from c q % 2 ^ 15 ≡ (c + sum q) % 2 ^ 15
unfolding sum_from
sum_from-sum c [] = omega arith
sum_from-sum c (x ∷ q) = omega (arith, sum_from-sum ((c + x) % 2 ^ 16) q)

pub sirf_checksum-sum : (q : Bytes) → 0 < length q → sirf_checksum q ≡ some (sum15 q)
unfolding sirf_checksum
sirf_checksum-sum q h =
    let e : (0 + sum q) % 2 ^ 15 ≡ sum15 q = omega arith in
    rw (lt→ltb 0 (length q) h, sum_from-sum 0 q, e) refl

-- The frame of a payload.
abbrev pub frame : Bytes → Bytes
frame q =
    0xA0
    ∷ 0xA2
    ∷ length q / 256
    ∷ length q % 256
    ∷ (q ++ (sum15 q / 256 ∷ sum15 q % 256 ∷ 0xB0 ∷ 0xB3 ∷ []))

-- A frame with the payload q stands in p at offset i.
pub record IsFrameAt (p : Bytes) (i : ℕ) (q : Bytes) : Type 0 where
  pub fits : i + 8 + length q ≤ length p
  pub not_empty : 0 < length q
  pub header : be16 p i ≡ sirf_header
  pub len : be16 p (i + 2) ≡ length q
  pub payload : take (length q) (drop (i + 4) p) ≡ q
  pub checksum : be16 p (i + 4 + length q) ≡ sum15 q
  pub footer : be16 p (i + 6 + length q) ≡ sirf_footer

byte-append : (pre bs : Bytes) (k : ℕ) → byte (pre ++ bs) (length pre + k) ≡ byte bs k
byte-append [] bs k = let e : 0 + k ≡ k = omega arith in ap (byte bs) e
byte-append (x ∷ pre) bs k =
    let e : suc (length pre) + k ≡ suc (length pre + k) = omega arith in
    ap (byte (x ∷ (pre ++ bs))) e ∙ byte-append pre bs k

be16-append : (pre bs : Bytes) (i k : ℕ) → i ≡ length pre + k → be16 (pre ++ bs) i ≡ be16 bs k
be16-append pre bs i k e =
    let f : length pre + k + 1 ≡ length pre + (k + 1) = omega arith in
    rw (e, byte-append pre bs k, f, byte-append pre bs (k + 1)) refl

drop-to : (pre bs : Bytes) (i k : ℕ) → i ≡ length pre + k → drop i (pre ++ bs) ≡ drop k bs
drop-to pre bs i k e =
    rw e (sym (drop-drop (length pre) k (pre ++ bs)) ∙ ap (drop k) (drop-append pre bs))

digits : (n : ℕ) → n / 256 * 256 + n % 256 ≡ n
digits n = omega arith

-- What stands behind the first bytes pre of a text is found at offset `length pre`.
pub frame-IsFrameAt :
    (pre q rest : Bytes)
    → 0 < length q
    → length q < 2 ^ 16
    → IsFrameAt (pre ++ (frame q ++ rest)) (length pre) q
frame-IsFrameAt pre q rest pos small =
    let tail : Bytes = sum15 q / 256 ∷ sum15 q % 256 ∷ 0xB0 ∷ 0xB3 ∷ [] in
    let front : Bytes = 0xA0 ∷ 0xA2 ∷ length q / 256 ∷ length q % 256 ∷ [] in
    let body = frame q ++ rest in
    let split : body ≡ (front ++ q) ++ (tail ++ rest) = ap (front ++◌) (append_assoc q tail rest) in
    record {
      fits =
          omega
            (arith, length-append pre body, length-append (q ++ tail) rest, length-append q tail);
      not_empty = pos;
      header = be16-append pre body (length pre) 0 (omega arith);
      len = be16-append pre body (length pre + 2) 2 (omega arith) ∙ digits (length q);
      payload =
          ap (take (length q))
            (drop-to pre body (length pre + 4) 4 (omega arith) ∙ append_assoc q tail rest)
          ∙ take-append q (tail ++ rest);
      checksum =
          be16-append pre body (length pre + 4 + length q) (4 + length q) (omega arith)
          ∙ rw split (be16-append (front ++ q) (tail ++ rest) (4 + length q) 0 (omega arith))
          ∙ digits (sum15 q);
      footer =
          be16-append pre body (length pre + 6 + length q) (6 + length q) (omega arith)
          ∙ rw split (be16-append (front ++ q) (tail ++ rest) (6 + length q) 2 (omega arith));
    }
