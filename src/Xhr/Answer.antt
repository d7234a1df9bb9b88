-- ===== src/Xhr/Answer.antt =====
-- What a request leaves when a whole answer has come.
use precision_location_lite.Base.{
  ℕ, ◌^◌, ◌<◌, true, false, List, [], ◌∷◌, ◌++◌, Option, some, if◌then◌else◌, Bytes, bytes_eq,
  bytes_eq_iff, length, ◌≡◌, refl, sym, ap, ◌∙◌, arith, All, Bool-cases, inl, inr, append_assoc,
  append-nil,
}
use precision_location_lite.Base.Int.{pos, add_ℤ, is_zero}
use precision_location_lite.Api.Client.{ok}
use precision_location_lite.Xhr.{
  Headers, assign, find, less, HttpMethod, http_get, http_post, http_head, configure_headers,
  Members, write_callback, Callback, header, write, callbacks, CurlCode, header_lines, send,
  get_response_header, or_empty,
}
use precision_location_lite.Xhr.Headers.{
  Field, IsToken, field_line, crlf, status_line, header_callback-field, header_callback-status,
  header_callback-end,
}

-- An answer: its fields, and its body in the pieces that come.
abbrev pub IsField : Field → Type 0
IsField f = IsToken f.0 × (length (field_line f) < 2 ^ 64)

abbrev pub field_calls : List Field → List Callback → List Callback
field_calls [] more = more
field_calls (f ∷ fields) more = header (field_line f) ∷ field_calls fields more

abbrev pub body_calls : List Bytes → List Callback
body_calls [] = []
body_calls (piece ∷ pieces) = write piece ∷ body_calls pieces

abbrev pub body : List Bytes → Bytes
body [] = []
body (piece ∷ pieces) = piece ++ body pieces

-- The value of the last field of a name.
abbrev pub last_value : Bytes → List Field → Option Bytes → Option Bytes
last_value key [] last = last
last_value key ((name, value) ∷ fields) last =
    last_value key fields (if bytes_eq key name then some value else last)

abbrev stored : List Field → Headers → Headers
stored [] headers = headers
stored ((name, value) ∷ fields) headers = stored fields (assign name value headers)

-- The tests for two names that differ can be made in either order.
swap :
    {A : Type 0} (key name k : Bytes) (x y z : A)
    → bytes_eq name k ≡ false
    → (if bytes_eq key k then y else (if bytes_eq key name then x else z))
      ≡ (if bytes_eq key name then x else (if bytes_eq key k then y else z))
swap key name k x y z differ = elim (Bool-cases (bytes_eq key name)) [
  | inr other ↦ rw other refl
  | inl found ↦
      let e : name ≡ key = sym ((bytes_eq_iff key name).0 found) in
      let other : bytes_eq key k ≡ false = ap (λ (s : Bytes). bytes_eq s k) (sym e) ∙ differ in
      rw (found, other) refl
]

find-assign :
    (key name value : Bytes) (headers : Headers)
    → find key (assign name value headers)
      ≡ (if bytes_eq key name then some value else find key headers)
find-assign key name value [] = refl
find-assign key name value ((k, v) ∷ headers) = elim (Bool-cases (bytes_eq name k)) [
  | inl same ↦
      let e : k ≡ name = sym ((bytes_eq_iff name k).0 same) in
      elim (Bool-cases (bytes_eq key name)) [
        | inl found ↦ rw (same, found) refl
        | inr other ↦
            let other' : bytes_eq key k ≡ false = ap (bytes_eq key) e ∙ other in
            rw (same, other, other') refl
      ]
  | inr differ ↦ elim (Bool-cases (less name k)) [
    | inl before ↦ rw (differ, before) refl
    | inr behind ↦
        rw (differ, behind, find-assign key name value headers)
          (swap key name k (some value) (some v) (find key headers) differ)
  ]
]

find-stored :
    (key : Bytes) (fields : List Field) (headers : Headers)
    → find key (stored fields headers) ≡ last_value key fields (find key headers)
find-stored key [] headers = refl
find-stored key ((name, value) ∷ fields) headers =
    find-stored key fields (assign name value headers)
    ∙ ap (λ (o : Option Bytes). last_value key fields o) (find-assign key name value headers)

callbacks-body :
    (pieces : List Bytes) (m : Members)
    → callbacks (body_calls pieces) m ≡ record m { response_text = m.response_text ++ body pieces }
unfolding callbacks
callbacks-body [] m =
    ap (λ (s : Bytes). record m { response_text = s }) (sym (append-nil m.response_text))
callbacks-body (piece ∷ pieces) m =
    callbacks-body pieces (write_callback piece m)
    ∙ ap (λ (s : Bytes). record m { response_text = s })
        (append_assoc m.response_text piece (body pieces))

callbacks-fields :
    (fields : List Field) (more : List Callback) (m : Members)
    → All IsField fields
    → callbacks (field_calls fields more) m
      ≡ callbacks more (record m { response_headers = stored fields m.response_headers })
unfolding callbacks
callbacks-fields [] more m h = refl
callbacks-fields ((name, value) ∷ fields) more m h =
    ap (λ (n : Members). callbacks (field_calls fields more) n)
      (header_callback-field name value m h.0.0 h.0.1)
    ∙ callbacks-fields fields more
        (record m { response_headers = assign name value m.response_headers }) h.1

configure_headers-some :
    (method : HttpMethod) (m : Members)
    → m.curl_header_list ≡ []
    → (lines : List Bytes) × (configure_headers method m
        ≡ some (record m { curl_header_list = lines }))
configure_headers-some http_head m h = (m.curl_header_list, refl)
configure_headers-some http_get m h = (header_lines m.request_headers, rw h refl)
configure_headers-some http_post m h = (header_lines m.request_headers, rw h refl)

-- Where an answer comes as a status line, fields, an empty line and a body in pieces, a request that
-- was not sent before ends without an error, whatever libcurl returns, and keeps the status of that
-- line, the pieces in order, and for each name the value of the last field that has it.
pub send-answer :
    (v w x code : ℕ) (reason text : Bytes) (fields : List Field) (pieces : List Bytes)
    (rc : CurlCode) (m : Members)
    → code < 1000
    → All IsField fields
    → m.curl_header_list ≡ []
    → (done : Members) × (send text true
          (header (status_line v w x code reason)
            ∷ field_calls fields (header crlf ∷ body_calls pieces))
          rc
          m
        ≡ some (ok, done))
      × (done.status_code ≡ pos code)
      × (done.status_text ≡ reason)
      × (done.response_text ≡ m.response_text ++ body pieces)
      × ((key : Bytes)
          → get_response_header key done
            ≡ or_empty (last_value key fields (find key m.response_headers)))
unfolding send callbacks
send-answer v w x code reason text fields pieces rc m small h unsent =
    let (lines, configured) =
      configure_headers-some m.method (record m { request_text = text }) unsent in
    let sent = record m { request_text = text; curl_header_list = lines } in
    let status = record sent { status_code = pos code; status_text = reason } in
    let done = record status {
      response_headers = stored fields m.response_headers;
      response_text = m.response_text ++ body pieces;
    } in
    let calls : callbacks
          (header (status_line v w x code reason)
            ∷ field_calls fields (header crlf ∷ body_calls pieces))
          sent
        ≡ done =
      ap (λ (n : Members). callbacks (field_calls fields (header crlf ∷ body_calls pieces)) n)
        (header_callback-status v w x code reason sent small)
      ∙ callbacks-fields fields (header crlf ∷ body_calls pieces) status h
      ∙ ap (λ (n : Members). callbacks (body_calls pieces) n)
          (header_callback-end
            (record status { response_headers = stored fields m.response_headers }))
      ∙ callbacks-body pieces
          (record status { response_headers = stored fields m.response_headers }) in
    let told : is_zero (add_ℤ (pos code) (pos 1)) ≡ false = ground arith in
    (
      done,
      rw (configured, calls, told) refl,
      refl,
      refl,
      refl,
      λ key. ap or_empty (find-stored key fields m.response_headers),
    )
