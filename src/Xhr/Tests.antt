-- ===== src/Xhr/Tests.antt =====
-- A request with a concrete answer.
use precision_location_lite.Base.{
  ℕ, ◌^◌, ◌≡◌, refl, Bool, true, false, List, [], ◌∷◌, ◌++◌, Option, none, some, codes, Bytes,
  arith, ltb, All, ◌≢◌,
}
use precision_location_lite.Base.Int.{pos, negsuc}
use precision_location_lite.Api.Client.{ok, connection_refused}
use precision_location_lite.Xhr.{
  Members, http_post, new_request, open_request, set_request_header, send, header, curle_ok,
  recv_error, get_response_header, header_callback, or_empty,
}
use precision_location_lite.Xhr.Headers.{Field, IsToken, crlf, status_line}
use precision_location_lite.Xhr.Answer.{IsField, field_calls, body_calls, last_value, send-answer}

abbrev request : Members
request =
    set_request_header (codes "Skyhook-Meta") (codes "1;2")
      (open_request http_post (codes "https://host/") (new_request http_post))

abbrev fields : List Field
fields = (codes "Retry", codes "1") ∷ (codes "Type", codes "xml") ∷ (codes "Retry", codes "25") ∷ []

abbrev pieces : List Bytes
pieces = codes "<Loc" ∷ codes "ation/>" ∷ []

retry-IsToken : IsToken (codes "Retry")
retry-IsToken = (ground arith, (ground arith, (ground arith, (ground arith, (ground arith, tt)))))

type-IsToken : IsToken (codes "Type")
type-IsToken = (ground arith, (ground arith, (ground arith, (ground arith, tt))))

fields-IsField : All IsField fields
fields-IsField = (
  (retry-IsToken, omega arith),
  ((type-IsToken, omega arith), ((retry-IsToken, omega arith), tt)),
)

send-answer_example :
    (done : Members) × (send
        (codes "<RQ/>")
        true
        (header (status_line b'1' b'.' b'1' 200 (codes "OK"))
          ∷ field_calls fields (header crlf ∷ body_calls pieces))
        curle_ok
        request
      ≡ some (ok, done))
    × (done.status_code ≡ pos 200)
    × (done.status_text ≡ codes "OK")
    × (done.response_text ≡ codes "<Location/>")
    × ((key : Bytes) → get_response_header key done ≡ or_empty (last_value key fields none))
send-answer_example =
    send-answer b'1' b'.' b'1' 200 (codes "OK") (codes "<RQ/>") fields pieces curle_ok request
      (omega arith) fields-IsField refl

-- Of a field that stands twice, the last value is kept.
last_retry : or_empty (last_value (codes "Retry") fields none) ≡ codes "25"
unfolding precision_location_lite.Base.bytes_eq
last_retry = refl

-- Without a status line, the code of libcurl is the result.
refused :
    send [] true [] recv_error request
    ≡ some (
      connection_refused,
      record request { request_text = []; curl_header_list = codes "Skyhook-Meta: 1;2" ∷ [] },
    )
unfolding send
refused = refl

-- A status line of HTTP/2, which has no reason, is too short to be recognised.
http2 : (header_callback (codes "HTTP/2 200" ++ crlf) request).status_code ≡ negsuc 0
unfolding header_callback
http2 = refl
