-- ===== src/Xhr.antt =====
-- src/spi/xhr/curl/CurlXmlHttpRequest.cpp: a request over libcurl. The calls that libcurl makes of the
-- callbacks are an argument. A failed `assert` is `none`.
pub mod Headers
pub mod Answer
mod Tests
use precision_location_lite.Base.{
  ℕ, ◌+◌, ◌-◌, ◌%◌, ◌^◌, Bool, true, false, not, ◌&&◌, ◌||◌, List, [], ◌∷◌, ◌++◌, Option, none,
  some, ◌==◌, ltb, leb, if◌then◌else◌, ◌>>=◌, Bytes, bytes_eq, codes, length, take, drop,
}
use precision_location_lite.Base.Int.{ℤ, pos, negsuc, add_ℤ, is_zero}
use precision_location_lite.Base.Libc.{atoi}
use precision_location_lite.Api.Client.{
  ErrorCode, ok, permission_denied, connection_refused, protocol_not_supported, host_unreachable,
  timed_out, error, is_empty,
}

-- `std::map` over strings: the entries in the order of their keys.
abbrev pub Headers : Type 0
Headers = List (Bytes × Bytes)

abbrev pub less : Bytes → Bytes → Bool
less s [] = false
less [] (d ∷ t) = true
less (c ∷ s) (d ∷ t) = ltb c d || (c == d && less s t)

-- `headers[key] = value` and `find`
abbrev pub assign : Bytes → Bytes → Headers → Headers
assign key value [] = (key, value) ∷ []
assign key value ((k, v) ∷ headers) =
    if bytes_eq key k
    then (key, value) ∷ headers
    else if less key k
    then (key, value) ∷ (k, v) ∷ headers
    else (k, v) ∷ assign key value headers

abbrev pub find : Bytes → Headers → Option Bytes
find key [] = none
find key ((k, v) ∷ headers) = if bytes_eq key k then some v else find key headers

pub data HttpMethod : Type 0 where
  http_get http_post http_head : HttpMethod

pub record Members : Type 0 where
  pub method : HttpMethod
  pub url : Bytes
  pub request_headers : Headers
  pub response_headers : Headers
  pub request_text : Bytes
  pub response_text : Bytes
  pub status_code : ℤ
  pub status_text : Bytes
  pub curl_header_list : List Bytes

-- The constructor; the method is not set before `open`.
abbrev pub new_request : HttpMethod → Members
new_request method = record {
  method = method;
  url = [];
  request_headers = [];
  response_headers = [];
  request_text = [];
  response_text = [];
  status_code = negsuc 0;
  status_text = [];
  curl_header_list = [];
}

abbrev pub open_request : HttpMethod → Bytes → Members → Members
open_request method url m = record m { method = method; url = url }

abbrev pub set_request_header : Bytes → Bytes → Members → Members
set_request_header header value m = record m {
  request_headers = assign header value m.request_headers;
}

-- `substr`
abbrev pub substr : ℕ → ℕ → Bytes → Bytes
substr from n s = take n (drop from s)

-- `find(": ")`
abbrev pub find_colon : Bytes → Option ℕ
find_colon [] = none
find_colon (c ∷ []) = none
find_colon (c ∷ d ∷ s) =
    if c == b':' && d == b' ' then some 0 else (do n ← find_colon (d ∷ s); some (1 + n))

-- `headerCallback`; the length of a value is a `size_t`.
abbrev pub store_field : Bytes → Option ℕ → Members → Members
store_field header none m = m
store_field header (some colon) m = record m {
  response_headers =
      assign (substr 0 colon header)
        (substr (colon + 2) ((length header + 2 ^ 64 - (colon + 4)) % 2 ^ 64) header)
        m.response_headers;
}

unfoldable pub header_callback : Bytes → Members → Members
unfolding atoi bytes_eq
header_callback header m =
    if leb 15 (length header) && bytes_eq (substr 0 5 header) (codes "HTTP/")
    then record m {
      status_code = atoi (substr 9 3 header);
      status_text = substr 13 (length header - 15) header;
    }
    else store_field header (find_colon header) m

abbrev pub write_callback : Bytes → Members → Members
write_callback text m = record m { response_text = m.response_text ++ text }

-- The calls that libcurl makes of the callbacks.
pub data Callback : Type 0 where
  header : Bytes → Callback
  write : Bytes → Callback

unfoldable pub callbacks : List Callback → Members → Members
unfolding header_callback
callbacks [] m = m
callbacks (header text ∷ more) m = callbacks more (header_callback text m)
callbacks (write text ∷ more) m = callbacks more (write_callback text m)

-- The results of libcurl that `translateCurlError` tells apart.
pub data CurlCode : Type 0 where
  curle_ok unsupported_protocol couldnt_resolve_proxy couldnt_resolve_host : CurlCode
  operation_timeouted couldnt_connect ssl_connect_error recv_error send_error : CurlCode
  login_denied other_error : CurlCode

abbrev pub translate_curl_error : CurlCode → ErrorCode
translate_curl_error curle_ok = ok
translate_curl_error unsupported_protocol = protocol_not_supported
translate_curl_error couldnt_resolve_proxy = host_unreachable
translate_curl_error couldnt_resolve_host = host_unreachable
translate_curl_error operation_timeouted = timed_out
translate_curl_error couldnt_connect = connection_refused
translate_curl_error ssl_connect_error = connection_refused
translate_curl_error recv_error = connection_refused
translate_curl_error send_error = connection_refused
translate_curl_error login_denied = permission_denied
translate_curl_error other_error = error

-- `configure`: the list of headers, which is set for GET and POST.
abbrev pub header_lines : Headers → List Bytes
header_lines [] = []
header_lines ((k, v) ∷ headers) = (k ++ (b':' ∷ b' ' ∷ v)) ∷ header_lines headers

abbrev pub configure_headers : HttpMethod → Members → Option Members
configure_headers http_head m = some m
configure_headers other m =
    if is_empty m.curl_header_list
    then some (record m { curl_header_list = header_lines m.request_headers })
    else none

abbrev pub configure : Members → Option Members
configure m = configure_headers m.method m

-- `send`, where `curl_easy_init` succeeds or not, libcurl makes the calls, and
-- `curl_easy_perform` returns the code.
unfoldable pub send :
    Bytes → Bool → List Callback → CurlCode → Members → Option (ErrorCode × Members)
unfolding callbacks
send text inits calls rc m =
    if not inits then some (error, record m { request_text = text }) else (do
      configured ← configure (record m { request_text = text })
      let done = callbacks calls configured
      some (if is_zero (add_ℤ done.status_code (pos 1)) then translate_curl_error rc else ok, done))

abbrev pub or_empty : Option Bytes → Bytes
or_empty none = []
or_empty (some value) = value

abbrev pub get_response_header : Bytes → Members → Bytes
get_response_header key m = or_empty (find key m.response_headers)
