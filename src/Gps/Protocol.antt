-- ===== src/Gps/Protocol.antt =====
-- `GPSProtocol` of src/spi/gps/protocol/GPSProtocol.h and GPSProtocol.cpp: the buffer in front of a
-- protocol's `tryParse`. A failed `assert` is `none`.
use precision_location_lite.Base.{
  ℕ, Bool, true, false, not, [], ◌++◌, Option, some, leb, ltb, if◌then◌else◌, ◌>>=◌, Bytes, length,
  drop,
}

pub data State : Type 0 where
  unknown ok failure hardware_failure : State

abbrev pub is_failure : State → Bool
is_failure failure = true
is_failure _ = false

abbrev pub max_buf_size : ℕ
max_buf_size = 1024

-- The members; `X` are `_data` and those of the class that derives from `GPSProtocol`.
pub record Protocol (X : Type 0) : Type 0 where
  pub parse_buffer : Bytes
  pub state : State
  pub members : X

-- The constructor.
abbrev pub new_protocol : {X : Type 0} → X → Protocol X
new_protocol members = record { parse_buffer = []; state = unknown; members = members }

-- What `parse` does with the number of bytes that `tryParse` has taken from the buffer.
abbrev pub conclude : {X : Type 0} → Bytes → State → ℕ × X → Protocol X
conclude buffer state (bytes_parsed, members) =
    if ltb 0 bytes_parsed
    then record { parse_buffer = drop bytes_parsed buffer; state = ok; members = members }
    else if leb max_buf_size (length buffer)
    then record { parse_buffer = []; state = failure; members = members }
    else record { parse_buffer = buffer; state = state; members = members }

module _ {X : Type 0} (try_parse : Bytes → X → Option (ℕ × X)) where
  unfoldable pub parse : Bytes → Protocol X → Option (Bool × Protocol X)
  parse text st = do
    r ← try_parse (st.parse_buffer ++ text) st.members
    let st' = conclude (st.parse_buffer ++ text) st.state r
    some (not (is_failure st'.state), st')

-- `reset`, with what it does to the members. The buffer is kept.
abbrev pub reset : {X : Type 0} → (X → X) → Protocol X → Protocol X
reset clear st = record st { state = unknown; members = clear st.members }
