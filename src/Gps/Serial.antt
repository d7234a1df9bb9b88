-- ===== src/Gps/Serial.antt =====
-- The serial GPS adapter (src/spi/gps/serial/SerialGPSAdapter.h) over the reading thread of the port
-- (src/spi/gps/serial/unix/UnixSerialPort.cpp). A failed `assert` is `none`.
pub mod Silence
pub mod Port
use precision_location_lite.Base.{
  ℕ, ◌+◌, ◌%◌, ◌^◌, Bool, true, false, List, [], ◌∷◌, ◌++◌, Option, none, some, leb, if◌then◌else◌,
  ◌>>=◌, Bytes,
}
use precision_location_lite.Api.Client.{ErrorCode, io, error}
use precision_location_lite.Gps.Protocol.{Protocol, parse}

-- The adapter's members that change. `X` are the members of the protocol.
pub record Adapter (X : Type 0) : Type 0 where
  pub protocol : Protocol X
  pub num_timeouts : ℕ

-- The constructor.
abbrev pub new_adapter : {X : Type 0} → Protocol X → Adapter X
new_adapter protocol = record { protocol = protocol; num_timeouts = 0 }

-- What the adapter's listener is told: `onGpsData`, with the protocol's data, or `onGpsError`.
pub data Notice (X : Type 0) : Type 0 where
  gps_data : X → Notice X
  gps_error : ErrorCode → Notice X

-- A callback's result: whether the port should go on reading, the adapter, and the notices.
abbrev pub Called : Type 0 → Type 0
Called X = Bool × Adapter X × List (Notice X)

abbrev pub on_timeout : {X : Type 0} → Adapter X → Called X
on_timeout a =
    let n = (a.num_timeouts + 1) % 2 ^ 32 in
    (true, record a { num_timeouts = n }, if leb 4 n then gps_error io ∷ [] else [])

abbrev pub on_error : {X : Type 0} → Adapter X → Called X
on_error a = (false, a, gps_error error ∷ [])

-- `close`, behind the stop of the port.
abbrev pub close : {X : Type 0} → Adapter X → Adapter X
close a = record a { num_timeouts = 0 }

-- What a port can call.
pub data Event : Type 0 where
  received : Bytes → Event
  timed_out failed : Event

-- What `select` and `read` bring about in a round of `readThread`.
pub data Outcome : Type 0 where
  select_failed select_timed_out stop_signal end_of_file read_failed : Outcome
  byte : ℕ → Outcome

module _ {X : Type 0} (try_parse : Bytes → X → Option (ℕ × X)) where
  unfoldable pub on_data : Bytes → Adapter X → Option (Called X)
  unfolding parse
  on_data text a = do
    (ok, protocol) ← parse try_parse text a.protocol
    some (true, record { protocol = protocol; num_timeouts = 0 }, gps_data protocol.members ∷ [])

  abbrev pub call : Event → Adapter X → Option (Called X)
  call (received text) a = on_data text a
  call timed_out a = some (on_timeout a)
  call failed a = some (on_error a)

  -- A sequence of calls, up to the first that asks the port to stop.
  unfoldable pub run : List Event → Adapter X → Option (Adapter X × List (Notice X))
  unfolding on_data
  run [] a = some (a, [])
  run (e ∷ events) a = do
    (go, a', notices) ← call e a
    (a'', more) ← if go then run events a' else some (a', [])
    some (a'', notices ++ more)

  -- `readThread`, for the outcomes of its first rounds.
  unfoldable pub read_thread : List Outcome → Adapter X → Option (Adapter X × List (Notice X))
  unfolding on_data
  read_thread [] a = some (a, [])
  read_thread (select_failed ∷ more) a = some (a, [])
  read_thread (stop_signal ∷ more) a = some (a, [])
  read_thread (read_failed ∷ more) a = some (a, [])
  read_thread (select_timed_out ∷ more) a = read_thread more a
  read_thread (end_of_file ∷ more) a = read_thread more a
  read_thread (byte c ∷ more) a = do
    (go, a', notices) ← on_data (c ∷ []) a
    (a'', others) ← if go then read_thread more a' else some (a', [])
    some (a'', notices ++ others)
