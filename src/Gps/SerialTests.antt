-- ===== src/Gps/SerialTests.antt =====
-- Runs of the serial adapter, over a parser that takes all that it is given and counts it.
use precision_location_lite.Base.{
  ℕ, ◌+◌, ◌≡◌, refl, true, List, [], ◌∷◌, Option, some, Bytes, length, All, arith,
}
use precision_location_lite.Api.Client.{io}
use precision_location_lite.Gps.Protocol.{Protocol, ok, parse, new_protocol}
use precision_location_lite.Gps.Serial.{
  Adapter, Notice, gps_data, gps_error, received, timed_out, run, Outcome, select_timed_out,
  stop_signal, byte, read_thread, new_adapter,
}
use precision_location_lite.Gps.Serial.Silence.{run-silence}
use precision_location_lite.Gps.Serial.Port.{IsData, calls, read_thread-IsData}

abbrev take_all : Bytes → ℕ → Option (ℕ × ℕ)
take_all text n = some (length text, n + length text)

abbrev parsed : ℕ → Protocol ℕ
parsed n = record { parse_buffer = []; state = ok; members = n }

abbrev adapter : Adapter ℕ
adapter = new_adapter (new_protocol 0)

byte_parsed : parse take_all (36 ∷ []) (new_protocol 0) ≡ some (true, parsed 1)
unfolding parse
byte_parsed = refl

run-silence_example :
    run take_all
      (received (36 ∷ []) ∷ timed_out ∷ timed_out ∷ timed_out ∷ timed_out ∷ timed_out ∷ [])
      adapter
    ≡ some (
      record { protocol = parsed 1; num_timeouts = 5 },
      gps_data 1 ∷ gps_error io ∷ gps_error io ∷ [],
    )
run-silence_example =
    run-silence take_all 5 (36 ∷ []) adapter true (parsed 1) byte_parsed (omega arith)

-- The port is silent for a while and then asked to stop.
abbrev outcomes : List Outcome
outcomes = byte 36 ∷ select_timed_out ∷ select_timed_out ∷ byte 71 ∷ stop_signal ∷ byte 80 ∷ []

thread_run :
    read_thread take_all outcomes adapter
    ≡ some (record { protocol = parsed 2; num_timeouts = 0 }, gps_data 1 ∷ gps_data 2 ∷ [])
unfolding read_thread
thread_run = refl

read_thread-IsData_example :
    All (IsData {X = ℕ}) (gps_data 1 ∷ gps_data 2 ∷ [])
    × (length {A = Notice ℕ} (gps_data 1 ∷ gps_data 2 ∷ []) ≡ length (calls outcomes))
read_thread-IsData_example =
    read_thread-IsData take_all outcomes adapter (record { protocol = parsed 2; num_timeouts = 0 })
      (gps_data 1 ∷ gps_data 2 ∷ []) thread_run
