-- ===== src/Gps/Sirf/Frame.antt =====
-- `SirfProtocol::tryParse`: the frames of a buffer. A failed `assert` is `none`.
pub mod Layout
pub mod Rounds
pub mod Runs
pub mod Texts
use precision_location_lite.Base.{
  ℕ, zero, suc, ◌+◌, ◌-◌, ◌||◌, not, List, [], ◌∷◌, Option, none, some, ◌==◌, leb, ltb,
  if◌then◌else◌, ◌>>=◌, Bytes, length,
}
use precision_location_lite.Gps.Sirf.Input.{
  InputStream, open_stream, avail, read8, read16, skip, rewind, checksum,
}
use precision_location_lite.Gps.Sirf.Message.{parse_fix, parse_satellites}
use precision_location_lite.Gps.{Reals, GpsData}

abbrev pub sirf_header : ℕ
sirf_header = 0xA0A2

abbrev pub sirf_footer : ℕ
sirf_footer = 0xB0B3

abbrev pub sirf_aux_size : ℕ
sirf_aux_size = 8

abbrev pub sirf_min_size : ℕ
sirf_min_size = sirf_aux_size + 2

module _ (rs : Reals) (tick : ℕ) where
  -- The locals of `tryParse` and the member `_data`.
  pub record Loop : Type 0 where
    pub stream : InputStream
    pub parsed_bytes : ℕ
    pub gps_data : GpsData rs.D rs.F

  -- The `switch` on the message id; `none` is a failed assertion of a parser.
  unfoldable pub dispatch : ℕ → InputStream → GpsData rs.D rs.F → Option (GpsData rs.D rs.F)
  dispatch id payload d =
      if id == 41
      then (do fix ← parse_fix rs tick payload; some (record d { fix = fix }))
      else if id == 4
      then (do sats ← parse_satellites rs payload; some (record d { satellites = sats }))
      else some d

  -- What follows a header in the body of the loop. Each `continue` keeps what was read.
  unfoldable pub read_frame : Loop → InputStream → Option Loop
  unfolding dispatch
  read_frame st s = do
    (len, s) ← read16 s
    free ← avail s
    if ltb free (len + 4) || leb len 0 then some (record st { stream = s }) else do
      (bytes, s) ← skip s len
      payload ← open_stream bytes
      (sum, s) ← read16 s
      (footer, s) ← read16 s
      if not (footer == sirf_footer) then some (record st { stream = s }) else do
        expected ← checksum payload
        if not (sum == expected) then some (record st { stream = s }) else do
          (id, payload) ← read8 payload
          gps_data ← dispatch id payload st.gps_data
          some (record { stream = s; parsed_bytes = s.offset; gps_data = gps_data })

  -- The body of the loop.
  unfoldable pub loop_body : Loop → Option Loop
  unfolding read_frame
  loop_body st = do
    (header, s) ← read16 st.stream
    if header == sirf_header
        then read_frame st s
        else do s ← rewind s 1; some (record st { stream = s })

  -- The loop, with a bound on its rounds; each round takes a byte at least.
  unfoldable pub parse_frames : ℕ → Loop → Option Loop
  unfolding loop_body
  parse_frames zero st = some st
  parse_frames (suc fuel) st = do
    free ← avail st.stream
    if leb sirf_min_size free then (loop_body st >>= λ st'. parse_frames fuel st') else some st

  unfoldable pub try_parse : Bytes → GpsData rs.D rs.F → Option (ℕ × GpsData rs.D rs.F)
  unfolding parse_frames
  try_parse bytes d = do
    stream ← open_stream bytes
    end ← parse_frames (length bytes) (record { stream = stream; parsed_bytes = 0; gps_data = d })
    some (end.parsed_bytes, end.gps_data)
