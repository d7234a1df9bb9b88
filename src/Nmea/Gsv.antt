-- ===== src/Nmea/Gsv.antt =====
-- `GSVSentence` of src/spi/utils/nmea/src/GSV.cpp: up to four sentences with four satellites each
-- stand for the sixteen satellite fields of a dataset. A failed `assert` is `none`.
use precision_location_lite.Base.{
  ℕ, zero, suc, ◌+◌, ◌-◌, ◌*◌, ◌/◌, ◌%◌, Bool, true, false, ◌&&◌, ◌||◌, [], ◌++◌, Option, some, ltb,
  ◌==◌, if◌then◌else◌, ◌>>=◌, Bytes,
}
use precision_location_lite.Base.Int.{ℤ, pos, pos_part, leb_ℤ, ltb_ℤ}
use precision_location_lite.Base.Libc.{Floats}
use precision_location_lite.Nmea.Dataset.{
  Satellite, Variant, Dataset, reset, is_present, get, set, remove, copy, to_int, to_satellite,
}
use precision_location_lite.Nmea.Field
use precision_location_lite.Nmea.Format.{max_sat_in_view}
use precision_location_lite.Nmea.Sentence.{Sentence, sentence_to_string, parse_sentence}

abbrev pub sat_in_message : ℕ
sat_in_message = 4

abbrev pub max_gsv_messages : ℕ
max_gsv_messages = max_sat_in_view / sat_in_message

-- The field of satellite `sat_no` of message `msg_no`.
abbrev pub satellite_field : ℕ → ℕ → ℕ
satellite_field msg_no sat_no = Field.satellite_01 + (msg_no - 1) * sat_in_message + sat_no

module _ (fl : Floats) where
  -- The loop of `toString` over the satellites of one message.
  unfoldable pub fill_message : ℕ → ℕ → ℕ → Dataset fl.D → Dataset fl.D → Option (Dataset fl.D)
  fill_message zero sat_no msg_no from gsv = some gsv
  fill_message (suc n) sat_no msg_no from gsv = do
    let i = satellite_field msg_no sat_no
    gsv' ←
        if is_present from i
        then (do
          sat ← to_satellite (get from i)
          let with_prn = set gsv (Field.gsv_satellite_01_prn + sat_no * 4) (Variant.int sat.prn)
          let with_elv =
              set with_prn (Field.gsv_satellite_01_elv + sat_no * 4) (Variant.int sat.elevation)
          let with_azm =
              set with_elv (Field.gsv_satellite_01_azm + sat_no * 4) (Variant.int sat.azimuth)
          some (set with_azm (Field.gsv_satellite_01_snr + sat_no * 4) (Variant.int sat.snr)))
        else some gsv
    fill_message n (sat_no + 1) msg_no from gsv'

  -- The loop of `toString` over the messages: `left` of them, from number `msg_no` on.
  unfoldable pub write_messages : ℕ → ℕ → ℕ → Sentence → Dataset fl.D → Option Bytes
  unfolding fill_message
  write_messages zero msg_no msg_count sentence from = some []
  write_messages (suc left) msg_no msg_count sentence from = do
    let shared = copy from Field.sat_in_view reset
    let counted = set shared Field.gsv_message_count (Variant.int (pos msg_count))
    let numbered = set counted Field.gsv_message_number (Variant.int (pos msg_no))
    gsv ← fill_message sat_in_message 0 msg_no from numbered
    message ← sentence_to_string fl sentence gsv
    rest ← write_messages left (msg_no + 1) msg_count sentence from
    some (message ++ rest)

  unfoldable pub gsv_to_string : Sentence → Dataset fl.D → Option Bytes
  unfolding write_messages
  gsv_to_string sentence from = do
    sat_count ← to_int (get from Field.sat_in_view)
    let limited =
        if ltb max_sat_in_view (pos_part sat_count) then max_sat_in_view else pos_part sat_count
    let msg_count = limited / sat_in_message + (if limited % sat_in_message == 0 then 0 else 1)
    let messages = write_messages msg_count 1 msg_count sentence from
    if leb_ℤ sat_count (pos 0) then some [] else messages

  -- `to.remove(SATELLITE_01 + i)` for `n` values of `i` from the first on.
  unfoldable pub remove_satellites : ℕ → ℕ → Dataset fl.D → Dataset fl.D
  remove_satellites zero i to = to
  remove_satellites (suc n) i to = remove_satellites n (i + 1) (remove to (Field.satellite_01 + i))

  -- All four fields of satellite `sat_no` of a message are there.
  abbrev pub is_complete : Dataset fl.D → ℕ → Bool
  is_complete gsv sat_no =
      is_present gsv (Field.gsv_satellite_01_prn + sat_no * 4)
      && is_present gsv (Field.gsv_satellite_01_elv + sat_no * 4)
      && is_present gsv (Field.gsv_satellite_01_azm + sat_no * 4)
      && is_present gsv (Field.gsv_satellite_01_snr + sat_no * 4)

  unfoldable pub read_satellite : Dataset fl.D → ℕ → Option Satellite
  read_satellite gsv sat_no = do
    prn ← to_int (get gsv (Field.gsv_satellite_01_prn + sat_no * 4))
    elevation ← to_int (get gsv (Field.gsv_satellite_01_elv + sat_no * 4))
    azimuth ← to_int (get gsv (Field.gsv_satellite_01_azm + sat_no * 4))
    snr ← to_int (get gsv (Field.gsv_satellite_01_snr + sat_no * 4))
    some (record { prn = prn; elevation = elevation; azimuth = azimuth; snr = snr })

  -- The loop of `parse` over the satellites of the message.
  unfoldable pub store_satellites : ℕ → ℕ → ℕ → Dataset fl.D → Dataset fl.D → Option (Dataset fl.D)
  unfolding read_satellite
  store_satellites zero sat_no msg_no gsv to = some to
  store_satellites (suc n) sat_no msg_no gsv to = do
    let i = satellite_field msg_no sat_no
    to' ←
        if is_complete gsv sat_no
        then (do sat ← read_satellite gsv sat_no; some (set to i (Variant.satellite sat)))
        else some (remove to i)
    store_satellites n (sat_no + 1) msg_no gsv to'

  -- What `parse` does once `0 < msg_no` and `msg_no <= msg_count <= 4`.
  unfoldable pub store_message : ℕ → ℕ → Dataset fl.D → Dataset fl.D → Option (Dataset fl.D)
  unfolding remove_satellites store_satellites
  store_message msg_count msg_no gsv to =
      let first = msg_count * sat_in_message in
      let cleared =
        if msg_no == 1 && ltb msg_count max_gsv_messages
        then remove_satellites (max_gsv_messages * sat_in_message - first) first to
        else to in
      store_satellites sat_in_message 0 msg_no gsv (copy gsv Field.sat_in_view cleared)

  -- What `parse` does with the message that `Sentence::parse` has read.
  unfoldable pub merge_message : Dataset fl.D → Dataset fl.D → Option (Bool × Dataset fl.D)
  unfolding store_message
  merge_message gsv to = do
    msg_count ← to_int (get gsv Field.gsv_message_count)
    let numbered = (do
      msg_no ← to_int (get gsv Field.gsv_message_number)
      let stored = (do
        to' ← store_message (pos_part msg_count) (pos_part msg_no) gsv to
        some (true, to'))
      if leb_ℤ msg_no (pos 0) || ltb_ℤ msg_count msg_no then some (false, to) else stored)
    if leb_ℤ msg_count (pos 0) || ltb_ℤ (pos max_gsv_messages) msg_count
        then some (false, to)
        else numbered

  unfoldable pub parse_gsv : ℤ → Sentence → Bytes → Dataset fl.D → Option (Bool × Dataset fl.D)
  unfolding merge_message
  parse_gsv junk sentence s to = do
    (read, gsv) ← parse_sentence fl junk sentence s reset
    let merged = merge_message gsv to
    if read then merged else some (false, to)
