-- ===== src/Api/Response.antt =====
-- The reading of an answer in src/api/Protocol.cpp (`parseErrorRS`, `parseLocationRS`), and
-- `LiteLocation` of src/api/Wrappers.h and Wrappers.cpp. A failed `assert` is `none`.
pub mod Ages
use Prim.Native.Nat.{max}
use precision_location_lite.Base.{
  ℕ, ◌+◌, ◌-◌, ◌*◌, ◌%◌, ◌^◌, Bool, true, false, ◌&&◌, List, [], ◌∷◌, ◌++◌, Option, none, some,
  if◌then◌else◌, ◌>>=◌, Bytes, bytes_eq, codes,
}
use precision_location_lite.Base.Int.{
  ℤ, pos, negsuc, pos_part, low_bits, ltb_ℤ, sub_ℤ, signed64, to_ushort,
}
use precision_location_lite.Base.Libc.{atoi}
use precision_location_lite.Timer.{elapsed, reset}
use precision_location_lite.Api.Dom.{
  XmlNode, XmlNodes, end, next, children_of, get_node_value, get_namespace_uri, get_local_name,
  get_attribute_ns,
}
use precision_location_lite.Api.Request.{namespace_uri}

-- `double`, with `atof` and what the conversion of a speed does; and the conversions of the DOM.
pub record Reader : Type 1 where
  pub D : Type 0
  pub zero_double : D
  pub minus_one : D
  pub atof : Bytes → D
  pub is_minus_one : D → Bool
  pub is_not_negative : D → Bool
  pub times_3_6 : D → D
  pub to_text : Bytes → Bytes
  pub to_xml : Bytes → Bytes

-- `SHLC_LocationType`
pub data LocationType : Type 0 where
  location_2d location_3d : LocationType

pub record LiteLocation (D : Type 0) : Type 0 where
  pub latitude : D
  pub longitude : D
  pub altitude : D
  pub type : LocationType
  pub hpe : D
  pub nap : ℕ
  pub nsat : ℕ
  pub ncell : ℕ
  pub nlac : ℕ
  pub speed : D
  pub bearing : D
  pub time : ℕ

-- `SHLC_Location`
pub record ShlcLocation (D : Type 0) : Type 0 where
  pub latitude : D
  pub longitude : D
  pub altitude : D
  pub type : LocationType
  pub hpe : D
  pub nap : ℕ
  pub nsat : ℕ
  pub ncell : ℕ
  pub nlac : ℕ
  pub speed : D
  pub bearing : D
  pub age : ℕ

-- The time delta after a location: `max(now - rqtime, 0L) * 1000`, an `unsigned long`; `now` is in
-- seconds.
unfoldable pub delta_after : ℕ → ℤ → ℕ → ℕ
delta_after now rqtime time_delta =
    if ltb_ℤ (pos 0) rqtime then pos_part (sub_ℤ (pos now) rqtime) * 1000 % 2 ^ 64 else time_delta

-- `locations`, unless it is empty.
abbrev pub if_any : {A : Type 0} → List A → Option (List A)
if_any [] = none
if_any (x ∷ xs) = some (x ∷ xs)

module _ (r : Reader) where
  -- The constructor; `time` is the tick at which it runs.
  unfoldable pub new_location : ℕ → LiteLocation r.D
  new_location tick = record {
    latitude = r.zero_double;
    longitude = r.zero_double;
    altitude = r.zero_double;
    type = location_2d;
    hpe = r.zero_double;
    nap = 0;
    nsat = 0;
    ncell = 0;
    nlac = 0;
    speed = r.minus_one;
    bearing = r.minus_one;
    time = tick;
  }

  abbrev pub convert_speed : r.D → Option r.D
  convert_speed speed =
      if r.is_minus_one speed
      then some r.minus_one
      else if r.is_not_negative speed
      then some (r.times_3_6 speed)
      else none

  -- `operator SHLC_Location*`, at a tick.
  unfoldable pub to_shlc_location : LiteLocation r.D → ℕ → Option (ShlcLocation r.D)
  to_shlc_location l tick = do
    speed ← convert_speed l.speed
    some (record {
      latitude = l.latitude;
      longitude = l.longitude;
      altitude = l.altitude;
      type = l.type;
      hpe = l.hpe;
      nap = l.nap;
      nsat = l.nsat;
      ncell = l.ncell;
      nlac = l.nlac;
      speed = speed;
      bearing = l.bearing;
      age = elapsed l.time tick;
    })

  abbrev pub value_of : XmlNode → Bytes
  value_of node = get_node_value r.to_text r.to_xml node

  -- An element of the protocol's namespace.
  abbrev pub is_named : XmlNode → Bytes → Bool
  is_named node local =
      bytes_eq (get_namespace_uri r.to_text r.to_xml node) namespace_uri
      && bytes_eq (get_local_name r.to_text r.to_xml node) local

  -- `selectSingleNode`: the loop over the children.
  unfoldable pub select_single_node : XmlNodes → Bytes → Option XmlNode
  unfolding bytes_eq
  select_single_node end local = none
  select_single_node (next node nodes) local =
      if is_named node local then some node else select_single_node nodes local

  unfoldable pub parse_double : XmlNode → Bytes → r.D
  unfolding select_single_node
  parse_double parent local = elim (select_single_node (children_of parent) local) [
    | none ↦ r.zero_double
    | some node ↦ r.atof (value_of node)
  ]

  -- `atoi` of an attribute without a namespace.
  abbrev pub number_of : XmlNode → Bytes → ℤ
  number_of node local = atoi (get_attribute_ns r.to_text r.to_xml node [] local)

  -- The body of the loop for a "location": `tick` is when the timer is reset.
  unfoldable pub parse_location : ℕ → XmlNode → ℕ → LiteLocation r.D
  unfolding new_location parse_double
  parse_location tick node time_delta = record (new_location tick) {
    hpe = parse_double node (codes "hpe");
    nap = to_ushort (number_of node (codes "nap"));
    nsat = to_ushort (number_of node (codes "nsat"));
    ncell = to_ushort (number_of node (codes "ncell"));
    nlac = to_ushort (number_of node (codes "nlac"));
    latitude = parse_double node (codes "latitude");
    longitude = parse_double node (codes "longitude");
    time =
        reset (signed64 ((low_bits 64 (number_of node (codes "age")) + time_delta) % 2 ^ 64)) tick;
  }

  -- The loop over the children from number i on; `tick` and `now` are the ticks and the seconds at
  -- which its rounds look at the clocks.
  unfoldable pub parse_locations : (ℕ → ℕ) → (ℕ → ℕ) → ℕ → XmlNodes → ℕ → List (LiteLocation r.D)
  unfolding parse_location delta_after
  parse_locations tick now i end time_delta = []
  parse_locations tick now i (next node nodes) time_delta =
      let delta = delta_after (now i) (number_of node (codes "rqtime")) time_delta in
      if is_named node (codes "location")
      then parse_location (tick i) node delta ∷ parse_locations tick now (i + 1) nodes delta
      else parse_locations tick now (i + 1) nodes time_delta

  -- `parseLocationRS` on the document's element, `none` for `false`. No document, or one without
  -- an element, is `none` too.
  unfoldable pub parse_location_rs :
      (ℕ → ℕ) → (ℕ → ℕ) → Option XmlNode → ℕ → Option (List (LiteLocation r.D))
  unfolding parse_locations
  parse_location_rs tick now none time_delta = none
  parse_location_rs tick now (some root) time_delta =
      if_any (parse_locations tick now 0 (children_of root) time_delta)

  -- `parseErrorRS`
  unfoldable pub parse_error_rs : Option XmlNode → Option Bytes
  unfolding select_single_node
  parse_error_rs none = none
  parse_error_rs (some root) = elim (select_single_node (children_of root) (codes "error")) [
    | none ↦ none
    | some node ↦ some (value_of node)
  ]
