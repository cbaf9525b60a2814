-- ===== src/Agent/Normalize.antt =====
-- `normalize` of backend/app/ingestion/suricata_agent.py: what is forwarded of a record.
use intrusion_detect.Common.{ℕ, Bool, ◌||◌, Option, none, some, Text, codes, text_eq, if◌then◌else◌}
use intrusion_detect.Sensors.{
  Json, Fields, null, boolean, integer, float, string, array, object, get, lookup,
}

-- The alert's keys that are forwarded.
pub record ForwardedAlert : Type 0 where
  pub signature_id : Json
  pub rev : Json
  pub signature : Json
  pub category : Json
  pub severity : Json
  pub action : Json

pub record Forwarded : Type 0 where
  pub timestamp : Text
  pub event_type : Text
  pub flow_id : Option Text
  pub tx_id : Json
  pub pcap_cnt : Json
  pub src_ip : Json
  pub src_port : Json
  pub dest_ip : Json
  pub dest_port : Json
  pub proto : Json
  pub app_proto : Json
  pub alert : Option ForwardedAlert
  pub stats : Json

-- What `normalize` gives for a record: nothing, an item, or a `TypeError` for a value that is not
-- hashable, which `in` raises.
pub data Normalized : Type 0 where
  skipped raised : Normalized
  item : Forwarded → Normalized

abbrev alert_type : Text
alert_type = codes "alert"

abbrev stats_type : Text
stats_type = codes "stats"

forward_alert : Text → Json → Option ForwardedAlert
unfolding get
forward_alert event_type (object fields) =
    if text_eq event_type alert_type
    then some (record {
      signature_id = get (codes "signature_id") fields;
      rev = get (codes "rev") fields;
      signature = get (codes "signature") fields;
      category = get (codes "category") fields;
      severity = get (codes "severity") fields;
      action = get (codes "action") fields;
    })
    else none
forward_alert event_type null = none
forward_alert event_type (boolean b) = none
forward_alert event_type (integer negative magnitude) = none
forward_alert event_type (float bits) = none
forward_alert event_type (string t) = none
forward_alert event_type array = none

-- `str` of a value that is not `None`.
abbrev str_unless_null : (Json → Text) → Json → Option Text
str_unless_null str null = none
str_unless_null str (boolean b) = some (str (boolean b))
str_unless_null str (integer negative magnitude) = some (str (integer negative magnitude))
str_unless_null str (float bits) = some (str (float bits))
str_unless_null str (string t) = some (str (string t))
str_unless_null str array = some (str array)
str_unless_null str (object fields) = some (str (object fields))

forward : (Json → Text) → Text → Text → Fields → Forwarded
unfolding forward_alert
forward str event_type timestamp fields = record {
  timestamp = timestamp;
  event_type = event_type;
  flow_id = str_unless_null str (get (codes "flow_id") fields);
  tx_id = get (codes "tx_id") fields;
  pcap_cnt = get (codes "pcap_cnt") fields;
  src_ip = get (codes "src_ip") fields;
  src_port = get (codes "src_port") fields;
  dest_ip = get (codes "dest_ip") fields;
  dest_port = get (codes "dest_port") fields;
  proto = get (codes "proto") fields;
  app_proto = get (codes "app_proto") fields;
  alert = forward_alert event_type (get (codes "alert") fields);
  stats = if text_eq event_type stats_type then get (codes "stats") fields else null;
}

with_timestamp : (Json → Text) → Text → Json → Fields → Normalized
unfolding forward
with_timestamp str event_type (string timestamp) fields =
    item (forward str event_type timestamp fields)
with_timestamp str event_type null fields = skipped
with_timestamp str event_type (boolean b) fields = skipped
with_timestamp str event_type (integer negative magnitude) fields = skipped
with_timestamp str event_type (float bits) fields = skipped
with_timestamp str event_type array fields = skipped
with_timestamp str event_type (object inner) fields = skipped

with_event_type : (Json → Text) → Json → Fields → Normalized
unfolding with_timestamp
with_event_type str (string event_type) fields =
    if text_eq event_type alert_type || text_eq event_type stats_type
    then with_timestamp str event_type (get (codes "timestamp") fields) fields
    else skipped
with_event_type str array fields = raised
with_event_type str (object inner) fields = raised
with_event_type str null fields = skipped
with_event_type str (boolean b) fields = skipped
with_event_type str (integer negative magnitude) fields = skipped
with_event_type str (float bits) fields = skipped

unfoldable pub normalize : (Json → Text) → Fields → Normalized
unfolding with_event_type get lookup
normalize str fields = with_event_type str (get (codes "event_type") fields) fields

-- What the code takes from Python: `json.loads` of a line, `str` of a value, and `int` of a text or
-- of a float as a sign and a magnitude.
pub record Python : Type 0 where
  pub loads : Text → Option Json
  pub str : Json → Text
  pub int_of_text : Text → Option (Bool × ℕ)
  pub int_of_float : ℕ → Option (Bool × ℕ)

of_value : Python → Option Json → Normalized
unfolding normalize
of_value py (some (object fields)) = normalize py.str fields
of_value py none = skipped
of_value py (some null) = skipped
of_value py (some (boolean b)) = skipped
of_value py (some (integer negative magnitude)) = skipped
of_value py (some (float bits)) = skipped
of_value py (some (string t)) = skipped
of_value py (some array) = skipped

unfoldable pub of_line : Python → Text → Normalized
unfolding of_value
of_line py line = of_value py (py.loads line)
