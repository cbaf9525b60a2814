-- ===== src/Sensors/Events.antt =====
-- The bodies of backend/app/api/suricata.py, the rows that it writes, and an event's identity.
use Prim.Native.Nat.{zero, suc, ◌+◌, ◌/◌, ◌%◌}
use intrusion_detect.Common.{
  ℕ, Bool, true, false, Option, none, some, List, [], ◌∷◌, ◌++◌, Text, codes, text_eq, ltb, ◌==◌,
  if◌then◌else◌,
}

-- The values of `json.loads` as far as the code tells them apart; a float is opaque here.
mutual
  pub data Json : Type 0 where
    null : Json
    boolean : Bool → Json
    integer : (negative : Bool) → (magnitude : ℕ) → Json
    float : ℕ → Json
    string : Text → Json
    array : Json
    object : Fields → Json

  pub data Fields : Type 0 where
    nil : Fields
    field : Text → Json → Fields → Fields

-- `dict.get`, with `null` for a key that is missing; a later value of the same key wins.
unfoldable pub lookup : Text → Fields → Option Json
lookup key nil = none
lookup key (field name value rest) = elim (lookup key rest) [
  | none ↦ if text_eq key name then some value else none
  | some later ↦ some later
]

unfoldable pub get : Text → Fields → Json
unfolding lookup
get key fields = elim (lookup key fields) [ none ↦ null | some value ↦ value ]

-- What the code takes from Python and from `uuid`: `datetime.isoformat` in UTC, `uuid5` of the URL
-- namespace, `uuid4` as a draw, and `int` of a float as a sign and a magnitude, with no result for
-- a NaN or an infinity.
pub record Python : Type 0 where
  pub isoformat : ℕ → Text
  pub uuid5 : Text → ℕ
  pub uuid4 : ℕ → ℕ
  pub int_of_float : ℕ → Option (Bool × ℕ)

pub record SuricataAlert : Type 0 where
  pub signature_id : ℕ
  pub rev : Option ℕ
  pub signature : Text
  pub category : Text
  pub severity : ℕ
  pub action : Text

pub data EventType : Type 0 where
  alert_event stats_event : EventType

pub record SuricataEvent : Type 0 where
  pub timestamp : ℕ
  pub event_type : EventType
  pub flow_id : Option Text
  pub tx_id : Option ℕ
  pub pcap_cnt : Option ℕ
  pub src_ip : Option Text
  pub src_port : Option ℕ
  pub dest_ip : Option Text
  pub dest_port : Option ℕ
  pub proto : Option Text
  pub app_proto : Option Text
  pub alert : Option SuricataAlert
  pub stats : Option Fields

pub record SuricataBatch : Type 0 where
  pub sensor_id : Text
  pub interface : Text
  pub engine_version : Option Text
  pub rule_count : Option ℕ
  pub events : List SuricataEvent

pub record SuricataReceipt : Type 0 where
  pub accepted_alerts : ℕ
  pub duplicate_alerts : ℕ
  pub observed_events : ℕ

pub data Severity : Type 0 where
  critical high medium low : Severity

pub record NetworkContext : Type 0 where
  pub source_ip : Option Text
  pub destination_ip : Option Text
  pub source_port : Option ℕ
  pub destination_port : Option ℕ
  pub protocol : Option Text
  pub interface : Text
  pub capture_id : Option Text

pub record SensorEvidence : Type 0 where
  pub sensor_id : Text
  pub engine_version : Option Text
  pub signature_id : ℕ
  pub signature_revision : Option ℕ
  pub signature : Text
  pub category : Text
  pub priority : ℕ
  pub action : Text
  pub application_protocol : Option Text
  pub flow_id : Option Text
  pub tx_id : Option ℕ
  pub pcap_count : Option ℕ

-- A row of `alerts` that a sensor caused; the rows of the models have no `external_event_id`.
pub record SensorAlert : Type 0 where
  pub alert_id : ℕ
  pub external_event_id : ℕ
  pub occurred_at : ℕ
  pub sensor_id : Text
  pub signature_id : ℕ
  pub signature : Text
  pub category : Text
  pub action : Text
  pub network_context : NetworkContext
  pub sensor_evidence : SensorEvidence
  pub severity : Severity
  pub reasons : List Text
  pub created_at : ℕ

-- What `_alert_wire` sends of a sensor's alert; the keys that are always `None` or empty are left
-- out, and `status` is "new" at an insert.
pub record AlertWire : Type 0 where
  pub alert_id : ℕ
  pub severity : Severity
  pub reasons : List Text
  pub created_at : ℕ
  pub attack_class : Text
  pub network_context : NetworkContext
  pub sensor_evidence : SensorEvidence

pub record AlertCreated : Type 0 where
  pub event_id : ℕ
  pub data_ : AlertWire

pub record SensorState : Type 0 where
  pub sensor_id : Text
  pub interface : Text
  pub engine_version : Option Text
  pub rule_count : Option ℕ
  pub packets : ℕ
  pub capture_drops : ℕ
  pub events_seen : ℕ
  pub alerts_accepted : ℕ
  pub last_event_at : Option ℕ
  pub last_heartbeat_at : ℕ

unfoldable pub severity_of : ℕ → Severity
severity_of priority =
    if priority == 1
    then critical
    else if priority == 2
    then high
    else if priority == 3
    then medium
    else low

-- `str` of an integer that is not negative: the digits, on fuel that the number itself gives.
unfoldable pub digits : ℕ → ℕ → Text → Text
digits zero n out = out
digits (suc fuel) n out =
    let out' = (48 + n % 10) ∷ out in
    let more = digits fuel (n / 10) out' in if ltb n 10 then out' else more

unfoldable pub str_int : ℕ → Text
unfolding digits
str_int n = digits (suc n) n []

unfoldable pub str_or_empty : Option ℕ → Text
unfolding str_int
str_or_empty none = []
str_or_empty (some n) = str_int n

abbrev text_or_empty : Option Text → Text
text_or_empty none = []
text_or_empty (some t) = t

abbrev colon : Text
colon = codes ":"

-- `_event_identity`: the parts joined by colons.
unfoldable pub event_identity : Python → Text → SuricataEvent → SuricataAlert → ℕ
unfolding str_int str_or_empty
event_identity py sensor_id event alert = py.uuid5 (
    codes "iot-ids:suricata:"
    ++ sensor_id
    ++ colon
    ++ py.isoformat event.timestamp
    ++ colon
    ++ text_or_empty event.flow_id
    ++ colon
    ++ str_int alert.signature_id
    ++ colon
    ++ str_or_empty event.tx_id
    ++ colon
    ++ str_or_empty event.pcap_cnt)

-- `_nested_int` at the end of its path: nothing, a number, or an exception of `int`.
pub data Nested : Type 0 where
  absent raised : Nested
  counted : ℕ → Nested

abbrev at_least_zero : Bool → ℕ → ℕ
at_least_zero true magnitude = 0
at_least_zero false magnitude = magnitude

abbrev of_float : Option (Bool × ℕ) → Nested
of_float none = raised
of_float (some (negative, magnitude)) = counted (at_least_zero negative magnitude)

unfoldable pub nested_int : Python → Json → List Text → Nested
unfolding get
nested_int py (object fields) (key ∷ path) = nested_int py (get key fields) path
nested_int py null (key ∷ path) = absent
nested_int py (boolean b) (key ∷ path) = absent
nested_int py (integer negative magnitude) (key ∷ path) = absent
nested_int py (float bits) (key ∷ path) = absent
nested_int py (string t) (key ∷ path) = absent
nested_int py array (key ∷ path) = absent
nested_int py null [] = absent
nested_int py (boolean b) [] = absent
nested_int py (integer negative magnitude) [] = counted (at_least_zero negative magnitude)
nested_int py (float bits) [] = of_float (py.int_of_float bits)
nested_int py (string t) [] = absent
nested_int py array [] = absent
nested_int py (object fields) [] = absent
