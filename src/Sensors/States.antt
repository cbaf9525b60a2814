-- ===== src/Sensors/States.antt =====
-- `SensorState` of backend/app/database/models.py, as backend/app/api/suricata.py makes and updates it.
use intrusion_detect.Common.{
  ℕ, ◌+◌, Option, none, some, List, [], ◌∷◌, Text, codes, text_eq, is_empty, if◌then◌else◌, length,
}
use intrusion_detect.Sensors.Events.{
  Fields, Nested, Python, SensorState, SuricataBatch, absent, counted, nested_int, object, raised,
}

unfoldable pub state_of : Text → List SensorState → Option SensorState
state_of sensor_id [] = none
state_of sensor_id (s ∷ states) =
    let rest = state_of sensor_id states in if text_eq s.sensor_id sensor_id then some s else rest

-- An UPDATE of the row of a primary key, or an INSERT of a row that is new.
unfoldable pub put_state : SensorState → List SensorState → List SensorState
put_state new [] = new ∷ []
put_state new (s ∷ states) =
    let rest = put_state new states in
    if text_eq s.sensor_id new.sensor_id then new ∷ states else s ∷ rest

unfoldable pub new_state : SuricataBatch → SensorState
new_state batch = record {
  sensor_id = batch.sensor_id;
  interface = batch.interface;
  engine_version = none;
  rule_count = none;
  packets = 0;
  capture_drops = 0;
  events_seen = 0;
  alerts_accepted = 0;
  last_event_at = none;
  last_heartbeat_at = 0;
}

-- `batch.engine_version or state.engine_version`
abbrev text_or : Option Text → Option Text → Option Text
text_or none old = old
text_or (some t) old = if is_empty t then old else some t

abbrev pub number_or {ℓ} : {A : Type ℓ} → Option A → Option A → Option A
number_or none old = old
number_or (some n) old = some n

-- The assignments before the loop.
unfoldable pub heartbeat : ℕ → SuricataBatch → SensorState → SensorState
heartbeat now batch s = record s {
  interface = batch.interface;
  engine_version = text_or batch.engine_version s.engine_version;
  rule_count = number_or batch.rule_count s.rule_count;
  last_heartbeat_at = now;
  events_seen = s.events_seen + length batch.events;
}

abbrev pub kernel_packets : List Text
kernel_packets = codes "capture" ∷ codes "kernel_packets" ∷ []

abbrev pub kernel_drops : List Text
kernel_drops = codes "capture" ∷ codes "kernel_drops" ∷ []

unfoldable pub set_packets : Nested → SensorState → Option SensorState
set_packets absent s = some s
set_packets raised s = none
set_packets (counted n) s = some (record s { packets = n })

unfoldable pub set_drops : Nested → SensorState → Option SensorState
set_drops absent s = some (record s { capture_drops = 0 })
set_drops raised s = none
set_drops (counted n) s = some (record s { capture_drops = n })

infixl 5 ◌>>=◌
abbrev pub ◌>>=◌ : {A B : Type 0} → Option A → (A → Option B) → Option B
none >>= f = none
some x >>= f = f x

unfoldable pub apply_stats : Python → Option Fields → SensorState → Option SensorState
unfolding nested_int set_packets set_drops
apply_stats py none s = some s
apply_stats py (some stats) s =
    set_packets (nested_int py (object stats) kernel_packets) s
    >>= set_drops (nested_int py (object stats) kernel_drops)

abbrev pub state_or : SuricataBatch → Option SensorState → SensorState
state_or batch none = new_state batch
state_or batch (some s) = s
