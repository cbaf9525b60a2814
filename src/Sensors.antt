-- ===== src/Sensors.antt =====
-- backend/app/api/suricata.py: what a sensor sends becomes alerts, each once, and the sensor's state.
--
-- `ingest_suricata` is one transaction that no other one interleaves with, and `now` is its clock. It
-- has no result where the code raises: then the session is rolled back.
mod Events
mod States
pub mod Loop
pub mod Once
pub mod Commit
pub mod Resend
pub mod Counters
pub mod Invariant
pub mod Status
pub mod Heartbeat
unfoldable pub use Events.*
unfoldable pub use States.*
use intrusion_detect.Common.{
  ℕ, suc, ◌+◌, ◌≤◌, Bool, true, false, Option, none, some, List, [], ◌∷◌, ◌++◌, Text, codes,
  text_eq, is_empty, leb, ◌==◌, if◌then◌else◌, any, max, length,
}
use intrusion_detect.Auth.{compare_digest}

-- The rows of the database that the endpoint reads and writes.
pub record Database : Type 0 where
  pub states : List SensorState
  pub alerts : List SensorAlert
  pub outbox : List AlertCreated
  pub draws : ℕ

-- The local variables of the loop and the rows that it adds.
pub record Progress : Type 0 where
  pub accepted : ℕ
  pub duplicates : ℕ
  pub latest_event : Option ℕ
  pub latest_stats : Option Fields
  pub alerts : List SensorAlert
  pub outbox : List AlertCreated
  pub draws : ℕ

unfoldable pub alert_wire : SensorAlert → AlertWire
alert_wire a = record {
  alert_id = a.alert_id;
  severity = a.severity;
  reasons = a.reasons;
  created_at = a.occurred_at;
  attack_class = a.signature;
  network_context = a.network_context;
  sensor_evidence = a.sensor_evidence;
}

unfoldable pub alert_created : SensorAlert → AlertCreated
unfolding alert_wire
alert_created a = record { event_id = a.alert_id; data_ = alert_wire a }

abbrev pub is_known : ℕ → List SensorAlert → Bool
is_known external_id alerts = any (λ a. a.external_event_id == external_id) alerts

unfoldable pub network_context_of : SuricataBatch → SuricataEvent → NetworkContext
network_context_of batch event = record {
  source_ip = event.src_ip;
  destination_ip = event.dest_ip;
  source_port = event.src_port;
  destination_port = event.dest_port;
  protocol = event.proto;
  interface = batch.interface;
  capture_id = event.flow_id;
}

unfoldable pub evidence_of : SuricataBatch → SuricataEvent → SuricataAlert → SensorEvidence
evidence_of batch event alert = record {
  sensor_id = batch.sensor_id;
  engine_version = batch.engine_version;
  signature_id = alert.signature_id;
  signature_revision = alert.rev;
  signature = alert.signature;
  category = alert.category;
  priority = alert.severity;
  action = alert.action;
  application_protocol = event.app_proto;
  flow_id = event.flow_id;
  tx_id = event.tx_id;
  pcap_count = event.pcap_cnt;
}

unfoldable pub alert_row : ℕ → ℕ → ℕ → SuricataBatch → SuricataEvent → SuricataAlert → SensorAlert
unfolding severity_of network_context_of evidence_of
alert_row now alert_id external_id batch event alert = record {
  alert_id = alert_id;
  external_event_id = external_id;
  occurred_at = event.timestamp;
  sensor_id = batch.sensor_id;
  signature_id = alert.signature_id;
  signature = alert.signature;
  category = alert.category;
  action = alert.action;
  network_context = network_context_of batch event;
  sensor_evidence = evidence_of batch event alert;
  severity = severity_of alert.severity;
  reasons = alert.signature ∷ alert.category ∷ [];
  created_at = now;
}

-- The end of the loop's body: the lookup by `external_event_id`, and the insert.
unfoldable pub accept :
    Python → ℕ → SuricataBatch → SuricataEvent → SuricataAlert → Progress → Progress
unfolding event_identity alert_row alert_created
accept py now batch event alert p =
    let external_id = event_identity py batch.sensor_id event alert in
    let row = alert_row now (py.uuid4 p.draws) external_id batch event alert in
    if is_known external_id p.alerts then record p { duplicates = p.duplicates + 1 } else record p {
      accepted = p.accepted + 1;
      alerts = p.alerts ++ row ∷ [];
      outbox = p.outbox ++ alert_created row ∷ [];
      draws = suc p.draws;
    }

abbrev later_of : Option ℕ → ℕ → ℕ
later_of none t = t
later_of (some latest) t = max latest t

abbrev or_empty : Option Fields → Fields
or_empty none = nil
or_empty (some fields) = fields

unfoldable accept_any :
    Python → ℕ → SuricataBatch → SuricataEvent → Option SuricataAlert → Progress → Progress
unfolding accept
accept_any py now batch event none p = p
accept_any py now batch event (some alert) p = accept py now batch event alert p

unfoldable dispatch : Python → ℕ → SuricataBatch → SuricataEvent → EventType → Progress → Progress
unfolding accept_any
dispatch py now batch event stats_event p = record p { latest_stats = some (or_empty event.stats) }
dispatch py now batch event alert_event p = accept_any py now batch event event.alert p

-- The loop's body.
unfoldable pub observe : Python → ℕ → SuricataBatch → SuricataEvent → Progress → Progress
unfolding dispatch
observe py now batch event p =
    dispatch py now batch event event.event_type
      (record p { latest_event = some (later_of p.latest_event event.timestamp) })

unfoldable pub observe_all : Python → ℕ → SuricataBatch → List SuricataEvent → Progress → Progress
unfolding observe
observe_all py now batch [] p = p
observe_all py now batch (event ∷ events) p =
    observe_all py now batch events (observe py now batch event p)

unfoldable pub start : Database → Progress
start db = record {
  accepted = 0;
  duplicates = 0;
  latest_event = none;
  latest_stats = none;
  alerts = db.alerts;
  outbox = db.outbox;
  draws = db.draws;
}

-- The assignments after the loop, and the commit.
unfoldable pub finish_state : Python → Progress → SensorState → Option SensorState
unfolding apply_stats
finish_state py p s =
    apply_stats py p.latest_stats
      (record s { last_event_at = number_or p.latest_event s.last_event_at })
    >>= λ s'. some (record s' { alerts_accepted = s'.alerts_accepted + p.accepted })

unfoldable pub receipt_of : SuricataBatch → Progress → SuricataReceipt
receipt_of batch p = record {
  accepted_alerts = p.accepted;
  duplicate_alerts = p.duplicates;
  observed_events = length batch.events;
}

unfoldable pub ingest_suricata :
    Python → ℕ → SuricataBatch → Database → Option (Database × SuricataReceipt)
unfolding state_of heartbeat observe_all start finish_state put_state receipt_of new_state
ingest_suricata py now batch db =
    let s = heartbeat now batch (state_or batch (state_of batch.sensor_id db.states)) in
    let p = observe_all py now batch batch.events (start db) in
    finish_state py p s >>= λ s'. some (
      record {
        states = put_state s' db.states;
        alerts = p.alerts;
        outbox = p.outbox;
        draws = p.draws;
      },
      receipt_of batch p,
    )

-- `_sensor_token`: SHA-256 in hexadecimal is a parameter.
pub data SensorAccess : Type 0 where
  not_configured refused failed sensor : SensorAccess

abbrev matched : Option Bool → SensorAccess
matched none = failed
matched (some true) = sensor
matched (some false) = refused

unfoldable pub sensor_token : (Text → Text) → Text → Option Text → SensorAccess
unfolding compare_digest
sensor_token sha256 expected none = if is_empty expected then not_configured else refused
sensor_token sha256 expected (some token) =
    let access = matched (compare_digest (sha256 token) expected) in
    if is_empty expected then not_configured else if is_empty token then refused else access
