-- ===== src/Tests/Suricata.antt =====
-- The theorems of the sensor's endpoint and of its agent at concrete inputs.
use intrusion_detect.Common.{
  ℕ, ◌+◌, ◌*◌, ◌≡◌, refl, Bool, true, false, Option, none, some, List, [], ◌∷◌, ◌++◌, map, Text,
  codes, text_eq, if◌then◌else◌, arith, All, length,
}
use intrusion_detect.Sensors.{
  Json, Fields, string, object, nil, field, integer, SuricataAlert, SuricataEvent, SuricataBatch,
  SuricataReceipt, alert_event, stats_event, Database, ingest_suricata, state_of,
}
use intrusion_detect.Sensors as Sensors
use intrusion_detect.Sensors.Loop.{alert_count}
use intrusion_detect.Sensors.Invariant.{IsConsistent, ingest_suricata-IsConsistent}
use intrusion_detect.Sensors.Status.{sensor_status, online}
use intrusion_detect.Sensors.Heartbeat.{sensor_status-ingest_suricata}
use intrusion_detect.Sensors.Resend.{ingest_suricata-resend}
use intrusion_detect.Agent as Agent
use intrusion_detect.Agent.{Forwarded, lines_from, of_line, normalize}
use intrusion_detect.Agent.Lines.{records}
use intrusion_detect.Agent.Deliveries.{kept}
use intrusion_detect.Agent.Runs.{
  accepted, unanswered, refused, Step, grow, turn, restart, run, first, IsAt, run-IsAt,
}
use intrusion_detect.Agent.Drain.{IsHashable, run-drains}

abbrev hash : Text → ℕ
hash [] = 1
hash (c ∷ t) = c + 257 * hash t

abbrev python : Sensors.Python
python = record {
  isoformat = λ t. t ∷ [];
  uuid5 = hash;
  uuid4 = λ n. 500 + n;
  int_of_float = λ bits. none;
}

abbrev scan : SuricataAlert
scan = record {
  signature_id = 2001;
  rev = none;
  signature = codes "SCAN";
  category = codes "recon";
  severity = 2;
  action = codes "allowed";
}

abbrev event : ℕ → SuricataEvent
event timestamp = record {
  timestamp = timestamp;
  event_type = alert_event;
  flow_id = some (codes "f");
  tx_id = none;
  pcap_cnt = none;
  src_ip = none;
  src_port = none;
  dest_ip = none;
  dest_port = none;
  proto = none;
  app_proto = none;
  alert = some scan;
  stats = none;
}

abbrev batch : SuricataBatch
batch = record {
  sensor_id = codes "lab";
  interface = codes "iotlab0";
  engine_version = none;
  rule_count = none;
  events = event 100 ∷ event 100 ∷ event 200 ∷ [];
}

abbrev no_rows : Database
no_rows = record { states = []; alerts = []; outbox = []; draws = 0 }

no_rows-IsConsistent : IsConsistent no_rows
unfolding state_of
no_rows-IsConsistent = record { distinct = refl; announced = refl; counters = λ sensor_id. refl }

abbrev done :
    Database × SuricataReceipt → Option (Database × SuricataReceipt) → Database × SuricataReceipt
done other none = other
done other (some r) = r

abbrev nothing : Database × SuricataReceipt
nothing = (no_rows, record { accepted_alerts = 0; duplicate_alerts = 0; observed_events = 0 })

abbrev after_batch : Database × SuricataReceipt
after_batch = done nothing (ingest_suricata python 1000 batch no_rows)

batch_taken : ingest_suricata python 1000 batch no_rows ≡ some (after_batch.0, after_batch.1)
unfolding ingest_suricata
batch_taken = refl

ingest_suricata-IsConsistent_example : IsConsistent after_batch.0
ingest_suricata-IsConsistent_example =
    ingest_suricata-IsConsistent python 1000 batch no_rows after_batch.0 after_batch.1
      no_rows-IsConsistent batch_taken

abbrev by_length : Text → Text → Bool
by_length a b = true

sensor_status-ingest_suricata_example :
    ((sensor_status by_length 30 2000 after_batch.0.states).presence ≡ online)
    × ((sensor_status by_length 30 2000 after_batch.0.states).aggregate.events_seen
        ≡ (sensor_status by_length 30 1000 no_rows.states).aggregate.events_seen
          + after_batch.1.observed_events)
    × ((sensor_status by_length 30 2000 after_batch.0.states).aggregate.alerts_accepted
        ≡ (sensor_status by_length 30 1000 no_rows.states).aggregate.alerts_accepted
          + after_batch.1.accepted_alerts)
sensor_status-ingest_suricata_example =
    sensor_status-ingest_suricata python by_length 30 1000 2000 batch no_rows after_batch.0
      after_batch.1 batch_taken (omega arith)

abbrev later_batch : SuricataBatch
later_batch = record batch { events = event 300 ∷ [] }

abbrev after_later : Database × SuricataReceipt
after_later = done nothing (ingest_suricata python 5000 later_batch after_batch.0)

later_taken :
    ingest_suricata python 5000 later_batch after_batch.0 ≡ some (after_later.0, after_later.1)
unfolding ingest_suricata
later_taken = refl

ingest_suricata-resend_example :
    (again : Database) × (receipt : SuricataReceipt) × (ingest_suricata python 5000
        (record batch { events = batch.events ++ event 300 ∷ [] })
        after_batch.0
      ≡ some (again, receipt))
    × (again.alerts ≡ after_later.0.alerts)
    × (again.outbox ≡ after_later.0.outbox)
    × (receipt.accepted_alerts ≡ after_later.1.accepted_alerts)
    × (receipt.duplicate_alerts
        ≡ after_later.1.duplicate_alerts + alert_count python (codes "lab") batch.events)
ingest_suricata-resend_example =
    ingest_suricata-resend python 1000 5000 batch (event 300 ∷ []) no_rows after_batch.0
      after_later.0 after_batch.1 after_later.1 batch_taken later_taken

-- Each line is taken for an alert, but "x" is no JSON.
abbrev json_of : Text → Option Json
json_of line =
    if text_eq line (codes "x")
    then none
    else some (
        object (
          field (codes "event_type") (string (codes "alert"))
            (field (codes "timestamp") (string line) nil)))

abbrev agent_python : Agent.Python
agent_python = record {
  loads = json_of;
  str = λ value. [];
  int_of_text = λ t. none;
  int_of_float = λ bits. none;
}

-- Two lines and a part of a third one, a lost answer, a failing commit, a crash and a delivery.
abbrev steps : List Step
steps =
    grow (codes "a" ++ 10 ∷ codes "x" ++ 10 ∷ codes "b")
    ∷ turn 0 unanswered true
    ∷ turn 2 accepted false
    ∷ restart
    ∷ turn 3 refused true
    ∷ turn 3 accepted true
    ∷ grow (10 ∷ codes "c" ++ 10 ∷ [])
    ∷ []

-- The record of the first line was delivered three times, at last with a checkpoint.
three_deliveries :
    map {B = ℕ × Bool}
      (λ d. (length d.events, d.committed))
      (run agent_python 1 1 steps (first agent_python)).deliveries
    ≡ (1, false) ∷ (1, false) ∷ (1, true) ∷ []
unfolding run first lines_from of_line normalize
three_deliveries = refl

run-IsAt_example : IsAt agent_python (run agent_python 1 1 steps (first agent_python))
run-IsAt_example = run-IsAt agent_python 1 1 steps

lines-IsHashable :
    All
      (IsHashable agent_python)
      (lines_from [] (run agent_python 1 1 steps (first agent_python)).log)
unfolding run first lines_from of_line normalize
lines-IsHashable = ground arith

run-drains_example :
    kept
      (run agent_python 1 1
        (map (λ now. turn now accepted true) (4 ∷ 5 ∷ 6 ∷ []))
        (run agent_python 1 1 steps (first agent_python))).deliveries
    ≡ records agent_python (lines_from [] (run agent_python 1 1 steps (first agent_python)).log)
run-drains_example =
    run-drains agent_python 1 1 steps (4 ∷ 5 ∷ 6 ∷ []) lines-IsHashable
      (unfold run first records lines_from of_line normalize in omega arith)
