-- ===== src/Sensors/Heartbeat.antt =====
-- What a request of a sensor changes in the status (backend/app/api/suricata.py).
use intrusion_detect.Common.{
  ℕ, ◌+◌, ◌≤◌, ◌≡◌, refl, ap, ◌∙◌, Bool, true, Option, none, some, List, Text, any, length, arith,
}
use intrusion_detect.Ingestion.Lease.{seconds}
use intrusion_detect.Sensors.{
  Python, SuricataBatch, SuricataReceipt, SensorState, Database, ingest_suricata, put_state,
  state_of, state_or, heartbeat, finish_state, receipt_of, new_state,
}
use intrusion_detect.Sensors.Counters.{finish_state-Counted, state_or-sensor_id}
use intrusion_detect.Sensors.Commit.{loop_of, ingest_suricata-Committed}
use intrusion_detect.Sensors.Invariant.{bind-Ended}
use intrusion_detect.Sensors.Status.{
  sensor_status, online, presence_of, is_recent, total, old_value, total-in_order, total-put_state,
  any-put_state, any-in_order, any-entries, in_order,
}

-- The row that a request ends with, against the row it found.
record Moved (batch : SuricataBatch) (now accepted : ℕ) (db db' : Database) : Type 0 where
  row : SensorState
  stored : db'.states ≡ put_state row db.states
  same : row.sensor_id ≡ batch.sensor_id
  beat : row.last_heartbeat_at ≡ now
  seen :
      row.events_seen
      ≡ old_value (λ s. s.events_seen) (state_of batch.sensor_id db.states) + length batch.events
  more :
      row.alerts_accepted
      ≡ old_value (λ s. s.alerts_accepted) (state_of batch.sensor_id db.states) + accepted

old_value-state_or :
    (batch : SuricataBatch) (o : Option SensorState)
    → ((state_or batch o).events_seen ≡ old_value (λ s. s.events_seen) o)
      × ((state_or batch o).alerts_accepted ≡ old_value (λ s. s.alerts_accepted) o)
unfolding new_state
old_value-state_or batch none = (refl, refl)
old_value-state_or batch (some s) = (refl, refl)

ingest_suricata-Moved :
    (py : Python) (now : ℕ) (batch : SuricataBatch) (db db' : Database) (r : SuricataReceipt)
    → ingest_suricata py now batch db ≡ some (db', r)
    → Moved batch now (loop_of py now batch db).accepted db db'
unfolding ingest_suricata heartbeat
ingest_suricata-Moved py now batch db db' r e =
    let p = loop_of py now batch db in
    let found = state_of batch.sensor_id db.states in
    let s = heartbeat now batch (state_or batch found) in
    let ended = bind-Ended py batch p db.states s (finish_state py p s) db' r refl e in
    let c = finish_state-Counted py p s ended.row ended.finished in
    let (old_seen, old_accepted) = old_value-state_or batch found in
    record {
      row = ended.row;
      stored = ap (λ d. d.states) ended.left;
      same = c.same ∙ (state_or-sensor_id batch db.states).0;
      beat = c.beat;
      seen = c.seen ∙ ap (λ (n : ℕ). n + length batch.events) old_seen;
      more = c.more ∙ ap (λ (n : ℕ). n + p.accepted) old_accepted;
    }

total-stored :
    (before : Text → Text → Bool) (column : SensorState → ℕ) (row : SensorState)
    (states states' : List SensorState) (id : Text) (n : ℕ)
    → states' ≡ put_state row states
    → row.sensor_id ≡ id
    → column row ≡ old_value column (state_of id states) + n
    → total column (in_order before states') ≡ total column (in_order before states) + n
total-stored before column row states states' id n stored same h =
    let old = ap (λ k. old_value column (state_of k states)) same in
    rw
      (
        stored,
        total-in_order before column (put_state row states),
        total-in_order before column states,
      )
      (omega (arith, total-put_state column row states, h, old))

-- After a request of a sensor that is committed, the status is online until the time allowed without
-- a heartbeat is over, whatever the other sensors do; and the totals of the events seen and of the
-- alerts accepted have grown by what the receipt says, for any collation and any allowed time.
pub sensor_status-ingest_suricata :
    (py : Python) (before : Text → Text → Bool) (offline_seconds now later : ℕ)
    (batch : SuricataBatch) (db db' : Database) (r : SuricataReceipt)
    → ingest_suricata py now batch db ≡ some (db', r)
    → later ≤ now + seconds offline_seconds
    → ((sensor_status before offline_seconds later db'.states).presence ≡ online)
      × ((sensor_status before offline_seconds later db'.states).aggregate.events_seen
          ≡ (sensor_status before offline_seconds now db.states).aggregate.events_seen
            + r.observed_events)
      × ((sensor_status before offline_seconds later db'.states).aggregate.alerts_accepted
          ≡ (sensor_status before offline_seconds now db.states).aggregate.alerts_accepted
            + r.accepted_alerts)
unfolding sensor_status receipt_of
sensor_status-ingest_suricata py before offline_seconds now later batch db db' r e soon =
    let m = ingest_suricata-Moved py now batch db db' r e in
    let receipt = (ingest_suricata-Committed py now batch db db' r e).receipt in
    let recent : is_recent offline_seconds later m.row ≡ true = rw m.beat (ground arith) in
    let stored : any (is_recent offline_seconds later) db'.states ≡ true =
      rw m.stored (any-put_state (is_recent offline_seconds later) m.row db.states recent) in
    (
      ap presence_of (
          any-entries offline_seconds later (in_order before db'.states)
          ∙ any-in_order before (is_recent offline_seconds later) db'.states
          ∙ stored),
      rw receipt (
          total-stored before (λ s. s.events_seen) m.row db.states db'.states batch.sensor_id
            (length batch.events) m.stored m.same m.seen),
      rw receipt (
          total-stored before (λ s. s.alerts_accepted) m.row db.states db'.states batch.sensor_id
            (loop_of py now batch db).accepted m.stored m.same m.more),
    )
