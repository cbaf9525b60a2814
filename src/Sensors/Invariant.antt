-- ===== src/Sensors/Invariant.antt =====
-- backend/app/api/suricata.py: what holds between the alerts, the outbox and the sensors' counters.
use mathlib.Core.Option.{some-injective}
use intrusion_detect.Common.{
  ℕ, ◌+◌, ◌≡◌, refl, sym, ap, ◌∙◌, Bool, true, false, ◌&&◌, Option, none, some, List, [], ◌∷◌, ◌++◌,
  map, Text, text_eq, if◌then◌else◌, any-append, count_if, count_if-append, ◌==◌, ==_iff, inl, inr,
  arith, not,
}
use intrusion_detect.Sensors.{
  Python, SuricataEvent, SuricataBatch, SuricataReceipt, SensorAlert, SensorState, Database,
  Progress, is_known, observe, observe_all, alert_row, alert_created, start, ingest_suricata,
  finish_state, state_of, put_state, state_or, heartbeat, ◌>>=◌,
}
use intrusion_detect.Sensors.Loop.{Ends, observe-Ends}
use intrusion_detect.Sensors.Counters.{
  of_sensor, accepted_of, state_or-sensor_id, finish_state-Counted, put_state-counters,
}
use intrusion_detect.Sensors.Commit.{loop_of, commit}

-- No two alerts have the same external id.
abbrev pub are_distinct : List SensorAlert → Bool
are_distinct [] = true
are_distinct (a ∷ alerts) = not (is_known a.external_event_id alerts) && are_distinct alerts

-- External ids are unique, each alert has exactly one message in the outbox, in the same order, and
-- the counter of each sensor is the number of its alerts.
pub record IsConsistent (db : Database) : Type 0 where
  pub distinct : are_distinct db.alerts ≡ true
  pub announced : db.outbox ≡ map alert_created db.alerts
  pub counters :
      (sensor_id : Text)
      → accepted_of sensor_id db.states ≡ count_if (of_sensor sensor_id) db.alerts

-- The same while the loop of a batch runs.
record IsRunning (sensor_id : Text) (alerts : List SensorAlert) (p : Progress) : Type 0 where
  distinct : are_distinct p.alerts ≡ true
  announced : p.outbox ≡ map alert_created p.alerts
  counters :
      (other : Text)
      → count_if (of_sensor other) p.alerts
        ≡ count_if (of_sensor other) alerts + (if text_eq sensor_id other then p.accepted else 0)

are_distinct-insert :
    (alerts : List SensorAlert) (row : SensorAlert)
    → are_distinct alerts ≡ true
    → is_known row.external_event_id alerts ≡ false
    → are_distinct (alerts ++ row ∷ []) ≡ true
are_distinct-insert [] row h k = refl
are_distinct-insert (a ∷ alerts) row h k = ground (
  arith,
  are_distinct-insert alerts row,
  any-append (λ (b : SensorAlert). b.external_event_id == a.external_event_id) alerts (row ∷ []),
  ==_iff a.external_event_id row.external_event_id,
  ==_iff row.external_event_id a.external_event_id,
)

map-append : {A B : Type 0} (f : A → B) (xs ys : List A) → map f (xs ++ ys) ≡ map f xs ++ map f ys
map-append f [] ys = refl
map-append f (x ∷ xs) ys = ap (λ zs. f x ∷ zs) (map-append f xs ys)

count_if-inserted :
    (other : Text) (alerts : List SensorAlert) (row : SensorAlert) (before accepted : ℕ)
    → count_if (of_sensor other) alerts
      ≡ before + (if text_eq row.sensor_id other then accepted else 0)
    → count_if (of_sensor other) (alerts ++ row ∷ [])
      ≡ before + (if text_eq row.sensor_id other then accepted + 1 else 0)
count_if-inserted other alerts row before accepted h =
    ground (arith, count_if-append (of_sensor other) alerts (row ∷ []))

observe-IsRunning :
    (py : Python) (now : ℕ) (batch : SuricataBatch) (event : SuricataEvent)
    (alerts : List SensorAlert) (p : Progress)
    → IsRunning batch.sensor_id alerts p
    → IsRunning batch.sensor_id alerts (observe py now batch event p)
unfolding Ends alert_row
observe-IsRunning py now batch event alerts p r = elim (observe-Ends py now batch event p) [
  | inl (unasked, q_e) ↦
      rw q_e (record { distinct = r.distinct; announced = r.announced; counters = r.counters })
  | inr (inl (i, asked, known, q_e)) ↦
      rw q_e (record { distinct = r.distinct; announced = r.announced; counters = r.counters })
  | inr (inr (alert, type_e, alert_e, id_e, fresh, q_e)) ↦ rw q_e (record {
    distinct = are_distinct-insert p.alerts _ r.distinct fresh;
    announced = rw (r.announced, map-append alert_created p.alerts) refl;
    counters = λ other. count_if-inserted other p.alerts _ _ p.accepted (r.counters other);
  })
]

observe_all-IsRunning :
    (py : Python) (now : ℕ) (batch : SuricataBatch) (events : List SuricataEvent)
    (alerts : List SensorAlert) (p : Progress)
    → IsRunning batch.sensor_id alerts p
    → IsRunning batch.sensor_id alerts (observe_all py now batch events p)
unfolding observe_all
observe_all-IsRunning py now batch [] alerts p r = r
observe_all-IsRunning py now batch (event ∷ events) alerts p r =
    observe_all-IsRunning py now batch events alerts (observe py now batch event p)
      (observe-IsRunning py now batch event alerts p r)

-- A request that is committed, from its loop to its row.
pub record Ended (py : Python) (batch : SuricataBatch) (p : Progress) (states : List SensorState)
    (s : SensorState) (db : Database) : Type 0 where
  pub row : SensorState
  pub finished : finish_state py p s ≡ some row
  pub left : db ≡ record {
    states = put_state row states;
    alerts = p.alerts;
    outbox = p.outbox;
    draws = p.draws;
  }

pub bind-Ended :
    (py : Python) (batch : SuricataBatch) (p : Progress) (states : List SensorState)
    (s : SensorState) (o : Option SensorState) (db : Database) (r : SuricataReceipt)
    → finish_state py p s ≡ o
    → (o >>= λ s'. some (commit batch p states s')) ≡ some (db, r)
    → Ended py batch p states s db
bind-Ended py batch p states s none db r f e = absurd cc
bind-Ended py batch p states s (some row) db r f e = record {
  row = row;
  finished = f;
  left = ap (λ q. q.0) (sym (some-injective _ _ e));
}

start-IsRunning :
    (sensor_id : Text) (db : Database) → IsConsistent db → IsRunning sensor_id db.alerts (start db)
unfolding start
start-IsRunning sensor_id db c = record {
  distinct = c.distinct;
  announced = c.announced;
  counters = λ other. ground arith;
}

-- Every request of a sensor that is committed keeps the alerts, the outbox and the sensors' counters
-- consistent, whatever events it brings and however often they came before.
pub ingest_suricata-IsConsistent :
    (py : Python) (now : ℕ) (batch : SuricataBatch) (db db' : Database) (r : SuricataReceipt)
    → IsConsistent db
    → ingest_suricata py now batch db ≡ some (db', r)
    → IsConsistent db'
unfolding ingest_suricata heartbeat
ingest_suricata-IsConsistent py now batch db db' r c e =
    let p = loop_of py now batch db in
    let s = heartbeat now batch (state_or batch (state_of batch.sensor_id db.states)) in
    let run =
      observe_all-IsRunning py now batch batch.events db.alerts (start db)
        (start-IsRunning batch.sensor_id db c) in
    let ended = bind-Ended py batch p db.states s (finish_state py p s) db' r refl e in
    let counted = finish_state-Counted py p s ended.row ended.finished in
    let (id_e, before) = state_or-sensor_id batch db.states in
    let same : ended.row.sensor_id ≡ batch.sensor_id = counted.same ∙ id_e in
    let more : ended.row.alerts_accepted ≡ accepted_of batch.sensor_id db.states + p.accepted =
      counted.more ∙ ap (λ (n : ℕ). n + p.accepted) before in
    rw ended.left (record {
      distinct = run.distinct;
      announced = run.announced;
      counters = λ other.
          put_state-counters ended.row db.states p.accepted p.alerts db.alerts other (rw same more)
            (c.counters other) (rw same (run.counters other));
    })
