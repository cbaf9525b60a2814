-- ===== src/Sensors/Counters.antt =====
-- The counter `alerts_accepted` of a sensor (backend/app/api/suricata.py) from the loop to the commit.
use mathlib.Core.Option.{some-injective}
use intrusion_detect.Common.{
  ℕ, ◌+◌, ◌≡◌, refl, sym, Bool, Option, none, some, List, [], ◌∷◌, Text, text_eq, text_eq_iff,
  if◌then◌else◌, count_if, Bool-cases, Option-cases, inl, inr, arith,
}
use intrusion_detect.Sensors.{
  Python, SuricataBatch, Fields, SensorAlert, SensorState, Progress, Nested, absent, raised,
  counted, finish_state, apply_stats, state_of, put_state, new_state, state_or, ◌>>=◌, set_packets,
  set_drops,
}

abbrev pub of_sensor : Text → SensorAlert → Bool
of_sensor sensor_id a = text_eq a.sensor_id sensor_id

abbrev counter_of : Option SensorState → ℕ
counter_of none = 0
counter_of (some s) = s.alerts_accepted

-- The counter of a sensor, 0 without a row.
abbrev pub accepted_of : Text → List SensorState → ℕ
accepted_of sensor_id states = counter_of (state_of sensor_id states)

state_of-put_state :
    (new : SensorState) (states : List SensorState) (other : Text)
    → state_of other (put_state new states)
      ≡ (if text_eq new.sensor_id other then some new else state_of other states)
unfolding state_of put_state
state_of-put_state new [] other = refl
state_of-put_state new (s ∷ states) other = ground (
  arith,
  state_of-put_state new states other,
  text_eq_iff s.sensor_id new.sensor_id,
  text_eq_iff s.sensor_id other,
  text_eq_iff new.sensor_id other,
)

state_of-sensor_id :
    (sensor_id : Text) (states : List SensorState) (s : SensorState)
    → state_of sensor_id states ≡ some s
    → s.sensor_id ≡ sensor_id
unfolding state_of
state_of-sensor_id sensor_id [] s e = absurd cc
state_of-sensor_id sensor_id (t ∷ states) s e =
    ground (arith, state_of-sensor_id sensor_id states s, text_eq_iff t.sensor_id sensor_id)

-- The row that the endpoint starts from is the sensor's.
pub state_or-sensor_id :
    (batch : SuricataBatch) (states : List SensorState)
    → ((state_or batch (state_of batch.sensor_id states)).sensor_id ≡ batch.sensor_id)
      × ((state_or batch (state_of batch.sensor_id states)).alerts_accepted
          ≡ accepted_of batch.sensor_id states)
unfolding new_state
state_or-sensor_id batch states = elim (Option-cases (state_of batch.sensor_id states)) [
  | inl none_e ↦ rw none_e (refl, refl)
  | inr (s, some_e) ↦ rw some_e (state_of-sensor_id batch.sensor_id states s some_e, refl)
]

pub record Counted (p : Progress) (s s' : SensorState) : Type 0 where
  pub same : s'.sensor_id ≡ s.sensor_id
  pub more : s'.alerts_accepted ≡ s.alerts_accepted + p.accepted
  pub seen : s'.events_seen ≡ s.events_seen
  pub beat : s'.last_heartbeat_at ≡ s.last_heartbeat_at

set_drops-Counted :
    (p : Progress) (s : SensorState) (drops : Nested) (s' : SensorState)
    → (set_drops drops s >>= λ t.
        some (record t { alerts_accepted = t.alerts_accepted + p.accepted }))
      ≡ some s'
    → Counted p s s'
unfolding set_drops
set_drops-Counted p s absent s' e =
    let same = sym (some-injective _ _ e) in
    rw same (record { same = refl; more = refl; seen = refl; beat = refl })
set_drops-Counted p s raised s' e = absurd cc
set_drops-Counted p s (counted n) s' e =
    let same = sym (some-injective _ _ e) in
    rw same (record { same = refl; more = refl; seen = refl; beat = refl })

set_packets-Counted :
    (p : Progress) (s : SensorState) (packets drops : Nested) (s' : SensorState)
    → (set_packets packets s >>= set_drops drops >>= λ t.
        some (record t { alerts_accepted = t.alerts_accepted + p.accepted }))
      ≡ some s'
    → Counted p s s'
unfolding set_packets
set_packets-Counted p s absent drops s' e = set_drops-Counted p s drops s' e
set_packets-Counted p s raised drops s' e = absurd cc
set_packets-Counted p s (counted n) drops s' e =
    let c = set_drops-Counted p (record s { packets = n }) drops s' e in
    record { same = c.same; more = c.more; seen = c.seen; beat = c.beat }

apply_stats-Counted :
    (py : Python) (p : Progress) (stats : Option Fields) (s s' : SensorState)
    → (apply_stats py stats s >>= λ t.
        some (record t { alerts_accepted = t.alerts_accepted + p.accepted }))
      ≡ some s'
    → Counted p s s'
unfolding apply_stats
apply_stats-Counted py p none s s' e =
    let same = sym (some-injective _ _ e) in
    rw same (record { same = refl; more = refl; seen = refl; beat = refl })
apply_stats-Counted py p (some stats) s s' e = set_packets-Counted p s _ _ s' e

pub finish_state-Counted :
    (py : Python) (p : Progress) (s s' : SensorState)
    → finish_state py p s ≡ some s'
    → Counted p s s'
unfolding finish_state
finish_state-Counted py p s s' e =
    let c = apply_stats-Counted py p p.latest_stats _ s' e in
    record { same = c.same; more = c.more; seen = c.seen; beat = c.beat }

-- The commit keeps the counters true.
pub put_state-counters :
    (new : SensorState) (states : List SensorState) (accepted : ℕ)
    (alerts before : List SensorAlert) (other : Text)
    → new.alerts_accepted ≡ accepted_of new.sensor_id states + accepted
    → accepted_of other states ≡ count_if (of_sensor other) before
    → count_if (of_sensor other) alerts
      ≡ count_if (of_sensor other) before + (if text_eq new.sensor_id other then accepted else 0)
    → accepted_of other (put_state new states) ≡ count_if (of_sensor other) alerts
put_state-counters new states accepted alerts before other more counters added =
    elim (Bool-cases (text_eq new.sensor_id other)) [
      | inl same ↦
          let more' = rw ((text_eq_iff new.sensor_id other).0 same) at more in
          rw (state_of-put_state new states other, same)
            (omega (arith, more', counters, rw same at added))
      | inr differs ↦
          rw (state_of-put_state new states other, differs)
            (omega (arith, counters, rw differs at added))
    ]
