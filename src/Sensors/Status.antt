-- ===== src/Sensors/Status.antt =====
-- `sensor_status` of backend/app/api/suricata.py, and what a request changes in it.
--
-- The collation of the database, which orders the sensors by their ids, is a parameter.
use intrusion_detect.Common.{
  ℕ, ◌+◌, ◌≡◌, refl, ap, ◌∙◌, Bool, true, false, ◌||◌, Option, none, some, List, [], ◌∷◌, Text,
  text_eq, if◌then◌else◌, any, leb, map, arith, Bool-cases, inl, inr,
}
use intrusion_detect.Ingestion.Lease.{seconds}
use intrusion_detect.Sensors.{SensorState, put_state, state_of}

pub data Presence : Type 0 where
  online offline : Presence

-- One entry of `sensors`; the columns that are copied stand in `row`.
pub record SensorEntry : Type 0 where
  pub presence : Presence
  pub row : SensorState

pub record Aggregate : Type 0 where
  pub packets : ℕ
  pub capture_drops : ℕ
  pub events_seen : ℕ
  pub alerts_accepted : ℕ

pub record SensorStatus : Type 0 where
  pub presence : Presence
  pub sensors : List SensorEntry
  pub aggregate : Aggregate
  pub checked_at : ℕ

abbrev is_online : Presence → Bool
is_online online = true
is_online offline = false

abbrev pub presence_of : Bool → Presence
presence_of true = online
presence_of false = offline

insert_state : (Text → Text → Bool) → SensorState → List SensorState → List SensorState
insert_state before s [] = s ∷ []
insert_state before s (t ∷ states) =
    let rest = insert_state before s states in
    if before t.sensor_id s.sensor_id then t ∷ rest else s ∷ t ∷ states

-- `ORDER BY sensor_id`
unfoldable pub in_order : (Text → Text → Bool) → List SensorState → List SensorState
unfolding insert_state
in_order before [] = []
in_order before (s ∷ states) = insert_state before s (in_order before states)

-- `heartbeat >= now - offline_seconds`
abbrev pub is_recent : ℕ → ℕ → SensorState → Bool
is_recent offline_seconds now s = leb now (s.last_heartbeat_at + seconds offline_seconds)

abbrev pub entry_of : ℕ → ℕ → SensorState → SensorEntry
entry_of offline_seconds now s = record {
  presence = presence_of (is_recent offline_seconds now s);
  row = s;
}

abbrev pub total : (SensorState → ℕ) → List SensorState → ℕ
total column [] = 0
total column (s ∷ states) = column s + total column states

unfoldable pub sensor_status : (Text → Text → Bool) → ℕ → ℕ → List SensorState → SensorStatus
unfolding in_order
sensor_status before offline_seconds now states =
    let rows = in_order before states in
    let sensors = map (entry_of offline_seconds now) rows in
    record {
      presence = presence_of (any (λ item. is_online item.presence) sensors);
      sensors = sensors;
      aggregate = record {
        packets = total (λ s. s.packets) rows;
        capture_drops = total (λ s. s.capture_drops) rows;
        events_seen = total (λ s. s.events_seen) rows;
        alerts_accepted = total (λ s. s.alerts_accepted) rows;
      };
      checked_at = now;
    }

-- A column's total does not depend on the order.
total-insert_state :
    (before : Text → Text → Bool) (column : SensorState → ℕ) (s : SensorState)
    (states : List SensorState)
    → total column (insert_state before s states) ≡ column s + total column states
unfolding insert_state
total-insert_state before column s [] = refl
total-insert_state before column s (t ∷ states) =
    ground (arith, total-insert_state before column s states)

pub total-in_order :
    (before : Text → Text → Bool) (column : SensorState → ℕ) (states : List SensorState)
    → total column (in_order before states) ≡ total column states
unfolding in_order
total-in_order before column [] = refl
total-in_order before column (s ∷ states) = omega (
  arith,
  total-insert_state before column s (in_order before states),
  total-in_order before column states,
)

any-insert_state :
    (before : Text → Text → Bool) (test : SensorState → Bool) (s : SensorState)
    (states : List SensorState)
    → any test (insert_state before s states) ≡ (test s || any test states)
unfolding insert_state
any-insert_state before test s [] = refl
any-insert_state before test s (t ∷ states) = ground (arith, any-insert_state before test s states)

pub any-in_order :
    (before : Text → Text → Bool) (test : SensorState → Bool) (states : List SensorState)
    → any test (in_order before states) ≡ any test states
unfolding in_order
any-in_order before test [] = refl
any-in_order before test (s ∷ states) =
    any-insert_state before test s (in_order before states)
    ∙ ap (λ b. test s || b) (any-in_order before test states)

pub any-entries :
    (offline_seconds now : ℕ) (states : List SensorState)
    → any (λ item. is_online item.presence) (map (entry_of offline_seconds now) states)
      ≡ any (is_recent offline_seconds now) states
any-entries offline_seconds now [] = refl
any-entries offline_seconds now (s ∷ states) = elim (Bool-cases (is_recent offline_seconds now s)) [
  | inl recent ↦ rw recent refl
  | inr old ↦ rw old (any-entries offline_seconds now states)
]

pub any-put_state :
    (test : SensorState → Bool) (new : SensorState) (states : List SensorState)
    → test new ≡ true
    → any test (put_state new states) ≡ true
unfolding put_state
any-put_state test new [] h = ground arith
any-put_state test new (s ∷ states) h = ground (arith, any-put_state test new states h)

abbrev pub old_value : (SensorState → ℕ) → Option SensorState → ℕ
old_value column none = 0
old_value column (some s) = column s

pub total-put_state :
    (column : SensorState → ℕ) (new : SensorState) (states : List SensorState)
    → total column (put_state new states) + old_value column (state_of new.sensor_id states)
      ≡ total column states + column new
unfolding put_state state_of
total-put_state column new [] = omega arith
total-put_state column new (s ∷ states) = elim (Bool-cases (text_eq s.sensor_id new.sensor_id)) [
  | inl same ↦ rw same (omega arith)
  | inr differs ↦ rw differs (omega (arith, total-put_state column new states))
]
