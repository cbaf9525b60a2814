-- ===== src/Sensors/Loop.antt =====
-- The loop of `ingest_suricata` (backend/app/api/suricata.py): its three ends, and what they leave.
use intrusion_detect.Common.{
  ℕ, suc, ◌+◌, ◌≡◌, refl, Bool, true, false, ◌||◌, Option, none, some, List, [], ◌∷◌, ◌++◌, Text,
  if◌then◌else◌, All, any-append, ◌==◌, Bool-cases, Option-cases, inl, inr, ◌⊎◌, arith, is_some,
}
use intrusion_detect.Sensors.{
  Python, SuricataAlert, SuricataEvent, SuricataBatch, EventType, alert_event, stats_event, Fields,
  SensorAlert, Progress, event_identity, is_known, accept, accept_any, dispatch, observe,
  observe_all, alert_row, alert_created, later_of, or_empty,
}

abbrev pub identity_by : Python → Text → SuricataEvent → EventType → Option SuricataAlert → Option ℕ
identity_by py sensor_id event stats_event asked = none
identity_by py sensor_id event alert_event none = none
identity_by py sensor_id event alert_event (some alert) =
    some (event_identity py sensor_id event alert)

-- The external id of an event that asks for an alert.
unfoldable pub identity_of : Python → Text → SuricataEvent → Option ℕ
identity_of py sensor_id event = identity_by py sensor_id event event.event_type event.alert

abbrev known_or_none : List SensorAlert → Option ℕ → Bool
known_or_none alerts none = true
known_or_none alerts (some i) = is_known i alerts

-- Nothing of the event is left to insert.
abbrev pub IsKnown : Python → Text → List SensorAlert → SuricataEvent → Type 0
IsKnown py sensor_id alerts event = known_or_none alerts (identity_of py sensor_id event) ≡ true

-- How many events ask for an alert.
unfoldable pub alert_count : Python → Text → List SuricataEvent → ℕ
unfolding identity_of
alert_count py sensor_id [] = 0
alert_count py sensor_id (event ∷ events) =
    (if is_some (identity_of py sensor_id event) then 1 else 0) + alert_count py sensor_id events

abbrev pub stats_by : SuricataEvent → EventType → Option Fields → Option Fields
stats_by event stats_event latest = some (or_empty event.stats)
stats_by event alert_event latest = latest

unfoldable pub stats_after : List SuricataEvent → Option Fields → Option Fields
stats_after [] latest = latest
stats_after (event ∷ events) latest = stats_after events (stats_by event event.event_type latest)

-- The loop's body on an event that inserts nothing, of which `again` is 1 for a known alert.
abbrev pub noticed : SuricataEvent → EventType → ℕ → Progress → Progress
noticed event type again p = record p {
  latest_event = some (later_of p.latest_event event.timestamp);
  latest_stats = stats_by event type p.latest_stats;
  duplicates = p.duplicates + again;
}

abbrev pub inserted :
    Python → ℕ → SuricataBatch → SuricataEvent → SuricataAlert → Progress → Progress
inserted py now batch event alert p =
    let row =
      alert_row now (py.uuid4 p.draws) (event_identity py batch.sensor_id event alert) batch event
        alert in
    record p {
      latest_event = some (later_of p.latest_event event.timestamp);
      accepted = p.accepted + 1;
      alerts = p.alerts ++ row ∷ [];
      outbox = p.outbox ++ alert_created row ∷ [];
      draws = suc p.draws;
    }

-- The three ends of the loop's body.
unfoldable pub Ends :
    Python
    → ℕ
    → SuricataBatch
    → SuricataEvent
    → EventType
    → Option SuricataAlert
    → Progress
    → Progress
    → Type 0
Ends py now batch event type asked p q =
    ((identity_by py batch.sensor_id event type asked ≡ none) × (q ≡ noticed event type 0 p))
    ⊎ ((i : ℕ) × (identity_by py batch.sensor_id event type asked ≡ some i)
        × (is_known i p.alerts ≡ true)
        × (q ≡ noticed event type 1 p))
    ⊎ ((alert : SuricataAlert) × (type ≡ alert_event)
        × (asked ≡ some alert)
        × (identity_by py batch.sensor_id event type asked
            ≡ some (event_identity py batch.sensor_id event alert))
        × (is_known (event_identity py batch.sensor_id event alert) p.alerts ≡ false)
        × (q ≡ inserted py now batch event alert p))

accept-Ends :
    (py : Python) (now : ℕ) (batch : SuricataBatch) (event : SuricataEvent) (alert : SuricataAlert)
    (p : Progress)
    → Ends py now batch event alert_event (some alert) p (
        accept py now batch event alert
          (record p { latest_event = some (later_of p.latest_event event.timestamp) }))
unfolding Ends accept
accept-Ends py now batch event alert p =
    elim (Bool-cases (is_known (event_identity py batch.sensor_id event alert) p.alerts)) [
      | inl known ↦ inr (inl (_, refl, known, rw known refl))
      | inr fresh ↦ inr (inr (alert, refl, refl, refl, fresh, rw fresh refl))
    ]

accept_any-Ends :
    (py : Python) (now : ℕ) (batch : SuricataBatch) (event : SuricataEvent)
    (asked : Option SuricataAlert) (p : Progress)
    → Ends py now batch event alert_event asked p (
        accept_any py now batch event asked
          (record p { latest_event = some (later_of p.latest_event event.timestamp) }))
unfolding Ends accept_any
accept_any-Ends py now batch event none p =
    let same : p.duplicates ≡ p.duplicates + 0 = omega arith in inl (refl, rw⁻¹ same refl)
accept_any-Ends py now batch event (some alert) p = accept-Ends py now batch event alert p

dispatch-Ends :
    (py : Python) (now : ℕ) (batch : SuricataBatch) (event : SuricataEvent) (type : EventType)
    (p : Progress)
    → Ends py now batch event type event.alert p (
        dispatch py now batch event type
          (record p { latest_event = some (later_of p.latest_event event.timestamp) }))
unfolding Ends dispatch
dispatch-Ends py now batch event stats_event p =
    let same : p.duplicates ≡ p.duplicates + 0 = omega arith in inl (refl, rw⁻¹ same refl)
dispatch-Ends py now batch event alert_event p = accept_any-Ends py now batch event event.alert p

pub observe-Ends :
    (py : Python) (now : ℕ) (batch : SuricataBatch) (event : SuricataEvent) (p : Progress)
    → Ends py now batch event event.event_type event.alert p (observe py now batch event p)
unfolding observe
observe-Ends py now batch event p = dispatch-Ends py now batch event event.event_type p

is_known-append :
    (i : ℕ) (xs ys : List SensorAlert) → is_known i (xs ++ ys) ≡ (is_known i xs || is_known i ys)
is_known-append i xs ys = any-append (λ a. a.external_event_id == i) xs ys

is_known-insert :
    (i : ℕ) (xs : List SensorAlert) (row : SensorAlert)
    → row.external_event_id ≡ i
    → is_known i (xs ++ row ∷ []) ≡ true
is_known-insert i [] row e = ground (arith, e)
is_known-insert i (x ∷ xs) row e = ground (arith, is_known-insert i xs row e)

is_known-more :
    (i : ℕ) (xs ys : List SensorAlert) → is_known i xs ≡ true → is_known i (xs ++ ys) ≡ true
is_known-more i xs ys h = rw (is_known-append i xs ys, h) refl

-- What is known stays known, and the event is known afterwards.
observe-IsKnown :
    (py : Python) (now : ℕ) (batch : SuricataBatch) (event : SuricataEvent) (p : Progress)
    → ((i : ℕ)
        → is_known i p.alerts ≡ true
        → is_known i (observe py now batch event p).alerts ≡ true)
      × IsKnown py batch.sensor_id (observe py now batch event p).alerts event
unfolding Ends identity_of alert_row
observe-IsKnown py now batch event p = elim (observe-Ends py now batch event p) [
  | inl (unasked, q_e) ↦ rw (q_e, unasked) ((λ i h. h), refl)
  | inr (inl (i, asked, known, q_e)) ↦ rw (q_e, asked) ((λ i h. h), known)
  | inr (inr (alert, type_e, alert_e, id_e, fresh, q_e)) ↦
      rw (q_e, id_e) ((λ i h. is_known-more i p.alerts _ h), is_known-insert _ p.alerts _ refl)
]

IsKnown-more :
    (py : Python) (sensor_id : Text) (xs ys : List SensorAlert) (event : SuricataEvent)
    → ((i : ℕ) → is_known i xs ≡ true → is_known i ys ≡ true)
    → IsKnown py sensor_id xs event
    → IsKnown py sensor_id ys event
IsKnown-more py sensor_id xs ys event more h =
    elim (Option-cases (identity_of py sensor_id event)) [
      | inl none_e ↦ rw none_e refl
      | inr (i, some_e) ↦ rw some_e (more i (rw some_e at h))
    ]

-- After a loop all of its events are known.
pub observe_all-IsKnown :
    (py : Python) (now : ℕ) (batch : SuricataBatch) (events : List SuricataEvent) (p : Progress)
    → ((i : ℕ)
        → is_known i p.alerts ≡ true
        → is_known i (observe_all py now batch events p).alerts ≡ true)
      × All (IsKnown py batch.sensor_id (observe_all py now batch events p).alerts) events
unfolding observe_all
observe_all-IsKnown py now batch [] p = ((λ i h. h), tt)
observe_all-IsKnown py now batch (event ∷ events) p =
    let q = observe py now batch event p in
    let (stays, known) = observe-IsKnown py now batch event p in
    let (stay, rest) = observe_all-IsKnown py now batch events q in
    (
      (λ i h. stay i (stays i h)),
      (IsKnown-more py batch.sensor_id q.alerts _ event stay known, rest),
    )

-- A progress that differs from another by `more` duplicates and in the latest instants and statistics.
pub record Ahead (more : ℕ) (p q : Progress) : Type 0 where
  pub accepted : q.accepted ≡ p.accepted
  pub duplicates : q.duplicates ≡ p.duplicates + more
  pub alerts : q.alerts ≡ p.alerts
  pub outbox : q.outbox ≡ p.outbox
  pub draws : q.draws ≡ p.draws

-- An event that is known already adds at most a duplicate.
pub observe-known :
    (py : Python) (now : ℕ) (batch : SuricataBatch) (event : SuricataEvent) (p : Progress)
    → IsKnown py batch.sensor_id p.alerts event
    → Ahead
        (if is_some (identity_of py batch.sensor_id event) then 1 else 0)
        p
        (observe py now batch event p)
unfolding Ends identity_of
observe-known py now batch event p h = elim (observe-Ends py now batch event p) [
  | inl (unasked, q_e) ↦
      rw (q_e, unasked)
        (record { accepted = refl; duplicates = refl; alerts = refl; outbox = refl; draws = refl })
  | inr (inl (i, asked, known, q_e)) ↦
      rw (q_e, asked)
        (record { accepted = refl; duplicates = refl; alerts = refl; outbox = refl; draws = refl })
  | inr (inr (alert, type_e, alert_e, id_e, fresh, q_e)) ↦
      let clash = rw (id_e, fresh) at h in absurd cc
]
