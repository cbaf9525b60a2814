-- ===== src/Sensors/Once.antt =====
-- backend/app/api/suricata.py: what the loop leaves, counted, and an event that comes again.
use intrusion_detect.Common.{
  ℕ, suc, ◌+◌, ◌≡◌, refl, ap, ◌∙◌, true, false, Option, none, some, List, [], ◌∷◌, ◌++◌,
  if◌then◌else◌, All, Bool-cases, inl, inr, arith, is_some,
}
use intrusion_detect.Sensors.{
  Python, SuricataAlert, SuricataEvent, SuricataBatch, EventType, alert_event, stats_event,
  Progress, event_identity, is_known, accept, accept_any, dispatch, observe, observe_all,
}
use intrusion_detect.Sensors.Loop.{
  identity_of, IsKnown, alert_count, stats_by, stats_after, Ends, observe-Ends, Ahead,
  observe-known,
}

Ahead-trans : (m n : ℕ) (p q r : Progress) → Ahead m p q → Ahead n q r → Ahead (m + n) p r
Ahead-trans m n p q r a b =
    let d : r.duplicates ≡ p.duplicates + (m + n) = omega (arith, a.duplicates, b.duplicates) in
    record {
      accepted = b.accepted ∙ a.accepted;
      duplicates = d;
      alerts = b.alerts ∙ a.alerts;
      outbox = b.outbox ∙ a.outbox;
      draws = b.draws ∙ a.draws;
    }

accept-Ahead :
    (py : Python) (now : ℕ) (batch : SuricataBatch) (event : SuricataEvent) (alert : SuricataAlert)
    (more : ℕ) (p q : Progress)
    → Ahead more p q
    → Ahead more (accept py now batch event alert p) (accept py now batch event alert q)
unfolding accept
accept-Ahead py now batch event alert more p q a =
    let i = event_identity py batch.sensor_id event alert in
    elim (Bool-cases (is_known i p.alerts)) [
      | inl known ↦
          let known' : is_known i q.alerts ≡ true = rw a.alerts known in
          let d : q.duplicates + 1 ≡ p.duplicates + 1 + more = omega (arith, a.duplicates) in
          rw (known, known')
            (record {
              accepted = a.accepted;
              duplicates = d;
              alerts = a.alerts;
              outbox = a.outbox;
              draws = a.draws;
            })
      | inr fresh ↦
          let fresh' : is_known i q.alerts ≡ false = rw a.alerts fresh in
          rw (fresh, fresh')
            (record {
              accepted = ap (λ (n : ℕ). n + 1) a.accepted;
              duplicates = a.duplicates;
              alerts = rw (a.alerts, a.draws) refl;
              outbox = rw (a.outbox, a.draws) refl;
              draws = ap suc a.draws;
            })
    ]

accept_any-Ahead :
    (py : Python) (now : ℕ) (batch : SuricataBatch) (event : SuricataEvent)
    (asked : Option SuricataAlert) (more : ℕ) (p q : Progress)
    → Ahead more p q
    → Ahead more (accept_any py now batch event asked p) (accept_any py now batch event asked q)
unfolding accept_any
accept_any-Ahead py now batch event none more p q a = a
accept_any-Ahead py now batch event (some alert) more p q a =
    accept-Ahead py now batch event alert more p q a

dispatch-Ahead :
    (py : Python) (now : ℕ) (batch : SuricataBatch) (event : SuricataEvent) (type : EventType)
    (more : ℕ) (p q : Progress) (x y : Option ℕ)
    → Ahead more p q
    → Ahead more
        (dispatch py now batch event type (record p { latest_event = x }))
        (dispatch py now batch event type (record q { latest_event = y }))
unfolding dispatch
dispatch-Ahead py now batch event stats_event more p q x y a = record {
  accepted = a.accepted;
  duplicates = a.duplicates;
  alerts = a.alerts;
  outbox = a.outbox;
  draws = a.draws;
}
dispatch-Ahead py now batch event alert_event more p q x y a =
    accept_any-Ahead py now batch event event.alert more (record p { latest_event = x })
      (record q { latest_event = y })
      (record {
        accepted = a.accepted;
        duplicates = a.duplicates;
        alerts = a.alerts;
        outbox = a.outbox;
        draws = a.draws;
      })

-- The lead is kept by a further event: it is decided by the alerts alone.
observe-Ahead :
    (py : Python) (now : ℕ) (batch : SuricataBatch) (event : SuricataEvent) (more : ℕ)
    (p q : Progress)
    → Ahead more p q
    → Ahead more (observe py now batch event p) (observe py now batch event q)
unfolding observe
observe-Ahead py now batch event more p q a =
    dispatch-Ahead py now batch event event.event_type more p q _ _ a

pub observe_all-Ahead :
    (py : Python) (now : ℕ) (batch : SuricataBatch) (events : List SuricataEvent) (more : ℕ)
    (p q : Progress)
    → Ahead more p q
    → Ahead more (observe_all py now batch events p) (observe_all py now batch events q)
unfolding observe_all
observe_all-Ahead py now batch [] more p q a = a
observe_all-Ahead py now batch (event ∷ events) more p q a =
    observe_all-Ahead py now batch events more (observe py now batch event p)
      (observe py now batch event q) (observe-Ahead py now batch event more p q a)

-- Events that are all known add duplicates only.
pub observe_all-known :
    (py : Python) (now : ℕ) (batch : SuricataBatch) (events : List SuricataEvent) (p : Progress)
    → All (IsKnown py batch.sensor_id p.alerts) events
    → Ahead (alert_count py batch.sensor_id events) p (observe_all py now batch events p)
unfolding observe_all alert_count
observe_all-known py now batch [] p h =
    let d : p.duplicates ≡ p.duplicates + 0 = omega arith in
    record { accepted = refl; duplicates = d; alerts = refl; outbox = refl; draws = refl }
observe_all-known py now batch (event ∷ events) p h =
    let q = observe py now batch event p in
    let first = observe-known py now batch event p h.0 in
    let rest = observe_all-known py now batch events q (rw first.alerts h.1) in
    Ahead-trans _ _ p q _ first rest

pub observe_all-append :
    (py : Python) (now : ℕ) (batch : SuricataBatch) (xs ys : List SuricataEvent) (p : Progress)
    → observe_all py now batch (xs ++ ys) p
      ≡ observe_all py now batch ys (observe_all py now batch xs p)
unfolding observe_all
observe_all-append py now batch [] ys p = refl
observe_all-append py now batch (event ∷ xs) ys p =
    observe_all-append py now batch xs ys (observe py now batch event p)

-- The statistics that count are those of the last event that brings some.
observe-stats :
    (py : Python) (now : ℕ) (batch : SuricataBatch) (event : SuricataEvent) (p : Progress)
    → (observe py now batch event p).latest_stats ≡ stats_by event event.event_type p.latest_stats
unfolding Ends
observe-stats py now batch event p = elim (observe-Ends py now batch event p) [
  | inl (unasked, q_e) ↦ rw q_e refl
  | inr (inl (i, asked, known, q_e)) ↦ rw q_e refl
  | inr (inr (alert, type_e, alert_e, id_e, fresh, q_e)) ↦ rw (q_e, type_e) refl
]

pub observe_all-stats :
    (py : Python) (now : ℕ) (batch : SuricataBatch) (events : List SuricataEvent) (p : Progress)
    → (observe_all py now batch events p).latest_stats ≡ stats_after events p.latest_stats
unfolding observe_all stats_after
observe_all-stats py now batch [] p = refl
observe_all-stats py now batch (event ∷ events) p =
    observe_all-stats py now batch events (observe py now batch event p)
    ∙ ap (stats_after events) (observe-stats py now batch event p)

-- Each event that asks for an alert is counted once, as accepted or as a duplicate.
observe-total :
    (py : Python) (now : ℕ) (batch : SuricataBatch) (event : SuricataEvent) (p : Progress)
    → (observe py now batch event p).accepted + (observe py now batch event p).duplicates
      ≡ p.accepted
        + p.duplicates
        + (if is_some (identity_of py batch.sensor_id event) then 1 else 0)
unfolding Ends identity_of
observe-total py now batch event p = elim (observe-Ends py now batch event p) [
  | inl (unasked, q_e) ↦ rw (q_e, unasked) (omega arith)
  | inr (inl (i, asked, known, q_e)) ↦ rw (q_e, asked) (omega arith)
  | inr (inr (alert, type_e, alert_e, id_e, fresh, q_e)) ↦ rw (q_e, id_e) (omega arith)
]

pub observe_all-total :
    (py : Python) (now : ℕ) (batch : SuricataBatch) (events : List SuricataEvent) (p : Progress)
    → (observe_all py now batch events p).accepted + (observe_all py now batch events p).duplicates
      ≡ p.accepted + p.duplicates + alert_count py batch.sensor_id events
unfolding observe_all alert_count
observe_all-total py now batch [] p = omega arith
observe_all-total py now batch (event ∷ events) p = omega (
  arith,
  observe-total py now batch event p,
  observe_all-total py now batch events (observe py now batch event p),
)
