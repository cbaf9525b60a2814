-- ===== src/Sensors/Commit.antt =====
-- backend/app/api/suricata.py: when the commit of `ingest_suricata` is reached, and what it leaves.
use mathlib.Core.Option.{some-injective}
use intrusion_detect.Common.{
  ℕ, ◌≡◌, refl, sym, ap, ◌∙◌, Bool, true, false, ◌&&◌, Option, none, some, List, [], ◌∷◌, is_some,
  inl, inr, ◌⊎◌,
}
use intrusion_detect.Sensors.{
  Python, SuricataEvent, SuricataBatch, SuricataReceipt, EventType, alert_event, stats_event,
  Fields, SensorState, Database, Progress, Nested, absent, raised, counted, observe_all, start,
  ingest_suricata, finish_state, apply_stats, nested_int, kernel_packets, kernel_drops, set_packets,
  set_drops, ◌>>=◌, receipt_of, number_or, put_state, object,
}
use intrusion_detect.Sensors.Loop.{stats_after}
use intrusion_detect.Sensors.Once.{observe_all-stats}

abbrev is_number : Nested → Bool
is_number raised = false
is_number absent = true
is_number (counted n) = true

-- Reading the statistics raises nothing.
unfoldable pub readable : Python → Option Fields → Bool
readable py none = true
readable py (some stats) =
    is_number (nested_int py (object stats) kernel_packets)
    && is_number (nested_int py (object stats) kernel_drops)

is_some-set :
    (packets drops : Nested) (s : SensorState)
    → is_some (set_packets packets s >>= set_drops drops) ≡ (is_number packets && is_number drops)
unfolding set_packets set_drops
is_some-set raised drops s = refl
is_some-set absent raised s = refl
is_some-set absent absent s = refl
is_some-set absent (counted n) s = refl
is_some-set (counted m) raised s = refl
is_some-set (counted m) absent s = refl
is_some-set (counted m) (counted n) s = refl

is_some-apply_stats :
    (py : Python) (stats : Option Fields) (s : SensorState)
    → is_some (apply_stats py stats s) ≡ readable py stats
unfolding apply_stats readable
is_some-apply_stats py none s = refl
is_some-apply_stats py (some stats) s = is_some-set _ _ s

is_some-bind :
    {A B : Type 0} (o : Option A) (f : A → B) → is_some (o >>= λ x. some (f x)) ≡ is_some o
is_some-bind none f = refl
is_some-bind (some x) f = refl

is_some-finish_state :
    (py : Python) (p : Progress) (s : SensorState)
    → is_some (finish_state py p s) ≡ readable py p.latest_stats
unfolding finish_state
is_some-finish_state py p s =
    is_some-bind (apply_stats py p.latest_stats _) _
    ∙ is_some-apply_stats py p.latest_stats
        (record s { last_event_at = number_or p.latest_event s.last_event_at })

EventType-cases : (type : EventType) → (type ≡ stats_event) ⊎ (type ≡ alert_event)
EventType-cases stats_event = inl refl
EventType-cases alert_event = inr refl

-- Statistics before a list of events do no harm, if they can be read themselves.
pub readable-stats_after :
    (py : Python) (events : List SuricataEvent) (x y : Option Fields)
    → readable py y ≡ true
    → readable py (stats_after events x) ≡ true
    → readable py (stats_after events y) ≡ true
unfolding stats_after
readable-stats_after py [] x y k h = k
readable-stats_after py (event ∷ events) x y k h = elim (EventType-cases event.event_type) [
  | inl stats_e ↦ rw stats_e (rw stats_e at h)
  | inr alert_e ↦ rw alert_e (readable-stats_after py events x y k (rw alert_e at h))
]

-- What a commit leaves of a loop.
pub record Committed (batch : SuricataBatch) (p : Progress) (db : Database) (r : SuricataReceipt)
    : Type 0 where
  pub alerts : db.alerts ≡ p.alerts
  pub outbox : db.outbox ≡ p.outbox
  pub draws : db.draws ≡ p.draws
  pub receipt : r ≡ receipt_of batch p

abbrev pub commit :
    SuricataBatch → Progress → List SensorState → SensorState → Database × SuricataReceipt
commit batch p states s = (
  record { states = put_state s states; alerts = p.alerts; outbox = p.outbox; draws = p.draws },
  receipt_of batch p,
)

commit-Committed :
    (batch : SuricataBatch) (p : Progress) (states : List SensorState) (o : Option SensorState)
    (db : Database) (r : SuricataReceipt)
    → (o >>= λ s. some (commit batch p states s)) ≡ some (db, r)
    → Committed batch p db r
commit-Committed batch p states none db r e = absurd cc
commit-Committed batch p states (some s) db r e =
    let same = some-injective _ _ e in
    record {
      alerts = ap (λ q. q.0.alerts) (sym same);
      outbox = ap (λ q. q.0.outbox) (sym same);
      draws = ap (λ q. q.0.draws) (sym same);
      receipt = ap (λ q. q.1) (sym same);
    }

commit-some :
    (batch : SuricataBatch) (p : Progress) (states : List SensorState) (o : Option SensorState)
    → is_some o ≡ true
    → (db : Database) × (r : SuricataReceipt) × ((o >>= λ s. some (commit batch p states s))
        ≡ some (db, r))
      × Committed batch p db r
commit-some batch p states none h = absurd cc
commit-some batch p states (some s) h =
    (_, _, refl, record { alerts = refl; outbox = refl; draws = refl; receipt = refl })

-- The loop of a request.
abbrev pub loop_of : Python → ℕ → SuricataBatch → Database → Progress
loop_of py now batch db = observe_all py now batch batch.events (start db)

pub ingest_suricata-Committed :
    (py : Python) (now : ℕ) (batch : SuricataBatch) (db db' : Database) (r : SuricataReceipt)
    → ingest_suricata py now batch db ≡ some (db', r)
    → Committed batch (loop_of py now batch db) db' r
unfolding ingest_suricata
ingest_suricata-Committed py now batch db db' r e =
    commit-Committed batch (loop_of py now batch db) db.states _ db' r e

pub is_some-ingest_suricata :
    (py : Python) (now : ℕ) (batch : SuricataBatch) (db : Database)
    → is_some (ingest_suricata py now batch db) ≡ readable py (stats_after batch.events none)
unfolding ingest_suricata start
is_some-ingest_suricata py now batch db =
    is_some-bind (finish_state py (loop_of py now batch db) _) _
    ∙ is_some-finish_state py (loop_of py now batch db) _
    ∙ ap (readable py) (observe_all-stats py now batch batch.events (start db))
