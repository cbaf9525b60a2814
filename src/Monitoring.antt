-- ===== src/Monitoring.antt =====
-- `ModelHealthService` of backend/app/monitoring/service.py: the evaluation of a cohort in a window,
-- and what is made of the snapshots.
--
-- An evaluation is one step at a time, as its lock makes it in a process. Of the evidence, the counts
-- of alarms are kept; quality and performance are left out, and so are the texts of reasons. A
-- cohort's key is its JSON, which two cohorts share only if they are equal. The reference of a route
-- is read from its bundle.
pub mod Retained
pub mod Drift
mod Rows
pub mod Findings
pub mod Streaks
pub mod Readiness
unfoldable pub use Rows.*
use intrusion_detect.Common.{
  ℕ, ◌+◌, ◌-◌, ◌*◌, Bool, true, false, not, ◌&&◌, ◌||◌, Option, none, some, List, [], ◌∷◌, ◌++◌,
  map, Text, codes, text_eq, option_text_eq, ltb, leb, ◌==◌, if◌then◌else◌, keep, take, any, find,
  length, count_if, is_none, is_some,
}
use intrusion_detect.Schema.{SchemaVersion, schema_version_eq, Features}
use intrusion_detect.Store.{ObservationRow, PredictionRow, Label, normal, attack, unknown_label}
use intrusion_detect.Ingestion.Lease.{seconds}
use Drift.{
  Numerics, Reference, Current, WindowResult, OutputResult, evaluate_feature_window,
  evaluate_output_window, feature_alarms,
}

-- What an evaluation finds before it looks at earlier ones.
pub record Finding : Type 0 where
  pub status : Status
  pub aggregate_score : Option ℕ
  pub aggregate_threshold : Option ℕ
  pub feature_alarm_count : ℕ
  pub output_alarm_count : ℕ
  pub failure : Option Text

abbrev without_evidence : Status → Option Text → Finding
without_evidence status failure = record {
  status = status;
  aggregate_score = none;
  aggregate_threshold = none;
  feature_alarm_count = 0;
  output_alarm_count = 0;
  failure = failure;
}

abbrev pub larger : Numerics → ℕ → ℕ → ℕ
larger n a b = if n.exceeds b a then b else a

unfoldable pub found : Numerics → WindowResult → OutputResult → Finding
found n w o = record {
  status = if ltb 0 (feature_alarms w) || ltb 0 o.alarm_count then warning else healthy;
  aggregate_score = some (larger n w.aggregate_score o.aggregate_score);
  aggregate_threshold = some n.one;
  feature_alarm_count = feature_alarms w;
  output_alarm_count = o.alarm_count;
  failure = none;
}

infixl 5 ◌>>=◌
abbrev pub ◌>>=◌ : {A B : Type 0} → Option A → (A → Option B) → Option B
none >>= next = none
some a >>= next = next a

unfoldable pub measure : Services → Reference → List Observed → Option Finding
unfolding current_of found
measure svc reference rows =
    evaluate_feature_window svc.numerics reference (map (λ r. r.0.raw_features) rows) >>= λ w.
    evaluate_output_window svc.numerics reference (current_of rows) >>= λ o.
    some (found svc.numerics w o)

unfoldable pub with_reference :
    Services → Cohort → WindowPolicy → List Observed → Loading → Option Finding
unfolding measure
with_reference svc cohort p rows no_reference = some (without_evidence blocked none)
with_reference svc cohort p rows (invalid reason) = some (without_evidence blocked (some reason))
with_reference svc cohort p rows (loaded reference) =
    if not (schema_version_eq reference.schema_version cohort.schema_version)
    then some (without_evidence incompatible_source none)
    else if ltb (length rows) p.minimum
    then some (without_evidence collecting none)
    else measure svc reference rows

-- The status before an escalation; no result where a measurement raises.
unfoldable pub judge :
    Services → Cohort → WindowPolicy → List Observed → Option RouteView → Option Finding
unfolding with_reference
judge svc cohort p rows none = some (without_evidence incompatible_source none)
judge svc cohort p rows (some route) = with_reference svc cohort p rows route.reference

abbrev approved : Option RouteView → Bool
approved none = false
approved (some route) = route.has_evidence

-- The cohort with the eligibility that the server grants it.
unfoldable pub eligible : Cohort → Option RouteView → Cohort
eligible cohort route = record cohort {
  deployment_eligible =
      cohort.deployment_eligible && text_eq cohort.ingestion_channel live_capture && approved route;
}

abbrev pub of_key : Cohort → Window → DriftSnapshot → Bool
of_key cohort window s = cohort_eq s.cohort cohort && window_eq s.window window

insert_snapshot : DriftSnapshot → List DriftSnapshot → List DriftSnapshot
insert_snapshot s [] = s ∷ []
insert_snapshot s (t ∷ snapshots) =
    let rest = insert_snapshot s snapshots in
    if leb t.checked_at s.checked_at then s ∷ t ∷ snapshots else t ∷ rest

-- `ORDER BY checked_at DESC`
unfoldable pub latest_first : List DriftSnapshot → List DriftSnapshot
unfolding insert_snapshot
latest_first [] = []
latest_first (s ∷ snapshots) = insert_snapshot s (latest_first snapshots)

unfoldable pub prior : Cohort → Window → List DriftSnapshot → List DriftSnapshot
unfolding latest_first
prior cohort window snapshots = take 2 (latest_first (keep (of_key cohort window) snapshots))

abbrev pub is_alarm : Status → Bool
is_alarm warning = true
is_alarm critical = true
is_alarm _ = false

-- `len(prior) == 2 and all(...)`
abbrev pub persists : List DriftSnapshot → Bool
persists (a ∷ b ∷ []) = is_alarm a.status && is_alarm b.status
persists _ = false

unfoldable pub escalate : List DriftSnapshot → Status → Status
escalate before warning = if persists before then critical else warning
escalate before blocked = blocked
escalate before incompatible_source = incompatible_source
escalate before collecting = collecting
escalate before healthy = healthy
escalate before critical = critical

unfoldable pub snapshot_of :
    Services → Window → Cohort → ℕ → List Observed → Finding → List DriftSnapshot → DriftSnapshot
unfolding escalate
snapshot_of svc window cohort checked_at rows f before = record {
  status = escalate before f.status;
  window = window;
  cohort = cohort;
  observation_count = length rows;
  aggregate_score = f.aggregate_score;
  aggregate_threshold = f.aggregate_threshold;
  feature_alarm_count = f.feature_alarm_count;
  output_alarm_count = f.output_alarm_count;
  shadow_mode = svc.shadow_mode;
  checked_at = checked_at;
}

abbrev failure_row : Cohort → ℕ → Option Text → List ValidationFailure
failure_row cohort now none = []
failure_row cohort now (some reason) =
    record {
      ingestion_channel = cohort.ingestion_channel;
      schema_version = cohort.schema_version;
      extractor_fingerprint = cohort.extractor_fingerprint;
      reason = reason;
      occurred_at = now;
    }
    ∷ []

-- The deletion of what is older than the retention.
unfoldable pub retained : Services → ℕ → List DriftSnapshot → List DriftSnapshot
retained svc checked_at snapshots =
    keep (λ s. leb checked_at (s.checked_at + days svc.retention_days)) snapshots

-- `_evaluate_unlocked`: the new snapshot and the database behind the commit.
unfoldable pub evaluate :
    Services → Window → Cohort → ℕ → Database → Option (DriftSnapshot × Database)
unfolding policy rows_of judge eligible prior snapshot_of retained
evaluate svc window cohort checked_at db =
    let route = svc.resolve_route cohort.schema_version cohort.extractor_fingerprint in
    let server_cohort = eligible cohort route in
    let p = policy svc window in
    let rows = rows_of server_cohort p checked_at db in
    judge svc server_cohort p rows route >>= λ f.
    let row =
      snapshot_of svc window server_cohort checked_at rows f
        (prior server_cohort window db.snapshots) in
    some (
      row,
      record db {
        snapshots = retained svc checked_at (row ∷ db.snapshots);
        failures = failure_row server_cohort checked_at f.failure ++ db.failures;
      },
    )

-- The second search of `latest` without a filter.
abbrev pub from_deployment : DriftSnapshot → Bool
from_deployment s = text_eq s.cohort.ingestion_channel live_capture

abbrev pub or_else {ℓ} : {A : Type ℓ} → Option A → Option A → Option A
or_else none b = b
or_else (some a) b = some a

-- `latest` for the fast window and no filter.
unfoldable pub latest : Database → Option DriftSnapshot
unfolding latest_first
latest db =
    let rows = take 1000 (latest_first (keep (λ s. window_eq s.window fast) db.snapshots)) in
    or_else (find (λ s. s.cohort.deployment_eligible) rows) (find from_deployment rows)

abbrev pub is_critical : Status → Bool
is_critical critical = true
is_critical _ = false

-- `degrades_readiness` of `component`.
unfoldable pub degrades : DriftSnapshot → Bool
degrades s = is_critical s.status && not s.shadow_mode && s.cohort.deployment_eligible

pub data ComponentStatus : Type 0 where
  ready degraded : ComponentStatus

-- What `component` answers, without the texts: the flag that start-up and health read is not there
-- where nothing was evaluated.
pub record Component : Type 0 where
  pub status : ComponentStatus
  pub degrades_readiness : Option Bool

unfoldable pub component_of : Option DriftSnapshot → Component
unfolding degrades
component_of none = record { status = degraded; degrades_readiness = none }
component_of (some s) = record {
  status = if degrades s then degraded else ready;
  degrades_readiness = some (degrades s);
}

unfoldable pub component : Database → Component
unfolding latest component_of
component db = component_of (latest db)
