-- ===== src/Monitoring/Rows.antt =====
-- backend/app/monitoring/service.py: cohorts, windows, snapshots, and the predictions of a window.
use intrusion_detect.Common.{
  ℕ, ◌-◌, ◌*◌, Bool, true, false, not, ◌&&◌, ◌||◌, Option, none, some, List, [], ◌∷◌, ◌++◌, map,
  Text, codes, text_eq, option_text_eq, ltb, leb, ◌==◌, if◌then◌else◌, keep, take, count_if,
}
use intrusion_detect.Schema.{SchemaVersion, schema_version_eq}
use intrusion_detect.Store.{ObservationRow, PredictionRow, Label, normal, attack, unknown_label}
use intrusion_detect.Ingestion.Lease.{seconds}
use intrusion_detect.Monitoring.Drift.{Numerics, Reference, Current}

pub data Window : Type 0 where
  fast slow : Window

abbrev pub window_eq : Window → Window → Bool
window_eq fast fast = true
window_eq slow slow = true
window_eq _ _ = false

pub record WindowPolicy : Type 0 where
  pub duration : ℕ
  pub maximum : ℕ
  pub minimum : ℕ

pub record Cohort : Type 0 where
  pub model_version : Text
  pub detector_model_version : Text
  pub classifier_model_version : Option Text
  pub schema_version : SchemaVersion
  pub ingestion_channel : Text
  pub extractor_fingerprint : Option Text
  pub deployment_eligible : Bool

-- `_cohort_key(a) == _cohort_key(b)`
abbrev pub cohort_eq : Cohort → Cohort → Bool
cohort_eq a b =
    text_eq a.model_version b.model_version
    && text_eq a.detector_model_version b.detector_model_version
    && option_text_eq a.classifier_model_version b.classifier_model_version
    && schema_version_eq a.schema_version b.schema_version
    && text_eq a.ingestion_channel b.ingestion_channel
    && option_text_eq a.extractor_fingerprint b.extractor_fingerprint
    && (if a.deployment_eligible then b.deployment_eligible else not b.deployment_eligible)

pub data Status : Type 0 where
  blocked incompatible_source collecting healthy warning critical : Status

pub record DriftSnapshot : Type 0 where
  pub status : Status
  pub window : Window
  pub cohort : Cohort
  pub observation_count : ℕ
  pub aggregate_score : Option ℕ
  pub aggregate_threshold : Option ℕ
  pub feature_alarm_count : ℕ
  pub output_alarm_count : ℕ
  pub shadow_mode : Bool
  pub checked_at : ℕ

-- `load_drift_reference`: none for a bundle without one, or its refusal.
pub data Loading : Type 0 where
  no_reference : Loading
  invalid : Text → Loading
  loaded : Reference → Loading

-- What `resolve_route` finds, as far as monitoring reads it.
pub record RouteView : Type 0 where
  pub has_evidence : Bool
  pub reference : Loading

pub record Services : Type 0 where
  pub resolve_route : SchemaVersion → Option Text → Option RouteView
  pub numerics : Numerics
  pub shadow_mode : Bool
  pub fast_minimum : ℕ
  pub slow_minimum : ℕ
  pub retention_days : ℕ

pub record ValidationFailure : Type 0 where
  pub ingestion_channel : Text
  pub schema_version : SchemaVersion
  pub extractor_fingerprint : Option Text
  pub reason : Text
  pub occurred_at : ℕ

pub record Database : Type 0 where
  pub observations : List ObservationRow
  pub predictions : List PredictionRow
  pub snapshots : List DriftSnapshot
  pub failures : List ValidationFailure

abbrev pub days : ℕ → ℕ
days n = seconds (n * 86400)

unfoldable pub policy : Services → Window → WindowPolicy
policy svc fast = record { duration = days 1; maximum = 5000; minimum = svc.fast_minimum }
policy svc slow = record { duration = days 7; maximum = 20000; minimum = svc.slow_minimum }

abbrev pub live_capture : Text
live_capture = codes "live_capture"

abbrev pub Observed : Type 0
Observed = ObservationRow × PredictionRow

abbrev pub join : List ObservationRow → List PredictionRow → List Observed
join [] predictions = []
join (o ∷ observations) predictions =
    map (λ p. (o, p)) (keep (λ p. p.event_id == o.event_id) predictions)
    ++ join observations predictions

abbrev pub belongs : Cohort → ℕ → Observed → Bool
belongs cohort since (o, p) =
    leb since o.created_at
    && schema_version_eq o.schema_version cohort.schema_version
    && text_eq o.ingestion_channel cohort.ingestion_channel
    && text_eq p.detector_model_version cohort.detector_model_version
    && option_text_eq p.classifier_model_version cohort.classifier_model_version
    && option_text_eq o.extractor_fingerprint cohort.extractor_fingerprint

-- `ORDER BY created_at DESC, event_id DESC`
abbrev pub newer : Observed → Observed → Bool
newer (a, p) (b, q) =
    ltb b.created_at a.created_at || (a.created_at == b.created_at && leb b.event_id a.event_id)

insert_observed : Observed → List Observed → List Observed
insert_observed x [] = x ∷ []
insert_observed x (y ∷ rows) =
    let rest = insert_observed x rows in if newer x y then x ∷ y ∷ rows else y ∷ rest

newest_first : List Observed → List Observed
unfolding insert_observed
newest_first [] = []
newest_first (x ∷ rows) = insert_observed x (newest_first rows)

-- `_rows`
unfoldable pub rows_of : Cohort → WindowPolicy → ℕ → Database → List Observed
unfolding newest_first
rows_of cohort p checked_at db = take p.maximum (
    newest_first
      (keep (belongs cohort (checked_at - p.duration)) (join db.observations db.predictions)))

abbrev pub is_attack : Label → Bool
is_attack normal = false
is_attack attack = true
is_attack (unknown_label t) = false

abbrev pub label_text : Label → Text
label_text normal = codes "normal"
label_text attack = codes "attack"
label_text (unknown_label t) = t

-- `if item.attack_class`, and `is not None`
abbrev pub classes : List Observed → List Text
classes [] = []
classes ((o, p) ∷ rows) = elim p.attack_class [
  | none ↦ classes rows
  | some [] ↦ classes rows
  | some (c ∷ t) ↦ (c ∷ t) ∷ classes rows
]

abbrev pub class_scores : List Observed → List ℕ
class_scores [] = []
class_scores ((o, p) ∷ rows) = elim p.attack_class_score [
  | none ↦ class_scores rows
  | some score ↦ score ∷ class_scores rows
]

unfoldable pub current_of : List Observed → Current
current_of rows = record {
  detector_labels = map (λ r. label_text r.1.binary_prediction) rows;
  detector_scores = map (λ r. r.1.detection_score) rows;
  classifier_labels = classes rows;
  classifier_scores = class_scores rows;
  attacks = count_if (λ r. is_attack r.1.binary_prediction) rows;
}
