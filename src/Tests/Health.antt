-- ===== src/Tests/Health.antt =====
-- The theorems of model health at a concrete service, with one observation of one cohort.
use intrusion_detect.Common.{◌≡◌, refl, true, false, none, some, List, [], ◌∷◌, codes, ltb, arith}
use intrusion_detect.Schema.{nfstream_iot_v1}
use intrusion_detect.Store.{ObservationRow, PredictionRow, attack}
use intrusion_detect.Monitoring.Drift.{
  Numerics, Measured, Reference, evaluate_feature_window, evaluate_output_window,
}
use intrusion_detect.Monitoring.{
  fast, Cohort, Services, Database, DriftSnapshot, loaded, live_capture, component,
}
use intrusion_detect.Monitoring.Streaks.{Step, tables, evaluates, run, Explained, run-Explained}
use intrusion_detect.Monitoring.Readiness.{Persisted, component-degraded}

abbrev measured : Measured
measured = record { js_distance = 5; js_threshold = 1; ks_p_value = 0 }

abbrev numerics : Numerics
numerics = record {
  numeric_drift = λ evidence name rows. some measured;
  categorical_drift = λ evidence name rows. some measured;
  label_drift = λ evidence labels. some measured;
  score_drift = λ evidence scores. some measured;
  rate_ratio = λ evidence attacks total. 0;
  benjamini_hochberg = λ ps. ps;
  exceeds = λ a b. ltb b a;
  is_significant = λ q. true;
  ratio = λ m. m.js_distance;
  is_finite = λ score. true;
  zero = 0;
  one = 1;
  before = λ a b. true;
}

abbrev reference : Reference
reference = record {
  schema_version = nfstream_iot_v1;
  artifact_sha256 = codes "sum";
  numeric_features = (codes "flow_duration", 1) ∷ [];
  categorical_features = [];
  detector_labels = some 2;
  classifier_labels = none;
  detector_scores = none;
  classifier_scores = none;
  minimum_classifier_support = 200;
  attack_routing_rate = none;
}

abbrev services : Services
services = record {
  resolve_route =
      λ schema fingerprint. some (record { has_evidence = true; reference = loaded reference });
  numerics = numerics;
  shadow_mode = false;
  fast_minimum = 1;
  slow_minimum = 1;
  retention_days = 90;
}

abbrev cohort : Cohort
cohort = record {
  model_version = codes "d";
  detector_model_version = codes "d";
  classifier_model_version = some (codes "c");
  schema_version = nfstream_iot_v1;
  ingestion_channel = live_capture;
  extractor_fingerprint = some (codes "f");
  deployment_eligible = true;
}

abbrev observation : ObservationRow
observation = record {
  event_id = 7;
  schema_version = nfstream_iot_v1;
  flow_started_at = 1;
  flow_ended_at = 2;
  source = codes "s";
  ingestion_channel = live_capture;
  extractor_fingerprint = some (codes "f");
  raw_features = [];
  network_context = none;
  ground_truth = none;
  created_at = 10;
}

abbrev prediction : PredictionRow
prediction = record {
  prediction_id = 1;
  event_id = 7;
  model_version = codes "d";
  detector_model_version = codes "d";
  classifier_model_version = some (codes "c");
  binary_prediction = attack;
  attack_class = none;
  confidence = 0;
  detection_score = 0;
  attack_class_score = none;
  top_features = [];
  created_at = 10;
}

abbrev no_snapshots : Database
no_snapshots = record { observations = []; predictions = []; snapshots = []; failures = [] }

-- Three evaluations in a row that count an alarm.
abbrev steps : List Step
steps =
    tables (observation ∷ []) (prediction ∷ [])
    ∷ evaluates fast cohort 100
    ∷ evaluates fast cohort 200
    ∷ evaluates fast cohort 300
    ∷ []

run-Explained_example : Explained (run services steps no_snapshots).snapshots
run-Explained_example = run-Explained services 100 steps no_snapshots refl (omega arith)

readiness_degraded : (component (run services steps no_snapshots)).degrades_readiness ≡ some true
unfolding component run evaluate_feature_window evaluate_output_window
readiness_degraded = refl

component-degraded_example :
    (s : DriftSnapshot) × Persisted (run services steps no_snapshots).snapshots s
    × (s.window ≡ fast)
    × (s.shadow_mode ≡ false)
    × (s.cohort.deployment_eligible ≡ true)
component-degraded_example =
    component-degraded services 100 steps no_snapshots refl (omega arith) readiness_degraded
