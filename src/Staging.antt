-- ===== src/Staging.antt =====
-- `stage_observation` and `persist_observations` of backend/app/service.py: one observation is
-- stored, routed, classified, and, if it is an attack, raises an alert.
--
-- A step that raises loses the store that it was given to change: its caller rolls back.
pub mod Effects
use intrusion_detect.Common.{
  ℕ, suc, ◌^◌, Bool, true, false, not, ◌&&◌, ◌||◌, Option, none, some, List, [], ◌∷◌, ◌++◌, Text,
  codes, leb, ◌==◌,
}
use intrusion_detect.Errors.{Exception, value_error, other_exception, Result, ok, err, ◌>>=◌, ◌>>◌}
use intrusion_detect.Schema.{FlowObservation, Contract, fingerprint_of}
use intrusion_detect.Store.{
  Environment, Store, ObservationRow, PredictionRow, AlertRow, PredictionResponse, LiveEvent,
  prediction_created, alert_created, Label, attack, has_observation, has_prediction,
}
use intrusion_detect.Serving.Registry.{ModelRegistry, Formatting, resolve_route}
use intrusion_detect.Serving.Inference.{InferenceResult, run_inference}
use intrusion_detect.Serving.Severity.{assess_severity, evaluate_device_profile, score_one}

-- What staging is given beside the session. The texts of the exceptions that SQLAlchemy and
-- Pydantic raise are theirs.
pub record Services : Type 0 where
  pub environment : Environment
  pub contract : Contract
  pub registry : ModelRegistry
  pub formatting : Formatting
  pub integrity_text : Text
  pub validation_text : FlowObservation → Text
  pub response_text : InferenceResult → Text

pub record StagedObservation : Type 0 where
  pub response : PredictionResponse
  pub events : List LiveEvent

abbrev pub raise_if : Bool → Exception → Result (Unit {0})
raise_if true e = err e
raise_if false e = ok tt

abbrev pub already_exists : Services → ℕ → Exception
already_exists svc event_id = record {
  exception_class = value_error;
  type_name = codes "ValueError";
  message = codes "event_id already exists: " ++ svc.formatting.str_uuid event_id;
}

-- The unique index of `predictions.event_id`.
abbrev pub integrity_error : Services → Exception
integrity_error svc = record {
  exception_class = other_exception;
  type_name = codes "IntegrityError";
  message = svc.integrity_text;
}

abbrev pub invalid_response : Services → InferenceResult → Exception
invalid_response svc inference = record {
  exception_class = value_error;
  type_name = codes "ValidationError";
  message = svc.response_text inference;
}

unfoldable pub observation_row : ℕ → Text → FlowObservation → ObservationRow
observation_row now ingestion_channel o = record {
  event_id = o.event_id;
  schema_version = o.schema_version;
  flow_started_at = o.flow_started_at;
  flow_ended_at = o.flow_ended_at;
  source = o.source;
  ingestion_channel = ingestion_channel;
  extractor_fingerprint = fingerprint_of o.network_context;
  raw_features = o.features;
  network_context = o.network_context;
  ground_truth = o.ground_truth;
  created_at = now;
}

unfoldable pub prediction_row : ℕ → ℕ → ℕ → InferenceResult → PredictionRow
prediction_row now prediction_id event_id inference = record {
  prediction_id = prediction_id;
  event_id = event_id;
  model_version = inference.model_version;
  detector_model_version = inference.detector_model_version;
  classifier_model_version = inference.classifier_model_version;
  binary_prediction = inference.binary_prediction;
  attack_class = inference.attack_class;
  confidence = inference.confidence;
  detection_score = inference.detection_score;
  attack_class_score = inference.attack_class_score;
  top_features = inference.top_features;
  created_at = now;
}

unfoldable pub alert_row : Services → ℕ → ℕ → ℕ → FlowObservation → InferenceResult → AlertRow
alert_row svc now alert_id prediction_id o inference =
    let (severity, reasons) =
      assess_severity inference.binary_prediction inference.confidence
        (evaluate_device_profile svc.formatting o.features) in
    record {
      alert_id = alert_id;
      event_id = o.event_id;
      prediction_id = prediction_id;
      severity = severity;
      reasons = reasons;
      top_features = inference.top_features;
      status = codes "new";
      created_at = now;
    }

-- `0 <= score <= 1` of a binary64 pattern; the second pattern is -0.0.
abbrev in_unit : ℕ → Bool
in_unit score = leb score score_one || score == 2 ^ 63

abbrev in_unit_option : Option ℕ → Bool
in_unit_option none = true
in_unit_option (some score) = in_unit score

abbrev is_label : Label → Bool
is_label (Label.unknown_label name) = false
is_label _ = true

-- The constraints of `PredictionContract`, which the response is built under.
unfoldable pub is_response : InferenceResult → Bool
is_response i =
    is_label i.binary_prediction
    && in_unit i.confidence
    && in_unit i.detection_score
    && in_unit_option i.attack_class_score

unfoldable pub response_of :
    FlowObservation → InferenceResult → PredictionRow → Option ℕ → PredictionResponse
response_of o inference prediction alert_id = record {
  prediction = prediction;
  detection_score_calibrated = inference.detection_score_calibrated;
  attack_class_score_calibrated = inference.attack_class_score_calibrated;
  raw_features = o.features;
  network_context = o.network_context;
  alert_id = alert_id;
}

-- An attack: the alert is added, and announced behind the prediction.
unfoldable pub stage_alert :
    Services
    → ℕ
    → FlowObservation
    → InferenceResult
    → PredictionRow
    → Store
    → StagedObservation × Store
unfolding alert_row response_of
stage_alert svc now o inference prediction db =
    let alert =
      alert_row svc now (svc.environment.uuids db.draws) prediction.prediction_id o inference in
    let response = response_of o inference prediction (some alert.alert_id) in
    (
      record {
        response = response;
        events =
            prediction_created response
            ∷ alert_created alert prediction o.features o.network_context
            ∷ [];
      },
      record db { alerts = db.alerts ++ alert ∷ []; draws = suc db.draws },
    )

unfoldable pub stage_quiet :
    FlowObservation → InferenceResult → PredictionRow → Store → StagedObservation × Store
unfolding response_of
stage_quiet o inference prediction db =
    let response = response_of o inference prediction none in
    (record { response = response; events = prediction_created response ∷ [] }, db)

unfoldable pub stage_label :
    Services
    → ℕ
    → FlowObservation
    → InferenceResult
    → PredictionRow
    → Label
    → Store
    → StagedObservation × Store
unfolding stage_alert stage_quiet
stage_label svc now o inference prediction attack db = stage_alert svc now o inference prediction db
stage_label svc now o inference prediction _ db = stage_quiet o inference prediction db

-- From the inference on: the prediction is flushed, then the alert, then the response is built.
unfoldable pub stage_inference :
    Services → ℕ → FlowObservation → InferenceResult → Store → Result (StagedObservation × Store)
unfolding prediction_row stage_label is_response
stage_inference svc now o inference db = do
  let prediction = prediction_row now (svc.environment.uuids db.draws) o.event_id inference
  raise_if (has_prediction o.event_id db) (integrity_error svc)
  raise_if (not (is_response inference)) (invalid_response svc inference)
  ok (
      stage_label svc now o inference prediction inference.binary_prediction
        (record db { predictions = db.predictions ++ prediction ∷ []; draws = suc db.draws }))

unfoldable pub stage_observation :
    Services → ℕ → Text → FlowObservation → Store → Result (StagedObservation × Store)
unfolding observation_row stage_inference
stage_observation svc now ingestion_channel o db = do
  raise_if (has_observation o.event_id db) (already_exists svc o.event_id)
  route ←
      resolve_route svc.formatting svc.registry o.schema_version (fingerprint_of o.network_context)
  inference ← run_inference svc.contract.float_of_integer route o.features
  stage_inference svc now o inference
      (record db { observations = db.observations ++ observation_row now ingestion_channel o ∷ [] })

-- The loop of `persist_observations`, in one transaction.
unfoldable pub stage_all :
    Services → ℕ → Text → List FlowObservation → Store → Result (List StagedObservation × Store)
unfolding stage_observation
stage_all svc now ingestion_channel [] db = ok ([], db)
stage_all svc now ingestion_channel (o ∷ os) db = do
  (staged, db') ← stage_observation svc now ingestion_channel o db
  (rest, db'') ← stage_all svc now ingestion_channel os db'
  ok (staged ∷ rest, db'')

-- The committed store and what is returned or raised: a failure leaves the store as it was.
unfoldable pub persist_observations :
    Services → ℕ → Text → List FlowObservation → Store → Store × Result (List StagedObservation)
unfolding stage_all
persist_observations svc now ingestion_channel os db =
    elim (stage_all svc now ingestion_channel os db) [
      | ok (staged, db') ↦ (db', ok staged)
      | err e ↦ (db, err e)
    ]
