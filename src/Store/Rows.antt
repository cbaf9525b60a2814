-- ===== src/Store/Rows.antt =====
-- The tables of backend/app/database/models.py. JSON columns hold the values that the code puts
-- there; latencies, which are wall-clock measurements, have no column.
use intrusion_detect.Common.{ℕ, Bool, true, false, Option, List, Text}
use intrusion_detect.Schema.{FlowObservation, SchemaVersion, NetworkContext, Features, FeatureValue}

pub data JobState : Type 0 where
  queued processing retrying succeeded dead_letter : JobState

pub JobState-discrete : Discrete JobState
JobState-discrete = hlevel

abbrev pub state_eq : JobState → JobState → Bool
state_eq queued queued = true
state_eq processing processing = true
state_eq retrying retrying = true
state_eq succeeded succeeded = true
state_eq dead_letter dead_letter = true
state_eq _ _ = false

-- `ACTIVE_STATES`
abbrev pub is_active : JobState → Bool
is_active queued = true
is_active processing = true
is_active retrying = true
is_active _ = false

-- `reason_code` and `error_code`, by the literals that the code writes.
pub data ReasonCode : Type 0 where
  enqueued claimed lease_recovered processing_succeeded permanent_failure retries_exhausted
        retry_scheduled manual_redrive :
      ReasonCode

pub data ErrorCode : Type 0 where
  extractor_incompatible schema_invalid permanent_ingestion_error validation_error inference_timeout
        inference_error lease_expired :
      ErrorCode

abbrev pub error_code_eq : ErrorCode → ErrorCode → Bool
error_code_eq extractor_incompatible extractor_incompatible = true
error_code_eq schema_invalid schema_invalid = true
error_code_eq permanent_ingestion_error permanent_ingestion_error = true
error_code_eq validation_error validation_error = true
error_code_eq inference_timeout inference_timeout = true
error_code_eq inference_error inference_error = true
error_code_eq lease_expired lease_expired = true
error_code_eq _ _ = false

-- The JSON objects that the code puts in `details`.
pub data Details : Type 0 where
  no_details : Details
  attempt : ℕ → Details
  attempt_delay : ℕ → ℕ → Details
  outbox_events : ℕ → Details
  redrive :
      (previous_attempts : ℕ) → (previous_error : Option Text) → (redrive_number : ℕ) → Details

pub record IngestionJob : Type 0 where
  pub job_id : ℕ
  pub batch_id : ℕ
  pub event_id : ℕ
  pub payload_hash : ℕ
  pub payload : FlowObservation
  pub ingestion_channel : Text
  pub state : JobState
  pub attempts : ℕ
  pub available_at : ℕ
  pub lease_expires_at : Option ℕ
  pub worker_id : Option Text
  pub last_error : Option Text
  pub error_code : Option ErrorCode
  pub retryable : Option Bool
  pub redrive_count : ℕ
  pub last_redriven_at : Option ℕ
  pub last_redriven_by : Option Text
  pub last_redrive_reason : Option Text
  pub created_at : ℕ
  pub updated_at : ℕ
  pub completed_at : Option ℕ

pub record JobTransition : Type 0 where
  pub transition_id : ℕ
  pub job_id : ℕ
  pub event_id : ℕ
  pub from_state : Option JobState
  pub to_state : JobState
  pub reason_code : ReasonCode
  pub error_code : Option ErrorCode
  pub retryable : Option Bool
  pub worker_id : Option Text
  pub operator : Option Text
  pub reason : Option Text
  pub details : Details
  pub occurred_at : ℕ

pub record ObservationRow : Type 0 where
  pub event_id : ℕ
  pub schema_version : SchemaVersion
  pub flow_started_at : ℕ
  pub flow_ended_at : ℕ
  pub source : Text
  pub ingestion_channel : Text
  pub extractor_fingerprint : Option Text
  pub raw_features : Features
  pub network_context : Option NetworkContext
  pub ground_truth : Option Text
  pub created_at : ℕ

-- `binary_prediction`: the two labels of the contract, and any other text.
pub data Label : Type 0 where
  normal attack : Label
  unknown_label : Text → Label

pub record PredictionRow : Type 0 where
  pub prediction_id : ℕ
  pub event_id : ℕ
  pub model_version : Text
  pub detector_model_version : Text
  pub classifier_model_version : Option Text
  pub binary_prediction : Label
  pub attack_class : Option Text
  pub confidence : ℕ
  pub detection_score : ℕ
  pub attack_class_score : Option ℕ
  pub top_features : List (Text × FeatureValue)
  pub created_at : ℕ

pub data Severity : Type 0 where
  informational medium high critical : Severity

-- A reason of an alert: the formatted confidence, or a text of the device profile.
pub data AlertReason : Type 0 where
  confidence_reason : ℕ → AlertReason
  behavior_reason : Text → AlertReason

-- The columns of an alert that the model detector fills.
pub record AlertRow : Type 0 where
  pub alert_id : ℕ
  pub event_id : ℕ
  pub prediction_id : ℕ
  pub severity : Severity
  pub reasons : List AlertReason
  pub top_features : List (Text × FeatureValue)
  pub status : Text
  pub created_at : ℕ

-- `PredictionResponse`: the prediction, what it was made from, and the alert's id.
pub record PredictionResponse : Type 0 where
  pub prediction : PredictionRow
  pub detection_score_calibrated : Bool
  pub attack_class_score_calibrated : Option Bool
  pub raw_features : Features
  pub network_context : Option NetworkContext
  pub alert_id : Option ℕ

-- The two events that are published, by their `type`, each with what its `data` carries.
pub data LiveEvent : Type 0 where
  prediction_created : PredictionResponse → LiveEvent
  alert_created : AlertRow → PredictionRow → Features → Option NetworkContext → LiveEvent

pub record OutboxEvent : Type 0 where
  pub outbox_id : ℕ
  pub event_id : ℕ
  pub payload : LiveEvent
  pub created_at : ℕ
  pub published_at : Option ℕ
  pub publish_attempts : ℕ
  pub last_error : Option Text
  pub claim_token : Option ℕ
  pub claim_expires_at : Option ℕ
  pub next_attempt_at : Option ℕ

pub record WorkerState : Type 0 where
  pub worker_id : Text
  pub last_heartbeat_at : ℕ
  pub started_at : ℕ
