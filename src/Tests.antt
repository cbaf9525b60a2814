-- ===== src/Tests.antt =====
-- Concrete stores, services and requests, on which the theorems of the other files are applied.
pub mod Queue
pub mod Work
pub mod Channels
pub mod Access
pub mod Suricata
pub mod Bundles
pub mod Health
pub mod Corpora
use intrusion_detect.Common.{
  ℕ, zero, suc, ◌+◌, ◌≡◌, refl, Bool, true, false, Option, none, some, List, [], ◌∷◌, Text, codes,
  arith,
}
use intrusion_detect.Errors.{Exception, Result, ok, err, permanent_ingestion, other_exception}
use intrusion_detect.Schema.{rt_iot2022_v1, FlowObservation, Contract, number, text}
use intrusion_detect.Store.{Environment, Store, IngestionJob, attack}
use intrusion_detect.Store.Invariant.{IsValid, AreDistinct}
use intrusion_detect.Serving.Registry.{ModelRegistry, Detector, Classifier, Formatting}
use intrusion_detect.Staging.{Services}
use intrusion_detect.Ingestion.Enqueue.{
  Outcome, committed, BatchResponse, enqueue_observations, active_count,
}
use intrusion_detect.Ingestion.Enqueue.Outcomes.{enqueue_observations-IsValid}
use intrusion_detect.Ingestion.Lease.{claim_next_job}
use intrusion_detect.Ingestion.Lease.Claims.{claim_next_job-IsValid}

abbrev pub env : Environment
env = record { uuids = λ n. 1000 + n; payload_hash = λ o. o.event_id }

pub env-AreDistinct : AreDistinct env
env-AreDistinct m n e = omega arith

abbrev pub empty_store : Store
empty_store = record {
  jobs = [];
  transitions = [];
  observations = [];
  predictions = [];
  alerts = [];
  outbox = [];
  workers = [];
  draws = 0;
}

pub empty_store-IsValid : IsValid env empty_store
empty_store-IsValid = record {
  ids = tt;
  events = tt;
  shapes = λ j row e. cc;
  audit = λ j row e. cc;
  unused = λ n h. refl;
  unheard = λ n h. refl;
}

abbrev pub one : ℕ
one = 0x3ff0000000000000

abbrev pub flow : FlowObservation
flow = record {
  schema_version = rt_iot2022_v1;
  event_id = 7;
  flow_started_at = 10;
  flow_ended_at = 20;
  source = codes "sensor";
  features = (codes "flow_duration", number one) ∷ [];
  ground_truth = none;
  network_context = none;
}

abbrev pub contract : Contract
contract = record {
  feature_order = codes "flow_duration" ∷ [];
  is_categorical = λ name. false;
  float_of_text = λ t. none;
  float_of_integer = λ negative magnitude. some one;
}

abbrev pub detector : Detector
detector = record {
  version = codes "detector";
  calibrated = true;
  predict_label = λ features. ok (attack, one);
}

abbrev pub classifier : Classifier
classifier = record {
  version = codes "classifier";
  calibrated = true;
  predict_label = λ features. ok (codes "DOS_SYN_Hping", one);
}

abbrev pub registry : ModelRegistry
registry = record {
  routes =
      record {
        schema_version = rt_iot2022_v1;
        extractor_fingerprint = none;
        route = record { detector = detector; classifier = classifier };
      }
      ∷ [];
  native_route_error = none;
}

abbrev pub svc : Services
svc = record {
  environment = env;
  contract = contract;
  registry = registry;
  formatting = record { repr = λ t. t; str_value = λ v. []; str_uuid = λ n. [] };
  integrity_text = codes "UNIQUE constraint failed";
  validation_text = λ o. codes "invalid";
  response_text = λ r. codes "invalid";
}

abbrev pub worker : Text
worker = codes "worker"

abbrev pub fold_code : ℕ → Text
fold_code c = c ∷ []

abbrev pub store_of : Outcome → Store
store_of (committed response db) = db
store_of _ = empty_store

abbrev pub response_of : Outcome → BatchResponse
response_of (committed response db) = response
response_of _ = record { batch_id = 0; events = [] }

abbrev pub enqueued : Outcome
enqueued = enqueue_observations env 30 10 (codes "api") [] (flow ∷ []) empty_store

abbrev pub queued_store : Store
queued_store = store_of enqueued

pub enqueued-committed : enqueued ≡ committed (response_of enqueued) queued_store
unfolding enqueue_observations active_count
enqueued-committed = refl

pub queued_store-IsValid : IsValid env queued_store
queued_store-IsValid =
    enqueue_observations-IsValid env 30 10 (codes "api") [] (flow ∷ []) empty_store
      (response_of enqueued) queued_store env-AreDistinct empty_store-IsValid enqueued-committed

-- The job in processing.
abbrev pub running_store : Store
running_store = (claim_next_job env 40 worker 60 queued_store).0

pub running_store-IsValid : IsValid env running_store
running_store-IsValid = claim_next_job-IsValid env 40 worker 60 queued_store queued_store-IsValid
