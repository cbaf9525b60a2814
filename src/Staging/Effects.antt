-- ===== src/Staging/Effects.antt =====
-- What `stage_observation` and `persist_observations` (backend/app/service.py) add to the store.
use mathlib.Core.Path.{subst}
use intrusion_detect.Common.{
  ℕ, suc, ◌≤◌, ◌≡◌, refl, sym, Bool, true, false, not, none, some, List, [], ◌∷◌, ◌++◌, Text, arith,
}
use intrusion_detect.Errors.{Exception, Result, ok, ◌>>◌, >>=-ok}
use intrusion_detect.Schema.{FlowObservation, fingerprint_of}
use intrusion_detect.Store.{
  Store, Label, attack, LiveEvent, AlertRow, PredictionRow, PredictionResponse, prediction_created,
  alert_created, has_observation, has_prediction,
}
use intrusion_detect.Serving.Registry.{resolve_route}
use intrusion_detect.Serving.Inference.{InferenceResult, run_inference}
use intrusion_detect.Staging.{
  Services, StagedObservation, observation_row, stage_label, raise_if, stage_inference,
  stage_observation, already_exists, integrity_error, invalid_response, is_response, prediction_row,
  response_of, alert_row,
}

abbrev pub is_attack : Label → Bool
is_attack attack = true
is_attack _ = false

-- The alert rows and the events of one observation, by its label.
abbrev pub Announces :
    Label → PredictionRow → List LiveEvent → List AlertRow → List AlertRow → Type 0
Announces attack prediction events before after =
    (response : PredictionResponse) × (alert : AlertRow) × (after ≡ before ++ alert ∷ [])
    × (response.prediction ≡ prediction)
    × (response.alert_id ≡ some alert.alert_id)
    × (events
        ≡ prediction_created response
          ∷ alert_created alert response.prediction response.raw_features response.network_context
          ∷ [])
Announces _ prediction events before after =
    (response : PredictionResponse) × (after ≡ before)
    × (response.prediction ≡ prediction)
    × (response.alert_id ≡ none)
    × (events ≡ prediction_created response ∷ [])

-- The rows that staging adds, and the tables that it leaves alone.
pub record Staged (svc : Services) (now : ℕ) (ingestion_channel : Text) (o : FlowObservation)
    (db : Store) (staged : StagedObservation) (db' : Store) : Type 0 where
  pub fresh : has_observation o.event_id db ≡ false
  pub observed : db'.observations ≡ db.observations ++ observation_row now ingestion_channel o ∷ []
  pub prediction : PredictionRow
  pub of_event : prediction.event_id ≡ o.event_id
  pub predicted : db'.predictions ≡ db.predictions ++ prediction ∷ []
  pub announced :
      Announces prediction.binary_prediction prediction staged.events db.alerts db'.alerts
  pub same_jobs : db'.jobs ≡ db.jobs
  pub same_trail : db'.transitions ≡ db.transitions
  pub same_outbox : db'.outbox ≡ db.outbox
  pub drawn : db.draws ≤ db'.draws

-- The same from the inference on.
record Inferred (inference : InferenceResult) (event_id : ℕ) (db : Store)
    (staged : StagedObservation) (db' : Store) : Type 0 where
  prediction : PredictionRow
  of_event : prediction.event_id ≡ event_id
  labelled : prediction.binary_prediction ≡ inference.binary_prediction
  observed : db'.observations ≡ db.observations
  predicted : db'.predictions ≡ db.predictions ++ prediction ∷ []
  announced : Announces inference.binary_prediction prediction staged.events db.alerts db'.alerts
  same_jobs : db'.jobs ≡ db.jobs
  same_trail : db'.transitions ≡ db.transitions
  same_outbox : db'.outbox ≡ db.outbox
  drawn : db.draws ≤ db'.draws

label_Announces :
    (svc : Services) (now : ℕ) (o : FlowObservation) (inference : InferenceResult)
    (prediction : PredictionRow) (label : Label) (db : Store)
    → let (staged, db') = stage_label svc now o inference prediction label db in
      Announces label prediction staged.events db.alerts db'.alerts
      × (db'.observations ≡ db.observations)
      × (db'.predictions ≡ db.predictions)
      × (db'.jobs ≡ db.jobs)
      × (db'.transitions ≡ db.transitions)
      × (db'.outbox ≡ db.outbox)
      × (db.draws ≤ db'.draws)
unfolding stage_label
label_Announces svc now o inference prediction attack db = (
  (
    response_of o inference prediction (
        some
          (alert_row svc now (svc.environment.uuids db.draws) prediction.prediction_id o
            inference).alert_id),
    alert_row svc now (svc.environment.uuids db.draws) prediction.prediction_id o inference,
    refl,
    refl,
    refl,
    refl,
  ),
  refl,
  refl,
  refl,
  refl,
  refl,
  omega arith,
)
label_Announces svc now o inference prediction _ db = (
  (response_of o inference prediction none, refl, refl, refl, refl),
  refl,
  refl,
  refl,
  refl,
  refl,
  omega arith,
)

>>-ok {ℓ} :
    {B : Type ℓ} (b : Bool) (e : Exception) (k : Result B) {r : B}
    → (raise_if b e >> k) ≡ ok r
    → (b ≡ false) × (k ≡ ok r)
>>-ok true e k h = cc
>>-ok false e k h = (refl, h)

pub ok-injective {ℓ} : {A : Type ℓ} (a b : A) → ok a ≡ ok b → a ≡ b
ok-injective a b e = cc

stage_inference-Inferred :
    (svc : Services) (now : ℕ) (o : FlowObservation) (inference : InferenceResult) (db : Store)
    (staged : StagedObservation) (db' : Store)
    → stage_inference svc now o inference db ≡ ok (staged, db')
    → Inferred inference o.event_id db staged db'
unfolding stage_inference prediction_row
stage_inference-Inferred svc now o inference db staged db' e =
    let prediction = prediction_row now (svc.environment.uuids db.draws) o.event_id inference in
    let (new, more) = >>-ok (has_prediction o.event_id db) (integrity_error svc) _ e in
    let (fine, rest) =
      >>-ok (not (is_response inference)) (invalid_response svc inference) _ more in
    let base : Store = record db {
      predictions = db.predictions ++ prediction ∷ [];
      draws = suc db.draws;
    } in
    let r = stage_label svc now o inference prediction inference.binary_prediction base in
    let same : r ≡ (staged, db') = ok-injective r (staged, db') rest in
    let (said, obs, preds, jobs, trail, outbox, drawn) =
      label_Announces svc now o inference prediction inference.binary_prediction base in
    subst (λ (p : StagedObservation × Store). Inferred inference o.event_id db p.0 p.1) same
      (record {
        prediction = prediction;
        of_event = refl;
        labelled = refl;
        observed = obs;
        predicted = preds;
        announced = said;
        same_jobs = jobs;
        same_trail = trail;
        same_outbox = outbox;
        drawn = omega arith;
      })

-- A staged observation was not stored before. Staging adds its row and one prediction, and,
-- exactly if the prediction is an attack, one alert, announced behind the prediction; jobs, their
-- trail and the outbox are left alone.
pub stage_observation_lem :
    (svc : Services) (now : ℕ) (ingestion_channel : Text) (o : FlowObservation) (db : Store)
    (staged : StagedObservation) (db' : Store)
    → stage_observation svc now ingestion_channel o db ≡ ok (staged, db')
    → Staged svc now ingestion_channel o db staged db'
unfolding stage_observation
stage_observation_lem svc now ingestion_channel o db staged db' e =
    let (fresh, more) = >>-ok (has_observation o.event_id db) (already_exists svc o.event_id) _ e in
    let (route, routed, rest) =
      >>=-ok
        (resolve_route svc.formatting svc.registry o.schema_version
          (fingerprint_of o.network_context))
        _ more in
    let (inference, inferred, last) =
      >>=-ok (run_inference svc.contract.float_of_integer route o.features) _ rest in
    let base : Store = record db {
      observations = db.observations ++ observation_row now ingestion_channel o ∷ [];
    } in
    let i = stage_inference-Inferred svc now o inference base staged db' last in
    record {
      fresh = fresh;
      observed = i.observed;
      prediction = i.prediction;
      of_event = i.of_event;
      predicted = i.predicted;
      announced =
          subst (λ label. Announces label i.prediction staged.events db.alerts db'.alerts)
            (sym i.labelled) i.announced;
      same_jobs = i.same_jobs;
      same_trail = i.same_trail;
      same_outbox = i.same_outbox;
      drawn = i.drawn;
    }
