-- ===== src/Serving/Inference.antt =====
-- backend/app/inference/predictor.py and explanations.py: the two-stage cascade.
use intrusion_detect.Common.{
  ℕ, ◌%◌, ◌^◌, Bool, false, Option, none, some, [], ◌∷◌, Text, leb, if◌then◌else◌, take,
}
use intrusion_detect.Errors.{Result, ok, ◌>>=◌}
use intrusion_detect.Schema.{Features, FeatureValue, integer, number}
use intrusion_detect.Store.{Label, normal, attack}
use intrusion_detect.Serving.Registry.{ModelRoute}

-- `abs(float(value))` of a number, 0 of anything else; `float` is the contract's. An integer on which
-- it raises gets 0 here; the validators let none through.
unfoldable pub rank : (Bool → ℕ → Option ℕ) → FeatureValue → ℕ
rank float_of_integer (number bits) = bits % 2 ^ 63
rank float_of_integer (integer negative magnitude) = elim (float_of_integer false magnitude) [
  | none ↦ 0
  | some bits ↦ bits % 2 ^ 63
]
rank float_of_integer _ = 0

module _ (float_of_integer : Bool → ℕ → Option ℕ) where
  -- `sorted(..., reverse=True)` keeps the order of entries of one rank.
  unfoldable pub insert_ranked : Text × FeatureValue → Features → Features
  insert_ranked entry [] = entry ∷ []
  insert_ranked entry (head ∷ rest) =
      if leb (rank float_of_integer head.1) (rank float_of_integer entry.1)
      then entry ∷ head ∷ rest
      else head ∷ insert_ranked entry rest

  unfoldable pub sort_ranked : Features → Features
  unfolding insert_ranked
  sort_ranked [] = []
  sort_ranked (entry ∷ entries) = insert_ranked entry (sort_ranked entries)

  -- `limit` is 5, the default that every caller leaves.
  unfoldable pub explain_features : Features → Features
  unfolding sort_ranked
  explain_features features = take 5 (sort_ranked features)

pub record InferenceResult : Type 0 where
  pub model_version : Text
  pub detector_model_version : Text
  pub classifier_model_version : Option Text
  pub binary_prediction : Label
  pub attack_class : Option Text
  pub confidence : ℕ
  pub detection_score : ℕ
  pub detection_score_calibrated : Bool
  pub attack_class_score : Option ℕ
  pub attack_class_score_calibrated : Option Bool
  pub top_features : Features

-- The result for traffic that is not labelled an attack: the classifier is not called.
unfoldable pub detector_result : ModelRoute → Features → Label → ℕ → InferenceResult
detector_result route top label score = record {
  model_version = route.detector.version;
  detector_model_version = route.detector.version;
  classifier_model_version = none;
  binary_prediction = label;
  attack_class = none;
  confidence = score;
  detection_score = score;
  detection_score_calibrated = route.detector.calibrated;
  attack_class_score = none;
  attack_class_score_calibrated = none;
  top_features = top;
}

unfoldable pub classify_attack : ModelRoute → Features → Features → ℕ → Result InferenceResult
unfolding detector_result
classify_attack route features top score =
    route.classifier.predict_label features >>= λ (attack_class, attack_class_score). ok (
      let base = detector_result route top attack score in
      record base {
        classifier_model_version = some route.classifier.version;
        attack_class = some attack_class;
        attack_class_score = some attack_class_score;
        attack_class_score_calibrated = some route.classifier.calibrated;
      })

unfoldable pub by_label : ModelRoute → Features → Features → Label × ℕ → Result InferenceResult
unfolding classify_attack detector_result
by_label route features top (attack, score) = classify_attack route features top score
by_label route features top (normal, score) = ok (detector_result route top normal score)
by_label route features top (Label.unknown_label name, score) =
    ok (detector_result route top (Label.unknown_label name) score)

unfoldable pub run_inference :
    (Bool → ℕ → Option ℕ) → ModelRoute → Features → Result InferenceResult
unfolding by_label explain_features
run_inference float_of_integer route features =
    route.detector.predict_label features
    >>= by_label route features (explain_features float_of_integer features)
