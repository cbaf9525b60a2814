-- ===== src/Monitoring/Drift.antt =====
-- backend/app/detection/drift.py: the alarms of a window.
--
-- The arithmetic of floats, kept as binary64 patterns, is a parameter: the distances and p-values that
-- numpy and scipy compute, the ratio of a distance to its threshold, and the order of floats. What a
-- reference stores for a feature is opaque.
use intrusion_detect.Common.{
  ℕ, Bool, true, false, ◌&&◌, Option, none, some, List, [], ◌∷◌, ◌++◌, Text, map, length, ltb,
  count_if, if◌then◌else◌,
}
use intrusion_detect.Schema.{Features, SchemaVersion}

-- What `numeric_drift` and `categorical_drift` give of a feature, as far as it is used.
pub record Measured : Type 0 where
  pub js_distance : ℕ
  pub js_threshold : ℕ
  pub ks_p_value : ℕ

pub record FeatureResult : Type 0 where
  pub feature : Text
  pub measured : Measured
  pub drifted : Bool

-- A measurement has no result where the code raises, as for a value that is no number.
-- `benjamini_hochberg` adjusts p-values and keeps their number; `ratio` is the distance by
-- `max(threshold, 1e-12)`; `is_significant` is `q_value <= 0.05`.
pub record Numerics : Type 0 where
  pub numeric_drift : ℕ → Text → List Features → Option Measured
  pub categorical_drift : ℕ → Text → List Features → Option Measured
  pub label_drift : ℕ → List Text → Option Measured
  pub score_drift : ℕ → List ℕ → Option Measured
  pub rate_ratio : ℕ → (attacks : ℕ) → (total : ℕ) → ℕ
  pub benjamini_hochberg : List ℕ → List ℕ
  pub exceeds : ℕ → ℕ → Bool
  pub is_significant : ℕ → Bool
  pub ratio : Measured → ℕ
  pub is_finite : ℕ → Bool
  pub zero : ℕ
  pub one : ℕ
  -- the sort key of a feature that is not told apart by `drifted`
  pub before : FeatureResult → FeatureResult → Bool

pub record Reference : Type 0 where
  pub schema_version : SchemaVersion
  pub artifact_sha256 : Text
  pub numeric_features : List (Text × ℕ)
  pub categorical_features : List (Text × ℕ)
  pub detector_labels : Option ℕ
  pub classifier_labels : Option ℕ
  pub detector_scores : Option ℕ
  pub classifier_scores : Option ℕ
  pub minimum_classifier_support : ℕ
  pub attack_routing_rate : Option ℕ

infixl 5 ◌>>=◌
abbrev pub ◌>>=◌ : {A B : Type 0} → Option A → (A → Option B) → Option B
none >>= next = none
some a >>= next = next a

measure_all :
    (ℕ → Text → List Features → Option Measured)
    → List (Text × ℕ)
    → List Features
    → Option (List (Text × Measured))
measure_all drift [] rows = some []
measure_all drift ((name, evidence) ∷ features) rows =
    let rest = measure_all drift features rows in
    drift evidence name rows >>= λ measured. rest >>= λ others. some ((name, measured) ∷ others)

-- `result["js_distance"] > result["js_threshold"]`
abbrev is_far : Numerics → Measured → Bool
is_far n m = n.exceeds m.js_distance m.js_threshold

numeric_results : Numerics → List (Text × Measured) → List ℕ → List FeatureResult
numeric_results n ((name, m) ∷ results) (q ∷ adjusted) =
    record { feature = name; measured = m; drifted = is_far n m && n.is_significant q }
    ∷ numeric_results n results adjusted
numeric_results n [] adjusted = []
numeric_results n (result ∷ results) [] = []

abbrev categorical_result : Numerics → Text × Measured → FeatureResult
categorical_result n (name, m) = record { feature = name; measured = m; drifted = is_far n m }

-- Drifted features come first.
abbrev comes_before : Numerics → FeatureResult → FeatureResult → Bool
comes_before n a b =
    if a.drifted
    then (if b.drifted then n.before a b else true)
    else if b.drifted
    then false
    else n.before a b

insert_result : Numerics → FeatureResult → List FeatureResult → List FeatureResult
insert_result n r [] = r ∷ []
insert_result n r (s ∷ results) =
    let rest = insert_result n r results in if comes_before n s r then s ∷ rest else r ∷ s ∷ results

-- `features.sort`
sort_results : Numerics → List FeatureResult → List FeatureResult
unfolding insert_result
sort_results n [] = []
sort_results n (r ∷ results) = insert_result n r (sort_results n results)

-- `max(ratios, default=0.0)`
unfoldable pub maximum : Numerics → List ℕ → ℕ
maximum n [] = n.zero
maximum n (r ∷ []) = r
maximum n (r ∷ s ∷ ratios) =
    let rest = maximum n (s ∷ ratios) in if n.exceeds rest r then rest else r

abbrev finite_or_zero : Numerics → ℕ → ℕ
finite_or_zero n score = if n.is_finite score then score else n.zero

pub record WindowResult : Type 0 where
  pub features : List FeatureResult
  pub aggregate_score : ℕ

-- `evaluate_feature_window` of rows that are there; its status is a warning if any feature drifted.
unfoldable pub evaluate_feature_window : Numerics → Reference → List Features → Option WindowResult
unfolding measure_all numeric_results sort_results maximum
evaluate_feature_window n reference rows =
    measure_all n.numeric_drift reference.numeric_features rows >>= λ numeric.
    measure_all n.categorical_drift reference.categorical_features rows >>= λ categorical.
    let adjusted = n.benjamini_hochberg (map (λ result. result.1.ks_p_value) numeric) in
    let features =
      sort_results n
        (numeric_results n numeric adjusted ++ map (categorical_result n) categorical) in
    some (record {
      features = features;
      aggregate_score = finite_or_zero n (maximum n (map (λ r. n.ratio r.measured) features));
    })

abbrev pub feature_alarms : WindowResult → ℕ
feature_alarms w = count_if (λ r. r.drifted) w.features

-- The ratios of the output metrics that were computed.
unfoldable label_ratio : Numerics → Option ℕ → List Text → Option (List ℕ)
label_ratio n none labels = some []
label_ratio n (some evidence) [] = some []
label_ratio n (some evidence) (label ∷ labels) =
    n.label_drift evidence (label ∷ labels) >>= λ m. some (n.ratio m ∷ [])

unfoldable score_ratio : Numerics → Option ℕ → ℕ → List ℕ → Option (List ℕ)
score_ratio n none minimum scores = some []
score_ratio n (some evidence) minimum scores =
    if ltb (length scores) minimum
    then some []
    else (n.score_drift evidence scores >>= λ m. some (n.ratio m ∷ []))

-- What the predictions of a window hold.
pub record Current : Type 0 where
  pub detector_labels : List Text
  pub detector_scores : List ℕ
  pub classifier_labels : List Text
  pub classifier_scores : List ℕ
  pub attacks : ℕ

unfoldable rate_ratios : Numerics → Option ℕ → Current → List ℕ
rate_ratios n none current = []
rate_ratios n (some evidence) current =
    if ltb 0 (length current.detector_labels)
    then n.rate_ratio evidence current.attacks (length current.detector_labels) ∷ []
    else []

pub record OutputResult : Type 0 where
  pub alarm_count : ℕ
  pub aggregate_score : ℕ

-- `evaluate_output_window`; its status is a warning if there are alarms.
unfoldable pub evaluate_output_window : Numerics → Reference → Current → Option OutputResult
unfolding label_ratio score_ratio rate_ratios maximum
evaluate_output_window n reference current =
    label_ratio n reference.detector_labels current.detector_labels >>= λ a.
    label_ratio n reference.classifier_labels current.classifier_labels >>= λ b.
    score_ratio n reference.detector_scores 1 current.detector_scores >>= λ c.
    score_ratio n reference.classifier_scores reference.minimum_classifier_support
      current.classifier_scores
    >>= λ d.
        let ratios =
          a ++ (b ++ (c ++ (d ++ rate_ratios n reference.attack_routing_rate current))) in
        some (record {
          alarm_count = count_if (λ r. n.exceeds r n.one) ratios;
          aggregate_score = maximum n ratios;
        })
