-- ===== src/Serving/Severity.antt =====
-- backend/app/detection/severity.py and device_profiles.py.
use intrusion_detect.Common.{
  ℕ, ◌%◌, ◌^◌, Bool, true, false, not, ◌&&◌, ◌||◌, Option, none, some, List, [], ◌∷◌, map, Text,
  codes, text_eq, is_empty, leb, ◌==◌, if◌then◌else◌,
}
use intrusion_detect.Schema.{
  Features, FeatureValue, text, boolean, integer, number, null, composite,
}
use intrusion_detect.Store.{
  Label, normal, Severity, informational, medium, high, critical, AlertReason, confidence_reason,
  behavior_reason,
}
use intrusion_detect.Serving.Registry.{Formatting}

-- 0.9, 0.75 and 1.0
abbrev pub score_critical : ℕ
score_critical = 0x3feccccccccccccd

abbrev pub score_high : ℕ
score_high = 0x3fe8000000000000

abbrev pub score_one : ℕ
score_one = 0x3ff0000000000000

abbrev infinity : ℕ
infinity = 0x7ff0000000000000

-- `score >= threshold` for a threshold that is not negative: the patterns behind infinity are the NaNs
-- and the numbers with a sign, -0.0 among them.
abbrev pub at_least : ℕ → ℕ → Bool
at_least threshold score = leb threshold score && leb score infinity

abbrev is_normal : Label → Bool
is_normal normal = true
is_normal _ = false

abbrev is_nil : List Text → Bool
is_nil [] = true
is_nil (reason ∷ reasons) = false

unfoldable pub assess_severity : Label → ℕ → List Text → Severity × List AlertReason
assess_severity binary_prediction confidence behavior_reasons =
    let reasons = confidence_reason confidence ∷ map behavior_reason behavior_reasons in
    if is_normal binary_prediction && is_nil behavior_reasons
    then (informational, [])
    else if at_least score_critical confidence || not (is_nil behavior_reasons)
    then (critical, reasons)
    else if at_least score_high confidence
    then (high, reasons)
    else (medium, reasons)

-- `bool(value)`
abbrev is_truthy : FeatureValue → Bool
is_truthy (text t) = not (is_empty t)
is_truthy (boolean b) = b
is_truthy (integer negative magnitude) = not (magnitude == 0)
is_truthy (number bits) = not (bits % 2 ^ 63 == 0)
is_truthy null = false
is_truthy (composite empty) = not empty

abbrev pub feature_of : Text → Features → Option FeatureValue
feature_of name [] = none
feature_of name (entry ∷ entries) =
    let rest = feature_of name entries in if text_eq entry.0 name then some entry.1 else rest

violation_reason : Formatting → Option FeatureValue → List Text
violation_reason f none = []
violation_reason f (some violation) = if is_truthy violation then f.str_value violation ∷ [] else []

unfoldable pub evaluate_device_profile : Formatting → Features → List Text
unfolding violation_reason
evaluate_device_profile f features =
    violation_reason f (feature_of (codes "device_profile_violation") features)
