-- ===== src/Replay/Dataset.antt =====
-- backend/app/ingestion/dataset_replay.py: which rows of the dataset are replayed.
use intrusion_detect.Common.{
  ℕ, ◌+◌, Bool, true, false, not, Option, none, some, List, [], ◌∷◌, ◌++◌, Text, codes, text_eq,
  starts_with, ltb, leb, if◌then◌else◌, length, any,
}
use intrusion_detect.Errors.{Exception, value_error, Result, ok, err}

abbrev normal_labels : List Text
normal_labels =
    codes "MQTT"
    ∷ codes "MQTT_Publish"
    ∷ codes "Thing_speak"
    ∷ codes "Thing_Speak"
    ∷ codes "Wipro_bulb_Dataset"
    ∷ codes "Wipro_bulb"
    ∷ codes "Amazon-Alexa"
    ∷ []

unfoldable pub is_normal : Text → Bool
is_normal label = any (text_eq label) normal_labels

abbrev scenario_error : Exception
scenario_error = record {
  exception_class = value_error;
  type_name = codes "ValueError";
  message = codes "scenario must be all, normal, attack, or class:<exact label>";
}

-- `_scenario_matches`; `label == scenario.removeprefix("class:")` is a comparison with the prefix
-- put back.
unfoldable pub scenario_matches : Text → Text → Result Bool
scenario_matches label scenario =
    if text_eq scenario (codes "all")
    then ok true
    else if text_eq scenario (codes "normal")
    then ok (is_normal label)
    else if text_eq scenario (codes "attack")
    then ok (not (is_normal label))
    else if starts_with (codes "class:") scenario
    then ok (text_eq (codes "class:" ++ label) scenario)
    else err scenario_error

pub record Row : Type 0 where
  pub attack_type : Text
  pub values : List (Text × Text)

-- `limit is not None and emitted >= limit`
abbrev pub is_reached : Option ℕ → ℕ → Bool
is_reached none emitted = false
is_reached (some n) emitted = leb n emitted

-- What a generator yields, and what it raises behind that.
abbrev pub Yielded : Type 0
Yielded = List Row × Option Exception

unfoldable pub emit : Row → Yielded → Yielded
emit row rest = (row ∷ rest.0, rest.1)

-- The loop of `_matching_rows` from a row on.
unfoldable pub matching_from : Text → ℕ → Option ℕ → ℕ → ℕ → List Row → Yielded
unfolding emit
matching_from scenario offset limit row_index emitted [] = ([], none)
matching_from scenario offset limit row_index emitted (row ∷ rows) =
    let skipped = matching_from scenario offset limit (row_index + 1) emitted rows in
    let taken = matching_from scenario offset limit (row_index + 1) (emitted + 1) rows in
    if ltb row_index offset then skipped else elim (scenario_matches row.attack_type scenario) [
      | err e ↦ ([], some e)
      | ok false ↦ skipped
      | ok true ↦ if is_reached limit emitted then ([], none) else emit row taken
    ]

unfoldable pub matching_rows : Text → ℕ → Option ℕ → List Row → Yielded
unfolding matching_from
matching_rows scenario offset limit rows = matching_from scenario offset limit 0 0 rows

unfoldable pub total_of : Yielded → Result ℕ
total_of (rows, none) = ok (length rows)
total_of (rows, some e) = err e

-- `_dataset_total`
unfoldable pub dataset_total : Text → ℕ → Option ℕ → List Row → Result ℕ
unfolding total_of matching_rows
dataset_total scenario offset limit rows = total_of (matching_rows scenario offset limit rows)
