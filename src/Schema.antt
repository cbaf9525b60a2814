-- ===== src/Schema.antt =====
-- The canonical observation of backend/app/features/canonical_schema.py and its validators.
--
-- Pydantic, which runs the field validators and then the model validator, is not modelled;
-- `validate_observation` composes them that way. A float is kept as its IEEE 754
-- binary64 pattern, a UUID as its 128-bit value, an instant in microseconds.
use intrusion_detect.Common.{
  ℕ, ◌/◌, ◌%◌, ◌^◌, Bool, true, false, not, Option, none, some, List, [], ◌∷◌, map, Text, text_eq,
  strip, is_empty, if◌then◌else◌, ltb, ◌==◌,
}

-- `RT_SCHEMA_VERSION`, `NFSTREAM_SCHEMA_VERSION`, and any other text.
pub data SchemaVersion : Type 0 where
  rt_iot2022_v1 nfstream_iot_v1 : SchemaVersion
  unsupported : Text → SchemaVersion

abbrev pub schema_version_eq : SchemaVersion → SchemaVersion → Bool
schema_version_eq rt_iot2022_v1 rt_iot2022_v1 = true
schema_version_eq nfstream_iot_v1 nfstream_iot_v1 = true
schema_version_eq (unsupported s) (unsupported t) = text_eq s t
schema_version_eq _ _ = false

pub record NetworkContext : Type 0 where
  pub source_ip : Option Text
  pub destination_ip : Option Text
  pub source_port : Option ℕ
  pub destination_port : Option ℕ
  pub protocol : Option Text
  pub interface : Option Text
  pub capture_id : Option Text
  pub extractor_fingerprint : Option Text

-- The values of the feature dictionary: what JSON can hold there. An integer has its sign
-- (`true` if negative) and its magnitude; a list or an object has only whether it is empty.
pub data FeatureValue : Type 0 where
  text : Text → FeatureValue
  boolean : Bool → FeatureValue
  integer : Bool → ℕ → FeatureValue
  number : ℕ → FeatureValue
  null : FeatureValue
  composite : (empty : Bool) → FeatureValue

abbrev pub Features : Type 0
Features = List (Text × FeatureValue)

pub record FlowObservation : Type 0 where
  pub schema_version : SchemaVersion
  pub event_id : ℕ
  pub flow_started_at : ℕ
  pub flow_ended_at : ℕ
  pub source : Text
  pub features : Features
  pub ground_truth : Option Text
  pub network_context : Option NetworkContext

-- `context.extractor_fingerprint if context else None`
abbrev pub fingerprint_of : Option NetworkContext → Option Text
fingerprint_of none = none
fingerprint_of (some context) = context.extractor_fingerprint

-- What a validator does: it returns a value, raises `ValueError`, or lets the `OverflowError` of
-- `float` through, which no handler of the validators names.
pub data Checked (A : Type 0) : Type 0 where
  valid : A → Checked A
  value_error : Checked A
  overflow_error : Checked A

infixl 5 ◌>>=◌
abbrev pub ◌>>=◌ : {A B : Type 0} → Checked A → (A → Checked B) → Checked B
valid a >>= f = f a
value_error >>= f = value_error
overflow_error >>= f = overflow_error

-- The schema file's names and Python's conversions to `float`, which are not code of the module.
pub record Contract : Type 0 where
  pub feature_order : List Text
  pub is_categorical : Text → Bool
  pub float_of_text : Text → Option ℕ  -- `none` is `ValueError`
  pub float_of_integer : Bool → ℕ → Option ℕ  -- `none` is `OverflowError`

-- `math.isfinite` of a binary64 pattern: the exponent field is not all ones.
abbrev pub is_finite : ℕ → Bool
is_finite bits = not (bits / 2 ^ 52 % 2 ^ 11 == 2047)

abbrev pub names_eq : List Text → List Text → Bool
names_eq [] [] = true
names_eq [] (t ∷ ts) = false
names_eq (s ∷ ss) [] = false
names_eq (s ∷ ss) (t ∷ ts) = let rest = names_eq ss ts in if text_eq s t then rest else false

abbrev pub names : Features → List Text
names = map (λ entry. entry.0)

unfoldable pub validate_schema_version : SchemaVersion → Checked SchemaVersion
validate_schema_version (unsupported name) = value_error
validate_schema_version version = valid version

finite_number : ℕ → Checked FeatureValue
finite_number bits = if is_finite bits then valid (number bits) else value_error

numeric_text : Option ℕ → Checked FeatureValue
unfolding finite_number
numeric_text none = value_error
numeric_text (some bits) = finite_number bits

numeric_integer : Option ℕ → Checked FeatureValue
unfolding finite_number
numeric_integer none = overflow_error
numeric_integer (some bits) = finite_number bits

-- A categorical feature is kept as it is, if it is a text that is not blank.
validate_category : FeatureValue → Checked FeatureValue
validate_category (text value) = if is_empty (strip value) then value_error else valid (text value)
validate_category _ = value_error

-- Any other is converted by `float`.
validate_number : Contract → FeatureValue → Checked FeatureValue
unfolding numeric_text numeric_integer finite_number
validate_number c (boolean value) = value_error
validate_number c (text value) = numeric_text (c.float_of_text value)
validate_number c (integer negative magnitude) =
    numeric_integer (c.float_of_integer negative magnitude)
validate_number c (number bits) = finite_number bits
validate_number c null = value_error
validate_number c (composite empty) = value_error

validate_feature : Contract → Text → FeatureValue → Checked FeatureValue
unfolding validate_category validate_number
validate_feature c name value =
    if c.is_categorical name then validate_category value else validate_number c value

validate_each : Contract → Features → Checked Features
validate_each c [] = valid []
validate_each c ((name, value) ∷ rest) = validate_feature c name value >>= λ value'.
    validate_each c rest >>= λ rest'. valid ((name, value') ∷ rest')

unfoldable pub validate_features : Contract → Features → Checked Features
unfolding validate_each validate_feature
validate_features c features =
    if names_eq (names features) c.feature_order then validate_each c features else value_error

-- `not fingerprint`
abbrev pub lacks : Option Text → Bool
lacks none = true
lacks (some fingerprint) = is_empty fingerprint

abbrev is_nfstream : SchemaVersion → Bool
is_nfstream nfstream_iot_v1 = true
is_nfstream _ = false

unfoldable pub validate_times : FlowObservation → Checked FlowObservation
validate_times o =
    if ltb o.flow_ended_at o.flow_started_at
    then value_error
    else if (if is_nfstream o.schema_version
        then lacks (fingerprint_of o.network_context)
        else false)
    then value_error
    else valid o

-- Pydantic runs the validators of all fields and collects their `ValueError`s; another exception
-- leaves at once.
abbrev pub both_fields : {A B : Type 0} → Checked A → Checked B → Checked (A × B)
both_fields (valid a) (valid b) = valid (a, b)
both_fields (valid a) value_error = value_error
both_fields (valid a) overflow_error = overflow_error
both_fields value_error overflow_error = overflow_error
both_fields value_error _ = value_error
both_fields overflow_error _ = overflow_error

unfoldable pub validate_observation : Contract → FlowObservation → Checked FlowObservation
unfolding validate_schema_version validate_features validate_times
validate_observation c o =
    both_fields (validate_schema_version o.schema_version) (validate_features c o.features)
    >>= λ (version, features).
        validate_times (record o { schema_version = version; features = features })
