-- ===== src/Promotion/Files.antt =====
-- machine-learning/src/iot_ids_ml/promotion.py: the files of a bundle, and how one is read.
use intrusion_detect.Common.{
  ℕ, Bool, true, false, Option, none, some, List, [], ◌∷◌, Text, codes, text_eq, ◌==◌,
  if◌then◌else◌,
}

-- A value at a key of an object: no such key, `None`, a text, or another one by its class under
-- Python's `==`.
pub data Value : Type 0 where
  missing null : Value
  text : Text → Value
  other : ℕ → Value

-- `dict.get` gives `None` for a missing key.
abbrev pub is_null : Value → Bool
is_null missing = true
is_null null = true
is_null (text t) = false
is_null (other n) = false

abbrev pub value_eq : Value → Value → Bool
value_eq (text s) (text t) = text_eq s t
value_eq (other m) (other n) = m == n
value_eq (text s) (other n) = false
value_eq (other m) (text t) = false
value_eq (text s) missing = false
value_eq (text s) null = false
value_eq (other m) missing = false
value_eq (other m) null = false
value_eq missing v = is_null v
value_eq null v = is_null v

pub record Entry : Type 0 where
  pub target : Value
  pub artifact : Value
  pub metadata : Value
  pub model_version : Value
  pub artifact_sha256 : Value
  pub metadata_sha256 : Value

-- `models` if it is a list.
pub record Manifest : Type 0 where
  pub schema_version : Value
  pub evaluation_report : Value
  pub evaluation_report_sha256 : Value
  pub drift_reference : Value
  pub drift_reference_sha256 : Value
  pub models : Option (List Entry)

-- `row_count` is that of the profile, if it is a whole number.
pub record Report : Type 0 where
  pub dataset_sha256 : Value
  pub row_count : Option ℕ
  pub dataset_role : Value

pub record Metadata : Type 0 where
  pub target : Value
  pub model_version : Value
  pub schema_version : Value
  pub feature_order : Value
  pub dataset_sha256 : Value
  pub artifact_sha256 : Value
  pub dataset_role : Value

pub record DriftReference : Type 0 where
  pub reference_schema_version : Value
  pub content_sha256 : Value
  pub dataset_sha256 : Value
  pub detector_model_version : Value
  pub classifier_model_version : Value

abbrev pub Bytes : Type 0
Bytes = List ℕ

abbrev pub Directory : Type 0
Directory = List (Text × Bytes)

-- `canonical_sha256` is the checksum of a reference without its key `content_sha256`.
pub record Formats : Type 0 where
  pub sha256 : Bytes → Text
  pub manifest : Bytes → Option Manifest
  pub report : Bytes → Option Report
  pub metadata : Bytes → Option Metadata
  pub drift_reference : Bytes → Option DriftReference
  pub canonical_sha256 : Bytes → Text
  pub str_other : ℕ → Text
  pub is_true : ℕ → Bool
  pub feature_columns : ℕ

pub data Refusal : Type 0 where
  unreadable schema_version report_checksum other_dataset other_row_count fixture : Refusal
  drift_fields drift_checksum drift_provenance other_targets missing_file model_failed : Refusal
  -- a `KeyError` of `entry["model_version"]`
  key_error : Refusal
  stale_drift : Refusal

pub data Checked (A : Type 0) : Type 0 where
  refused : Refusal → Checked A
  passed : A → Checked A

infixl 5 ◌>>=◌ ◌>>◌
abbrev pub ◌>>=◌ : {A B : Type 0} → Checked A → (A → Checked B) → Checked B
refused r >>= next = refused r
passed a >>= next = next a

abbrev pub ◌>>◌ : {B : Type 0} → Checked (Unit {0}) → Checked B → Checked B
check >> rest = check >>= λ _. rest

-- `if not test: raise`
abbrev pub require : Bool → Refusal → Checked (Unit {0})
require true r = passed tt
require false r = refused r

abbrev pub content : Text → Directory → Option Bytes
content name [] = none
content name ((n, bytes) ∷ files) =
    let rest = content name files in if text_eq n name then some bytes else rest

-- A file and what `json.loads` makes of it.
pub record Loaded (A : Type 0) : Type 0 where
  pub bytes : Bytes
  pub json : A

abbrev pub parsed : {A : Type 0} → Bytes → Option A → Checked (Loaded A)
parsed bytes none = refused unreadable
parsed bytes (some json) = passed (record { bytes = bytes; json = json })

abbrev pub parse_file : {A : Type 0} → (Bytes → Option A) → Option Bytes → Checked (Loaded A)
parse_file loads none = refused unreadable
parse_file loads (some bytes) = parsed bytes (loads bytes)

-- `_load_json`
unfoldable pub load_json : {A : Type 0} → (Bytes → Option A) → Text → Directory → Checked (Loaded A)
load_json loads name directory = parse_file loads (content name directory)

-- `str(entry.get(key, ""))`; no file of a directory has the empty name.
abbrev pub name_of : Formats → Value → Text
name_of f missing = []
name_of f null = codes "None"
name_of f (text t) = t
name_of f (other n) = f.str_other n

abbrev pub manifest_name : Text
manifest_name = codes "manifest.json"

abbrev pub canonical_schema : Value
canonical_schema = text (codes "rt-iot2022-v1")

abbrev pub binary : Value
binary = text (codes "binary")

abbrev pub multiclass : Value
multiclass = text (codes "multiclass")
