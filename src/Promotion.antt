-- ===== src/Promotion.antt =====
-- machine-learning/src/iot_ids_ml/promotion.py: what is verified of a bundle of models before it is
-- served.
--
-- A directory maps names to contents. SHA-256, `json.loads` with the keys that are read, and `str` are
-- parameters. Where the code takes an object or asks for its keys, an object is assumed to be there.
mod Files
pub mod Listing
pub mod Swap
pub mod Verified
pub mod Bundles
pub mod Safety
unfoldable pub use Files.*
use intrusion_detect.Common.{
  ℕ, Bool, true, false, not, ◌&&◌, ◌||◌, Option, none, some, List, [], ◌∷◌, Text, codes, text_eq,
  ◌==◌, if◌then◌else◌, any, is_some,
}

abbrev pub differ : Bool → Bool → Bool
differ true b = not b
differ false b = b

unfoldable pub verify_drift :
    Formats → Text → Directory → Manifest → Checked (Option DriftReference)
unfolding load_json
verify_drift f dataset directory m =
    if differ (is_null m.drift_reference) (is_null m.drift_reference_sha256)
    then refused drift_fields
    else if is_null m.drift_reference
    then passed none
    else do
      drift ← load_json f.drift_reference (name_of f m.drift_reference) directory
      require (value_eq (text (f.sha256 drift.bytes)) m.drift_reference_sha256) drift_checksum
      require
          ((value_eq drift.json.reference_schema_version (text (codes "drift-reference-v1"))
              && value_eq drift.json.content_sha256 (text (f.canonical_sha256 drift.bytes)))
            && value_eq drift.json.dataset_sha256 (text dataset))
          drift_provenance
      passed (some drift.json)

-- `{item.get("target") for item in models} == {"binary", "multiclass"}`
abbrev pub has_target : Value → List Entry → Bool
has_target target entries = any (λ e. value_eq e.target target) entries

abbrev pub only_known : List Entry → Bool
only_known entries =
    not (any (λ e. not (value_eq e.target binary || value_eq e.target multiclass)) entries)

unfoldable pub models_of : Manifest → Checked (List Entry)
models_of m = elim m.models [
  | none ↦ refused other_targets
  | some entries ↦
      if (has_target binary entries && has_target multiclass entries) && only_known entries
      then passed entries
      else refused other_targets
]

pub record VerifiedModel : Type 0 where
  pub target : Value
  pub model_version : Value
  pub artifact_sha256 : Text

-- `checks`, all of them.
unfoldable pub checks : Formats → Text → Bool → Entry → Loaded Metadata → Bytes → Bool
checks f dataset reject_fixture entry metadata artifact =
    let sha = text (f.sha256 artifact) in
    value_eq metadata.json.target entry.target
    && value_eq metadata.json.model_version entry.model_version
    && value_eq metadata.json.schema_version canonical_schema
    && value_eq metadata.json.feature_order (other f.feature_columns)
    && value_eq metadata.json.dataset_sha256 (text dataset)
    && value_eq sha entry.artifact_sha256
    && value_eq sha metadata.json.artifact_sha256
    && value_eq (text (f.sha256 metadata.bytes)) entry.metadata_sha256
    && not (reject_fixture && value_eq metadata.json.dataset_role (text (codes "fixture")))

abbrev pub present : Value → Checked Value
present missing = refused key_error
present v = passed v

abbrev pub file : Text → Directory → Checked Bytes
file name directory = elim (content name directory) [
  | none ↦ refused missing_file
  | some bytes ↦ passed bytes
]

unfoldable pub verify_model : Formats → Text → Bool → Directory → Entry → Checked VerifiedModel
unfolding load_json checks
verify_model f dataset reject_fixture directory entry = do
  artifact ← file (name_of f entry.artifact) directory
  present_metadata ← file (name_of f entry.metadata) directory
  metadata ← load_json f.metadata (name_of f entry.metadata) directory
  require (checks f dataset reject_fixture entry metadata artifact) model_failed
  version ← present entry.model_version
  passed (record {
    target = entry.target;
    model_version = version;
    artifact_sha256 = f.sha256 artifact;
  })

unfoldable pub verify_models :
    Formats → Text → Bool → Directory → List Entry → Checked (List VerifiedModel)
unfolding verify_model
verify_models f dataset reject_fixture directory [] = passed []
verify_models f dataset reject_fixture directory (entry ∷ entries) =
    verify_model f dataset reject_fixture directory entry >>= λ model.
    verify_models f dataset reject_fixture directory entries >>= λ models. passed (model ∷ models)

-- `versions[target]`: a later model of the same target wins.
abbrev pub version_of : Value → List VerifiedModel → Value
version_of target [] = null
version_of target (model ∷ models) =
    let rest = version_of target models in
    if any (λ m. value_eq m.target target) models
    then rest
    else if value_eq model.target target
    then model.model_version
    else null

unfoldable pub check_versions :
    Option DriftReference → List VerifiedModel → Checked (List VerifiedModel)
check_versions none models = passed models
check_versions (some drift) models = do
  require
      (value_eq drift.detector_model_version (version_of binary models)
        && value_eq drift.classifier_model_version (version_of multiclass models))
      stale_drift
  passed models

abbrev pub row_count_eq : Option ℕ → ℕ → Bool
row_count_eq none rows = false
row_count_eq (some n) rows = n == rows

-- The checks of the evaluation report.
unfoldable pub verify_report : Formats → Text → ℕ → Bool → Directory → Manifest → Checked Report
unfolding load_json
verify_report f dataset rows reject_fixture directory m = do
  report ← load_json f.report (name_of f m.evaluation_report) directory
  require (value_eq (text (f.sha256 report.bytes)) m.evaluation_report_sha256) report_checksum
  require (value_eq report.json.dataset_sha256 (text dataset)) other_dataset
  require (row_count_eq report.json.row_count rows) other_row_count
  require (not (reject_fixture && value_eq report.json.dataset_role (text (codes "fixture"))))
      fixture
  passed report.json

-- `verify_bundle`: the verified models, in the order of the manifest.
unfoldable pub verify_bundle : Formats → Text → ℕ → Bool → Directory → Checked (List VerifiedModel)
unfolding load_json verify_report verify_drift models_of verify_models check_versions
verify_bundle f dataset rows reject_fixture directory = do
  manifest ← load_json f.manifest manifest_name directory
  require (value_eq manifest.json.schema_version canonical_schema) schema_version
  report ← verify_report f dataset rows reject_fixture directory manifest.json
  drift ← verify_drift f dataset directory manifest.json
  entries ← models_of manifest.json
  models ← verify_models f dataset reject_fixture directory entries
  check_versions drift models
