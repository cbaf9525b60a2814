-- ===== src/Promotion/Bundles.antt =====
-- A whole bundle that `verify_bundle` of machine-learning/src/iot_ids_ml/promotion.py lets pass.
use mathlib.Core.Path.{subst}
use intrusion_detect.Common.{
  ℕ, ◌≡◌, sym, ◌⊎◌, inl, inr, true, false, Option, some, List, Text, codes, arith, Bool-cases,
}
use intrusion_detect.Promotion.{
  text, is_null, value_eq, Entry, Manifest, Report, DriftReference, Directory, Formats, passed,
  Loaded, load_json, name_of, manifest_name, canonical_schema, binary, multiclass, verify_drift,
  has_target, models_of, VerifiedModel, verify_models, version_of, check_versions, row_count_eq,
  verify_report, verify_bundle,
}
use intrusion_detect.Promotion.Verified.{
  File, AreBound, >>=-passed, value_eq-text, value_eq_text, load_json-File, verify_models-AreBound,
}
use intrusion_detect.Promotion.Listing.{
  row_count_eq-true, models_of-passed, versions_checked, check_versions-same,
}

-- The evaluation report of a bundle.
pub record IsReported (f : Formats) (dataset : Text) (rows : ℕ) (directory : Directory)
    (m : Manifest) : Type 0 where
  pub report : Loaded Report
  pub there : File f.report directory (name_of f m.evaluation_report) report
  pub sum : m.evaluation_report_sha256 ≡ text (f.sha256 report.bytes)
  pub trained_on : report.json.dataset_sha256 ≡ text dataset
  pub counted : report.json.row_count ≡ some rows
  pub real : value_eq report.json.dataset_role (text (codes "fixture")) ≡ false

-- The drift reference of a bundle that has one, and the models that it is made for.
pub record IsReferenced (f : Formats) (dataset : Text) (directory : Directory) (m : Manifest)
    (models : List VerifiedModel) : Type 0 where
  pub drift : Loaded DriftReference
  pub there : File f.drift_reference directory (name_of f m.drift_reference) drift
  pub sum : m.drift_reference_sha256 ≡ text (f.sha256 drift.bytes)
  pub whole : drift.json.content_sha256 ≡ text (f.canonical_sha256 drift.bytes)
  pub trained_on : drift.json.dataset_sha256 ≡ text dataset
  pub detector : value_eq drift.json.detector_model_version (version_of binary models) ≡ true
  pub classifier :
      value_eq drift.json.classifier_model_version (version_of multiclass models) ≡ true

-- All files of a bundle are there with the checksums that the manifest gives, all come from the
-- dataset and none from a fixture, and both targets are served.
pub record IsVerified (f : Formats) (dataset : Text) (rows : ℕ) (directory : Directory)
    (models : List VerifiedModel) : Type 0 where
  pub manifest : Loaded Manifest
  pub entries : List Entry
  pub there : File f.manifest directory manifest_name manifest
  pub schema : manifest.json.schema_version ≡ canonical_schema
  pub reported : IsReported f dataset rows directory manifest.json
  pub listed : manifest.json.models ≡ some entries
  pub detectors : has_target binary entries ≡ true
  pub classifiers : has_target multiclass entries ≡ true
  pub bound : AreBound f dataset directory entries models
  pub referenced :
      (is_null manifest.json.drift_reference ≡ true)
      ⊎ IsReferenced f dataset directory manifest.json models

module _ (f : Formats) (dataset : Text) (directory : Directory) where
  verify_report-IsReported :
      (rows : ℕ) (m : Manifest) (r : Report)
      → verify_report f dataset rows true directory m ≡ passed r
      → IsReported f dataset rows directory m
  unfolding verify_report
  verify_report-IsReported rows m r e =
      let (report, l, e1) =
        >>=-passed (load_json f.report (name_of f m.evaluation_report) directory) _ r e in
      let sums : value_eq (text (f.sha256 report.bytes)) m.evaluation_report_sha256 ≡ true =
        ground arith in
      let trained : value_eq report.json.dataset_sha256 (text dataset) ≡ true = ground arith in
      let rows_e : row_count_eq report.json.row_count rows ≡ true = ground arith in
      record {
        report = report;
        there = load_json-File f.report (name_of f m.evaluation_report) directory report l;
        sum = value_eq_text m.evaluation_report_sha256 (f.sha256 report.bytes) sums;
        trained_on = value_eq-text report.json.dataset_sha256 dataset trained;
        counted = row_count_eq-true report.json.row_count rows rows_e;
        real = ground arith;
      }

  verify_drift-IsReferenced :
      (m : Manifest) (drift : Option DriftReference) (models verified : List VerifiedModel)
      → is_null m.drift_reference ≡ false
      → verify_drift f dataset directory m ≡ passed drift
      → check_versions drift models ≡ passed verified
      → IsReferenced f dataset directory m models
  unfolding verify_drift check_versions
  verify_drift-IsReferenced m drift models verified given e c =
      elim (Bool-cases (is_null m.drift_reference_sha256)) [
        | inl unsummed ↦ let e1 = rw (given, unsummed) at e in absurd cc
        | inr summed ↦
            let e1 = rw (given, summed) at e in
            let (file, l, e2) =
              >>=-passed (load_json f.drift_reference (name_of f m.drift_reference) directory) _
                drift e1 in
            let sum : value_eq (text (f.sha256 file.bytes)) m.drift_reference_sha256 ≡ true =
              ground arith in
            let whole : value_eq file.json.content_sha256 (text (f.canonical_sha256 file.bytes))
                ≡ true =
              ground arith in
            let trained : value_eq file.json.dataset_sha256 (text dataset) ≡ true = ground arith in
            let same : drift ≡ some file.json = ground arith in
            let (detector, classifier) =
              versions_checked file.json models verified (rw same at c) in
            record {
              drift = file;
              there =
                  load_json-File f.drift_reference (name_of f m.drift_reference) directory file l;
              sum = value_eq_text m.drift_reference_sha256 (f.sha256 file.bytes) sum;
              whole = value_eq-text file.json.content_sha256 (f.canonical_sha256 file.bytes) whole;
              trained_on = value_eq-text file.json.dataset_sha256 dataset trained;
              detector = detector;
              classifier = classifier;
            }
      ]

  verify_drift-checked :
      (m : Manifest) (drift : Option DriftReference) (models verified : List VerifiedModel)
      → verify_drift f dataset directory m ≡ passed drift
      → check_versions drift models ≡ passed verified
      → (verified ≡ models)
        × ((is_null m.drift_reference ≡ true) ⊎ IsReferenced f dataset directory m models)
  unfolding verify_drift check_versions
  verify_drift-checked m drift models verified e c = (
    check_versions-same drift models verified c,
    elim (Bool-cases (is_null m.drift_reference)) [
      | inl absent ↦ inl absent
      | inr given ↦ inr (verify_drift-IsReferenced m drift models verified given e c)
    ],
  )

-- A bundle that `verify_bundle` lets pass, with fixtures rejected, is bound by its checksums: the
-- manifest, the report, every model's two files and the drift reference, if there is one, are there,
-- have the checksums of the manifest and come from the dataset, none from a fixture; there is a model
-- for each of the two targets; and a drift reference is made for the versions that were verified.
pub verify_bundle-IsVerified :
    (f : Formats) (dataset : Text) (rows : ℕ) (directory : Directory) (models : List VerifiedModel)
    → verify_bundle f dataset rows true directory ≡ passed models
    → IsVerified f dataset rows directory models
unfolding verify_bundle
verify_bundle-IsVerified f dataset rows directory models e =
    let (manifest, l, e1) = >>=-passed (load_json f.manifest manifest_name directory) _ models e in
    let schema : value_eq manifest.json.schema_version canonical_schema ≡ true = ground arith in
    let e2 = rw schema at e1 in
    let (report, r, e3) =
      >>=-passed (verify_report f dataset rows true directory manifest.json) _ models e2 in
    let (drift, d, e4) = >>=-passed (verify_drift f dataset directory manifest.json) _ models e3 in
    let (entries, m, e5) = >>=-passed (models_of manifest.json) _ models e4 in
    let (verified, v, e6) =
      >>=-passed (verify_models f dataset true directory entries) _ models e5 in
    let (listed, detectors, classifiers) = models_of-passed manifest.json entries m in
    let (same, referenced) =
      verify_drift-checked f dataset directory manifest.json drift verified models d e6 in
    let bound = verify_models-AreBound f dataset directory entries verified v in
    record {
      manifest = manifest;
      entries = entries;
      there = load_json-File f.manifest manifest_name directory manifest l;
      schema = value_eq-text manifest.json.schema_version (codes "rt-iot2022-v1") schema;
      reported = verify_report-IsReported f dataset directory rows manifest.json report r;
      listed = listed;
      detectors = detectors;
      classifiers = classifiers;
      bound = subst (λ xs. AreBound f dataset directory entries xs) (sym same) bound;
      referenced =
          subst
            (λ xs.
              (is_null manifest.json.drift_reference ≡ true)
              ⊎ IsReferenced f dataset directory manifest.json xs)
            (sym same) referenced;
    }
