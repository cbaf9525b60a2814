-- ===== src/Tests/Bundles.antt =====
-- The theorems of the promotion of model bundles at a concrete bundle.
use intrusion_detect.Common.{
  ◌≡◌, refl, true, false, none, some, List, [], ◌∷◌, Text, codes, text_eq, if◌then◌else◌,
}
use intrusion_detect.Promotion.{
  Value, missing, null, text, other, Entry, Manifest, Report, Metadata, Bytes, Directory, Formats,
  Checked, refused, passed, canonical_schema, binary, multiclass, VerifiedModel, verify_bundle,
}
use intrusion_detect.Promotion.Swap.{removed, Faults, Disk, raised, promote_bundle}
use intrusion_detect.Promotion.Bundles.{IsVerified, verify_bundle-IsVerified}
use intrusion_detect.Promotion.Safety.{Ends, promote_bundle_lem}

abbrev entry : Value → Text → Bytes → Text → Bytes → Entry
entry target artifact artifact_sum metadata metadata_sum = record {
  target = target;
  artifact = text artifact;
  metadata = text metadata;
  model_version = text (codes "v1");
  artifact_sha256 = text artifact_sum;
  metadata_sha256 = text metadata_sum;
}

abbrev manifest : Manifest
manifest = record {
  schema_version = canonical_schema;
  evaluation_report = text (codes "report");
  evaluation_report_sha256 = text (2 ∷ []);
  drift_reference = null;
  drift_reference_sha256 = missing;
  models = some (
      entry binary (codes "b") (3 ∷ []) (codes "b.json") (4 ∷ [])
      ∷ entry multiclass (codes "m") (5 ∷ []) (codes "m.json") (6 ∷ [])
      ∷ []);
}

abbrev report : Report
report = record {
  dataset_sha256 = text (codes "d");
  row_count = some 9;
  dataset_role = text (codes "source");
}

abbrev metadata : Value → Bytes → Metadata
metadata target artifact_sum = record {
  target = target;
  model_version = text (codes "v1");
  schema_version = canonical_schema;
  feature_order = other 1;
  dataset_sha256 = text (codes "d");
  artifact_sha256 = text artifact_sum;
  dataset_role = missing;
}

-- Contents that are their own checksums.
abbrev formats : Formats
formats = record {
  sha256 = λ bytes. bytes;
  manifest = λ bytes. some manifest;
  report = λ bytes. some report;
  metadata = λ bytes.
      some
        (if text_eq bytes (4 ∷ []) then metadata binary (3 ∷ []) else metadata multiclass (5 ∷ []));
  drift_reference = λ bytes. none;
  canonical_sha256 = λ bytes. bytes;
  str_other = λ n. [];
  is_true = λ n. true;
  feature_columns = 1;
}

abbrev bundle : Directory
bundle =
    (codes "manifest.json", 1 ∷ [])
    ∷ (codes "report", 2 ∷ [])
    ∷ (codes "b", 3 ∷ [])
    ∷ (codes "b.json", 4 ∷ [])
    ∷ (codes "m", 5 ∷ [])
    ∷ (codes "m.json", 6 ∷ [])
    ∷ []

abbrev models_of : Checked (List VerifiedModel) → List VerifiedModel
models_of (refused r) = []
models_of (passed models) = models

abbrev verified : List VerifiedModel
verified = models_of (verify_bundle formats (codes "d") 9 true bundle)

bundle_passes : verify_bundle formats (codes "d") 9 true bundle ≡ passed verified
unfolding verify_bundle
bundle_passes = refl

verify_bundle-IsVerified_example : IsVerified formats (codes "d") 9 bundle verified
verify_bundle-IsVerified_example =
    verify_bundle-IsVerified formats (codes "d") 9 bundle verified bundle_passes

-- A disk on which the exchange fails.
abbrev faults : Faults
faults = record {
  mkdtemp_raises = false;
  copy = λ name bytes. some bytes;
  remove_old_backup = removed;
  move_raises = false;
  swap_raises = true;
  remove_backup = removed;
  restore_raises = false;
  remove_staging = removed;
}

abbrev disk : Disk
disk = record {
  destination = some ((codes "manifest.json", 0 ∷ []) ∷ []);
  backup = none;
  staging = none;
}

promote_bundle_lem_example :
    Ends formats
      (codes "d")
      9
      faults
      disk.destination
      (verify_bundle formats (codes "d") 9 true bundle)
      (promote_bundle formats (codes "d") 9 faults bundle disk)
promote_bundle_lem_example = promote_bundle_lem formats (codes "d") 9 faults bundle disk

exchange_undone : promote_bundle formats (codes "d") 9 faults bundle disk ≡ (disk, raised)
unfolding promote_bundle
exchange_undone = refl

-- A directory in production that a crash left as the backup is lost when the next exchange fails.
crashed_then_failed :
    (promote_bundle formats
      (codes "d")
      9
      faults
      bundle
      (record { destination = none; backup = disk.destination; staging = none })).0
    ≡ record { destination = none; backup = none; staging = none }
unfolding promote_bundle
crashed_then_failed = refl
