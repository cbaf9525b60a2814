-- ===== src/Promotion/Listing.antt =====
-- `verify_bundle` of machine-learning/src/iot_ids_ml/promotion.py: the models that a manifest lists.
use intrusion_detect.Common.{
  ℕ, ◌≡◌, refl, sym, ap, ◌∙◌, inl, inr, Bool, true, false, ◌&&◌, if◌then◌else◌, Option, none, some,
  List, ==_iff, arith, Bool-cases,
}
use intrusion_detect.Promotion.{
  value_eq, Entry, Manifest, DriftReference, other_targets, stale_drift, refused, passed, binary,
  multiclass, has_target, only_known, models_of, VerifiedModel, version_of, check_versions,
  row_count_eq,
}
use intrusion_detect.Promotion.Verified.{require-passed}

and_left : (a b : Bool) → (a && b) ≡ true → a ≡ true
and_left a b e = ground arith

and_right : (a b : Bool) → (a && b) ≡ true → b ≡ true
and_right a b e = ground arith

passed_eq : (es entries : List Entry) → passed es ≡ passed entries → es ≡ entries
passed_eq es entries e = cc

refused_ne :
    (es entries : List Entry) (b : Bool)
    → b ≡ false
    → (if b then passed es else refused other_targets) ≡ passed entries
    → ⊥
refused_ne es entries true h e = cc
refused_ne es entries false h e = cc

pub row_count_eq-true : (o : Option ℕ) (rows : ℕ) → row_count_eq o rows ≡ true → o ≡ some rows
row_count_eq-true none rows e = absurd cc
row_count_eq-true (some n) rows e = ap some ((==_iff n rows).0 e)

both_known :
    (es entries : List Entry)
    → (if (has_target binary es && has_target multiclass es) && only_known es
        then passed es
        else refused other_targets)
      ≡ passed entries
    → (has_target binary entries ≡ true) × (has_target multiclass entries ≡ true) × (es ≡ entries)
both_known es entries e =
    elim (Bool-cases ((has_target binary es && has_target multiclass es) && only_known es)) [
      | inl known ↦
          let same : es ≡ entries = passed_eq es entries (rw known at e) in
          let both = and_left (has_target binary es && has_target multiclass es) _ known in
          let d : has_target binary es ≡ true = and_left _ (has_target multiclass es) both in
          let c : has_target multiclass es ≡ true = and_right (has_target binary es) _ both in
          (ap (has_target binary) (sym same) ∙ d, ap (has_target multiclass) (sym same) ∙ c, same)
      | inr unknown ↦ absurd (refused_ne es entries _ unknown e)
    ]

pub models_of-passed :
    (m : Manifest) (entries : List Entry)
    → models_of m ≡ passed entries
    → (m.models ≡ some entries)
      × (has_target binary entries ≡ true)
      × (has_target multiclass entries ≡ true)
unfolding models_of
models_of-passed m entries e = listed m.models refl e
  where
    listed :
        (o : Option (List Entry))
        → m.models ≡ o
        → (elim o [
          | none ↦ refused other_targets
          | some es ↦
              if (has_target binary es && has_target multiclass es) && only_known es
              then passed es
              else refused other_targets
        ])
          ≡ passed entries
        → (m.models ≡ some entries)
          × (has_target binary entries ≡ true)
          × (has_target multiclass entries ≡ true)
    listed none n e = absurd cc
    listed (some es) s e =
        let test = both_known es entries e in (s ∙ ap some test.2, test.0, test.1)

pub versions_checked :
    (drift : DriftReference) (models verified : List VerifiedModel)
    → check_versions (some drift) models ≡ passed verified
    → (value_eq drift.detector_model_version (version_of binary models) ≡ true)
      × (value_eq drift.classifier_model_version (version_of multiclass models) ≡ true)
unfolding check_versions
versions_checked drift models verified c =
    let d = value_eq drift.detector_model_version (version_of binary models) in
    let k = value_eq drift.classifier_model_version (version_of multiclass models) in
    let (both, c1) = require-passed (d && k) stale_drift (passed models) verified c in
    (and_left d k both, and_right d k both)

pub check_versions-same :
    (drift : Option DriftReference) (models verified : List VerifiedModel)
    → check_versions drift models ≡ passed verified
    → verified ≡ models
unfolding check_versions
check_versions-same none models verified c = cc
check_versions-same (some drift) models verified c =
    let (made, c1) =
      require-passed
        (value_eq drift.detector_model_version (version_of binary models)
          && value_eq drift.classifier_model_version (version_of multiclass models))
        stale_drift (passed models) verified c in
    cc
