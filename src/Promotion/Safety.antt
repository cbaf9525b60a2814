-- ===== src/Promotion/Safety.antt =====
-- machine-learning/src/iot_ids_ml/promotion.py: what is in production after `promote_bundle`, however
-- its calls on the file system end.
use intrusion_detect.Common.{
  ℕ, ◌≡◌, refl, ◌⊎◌, inl, inr, Bool, true, false, Option, none, some, List, [], Text, Bool-cases,
}
use intrusion_detect.Promotion.{
  Bytes, Directory, Formats, Manifest, Checked, refused, passed, Loaded, load_json, manifest_name,
  VerifiedModel, verify_bundle,
}
use intrusion_detect.Promotion.Swap.{
  Removal, removed, stuck, Faults, Disk, Outcome, promoted, raised, at_end, copy_all, names_of,
  swap_in, drop_backup, move_old, exchange, exchange_verified, exchange_copied, attempt, restore,
  clean_up, finish, promote_checked, promote_bundle,
}

-- A verified bundle is in production.
pub record IsServed (f : Formats) (dataset : Text) (rows : ℕ) (after : Disk) : Type 0 where
  pub files : Directory
  pub models : List VerifiedModel
  pub there : after.destination ≡ some files
  pub verified : verify_bundle f dataset rows true files ≡ passed models

-- The exchange and its undoing have both raised, and the old directory is the backup.
pub record IsStranded (faults : Faults) (old : Option Directory) (after : Disk) : Type 0 where
  pub swap : faults.swap_raises ≡ true
  pub restoring : faults.restore_raises ≡ true
  pub gone : after.destination ≡ none
  pub kept : after.backup ≡ old

-- A promotion that returns has left a verified bundle in production and nothing beside it; one that
-- raises has left the old directory, or a verified bundle, or is stranded.
abbrev pub Ends :
    Formats
    → Text
    → ℕ
    → Faults
    → Option Directory
    → Checked (List VerifiedModel)
    → Disk × Outcome
    → Type 0
Ends f dataset rows faults old source (after, promoted models) =
    IsServed f dataset rows after
    × (after.backup ≡ none)
    × (after.staging ≡ none)
    × (source ≡ passed models)
Ends f dataset rows faults old source (after, raised) =
    (after.destination ≡ old) ⊎ (IsServed f dataset rows after ⊎ IsStranded faults old after)

abbrev faults_of :
    Bool → (Text → Bytes → Option Bytes) → Removal → Bool → Bool → Removal → Bool → Removal → Faults
faults_of mk copy r1 m s r2 rs r3 = record {
  mkdtemp_raises = mk;
  copy = copy;
  remove_old_backup = r1;
  move_raises = m;
  swap_raises = s;
  remove_backup = r2;
  restore_raises = rs;
  remove_staging = r3;
}

abbrev disk_of : Option Directory → Option Directory → Directory → Disk
disk_of d b files = record { destination = d; backup = b; staging = some files }

module _ (f : Formats) (dataset : Text) (rows : ℕ) (models : List VerifiedModel) where
  -- Nothing was moved.
  unmoved-Ends :
      (faults : Faults) (r : Removal) (d b : Option Directory) (files : Directory)
      → faults.remove_staging ≡ r
      → Ends f dataset rows faults d
          (passed models)
          (finish faults models (at_end (disk_of d b files) false false))
  unfolding finish restore clean_up
  unmoved-Ends faults removed d b files e = simp e (inl refl)
  unmoved-Ends faults (stuck left) d b files e = simp e (inl refl)

  -- The old directory was moved, and the new one did not come.
  moved-Ends :
      (faults : Faults) (rs : Bool) (r : Removal) (old files : Directory)
      → faults.swap_raises ≡ true
      → faults.restore_raises ≡ rs
      → faults.remove_staging ≡ r
      → Ends f dataset rows faults
          (some old)
          (passed models)
          (finish faults models (at_end (disk_of none (some old) files) true false))
  unfolding finish restore clean_up
  moved-Ends faults true removed old files s e r =
      simp (e, r) (inr (inr (record { swap = s; restoring = e; gone = refl; kept = refl })))
  moved-Ends faults true (stuck left) old files s e r =
      simp (e, r) (inr (inr (record { swap = s; restoring = e; gone = refl; kept = refl })))
  moved-Ends faults false removed old files s e r = simp (e, r) (inl refl)
  moved-Ends faults false (stuck left) old files s e r = simp (e, r) (inl refl)

  module _ (files : Directory) (verified_models : List VerifiedModel) where
    -- The new directory is in production.
    served-Ends :
        (faults : Faults) (moved : Bool) (r : Removal) (old b : Option Directory)
        → verify_bundle f dataset rows true files ≡ passed verified_models
        → faults.remove_backup ≡ r
        → (moved ≡ false → b ≡ none)
        → Ends f dataset rows faults old (passed models) (
            finish faults models (
              drop_backup faults moved
                (record { destination = some files; backup = b; staging = none })))
    unfolding finish restore clean_up drop_backup
    served-Ends faults false r old b v e fresh = (
      record { files = files; models = verified_models; there = refl; verified = v },
      fresh refl,
      refl,
      refl,
    )
    served-Ends faults true removed old b v e fresh = rw e (
      record { files = files; models = verified_models; there = refl; verified = v },
      refl,
      refl,
      refl,
    )
    served-Ends faults true (stuck left) old b v e fresh =
        rw e (
          inr
            (inl (record { files = files; models = verified_models; there = refl; verified = v })))

    swap_in-Ends :
        (faults : Faults) (s : Bool) (d : Option Directory)
        → verify_bundle f dataset rows true files ≡ passed verified_models
        → faults.swap_raises ≡ s
        → Ends f dataset rows faults d
            (passed models)
            (finish faults models (move_old faults (disk_of d none files) d))
    unfolding swap_in
    swap_in-Ends faults true none v e =
        simp e (unmoved-Ends faults faults.remove_staging none none files refl)
    swap_in-Ends faults false none v e =
        simp e (served-Ends faults false faults.remove_backup none none v refl (λ h. refl))
    swap_in-Ends faults s (some old) v e = elim (Bool-cases faults.move_raises) [
      | inl m ↦ simp m (unmoved-Ends faults faults.remove_staging (some old) none files refl)
      | inr m ↦ elim (Bool-cases faults.swap_raises) [
        | inl t ↦
            simp (m, t)
              (moved-Ends faults faults.restore_raises faults.remove_staging old files t refl refl)
        | inr t ↦
            simp (m, t)
              (served-Ends faults true faults.remove_backup (some old) (some old) v refl (λ h. cc))
      ]
    ]

    exchange-Ends :
        (faults : Faults) (r : Removal) (d b : Option Directory)
        → verify_bundle f dataset rows true files ≡ passed verified_models
        → faults.remove_old_backup ≡ r
        → Ends f dataset rows faults d
            (passed models)
            (finish faults models (exchange faults (disk_of d b files)))
    unfolding exchange
    exchange-Ends faults r d none v e = swap_in-Ends faults faults.swap_raises d v refl
    exchange-Ends faults removed d (some stale) v e =
        simp e (swap_in-Ends faults faults.swap_raises d v refl)
    exchange-Ends faults (stuck left) d (some stale) v e =
        simp e (unmoved-Ends faults faults.remove_staging d (some left) files refl)

  verified-Ends :
      (faults : Faults) (d b : Option Directory) (files : Directory)
      (checked : Checked (List VerifiedModel))
      → verify_bundle f dataset rows true files ≡ checked
      → Ends f dataset rows faults d
          (passed models)
          (finish faults models (exchange_verified faults (disk_of d b files) checked))
  verified-Ends faults d b files (refused r) e =
      unmoved-Ends faults faults.remove_staging d b files refl
  verified-Ends faults d b files (passed ms) e =
      exchange-Ends files ms faults faults.remove_old_backup d b e refl

  copied-Ends :
      (faults : Faults) (disk : Disk) (arrived : Directory × Bool)
      → Ends f dataset rows faults disk.destination
          (passed models)
          (finish faults models (exchange_copied f dataset rows faults disk arrived))
  copied-Ends faults disk (files, false) =
      unmoved-Ends faults faults.remove_staging disk.destination disk.backup files refl
  copied-Ends faults disk (files, true) =
      verified-Ends faults disk.destination disk.backup files
        (verify_bundle f dataset rows true files) refl

  attempt-Ends :
      (faults : Faults) (source : Directory) (disk : Disk) (manifest : Checked (Loaded Manifest))
      → Ends f dataset rows faults disk.destination
          (passed models)
          (finish faults models (attempt f dataset rows faults source disk manifest))
  unfolding attempt
  attempt-Ends faults source disk (refused r) =
      unmoved-Ends faults faults.remove_staging disk.destination disk.backup [] refl
  attempt-Ends faults source disk (passed manifest) =
      copied-Ends faults disk (copy_all faults.copy source (names_of f manifest.json) [])

promote_checked-Ends :
    (f : Formats) (dataset : Text) (rows : ℕ) (faults : Faults) (source : Directory) (disk : Disk)
    (checked : Checked (List VerifiedModel))
    → Ends f dataset rows faults disk.destination checked
        (promote_checked f dataset rows faults source disk checked)
promote_checked-Ends f dataset rows faults source disk (refused r) = inl refl
promote_checked-Ends f dataset rows faults source disk (passed models) =
    elim (Bool-cases faults.mkdtemp_raises) [
      | inl e ↦ simp e (inl refl)
      | inr e ↦ simp e (
          attempt-Ends f dataset rows models faults source disk
            (load_json f.manifest manifest_name source))
    ]

-- However the calls on the file system end, a promotion that returns was given a bundle that passes
-- `verify_bundle`, and has left such a bundle in production, no backup and no temporary directory; and
-- one that raises has left in production what was there before, or a bundle that passes
-- `verify_bundle`, unless both the exchange and its undoing raised: then the old directory is the
-- backup.
pub promote_bundle_lem :
    (f : Formats) (dataset : Text) (rows : ℕ) (faults : Faults) (source : Directory) (disk : Disk)
    → Ends f dataset rows faults disk.destination
        (verify_bundle f dataset rows true source)
        (promote_bundle f dataset rows faults source disk)
unfolding promote_bundle
promote_bundle_lem f dataset rows faults source disk =
    promote_checked-Ends f dataset rows faults source disk
      (verify_bundle f dataset rows true source)
