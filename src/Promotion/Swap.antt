-- ===== src/Promotion/Swap.antt =====
-- `promote_bundle` of machine-learning/src/iot_ids_ml/promotion.py: the copy, and the exchange of the
-- directories.
--
-- Each call on the file system may raise as `Faults` say. `os.replace` of a directory happens as a
-- whole or not at all; `shutil.rmtree` that raises leaves some directory. No other process touches
-- these directories.
use intrusion_detect.Common.{
  ℕ, Bool, true, false, Option, none, some, List, [], ◌∷◌, ◌++◌, Text, text_eq, if◌then◌else◌, any,
}
use intrusion_detect.Promotion.{
  Value, missing, null, text, other, Entry, Manifest, Bytes, Directory, Formats, Checked, refused,
  passed, Loaded, content, load_json, name_of, manifest_name, VerifiedModel, verify_bundle,
}

-- What becomes of a directory that is removed.
pub data Removal : Type 0 where
  removed : Removal
  stuck : Directory → Removal

-- What the operating system does: `copy` gives the content that arrives, if the call does not raise.
pub record Faults : Type 0 where
  pub mkdtemp_raises : Bool
  pub copy : Text → Bytes → Option Bytes
  pub remove_old_backup : Removal
  pub move_raises : Bool
  pub swap_raises : Bool
  pub remove_backup : Removal
  pub restore_raises : Bool
  pub remove_staging : Removal

-- The directory in production, its sibling `.…-previous`, and the temporary one.
pub record Disk : Type 0 where
  pub destination : Option Directory
  pub backup : Option Directory
  pub staging : Option Directory

pub data Outcome : Type 0 where
  promoted : List VerifiedModel → Outcome
  raised : Outcome

-- A block of the code: its end, and whether `moved_old` was set.
pub record Attempt : Type 0 where
  pub disk : Disk
  pub moved_old : Bool
  pub done : Bool

abbrev pub add_name : Text → List Text → List Text
add_name name names = if any (λ n. text_eq n name) names then names else names ++ name ∷ []

-- The truth of a value.
abbrev pub is_true : Formats → Value → Bool
is_true f missing = false
is_true f null = false
is_true f (text []) = false
is_true f (text (c ∷ t)) = true
is_true f (other n) = f.is_true n

abbrev pub model_names : Formats → List Entry → List Text → List Text
model_names f [] names = names
model_names f (e ∷ entries) names =
    model_names f entries (add_name (name_of f e.metadata) (add_name (name_of f e.artifact) names))

abbrev pub listed : Option (List Entry) → List Entry
listed none = []
listed (some entries) = entries

-- The set of the names to copy; the order in which they are copied makes no difference.
unfoldable pub names_of : Formats → Manifest → List Text
names_of f m =
    let base = add_name (name_of f m.evaluation_report) (manifest_name ∷ []) in
    model_names f (listed m.models)
      (if is_true f m.drift_reference then add_name (name_of f m.drift_reference) base else base)

abbrev pub copied : (Text → Bytes → Option Bytes) → Text → Option Bytes → Option Bytes
copied copy name none = none
copied copy name (some bytes) = copy name bytes

-- The files that arrived, and whether a copy raised.
unfoldable pub copy_all :
    (Text → Bytes → Option Bytes) → Directory → List Text → Directory → Directory × Bool
copy_all copy source [] staging = (staging, true)
copy_all copy source (name ∷ names) staging = elim (copied copy name (content name source)) [
  | none ↦ (staging, false)
  | some bytes ↦ copy_all copy source names (staging ++ (name, bytes) ∷ [])
]

abbrev pub at_end : Disk → Bool → Bool → Attempt
at_end disk moved_old done = record { disk = disk; moved_old = moved_old; done = done }

-- `if moved_old: shutil.rmtree(backup)`
unfoldable pub drop_backup : Faults → Bool → Disk → Attempt
drop_backup faults false disk = at_end disk false true
drop_backup faults true disk = elim faults.remove_backup [
  | removed ↦ at_end (record disk { backup = none }) true true
  | stuck left ↦ at_end (record disk { backup = some left }) true false
]

-- `os.replace(staging, destination)`
unfoldable pub swap_in : Faults → Bool → Disk → Attempt
unfolding drop_backup
swap_in faults moved_old disk =
    if faults.swap_raises
    then at_end disk moved_old false
    else drop_backup faults moved_old (record disk { destination = disk.staging; staging = none })

abbrev pub move_old : Faults → Disk → Option Directory → Attempt
move_old faults disk none = swap_in faults false disk
move_old faults disk (some old) =
    if faults.move_raises
    then at_end disk false false
    else swap_in faults true (record disk { destination = none; backup = some old })

-- `if backup.exists(): shutil.rmtree(backup)`, and what follows.
unfoldable pub exchange : Faults → Disk → Attempt
unfolding swap_in
exchange faults disk = elim disk.backup [
  | none ↦ move_old faults disk disk.destination
  | some stale ↦ elim faults.remove_old_backup [
    | removed ↦ move_old faults (record disk { backup = none }) disk.destination
    | stuck left ↦ at_end (record disk { backup = some left }) false false
  ]
]

abbrev pub exchange_verified : {A : Type 0} → Faults → Disk → Checked A → Attempt
exchange_verified faults disk (refused r) = at_end disk false false
exchange_verified faults disk (passed models) = exchange faults disk

abbrev pub with_staging : Directory → Disk → Disk
with_staging files disk = record disk { staging = some files }

abbrev pub exchange_copied : Formats → Text → ℕ → Faults → Disk → Directory × Bool → Attempt
exchange_copied f dataset rows faults disk (files, false) =
    at_end (with_staging files disk) false false
exchange_copied f dataset rows faults disk (files, true) =
    exchange_verified faults (with_staging files disk) (verify_bundle f dataset rows true files)

-- The block of `try`.
unfoldable pub attempt :
    Formats → Text → ℕ → Faults → Directory → Disk → Checked (Loaded Manifest) → Attempt
unfolding copy_all names_of exchange
attempt f dataset rows faults source disk (refused r) = at_end (with_staging [] disk) false false
attempt f dataset rows faults source disk (passed manifest) =
    exchange_copied f dataset rows faults disk
      (copy_all faults.copy source (names_of f manifest.json) [])

-- `except`: the old directory comes back.
unfoldable pub restore : Faults → Bool → Disk → Disk
restore faults false disk = disk
restore faults true disk = elim disk.destination [
  | some new ↦ disk
  | none ↦ elim disk.backup [
    | none ↦ disk
    | some old ↦
        if faults.restore_raises
        then disk
        else record disk { destination = some old; backup = none }
  ]
]

-- `finally`: the disk, and whether the block raised.
unfoldable pub clean_up : Faults → Disk → Disk × Bool
clean_up faults disk = elim disk.staging [
  | none ↦ (disk, false)
  | some files ↦ elim faults.remove_staging [
    | removed ↦ (record disk { staging = none }, false)
    | stuck left ↦ (record disk { staging = some left }, true)
  ]
]

unfoldable pub finish : Faults → List VerifiedModel → Attempt → Disk × Outcome
unfolding restore clean_up
finish faults models a =
    let cleaned = clean_up faults (if a.done then a.disk else restore faults a.moved_old a.disk) in
    (cleaned.0, if a.done then (if cleaned.1 then raised else promoted models) else raised)

abbrev pub promote_checked :
    Formats → Text → ℕ → Faults → Directory → Disk → Checked (List VerifiedModel) → Disk × Outcome
promote_checked f dataset rows faults source disk (refused r) = (disk, raised)
promote_checked f dataset rows faults source disk (passed models) =
    if faults.mkdtemp_raises
    then (disk, raised)
    else finish faults models
        (attempt f dataset rows faults source disk (load_json f.manifest manifest_name source))

unfoldable pub promote_bundle : Formats → Text → ℕ → Faults → Directory → Disk → Disk × Outcome
unfolding verify_bundle load_json attempt finish
promote_bundle f dataset rows faults source disk =
    promote_checked f dataset rows faults source disk (verify_bundle f dataset rows true source)
