-- ===== src/Promotion/Verified.antt =====
-- What `verify_bundle` of machine-learning/src/iot_ids_ml/promotion.py has seen when it returns.
use mathlib.Core.Path.{subst}
use intrusion_detect.Common.{
  ◌≡◌, refl, sym, ap, ◌∙◌, Bool, true, false, Option, none, some, List, [], ◌∷◌, Text, codes,
  text_eq_iff, arith,
}
use intrusion_detect.Promotion.{
  Value, missing, null, text, other, value_eq, Entry, Metadata, Bytes, Directory, Formats, Refusal,
  Checked, refused, passed, ◌>>=◌, require, content, Loaded, parsed, parse_file, load_json, name_of,
  VerifiedModel, checks, present, file, verify_model, verify_models,
}

pub >>=-passed :
    {A B : Type 0} (first : Checked A) (next : A → Checked B) (b : B)
    → (first >>= next) ≡ passed b
    → (a : A) × (first ≡ passed a) × (next a ≡ passed b)
>>=-passed (refused r) next b e = absurd cc
>>=-passed (passed a) next b e = (a, refl, e)

pub require-passed :
    {B : Type 0} (test : Bool) (r : Refusal) (rest : Checked B) (b : B)
    → (require test r >>= λ _. rest) ≡ passed b
    → (test ≡ true) × (rest ≡ passed b)
require-passed true r rest b e = (refl, e)
require-passed false r rest b e = absurd cc

-- A value that was compared with a text is this text.
pub value_eq-text : (v : Value) (t : Text) → value_eq v (text t) ≡ true → v ≡ text t
value_eq-text missing t e = absurd cc
value_eq-text null t e = absurd cc
value_eq-text (text s) t e = ap_text s t ((text_eq_iff s t).0 e)
  where
    ap_text : (s t : Text) → s ≡ t → text s ≡ text t
    ap_text s t h = cc
value_eq-text (other n) t e = absurd cc

pub value_eq_text : (v : Value) (t : Text) → value_eq (text t) v ≡ true → v ≡ text t
value_eq_text missing t e = absurd cc
value_eq_text null t e = absurd cc
value_eq_text (text s) t e = let same : t ≡ s = (text_eq_iff t s).0 e in cc
value_eq_text (other n) t e = absurd cc

-- A file of the directory, and what it holds.
pub record File {A : Type 0} (loads : Bytes → Option A) (directory : Directory) (name : Text)
    (loaded : Loaded A) : Type 0 where
  pub there : content name directory ≡ some loaded.bytes
  pub parse : loads loaded.bytes ≡ some loaded.json

parsed-File :
    {A : Type 0} (bytes : Bytes) (o : Option A) (l : Loaded A)
    → parsed bytes o ≡ passed l
    → (l.bytes ≡ bytes) × (o ≡ some l.json)
parsed-File bytes none l e = absurd cc
parsed-File bytes (some json) l e =
    let same : record { bytes = bytes; json = json } ≡ l = cc in (ground arith, ground arith)

pub load_json-File :
    {A : Type 0} (loads : Bytes → Option A) (name : Text) (directory : Directory) (l : Loaded A)
    → load_json loads name directory ≡ passed l
    → File loads directory name l
unfolding load_json
load_json-File loads name directory l e = loaded (content name directory) refl e
  where
    loaded :
        (o : Option Bytes)
        → content name directory ≡ o
        → parse_file loads o ≡ passed l
        → File loads directory name l
    loaded none c e = absurd cc
    loaded (some bytes) c e =
        let (same, json) = parsed-File bytes (loads bytes) l e in
        record { there = c ∙ ap some (sym same); parse = ap loads same ∙ json }

-- A model of the manifest, and what was reported of it: its two files are there with the checksums of
-- the manifest, they belong together, and they come from the dataset.
pub record IsBound (f : Formats) (dataset : Text) (directory : Directory) (entry : Entry)
    (model : VerifiedModel) : Type 0 where
  pub artifact : Bytes
  pub metadata : Loaded Metadata
  pub artifact_there : content (name_of f entry.artifact) directory ≡ some artifact
  pub metadata_there : File f.metadata directory (name_of f entry.metadata) metadata
  pub artifact_sum : entry.artifact_sha256 ≡ text (f.sha256 artifact)
  pub metadata_sum : entry.metadata_sha256 ≡ text (f.sha256 metadata.bytes)
  pub together : metadata.json.artifact_sha256 ≡ text (f.sha256 artifact)
  pub trained_on : metadata.json.dataset_sha256 ≡ text dataset
  pub real : value_eq metadata.json.dataset_role (text (codes "fixture")) ≡ false
  pub version : model.model_version ≡ entry.model_version
  pub target : model.target ≡ entry.target
  pub reported : model.artifact_sha256 ≡ f.sha256 artifact

abbrev pub AreBound : Formats → Text → Directory → List Entry → List VerifiedModel → Type 0
AreBound f dataset directory [] [] = Unit
AreBound f dataset directory [] (model ∷ models) = ⊥
AreBound f dataset directory (entry ∷ entries) [] = ⊥
AreBound f dataset directory (entry ∷ entries) (model ∷ models) =
    IsBound f dataset directory entry model × AreBound f dataset directory entries models

file-passed :
    (name : Text) (directory : Directory) (bytes : Bytes)
    → file name directory ≡ passed bytes
    → content name directory ≡ some bytes
file-passed name directory bytes e = ground arith

present-passed : (v w : Value) → present v ≡ passed w → w ≡ v
present-passed missing w e = absurd cc
present-passed null w e = cc
present-passed (text t) w e = cc
present-passed (other n) w e = cc

module _ (f : Formats) (dataset : Text) (directory : Directory) where
  verify_model-IsBound :
      (entry : Entry) (model : VerifiedModel)
      → verify_model f dataset true directory entry ≡ passed model
      → IsBound f dataset directory entry model
  unfolding verify_model checks
  verify_model-IsBound entry model e =
      let (artifact, a, e1) = >>=-passed (file (name_of f entry.artifact) directory) _ model e in
      let (again, b, e2) = >>=-passed (file (name_of f entry.metadata) directory) _ model e1 in
      let (metadata, m, e3) =
        >>=-passed (load_json f.metadata (name_of f entry.metadata) directory) _ model e2 in
      let (tests, e4) =
        require-passed (checks f dataset true entry metadata artifact) _ _ model e3 in
      let (version, v, e5) = >>=-passed (present entry.model_version) _ model e4 in
      let same = present-passed entry.model_version version v in
      record {
        artifact = artifact;
        metadata = metadata;
        artifact_there = file-passed (name_of f entry.artifact) directory artifact a;
        metadata_there = load_json-File f.metadata (name_of f entry.metadata) directory metadata m;
        artifact_sum = value_eq_text entry.artifact_sha256 (f.sha256 artifact) (ground arith);
        metadata_sum = value_eq_text entry.metadata_sha256 (f.sha256 metadata.bytes) (ground arith);
        together = value_eq_text metadata.json.artifact_sha256 (f.sha256 artifact) (ground arith);
        trained_on = value_eq-text metadata.json.dataset_sha256 dataset (ground arith);
        real = ground arith;
        version = ground arith;
        target = ground arith;
        reported = ground arith;
      }

  pub verify_models-AreBound :
      (entries : List Entry) (models : List VerifiedModel)
      → verify_models f dataset true directory entries ≡ passed models
      → AreBound f dataset directory entries models
  unfolding verify_models
  verify_models-AreBound [] [] e = tt
  verify_models-AreBound [] (model ∷ models) e = absurd cc
  verify_models-AreBound (entry ∷ entries) models e =
      let (model, m, e1) = >>=-passed (verify_model f dataset true directory entry) _ models e in
      let (rest, r, e2) = >>=-passed (verify_models f dataset true directory entries) _ models e1 in
      both models model rest e2 (verify_model-IsBound entry model m)
        (verify_models-AreBound entries rest r)
    where
      both :
          (models : List VerifiedModel) (model : VerifiedModel) (rest : List VerifiedModel)
          → passed (model ∷ rest) ≡ passed models
          → IsBound f dataset directory entry model
          → AreBound f dataset directory entries rest
          → AreBound f dataset directory (entry ∷ entries) models
      both [] model rest e b bs = absurd cc
      both (m ∷ ms) model rest e b bs =
          let head_e : model ≡ m = cc in
          let tail_e : rest ≡ ms = cc in
          (
            subst (λ x. IsBound f dataset directory entry x) head_e b,
            subst (λ xs. AreBound f dataset directory entries xs) tail_e bs,
          )
