-- ===== src/Corpus.antt =====
-- machine-learning/src/iot_ids_ml/native_corpus.py: the capture sessions of a corpus, and their splits.
--
-- `str` of a value has been taken where the code takes it; ids and bounds of sessions are texts. The
-- checksum and `bytes.fromhex` are parameters. `int(count * 0.60)` and `int(count * 0.20)` are the
-- exact quotients, as they are for counts below 2 ^ 50. The code goes through the families in sorted
-- order, which decides only which refusal comes first and the order of the entries.
pub mod Shares
pub mod Lookups
pub mod Checks
pub mod Families
pub mod Splits
use intrusion_detect.Common.{
  ℕ, zero, suc, ◌+◌, ◌-◌, ◌*◌, ◌/◌, Bool, true, false, not, ◌&&◌, ◌||◌, Option, none, some, List,
  [], ◌∷◌, Text, codes, text_eq, ltb, leb, ◌==◌, if◌then◌else◌, keep, any, length,
}

pub record Session : Type 0 where
  pub session_id : Text
  pub collection_run_id : Text
  pub traffic_family : Text
  pub capture_sha256 : Text
  pub started_at : Text
  pub ended_at : Text

-- An item of `sessions`: without a required key, with a checksum that is no text, or else.
pub data Item : Type 0 where
  incomplete : Item
  undigested : (session_id : Text) → Item
  complete : Session → Item

-- What is read of the manifest; `sessions` if it is a list.
pub record CaptureManifest : Type 0 where
  pub schema_matches : Bool
  pub egress_denied : Bool
  pub allowlisted_targets : Bool
  pub fixed_duration_seconds : Bool
  pub rate_limit_per_second : Bool
  pub sessions : Option (List Item)

pub data CorpusError : Type 0 where
  other_schema egress no_targets no_limits no_sessions missing_provenance : CorpusError
  duplicate_session no_digest duplicate_capture bad_bounds : CorpusError
  no_normal other_families few_sessions few_runs : CorpusError

pub data Checked (A : Type 0) : Type 0 where
  refused : CorpusError → Checked A
  passed : A → Checked A

infixl 5 ◌>>=◌ ◌>>◌
abbrev pub ◌>>=◌ : {A B : Type 0} → Checked A → (A → Checked B) → Checked B
refused e >>= next = refused e
passed a >>= next = next a

abbrev pub ◌>>◌ : {B : Type 0} → Checked (Unit {0}) → Checked B → Checked B
check >> rest = check >>= λ _. rest

abbrev pub require : Bool → CorpusError → Checked (Unit {0})
require true e = passed tt
require false e = refused e

-- `a <= b` of texts.
abbrev pub text_leb : Text → Text → Bool
text_leb [] t = true
text_leb (a ∷ s) [] = false
text_leb (a ∷ s) (b ∷ t) = ltb a b || (a == b && text_leb s t)

abbrev pub text_mem : Text → List Text → Bool
text_mem t ts = any (λ u. text_eq u t) ts

-- `_require_digest`
unfoldable pub is_digest : (Text → Bool) → Text → Bool
is_digest is_hex t = length t == 64 && is_hex t

unfoldable pub check_session : (Text → Bool) → List Text → List Text → Session → Checked (Unit {0})
unfolding is_digest
check_session is_hex seen_ids seen_captures s = do
  require (not (text_mem s.session_id seen_ids)) duplicate_session
  require (is_digest is_hex s.capture_sha256) no_digest
  require (not (text_mem s.capture_sha256 seen_captures)) duplicate_capture
  require (not (text_leb s.ended_at s.started_at)) bad_bounds

-- The loop over the sessions.
unfoldable pub check_sessions :
    (Text → Bool) → List Text → List Text → List Item → Checked (List Session)
unfolding check_session
check_sessions is_hex seen_ids seen_captures [] = passed []
check_sessions is_hex seen_ids seen_captures (incomplete ∷ items) = refused missing_provenance
check_sessions is_hex seen_ids seen_captures (undigested session_id ∷ items) =
    require (not (text_mem session_id seen_ids)) duplicate_session >> refused no_digest
check_sessions is_hex seen_ids seen_captures (complete s ∷ items) =
    check_session is_hex seen_ids seen_captures s >>= λ _.
    check_sessions is_hex (s.session_id ∷ seen_ids) (s.capture_sha256 ∷ seen_captures) items
    >>= λ sessions. passed (s ∷ sessions)

abbrev pub in_family : Text → Session → Bool
in_family family s = text_eq s.traffic_family family

-- `by_family[family]`
abbrev pub of_family : Text → List Session → List Session
of_family family sessions = keep (in_family family) sessions

-- The distinct values of a column.
unfoldable pub distinct : (Session → Text) → List Session → List Text
distinct column [] = []
distinct column (s ∷ sessions) =
    let rest = distinct column sessions in
    if any (λ t. text_eq (column t) (column s)) sessions then rest else column s ∷ rest

abbrev pub families_of : List Session → List Text
families_of sessions = distinct (λ s. s.traffic_family) sessions

abbrev pub normal : Text
normal = codes "normal"

unfoldable pub check_families : List Session → List Text → Checked (Unit {0})
unfolding distinct
check_families sessions [] = passed tt
check_families sessions (family ∷ families) = do
  require (leb 15 (length (of_family family sessions))) few_sessions
  require (leb 3 (length (distinct (λ s. s.collection_run_id) (of_family family sessions))))
      few_runs
  check_families sessions families

-- `set(by_family) - {"normal"}`
abbrev pub attack_families : List Text → List Text
attack_families families = keep (λ f. not (text_eq f normal)) families

abbrev pub listed : Option (List Item) → List Item
listed none = []
listed (some items) = items

unfoldable pub validate_capture_manifest : (Text → Bool) → CaptureManifest → Checked (List Session)
unfolding check_sessions check_families distinct
validate_capture_manifest is_hex m = do
  require m.schema_matches other_schema
  require m.egress_denied egress
  require m.allowlisted_targets no_targets
  require (m.fixed_duration_seconds && m.rate_limit_per_second) no_limits
  require (ltb 0 (length (listed m.sessions))) no_sessions
  sessions ← check_sessions is_hex [] [] (listed m.sessions)
  require (text_mem normal (families_of sessions)) no_normal
  require (length (attack_families (families_of sessions)) == 9) other_families
  check_families sessions (families_of sessions)
  passed sessions

pub data Split : Type 0 where
  train validation test : Split

abbrev pub split_eq : Split → Split → Bool
split_eq train train = true
split_eq validation validation = true
split_eq test test = true
split_eq _ _ = false

abbrev pub Assignments : Type 0
Assignments = List (Text × Split)

-- `assignments[key] = split`
unfoldable pub put_split : Text → Split → Assignments → Assignments
put_split key split [] = (key, split) ∷ []
put_split key split ((k, old) ∷ entries) =
    let rest = put_split key split entries in
    if text_eq k key then (key, split) ∷ entries else (k, old) ∷ rest

unfoldable pub lookup : Text → Assignments → Option Split
lookup key [] = none
lookup key ((k, split) ∷ entries) =
    let rest = lookup key entries in if text_eq k key then some split else rest

abbrev pub train_end : ℕ → ℕ
train_end count = 3 * count / 5

abbrev pub validation_end : ℕ → ℕ
validation_end count = train_end count + count / 5

abbrev pub split_at : ℕ → ℕ → ℕ → Split
split_at train_end validation_end index =
    if ltb index train_end then train else if ltb index validation_end then validation else test

-- The loop over the ordered sessions of a family.
unfoldable pub assign_from : ℕ → ℕ → ℕ → List Session → Assignments → Assignments
unfolding put_split
assign_from te ve index [] entries = entries
assign_from te ve index (s ∷ sessions) entries =
    assign_from te ve (suc index) sessions (put_split s.session_id (split_at te ve index) entries)

-- `digest` is the checksum of the list of the seed, the family, the id and the capture.
abbrev pub key_of : (Text → Text → Text → Text → Text) → Text → Text → Session → Text
key_of digest seed family s = digest seed family s.session_id s.capture_sha256

unfoldable pub insert_session : (Session → Text) → Session → List Session → List Session
insert_session key s [] = s ∷ []
insert_session key s (t ∷ sessions) =
    let rest = insert_session key s sessions in
    if text_leb (key s) (key t) then s ∷ t ∷ sessions else t ∷ rest

-- `sorted(values, key=...)`
unfoldable pub ordered : (Session → Text) → List Session → List Session
unfolding insert_session
ordered key [] = []
ordered key (s ∷ sessions) = insert_session key s (ordered key sessions)

unfoldable pub assign_family :
    (Text → Text → Text → Text → Text) → Text → List Session → Text → Assignments → Assignments
unfolding ordered assign_from
assign_family digest seed sessions family entries =
    let values = ordered (key_of digest seed family) (of_family family sessions) in
    assign_from (train_end (length values)) (validation_end (length values)) 0 values entries

unfoldable pub assign_families :
    (Text → Text → Text → Text → Text) → Text → List Session → List Text → Assignments → Assignments
unfolding assign_family
assign_families digest seed sessions [] entries = entries
assign_families digest seed sessions (family ∷ families) entries =
    assign_families digest seed sessions families
      (assign_family digest seed sessions family entries)

unfoldable pub assign_session_splits :
    (Text → Text → Text → Text → Text) → Text → List Session → Assignments
unfolding assign_families distinct
assign_session_splits digest seed sessions =
    assign_families digest seed sessions (families_of sessions) []
