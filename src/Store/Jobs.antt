-- ===== src/Store/Jobs.antt =====
-- The job table of backend/app/database/models.py under an UPDATE and an INSERT: which row a key
-- finds afterwards.
use mathlib.Core.Path.{subst}
use mathlib.Core.Option.{some-injective}
use intrusion_detect.Common.{
  true, false, ℕ, ◌≡◌, refl, ◌≢◌, Bool, true, false, none, some, List, [], ◌∷◌, ◌++◌, arith, ◌==◌,
  if◌then◌else◌, All, All-imp, keep, Bool, Bool-cases, ==_iff, ==-self, inl, inr,
}
use intrusion_detect.Store.{IngestionJob, job_of_id, job_of_event, update_job}

-- No two rows have one job id, and no two one event id: the two unique indexes.
abbrev pub UniqueIds : List IngestionJob → Type 0
UniqueIds [] = Unit {0}
UniqueIds (row ∷ rows) = (job_of_id row.job_id rows ≡ none) × UniqueIds rows

abbrev pub UniqueEvents : List IngestionJob → Type 0
UniqueEvents [] = Unit {0}
UniqueEvents (row ∷ rows) = (job_of_event row.event_id rows ≡ none) × UniqueEvents rows

-- A mutation that leaves the identity of a row alone.
pub record KeepsIdentity (mutate : IngestionJob → IngestionJob) : Type 0 where
  pub job : (row : IngestionJob) → (mutate row).job_id ≡ row.job_id
  pub event : (row : IngestionJob) → (mutate row).event_id ≡ row.event_id

abbrev pub stamp : ℕ → IngestionJob → IngestionJob
stamp now row = record row { updated_at = now }

module _ (k now : ℕ) (mutate : IngestionJob → IngestionJob) (keeps : KeepsIdentity mutate) where
  pub job_of_id-update_ne :
      (j : ℕ) (rows : List IngestionJob)
      → j ≢ k
      → job_of_id j (update_job k mutate now rows) ≡ job_of_id j rows
  unfolding update_job
  job_of_id-update_ne j [] ne = refl
  job_of_id-update_ne j (row ∷ rows) ne =
      ground (arith, job_of_id-update_ne j rows ne, keeps.job row)

  pub job_of_id-update_self :
      (rows : List IngestionJob) (row : IngestionJob)
      → job_of_id k rows ≡ some row
      → job_of_id k (update_job k mutate now rows) ≡ some (stamp now (mutate row))
  unfolding update_job
  job_of_id-update_self [] row h = cc
  job_of_id-update_self (head ∷ rows) row h =
      ground (arith, job_of_id-update_self rows row, keeps.job head)

  pub job_of_id-update_none :
      (j : ℕ) (rows : List IngestionJob)
      → job_of_id j rows ≡ none
      → job_of_id j (update_job k mutate now rows) ≡ none
  unfolding update_job
  job_of_id-update_none j [] h = refl
  job_of_id-update_none j (row ∷ rows) h =
      ground (arith, job_of_id-update_none j rows, keeps.job row)

  pub job_of_event-update_none :
      (j : ℕ) (rows : List IngestionJob)
      → job_of_event j rows ≡ none
      → job_of_event j (update_job k mutate now rows) ≡ none
  unfolding update_job
  job_of_event-update_none j [] h = refl
  job_of_event-update_none j (row ∷ rows) h =
      ground (arith, job_of_event-update_none j rows, keeps.event row)

  pub update_job-UniqueIds :
      (rows : List IngestionJob) → UniqueIds rows → UniqueIds (update_job k mutate now rows)
  unfolding update_job
  update_job-UniqueIds [] h = tt
  update_job-UniqueIds (row ∷ rows) h = ground (
    arith,
    update_job-UniqueIds rows h.1,
    job_of_id-update_none row.job_id rows h.0,
    keeps.job row,
  )

  pub update_job-UniqueEvents :
      (rows : List IngestionJob) → UniqueEvents rows → UniqueEvents (update_job k mutate now rows)
  unfolding update_job
  update_job-UniqueEvents [] h = tt
  update_job-UniqueEvents (row ∷ rows) h = ground (
    arith,
    update_job-UniqueEvents rows h.1,
    job_of_event-update_none row.event_id rows h.0,
    keeps.event row,
  )

-- An inserted row.
pub job_of_id-insert :
    (j : ℕ) (rows : List IngestionJob) (row : IngestionJob)
    → job_of_id row.job_id rows ≡ none
    → job_of_id j (rows ++ row ∷ []) ≡ (if row.job_id == j then some row else job_of_id j rows)
job_of_id-insert j [] row h = refl
job_of_id-insert j (head ∷ rows) row h = ground (arith, job_of_id-insert j rows row)

pub insert-UniqueIds :
    (rows : List IngestionJob) (row : IngestionJob)
    → job_of_id row.job_id rows ≡ none
    → UniqueIds rows
    → UniqueIds (rows ++ row ∷ [])
insert-UniqueIds [] row h u = (refl, tt)
insert-UniqueIds (head ∷ rows) row h u =
    ground (arith, insert-UniqueIds rows row, job_of_id-insert head.job_id rows row)

pub job_of_event-insert :
    (j : ℕ) (rows : List IngestionJob) (row : IngestionJob)
    → job_of_event row.event_id rows ≡ none
    → job_of_event j (rows ++ row ∷ [])
      ≡ (if row.event_id == j then some row else job_of_event j rows)
job_of_event-insert j [] row h = refl
job_of_event-insert j (head ∷ rows) row h = ground (arith, job_of_event-insert j rows row)

pub insert-UniqueEvents :
    (rows : List IngestionJob) (row : IngestionJob)
    → job_of_event row.event_id rows ≡ none
    → UniqueEvents rows
    → UniqueEvents (rows ++ row ∷ [])
insert-UniqueEvents [] row h u = (refl, tt)
insert-UniqueEvents (head ∷ rows) row h u =
    ground (arith, insert-UniqueEvents rows row, job_of_event-insert head.event_id rows row)

-- A row is the one that its job id finds in a table.
abbrev pub IsStored : List IngestionJob → IngestionJob → Type 0
IsStored table row = job_of_id row.job_id table ≡ some row

IsStored-cons :
    (head : IngestionJob) (table : List IngestionJob)
    → job_of_id head.job_id table ≡ none
    → (row : IngestionJob) → IsStored table row
    → IsStored (head ∷ table) row
IsStored-cons head table new row h = elim (Bool-cases (head.job_id == row.job_id)) [
  | inl same ↦ cc (new, h, (==_iff head.job_id row.job_id).0 same)
  | inr other ↦ rw other h
]

pub All-IsStored : (rows : List IngestionJob) → UniqueIds rows → All (IsStored rows) rows
All-IsStored [] h = tt
All-IsStored (row ∷ rows) h = (
  rw (==-self row.job_id),
  All-imp (IsStored rows) (IsStored (row ∷ rows)) rows (IsStored-cons row rows h.0)
      (All-IsStored rows h.1),
)

pub keep-none :
    (p : IngestionJob → Bool) (j : ℕ) (rows : List IngestionJob)
    → job_of_id j rows ≡ none
    → job_of_id j (keep p rows) ≡ none
keep-none p j [] h = refl
keep-none p j (row ∷ rows) h = ground (arith, keep-none p j rows)

pub keep-UniqueIds :
    (p : IngestionJob → Bool) (rows : List IngestionJob) → UniqueIds rows → UniqueIds (keep p rows)
keep-UniqueIds p [] h = tt
keep-UniqueIds p (row ∷ rows) h =
    ground (arith, keep-UniqueIds p rows h.1, keep-none p row.job_id rows h.0)

pub none-ne :
    (j : ℕ) (rows : List IngestionJob) → job_of_id j rows ≡ none → All (λ row. row.job_id ≢ j) rows
none-ne j [] h = tt
none-ne j (row ∷ rows) h = elim (Bool-cases (row.job_id == j)) [
  | inl same ↦ ground (arith, same)
  | inr other ↦ (λ e. ground (arith, other, e), none-ne j rows (rw other at h))
]

-- What a key finds has that key, and satisfies what all rows do.
pub job_of_id_sound :
    (j : ℕ) (rows : List IngestionJob) (row : IngestionJob)
    → job_of_id j rows ≡ some row
    → row.job_id ≡ j
job_of_id_sound j [] row h = cc
job_of_id_sound j (head ∷ rows) row h = ground (arith, job_of_id_sound j rows row)

pub All-job_of_id {ℓ} :
    (P : IngestionJob → Type ℓ) (j : ℕ) (rows : List IngestionJob) (row : IngestionJob)
    → All P rows
    → job_of_id j rows ≡ some row
    → P row
All-job_of_id P j [] row h e = cc
All-job_of_id P j (head ∷ rows) row h e = elim (Bool-cases (head.job_id == j)) [
  | inl same ↦ subst P (some-injective _ _ (rw same at e)) h.0
  | inr other ↦ All-job_of_id P j rows row h.1 (rw other at e)
]

pub job_of_id-keep-some :
    (p : IngestionJob → Bool) (j : ℕ) (rows : List IngestionJob) (row : IngestionJob)
    → job_of_id j rows ≡ some row
    → p row ≡ true
    → job_of_id j (keep p rows) ≡ some row
job_of_id-keep-some p j [] row h e = cc
job_of_id-keep-some p j (head ∷ rows) row h e = ground (arith, job_of_id-keep-some p j rows row)

pub job_of_id-keep-none :
    (p : IngestionJob → Bool) (j : ℕ) (rows : List IngestionJob) (row : IngestionJob)
    → UniqueIds rows
    → job_of_id j rows ≡ some row
    → p row ≡ false
    → job_of_id j (keep p rows) ≡ none
job_of_id-keep-none p j [] row u h e = refl
job_of_id-keep-none p j (head ∷ rows) row u h e = elim (Bool-cases (head.job_id == j)) [
  | inl same ↦ ground (arith, keep-none p j rows, same, u.0, (==_iff head.job_id j).0 same)
  | inr other ↦ ground (arith, job_of_id-keep-none p j rows row u.1, other)
]

pub ne-none :
    (j : ℕ) (rows : List IngestionJob) → All (λ row. row.job_id ≢ j) rows → job_of_id j rows ≡ none
ne-none j [] h = refl
ne-none j (row ∷ rows) h = ground (arith, ne-none j rows h.1, h.0)

pub job_of_event_sound :
    (e : ℕ) (rows : List IngestionJob) (row : IngestionJob)
    → job_of_event e rows ≡ some row
    → row.event_id ≡ e
job_of_event_sound e [] row h = cc
job_of_event_sound e (head ∷ rows) row h = ground (arith, job_of_event_sound e rows row)

pub All-job_of_event {ℓ} :
    (P : IngestionJob → Type ℓ) (j : ℕ) (rows : List IngestionJob) (row : IngestionJob)
    → All P rows
    → job_of_event j rows ≡ some row
    → P row
All-job_of_event P j [] row h e = cc
All-job_of_event P j (head ∷ rows) row h e = elim (Bool-cases (head.event_id == j)) [
  | inl same ↦ subst P (some-injective _ _ (rw same at e)) h.0
  | inr other ↦ All-job_of_event P j rows row h.1 (rw other at e)
]
