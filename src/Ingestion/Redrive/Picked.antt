-- ===== src/Ingestion/Redrive/Picked.antt =====
-- The rows that `redrive_events` of backend/app/ingestion/service.py puts back into the queue.
use mathlib.Core.Option.{some-injective}
use intrusion_detect.Common.{
  ℕ, ◌≡◌, refl, sym, ap, ◌∙◌, ◌≢◌, true, false, Option, none, some, List, [], ◌∷◌, arith, All,
  All-imp, mem,
}
use intrusion_detect.Store.{Environment, Store, IngestionJob, dead_letter, job_of_id}
use intrusion_detect.Store.Jobs.{
  UniqueIds, IsStored, All-IsStored, ne-none, All-job_of_event, job_of_event_sound,
}
use intrusion_detect.Store.Invariant.{IsValid}
use intrusion_detect.Ingestion.Redrive.{
  CompatibilityCheck, evaluate_redrive, eligible_rows, add_eligible, has_duplicate, Refusal,
}
use intrusion_detect.Ingestion.Redrive.Eligible.{evaluate_redrive_iff}

module _ (env : Environment) (now : ℕ) (check : CompatibilityCheck) (db : Store)
    (v : IsValid env db) where
  -- What is known of a row that a list of distinct events made eligible.
  pub record Picked (event_ids : List ℕ) (row : IngestionJob) : Type 0 where
    pub stored : IsStored db.jobs row
    pub dead : row.state ≡ dead_letter
    pub asked : mem row.event_id event_ids ≡ true

  Picked-of :
      (event_id : ℕ) (event_ids : List ℕ) (row : IngestionJob)
      → evaluate_redrive env now check event_id db ≡ (some row, none)
      → Picked (event_id ∷ event_ids) row
  Picked-of event_id event_ids row e =
      let h = (evaluate_redrive_iff env now check event_id db row).0 e in
      record {
        stored =
            All-job_of_event (IsStored db.jobs) event_id db.jobs row (All-IsStored db.jobs v.ids)
              h.found;
        dead = h.dead;
        asked = ground (arith, job_of_event_sound event_id db.jobs row h.found);
      }

  Picked-cons :
      (event_id : ℕ) (event_ids : List ℕ) (row : IngestionJob)
      → Picked event_ids row
      → Picked (event_id ∷ event_ids) row
  Picked-cons event_id event_ids row h = record {
    stored = h.stored;
    dead = h.dead;
    asked = ground (arith, h.asked);
  }

  add_eligible-Picked :
      (event_id : ℕ) (event_ids : List ℕ) (r : Option IngestionJob × Option Refusal)
      (rows : List IngestionJob)
      → evaluate_redrive env now check event_id db ≡ r
      → All (Picked event_ids) rows
      → All (Picked (event_id ∷ event_ids)) (add_eligible r rows)
  add_eligible-Picked event_id event_ids (some row, none) rows e h = (
    Picked-of event_id event_ids row e,
    All-imp (Picked event_ids) (Picked (event_id ∷ event_ids)) rows (Picked-cons event_id event_ids)
        h,
  )
  add_eligible-Picked event_id event_ids (some row, some refusal) rows e h =
      All-imp (Picked event_ids) (Picked (event_id ∷ event_ids)) rows
        (Picked-cons event_id event_ids) h
  add_eligible-Picked event_id event_ids (none, refusal) rows e h =
      All-imp (Picked event_ids) (Picked (event_id ∷ event_ids)) rows
        (Picked-cons event_id event_ids) h

  pub eligible_rows-Picked :
      (event_ids : List ℕ) → All (Picked event_ids) (eligible_rows env now check db event_ids)
  unfolding eligible_rows
  eligible_rows-Picked [] = tt
  eligible_rows-Picked (event_id ∷ event_ids) =
      add_eligible-Picked event_id event_ids (evaluate_redrive env now check event_id db)
        (eligible_rows env now check db event_ids) refl (eligible_rows-Picked event_ids)

  -- A stored row of another event has another job id.
  other_job :
      (event_id : ℕ) (event_ids : List ℕ) (row : IngestionJob)
      → mem event_id event_ids ≡ false
      → IsStored db.jobs row
      → row.event_id ≡ event_id
      → (other : IngestionJob) → Picked event_ids other
      → other.job_id ≢ row.job_id
  other_job event_id event_ids row new stored mine other h e =
      let same : other ≡ row =
        some-injective _ _ (sym h.stored ∙ ap (λ (j : ℕ). job_of_id j db.jobs) e ∙ stored) in
      cc (h.asked, new, ap (λ (r : IngestionJob). mem r.event_id event_ids) same, mine)

  add_eligible-UniqueIds :
      (event_id : ℕ) (event_ids : List ℕ) (r : Option IngestionJob × Option Refusal)
      (rows : List IngestionJob)
      → evaluate_redrive env now check event_id db ≡ r
      → mem event_id event_ids ≡ false
      → All (Picked event_ids) rows
      → UniqueIds rows
      → UniqueIds (add_eligible r rows)
  add_eligible-UniqueIds event_id event_ids (some row, none) rows e new h u =
      let p = Picked-of event_id event_ids row e in
      let found = ((evaluate_redrive_iff env now check event_id db row).0 e).found in
      (
        ne-none row.job_id rows (
            All-imp (Picked event_ids) (λ other. other.job_id ≢ row.job_id) rows
              (other_job event_id event_ids row new p.stored
                (job_of_event_sound event_id db.jobs row found))
              h),
        u,
      )
  add_eligible-UniqueIds event_id event_ids (some row, some refusal) rows e new h u = u
  add_eligible-UniqueIds event_id event_ids (none, refusal) rows e new h u = u

  pub eligible_rows-UniqueIds :
      (event_ids : List ℕ)
      → has_duplicate event_ids ≡ false
      → UniqueIds (eligible_rows env now check db event_ids)
  unfolding eligible_rows
  eligible_rows-UniqueIds [] d = tt
  eligible_rows-UniqueIds (event_id ∷ event_ids) d =
      add_eligible-UniqueIds event_id event_ids (evaluate_redrive env now check event_id db)
        (eligible_rows env now check db event_ids) refl (ground (arith, d))
        (eligible_rows-Picked event_ids) (eligible_rows-UniqueIds event_ids (ground (arith, d)))
