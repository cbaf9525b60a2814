-- ===== src/Ingestion/Lease/Oldest.antt =====
-- `claim_next_job` of backend/app/ingestion/service.py: the row that its query finds first.
use native.Mathlib.Nat.{le_trans}
use mathlib.Core.Path.{subst}
use mathlib.Core.Option.{some-injective}
use intrusion_detect.Common.{
  ltb, if◌then◌else◌, ℕ, ◌≤◌, ◌≡◌, refl, ◌≢◌, Bool, true, false, none, some, List, [], ◌∷◌, arith,
  All, All-keep, keep,
}
use intrusion_detect.Store.{IngestionJob}
use intrusion_detect.Store.Jobs.{UniqueIds, IsStored, All-IsStored}
use intrusion_detect.Ingestion.Lease.{is_claimable, oldest, next_claimable}

either {ℓ κ} :
    {A : Type ℓ} (P : A → Type κ) (b : Bool) (x y : A) → P x → P y → P (if b then x else y)
either P true x y h k = h
either P false x y h k = k

oldest-All {ℓ} :
    (P : IngestionJob → Type ℓ) (best : IngestionJob) (rows : List IngestionJob)
    (row : IngestionJob)
    → P best
    → All P rows
    → oldest (some best) rows ≡ some row
    → P row
unfolding oldest
oldest-All P best [] row h hs e = subst P (some-injective _ _ e) h
oldest-All P best (head ∷ rows) row h hs e =
    oldest-All P (if ltb head.created_at best.created_at then head else best) rows row
      (either P (ltb head.created_at best.created_at) head best hs.0 h) hs.1 e

-- `row` is no younger than any of the rows.
abbrev pub IsOldest : IngestionJob → List IngestionJob → Type 0
IsOldest row rows = All (λ other. row.created_at ≤ other.created_at) rows

abbrev older : IngestionJob → IngestionJob → IngestionJob
older best head = if ltb head.created_at best.created_at then head else best

older-le :
    (best head : IngestionJob)
    → ((older best head).created_at ≤ best.created_at)
      × ((older best head).created_at ≤ head.created_at)
older-le best head = ground arith

oldest-IsOldest :
    (best : IngestionJob) (rows : List IngestionJob) (row : IngestionJob)
    → oldest (some best) rows ≡ some row
    → (row.created_at ≤ best.created_at) × IsOldest row rows
unfolding oldest
oldest-IsOldest best [] row e =
    (subst (λ r. r.created_at ≤ best.created_at) (some-injective _ _ e) (omega arith), tt)
oldest-IsOldest best (head ∷ rows) row e =
    let (le, ih) = oldest-IsOldest (older best head) rows row e in
    let (le_best, le_head) = older-le best head in (le_trans le le_best, (le_trans le le_head, ih))

oldest-ne-none : (best : IngestionJob) (rows : List IngestionJob) → oldest (some best) rows ≢ none
unfolding oldest
oldest-ne-none best [] e = cc
oldest-ne-none best (head ∷ rows) e = oldest-ne-none (older best head) rows e

first-All {ℓ} :
    (P : IngestionJob → Type ℓ) (rows : List IngestionJob) (row : IngestionJob)
    → All P rows
    → oldest none rows ≡ some row
    → P row
unfolding oldest
first-All P [] row h e = cc
first-All P (best ∷ rows) row h e = oldest-All P best rows row h.0 h.1 e

pub first-IsOldest :
    (rows : List IngestionJob) (row : IngestionJob)
    → oldest none rows ≡ some row
    → IsOldest row rows
unfolding oldest
first-IsOldest [] row e = tt
first-IsOldest (best ∷ rows) row e = oldest-IsOldest best rows row e

pub first-none : (rows : List IngestionJob) → oldest none rows ≡ none → rows ≡ []
unfolding oldest
first-none [] e = refl
first-none (best ∷ rows) e = absurd (oldest-ne-none best rows e)

-- A found row is stored, waits and is due.
pub next_claimable-found :
    (now : ℕ) (jobs : List IngestionJob) (row : IngestionJob)
    → UniqueIds jobs
    → next_claimable now jobs ≡ some row
    → IsStored jobs row × (is_claimable now row ≡ true)
unfolding next_claimable
next_claimable-found now jobs row u e =
    first-All (λ r. IsStored jobs r × (is_claimable now r ≡ true)) (keep (is_claimable now) jobs)
      row
      (All-keep (IsStored jobs) (λ r. IsStored jobs r × (is_claimable now r ≡ true))
        (is_claimable now) jobs (λ r h k. (h, k)) (All-IsStored jobs u))
      e
