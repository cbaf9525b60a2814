-- ===== src/Ingestion/Enqueue/Fresh.antt =====
-- `new_by_id` of `enqueue_observations` (backend/app/ingestion/service.py): what is new in a batch.
use intrusion_detect.Common.{
  ℕ, ◌≡◌, refl, inl, inr, false, not, ◌&&◌, ◌||◌, none, List, [], ◌∷◌, arith, Option-cases, All,
  mem, ◌==◌, is_some,
}
use intrusion_detect.Store.{IngestionJob, job_of_event}
use intrusion_detect.Ingestion.Enqueue.{Prepared, put, new_by_id, ids}

-- No two entries have one event id.
abbrev pub UniquePrepared : List Prepared → Type 0
UniquePrepared [] = Unit {0}
UniquePrepared (p ∷ ps) = (mem p.event_id (ids ps) ≡ false) × UniquePrepared ps

-- An event that the table does not have.
abbrev pub IsNew : List IngestionJob → Prepared → Type 0
IsNew jobs p = job_of_event p.event_id jobs ≡ none

pub mem-put :
    (j : ℕ) (p : Prepared) (ps : List Prepared)
    → mem j (ids (put p ps)) ≡ (j == p.event_id || mem j (ids ps))
unfolding put
mem-put j p [] = refl
mem-put j p (q ∷ qs) = ground (arith, mem-put j p qs)

put-UniquePrepared :
    (p : Prepared) (ps : List Prepared) → UniquePrepared ps → UniquePrepared (put p ps)
unfolding put
put-UniquePrepared p [] u = (refl, tt)
put-UniquePrepared p (q ∷ qs) u =
    ground (arith, put-UniquePrepared p qs u.1, mem-put q.event_id p qs)

put-All :
    (jobs : List IngestionJob) (p : Prepared) (ps : List Prepared)
    → IsNew jobs p
    → All (IsNew jobs) ps
    → All (IsNew jobs) (put p ps)
unfolding put
put-All jobs p [] h hs = (h, tt)
put-All jobs p (q ∷ qs) h hs = ground (arith, put-All jobs p qs h hs.1)

-- The new entries are of events that the table does not have, one entry for each.
pub new_by_id-IsNew :
    (jobs : List IngestionJob) (acc ps : List Prepared)
    → All (IsNew jobs) acc
    → All (IsNew jobs) (new_by_id jobs acc ps)
unfolding new_by_id
new_by_id-IsNew jobs acc [] h = h
new_by_id-IsNew jobs acc (p ∷ ps) h = elim (Option-cases (job_of_event p.event_id jobs)) [
  | inl new ↦ rw new (new_by_id-IsNew jobs (put p acc) ps (put-All jobs p acc new h))
  | inr (row, old) ↦ rw old (new_by_id-IsNew jobs acc ps h)
]

pub new_by_id-UniquePrepared :
    (jobs : List IngestionJob) (acc ps : List Prepared)
    → UniquePrepared acc
    → UniquePrepared (new_by_id jobs acc ps)
unfolding new_by_id
new_by_id-UniquePrepared jobs acc [] u = u
new_by_id-UniquePrepared jobs acc (p ∷ ps) u = elim (Option-cases (job_of_event p.event_id jobs)) [
  | inl new ↦ rw new (new_by_id-UniquePrepared jobs (put p acc) ps (put-UniquePrepared p acc u))
  | inr (row, old) ↦ rw old (new_by_id-UniquePrepared jobs acc ps u)
]

-- An id is among the new entries if it was there before, or if the batch has it and the table not.
pub mem-new_by_id :
    (j : ℕ) (jobs : List IngestionJob) (acc ps : List Prepared)
    → mem j (ids (new_by_id jobs acc ps))
      ≡ (mem j (ids acc) || (mem j (ids ps) && not (is_some (job_of_event j jobs))))
unfolding new_by_id
mem-new_by_id j jobs acc [] = ground arith
mem-new_by_id j jobs acc (p ∷ ps) = elim (Option-cases (job_of_event p.event_id jobs)) [
  | inl new ↦ rw new (ground (arith, mem-new_by_id j jobs (put p acc) ps, mem-put j p acc, new))
  | inr (row, old) ↦ rw old (ground (arith, mem-new_by_id j jobs acc ps, old))
]
