-- ===== src/Ingestion/Enqueue/Digests.antt =====
-- The idempotency check of `enqueue_observations` (backend/app/ingestion/service.py): entries of
-- one event id have one digest.
use intrusion_detect.Common.{
  ℕ, ◌≡◌, refl, ◌⊎◌, inl, inr, true, false, none, some, List, [], ◌∷◌, arith, Bool-cases, All, mem,
  ◌==◌, if◌then◌else◌, is_some, ap, ◌∙◌, ==_iff,
}
use intrusion_detect.Store.{IngestionJob, job_of_event}
use intrusion_detect.Ingestion.Enqueue.{
  Prepared, put, new_by_id, ids, digest_of, stored_digest, find_conflict, disagrees,
}

-- An entry has the digest `d` if it is of the event `j`.
abbrev pub Agrees : ℕ → ℕ → Prepared → Type 0
Agrees j d p = p.event_id ≡ j → p.digest ≡ d

-- Without a conflict the entries agree with those that came before.
pub find_conflict-Agrees :
    (jobs : List IngestionJob) (j d : ℕ) (seen ps : List Prepared)
    → find_conflict jobs seen ps ≡ none
    → digest_of j seen ≡ some d
    → All (Agrees j d) ps
unfolding find_conflict
find_conflict-Agrees jobs j d seen [] e h = tt
find_conflict-Agrees jobs j d seen (p ∷ ps) e h = (
  (λ same. ground arith),
  find_conflict-Agrees jobs j d (p ∷ seen) ps (ground arith) (ground arith),
)

-- Without a conflict an entry has the digest that is stored for its event.
pub find_conflict-stored :
    (jobs : List IngestionJob) (seen ps : List Prepared)
    → find_conflict jobs seen ps ≡ none
    → All (λ p. disagrees (stored_digest p.event_id jobs) p.digest ≡ false) ps
unfolding find_conflict
find_conflict-stored jobs seen [] e = tt
find_conflict-stored jobs seen (p ∷ ps) e =
    (ground arith, find_conflict-stored jobs (p ∷ seen) ps (ground arith))

-- A batch without conflict has none with a table that stores its digests.
pub find_conflict-again :
    (jobs jobs' : List IngestionJob) (seen ps : List Prepared)
    → find_conflict jobs seen ps ≡ none
    → All (λ p. stored_digest p.event_id jobs' ≡ some p.digest) ps
    → find_conflict jobs' seen ps ≡ none
unfolding find_conflict
find_conflict-again jobs jobs' seen [] e h = refl
find_conflict-again jobs jobs' seen (p ∷ ps) e h =
    ground (arith, find_conflict-again jobs jobs' (p ∷ seen) ps, h.0, h.1)

digest_of-put :
    (j : ℕ) (p : Prepared) (ps : List Prepared)
    → digest_of j (put p ps) ≡ (if p.event_id == j then some p.digest else digest_of j ps)
unfolding put
digest_of-put j p [] = refl
digest_of-put j p (q ∷ qs) = ground (arith, digest_of-put j p qs)

added_digest :
    (jobs : List IngestionJob) (j d : ℕ) (acc : List Prepared) (p : Prepared)
    → job_of_event j jobs ≡ none
    → p.event_id ≡ j
    → Agrees j d p
    → digest_of j (if is_some (job_of_event p.event_id jobs) then acc else put p acc) ≡ some d
added_digest jobs j d acc p new same agree =
    let new' : job_of_event p.event_id jobs ≡ none =
      ap (λ (k : ℕ). job_of_event k jobs) same ∙ new in
    rw new' (rw (digest_of-put j p acc) (rw ((==_iff p.event_id j).1 same) (ap some (agree same))))

-- The new entry of an event has the digest that all its entries have.
pub digest_of-new_by_id :
    (jobs : List IngestionJob) (j d : ℕ) (acc ps : List Prepared)
    → job_of_event j jobs ≡ none
    → All (Agrees j d) ps
    → (digest_of j acc ≡ some d) ⊎ (mem j (ids ps) ≡ true)
    → digest_of j (new_by_id jobs acc ps) ≡ some d
unfolding new_by_id
digest_of-new_by_id jobs j d acc [] new agree (inl h) = h
digest_of-new_by_id jobs j d acc [] new agree (inr h) = cc
digest_of-new_by_id jobs j d acc (p ∷ ps) new agree h =
    digest_of-new_by_id jobs j d (if is_some (job_of_event p.event_id jobs) then acc else put p acc)
      ps new agree.1
      (elim (Bool-cases (p.event_id == j)) [
        | inl same ↦ inl (added_digest jobs j d acc p new ((==_iff p.event_id j).0 same) agree.0)
        | inr other ↦ ground (arith, other, digest_of-put j p acc, h)
      ])
