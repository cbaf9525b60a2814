-- ===== src/Monitoring/Retained.antt =====
-- backend/app/monitoring/service.py: the order of the snapshots, and what retention keeps of them.
use intrusion_detect.Common.{
  ℕ, ◌+◌, ◌≤◌, ◌≡◌, refl, ap, Bool, true, List, [], ◌∷◌, keep, leb, arith, Bool-cases, inl, inr,
}
use intrusion_detect.Monitoring.{
  DriftSnapshot, Services, latest_first, insert_snapshot, retained, days,
}

abbrev pub Descending : ℕ → ℕ → List DriftSnapshot → Type 0
Descending start last [] = Unit
Descending start last (s ∷ rest) =
    (s.checked_at ≤ last) × (start ≤ s.checked_at) × Descending start s.checked_at rest

pub Descending-later :
    (start last now : ℕ) (xs : List DriftSnapshot)
    → last ≤ now
    → Descending start last xs
    → Descending start now xs
Descending-later start last now [] h d = tt
Descending-later start last now (s ∷ rest) h d = (omega arith, d.1, d.2)

pub Descending-keep :
    (p : DriftSnapshot → Bool) (start last : ℕ) (xs : List DriftSnapshot)
    → Descending start last xs
    → Descending start last (keep p xs)
Descending-keep p start last [] d = tt
Descending-keep p start last (s ∷ rest) d = elim (Bool-cases (p s)) [
  | inl e ↦ rw e (d.0, d.1, Descending-keep p start s.checked_at rest d.2)
  | inr e ↦
      rw e
        (Descending-keep p start last rest (Descending-later start s.checked_at last rest d.0 d.2))
]

-- A table in order is what a sort gives.
pub latest_first-Descending :
    (start last : ℕ) (xs : List DriftSnapshot) → Descending start last xs → latest_first xs ≡ xs
unfolding latest_first insert_snapshot
latest_first-Descending start last [] d = refl
latest_first-Descending start last (s ∷ []) d = refl
latest_first-Descending start last (s ∷ t ∷ rest) d =
    let sorted = latest_first-Descending start s.checked_at (t ∷ rest) d.2 in
    let first : leb t.checked_at s.checked_at ≡ true = ground arith in rw (sorted, first) refl

-- Nothing is older than the retention.
pub retained-all :
    (svc : Services) (start at last : ℕ) (xs : List DriftSnapshot)
    → at ≤ start + days svc.retention_days
    → Descending start last xs
    → retained svc at xs ≡ xs
unfolding retained
retained-all svc start at last [] h d = refl
retained-all svc start at last (s ∷ rest) h d =
    let kept : leb at (s.checked_at + days svc.retention_days) ≡ true = ground arith in
    rw kept (ap (λ xs. s ∷ xs) (retained-all svc start at s.checked_at rest h d.2))
