-- ===== src/Corpus/Shares.antt =====
-- machine-learning/src/iot_ids_ml/native_corpus.py: how many places of a family each split has.
use intrusion_detect.Common.{ℕ, zero, suc, ◌+◌, ◌-◌, ◌*◌, ◌/◌, ◌≤◌, ◌≡◌, if◌then◌else◌, arith}
use intrusion_detect.Corpus.{
  Split, train, validation, test, split_eq, split_at, train_end, validation_end,
}

-- How many of the indices from `index` on get the split.
abbrev pub places : ℕ → ℕ → Split → ℕ → ℕ → ℕ
places te ve split index zero = 0
places te ve split index (suc n) =
    (if split_eq (split_at te ve index) split then 1 else 0) + places te ve split (suc index) n

places_train :
    (te ve index n : ℕ) → te ≤ ve → ve ≤ index + n → places te ve train index n ≡ te - index
places_train te ve index zero h k = omega arith
places_train te ve index (suc n) h k = ground (arith, places_train te ve (suc index) n)

places_validation :
    (te ve index n : ℕ)
    → te ≤ ve
    → ve ≤ index + n
    → places te ve validation index n + (te - index) ≡ ve - index
places_validation te ve index zero h k = omega arith
places_validation te ve index (suc n) h k = ground (arith, places_validation te ve (suc index) n)

places_test :
    (te ve index n : ℕ) → te ≤ ve → ve ≤ index + n → places te ve test index n + (ve - index) ≡ n
places_test te ve index zero h k = omega arith
places_test te ve index (suc n) h k = ground (arith, places_test te ve (suc index) n)

-- 60 of 100, 20 of 100 and the rest, rounded down.
abbrev pub share : Split → ℕ → ℕ
share train n = 3 * n / 5
share validation n = n / 5
share test n = n - 3 * n / 5 - n / 5

pub places-share :
    (split : Split) (n : ℕ) → places (train_end n) (validation_end n) split 0 n ≡ share split n
places-share train n =
    omega (arith, places_train (train_end n) (validation_end n) 0 n (omega arith) (omega arith))
places-share validation n =
    omega
      (arith, places_validation (train_end n) (validation_end n) 0 n (omega arith) (omega arith))
places-share test n =
    omega (arith, places_test (train_end n) (validation_end n) 0 n (omega arith) (omega arith))
