-- ===== src/Outbox/Counts.antt =====
-- What a conditional UPDATE of backend/app/ingestion/outbox.py leaves, by the rows that it counts.
use intrusion_detect.Common.{
  ℕ, ◌+◌, ◌≤◌, ◌≡◌, refl, ap, Bool, true, false, inl, inr, List, [], ◌∷◌, arith, Bool-cases,
  if◌then◌else◌, ◌==◌,
}
use intrusion_detect.Store.{OutboxEvent}
use intrusion_detect.Outbox.{update_where, row_count}

-- The rows with one key.
abbrev pub has_id : ℕ → OutboxEvent → Bool
has_id outbox_id e = e.outbox_id == outbox_id

-- `outbox_id` is the primary key.
abbrev pub UniqueOutboxIds : List OutboxEvent → Type 0
UniqueOutboxIds events = (outbox_id : ℕ) → row_count (has_id outbox_id) events ≤ 1

-- Rows that no condition names stay.
pub update_where-none :
    (p : OutboxEvent → Bool) (f : OutboxEvent → OutboxEvent) (events : List OutboxEvent)
    → row_count p events ≡ 0
    → update_where p f events ≡ events
unfolding update_where row_count
update_where-none p f [] e = refl
update_where-none p f (head ∷ rest) e = elim (Bool-cases (p head)) [
  | inl hit ↦ absurd (ground (arith, e, hit))
  | inr miss ↦ rw miss (
      ap (λ (xs : List OutboxEvent). head ∷ xs)
        (update_where-none p f rest (ground (arith, e, miss))))
]

counted :
    (b : Bool) (m n : ℕ) → (if b then m else 0) + (if b then n else 0) ≡ (if b then m + n else 0)
counted true m n = refl
counted false m n = refl

uncounted : (b : Bool) (n : ℕ) → 0 + (if b then n else 0) ≡ (if b then 0 + n else 0)
uncounted true n = refl
uncounted false n = refl

module _ (outbox_id : ℕ) (p : OutboxEvent → Bool) (f : OutboxEvent → OutboxEvent)
    (keyed : (e : OutboxEvent) → p e ≡ true → has_id outbox_id e ≡ true) where
  pub row_count-le :
      (events : List OutboxEvent) → row_count p events ≤ row_count (has_id outbox_id) events
  unfolding row_count
  row_count-le [] = omega arith
  row_count-le (head ∷ rest) =
      let le = row_count-le rest in
      elim (Bool-cases (p head)) [
        | inl hit ↦ let k = keyed head hit in rw (hit, k) (omega arith)
        | inr miss ↦ rw miss (ground arith)
      ]

  -- Where the condition holds of every row with the key, a second condition on rows with the key
  -- is counted on the changed rows only.
  pub row_count-update :
      (q : OutboxEvent → Bool) (b : Bool)
      → ((e : OutboxEvent) → q e ≡ true → has_id outbox_id e ≡ true)
      → ((e : OutboxEvent) → p e ≡ true → q (f e) ≡ b)
      → (events : List OutboxEvent) → row_count (has_id outbox_id) events ≤ row_count p events
      → row_count q (update_where p f events) ≡ (if b then row_count p events else 0)
  unfolding row_count update_where
  row_count-update q true keyed' changed [] le = refl
  row_count-update q false keyed' changed [] le = refl
  row_count-update q b keyed' changed (head ∷ rest) le = elim (Bool-cases (p head)) [
    | inl hit ↦
        let k = keyed head hit in
        let h = changed head hit in
        let ih = row_count-update q b keyed' changed rest (ground (arith, le, hit, k)) in
        rw (hit, h, ih) (counted b 1 (row_count p rest))
    | inr miss ↦
        let le_rest = row_count-le rest in
        let other : has_id outbox_id head ≡ false = ground (arith, le, miss, le_rest) in
        let q_miss : q head ≡ false = elim (Bool-cases (q head)) [
          | inl hit ↦ cc (keyed' head hit, other)
          | inr q_miss ↦ q_miss
        ] in
        let ih = row_count-update q b keyed' changed rest (ground (arith, le, miss, other)) in
        rw (miss, q_miss, ih) (uncounted b (row_count p rest))
  ]

-- A change that keeps the key keeps the number of rows with a key.
pub row_count-has_id :
    (p : OutboxEvent → Bool) (f : OutboxEvent → OutboxEvent) (outbox_id : ℕ)
    → ((e : OutboxEvent) → (f e).outbox_id ≡ e.outbox_id)
    → (events : List OutboxEvent)
    → row_count (has_id outbox_id) (update_where p f events) ≡ row_count (has_id outbox_id) events
unfolding row_count update_where
row_count-has_id p f outbox_id keeps [] = refl
row_count-has_id p f outbox_id keeps (head ∷ rest) =
    let ih = row_count-has_id p f outbox_id keeps rest in
    let k = keeps head in
    elim (Bool-cases (p head)) [ inl hit ↦ rw (hit, ih, k) refl | inr miss ↦ rw (miss, ih) refl ]
