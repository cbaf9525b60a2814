-- ===== src/Auth/Limiter/Windows.antt =====
-- The window of the rate limiter: what `drop_expired` leaves of a queue.
use intrusion_detect.Common.{
  ℕ, ◌+◌, ◌≤◌, ◌≡◌, refl, sym, ap, ◌∙◌, inl, inr, Bool, true, false, List, [], ◌∷◌, ◌++◌, ltb, leb,
  length, count_if, All, All-append, arith, Bool-cases,
}
use intrusion_detect.Ingestion.Lease.{seconds}
use intrusion_detect.Auth.Limiter.{drop_expired}

module _ (window : ℕ) where
  -- An earlier cleaning makes no difference to a later one.
  pub drop_expired-drop_expired :
      (now later : ℕ) (times : List ℕ)
      → now ≤ later
      → drop_expired window later (drop_expired window now times) ≡ drop_expired window later times
  unfolding drop_expired
  drop_expired-drop_expired now later [] le = refl
  drop_expired-drop_expired now later (t ∷ times) le =
      elim (Bool-cases (leb (t + seconds window) now)) [
        | inl old ↦
            let older : leb (t + seconds window) later ≡ true = ground (arith, le, old) in
            rw (old, older) (drop_expired-drop_expired now later times le)
        | inr fresh ↦ rw fresh refl
      ]

  drop_expired-append :
      (now : ℕ) (times more : List ℕ)
      → drop_expired window now (times ++ more) ≡ elim (drop_expired window now times) [
        | [] ↦ drop_expired window now more
        | t ∷ rest ↦ t ∷ (rest ++ more)
      ]
  unfolding drop_expired
  drop_expired-append now [] more = refl
  drop_expired-append now (t ∷ times) more = elim (Bool-cases (leb (t + seconds window) now)) [
    | inl old ↦ rw old (drop_expired-append now times more)
    | inr fresh ↦ rw fresh refl
  ]

  -- Queues that agree in the window still do when a time is added.
  pub drop_expired-append_eq :
      (now : ℕ) (times others more : List ℕ)
      → drop_expired window now times ≡ drop_expired window now others
      → drop_expired window now (times ++ more) ≡ drop_expired window now (others ++ more)
  drop_expired-append_eq now times others more e =
      drop_expired-append now times more
      ∙ ap
          (λ (left : List ℕ). elim left as (λ _. List ℕ) [
            | [] ↦ drop_expired window now more
            | t ∷ rest ↦ t ∷ (rest ++ more)
          ])
          e
      ∙ sym (drop_expired-append now others more)

-- Times in order.
abbrev pub IsSorted : List ℕ → Type 0
IsSorted [] = Unit
IsSorted (t ∷ times) = All (λ other. t ≤ other) times × IsSorted times

pub IsSorted-append :
    (times : List ℕ) (t : ℕ)
    → IsSorted times
    → All (λ other. other ≤ t) times
    → IsSorted (times ++ t ∷ [])
IsSorted-append [] t s h = (tt, tt)
IsSorted-append (first ∷ times) t s h = (
  All-append (λ other. first ≤ other) times (t ∷ []) s.0 (h.0, tt),
  IsSorted-append times t s.1 h.1,
)

-- A failure in the window.
abbrev pub is_recent : ℕ → ℕ → ℕ → Bool
is_recent window now t = ltb now (t + seconds window)

All-recent :
    (window now first : ℕ) (times : List ℕ)
    → is_recent window now first ≡ true
    → All (λ other. first ≤ other) times
    → count_if (is_recent window now) times ≡ length times
All-recent window now first [] r h = refl
All-recent window now first (t ∷ times) r h =
    let ih = All-recent window now first times r h.1 in
    let le = h.0 in
    let recent : is_recent window now t ≡ true = ground (arith, le, r) in
    rw recent (omega (arith, ih))

-- Of a sorted queue, what is left is what lies in the window.
pub length-drop_expired :
    (window now : ℕ) (times : List ℕ)
    → IsSorted times
    → length (drop_expired window now times) ≡ count_if (is_recent window now) times
unfolding drop_expired
length-drop_expired window now [] s = refl
length-drop_expired window now (t ∷ times) s = elim (Bool-cases (is_recent window now t)) [
  | inl recent ↦
      let fresh : leb (t + seconds window) now ≡ false = ground (arith, recent) in
      rw (fresh, recent) (omega (arith, All-recent window now t times recent s.0))
  | inr past ↦
      let old : leb (t + seconds window) now ≡ true = ground (arith, past) in
      rw (old, past) (omega (arith, length-drop_expired window now times s.1))
]
