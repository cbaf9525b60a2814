-- ===== src/Auth/Limiter/Table.antt =====
-- The ordered dictionary of the rate limiter: what a key finds after each change.
use intrusion_detect.Common.{
  ℕ, ◌≤◌, ◌≡◌, refl, ◌∙◌, inl, inr, true, false, none, some, List, [], ◌∷◌, ◌++◌, Text, text_eq,
  text_eq_iff, ltb, if◌then◌else◌, length, arith, Bool-cases,
}
use intrusion_detect.Auth.Limiter.{Failures, times_of, without, put_last, evict, times_or}

pub text_eq_self : (t : Text) → text_eq t t ≡ true
text_eq_self t = (text_eq_iff t t).1 refl

pub times_of-without :
    (k key : Text) (entries : List Failures)
    → times_of k (without key entries) ≡ (if text_eq key k then none else times_of k entries)
times_of-without k key [] = ground arith
times_of-without k key (entry ∷ entries) = ground (
  arith,
  text_eq_iff entry.key key,
  text_eq_iff entry.key k,
  text_eq_iff key k,
  times_of-without k key entries,
)

-- A lookup in a table whose last entry is known.
times_of-append :
    (k : Text) (last : Failures) (entries : List Failures)
    → times_of k (entries ++ last ∷ []) ≡ elim (times_of k entries) [
      | none ↦ if text_eq last.key k then some last.times else none
      | some times ↦ some times
    ]
times_of-append k last [] = refl
times_of-append k last (entry ∷ entries) = elim (Bool-cases (text_eq entry.key k)) [
  | inl hit ↦ rw hit refl
  | inr miss ↦ rw miss (times_of-append k last entries)
]

put_miss :
    (k : Text) (last : Failures) (entries rest : List Failures)
    → text_eq last.key k ≡ false
    → times_of k (rest ++ last ∷ []) ≡ elim (times_of k rest) [
      | none ↦ if text_eq last.key k then some last.times else none
      | some times ↦ some times
    ]
    → times_of k rest ≡ (if text_eq last.key k then none else times_of k entries)
    → times_of k (rest ++ last ∷ [])
      ≡ (if text_eq last.key k then some last.times else times_of k entries)
put_miss k last entries rest miss e w = ground (arith, e, w, miss)

pub times_of-put_last :
    (k key : Text) (times : List ℕ) (entries : List Failures)
    → times_of k (put_last key times entries)
      ≡ (if text_eq key k then some times else times_of k entries)
unfolding put_last
times_of-put_last k key times entries =
    let e = times_of-append k (record { key = key; times = times }) (without key entries) in
    let w = times_of-without k key entries in
    elim (Bool-cases (text_eq key k)) [
      | inl hit ↦ rw hit (e ∙ (rw (w, hit) (rw hit refl)))
      | inr miss ↦
          put_miss k (record { key = key; times = times }) entries (without key entries) miss e w
    ]

-- A table that is not over its limit loses no key.
pub evict-fits :
    (max_keys : ℕ) (entries : List Failures)
    → length entries ≤ max_keys
    → evict max_keys entries ≡ entries
unfolding evict
evict-fits max_keys [] le = refl
evict-fits max_keys (entry ∷ entries) le =
    let fits : ltb max_keys (length (entry ∷ entries)) ≡ false = ground (arith, le) in rw fits refl

pub evict_bounds :
    (max_keys : ℕ) (entries : List Failures) → length (evict max_keys entries) ≤ max_keys
unfolding evict
evict_bounds max_keys [] = omega arith
evict_bounds max_keys (entry ∷ entries) = ground (arith, evict_bounds max_keys entries)

-- The same with no entry and an empty queue taken for one.
pub times_or-without :
    (k key : Text) (entries : List Failures)
    → times_or k (without key entries) ≡ (if text_eq key k then [] else times_or k entries)
times_or-without k key entries = ground (arith, times_of-without k key entries)

pub times_or-put_last :
    (k key : Text) (times : List ℕ) (entries : List Failures)
    → times_or k (put_last key times entries)
      ≡ (if text_eq key k then times else times_or k entries)
times_or-put_last k key times entries = ground (arith, times_of-put_last k key times entries)
