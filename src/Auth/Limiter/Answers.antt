-- ===== src/Auth/Limiter/Answers.antt =====
-- `retry_after` of LoginRateLimiter (backend/app/api/auth.py): the queues it leaves and its answer.
use intrusion_detect.Common.{
  ℕ, ◌<◌, ◌≡◌, refl, inl, inr, Option, none, some, List, [], ◌∷◌, leb, if◌then◌else◌, length, arith,
  Bool-cases, Text, text_eq, text_eq_iff, is_some,
}
use intrusion_detect.Auth.Limiter.{
  LoginRateLimiter, queue, times_or, times_of, drop_expired, checked, checked_times, retry_after,
}
use intrusion_detect.Auth.Limiter.Table.{times_or-without, times_or-put_last}

times_or-checked :
    (k key : Text) (now : ℕ) (l : LoginRateLimiter) (live : List ℕ)
    → times_or k (checked key now l live).0.failures
      ≡ (if text_eq key k then live else times_or k l.failures)
unfolding checked
times_or-checked k key now l [] = times_or-without k key l.failures
times_or-checked k key now l (t ∷ times) = times_or-put_last k key (t ∷ times) l.failures

times_or-checked_times :
    (k key : Text) (now : ℕ) (l : LoginRateLimiter) (found : Option (List ℕ))
    → times_of key l.failures ≡ found
    → times_or k (checked_times key now l found).0.failures ≡ (
        if text_eq key k
        then drop_expired l.window_seconds now (queue found)
        else times_or k l.failures)
unfolding checked_times
times_or-checked_times k key now l none e = elim (Bool-cases (text_eq key k)) [
  | inl hit ↦
      let same : key ≡ k = (text_eq_iff key k).0 hit in
      let none_k : times_of k l.failures ≡ none = rw (← same) e in
      rw (hit, none_k) (unfold drop_expired in refl)
  | inr miss ↦ rw miss refl
]
times_or-checked_times k key now l (some times) e =
    times_or-checked k key now l (drop_expired l.window_seconds now times)

-- What a check leaves of each key's queue.
pub times_or-retry_after :
    (k key : Text) (now : ℕ) (l : LoginRateLimiter)
    → times_or k (retry_after key now l).0.failures ≡ (
        if text_eq key k
        then drop_expired l.window_seconds now (times_or key l.failures)
        else times_or k l.failures)
unfolding retry_after
times_or-retry_after k key now l = times_or-checked_times k key now l (times_of key l.failures) refl

checked-fields :
    (key : Text) (now : ℕ) (l : LoginRateLimiter) (live : List ℕ)
    → ((checked key now l live).0.maximum ≡ l.maximum)
      × ((checked key now l live).0.window_seconds ≡ l.window_seconds)
      × ((checked key now l live).0.max_keys ≡ l.max_keys)
unfolding checked
checked-fields key now l [] = (refl, refl, refl)
checked-fields key now l (t ∷ times) = (refl, refl, refl)

pub checked_times-fields :
    (key : Text) (now : ℕ) (l : LoginRateLimiter) (found : Option (List ℕ))
    → ((checked_times key now l found).0.maximum ≡ l.maximum)
      × ((checked_times key now l found).0.window_seconds ≡ l.window_seconds)
      × ((checked_times key now l found).0.max_keys ≡ l.max_keys)
unfolding checked_times
checked_times-fields key now l none = (refl, refl, refl)
checked_times-fields key now l (some times) =
    checked-fields key now l (drop_expired l.window_seconds now times)

-- The answer of a check by the queue that it leaves.
is_some-checked :
    (key : Text) (now : ℕ) (l : LoginRateLimiter) (live : List ℕ)
    → 0 < l.maximum
    → is_some (checked key now l live).1 ≡ leb l.maximum (length live)
unfolding checked
is_some-checked key now l [] positive = ground arith
is_some-checked key now l (t ∷ times) positive = ground arith

is_some-checked_times :
    (key : Text) (now : ℕ) (l : LoginRateLimiter) (found : Option (List ℕ))
    → 0 < l.maximum
    → is_some (checked_times key now l found).1
      ≡ leb l.maximum (length (drop_expired l.window_seconds now (queue found)))
unfolding checked_times drop_expired
is_some-checked_times key now l none positive = ground arith
is_some-checked_times key now l (some times) positive =
    is_some-checked key now l (drop_expired l.window_seconds now times) positive

pub is_some-retry_after :
    (key : Text) (now : ℕ) (l : LoginRateLimiter)
    → 0 < l.maximum
    → is_some (retry_after key now l).1
      ≡ leb l.maximum (length (drop_expired l.window_seconds now (times_or key l.failures)))
unfolding retry_after
is_some-retry_after key now l positive =
    is_some-checked_times key now l (times_of key l.failures) positive
