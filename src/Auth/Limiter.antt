-- ===== src/Auth/Limiter.antt =====
-- `LoginRateLimiter` of backend/app/api/auth.py. Times are in microseconds. The ordered dictionary is
-- an association list, oldest key first; the lock makes each method one step.
pub mod Answers
pub mod Table
pub mod Windows
pub mod History
use intrusion_detect.Common.{
  ℕ, zero, suc, ◌+◌, ◌-◌, ◌/◌, ◌≤◌, ◌<◌, Bool, true, false, not, Option, none, some, List, [], ◌∷◌,
  ◌++◌, Text, text_eq, ltb, leb, if◌then◌else◌, length, keep, max,
}
use intrusion_detect.Ingestion.Lease.{seconds}

pub record Failures : Type 0 where
  pub key : Text
  pub times : List ℕ

pub record LoginRateLimiter : Type 0 where
  pub maximum : ℕ
  pub window_seconds : ℕ
  pub max_keys : ℕ
  pub failures : List Failures

abbrev pub times_of : Text → List Failures → Option (List ℕ)
times_of key [] = none
times_of key (entry ∷ entries) =
    let rest = times_of key entries in if text_eq entry.key key then some entry.times else rest

-- `pop(key, None)`
abbrev pub without : Text → List Failures → List Failures
without key [] = []
without key (entry ∷ entries) =
    let rest = without key entries in if text_eq entry.key key then rest else entry ∷ rest

-- An assignment and `move_to_end`.
unfoldable pub put_last : Text → List ℕ → List Failures → List Failures
put_last key times entries = without key entries ++ record { key = key; times = times } ∷ []

-- `while failures and failures[0] <= cutoff: failures.popleft()`, without the subtraction.
unfoldable pub drop_expired : ℕ → ℕ → List ℕ → List ℕ
drop_expired window now [] = []
drop_expired window now (t ∷ times) =
    let rest = drop_expired window now times in
    if leb (t + seconds window) now then rest else t ∷ times

-- `max(1, int(failures[0] + self.window_seconds - now) + 1)` for a time that is not expired.
unfoldable pub wait_seconds : ℕ → ℕ → ℕ → ℕ
wait_seconds window now t = max 1 ((t + seconds window - now) / 1000000 + 1)

unfoldable pub checked : Text → ℕ → LoginRateLimiter → List ℕ → LoginRateLimiter × Option ℕ
unfolding put_last wait_seconds
checked key now l [] = (record l { failures = without key l.failures }, none)
checked key now l (t ∷ times) = (
  record l { failures = put_last key (t ∷ times) l.failures },
  if ltb (length (t ∷ times)) l.maximum then none else some (wait_seconds l.window_seconds now t),
)

unfoldable pub checked_times :
    Text → ℕ → LoginRateLimiter → Option (List ℕ) → LoginRateLimiter × Option ℕ
unfolding checked drop_expired
checked_times key now l none = (l, none)
checked_times key now l (some times) = checked key now l (drop_expired l.window_seconds now times)

unfoldable pub retry_after : Text → ℕ → LoginRateLimiter → LoginRateLimiter × Option ℕ
unfolding checked_times
retry_after key now l = checked_times key now l (times_of key l.failures)

-- `setdefault(key, deque())`
abbrev pub queue : Option (List ℕ) → List ℕ
queue none = []
queue (some times) = times

abbrev pub times_or : Text → List Failures → List ℕ
times_or key entries = queue (times_of key entries)

-- `while len(self._failures) > self.max_keys: self._failures.popitem(last=False)`
unfoldable pub evict : ℕ → List Failures → List Failures
evict max_keys [] = []
evict max_keys (entry ∷ entries) =
    let rest = evict max_keys entries in
    if ltb max_keys (length (entry ∷ entries)) then rest else entry ∷ entries

unfoldable pub failed : Text → ℕ → LoginRateLimiter → LoginRateLimiter
unfolding evict put_last
failed key now l = record l {
  failures = evict l.max_keys (put_last key (times_or key l.failures ++ now ∷ []) l.failures);
}

unfoldable pub succeeded : Text → LoginRateLimiter → LoginRateLimiter
succeeded key l = record l { failures = without key l.failures }

abbrev pub tracked_keys : LoginRateLimiter → ℕ
tracked_keys l = length l.failures
