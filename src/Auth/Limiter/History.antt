-- ===== src/Auth/Limiter/History.antt =====
-- The rate limiter against the history of the logins: an abstract limiter remembers every failure
-- since the last success of a key.
use intrusion_detect.Common.{
  ℕ, ◌≤◌, ◌<◌, ◌≡◌, refl, ap, ◌∙◌, inl, inr, List, [], ◌∷◌, ◌++◌, leb, if◌then◌else◌, length,
  count_if, All, All-imp, All-append, arith, Bool-cases, Text, text_eq, text_eq_iff, is_some,
}
use intrusion_detect.Auth.Limiter.{
  Failures, LoginRateLimiter, times_or, times_of, put_last, drop_expired, retry_after, failed,
  succeeded,
}
use intrusion_detect.Auth.Limiter.Table.{times_or-without, times_or-put_last, evict-fits}
use intrusion_detect.Auth.Limiter.Windows.{
  drop_expired-drop_expired, drop_expired-append_eq, IsSorted, IsSorted-append, is_recent,
  length-drop_expired,
}
use intrusion_detect.Auth.Limiter.Answers.{
  times_or-retry_after, checked_times-fields, is_some-retry_after,
}

pub data Event : Type 0 where
  fails checks : Text → ℕ → Event
  succeeds : Text → Event

unfoldable pub handle : Event → LoginRateLimiter → LoginRateLimiter
unfolding retry_after failed succeeded
handle (fails key now) l = failed key now l
handle (checks key now) l = (retry_after key now l).0
handle (succeeds key) l = succeeded key l

unfoldable pub handle_all : List Event → LoginRateLimiter → LoginRateLimiter
unfolding handle
handle_all [] l = l
handle_all (event ∷ events) l = handle_all events (handle event l)

-- The failures of a key since its last success.
abbrev pub note : Text → Event → List ℕ → List ℕ
note k (fails key now) times = if text_eq key k then times ++ now ∷ [] else times
note k (checks key now) times = times
note k (succeeds key) times = if text_eq key k then [] else times

abbrev pub recorded : Text → List ℕ → List Event → List ℕ
recorded k times [] = times
recorded k times (event ∷ events) = recorded k (note k event times) events

abbrev pub time_of : ℕ → Event → ℕ
time_of last (fails key now) = now
time_of last (checks key now) = now
time_of last (succeeds key) = last

-- The time after the events, which stand in order.
abbrev pub last_time : ℕ → List Event → ℕ
last_time last [] = last
last_time last (event ∷ events) = last_time (time_of last event) events

abbrev pub InOrder : ℕ → List Event → Type 0
InOrder last [] = Unit
InOrder last (event ∷ events) = (last ≤ time_of last event) × InOrder (time_of last event) events

-- The table has room for each new key.
abbrev pub HasRoom : Event → LoginRateLimiter → Type 0
HasRoom (fails key now) l =
    length (put_last key (times_or key l.failures ++ now ∷ []) l.failures) ≤ l.max_keys
HasRoom (checks key now) l = Unit
HasRoom (succeeds key) l = Unit

abbrev pub HaveRoom : List Event → LoginRateLimiter → Type 0
HaveRoom [] l = Unit
HaveRoom (event ∷ events) l = HasRoom event l × HaveRoom events (handle event l)

-- From `last` on, the table and the history agree on every window.
record Agrees (window last : ℕ) (entries : List Failures) (past : Text → List ℕ) : Type 0 where
  same :
      (k : Text) (now : ℕ)
      → last ≤ now
      → drop_expired window now (times_or k entries) ≡ drop_expired window now (past k)
  sorted : (k : Text) → IsSorted (past k)
  over : (k : Text) → All (λ t. t ≤ last) (past k)

-- No event changes the configuration.
handle-fields :
    (event : Event) (l : LoginRateLimiter)
    → ((handle event l).maximum ≡ l.maximum)
      × ((handle event l).window_seconds ≡ l.window_seconds)
      × ((handle event l).max_keys ≡ l.max_keys)
unfolding handle retry_after failed succeeded
handle-fields (fails key now) l = (refl, refl, refl)
handle-fields (succeeds key) l = (refl, refl, refl)
handle-fields (checks key now) l = checked_times-fields key now l (times_of key l.failures)

fails-Agrees :
    (key : Text) (now last : ℕ) (l : LoginRateLimiter) (past : Text → List ℕ)
    → Agrees l.window_seconds last l.failures past
    → last ≤ now
    → HasRoom (fails key now) l
    → Agrees l.window_seconds now (failed key now l).failures (λ k. note k (fails key now) (past k))
unfolding failed
fails-Agrees key now last l past a le room = rw (evict-fits l.max_keys _ room) (record {
  same = λ k later le'. elim (Bool-cases (text_eq key k)) [
    | inl hit ↦
        let same : key ≡ k = (text_eq_iff key k).0 hit in
        rw (times_or-put_last k key (times_or key l.failures ++ now ∷ []) l.failures, hit, same)
          (drop_expired-append_eq l.window_seconds later (times_or k l.failures) (past k) (now ∷ [])
            (a.same k later (omega arith)))
    | inr miss ↦
        rw (times_or-put_last k key (times_or key l.failures ++ now ∷ []) l.failures, miss)
          (a.same k later (omega arith))
  ];
  sorted = λ k. elim (Bool-cases (text_eq key k)) [
    | inl hit ↦ rw hit (IsSorted-append (past k) now (a.sorted k) (over_later k))
    | inr miss ↦ rw miss (a.sorted k)
  ];
  over = λ k. elim (Bool-cases (text_eq key k)) [
    | inl hit ↦ rw hit (All-append (λ t. t ≤ now) (past k) (now ∷ []) (over_later k) (omega arith))
    | inr miss ↦ rw miss (over_later k)
  ];
})
  where
    over_later : (k : Text) → All (λ t. t ≤ now) (past k)
    over_later k = All-imp (λ t. t ≤ last) (λ t. t ≤ now) (past k) (λ t h. omega arith) (a.over k)

checks-Agrees :
    (key : Text) (now last : ℕ) (l : LoginRateLimiter) (past : Text → List ℕ)
    → Agrees l.window_seconds last l.failures past
    → last ≤ now
    → Agrees l.window_seconds now (retry_after key now l).0.failures past
checks-Agrees key now last l past a le = record {
  same = λ k later le'. elim (Bool-cases (text_eq key k)) [
    | inl hit ↦
        let same : key ≡ k = (text_eq_iff key k).0 hit in
        rw (times_or-retry_after k key now l, hit, same)
          (drop_expired-drop_expired l.window_seconds now later (times_or k l.failures) le'
            ∙ a.same k later (omega arith))
    | inr miss ↦ rw (times_or-retry_after k key now l, miss) (a.same k later (omega arith))
  ];
  sorted = a.sorted;
  over = λ k. All-imp (λ t. t ≤ last) (λ t. t ≤ now) (past k) (λ t h. omega arith) (a.over k);
}

succeeds-Agrees :
    (key : Text) (last : ℕ) (l : LoginRateLimiter) (past : Text → List ℕ)
    → Agrees l.window_seconds last l.failures past
    → Agrees l.window_seconds last (succeeded key l).failures (λ k. note k (succeeds key) (past k))
unfolding succeeded
succeeds-Agrees key last l past a = record {
  same = λ k later le. elim (Bool-cases (text_eq key k)) [
    | inl hit ↦ rw (times_or-without k key l.failures, hit) refl
    | inr miss ↦ rw (times_or-without k key l.failures, miss) (a.same k later le)
  ];
  sorted = λ k. elim (Bool-cases (text_eq key k)) [
    | inl hit ↦ rw hit tt
    | inr miss ↦ rw miss (a.sorted k)
  ];
  over = λ k. elim (Bool-cases (text_eq key k)) [
    | inl hit ↦ rw hit tt
    | inr miss ↦ rw miss (a.over k)
  ];
}

handle-Agrees :
    (event : Event) (last : ℕ) (l : LoginRateLimiter) (past : Text → List ℕ)
    → Agrees l.window_seconds last l.failures past
    → last ≤ time_of last event
    → HasRoom event l
    → Agrees l.window_seconds
        (time_of last event)
        (handle event l).failures
        (λ k. note k event (past k))
unfolding handle
handle-Agrees (fails key now) last l past a le room = fails-Agrees key now last l past a le room
handle-Agrees (checks key now) last l past a le room = checks-Agrees key now last l past a le
handle-Agrees (succeeds key) last l past a le room = succeeds-Agrees key last l past a

handle_all-Agrees :
    (events : List Event) (last : ℕ) (l : LoginRateLimiter) (past : Text → List ℕ)
    → Agrees l.window_seconds last l.failures past
    → InOrder last events
    → HaveRoom events l
    → Agrees l.window_seconds
        (last_time last events)
        (handle_all events l).failures
        (λ k. recorded k (past k) events)
      × ((handle_all events l).window_seconds ≡ l.window_seconds)
      × ((handle_all events l).maximum ≡ l.maximum)
unfolding handle_all
handle_all-Agrees [] last l past a order room = (a, refl, refl)
handle_all-Agrees (event ∷ events) last l past a order room =
    let (same_maximum, same_window, same_keys) = handle-fields event l in
    let (agree, window, maximum) =
      handle_all-Agrees events (time_of last event) (handle event l) (λ k. note k event (past k))
        (rw same_window (handle-Agrees event last l past a order.0 room.0)) order.1 room.1 in
    (rw same_window at agree, window ∙ same_window, maximum ∙ same_maximum)

-- A limiter that starts with no failures and a positive maximum, and whose table never overflows,
-- refines the history: after any events in the order of their times, a check at any later time
-- refuses a key exactly if the failures of that key since its last success that lie in the window
-- are at least the maximum.
pub retry_after-refines :
    (maximum window max_keys now : ℕ) (key : Text) (events : List Event)
    → 0 < maximum
    → InOrder 0 events
    → HaveRoom events
        (record { maximum = maximum; window_seconds = window; max_keys = max_keys; failures = [] })
    → last_time 0 events ≤ now
    → is_some
        (retry_after key now (
          handle_all events (record {
            maximum = maximum;
            window_seconds = window;
            max_keys = max_keys;
            failures = [];
          }))).1
      ≡ leb maximum (count_if (is_recent window now) (recorded key [] events))
retry_after-refines maximum window max_keys now key events positive order room later =
    let l : LoginRateLimiter = record {
      maximum = maximum;
      window_seconds = window;
      max_keys = max_keys;
      failures = [];
    } in
    let (a, same_window, same_maximum) =
      handle_all-Agrees events 0 l (λ k. [])
        (record { same = λ k t le. refl; sorted = λ k. tt; over = λ k. tt }) order room in
    let answer = is_some-retry_after key now (handle_all events l) (rw same_maximum positive) in
    answer
    ∙ rw (same_window, same_maximum)
        (ap (λ (n : ℕ). leb maximum n)
          (ap length (a.same key now later)
            ∙ length-drop_expired window now (recorded key [] events) (a.sorted key)))
