-- ===== src/Replay/Control.antt =====
-- The controls of a replay (backend/app/ingestion/dataset_replay.py) and its background task.
use intrusion_detect.Common.{
  ℕ, zero, suc, ◌+◌, ◌-◌, ◌<◌, ◌≡◌, refl, ◌≢◌, ◌⊎◌, Bool, true, false, inl, inr, Option, none, some,
  List, [], ◌∷◌, arith, Bool-cases, Text,
}
use intrusion_detect.Errors.{Exception, Result, ok, err, >>=-ok}
use intrusion_detect.Common.{length, codes}
use intrusion_detect.Replay.{
  StartOptions, Row, total_of, matching_rows, dataset_total, scenario_matches, count_dataset,
  of_dataset, counted_start, start_dataset, idle, running, paused, completed, stopped, failed,
  ReplayState, Task, no_task, gate, working, cancelling, done, DatasetReplay, begin, start,
  start_custom, pause, resume, stop, Progress, goes_on, raises, advance, can_resume, cancelled_task,
  with_speed, is_running, is_idle,
}

-- A call on the replay, or what its task does next.
pub data Event : Type 0 where
  starts : ℕ → ℕ → ℕ → Text → Event
  starts_dataset : List Row → ℕ → ℕ → Text → ℕ → Option ℕ → Event
  pauses stops : Event
  resumes : Option ℕ → Event
  advances : Progress → Event

unfoldable pub step : Event → DatasetReplay → DatasetReplay
unfolding start_custom start_dataset pause resume stop advance
step (starts observations interval_ms speed scenario) r =
    (start_custom observations interval_ms speed scenario r).0
step (starts_dataset rows interval_ms speed scenario offset limit) r =
    (start_dataset rows interval_ms speed scenario offset limit r).0
step pauses r = (pause r).0
step stops r = stop r
step (resumes speed) r = (resume speed r).0
step (advances progress) r = advance progress r

unfoldable pub steps : List Event → DatasetReplay → DatasetReplay
unfolding step
steps [] r = r
steps (event ∷ events) r = steps events (step event r)

-- A running task has processed what does not lie before it; the gate is closed exactly when the
-- replay is paused.
abbrev pub Active : ReplayState → Bool → ℕ → Type 0
Active s resume_set n =
    (s.processed + n ≡ s.total)
    × (((s.status ≡ running) × (resume_set ≡ true)) ⊎ ((s.status ≡ paused) × (resume_set ≡ false)))

-- A task that has ended leaves a final status; `completed` is left only when every observation was
-- processed.
abbrev pub Final : ReplayState → Type 0
Final s =
    ((s.status ≡ completed) × (s.processed ≡ s.total))
    ⊎ (s.status ≡ stopped)
    ⊎ ((s.status ≡ failed) × (s.error ≢ none))

abbrev pub Consistent : ReplayState → Bool → Task → Type 0
Consistent s resume_set no_task = (s.status ≡ idle) ⊎ (s.status ≡ stopped)
Consistent s resume_set (gate n) = Active s resume_set n
Consistent s resume_set (working n) = (0 < n) × Active s resume_set n
Consistent s resume_set cancelling = s.status ≡ stopped
Consistent s resume_set done = Final s

abbrev pub IsConsistent : DatasetReplay → Type 0
IsConsistent r = Consistent r.state r.resume_set r.task

stop_task :
    (s : ReplayState) (resume_set : Bool) (task : Task)
    → Consistent s resume_set task
    → Consistent (record s { status = stopped }) true (cancelled_task task)
stop_task s resume_set no_task h = inr refl
stop_task s resume_set (gate n) h = refl
stop_task s resume_set (working n) h = refl
stop_task s resume_set cancelling h = refl
stop_task s resume_set done h = inr (inl refl)

resume_task :
    (s : ReplayState) (resume_set : Bool) (task : Task)
    → Consistent s resume_set task
    → can_resume s.status ≡ true
    → Consistent (record s { status = running }) true task
resume_task s resume_set no_task h c = absurd (ground arith)
resume_task s resume_set (gate n) h c = (h.0, inl (refl, refl))
resume_task s resume_set (working n) h c = (h.0, (h.1.0, inl (refl, refl)))
resume_task s resume_set cancelling h c = absurd (ground arith)
resume_task s resume_set done h c = absurd (ground arith)

-- A new speed matters to no other field.
speed_task :
    (s : ReplayState) (resume_set : Bool) (speed : ℕ) (task : Task)
    → Consistent s resume_set task
    → Consistent (record s { speed = speed }) resume_set task
speed_task s resume_set speed no_task h = h
speed_task s resume_set speed (gate n) h = h
speed_task s resume_set speed (working n) h = h
speed_task s resume_set speed cancelling h = h
speed_task s resume_set speed done h = h

pause_task :
    (s : ReplayState) (resume_set : Bool) (task : Task)
    → Consistent s resume_set task
    → s.status ≡ running
    → Consistent (record s { status = paused }) false task
pause_task s resume_set no_task h c = absurd (ground arith)
pause_task s resume_set (gate n) h c = (h.0, inr (refl, refl))
pause_task s resume_set (working n) h c = (h.0, (h.1.0, inr (refl, refl)))
pause_task s resume_set cancelling h c = absurd (ground arith)
pause_task s resume_set done h c = absurd (ground arith)

with_speed-IsConsistent :
    (speed : Option ℕ) (r : DatasetReplay) → IsConsistent r → IsConsistent (with_speed speed r)
with_speed-IsConsistent none r h = h
with_speed-IsConsistent (some speed) r h = speed_task r.state r.resume_set speed r.task h

resume-IsConsistent :
    (speed : Option ℕ) (r : DatasetReplay) → IsConsistent r → IsConsistent (resume speed r).0
unfolding resume
resume-IsConsistent none r h = elim (Bool-cases (can_resume r.state.status)) [
  | inl can ↦ rw can (resume_task r.state r.resume_set r.task h can)
  | inr cannot ↦ rw cannot h
]
resume-IsConsistent (some speed) r h = elim (Bool-cases (can_resume r.state.status)) [
  | inl can ↦ rw can (
      resume_task (record r.state { speed = speed }) r.resume_set r.task
        (speed_task r.state r.resume_set speed r.task h) can)
  | inr cannot ↦ rw cannot (speed_task r.state r.resume_set speed r.task h)
]

pause-IsConsistent : (r : DatasetReplay) → IsConsistent r → IsConsistent (pause r).0
unfolding pause
pause-IsConsistent r h = elim (Bool-cases (is_running r.state.status)) [
  | inl can ↦ rw can (pause_task r.state r.resume_set r.task h (ground (arith, can)))
  | inr cannot ↦ rw cannot h
]

start-IsConsistent :
    (observations interval_ms speed : ℕ) (scenario : Text) (r : DatasetReplay)
    → IsConsistent r
    → IsConsistent (start_custom observations interval_ms speed scenario r).0
unfolding start_custom start begin
start-IsConsistent observations interval_ms speed scenario r h =
    elim (Bool-cases (is_idle r.task)) [
      | inl free ↦
          rw free (let e : 0 + observations ≡ observations = omega arith in (e, inl (refl, refl)))
      | inr busy ↦ rw busy h
    ]

begin-IsConsistent :
    (o : StartOptions) (r : DatasetReplay)
    → o.total ≡ o.observations
    → IsConsistent r
    → IsConsistent (start o r).0
unfolding start begin
begin-IsConsistent o r e h = elim (Bool-cases (is_idle r.task)) [
  | inl free ↦
      rw free (let sum : 0 + o.observations ≡ o.total = omega arith in (sum, inl (refl, refl)))
  | inr busy ↦ rw busy h
]

total_of-ok :
    (rows : List Row) (raised : Option Exception) (total : ℕ)
    → total_of (rows, raised) ≡ ok total
    → total ≡ length rows
unfolding total_of
total_of-ok rows none total h = ground arith
total_of-ok rows (some e) total h = cc

-- A count that is returned is the number of rows that the task will read.
count_dataset-ok :
    (rows : List Row) (scenario : Text) (offset : ℕ) (limit : Option ℕ) (r : DatasetReplay)
    (total : ℕ)
    → count_dataset (some rows) scenario offset limit r ≡ ok total
    → total ≡ length (matching_rows scenario offset limit rows).0
unfolding count_dataset dataset_total
count_dataset-ok rows scenario offset limit r total h = elim (Bool-cases (is_idle r.task)) [
  | inl free ↦
      let (known, counted, e) =
        >>=-ok (scenario_matches (codes "__validation__") scenario)
          (λ _. total_of (matching_rows scenario offset limit rows)) (rw free at h) in
      total_of-ok (matching_rows scenario offset limit rows).0
        (matching_rows scenario offset limit rows).1 total e
  | inr busy ↦ cc (rw busy at h)
]

counted_start-IsConsistent :
    (rows : List Row) (interval_ms speed : ℕ) (scenario : Text) (offset : ℕ) (limit : Option ℕ)
    (counted : Result ℕ) (r : DatasetReplay)
    → ((total : ℕ)
        → counted ≡ ok total
        → total ≡ length (matching_rows scenario offset limit rows).0)
    → IsConsistent r
    → IsConsistent (counted_start rows interval_ms speed scenario offset limit counted r).0
unfolding counted_start
counted_start-IsConsistent rows interval_ms speed scenario offset limit (err e) r k h = h
counted_start-IsConsistent rows interval_ms speed scenario offset limit (ok total) r k h =
    begin-IsConsistent (of_dataset rows interval_ms speed scenario offset limit total) r
      (k total refl) h

-- The task by itself.
advance_task :
    (progress : Progress) (r : DatasetReplay) (task : Task)
    → Consistent r.state r.resume_set task
    → IsConsistent (advance progress (record r { task = task }))
unfolding advance
advance_task progress r no_task h = h
advance_task progress r (gate zero) h = inl (refl, omega arith)
advance_task progress r (gate (suc n)) h = elim (Bool-cases r.resume_set) [
  | inl set ↦ rw set (omega arith, rw set at h)
  | inr clear ↦ rw clear (rw clear at h)
]
advance_task goes_on r (working n) h =
    let positive = h.0 in
    let sum = h.1.0 in
    let gated = h.1.1 in
    let e : r.state.processed + 1 + (n - 1) ≡ r.state.total = omega arith in (e, gated)
advance_task (raises error) r (working n) h = inr (inr (refl, λ e. cc))
advance_task progress r cancelling h = inr (inl refl)
advance_task progress r done h = h

step-IsConsistent :
    (event : Event) (r : DatasetReplay) → IsConsistent r → IsConsistent (step event r)
unfolding step
step-IsConsistent (starts observations interval_ms speed scenario) r h =
    start-IsConsistent observations interval_ms speed scenario r h
step-IsConsistent (starts_dataset rows interval_ms speed scenario offset limit) r h =
    unfold start_dataset in
    counted_start-IsConsistent rows interval_ms speed scenario offset limit
      (count_dataset (some rows) scenario offset limit r) r
      (count_dataset-ok rows scenario offset limit r) h
step-IsConsistent pauses r h = pause-IsConsistent r h
step-IsConsistent stops r h = unfold stop in stop_task r.state r.resume_set r.task h
step-IsConsistent (resumes speed) r h = resume-IsConsistent speed r h
step-IsConsistent (advances progress) r h = advance_task progress r r.task h

-- From a consistent replay, whatever calls reach it with custom observations or with the rows of
-- the dataset, and however its task proceeds between them, its status agrees with its task: it is
-- running or paused while the task is at work, the gate is closed exactly when it is paused,
-- `processed` and the observations still to come add up to `total`, `completed` is left only when
-- all are processed, and `failed` with an error.
pub steps-IsConsistent :
    (events : List Event) (r : DatasetReplay) → IsConsistent r → IsConsistent (steps events r)
unfolding steps
steps-IsConsistent [] r h = h
steps-IsConsistent (event ∷ events) r h =
    steps-IsConsistent events (step event r) (step-IsConsistent event r h)
