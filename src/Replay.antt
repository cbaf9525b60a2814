-- ===== src/Replay.antt =====
-- backend/app/ingestion/dataset_replay.py: which rows of the dataset are replayed, and the controls of a
-- running replay.
--
-- The background task is seen from its waits: it stands at the gate of `_resume`, or works on an
-- observation, each with the number of observations still to come. A speed is a binary64 pattern.
mod Dataset
pub mod Rows
pub mod Control
unfoldable pub use Dataset.*
use intrusion_detect.Common.{
  ℕ, zero, suc, ◌+◌, ◌-◌, Bool, true, false, not, ◌&&◌, ◌||◌, Option, none, some, List, [], ◌∷◌,
  ◌++◌, map, Text, codes, text_eq, starts_with, ltb, leb, if◌then◌else◌, length, any,
}
use intrusion_detect.Errors.{Exception, value_error, other_exception, Result, ok, err, ◌>>=◌}

pub data Status : Type 0 where
  idle running paused completed stopped failed : Status

pub record ReplayState : Type 0 where
  pub status : Status
  pub processed : ℕ
  pub total : ℕ
  pub error : Option Text
  pub speed : ℕ
  pub scenario : Text
  pub mode : Text
  pub offset : ℕ
  pub limit : Option ℕ

-- `gate n` and `working n`: `n` observations are not processed yet.
pub data Task : Type 0 where
  no_task : Task
  gate working : ℕ → Task
  cancelling done : Task

pub record DatasetReplay : Type 0 where
  pub state : ReplayState
  pub task : Task
  pub resume_set : Bool
  pub base_interval_ms : ℕ

abbrev pub is_idle : Task → Bool
is_idle no_task = true
is_idle done = true
is_idle _ = false

pub record StartOptions : Type 0 where
  pub observations : ℕ
  pub total : ℕ
  pub interval_ms : ℕ
  pub speed : ℕ
  pub scenario : Text
  pub mode : Text
  pub offset : ℕ
  pub limit : Option ℕ

abbrev runtime_error : Text → Exception
runtime_error message = record {
  exception_class = other_exception;
  type_name = codes "RuntimeError";
  message = message;
}

-- `_start`
unfoldable pub begin : StartOptions → DatasetReplay → DatasetReplay
begin o r = record {
  state = record {
    status = running;
    processed = 0;
    total = o.total;
    error = none;
    speed = o.speed;
    scenario = o.scenario;
    mode = o.mode;
    offset = o.offset;
    limit = o.limit;
  };
  task = gate o.observations;
  resume_set = true;
  base_interval_ms = o.interval_ms;
}

-- `_ensure_idle` and `_start`: the replay behind the call, and what the call raises.
unfoldable pub start : StartOptions → DatasetReplay → DatasetReplay × Option Exception
unfolding begin
start o r =
    if is_idle r.task
    then (begin o r, none)
    else (r, some (runtime_error (codes "replay is already running")))

abbrev pub custom : ℕ → ℕ → ℕ → Text → StartOptions
custom observations interval_ms speed scenario = record {
  observations = observations;
  total = observations;
  interval_ms = interval_ms;
  speed = speed;
  scenario = scenario;
  mode = codes "custom";
  offset = 0;
  limit = some observations;
}

unfoldable pub start_custom : ℕ → ℕ → ℕ → Text → DatasetReplay → DatasetReplay × Option Exception
unfolding start
start_custom observations interval_ms speed scenario r =
    start (custom observations interval_ms speed scenario) r

abbrev file_not_found : Exception
file_not_found = record {
  exception_class = other_exception;
  type_name = codes "FileNotFoundError";
  message = codes "replay dataset is unavailable; set IOT_IDS_DATASET_PATH";
}

-- `dataset` is the rows of the file, if there is one.
unfoldable pub count_dataset : Option (List Row) → Text → ℕ → Option ℕ → DatasetReplay → Result ℕ
unfolding dataset_total
count_dataset dataset scenario offset limit r =
    if is_idle r.task
    then elim dataset [
      | none ↦ err file_not_found
      | some rows ↦ scenario_matches (codes "__validation__") scenario >>= λ _.
          dataset_total scenario offset limit rows
    ]
    else err (runtime_error (codes "replay is already running"))

abbrev pub of_dataset : List Row → ℕ → ℕ → Text → ℕ → Option ℕ → ℕ → StartOptions
of_dataset rows interval_ms speed scenario offset limit total = record {
  observations = length (matching_rows scenario offset limit rows).0;
  total = total;
  interval_ms = interval_ms;
  speed = speed;
  scenario = scenario;
  mode = codes "dataset";
  offset = offset;
  limit = limit;
}

unfoldable pub counted_start :
    List Row
    → ℕ
    → ℕ
    → Text
    → ℕ
    → Option ℕ
    → Result ℕ
    → DatasetReplay
    → DatasetReplay × Option Exception
unfolding start
counted_start rows interval_ms speed scenario offset limit (err e) r = (r, some e)
counted_start rows interval_ms speed scenario offset limit (ok total) r =
    start (of_dataset rows interval_ms speed scenario offset limit total) r

-- `start_dataset` without a prepared total; the task reads the same rows as the count.
unfoldable pub start_dataset :
    List Row → ℕ → ℕ → Text → ℕ → Option ℕ → DatasetReplay → DatasetReplay × Option Exception
unfolding counted_start
start_dataset rows interval_ms speed scenario offset limit r =
    counted_start rows interval_ms speed scenario offset limit
      (count_dataset (some rows) scenario offset limit r) r

abbrev pub with_status : Status → DatasetReplay → DatasetReplay
with_status s r = let state = r.state in record r { state = record state { status = s } }

abbrev pub is_running : Status → Bool
is_running running = true
is_running _ = false

unfoldable pub pause : DatasetReplay → DatasetReplay × Option Exception
pause r =
    if is_running r.state.status
    then (with_status paused (record r { resume_set = false }), none)
    else (r, some (runtime_error (codes "only a running replay can be paused")))

abbrev pub with_speed : Option ℕ → DatasetReplay → DatasetReplay
with_speed none r = r
with_speed (some s) r = let state = r.state in record r { state = record state { speed = s } }

abbrev pub can_resume : Status → Bool
can_resume running = true
can_resume paused = true
can_resume _ = false

unfoldable pub resume : Option ℕ → DatasetReplay → DatasetReplay × Option Exception
resume speed r =
    if can_resume r.state.status
    then (with_status running (record (with_speed speed r) { resume_set = true }), none)
    else (
      with_speed speed r,
      some (runtime_error (codes "only a paused or running replay can be resumed")),
    )

abbrev pub cancelled_task : Task → Task
cancelled_task (gate n) = cancelling
cancelled_task (working n) = cancelling
cancelled_task t = t

unfoldable pub stop : DatasetReplay → DatasetReplay
stop r = with_status stopped (record r { resume_set = true; task = cancelled_task r.task })

-- What happens to the background task next: it goes on if it can, `process_observation` raises, or
-- a cancellation reaches it.
pub data Progress : Type 0 where
  goes_on : Progress
  raises : Text → Progress

abbrev count_one : DatasetReplay → DatasetReplay
count_one r =
    let state = r.state in record r { state = record state { processed = state.processed + 1 } }

abbrev with_error : Text → DatasetReplay → DatasetReplay
with_error error r =
    let state = r.state in record r { state = record state { status = failed; error = some error } }

-- `_run`: at the gate the task waits for `_resume`, unless the observations are exhausted.
unfoldable pub advance : Progress → DatasetReplay → DatasetReplay
advance progress r = elim r.task [
  | no_task ↦ r
  | gate zero ↦ with_status completed (record r { task = done })
  | gate (suc n) ↦ if r.resume_set then record r { task = working (suc n) } else r
  | working n ↦ elim progress [
    | goes_on ↦ count_one (record r { task = gate (n - 1) })
    | raises error ↦ with_error error (record r { task = done })
  ]
  | cancelling ↦ with_status stopped (record r { task = done })
  | done ↦ r
]
