-- ===== src/Tests/Channels.antt =====
-- The theorems of the outbox, the live channel, the replay and the request limit at concrete inputs.
use intrusion_detect.Common.{
  ℕ, ◌+◌, ◌<◌, ◌≤◌, ◌≡◌, ◌≢◌, refl, true, false, none, some, List, [], ◌∷◌, Text, codes, arith,
  keep, length, inl,
}
use intrusion_detect.Errors.{Exception, ok, other_exception}
use intrusion_detect.Store.{OutboxEvent, prediction_created, attack}
use intrusion_detect.Ingestion.Lease.{seconds}
use intrusion_detect.Staging.{prediction_row}
use intrusion_detect.Serving.Inference.{detector_result}
use intrusion_detect.Outbox.{
  ClaimedEvent, claim_one, is_claimable, mark_published, record_failure, row_count,
}
use intrusion_detect.Outbox.Counts.{UniqueOutboxIds}
use intrusion_detect.Outbox.Claims.{claim_one_exclusive}
use intrusion_detect.Outbox.Endings.{stale_end, published_once, failed_waits}
use intrusion_detect.Live.{
  Event, Channel, arrive, answer, accepted, crashed, live, live_all, reserve, answered, connect,
}
use intrusion_detect.Live.Capacity.{IsSafe, live_all-IsSafe}
use intrusion_detect.Live.Leak.{crashes, crashes-leak}
use intrusion_detect.Replay.{
  Row, scenario_matches, is_normal, matching_rows, dataset_total, DatasetReplay, idle, no_task,
  goes_on,
}
use intrusion_detect.Replay.Rows.{matching_rows_lem, at_most, is_of, drop}
use intrusion_detect.Replay.Control.{
  IsConsistent, starts, pauses, resumes, stops, advances, steps, steps-IsConsistent,
}
use intrusion_detect.HttpLimits.{http_request, receive_body, IsBounded, receive_body-IsBounded}
use intrusion_detect.Tests.{detector, classifier}

abbrev event : ℕ → ℕ → OutboxEvent
event outbox_id created_at = record {
  outbox_id = outbox_id;
  event_id = 7;
  payload = prediction_created (record {
    prediction =
        prediction_row 50 1 7
          (detector_result (record { detector = detector; classifier = classifier }) [] attack 0);
    detection_score_calibrated = false;
    attack_class_score_calibrated = none;
    raw_features = [];
    network_context = none;
    alert_id = none;
  });
  created_at = created_at;
  published_at = none;
  publish_attempts = 0;
  last_error = none;
  claim_token = none;
  claim_expires_at = none;
  next_attempt_at = none;
}

abbrev events : List OutboxEvent
events = event 1 10 ∷ event 2 20 ∷ []

events_unique : UniqueOutboxIds events
unfolding row_count
events_unique outbox_id = ground arith

abbrev claim_of : ℕ → OutboxEvent → ClaimedEvent
claim_of token e = record {
  outbox_id = e.outbox_id;
  claim_token = token;
  payload = e.payload;
  prior_attempts = 0;
}

first_claim : (claim_one 30 60 5 events events).1 ≡ some (claim_of 5 (event 1 10))
unfolding claim_one
first_claim = refl

-- The second dispatcher claims the other event.
second_claim :
    (claim_one 40 60 6 (claim_one 30 60 5 events events).0 (claim_one 30 60 5 events events).0).1
    ≡ some (claim_of 6 (event 2 20))
unfolding claim_one
second_claim = refl

claim_one_exclusive_example :
    (claim_of 5 (event 1 10)).outbox_id ≢ (claim_of 6 (event 2 20)).outbox_id
claim_one_exclusive_example =
    claim_one_exclusive 30 40 60 60 5 6 events (claim_one 30 60 5 events events).0 events
      (claim_of 5 (event 1 10)) (claim_of 6 (event 2 20)) events_unique first_claim (omega arith)
      second_claim

abbrev delivery_error : Exception
delivery_error = record {
  exception_class = other_exception;
  type_name = codes "RuntimeError";
  message = codes "live";
}

stale_end_example :
    (mark_published 50 (claim_of 4 (event 1 10)) (claim_one 30 60 5 events events).0
      ≡ ((claim_one 30 60 5 events events).0, false))
    × (record_failure 50
          (claim_of 4 (event 1 10))
          delivery_error
          1
          (claim_one 30 60 5 events events).0
        ≡ ((claim_one 30 60 5 events events).0, false))
stale_end_example =
    stale_end 30 50 60 5 1 events events (claim_of 4 (event 1 10)) (claim_of 5 (event 1 10))
      delivery_error events_unique first_claim refl (omega arith)

published_once_example :
    ((mark_published 50 (claim_of 5 (event 1 10)) (claim_one 30 60 5 events events).0).1 ≡ true)
    × ((time : ℕ)
        → row_count
            (is_claimable time 1)
            (mark_published 50 (claim_of 5 (event 1 10)) (claim_one 30 60 5 events events).0).0
          ≡ 0)
published_once_example =
    published_once 30 50 60 5 events events (claim_of 5 (event 1 10)) events_unique first_claim

failed_waits_example :
    ((record_failure 50
        (claim_of 5 (event 1 10))
        delivery_error
        2
        (claim_one 30 60 5 events events).0).1
      ≡ true)
    × ((time : ℕ)
        → time < 50 + seconds 2
        → row_count
            (is_claimable time 1)
            (record_failure 50
              (claim_of 5 (event 1 10))
              delivery_error
              2
              (claim_one 30 60 5 events events).0).0
          ≡ 0)
failed_waits_example =
    failed_waits 30 50 60 5 2 events events (claim_of 5 (event 1 10)) delivery_error events_unique
      first_claim

abbrev channel : Channel
channel = record {
  manager = record { max_connections = 2; connections = []; pending_connections = 0 };
  waiting = 0;
}

live_all-IsSafe_example :
    IsSafe 2 (live_all (arrive ∷ arrive ∷ arrive ∷ answer 3 accepted ∷ []) channel)
live_all-IsSafe_example =
    live_all-IsSafe 2 (arrive ∷ arrive ∷ arrive ∷ answer 3 accepted ∷ []) channel
      (record { limited = refl; bounded = omega arith; covered = omega arith })

-- One endpoint is let in, two crash, one of them after the other has arrived; then one arrives again.
abbrev crashing : List Event
crashing =
    arrive ∷ answer 1 crashed ∷ arrive ∷ arrive ∷ answer 2 accepted ∷ answer 3 crashed ∷ arrive ∷ []

abbrev wide_channel : Channel
wide_channel = record {
  manager = record { max_connections = 4; connections = []; pending_connections = 0 };
  waiting = 0;
}

crashes-leak_example :
    ((live_all crashing wide_channel).manager.pending_connections + 0
      ≡ 0 + (live_all crashing wide_channel).waiting + crashes crashing wide_channel)
    × (length (live_all crashing wide_channel).manager.connections
          + (live_all crashing wide_channel).waiting
          + crashes crashing wide_channel
        ≤ 4)
crashes-leak_example =
    crashes-leak 4 crashing wide_channel
      (record { limited = refl; bounded = omega arith; covered = omega arith })

-- Two places of the four are lost.
two_lost : crashes crashing wide_channel ≡ 2
unfolding crashes live reserve answered connect
two_lost = refl

abbrev row : Text → Row
row label = record { attack_type = label; values = [] }

abbrev dataset : List Row
dataset = row (codes "MQTT") ∷ row (codes "DOS_SYN_Hping") ∷ row (codes "MQTT") ∷ []

normal_known : scenario_matches (codes "__validation__") (codes "normal") ≡ ok false
unfolding scenario_matches is_normal
normal_known = refl

matching_rows_lem_example :
    (matching_rows (codes "normal") 1 (some 5) dataset
      ≡ (at_most (some 5) 0 (keep (is_of (codes "normal")) (drop 1 dataset)), none))
    × (dataset_total (codes "normal") 1 (some 5) dataset
        ≡ ok (length (at_most (some 5) 0 (keep (is_of (codes "normal")) (drop 1 dataset)))))
matching_rows_lem_example =
    matching_rows_lem (codes "normal") (codes "__validation__") false 1 (some 5) dataset
      normal_known

abbrev replay : DatasetReplay
replay = record {
  state = record {
    status = idle;
    processed = 0;
    total = 0;
    error = none;
    speed = 1;
    scenario = codes "custom";
    mode = codes "custom";
    offset = 0;
    limit = none;
  };
  task = no_task;
  resume_set = true;
  base_interval_ms = 1000;
}

steps-IsConsistent_example : IsConsistent (
    steps
      (starts 2 0 1 (codes "custom") ∷ advances goes_on ∷ pauses ∷ resumes none ∷ stops ∷ [])
      replay)
steps-IsConsistent_example =
    steps-IsConsistent
      (starts 2 0 1 (codes "custom") ∷ advances goes_on ∷ pauses ∷ resumes none ∷ stops ∷ []) replay
      (inl refl)

receive_body-IsBounded_example :
    IsBounded 4 0
      (http_request (1 ∷ 2 ∷ []) true ∷ http_request (3 ∷ []) false ∷ [])
      (receive_body 4 0 (http_request (1 ∷ 2 ∷ []) true ∷ http_request (3 ∷ []) false ∷ []))
receive_body-IsBounded_example =
    receive_body-IsBounded 4 0 (http_request (1 ∷ 2 ∷ []) true ∷ http_request (3 ∷ []) false ∷ [])
      (omega arith)
