-- ===== src/Outbox.antt =====
-- backend/app/ingestion/outbox.py: claiming an event, publishing it, and recording the end.
--
-- Each function is one transaction. A SELECT and the conditional UPDATE behind it may see
-- different rows, so `claim_one` takes both: `seen` is what the SELECT read.
pub mod Counts
pub mod Claims
pub mod Endings
use intrusion_detect.Common.{
  ℕ, ◌+◌, ◌^◌, Bool, true, false, ◌&&◌, ◌||◌, Option, none, some, List, [], ◌∷◌, Text, ltb, leb,
  ◌==◌, if◌then◌else◌, keep, min, is_none,
}
use intrusion_detect.Errors.{Exception}
use intrusion_detect.Store.{OutboxEvent, LiveEvent}
use intrusion_detect.Ingestion.Lease.{seconds}
use intrusion_detect.Worker.Failure.{error_text}

pub record ClaimedEvent : Type 0 where
  pub outbox_id : ℕ
  pub claim_token : ℕ
  pub payload : LiveEvent
  pub prior_attempts : ℕ

-- `column <= now`, true also of NULL as the conditions below use it.
abbrev pub is_due : ℕ → Option ℕ → Bool
is_due now none = true
is_due now (some t) = leb t now

-- `_available`
abbrev pub is_available : ℕ → OutboxEvent → Bool
is_available now e =
    is_none e.published_at
    && is_due now e.next_attempt_at
    && (is_none e.claim_token || is_due now e.claim_expires_at)

-- `ORDER BY created_at, outbox_id`
abbrev pub before : OutboxEvent → OutboxEvent → Bool
before a b =
    ltb a.created_at b.created_at || (a.created_at == b.created_at && ltb a.outbox_id b.outbox_id)

unfoldable pub first_of_order : Option OutboxEvent → List OutboxEvent → Option OutboxEvent
first_of_order best [] = best
first_of_order none (e ∷ es) = first_of_order (some e) es
first_of_order (some best) (e ∷ es) = first_of_order (some (if before e best then e else best)) es

unfoldable pub next_available : ℕ → List OutboxEvent → Option OutboxEvent
unfolding first_of_order
next_available now events = first_of_order none (keep (is_available now) events)

-- An UPDATE with a condition: the rows after it and `rowcount`.
unfoldable pub update_where :
    (OutboxEvent → Bool) → (OutboxEvent → OutboxEvent) → List OutboxEvent → List OutboxEvent
update_where condition change [] = []
update_where condition change (e ∷ es) =
    (if condition e then change e else e) ∷ update_where condition change es

unfoldable pub row_count : (OutboxEvent → Bool) → List OutboxEvent → ℕ
row_count condition [] = 0
row_count condition (e ∷ es) = (if condition e then 1 else 0) + row_count condition es

abbrev pub is_claimable : ℕ → ℕ → OutboxEvent → Bool
is_claimable now outbox_id e = e.outbox_id == outbox_id && is_available now e

unfoldable pub hold : ℕ → ℕ → ℕ → OutboxEvent → OutboxEvent
hold now lease_seconds token e = record e {
  claim_token = some token;
  claim_expires_at = some (now + seconds lease_seconds);
}

-- The conditional UPDATE: `rowcount != 1` is a rollback.
unfoldable pub claim_row :
    ℕ → ℕ → ℕ → OutboxEvent → List OutboxEvent → List OutboxEvent × Option ClaimedEvent
unfolding update_where row_count hold
claim_row now lease_seconds token row events =
    if row_count (is_claimable now row.outbox_id) events == 1
    then (
      update_where (is_claimable now row.outbox_id) (hold now lease_seconds token) events,
      some (record {
        outbox_id = row.outbox_id;
        claim_token = token;
        payload = row.payload;
        prior_attempts = row.publish_attempts;
      }),
    )
    else (events, none)

claim_found :
    ℕ → ℕ → ℕ → Option OutboxEvent → List OutboxEvent → List OutboxEvent × Option ClaimedEvent
unfolding claim_row
claim_found now lease_seconds token none events = (events, none)
claim_found now lease_seconds token (some row) events = claim_row now lease_seconds token row events

unfoldable pub claim_one :
    ℕ → ℕ → ℕ → List OutboxEvent → List OutboxEvent → List OutboxEvent × Option ClaimedEvent
unfolding claim_found next_available
claim_one now lease_seconds token seen events =
    claim_found now lease_seconds token (next_available now seen) events

abbrev pub holds_token : ℕ → Option ℕ → Bool
holds_token token none = false
holds_token token (some t) = t == token

-- The condition of both final UPDATEs.
abbrev pub is_held : ClaimedEvent → OutboxEvent → Bool
is_held claim e =
    e.outbox_id == claim.outbox_id
    && is_none e.published_at
    && holds_token claim.claim_token e.claim_token

unfoldable pub publish_row : ℕ → OutboxEvent → OutboxEvent
publish_row now e = record e {
  published_at = some now;
  publish_attempts = e.publish_attempts + 1;
  last_error = none;
  claim_token = none;
  claim_expires_at = none;
  next_attempt_at = none;
}

unfoldable pub mark_published : ℕ → ClaimedEvent → List OutboxEvent → List OutboxEvent × Bool
unfolding update_where row_count publish_row
mark_published now claim events =
    (update_where (is_held claim) (publish_row now) events, row_count (is_held claim) events == 1)

unfoldable pub fail_row : ℕ → Text → ℕ → OutboxEvent → OutboxEvent
fail_row now error retry_seconds e = record e {
  publish_attempts = e.publish_attempts + 1;
  last_error = some error;
  claim_token = none;
  claim_expires_at = none;
  next_attempt_at = some (now + seconds retry_seconds);
}

unfoldable pub record_failure :
    ℕ → ClaimedEvent → Exception → ℕ → List OutboxEvent → List OutboxEvent × Bool
unfolding update_where row_count fail_row
record_failure now claim error retry_seconds events = (
  update_where (is_held claim) (fail_row now (error_text error) retry_seconds) events,
  row_count (is_held claim) events == 1,
)

-- `_retry_delay`, in seconds.
unfoldable pub retry_delay : ℕ → ℕ
retry_delay prior_attempts = min 30 (2 ^ min prior_attempts 10)

-- How `live.broadcast` ends.
pub data Delivery : Type 0 where
  delivered : Delivery
  cancelled raised : Exception → Delivery

-- The rows after a dispatch, and whether it returns `True`; a cancellation is raised again.
pub data Dispatch : Type 0 where
  idle : Dispatch
  dispatched reraised : List OutboxEvent → Dispatch

unfoldable pub finish : ℕ → ClaimedEvent → Delivery → List OutboxEvent → Dispatch
unfolding mark_published record_failure
finish now claim delivered events = dispatched (mark_published now claim events).0
finish now claim (cancelled e) events = reraised (record_failure now claim e 0 events).0
finish now claim (raised e) events =
    dispatched (record_failure now claim e (retry_delay claim.prior_attempts) events).0

finish_claimed : ℕ → Delivery → List OutboxEvent × Option ClaimedEvent → Dispatch
unfolding finish
finish_claimed now _ (events, none) = idle
finish_claimed now outcome (events, some claim) = finish now claim outcome events

-- A dispatch that no other dispatcher interferes with; `later` is the time when delivery ended.
unfoldable pub dispatch_one : ℕ → ℕ → ℕ → ℕ → Delivery → List OutboxEvent → Dispatch
unfolding finish_claimed claim_one
dispatch_one now later lease_seconds token delivery events =
    finish_claimed later delivery (claim_one now lease_seconds token events events)
