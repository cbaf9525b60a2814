-- ===== src/Outbox/Endings.antt =====
-- `mark_published`, `record_failure` and `dispatch_one` of backend/app/ingestion/outbox.py after a claim.
use intrusion_detect.Common.{ℕ, ◌+◌, ◌<◌, ◌≡◌, refl, ◌≢◌, true, false, some, List, arith}
use intrusion_detect.Errors.{Exception}
use intrusion_detect.Store.{OutboxEvent}
use intrusion_detect.Ingestion.Lease.{seconds}
use intrusion_detect.Worker.Failure.{error_text}
use intrusion_detect.Outbox.{
  ClaimedEvent, is_claimable, is_held, claim_one, publish_row, mark_published, fail_row,
  record_failure, update_where, row_count,
}
use intrusion_detect.Outbox.Counts.{UniqueOutboxIds, update_where-none, row_count-update}
use intrusion_detect.Outbox.Claims.{
  Claim, claim_one_lem, claimed-held, claimed-lost, claimed_unique, claimable-keyed, held-keyed,
}

-- Where the keys are unique and another claim, with another token, has taken the event over, the
-- end of the first delivery changes no row, and both `mark_published` and `record_failure` return
-- `False`.
pub stale_end :
    (now later lease_seconds token retry_seconds : ℕ) (seen events : List OutboxEvent)
    (stale claim : ClaimedEvent) (error : Exception)
    → UniqueOutboxIds events
    → (claim_one now lease_seconds token seen events).1 ≡ some claim
    → stale.outbox_id ≡ claim.outbox_id
    → stale.claim_token ≢ token
    → (mark_published later stale (claim_one now lease_seconds token seen events).0
        ≡ ((claim_one now lease_seconds token seen events).0, false))
      × (record_failure later stale error retry_seconds
            (claim_one now lease_seconds token seen events).0
          ≡ ((claim_one now lease_seconds token seen events).0, false))
unfolding mark_published record_failure
stale_end now later lease_seconds token retry_seconds seen events stale claim error u e same ne =
    let events' = (claim_one now lease_seconds token seen events).0 in
    let c = claim_one_lem now lease_seconds token seen events claim e in
    let lost = claimed-lost now lease_seconds token events events' claim u c stale same ne in
    (
      rw (update_where-none (is_held stale) (publish_row later) events' lost, lost) refl,
      rw
          (
            update_where-none (is_held stale) (fail_row later (error_text error) retry_seconds)
                events' lost,
            lost,
          )
          refl,
    )

module _ (now lease_seconds token : ℕ) (events events' : List OutboxEvent) (claim : ClaimedEvent)
    (unique : UniqueOutboxIds events) (c : Claim now lease_seconds token events events' claim) where
  -- A change of the held row that no claim at `later` may take.
  ended-unclaimable :
      (change : OutboxEvent → OutboxEvent) (later : ℕ)
      → ((e : OutboxEvent)
          → is_held claim e ≡ true
          → is_claimable later claim.outbox_id (change e) ≡ false)
      → row_count (is_claimable later claim.outbox_id) (update_where (is_held claim) change events')
        ≡ 0
  ended-unclaimable change later closed =
      let bound = claimed_unique now lease_seconds token events events' claim unique c in
      let one = claimed-held now lease_seconds token events events' claim unique c in
      row_count-update claim.outbox_id (is_held claim) change (held-keyed claim)
        (is_claimable later claim.outbox_id) false (claimable-keyed later claim.outbox_id) closed
        events' (omega arith)

-- Where the keys are unique, an event that its claimer marks as published right after the claim is
-- marked (`True`), and no dispatcher may claim it at any later time.
pub published_once :
    (now later lease_seconds token : ℕ) (seen events : List OutboxEvent) (claim : ClaimedEvent)
    → UniqueOutboxIds events
    → (claim_one now lease_seconds token seen events).1 ≡ some claim
    → ((mark_published later claim (claim_one now lease_seconds token seen events).0).1 ≡ true)
      × ((time : ℕ)
          → row_count
              (is_claimable time claim.outbox_id)
              (mark_published later claim (claim_one now lease_seconds token seen events).0).0
            ≡ 0)
unfolding mark_published
published_once now later lease_seconds token seen events claim u e =
    let events' = (claim_one now lease_seconds token seen events).0 in
    let c = claim_one_lem now lease_seconds token seen events claim e in
    (
      rw (claimed-held now lease_seconds token events events' claim u c) refl,
      λ time.
          ended-unclaimable now lease_seconds token events events' claim u c (publish_row later)
            time (λ row h. unfold publish_row in ground arith),
    )

-- Where the keys are unique, a failure that the claimer records right after the claim is recorded
-- (`True`), and no dispatcher may claim the event before the delay has passed.
pub failed_waits :
    (now later lease_seconds token retry_seconds : ℕ) (seen events : List OutboxEvent)
    (claim : ClaimedEvent) (error : Exception)
    → UniqueOutboxIds events
    → (claim_one now lease_seconds token seen events).1 ≡ some claim
    → ((record_failure later claim error retry_seconds
          (claim_one now lease_seconds token seen events).0).1
        ≡ true)
      × ((time : ℕ)
          → time < later + seconds retry_seconds
          → row_count
              (is_claimable time claim.outbox_id)
              (record_failure later claim error retry_seconds
                (claim_one now lease_seconds token seen events).0).0
            ≡ 0)
unfolding record_failure
failed_waits now later lease_seconds token retry_seconds seen events claim error u e =
    let events' = (claim_one now lease_seconds token seen events).0 in
    let c = claim_one_lem now lease_seconds token seen events claim e in
    (
      rw (claimed-held now lease_seconds token events events' claim u c) refl,
      λ time early.
          ended-unclaimable now lease_seconds token events events' claim u c
            (fail_row later (error_text error) retry_seconds) time
            (λ row h. unfold fail_row in ground (arith, early)),
    )
