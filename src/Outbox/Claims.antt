-- ===== src/Outbox/Claims.antt =====
-- The life of a claim in backend/app/ingestion/outbox.py: who may claim an event, and what the end of
-- a delivery leaves.
use mathlib.Core.Path.{subst}
use mathlib.Core.Option.{some-injective}
use intrusion_detect.Common.{
  ℕ, ◌+◌, ◌≤◌, ◌<◌, ◌≡◌, refl, ap, ◌∙◌, ◌≢◌, Bool, true, false, inl, inr, Option, none, some, List,
  arith, Bool-cases, if◌then◌else◌, ◌==◌, ==_iff,
}
use intrusion_detect.Store.{OutboxEvent}
use intrusion_detect.Ingestion.Lease.{seconds}
use intrusion_detect.Outbox.{
  ClaimedEvent, is_claimable, is_held, next_available, hold, claim_row, claim_found, claim_one,
  update_where, row_count,
}
use intrusion_detect.Outbox.Counts.{UniqueOutboxIds, has_id, row_count-update, row_count-has_id}

pub claimable-keyed :
    (now outbox_id : ℕ) (e : OutboxEvent)
    → is_claimable now outbox_id e ≡ true
    → has_id outbox_id e ≡ true
claimable-keyed now outbox_id e h = ground (arith, h)

pub held-keyed :
    (claim : ClaimedEvent) (e : OutboxEvent)
    → is_held claim e ≡ true
    → has_id claim.outbox_id e ≡ true
held-keyed claim e h = ground (arith, h)

-- What a dispatcher that got `claim` did to the table: exactly one row with that key was available,
-- and it is held by the token until the lease ends.
pub record Claim (now lease_seconds token : ℕ) (events events' : List OutboxEvent)
    (claim : ClaimedEvent) : Type 0 where
  pub own : claim.claim_token ≡ token
  pub one : row_count (is_claimable now claim.outbox_id) events ≡ 1
  pub after :
      events'
      ≡ update_where (is_claimable now claim.outbox_id) (hold now lease_seconds token) events

claim_row_lem :
    (now lease_seconds token : ℕ) (row : OutboxEvent) (events : List OutboxEvent)
    (claim : ClaimedEvent)
    → (claim_row now lease_seconds token row events).1 ≡ some claim
    → Claim now lease_seconds token events (claim_row now lease_seconds token row events).0 claim
unfolding claim_row
claim_row_lem now lease_seconds token row events claim e =
    elim (Bool-cases (row_count (is_claimable now row.outbox_id) events == 1)) [
      | inl one ↦
          let found = some-injective _ _ (rw one at e) in
          subst
            (Claim now lease_seconds token events (claim_row now lease_seconds token row events).0)
            found (record { own = refl; one = (==_iff _ _).0 one; after = rw one refl })
      | inr other ↦ cc (other, e)
    ]

claim_found_lem :
    (now lease_seconds token : ℕ) (found : Option OutboxEvent) (events : List OutboxEvent)
    (claim : ClaimedEvent)
    → (claim_found now lease_seconds token found events).1 ≡ some claim
    → Claim now lease_seconds token events
        (claim_found now lease_seconds token found events).0
        claim
unfolding claim_found
claim_found_lem now lease_seconds token none events claim e = cc
claim_found_lem now lease_seconds token (some row) events claim e =
    claim_row_lem now lease_seconds token row events claim e

pub claim_one_lem :
    (now lease_seconds token : ℕ) (seen events : List OutboxEvent) (claim : ClaimedEvent)
    → (claim_one now lease_seconds token seen events).1 ≡ some claim
    → Claim now lease_seconds token events (claim_one now lease_seconds token seen events).0 claim
unfolding claim_one
claim_one_lem now lease_seconds token seen events claim e =
    claim_found_lem now lease_seconds token (next_available now seen) events claim e

hold-key :
    (now lease_seconds token : ℕ) (e : OutboxEvent)
    → (hold now lease_seconds token e).outbox_id ≡ e.outbox_id
unfolding hold
hold-key now lease_seconds token e = refl

module _ (now lease_seconds token : ℕ) (events events' : List OutboxEvent) (claim : ClaimedEvent)
    (unique : UniqueOutboxIds events) (c : Claim now lease_seconds token events events' claim) where
  -- Every row with the key was claimable: there is one.
  all_claimable :
      row_count (has_id claim.outbox_id) events
      ≤ row_count (is_claimable now claim.outbox_id) events
  all_claimable = let bound = unique claim.outbox_id in let one = c.one in omega arith

  -- A condition on rows with the key, in the table after the claim.
  claimed_count :
      (q : OutboxEvent → Bool) (b : Bool)
      → ((e : OutboxEvent) → q e ≡ true → has_id claim.outbox_id e ≡ true)
      → ((e : OutboxEvent)
          → is_claimable now claim.outbox_id e ≡ true
          → q (hold now lease_seconds token e) ≡ b)
      → row_count q events' ≡ (if b then 1 else 0)
  claimed_count q b keyed changed =
      ap (row_count q) c.after
      ∙ row_count-update claim.outbox_id (is_claimable now claim.outbox_id)
          (hold now lease_seconds token) (claimable-keyed now claim.outbox_id) q b keyed changed
          events all_claimable
      ∙ ap (λ (n : ℕ). if b then n else 0) c.one

  -- Until the lease ends nobody can claim the row.
  pub claimed-unclaimable :
      (later : ℕ)
      → later < now + seconds lease_seconds
      → row_count (is_claimable later claim.outbox_id) events' ≡ 0
  claimed-unclaimable later leased =
      claimed_count (is_claimable later claim.outbox_id) false
        (claimable-keyed later claim.outbox_id) (λ e h. unfold hold in ground (arith, leased))

  pub claimed-held : row_count (is_held claim) events' ≡ 1
  claimed-held =
      claimed_count (is_held claim) true (held-keyed claim)
        (λ e h. let own = c.own in unfold hold in ground (arith, h, own))

  -- Another claim on the same row holds it no longer.
  pub claimed-lost :
      (stale : ClaimedEvent)
      → stale.outbox_id ≡ claim.outbox_id
      → stale.claim_token ≢ token
      → row_count (is_held stale) events' ≡ 0
  claimed-lost stale same ne =
      claimed_count (is_held stale) false
        (λ e h. subst (λ (k : ℕ). has_id k e ≡ true) same (held-keyed stale e h))
        (λ e h. unfold hold in ground (arith, ne))

  pub claimed_unique : row_count (has_id claim.outbox_id) events' ≤ 1
  claimed_unique =
      let bound = unique claim.outbox_id in
      let same =
        ap (row_count (has_id claim.outbox_id)) c.after
        ∙ row_count-has_id (is_claimable now claim.outbox_id) (hold now lease_seconds token)
            claim.outbox_id (hold-key now lease_seconds token) events in
      rw same bound

-- Where the keys are unique, while the lease of a claim lasts, no dispatcher claims the same
-- event, whatever table its SELECT read.
pub claim_one_exclusive :
    (now later lease_seconds other_seconds token other : ℕ) (seen seen' events : List OutboxEvent)
    (claim claim' : ClaimedEvent)
    → UniqueOutboxIds events
    → (claim_one now lease_seconds token seen events).1 ≡ some claim
    → later < now + seconds lease_seconds
    → (claim_one later other_seconds other seen'
        (claim_one now lease_seconds token seen events).0).1
      ≡ some claim'
    → claim.outbox_id ≢ claim'.outbox_id
claim_one_exclusive now later lease_seconds other_seconds token other seen seen' events claim claim'
      u e leased e' same =
    let events' = (claim_one now lease_seconds token seen events).0 in
    let c = claim_one_lem now lease_seconds token seen events claim e in
    let c' = claim_one_lem later other_seconds other seen' events' claim' e' in
    let closed =
      claimed-unclaimable now lease_seconds token events events' claim u c later leased in
    let one = c'.one in
    absurd
      (ground (arith, closed, one, ap (λ (k : ℕ). row_count (is_claimable later k) events') same))
