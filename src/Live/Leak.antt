-- ===== src/Live/Leak.antt =====
-- Reservations of backend/app/live.py that backend/app/api/live.py does not release.
use intrusion_detect.Common.{
  ℕ, ◌+◌, ◌-◌, ◌≤◌, ◌<◌, ◌≡◌, Bool, true, false, List, [], ◌∷◌, arith, ◌==◌, Bool-cases, inl, inr,
  length, if◌then◌else◌,
}
use intrusion_detect.Live.{
  Manager, is_full, reserve, connect, release_reservation, left_loop, broadcast, Authentication,
  accepted, rejected, crashed, left, unsupported, interrupted, Event, arrive, answer, enter, leave,
  send, Channel, answered, arrived, stale, live, live_all, disconnect,
}
use intrusion_detect.Live.Capacity.{
  IsSafe, live-IsSafe, live_all-IsSafe, disconnect_all-keeps, enter-keeps,
}

abbrev is_crash : Authentication → Bool
is_crash accepted = false
is_crash rejected = false
is_crash crashed = true

abbrev one_crash : Event → Channel → ℕ
one_crash (answer websocket authentication) c =
    if c.waiting == 0 then 0 else if is_crash authentication then 1 else 0
one_crash arrive c = 0
one_crash (enter websocket) c = 0
one_crash (leave websocket ending) c = 0
one_crash (send sends) c = 0

-- How many waiting endpoints had an `_authenticate` that raised what its handlers do not name.
unfoldable pub crashes : List Event → Channel → ℕ
crashes [] c = 0
crashes (event ∷ events) c = one_crash event c + crashes events (live event c)

answered-leaks :
    (websocket waiting : ℕ) (authentication : Authentication) (m : Manager)
    → 0 < waiting
    → waiting ≤ m.pending_connections
    → (answered websocket authentication m).pending_connections + waiting
      ≡ m.pending_connections + (waiting - 1) + (if is_crash authentication then 1 else 0)
unfolding answered connect release_reservation
answered-leaks websocket waiting accepted m one held = omega arith
answered-leaks websocket waiting rejected m one held = omega arith
answered-leaks websocket waiting crashed m one held = omega arith

-- One event: reservations without an endpoint that waits become more by its crash, and never fewer.
live-leaks :
    (limit : ℕ) (event : Event) (c : Channel)
    → IsSafe limit c
    → (live event c).manager.pending_connections + c.waiting
      ≡ c.manager.pending_connections + (live event c).waiting + one_crash event c
unfolding live reserve arrived
live-leaks limit arrive c s = elim (Bool-cases (is_full c.manager)) [
  | inl full ↦ rw full (omega arith)
  | inr free ↦ rw free (omega arith)
]
live-leaks limit (answer websocket authentication) c s = elim (Bool-cases (c.waiting == 0)) [
  | inl nobody ↦ rw nobody (omega arith)
  | inr waits ↦ rw waits (
      answered-leaks websocket c.waiting authentication c.manager (ground (arith, waits)) s.covered)
]
live-leaks limit (enter websocket) c s = omega (arith, (enter-keeps websocket c.manager).1)
live-leaks limit (leave websocket left) c s = unfold left_loop disconnect in omega arith
live-leaks limit (leave websocket unsupported) c s = unfold left_loop disconnect in omega arith
live-leaks limit (leave websocket interrupted) c s = unfold left_loop in omega arith
live-leaks limit (send sends) c s =
    unfold broadcast in
    omega (arith, (disconnect_all-keeps (stale sends c.manager.connections) c.manager).1)

live_all-leaks :
    (limit : ℕ) (events : List Event) (c : Channel)
    → IsSafe limit c
    → (live_all events c).manager.pending_connections + c.waiting
      ≡ c.manager.pending_connections + (live_all events c).waiting + crashes events c
unfolding live_all crashes
live_all-leaks limit [] c s = omega arith
live_all-leaks limit (event ∷ events) c s = omega (
  arith,
  live-leaks limit event c s,
  live_all-leaks limit events (live event c) (live-IsSafe limit event c s),
)

-- A place of the channel that an endpoint reserved whose `_authenticate` then raised what its
-- handlers do not name is lost for good: from a safe channel, after any events in any order, the
-- reservations that no waiting endpoint holds are those that there were before and one more for each
-- such crash, and the connections and waiting endpoints have no more room than these leave.
pub crashes-leak :
    (limit : ℕ) (events : List Event) (c : Channel)
    → IsSafe limit c
    → ((live_all events c).manager.pending_connections + c.waiting
        ≡ c.manager.pending_connections + (live_all events c).waiting + crashes events c)
      × (length (live_all events c).manager.connections
            + (live_all events c).waiting
            + crashes events c
          ≤ limit)
crashes-leak limit events c s =
    let leaks = live_all-leaks limit events c s in
    let after = live_all-IsSafe limit events c s in
    (leaks, omega (arith, leaks, after.limited, after.bounded, s.covered))
