-- ===== src/Live.antt =====
-- `LiveConnectionManager` of backend/app/live.py and the `live` endpoint of
-- backend/app/api/live.py. A websocket is known by a number; the locks make each method atomic.
pub mod Capacity
pub mod Leak
use intrusion_detect.Common.{
  ℕ, ◌+◌, ◌-◌, Bool, true, false, not, List, [], ◌∷◌, leb, ◌==◌, if◌then◌else◌, mem, keep, length,
}

pub record Manager : Type 0 where
  pub max_connections : ℕ
  pub connections : List ℕ
  pub pending_connections : ℕ

-- `set.add` and `set.discard`
unfoldable pub add : ℕ → List ℕ → List ℕ
add websocket connections =
    if mem websocket connections then connections else websocket ∷ connections

unfoldable pub discard : ℕ → List ℕ → List ℕ
discard websocket connections = keep (λ other. not (other == websocket)) connections

abbrev pub is_full : Manager → Bool
is_full m = leb m.max_connections (length m.connections + m.pending_connections)

unfoldable pub reserve : Manager → Manager × Bool
reserve m =
    if is_full m
    then (m, false)
    else (record m { pending_connections = m.pending_connections + 1 }, true)

-- `max(0, n - 1)` is the truncated subtraction.
unfoldable pub release_reservation : Manager → Manager
release_reservation m = record m { pending_connections = m.pending_connections - 1 }

abbrev with_connection : ℕ → Manager → Manager
with_connection websocket m = record m { connections = add websocket m.connections }

unfoldable pub connect : ℕ → Bool → Manager → Manager × Bool
unfolding add
connect websocket true m =
    (with_connection websocket (record m { pending_connections = m.pending_connections - 1 }), true)
connect websocket false m = if is_full m then (m, false) else (with_connection websocket m, true)

unfoldable pub disconnect : ℕ → Manager → Manager
unfolding discard
disconnect websocket m = record m { connections = discard websocket m.connections }

-- The sends of a broadcast: `sends` tells which of the connections took the message in time.
unfoldable pub stale : (ℕ → Bool) → List ℕ → List ℕ
stale sends connections = keep (λ websocket. not (sends websocket)) connections

unfoldable pub disconnect_all : List ℕ → Manager → Manager
unfolding disconnect
disconnect_all [] m = m
disconnect_all (websocket ∷ websockets) m = disconnect_all websockets (disconnect websocket m)

unfoldable pub broadcast : (ℕ → Bool) → Manager → Manager
unfolding stale disconnect_all
broadcast sends m = disconnect_all (stale sends m.connections) m

-- How `_authenticate` ends: it may also raise what none of its handlers names.
pub data Authentication : Type 0 where
  accepted rejected crashed : Authentication

-- How the reading loop ends: the peer leaves, sends what is not understood, or the call raises.
pub data Ending : Type 0 where
  left unsupported interrupted : Ending

-- What happens to one connection, in any order with what happens to the others. Where logins are
-- required, `arrive` is the endpoint up to `_authenticate` and `answer` what follows it; `enter`
-- is the endpoint where they are not.
pub data Event : Type 0 where
  arrive : Event
  answer : ℕ → Authentication → Event
  enter : ℕ → Event
  leave : ℕ → Ending → Event
  send : (ℕ → Bool) → Event

-- The manager, and how many endpoints await `_authenticate`.
pub record Channel : Type 0 where
  pub manager : Manager
  pub waiting : ℕ

unfoldable pub answered : ℕ → Authentication → Manager → Manager
unfolding connect release_reservation
answered websocket accepted m = (connect websocket true m).0
answered websocket rejected m = release_reservation m
answered websocket crashed m = m

unfoldable pub left_loop : ℕ → Ending → Manager → Manager
unfolding disconnect
left_loop websocket interrupted m = m
left_loop websocket left m = disconnect websocket m
left_loop websocket unsupported m = disconnect websocket m

arrived : Manager × Bool → ℕ → Channel
arrived (m, true) waiting = record { manager = m; waiting = waiting + 1 }
arrived (m, false) waiting = record { manager = m; waiting = waiting }

-- An answer is given to an endpoint that waits for one.
unfoldable pub live : Event → Channel → Channel
unfolding reserve answered left_loop broadcast arrived
live arrive c = arrived (reserve c.manager) c.waiting
live (answer websocket authentication) c =
    if c.waiting == 0
    then c
    else record { manager = answered websocket authentication c.manager; waiting = c.waiting - 1 }
live (enter websocket) c = record c { manager = (connect websocket false c.manager).0 }
live (leave websocket ending) c = record c { manager = left_loop websocket ending c.manager }
live (send sends) c = record c { manager = broadcast sends c.manager }

unfoldable pub live_all : List Event → Channel → Channel
unfolding live
live_all [] c = c
live_all (event ∷ events) c = live_all events (live event c)
