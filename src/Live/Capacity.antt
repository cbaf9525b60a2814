-- ===== src/Live/Capacity.antt =====
-- The capacity of the live channel (backend/app/live.py, backend/app/api/live.py).
use intrusion_detect.Common.{
  ℕ, ◌+◌, ◌-◌, ◌≤◌, ◌<◌, ◌≡◌, refl, ◌∙◌, Bool, true, false, not, inl, inr, List, [], ◌∷◌, arith,
  ◌==◌, keep, length, Bool-cases,
}
use intrusion_detect.Live.{
  Manager, add, discard, is_full, reserve, release_reservation, connect, disconnect, stale,
  disconnect_all, broadcast, Authentication, accepted, rejected, crashed, left, unsupported,
  interrupted, Event, arrive, answer, enter, leave, send, Channel, answered, arrived, left_loop,
  live, live_all,
}

abbrev pub used : Manager → ℕ
used m = length m.connections + m.pending_connections

-- No more connections and reservations than the limit.
abbrev pub HasCapacity : Manager → Type 0
HasCapacity m = used m ≤ m.max_connections

length-keep-le {ℓ} : {A : Type ℓ} (p : A → Bool) (xs : List A) → length (keep p xs) ≤ length xs
length-keep-le p [] = omega arith
length-keep-le p (x ∷ xs) = let ih = length-keep-le p xs in ground arith

length-add :
    (websocket : ℕ) (connections : List ℕ)
    → length (add websocket connections) ≤ length connections + 1
unfolding add
length-add websocket connections = ground arith

disconnect-HasCapacity :
    (websocket : ℕ) (m : Manager) → HasCapacity m → HasCapacity (disconnect websocket m)
unfolding disconnect discard
disconnect-HasCapacity websocket m h =
    let le = length-keep-le (λ other. not (other == websocket)) m.connections in omega arith

disconnect_all-HasCapacity :
    (websockets : List ℕ) (m : Manager) → HasCapacity m → HasCapacity (disconnect_all websockets m)
unfolding disconnect_all
disconnect_all-HasCapacity [] m h = h
disconnect_all-HasCapacity (websocket ∷ websockets) m h =
    disconnect_all-HasCapacity websockets (disconnect websocket m)
      (disconnect-HasCapacity websocket m h)

reserve-HasCapacity : (m : Manager) → HasCapacity m → HasCapacity (reserve m).0
unfolding reserve
reserve-HasCapacity m h = ground arith

-- A reserved place is taken only by its holder: one is pending.
connect-HasCapacity :
    (websocket : ℕ) (reserved : Bool) (m : Manager)
    → HasCapacity m
    → (reserved ≡ true → 0 < m.pending_connections)
    → HasCapacity (connect websocket reserved m).0
unfolding connect
connect-HasCapacity websocket true m h held =
    let le = length-add websocket m.connections in let some_pending = held refl in omega arith
connect-HasCapacity websocket false m h held =
    let le = length-add websocket m.connections in ground (arith, le)

-- The capacity is kept, and each waiting endpoint has a reservation.
pub record IsSafe (limit : ℕ) (c : Channel) : Type 0 where
  pub limited : c.manager.max_connections ≡ limit
  pub bounded : HasCapacity c.manager
  pub covered : c.waiting ≤ c.manager.pending_connections

-- Disconnecting touches neither the limit nor the reservations.
pub disconnect_all-keeps :
    (websockets : List ℕ) (m : Manager)
    → ((disconnect_all websockets m).max_connections ≡ m.max_connections)
      × ((disconnect_all websockets m).pending_connections ≡ m.pending_connections)
unfolding disconnect_all disconnect
disconnect_all-keeps [] m = (refl, refl)
disconnect_all-keeps (websocket ∷ websockets) m =
    disconnect_all-keeps websockets (disconnect websocket m)

disconnected-IsSafe :
    (limit : ℕ) (websockets : List ℕ) (c : Channel)
    → IsSafe limit c
    → IsSafe limit (record c { manager = disconnect_all websockets c.manager })
disconnected-IsSafe limit websockets c s =
    let (kept, pending) = disconnect_all-keeps websockets c.manager in
    record {
      limited = kept ∙ s.limited;
      bounded = disconnect_all-HasCapacity websockets c.manager s.bounded;
      covered = rw pending s.covered;
    }

reserve-IsSafe :
    (limit : ℕ) (c : Channel)
    → IsSafe limit c
    → IsSafe limit (arrived (reserve c.manager) c.waiting)
unfolding reserve arrived
reserve-IsSafe limit c s =
    let l = s.limited in
    let b = s.bounded in
    let w = s.covered in
    elim (Bool-cases (is_full c.manager)) [
      | inl full ↦ rw full s
      | inr free ↦
          rw free (record { limited = l; bounded = ground (arith, free); covered = omega arith })
    ]

answered-IsSafe :
    (limit websocket : ℕ) (authentication : Authentication) (c : Channel)
    → IsSafe limit c
    → 0 < c.waiting
    → IsSafe limit
        (record { manager = answered websocket authentication c.manager; waiting = c.waiting - 1 })
unfolding answered release_reservation
answered-IsSafe limit websocket accepted c s one =
    let w = s.covered in
    record {
      limited = unfold connect in s.limited;
      bounded = connect-HasCapacity websocket true c.manager s.bounded (λ h. omega arith);
      covered = unfold connect in omega arith;
    }
answered-IsSafe limit websocket rejected c s one =
    let b = s.bounded in
    let w = s.covered in
    record { limited = s.limited; bounded = omega arith; covered = omega arith }
answered-IsSafe limit websocket crashed c s one =
    let w = s.covered in record { limited = s.limited; bounded = s.bounded; covered = omega arith }

pub enter-keeps :
    (websocket : ℕ) (m : Manager)
    → ((connect websocket false m).0.max_connections ≡ m.max_connections)
      × ((connect websocket false m).0.pending_connections ≡ m.pending_connections)
unfolding connect
enter-keeps websocket m = elim (Bool-cases (is_full m)) [
  | inl full ↦ rw full (refl, refl)
  | inr free ↦ rw free (refl, refl)
]

pub live-IsSafe :
    (limit : ℕ) (event : Event) (c : Channel) → IsSafe limit c → IsSafe limit (live event c)
unfolding live left_loop broadcast
live-IsSafe limit arrive c s = reserve-IsSafe limit c s
live-IsSafe limit (answer websocket authentication) c s = elim (Bool-cases (c.waiting == 0)) [
  | inl nobody ↦ rw nobody s
  | inr waits ↦
      rw waits (answered-IsSafe limit websocket authentication c s (ground (arith, waits)))
]
live-IsSafe limit (enter websocket) c s =
    let (kept, pending) = enter-keeps websocket c.manager in
    record {
      limited = kept ∙ s.limited;
      bounded = connect-HasCapacity websocket false c.manager s.bounded (λ h. cc);
      covered = rw pending s.covered;
    }
live-IsSafe limit (leave websocket left) c s =
    unfold disconnect_all in disconnected-IsSafe limit (websocket ∷ []) c s
live-IsSafe limit (leave websocket unsupported) c s =
    unfold disconnect_all in disconnected-IsSafe limit (websocket ∷ []) c s
live-IsSafe limit (leave websocket interrupted) c s = s
live-IsSafe limit (send sends) c s =
    disconnected-IsSafe limit (stale sends c.manager.connections) c s

-- From a safe channel, however its endpoints interleave, connections and reservations together
-- stay within the limit, the limit stays, and no more endpoints await their authentication than
-- there are reservations.
pub live_all-IsSafe :
    (limit : ℕ) (events : List Event) (c : Channel)
    → IsSafe limit c
    → IsSafe limit (live_all events c)
unfolding live_all
live_all-IsSafe limit [] c s = s
live_all-IsSafe limit (event ∷ events) c s =
    live_all-IsSafe limit events (live event c) (live-IsSafe limit event c s)
