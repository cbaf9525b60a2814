-- ===== src/Agent/Drain.antt =====
-- The agent (backend/app/ingestion/suricata_agent.py) when its requests are delivered again.
use Prim.Native.Nat.{zero}
use mathlib.Core.List.{append-nil}
use intrusion_detect.Common.{
  ℕ, suc, ◌+◌, ◌*◌, ◌≤◌, ◌≡◌, ◌≢◌, refl, sym, ap, ◌∙◌, true, false, ◌&&◌, List, [], ◌∷◌, ◌++◌, map,
  Text, All, length, length-append, take, ltb, leb, min, Bool-cases, inl, inr, arith,
}
use intrusion_detect.Agent.{
  Python, Forwarded, Normalized, skipped, raised, item, of_line, taken, lines_from, Read, read_to,
  crashed, collect, Round, waited, posted, uncommitted, died, commit, after_commit, after_post,
  after_read, round,
}
use intrusion_detect.Agent.Lines.{records, widths, records-append}
use intrusion_detect.Agent.Deliveries.{kept, kept-append}
use intrusion_detect.Agent.Runs.{
  World, accepted, Step, turn, settle, step, run, IsAt, read-here, at-Collected, step-IsAt, first,
  run-IsAt,
}

-- A line on which `normalize` raises no `TypeError`.
abbrev pub IsHashable : Python → Text → Type 0
IsHashable py line = of_line py line ≢ raised

All-append_right :
    (py : Python) (xs ys : List Text) → All (IsHashable py) (xs ++ ys) → All (IsHashable py) ys
All-append_right py [] ys h = h
All-append_right py (x ∷ xs) ys h = All-append_right py xs ys h.1

-- A `read` of such lines ends.
Ends : Read → Type 0
Ends r = (found : List Forwarded) × (end_ : ℕ) × (r ≡ read_to found end_)

taken-Ends :
    (n : Normalized) (next : List Forwarded → Read) (acc : List Forwarded)
    → n ≢ raised
    → ((acc' : List Forwarded) → Ends (next acc'))
    → Ends (taken n next acc)
unfolding taken Ends
taken-Ends skipped next acc h ends = ends acc
taken-Ends raised next acc h ends = absurd (h refl)
taken-Ends (item i) next acc h ends = ends (acc ++ i ∷ [])

collect-Ends :
    (py : Python) (limit : ℕ) (acc : List Forwarded) (offset : ℕ) (lines : List Text)
    → All (IsHashable py) lines
    → Ends (collect py limit acc offset lines)
unfolding collect Ends
collect-Ends py limit acc offset [] h = (acc, offset, refl)
collect-Ends py limit acc offset (line ∷ lines) h = elim (Bool-cases (ltb (length acc) limit)) [
  | inl fits ↦ rw fits (
      taken-Ends (of_line py line) _ acc h.0
        (λ acc'. collect-Ends py limit acc' (offset + suc (length line)) lines h.1))
  | inr full ↦ rw full (acc, offset, refl)
]

settle-log : (py : Python) (w : World) (r : Round) → (settle py accepted w r).log ≡ w.log
unfolding settle
settle-log py w (waited a sleep) = refl
settle-log py w (posted events true a sleep) = refl
settle-log py w (posted events false a sleep) = refl
settle-log py w (uncommitted events) = refl
settle-log py w died = refl

no_more : (es : List Forwarded) (cs : List Forwarded) → leb (length es) 0 ≡ true → cs ≡ cs ++ es
no_more [] cs h = sym (append-nil cs)
no_more (e ∷ es) cs h = absurd (ground arith)

abbrev kept_by : World → List Forwarded
kept_by w = kept w.deliveries

-- A round whose request and commit are through keeps as many of the records before the agent as a batch
-- has.
after_read-keeps :
    (py : Python) (limit poll now : ℕ) (w : World) (done rest : List Text) (r : Read)
    → collect py limit [] (widths done) rest ≡ r
    → Ends r
    → kept_by (settle py accepted w (after_read poll now true true w.agent (widths done, r)))
      ≡ kept_by w ++ take limit (records py rest)
unfolding after_read after_post after_commit commit settle Ends
after_read-keeps py limit poll now w done rest crashed e (found, end_, f) = absurd cc
after_read-keeps py limit poll now w done rest (read_to found end_) e ends =
    let c = at-Collected py limit done rest found end_ e in
    let gave : found ≡ take limit (records py rest) = c.gave ∙ c.most in
    elim (Bool-cases (leb (length found) 0 && ltb now w.agent.next_heartbeat)) [
      | inl early ↦
          let empty : leb (length found) 0 ≡ true = ground arith in
          rw early (no_more found (kept_by w) empty ∙ ap (λ es. kept_by w ++ es) gave)
      | inr due ↦ rw due (
          kept-append w.deliveries (record { events = found; committed = true })
          ∙ ap (λ es. kept_by w ++ es) gave)
    ]

-- A round that is through.
abbrev through : ℕ → Step
through now = turn now accepted true

turn-keeps :
    (py : Python) (batch_size poll now : ℕ) (w : World) (at : IsAt py w)
    → All (IsHashable py) (lines_from [] w.log)
    → kept_by (step py batch_size poll (through now) w)
      ≡ kept_by w ++ take batch_size (records py at.rest)
unfolding step round
turn-keeps py batch_size poll now w at h =
    let rest = All-append_right py at.done at.rest (rw at.split at h) in
    ap (λ r. kept_by (settle py accepted w (after_read poll now true true w.agent r)))
      (read-here py batch_size w at)
    ∙ after_read-keeps py batch_size poll now w at.done at.rest _ refl
        (collect-Ends py batch_size [] (widths at.done) at.rest rest)

turn-log :
    (py : Python) (batch_size poll now : ℕ) (w : World)
    → (step py batch_size poll (through now) w).log ≡ w.log
unfolding step round
turn-log py batch_size poll now w = settle-log py w _

length-take : (n : ℕ) (es : List Forwarded) → length (take n es) ≡ min n (length es)
length-take zero es = omega arith
length-take (suc n) [] = omega arith
length-take (suc n) (e ∷ es) = omega (arith, length-take n es)

-- All records of the log are those of the deliveries with a checkpoint and those before the agent.
records-log :
    (py : Python) (w : World) (at : IsAt py w)
    → records py (lines_from [] w.log) ≡ kept_by w ++ records py at.rest
records-log py w at =
    ap (records py) at.split
    ∙ records-append py at.done at.rest
    ∙ ap (λ es. es ++ records py at.rest) (sym at.exact)

none_before : (es cs : List Forwarded) → length (cs ++ es) ≤ length cs → cs ≡ cs ++ es
none_before [] cs h = sym (append-nil cs)
none_before (e ∷ es) cs h = absurd (omega (arith, length-append cs (e ∷ es)))

room_left :
    (all confirmed before batch_size times confirmed' : ℕ)
    → all ≡ confirmed + before
    → confirmed' ≡ confirmed + min batch_size before
    → all ≤ confirmed + suc times * batch_size
    → all ≤ confirmed' + times * batch_size
room_left all confirmed before batch_size times confirmed' a c h = omega (arith, a, c, h)

run-drains_of :
    (py : Python) (batch_size poll : ℕ) (times : List ℕ) (w : World)
    → IsAt py w
    → All (IsHashable py) (lines_from [] w.log)
    → length (records py (lines_from [] w.log)) ≤ length (kept_by w) + length times * batch_size
    → kept_by (run py batch_size poll (map through times) w) ≡ records py (lines_from [] w.log)
unfolding run
run-drains_of py batch_size poll [] w at h enough =
    let all = records-log py w at in
    let few : length (kept_by w ++ records py at.rest) ≤ length (kept_by w) =
      omega (arith, enough, ap length all) in
    none_before (records py at.rest) (kept_by w) few ∙ sym all
run-drains_of py batch_size poll (now ∷ times) w at h enough =
    let next = step py batch_size poll (through now) w in
    let same_log = turn-log py batch_size poll now w in
    let lead = ap length (turn-keeps py batch_size poll now w at h) in
    let enough' : length (records py (lines_from [] next.log))
        ≤ length (kept_by next) + length times * batch_size =
      rw same_log (
        room_left (length (records py (lines_from [] w.log))) (length (kept_by w))
          (length (records py at.rest)) batch_size (length times) (length (kept_by next))
          (ap length (records-log py w at) ∙ length-append (kept_by w) (records py at.rest))
          (lead
            ∙ length-append (kept_by w) (take batch_size (records py at.rest))
            ∙ ap (λ (n : ℕ). length (kept_by w) + n) (length-take batch_size (records py at.rest)))
          enough) in
    run-drains_of py batch_size poll times next (step-IsAt py batch_size poll (through now) w at)
      (rw same_log h) enough'
    ∙ ap (λ log. records py (lines_from [] log)) same_log

-- The agent catches up: after any run that keeps its lines free of event types that are lists or
-- objects, with enough rounds whose requests and commits are through, at any times, the deliveries with
-- a checkpoint have each record of the log exactly once and in order; enough is the number of records
-- without a checkpoint before, divided by the batch size.
pub run-drains :
    (py : Python) (batch_size poll : ℕ) (steps : List Step) (times : List ℕ)
    → All (IsHashable py) (lines_from [] (run py batch_size poll steps (first py)).log)
    → length (records py (lines_from [] (run py batch_size poll steps (first py)).log))
      ≤ length (kept (run py batch_size poll steps (first py)).deliveries)
        + length times * batch_size
    → kept
        (run py batch_size poll
          (map (λ now. turn now accepted true) times)
          (run py batch_size poll steps (first py))).deliveries
      ≡ records py (lines_from [] (run py batch_size poll steps (first py)).log)
run-drains py batch_size poll steps times h enough =
    run-drains_of py batch_size poll times (run py batch_size poll steps (first py))
      (run-IsAt py batch_size poll steps) h enough
