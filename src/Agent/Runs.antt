-- ===== src/Agent/Runs.antt =====
-- Runs of the agent (backend/app/ingestion/suricata_agent.py) while the log grows.
use mathlib.Core.Path.{subst}
use mathlib.Core.List.{append_assoc, append-nil}
use intrusion_detect.Common.{
  ℕ, ◌+◌, ◌-◌, ◌≡◌, refl, sym, ap, ◌∙◌, Bool, true, false, ◌&&◌, none, some, List, [], ◌∷◌, ◌++◌,
  Text, length, ltb, leb, Bool-cases, inl, inr, arith,
}
use intrusion_detect.Sensors.{lookup}
use intrusion_detect.Agent.{
  Python, Forwarded, lines_from, Read, read_to, crashed, collect, AgentState, read, load_offset,
  int_of, commit, begin, Round, waited, posted, uncommitted, died, after_commit, after_post,
  after_read, round,
}
use intrusion_detect.Agent.Lines.{
  records, widths, records-append, lines_from-drop, lines_from-append,
}
use intrusion_detect.Agent.Deliveries.{
  Delivery, kept, Resumes, kept-append, Resumes-append, Resumes-more,
}
use intrusion_detect.Agent.Reads.{Collected, collect-Collected}

-- The log, the agent, and what reached the API.
pub record World : Type 0 where
  pub log : List ℕ
  pub agent : AgentState
  pub deliveries : List Delivery

-- How a request ends: the agent sees that it was delivered; or the API took the events, but the agent
-- sees a failure, as of a response that is lost; or the API did not take them. A request that ends the
-- process is one of the latter two and then a new process.
pub data Reply : Type 0 where
  accepted unanswered refused : Reply

abbrev pub is_accepted : Reply → Bool
is_accepted accepted = true
is_accepted unanswered = false
is_accepted refused = false

-- What happens: the sensor writes; the loop turns, at a time at which a request would have this reply
-- and the `commit` behind it be through or not; or the process is replaced by a new one.
pub data Step : Type 0 where
  grow : List ℕ → Step
  turn : (now : ℕ) → Reply → (saves : Bool) → Step
  restart : Step

abbrev pub deliver : List Forwarded → Bool → World → World
deliver events committed w = record w {
  deliveries = w.deliveries ++ record { events = events; committed = committed } ∷ [];
}

abbrev pub failed : List Forwarded → Reply → World → World
failed events accepted w = w
failed events unanswered w = deliver events false w
failed events refused w = w

-- A process that ends is followed by a new one.
unfoldable pub settle : Python → Reply → World → Round → World
settle py reply w (waited a sleep) = record w { agent = a }
settle py reply w (posted events true a sleep) = record (deliver events true w) { agent = a }
settle py reply w (posted events false a sleep) = record (failed events reply w) { agent = a }
settle py reply w (uncommitted events) = record (deliver events false w) {
  agent = begin py w.agent.checkpoint;
}
settle py reply w died = record w { agent = begin py w.agent.checkpoint }

unfoldable pub step : Python → ℕ → ℕ → Step → World → World
unfolding settle round begin
step py batch_size poll (grow bytes) w = record w { log = w.log ++ bytes }
step py batch_size poll (turn now reply saves) w =
    settle py reply w (round py batch_size poll now (is_accepted reply) saves (some w.log) w.agent)
step py batch_size poll restart w = record w { agent = begin py w.agent.checkpoint }

unfoldable pub run : Python → ℕ → ℕ → List Step → World → World
unfolding step
run py batch_size poll [] w = w
run py batch_size poll (s ∷ steps) w = run py batch_size poll steps (step py batch_size poll s w)

-- A first process at a log that is empty.
unfoldable pub first : Python → World
unfolding begin
first py = record { log = []; agent = begin py none; deliveries = [] }

-- Where the agent is: the lines `done` of the log are behind it, the lines `rest` before it, and a new
-- process would go on at the same place. The deliveries with a checkpoint have the records of `done`,
-- each once and in order, and every delivery has the records that stood right behind the last
-- checkpoint.
pub record IsAt (py : Python) (w : World) : Type 0 where
  pub done : List Text
  pub rest : List Text
  pub split : lines_from [] w.log ≡ done ++ rest
  pub offset : w.agent.offset ≡ widths done
  pub stored : load_offset py w.agent.checkpoint ≡ widths done
  pub exact : kept w.deliveries ≡ records py done
  pub resumed : Resumes (records py (lines_from [] w.log)) [] w.deliveries

-- A `read` at a place goes on from there.
read-at :
    (py : Python) (limit : ℕ) (log : List ℕ) (done rest : List Text)
    → lines_from [] log ≡ done ++ rest
    → read py limit (some log) (widths done) ≡ (widths done, collect py limit [] (widths done) rest)
unfolding read
read-at py limit log done rest split =
    let (left, fits) = lines_from-drop done rest log split in
    let inside : ltb (length log) (widths done) ≡ false = ground arith in rw (inside, left) refl

widths-append : (xs ys : List Text) → widths (xs ++ ys) ≡ widths xs + widths ys
widths-append [] ys = omega arith
widths-append (line ∷ xs) ys = omega (arith, widths-append xs ys)

-- What a `read` at a place collected, of the place's remaining lines.
pub at-Collected :
    (py : Python) (limit : ℕ) (done rest : List Text) (found : List Forwarded) (end_ : ℕ)
    → collect py limit [] (widths done) rest ≡ read_to found end_
    → Collected py limit [] (widths done) rest found end_
at-Collected py limit done rest found end_ e =
    let room : limit - 0 ≡ limit = omega arith in
    subst (λ (n : ℕ). Collected py n [] (widths done) rest found end_) room
      (collect-Collected py limit [] (widths done) rest found end_ e)

-- A place of the log with what was delivered there, and what a `read` found from there on.
module _ (py : Python) (w : World) (done rest : List Text)
    (split : lines_from [] w.log ≡ done ++ rest) (exact : kept w.deliveries ≡ records py done)
    (resumed : Resumes (records py (lines_from [] w.log)) [] w.deliveries) where
  -- Another agent at the same place.
  stays :
      (a : AgentState)
      → a.offset ≡ widths done
      → load_offset py a.checkpoint ≡ widths done
      → IsAt py (record w { agent = a })
  stays a here stored = record {
    done = done;
    rest = rest;
    split = split;
    offset = here;
    stored = stored;
    exact = exact;
    resumed = resumed;
  }

  module _ (limit end_ : ℕ) (found : List Forwarded)
      (c : Collected py limit [] (widths done) rest found end_) where
    delivered-Resumes :
        (committed : Bool)
        → Resumes (records py (lines_from [] w.log)) [] (deliver found committed w).deliveries
    delivered-Resumes committed =
        Resumes-append (records py (lines_from [] w.log)) [] w.deliveries
          (record { events = found; committed = committed }) (records py c.rest) resumed
          (rw (split, exact, c.split, c.gave)
            (records-append py done (c.done ++ c.rest)
              ∙ ap (λ es. records py done ++ es) (records-append py c.done c.rest)
              ∙ sym (append_assoc (records py done) (records py c.done) (records py c.rest))))

    -- A delivery without a checkpoint.
    delivered_stays :
        (a : AgentState)
        → a.offset ≡ widths done
        → load_offset py a.checkpoint ≡ widths done
        → IsAt py (record (deliver found false w) { agent = a })
    delivered_stays a here stored = record {
      done = done;
      rest = rest;
      split = split;
      offset = here;
      stored = stored;
      exact =
          kept-append w.deliveries (record { events = found; committed = false })
          ∙ append-nil (kept w.deliveries)
          ∙ exact;
      resumed = delivered-Resumes false;
    }

    -- A delivery and its checkpoint.
    delivered_moves :
        (a : AgentState)
        → a.offset ≡ end_
        → load_offset py a.checkpoint ≡ end_
        → IsAt py (record (deliver found true w) { agent = a })
    delivered_moves a here stored =
        let there : end_ ≡ widths (done ++ c.done) = c.moved ∙ sym (widths-append done c.done) in
        record {
          done = done ++ c.done;
          rest = c.rest;
          split = split ∙ ap (λ ls. done ++ ls) c.split ∙ sym (append_assoc done c.done c.rest);
          offset = here ∙ there;
          stored = stored ∙ there;
          exact =
              kept-append w.deliveries (record { events = found; committed = true })
              ∙ ap (λ es. es ++ found) exact
              ∙ ap (λ es. records py done ++ es) c.gave
              ∙ sym (records-append py done c.done);
          resumed = delivered-Resumes true;
        }

    after_post-IsAt :
        (poll now : ℕ) (reply : Reply) (saves : Bool) (a : AgentState)
        → a.offset ≡ widths done
        → load_offset py a.checkpoint ≡ widths done
        → load_offset py w.agent.checkpoint ≡ widths done
        → IsAt py (settle py reply w (after_post found end_ poll now (is_accepted reply) saves a))
    unfolding after_post after_commit settle commit begin
    after_post-IsAt poll now accepted true a here stored fresh =
        delivered_moves _ refl (unfold load_offset int_of lookup in refl)
    after_post-IsAt poll now accepted false a here stored fresh = delivered_stays _ fresh fresh
    after_post-IsAt poll now unanswered saves a here stored fresh = delivered_stays _ here stored
    after_post-IsAt poll now refused saves a here stored fresh = stays _ here stored

  after_read-IsAt :
      (poll now : ℕ) (reply : Reply) (saves : Bool) (limit : ℕ) (r : Read)
      → collect py limit [] (widths done) rest ≡ r
      → load_offset py w.agent.checkpoint ≡ widths done
      → IsAt py (
          settle py reply w
            (after_read poll now (is_accepted reply) saves w.agent (widths done, r)))
  unfolding after_read settle begin
  after_read-IsAt poll now reply saves limit crashed e stored = stays _ stored stored
  after_read-IsAt poll now reply saves limit (read_to found end_) e stored =
      let a' = record w.agent { offset = widths done } in
      let c = at-Collected py limit done rest found end_ e in
      elim (Bool-cases (leb (length found) 0 && ltb now w.agent.next_heartbeat)) [
        | inl early ↦ rw early (stays a' refl stored)
        | inr due ↦
            rw due (after_post-IsAt limit end_ found c poll now reply saves a' refl stored stored)
      ]

pub read-here :
    (py : Python) (limit : ℕ) (w : World) (at : IsAt py w)
    → read py limit (some w.log) w.agent.offset
      ≡ (widths at.done, collect py limit [] (widths at.done) at.rest)
read-here py limit w at =
    ap (read py limit (some w.log)) at.offset ∙ read-at py limit w.log at.done at.rest at.split

pub step-IsAt :
    (py : Python) (batch_size poll : ℕ) (s : Step) (w : World)
    → IsAt py w
    → IsAt py (step py batch_size poll s w)
unfolding step round begin
step-IsAt py batch_size poll (grow bytes) w at =
    let (more, e) = lines_from-append [] w.log bytes in
    record {
      done = at.done;
      rest = at.rest ++ more;
      split = e ∙ ap (λ ls. ls ++ more) at.split ∙ append_assoc at.done at.rest more;
      offset = at.offset;
      stored = at.stored;
      exact = at.exact;
      resumed =
          rw (e, records-append py (lines_from [] w.log) more)
            (Resumes-more (records py (lines_from [] w.log)) (records py more) [] w.deliveries
              at.resumed);
    }
step-IsAt py batch_size poll (turn now reply saves) w at =
    subst
      (λ r. IsAt py (settle py reply w (after_read poll now (is_accepted reply) saves w.agent r)))
      (sym (read-here py batch_size w at))
      (after_read-IsAt py w at.done at.rest at.split at.exact at.resumed poll now reply saves
        batch_size _ refl at.stored)
step-IsAt py batch_size poll restart w at =
    stays py w at.done at.rest at.split at.exact at.resumed _ at.stored at.stored

run-IsAt_of :
    (py : Python) (batch_size poll : ℕ) (steps : List Step) (w : World)
    → IsAt py w
    → IsAt py (run py batch_size poll steps w)
unfolding run
run-IsAt_of py batch_size poll [] w at = at
run-IsAt_of py batch_size poll (s ∷ steps) w at =
    run-IsAt_of py batch_size poll steps (step py batch_size poll s w)
      (step-IsAt py batch_size poll s w at)

-- The agent loses no record, and repeats only what a checkpoint is not behind yet: after any sequence
-- of writes, of rounds whose requests are delivered, lost with or without effect, or delivered without
-- a checkpoint, of crashes and of new processes, the deliveries with a checkpoint have exactly the
-- records of the lines behind the agent, in the order of the log, every other delivery has the records
-- that stood right behind the last checkpoint, and the agent's offset and the one that a new process
-- would load are the end of these lines.
pub run-IsAt :
    (py : Python) (batch_size poll : ℕ) (steps : List Step)
    → IsAt py (run py batch_size poll steps (first py))
unfolding first begin load_offset lines_from records
run-IsAt py batch_size poll steps = run-IsAt_of py batch_size poll steps (first py) (record {
  done = [];
  rest = [];
  split = refl;
  offset = refl;
  stored = refl;
  exact = refl;
  resumed = tt;
})
