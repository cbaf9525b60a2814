-- ===== src/Agent.antt =====
-- backend/app/ingestion/suricata_agent.py: following the sensor's log and forwarding its records.
--
-- The log is a list of bytes, UTF-8 without carriage returns (Python would end a line there, too), and
-- `json.loads` of a line is a parameter. A response of the API is the value `delivered`; the clock and
-- the waiting times are in seconds, the latter whole ones, and `poll` is `--poll-seconds`.
mod Normalize
pub mod Lines
pub mod Reads
pub mod Deliveries
pub mod Runs
pub mod Drain
unfoldable pub use Normalize.*
use Prim.Native.Nat.{zero}
use intrusion_detect.Common.{
  ℕ, suc, ◌+◌, ◌*◌, Bool, true, false, not, ◌&&◌, ◌||◌, Option, none, some, List, [], ◌∷◌, ◌++◌,
  Text, codes, text_eq, is_empty, ltb, leb, ◌==◌, if◌then◌else◌, min, length,
}
use intrusion_detect.Sensors.{
  Json, Fields, null, boolean, integer, float, string, array, object, nil, field, get, lookup,
}

-- The lines of a file that end in a newline; `line` is the part of the first one already read.
unfoldable pub lines_from : Text → List ℕ → List Text
lines_from line [] = []
lines_from line (c ∷ bytes) =
    let more = lines_from (if c == 10 then [] else line ++ c ∷ []) bytes in
    if c == 10 then line ∷ more else more

-- `read` goes through the lines until it has `limit` records or a line is not complete.
pub data Read : Type 0 where
  read_to : List Forwarded → ℕ → Read
  crashed : Read

unfoldable taken : Normalized → (List Forwarded → Read) → List Forwarded → Read
taken skipped next records = next records
taken raised next records = crashed
taken (item i) next records = next (records ++ i ∷ [])

unfoldable pub collect : Python → ℕ → List Forwarded → ℕ → List Text → Read
unfolding taken of_line
collect py limit records offset [] = read_to records offset
collect py limit records offset (line ∷ lines) =
    let more =
      taken (of_line py line) (λ found. collect py limit found (offset + suc (length line)) lines)
        records in
    if ltb (length records) limit then more else read_to records offset

abbrev pub drop : ℕ → List ℕ → List ℕ
drop zero bytes = bytes
drop (suc n) [] = []
drop (suc n) (b ∷ bytes) = drop n bytes

-- `EveFollower` with the content of its checkpoint file, if that is JSON; the local variables of
-- `main` are beside it.
pub record AgentState : Type 0 where
  pub offset : ℕ
  pub checkpoint : Option Json
  pub next_heartbeat : ℕ
  pub delay : ℕ

-- `read`: a file that has become shorter is read from its start. The offset of the follower and what
-- the call gives.
unfoldable pub read : Python → ℕ → Option (List ℕ) → ℕ → ℕ × Read
unfolding collect lines_from
read py limit none offset = (offset, read_to [] offset)
read py limit (some bytes) offset =
    let offset' = if ltb (length bytes) offset then 0 else offset in
    (offset', collect py limit [] offset' (lines_from [] (drop offset' bytes)))

-- `int` of a value; a `TypeError` or a `ValueError` is no result.
unfoldable int_of : Python → Json → Option (Bool × ℕ)
int_of py (integer negative magnitude) = some (negative, magnitude)
int_of py (boolean b) = some (false, if b then 1 else 0)
int_of py (string t) = py.int_of_text t
int_of py (float bits) = py.int_of_float bits
int_of py null = none
int_of py array = none
int_of py (object fields) = none

abbrev natural_or_zero : Option (Bool × ℕ) → ℕ
natural_or_zero none = 0
natural_or_zero (some (negative, magnitude)) = if negative then 0 else magnitude

abbrev offset_key : Text
offset_key = codes "offset"

abbrev value_or : Option Json → Json
value_or none = null
value_or (some value) = value

-- `_load_offset`
unfoldable pub load_offset : Python → Option Json → ℕ
unfolding int_of lookup
load_offset py (some (object fields)) =
    natural_or_zero (int_of py (value_or (lookup offset_key fields)))
load_offset py none = 0
load_offset py (some null) = 0
load_offset py (some (boolean b)) = 0
load_offset py (some (integer negative magnitude)) = 0
load_offset py (some (float bits)) = 0
load_offset py (some (string t)) = 0
load_offset py (some array) = 0

-- `commit`: the new checkpoint takes the place of the old one at once. If `mkdir`, `write_text` or
-- `replace` raises, or the process ends before, there is no result, and the old checkpoint stays.
unfoldable pub commit : ℕ → (saves : Bool) → AgentState → Option AgentState
commit offset false a = none
commit offset true a = some (record a {
  offset = offset;
  checkpoint = some (object (field offset_key (integer false offset) nil));
})

-- A new process: the offset is loaded.
unfoldable pub begin : Python → Option Json → AgentState
unfolding load_offset
begin py checkpoint = record {
  offset = load_offset py checkpoint;
  checkpoint = checkpoint;
  next_heartbeat = 0;
  delay = 1;
}

-- A round of the loop of `main`: no request is due, or one with these events was posted; then the
-- process waits. An exception that nothing handles ends the process: of a `read`, or of the `commit`
-- behind a request that was delivered.
pub data Round : Type 0 where
  waited : AgentState → (sleep : ℕ) → Round
  posted : List Forwarded → (delivered : Bool) → AgentState → (sleep : ℕ) → Round
  uncommitted : List Forwarded → Round
  died : Round

unfoldable after_commit : List Forwarded → ℕ → ℕ → Option AgentState → Round
after_commit events poll now none = uncommitted events
after_commit events poll now (some a) =
    posted events true (record a { delay = 1; next_heartbeat = now + 5 })
      (if leb (length events) 0 then poll else 0)

unfoldable after_post : List Forwarded → ℕ → ℕ → ℕ → Bool → Bool → AgentState → Round
unfolding after_commit commit
after_post events next_offset poll now true saves a =
    after_commit events poll now (commit next_offset saves a)
after_post events next_offset poll now false saves a =
    posted events false (record a { delay = min 30 (a.delay * 2) }) a.delay

unfoldable after_read : ℕ → ℕ → Bool → Bool → AgentState → ℕ × Read → Round
unfolding after_post
after_read poll now delivered saves a (offset, crashed) = died
after_read poll now delivered saves a (offset, read_to events next_offset) =
    let a' = record a { offset = offset } in
    if leb (length events) 0 && ltb now a.next_heartbeat
    then waited a' poll
    else after_post events next_offset poll now delivered saves a'

-- `delivered` and `saves` tell how the request and the `commit` behind it end, if they are reached.
unfoldable pub round :
    Python → ℕ → ℕ → ℕ → (delivered saves : Bool) → Option (List ℕ) → AgentState → Round
unfolding after_read read
round py batch_size poll now delivered saves file a =
    after_read poll now delivered saves a (read py batch_size file a.offset)
