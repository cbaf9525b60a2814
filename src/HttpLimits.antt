-- ===== src/HttpLimits.antt =====
-- `RequestBodyLimitMiddleware` of backend/app/http_limits.py.
--
-- The messages that `receive` will return are a list; an application that takes one more than the
-- list has waits. `int` on the bytes of a header is Python's own, a sign and a magnitude.
use intrusion_detect.Common.{
  ℕ, ◌+◌, ◌≤◌, ◌<◌, ◌≡◌, refl, ap, Bool, true, false, inl, inr, Option, none, some, List, [], ◌∷◌,
  ◌++◌, Text, arith, ltb, if◌then◌else◌, length, Bool-cases,
}

pub data Message : Type 0 where
  http_request : Text → Bool → Message
  http_disconnect : Message

pub data Outcome : Type 0 where
  -- what the application is called with: the buffered messages, then those still to come
  forwarded : List Message → List Message → Outcome
  responded : ℕ → Outcome
  waits : Outcome

pub data ContentLength : Type 0 where
  accepted : ContentLength
  refused : ℕ → ContentLength

pub data HeaderNumber : Type 0 where
  invalid negative : HeaderNumber
  number : ℕ → HeaderNumber

unfoldable pub check_number : ℕ → HeaderNumber → ContentLength
check_number max_bytes invalid = refused 400
check_number max_bytes negative = refused 400
check_number max_bytes (number declared_length) =
    if ltb max_bytes declared_length then refused 413 else accepted

unfoldable pub check_content_length : (Text → HeaderNumber) → ℕ → Option Text → ContentLength
unfolding check_number
check_content_length int max_bytes none = accepted
check_content_length int max_bytes (some header) = check_number max_bytes (int header)

buffer : Message → Outcome → Outcome
buffer message (forwarded buffered rest) = forwarded (message ∷ buffered) rest
buffer message outcome = outcome

-- The loop: what it puts into the buffer is put back before the messages that come later.
unfoldable pub receive_body : ℕ → ℕ → List Message → Outcome
unfolding buffer
receive_body max_bytes received [] = waits
receive_body max_bytes received (http_disconnect ∷ messages) =
    forwarded (http_disconnect ∷ []) messages
receive_body max_bytes received (http_request body more_body ∷ messages) =
    let received' = received + length body in
    let rest = receive_body max_bytes received' messages in
    if ltb max_bytes received'
    then responded 413
    else if more_body
    then buffer (http_request body more_body) rest
    else forwarded (http_request body more_body ∷ []) messages

after_header : ℕ → List Message → ContentLength → Outcome
unfolding receive_body
after_header max_bytes messages (refused status) = responded status
after_header max_bytes messages accepted = receive_body max_bytes 0 messages

-- `__call__`; a scope that is not HTTP goes through.
unfoldable pub call : (Text → HeaderNumber) → ℕ → Bool → Option Text → List Message → Outcome
unfolding check_content_length after_header
call int max_bytes false content_length messages = forwarded [] messages
call int max_bytes true content_length messages =
    after_header max_bytes messages (check_content_length int max_bytes content_length)

-- The bytes of the request that a list of messages carries.
abbrev pub body_length : List Message → ℕ
body_length [] = 0
body_length (http_disconnect ∷ messages) = body_length messages
body_length (http_request body more_body ∷ messages) = length body + body_length messages

-- Messages of a request that is not over.
abbrev pub IsOpen : List Message → Type 0
IsOpen [] = Unit
IsOpen (http_disconnect ∷ messages) = ⊥
IsOpen (http_request body true ∷ messages) = IsOpen messages
IsOpen (http_request body false ∷ messages) = ⊥

-- All messages of a request: the last one, and no other, ends it or is a disconnect.
abbrev pub IsWhole : List Message → Type 0
IsWhole [] = ⊥
IsWhole (http_disconnect ∷ messages) = messages ≡ []
IsWhole (http_request body true ∷ messages) = IsWhole messages
IsWhole (http_request body false ∷ messages) = messages ≡ []

-- A message of the request whose body goes over the limit, the first one that does.
pub record Exceeds (max_bytes received : ℕ) (messages : List Message) : Type 0 where
  pub before : List Message
  pub body : Text
  pub more_body : Bool
  pub after : List Message
  pub split : messages ≡ before ++ http_request body more_body ∷ after
  pub not_over_yet : IsOpen before
  pub fits : received + body_length before ≤ max_bytes
  pub over : max_bytes < received + body_length before + length body

-- How a request is answered: the application gets the messages of the client, the buffered ones are
-- the whole request, with a body within the limit; or the body goes over the limit; or the request
-- is not over and within the limit so far.
abbrev pub IsBounded : ℕ → ℕ → List Message → Outcome → Type 0
IsBounded max_bytes received messages (forwarded buffered rest) =
    (buffered ++ rest ≡ messages) × IsWhole buffered × (received + body_length buffered ≤ max_bytes)
IsBounded max_bytes received messages (responded status) =
    (status ≡ 413) × Exceeds max_bytes received messages
IsBounded max_bytes received messages waits =
    IsOpen messages × (received + body_length messages ≤ max_bytes)

later-Exceeds :
    (max_bytes received : ℕ) (body : Text) (messages : List Message)
    → Exceeds max_bytes (received + length body) messages
    → Exceeds max_bytes received (http_request body true ∷ messages)
later-Exceeds max_bytes received body messages x = record {
  before = http_request body true ∷ x.before;
  body = x.body;
  more_body = x.more_body;
  after = x.after;
  split = ap (λ (ms : List Message). http_request body true ∷ ms) x.split;
  not_over_yet = x.not_over_yet;
  fits = omega (arith, x.fits);
  over = omega (arith, x.over);
}

first-Exceeds :
    (max_bytes received : ℕ) (body : Text) (more_body : Bool) (messages : List Message)
    → received ≤ max_bytes
    → ltb max_bytes (received + length body) ≡ true
    → Exceeds max_bytes received (http_request body more_body ∷ messages)
first-Exceeds max_bytes received body more_body messages le h = record {
  before = [];
  body = body;
  more_body = more_body;
  after = messages;
  split = refl;
  not_over_yet = tt;
  fits = omega arith;
  over = ground (arith, h);
}

buffer-IsBounded :
    (max_bytes received : ℕ) (body : Text) (messages : List Message) (outcome : Outcome)
    → IsBounded max_bytes (received + length body) messages outcome
    → IsBounded max_bytes received
        (http_request body true ∷ messages)
        (buffer (http_request body true) outcome)
unfolding buffer
buffer-IsBounded max_bytes received body messages (forwarded buffered rest) (same, whole, bound) =
    (ap (λ (ms : List Message). http_request body true ∷ ms) same, whole, omega arith)
buffer-IsBounded max_bytes received body messages (responded status) (code, x) =
    (code, later-Exceeds max_bytes received body messages x)
buffer-IsBounded max_bytes received body messages waits (open_yet, bound) = (open_yet, omega arith)

-- From a received length within the limit, the loop forwards the messages of the client, with the
-- whole request buffered up to its last message and a body within the limit, or refuses with 413 a
-- request of which a message goes over the limit, or has taken all messages of a request that is not
-- over, and waits.
pub receive_body-IsBounded :
    (max_bytes received : ℕ) (messages : List Message)
    → received ≤ max_bytes
    → IsBounded max_bytes received messages (receive_body max_bytes received messages)
unfolding receive_body
receive_body-IsBounded max_bytes received [] le = (tt, omega arith)
receive_body-IsBounded max_bytes received (http_disconnect ∷ messages) le =
    (refl, refl, omega arith)
receive_body-IsBounded max_bytes received (http_request body true ∷ messages) le =
    elim (Bool-cases (ltb max_bytes (received + length body))) [
      | inl over ↦ rw over (refl, first-Exceeds max_bytes received body true messages le over)
      | inr within ↦
          let fits : received + length body ≤ max_bytes = ground (arith, within) in
          rw within (
            buffer-IsBounded max_bytes received body messages
              (receive_body max_bytes (received + length body) messages)
              (receive_body-IsBounded max_bytes (received + length body) messages fits))
    ]
receive_body-IsBounded max_bytes received (http_request body false ∷ messages) le =
    elim (Bool-cases (ltb max_bytes (received + length body))) [
      | inl over ↦ rw over (refl, first-Exceeds max_bytes received body false messages le over)
      | inr within ↦ rw within (refl, refl, ground (arith, within))
    ]
