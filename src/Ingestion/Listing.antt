-- ===== src/Ingestion/Listing.antt =====
-- `get_event` and `list_jobs` of backend/app/ingestion/service.py. The text of a UUID is ordered as
-- its number is. A cursor is what `_decode_cursor` gives.
use intrusion_detect.Common.{
  ℕ, suc, zero, ◌≤◌, ◌<◌, ◌≡◌, ◌≢◌, refl, ap, ◌∙◌, Bool, true, false, ◌&&◌, ◌||◌, Option, none,
  some, List, [], ◌∷◌, Text, codes, is_empty, text_eq, ltb, leb, ◌==◌, if◌then◌else◌, keep, take,
  length, find, arith, Bool-cases, inl, inr,
}
use intrusion_detect.Schema.{SchemaVersion, fingerprint_of}
use intrusion_detect.Store.{
  Store, IngestionJob, JobTransition, JobState, ErrorCode, PredictionRow, state_eq, error_code_eq,
  job_of_event,
}

-- `_payload_identity`
pub record PayloadIdentity : Type 0 where
  pub source : Text
  pub schema_version : SchemaVersion
  pub extractor_fingerprint : Option Text

unfoldable pub payload_identity : IngestionJob → PayloadIdentity
payload_identity row = record {
  source = if is_empty row.payload.source then codes "unknown" else row.payload.source;
  schema_version = row.payload.schema_version;
  extractor_fingerprint = fingerprint_of row.payload.network_context;
}

pub record EventResponse : Type 0 where
  pub row : IngestionJob
  pub identity : PayloadIdentity
  pub model_version : Option Text
  pub transitions : List JobTransition

abbrev earlier : JobTransition → JobTransition → Bool
earlier a b =
    ltb a.occurred_at b.occurred_at
    || (a.occurred_at == b.occurred_at && ltb a.transition_id b.transition_id)

-- `ORDER BY`
module _ {A : Type 0} (before : A → A → Bool) where
  unfoldable pub insert : A → List A → List A
  insert row [] = row ∷ []
  insert row (head ∷ rest) = if before row head then row ∷ head ∷ rest else head ∷ insert row rest

  unfoldable pub order_by : List A → List A
  unfolding insert
  order_by [] = []
  order_by (row ∷ rows) = insert row (order_by rows)

  length-insert : (row : A) (rows : List A) → length (insert row rows) ≡ suc (length rows)
  unfolding insert
  length-insert row [] = refl
  length-insert row (head ∷ rest) = elim (Bool-cases (before row head)) [
    | inl first ↦ rw first refl
    | inr later ↦ rw (later, length-insert row rest) refl
  ]

  pub length-order_by : (rows : List A) → length (order_by rows) ≡ length rows
  unfolding order_by
  length-order_by [] = refl
  length-order_by (row ∷ rows) = length-insert row (order_by rows) ∙ ap suc (length-order_by rows)

abbrev version_of : Option PredictionRow → Option Text
version_of none = none
version_of (some prediction) = some prediction.model_version

response_found : Store → Option IngestionJob → Option EventResponse
unfolding payload_identity order_by
response_found db none = none
response_found db (some row) = some (record {
  row = row;
  identity = payload_identity row;
  model_version =
      version_of (find (λ prediction. prediction.event_id == row.event_id) db.predictions);
  transitions =
      order_by earlier (keep (λ transition. transition.job_id == row.job_id) db.transitions);
})

unfoldable pub get_event : ℕ → Store → Option EventResponse
unfolding response_found
get_event event_id db = response_found db (job_of_event event_id db.jobs)

pub record JobFilter : Type 0 where
  pub state : Option JobState
  pub error_code : Option ErrorCode
  pub source : Option Text
  pub created_from : Option ℕ
  pub created_to : Option ℕ

abbrev given {ℓ} : {A : Type ℓ} → Option A → (A → Bool) → Bool
given none condition = true
given (some a) condition = condition a

abbrev has_error_code : ErrorCode → Option ErrorCode → Bool
has_error_code code none = false
has_error_code code (some stored) = error_code_eq stored code

unfoldable pub matches : JobFilter → IngestionJob → Bool
matches f row =
    given f.state (λ s. state_eq row.state s)
    && given f.error_code (λ code. has_error_code code row.error_code)
    && given f.source (λ source. text_eq row.payload.source source)
    && given f.created_from (λ t. leb t row.created_at)
    && given f.created_to (λ t. leb row.created_at t)

pub record Cursor : Type 0 where
  pub created_at : ℕ
  pub job_id : ℕ

abbrev pub is_behind : Option Cursor → IngestionJob → Bool
is_behind none row = true
is_behind (some cursor) row =
    ltb row.created_at cursor.created_at
    || (row.created_at == cursor.created_at && ltb row.job_id cursor.job_id)

abbrev newer : IngestionJob → IngestionJob → Bool
newer a b = ltb b.created_at a.created_at || (a.created_at == b.created_at && ltb b.job_id a.job_id)

pub record JobList : Type 0 where
  pub items : List IngestionJob
  pub total : ℕ
  pub limit : ℕ
  pub next_cursor : Option Cursor

abbrev cursor_of : IngestionJob → List IngestionJob → Cursor
cursor_of row [] = record { created_at = row.created_at; job_id = row.job_id }
cursor_of row (head ∷ rest) = cursor_of head rest

abbrev last_cursor : List IngestionJob → Option Cursor
last_cursor [] = none
last_cursor (row ∷ rows) = some (cursor_of row rows)

-- The rows that a query with `LIMIT limit + 1` gives.
unfoldable pub page : ℕ → Option Cursor → List IngestionJob → List IngestionJob
unfolding order_by
page limit cursor rows = take (suc limit) (order_by newer (keep (is_behind cursor) rows))

-- An item carries the row; its summary is read off the row and `payload_identity`.
unfoldable pub list_jobs : JobFilter → Option Cursor → ℕ → List IngestionJob → JobList
unfolding matches page
list_jobs f cursor limit jobs =
    let rows = page limit cursor (keep (matches f) jobs) in
    record {
      items = take limit rows;
      total = length (keep (matches f) jobs);
      limit = limit;
      next_cursor = if ltb limit (length rows) then last_cursor (take limit rows) else none;
    }

take-short {ℓ} :
    {A : Type ℓ} (n : ℕ) (xs : List A)
    → length (take (suc n) xs) ≤ n
    → take n (take (suc n) xs) ≡ xs
take-short zero [] le = refl
take-short zero (x ∷ xs) le = absurd (omega arith)
take-short (suc n) [] le = refl
take-short (suc n) (x ∷ xs) le = ap (λ (ys : List _). x ∷ ys) (take-short n xs (omega arith))

length-take-le {ℓ} : {A : Type ℓ} (n : ℕ) (xs : List A) → length (take n xs) ≤ n
length-take-le zero xs = omega arith
length-take-le (suc n) [] = omega arith
length-take-le (suc n) (x ∷ xs) = let le = length-take-le n xs in omega arith

last_cursor_some :
    (n : ℕ) (xs : List IngestionJob) → 0 < n → 0 < length xs → last_cursor (take n xs) ≢ none
last_cursor_some zero xs h k e = absurd (omega arith)
last_cursor_some (suc n) [] h k e = absurd (omega arith)
last_cursor_some (suc n) (x ∷ xs) h k e = cc

whole_page :
    (limit : ℕ) (cursor : Option Cursor) (rows : List IngestionJob)
    → 0 < limit
    → (if ltb limit (length (page limit cursor rows))
        then last_cursor (take limit (page limit cursor rows))
        else none)
      ≡ none
    → length (take limit (page limit cursor rows)) ≡ length (keep (is_behind cursor) rows)
whole_page limit cursor rows positive e =
    elim (Bool-cases (ltb limit (length (page limit cursor rows)))) [
      | inl more ↦ absurd (
          last_cursor_some limit (page limit cursor rows) positive (ground (arith, more))
            (rw more at e))
      | inr last ↦
          let le : length (page limit cursor rows) ≤ limit = ground (arith, last) in
          unfold page in
          ap length (take-short limit (order_by newer (keep (is_behind cursor) rows)) le)
          ∙ length-order_by newer (keep (is_behind cursor) rows)
    ]

-- With a positive limit, a page has at most `limit` items, and if no cursor is returned it has as
-- many as the filter and the cursor let through.
pub list_jobs_lem :
    (f : JobFilter) (cursor : Option Cursor) (limit : ℕ) (jobs : List IngestionJob)
    → 0 < limit
    → (length (list_jobs f cursor limit jobs).items ≤ limit)
      × ((list_jobs f cursor limit jobs).next_cursor ≡ none
          → length (list_jobs f cursor limit jobs).items
            ≡ length (keep (is_behind cursor) (keep (matches f) jobs)))
unfolding list_jobs
list_jobs_lem f cursor limit jobs positive =
    (length-take-le limit _, whole_page limit cursor (keep (matches f) jobs) positive)
