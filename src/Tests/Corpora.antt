-- ===== src/Tests/Corpora.antt =====
-- The theorem of the splits of a corpus at a concrete manifest.
use intrusion_detect.Common.{
  ℕ, zero, suc, ◌/◌, ◌%◌, ◌≤◌, ◌≡◌, refl, true, ◌&&◌, some, List, [], ◌∷◌, Text, count_if, length,
  ◌==◌, if◌then◌else◌,
}
use intrusion_detect.Corpus.{
  Session, Item, complete, CaptureManifest, passed, in_family, of_family, normal, validation,
  validate_capture_manifest, assign_session_splits,
}
use intrusion_detect.Corpus.Shares.{share}
use intrusion_detect.Corpus.Lookups.{assigned}
use intrusion_detect.Corpus.Splits.{assign_session_splits_lem}

abbrev zeros : ℕ → Text
zeros zero = []
zeros (suc n) = 48 ∷ zeros n

-- Ten families, each with fifteen sessions of three runs.
abbrev session : ℕ → Session
session n = record {
  session_id = n ∷ [];
  collection_run_id = n % 3 ∷ [];
  traffic_family = if n / 15 == 0 then normal else n / 15 ∷ [];
  capture_sha256 = n ∷ zeros 63;
  started_at = 1 ∷ [];
  ended_at = 2 ∷ [];
}

abbrev sessions_from : ℕ → List Session
sessions_from zero = []
sessions_from (suc n) = session n ∷ sessions_from n

abbrev items_from : ℕ → List Item
items_from zero = []
items_from (suc n) = complete (session n) ∷ items_from n

abbrev manifest : CaptureManifest
manifest = record {
  schema_matches = true;
  egress_denied = true;
  allowlisted_targets = true;
  fixed_duration_seconds = true;
  rate_limit_per_second = true;
  sessions = some (items_from 150);
}

abbrev same_id : Text → Text → Text → Text → Text
same_id seed family session_id capture = session_id

passes : validate_capture_manifest (λ t. true) manifest ≡ passed (sessions_from 150)
unfolding validate_capture_manifest
passes = refl

assign_session_splits_example :
    (count_if
        (λ s.
          in_family normal s
          && assigned validation (assign_session_splits same_id [] (sessions_from 150)) s)
        (sessions_from 150)
      ≡ share validation (length (of_family normal (sessions_from 150))))
    × (15 ≤ length (of_family normal (sessions_from 150)))
    × (3 ≤ share validation (length (of_family normal (sessions_from 150))))
assign_session_splits_example =
    assign_session_splits_lem (λ t. true) manifest (sessions_from 150) same_id [] normal validation
      passes refl
