-- ===== src/Corpus/Checks.antt =====
-- machine-learning/src/iot_ids_ml/native_corpus.py: the sessions of a manifest that passes.
use mathlib.Core.Path.{subst}
use intrusion_detect.Common.{
  ℕ, ◌≡◌, ◌≤◌, refl, Bool, true, false, not, ◌&&◌, List, [], ◌∷◌, Text, text_eq_iff, ==_iff, ltb,
  leb, ◌==◌, All, length, arith,
}
use intrusion_detect.Corpus.{
  Session, Item, incomplete, undigested, complete, CaptureManifest, CorpusError, Checked, refused,
  passed, ◌>>=◌, ◌>>◌, require, no_normal, other_families, attack_families, listed, normal,
  text_mem, check_session, check_sessions, of_family, distinct, families_of, check_families,
  validate_capture_manifest,
}
use intrusion_detect.Corpus.Lookups.{has_id, DistinctIds}

>>=-passed :
    {A B : Type 0} (m : Checked A) (next : A → Checked B) (b : B)
    → (m >>= next) ≡ passed b
    → (a : A) × (m ≡ passed a) × (next a ≡ passed b)
>>=-passed (refused e) next b h = absurd cc
>>=-passed (passed a) next b h = (a, refl, h)

require-passed :
    {B : Type 0} (test : Bool) (e : CorpusError) (rest : Checked B) (b : B)
    → (require test e >> rest) ≡ passed b
    → (test ≡ true) × (rest ≡ passed b)
require-passed true e rest b h = (refl, h)
require-passed false e rest b h = absurd cc

passed_inj : {A : Type 0} (a b : A) → passed a ≡ passed b → a ≡ b
passed_inj a b h = cc

negated : (b : Bool) → not b ≡ true → b ≡ false
negated b h = ground arith

-- A session whose id was not seen before.
abbrev New : List Text → Session → Type 0
New ids s = text_mem s.session_id ids ≡ false

check_session-New :
    (is_hex : Text → Bool) (ids captures : List Text) (s : Session)
    → check_session is_hex ids captures s ≡ passed tt
    → New ids s
unfolding check_session
check_session-New is_hex ids captures s h =
    negated (text_mem s.session_id ids) (require-passed (not (text_mem s.session_id ids)) _ _ _ h).0

New-has_id :
    (i : Text) (ids : List Text) (sessions : List Session)
    → All (New (i ∷ ids)) sessions
    → (has_id i sessions ≡ false) × All (New ids) sessions
New-has_id i ids [] h = (refl, tt)
New-has_id i ids (s ∷ sessions) h =
    let rest = New-has_id i ids sessions h.1 in
    (
      ground (arith, h.0, rest.0, text_eq_iff i s.session_id, text_eq_iff s.session_id i),
      (ground (arith, h.0), rest.1),
    )

-- No two sessions that pass have one id.
pub check_sessions-DistinctIds :
    (is_hex : Text → Bool) (ids captures : List Text) (items : List Item) (sessions : List Session)
    → check_sessions is_hex ids captures items ≡ passed sessions
    → DistinctIds sessions × All (New ids) sessions
unfolding check_sessions
check_sessions-DistinctIds is_hex ids captures [] [] h = (tt, tt)
check_sessions-DistinctIds is_hex ids captures [] (s ∷ sessions) h = absurd cc
check_sessions-DistinctIds is_hex ids captures (incomplete ∷ items) sessions h = absurd cc
check_sessions-DistinctIds is_hex ids captures (undigested i ∷ items) sessions h =
    absurd (let k = (require-passed (not (text_mem i ids)) _ _ _ h).1 in cc)
check_sessions-DistinctIds is_hex ids captures (complete s ∷ items) sessions h =
    let (u, one, later) = >>=-passed (check_session is_hex ids captures s) _ sessions h in
    let (rest, more, e) =
      >>=-passed (check_sessions is_hex (s.session_id ∷ ids) (s.capture_sha256 ∷ captures) items)
        (λ rest. passed (s ∷ rest)) sessions later in
    let (different, new) =
      check_sessions-DistinctIds is_hex (s.session_id ∷ ids) (s.capture_sha256 ∷ captures) items
        rest more in
    let (fresh, unseen) = New-has_id s.session_id ids rest new in
    joined s rest sessions e
      ((fresh, different), (check_session-New is_hex ids captures s one, unseen))
  where
    joined :
        (s : Session) (rest sessions : List Session)
        → passed (s ∷ rest) ≡ passed sessions
        → DistinctIds (s ∷ rest) × All (New ids) (s ∷ rest)
        → DistinctIds sessions × All (New ids) sessions
    joined s rest sessions e h =
        subst (λ xs. DistinctIds xs × All (New ids) xs) (passed_inj (s ∷ rest) sessions e) h

-- What a manifest that passes says of its sessions.
pub check_families-Enough :
    (sessions : List Session) (families : List Text)
    → check_families sessions families ≡ passed tt
    → All (λ f. 15 ≤ length (of_family f sessions)) families
unfolding check_families
check_families-Enough sessions [] h = tt
check_families-Enough sessions (f ∷ families) h =
    let (enough, h1) = require-passed (leb 15 (length (of_family f sessions))) _ _ _ h in
    let runs = length (distinct (λ s. s.collection_run_id) (of_family f sessions)) in
    let (_, h2) = require-passed (leb 3 runs) _ _ _ h1 in
    (long (length (of_family f sessions)) enough, check_families-Enough sessions families h2)
  where
    long : (n : ℕ) → leb 15 n ≡ true → 15 ≤ n
    long n h = ground arith

-- The families of the sessions, with enough sessions each, the normal one, and nine others.
abbrev pub IsRich : List Session → Type 0
IsRich sessions =
    All (λ f. 15 ≤ length (of_family f sessions)) (families_of sessions)
    × (text_mem normal (families_of sessions) ≡ true)
    × (length (attack_families (families_of sessions)) ≡ 9)

families-IsRich :
    (found sessions : List Session)
    → (require (text_mem normal (families_of found)) no_normal
        >> (require (length (attack_families (families_of found)) == 9) other_families
            >> (check_families found (families_of found) >> passed found)))
      ≡ passed sessions
    → IsRich found × (found ≡ sessions)
families-IsRich found sessions h =
    let (with_normal, h1) = require-passed (text_mem normal (families_of found)) _ _ _ h in
    let (nine, h2) = require-passed (length (attack_families (families_of found)) == 9) _ _ _ h1 in
    let (u, families, h3) = >>=-passed (check_families found (families_of found)) _ _ h2 in
    (
      (
        check_families-Enough found (families_of found) families,
        with_normal,
        (==_iff (length (attack_families (families_of found))) 9).0 nine,
      ),
      passed_inj found sessions h3,
    )

pub validate_capture_manifest-passed :
    (is_hex : Text → Bool) (m : CaptureManifest) (sessions : List Session)
    → validate_capture_manifest is_hex m ≡ passed sessions
    → DistinctIds sessions × IsRich sessions
unfolding validate_capture_manifest
validate_capture_manifest-passed is_hex m sessions h =
    let (_, h1) = require-passed m.schema_matches _ _ _ h in
    let (_, h2) = require-passed m.egress_denied _ _ _ h1 in
    let (_, h3) = require-passed m.allowlisted_targets _ _ _ h2 in
    let (_, h4) = require-passed (m.fixed_duration_seconds && m.rate_limit_per_second) _ _ _ h3 in
    let (_, h5) = require-passed (ltb 0 (length (listed m.sessions))) _ _ _ h4 in
    let (found, checked, h6) =
      >>=-passed (check_sessions is_hex [] [] (listed m.sessions)) _ _ h5 in
    let (rich, same) = families-IsRich found sessions h6 in
    subst (λ xs. DistinctIds xs × IsRich xs) same
      ((check_sessions-DistinctIds is_hex [] [] (listed m.sessions) found checked).0, rich)
