-- ===== src/Monitoring/Findings.antt =====
-- backend/app/monitoring/service.py: what an evaluation finds, and what earlier ones make of it.
use mathlib.Core.Path.{subst}
use intrusion_detect.Common.{
  ◌≡◌, refl, sym, false, ◌&&◌, ◌||◌, Option, none, some, List, ltb, Bool-cases, inl, inr, map,
  length,
}
use intrusion_detect.Schema.{schema_version_eq}
use intrusion_detect.Monitoring.Drift.{
  Numerics, WindowResult, OutputResult, feature_alarms, Reference, evaluate_feature_window,
  evaluate_output_window,
}
use intrusion_detect.Monitoring.{
  Cohort, Status, blocked, incompatible_source, collecting, healthy, warning, critical,
  DriftSnapshot, Loading, no_reference, invalid, loaded, RouteView, Services, WindowPolicy,
  Observed, Finding, ◌>>=◌, found, measure, with_reference, judge, is_alarm, is_critical, persists,
  escalate, current_of,
}

-- A finding is an alarm exactly if it counts one, and is not critical.
pub record IsPlain (f : Finding) : Type 0 where
  pub alarm : is_alarm f.status ≡ (ltb 0 f.feature_alarm_count || ltb 0 f.output_alarm_count)
  pub plain : is_critical f.status ≡ false

pub >>=-some :
    {A B : Type 0} (first : Option A) (next : A → Option B) (b : B)
    → (first >>= next) ≡ some b
    → (a : A) × (first ≡ some a) × (next a ≡ some b)
>>=-some none next b e = absurd cc
>>=-some (some a) next b e = (a, refl, e)

found-IsPlain : (n : Numerics) (w : WindowResult) (o : OutputResult) → IsPlain (found n w o)
unfolding found
found-IsPlain n w o = elim (Bool-cases (ltb 0 (feature_alarms w) || ltb 0 o.alarm_count)) [
  | inl e ↦ rw e (record { alarm = sym e; plain = refl })
  | inr e ↦ rw e (record { alarm = sym e; plain = refl })
]

some-IsPlain : (f g : Finding) → some g ≡ some f → IsPlain g → IsPlain f
some-IsPlain f g e p = let same : g ≡ f = cc in subst IsPlain same p

measure-IsPlain :
    (svc : Services) (reference : Reference) (rows : List Observed) (f : Finding)
    → measure svc reference rows ≡ some f
    → IsPlain f
unfolding measure
measure-IsPlain svc reference rows f e =
    let (w, e1, e2) =
      >>=-some (evaluate_feature_window svc.numerics reference (map (λ r. r.0.raw_features) rows)) _
        f e in
    let (o, e3, e4) =
      >>=-some (evaluate_output_window svc.numerics reference (current_of rows)) _ f e2 in
    some-IsPlain f (found svc.numerics w o) e4 (found-IsPlain svc.numerics w o)

with_reference-IsPlain :
    (svc : Services) (cohort : Cohort) (p : WindowPolicy) (rows : List Observed)
    (reference : Loading) (f : Finding)
    → with_reference svc cohort p rows reference ≡ some f
    → IsPlain f
unfolding with_reference
with_reference-IsPlain svc cohort p rows no_reference f e =
    some-IsPlain f _ e (record { alarm = refl; plain = refl })
with_reference-IsPlain svc cohort p rows (invalid reason) f e =
    some-IsPlain f _ e (record { alarm = refl; plain = refl })
with_reference-IsPlain svc cohort p rows (loaded reference) f e =
    elim (Bool-cases (schema_version_eq reference.schema_version cohort.schema_version)) [
      | inr other ↦ some-IsPlain f _ (rw other at e) (record { alarm = refl; plain = refl })
      | inl same ↦ elim (Bool-cases (ltb (length rows) p.minimum)) [
        | inl few ↦ some-IsPlain f _ (rw (same, few) at e) (record { alarm = refl; plain = refl })
        | inr many ↦ measure-IsPlain svc reference rows f (rw (same, many) at e)
      ]
    ]

pub judge-IsPlain :
    (svc : Services) (cohort : Cohort) (p : WindowPolicy) (rows : List Observed)
    (route : Option RouteView) (f : Finding)
    → judge svc cohort p rows route ≡ some f
    → IsPlain f
unfolding judge
judge-IsPlain svc cohort p rows none f e =
    some-IsPlain f _ e (record { alarm = refl; plain = refl })
judge-IsPlain svc cohort p rows (some route) f e =
    with_reference-IsPlain svc cohort p rows route.reference f e

pub escalate-status :
    (before : List DriftSnapshot) (s : Status)
    → is_critical s ≡ false
    → (is_critical (escalate before s) ≡ (is_alarm s && persists before))
      × (is_alarm (escalate before s) ≡ is_alarm s)
unfolding escalate
escalate-status before blocked h = (refl, refl)
escalate-status before incompatible_source h = (refl, refl)
escalate-status before collecting h = (refl, refl)
escalate-status before healthy h = (refl, refl)
escalate-status before critical h = absurd cc
escalate-status before warning h = elim (Bool-cases (persists before)) [
  | inl e ↦ rw e (refl, refl)
  | inr e ↦ rw e (refl, refl)
]
