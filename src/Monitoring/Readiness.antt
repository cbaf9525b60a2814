-- ===== src/Monitoring/Readiness.antt =====
-- backend/app/monitoring/service.py: when model health degrades the readiness of the application.
use mathlib.Core.Path.{subst}
use mathlib.Core.Option.{some-injective}
use mathlib.Core.List.{append_assoc}
use intrusion_detect.Common.{
  ℕ, suc, zero, ◌≡◌, refl, sym, ◌∙◌, Bool, true, false, not, ◌&&◌, Option, none, some, List, [],
  ◌∷◌, ◌++◌, keep, take, find, All, All-keep, leb, Bool-cases, inl, inr,
}
use intrusion_detect.Monitoring.{
  Window, fast, slow, window_eq, DriftSnapshot, Services, Database, of_key, latest_first,
  insert_snapshot, is_critical, or_else, from_deployment, latest, degrades, component, component_of,
}
use intrusion_detect.Monitoring.Streaks.{
  alarms, both_alarm, Explained, Step, run, InTime, run-Explained,
}

-- A stored snapshot that counted an alarm, as did the two before it in its cohort and window.
pub record Persisted (snapshots : List DriftSnapshot) (s : DriftSnapshot) : Type 0 where
  pub newer : List DriftSnapshot
  pub older : List DriftSnapshot
  pub split : snapshots ≡ newer ++ s ∷ older
  pub alarm : alarms s ≡ true
  pub before : both_alarm (keep (of_key s.cohort s.window) older) ≡ true

abbrev Backed : List DriftSnapshot → DriftSnapshot → Type 0
Backed snapshots s = is_critical s.status ≡ true → Persisted snapshots s

and_both : (a b : Bool) → (a && b) ≡ true → (a ≡ true) × (b ≡ true)
and_both true true e = (refl, refl)
and_both true false e = absurd cc
and_both false b e = absurd cc

Explained-Backed :
    (snapshots newer xs : List DriftSnapshot)
    → snapshots ≡ newer ++ xs
    → Explained xs
    → All (Backed snapshots) xs
Explained-Backed snapshots newer [] e h = tt
Explained-Backed snapshots newer (s ∷ rest) e h =
    let backed : Backed snapshots s = λ c.
      let (alarm, two) =
        and_both (alarms s) (both_alarm (keep (of_key s.cohort s.window) rest)) (sym h.0 ∙ c) in
      record { newer = newer; older = rest; split = e; alarm = alarm; before = two } in
    (
      backed,
      Explained-Backed snapshots (newer ++ s ∷ []) rest (e ∙ sym (append_assoc newer (s ∷ []) rest))
          h.2,
    )

module _ (P : DriftSnapshot → Type 0) where
  All-insert_snapshot :
      (s : DriftSnapshot) (xs : List DriftSnapshot) → P s → All P xs → All P (insert_snapshot s xs)
  unfolding insert_snapshot
  All-insert_snapshot s [] h k = (h, tt)
  All-insert_snapshot s (t ∷ xs) h k = elim (Bool-cases (leb t.checked_at s.checked_at)) [
    | inl e ↦ rw e (h, k)
    | inr e ↦ rw e (k.0, All-insert_snapshot s xs h k.1)
  ]

  All-latest_first : (xs : List DriftSnapshot) → All P xs → All P (latest_first xs)
  unfolding latest_first
  All-latest_first [] h = tt
  All-latest_first (s ∷ xs) h =
      All-insert_snapshot s (latest_first xs) h.0 (All-latest_first xs h.1)

  All-take : (n : ℕ) (xs : List DriftSnapshot) → All P xs → All P (take n xs)
  All-take zero xs h = tt
  All-take (suc n) [] h = tt
  All-take (suc n) (s ∷ xs) h = (h.0, All-take n xs h.1)

  All-find :
      (p : DriftSnapshot → Bool) (xs : List DriftSnapshot) (s : DriftSnapshot)
      → All P xs
      → find p xs ≡ some s
      → P s
  All-find p [] s h e = absurd cc
  All-find p (x ∷ xs) s h e = elim (Bool-cases (p x)) [
    | inl hit ↦ let same : x ≡ s = some_eq x s (rw hit at e) in subst P same h.0
    | inr miss ↦ All-find p xs s h.1 (rw miss at e)
  ]
    where
      some_eq : (x s : DriftSnapshot) → some x ≡ some s → x ≡ s
      some_eq x s e = cc

  All-or_else :
      (a b : Option DriftSnapshot) (s : DriftSnapshot)
      → (a ≡ some s → P s)
      → (b ≡ some s → P s)
      → or_else a b ≡ some s
      → P s
  All-or_else none b s f g e = g e
  All-or_else (some x) b s f g e = f e

  All-latest :
      (db : Database) (s : DriftSnapshot)
      → All P (keep (λ s. window_eq s.window fast) db.snapshots)
      → latest db ≡ some s
      → P s
  unfolding latest
  All-latest db s h e =
      let rows = take 1000 (latest_first (keep (λ s. window_eq s.window fast) db.snapshots)) in
      let held = All-take 1000 _ (All-latest_first _ h) in
      All-or_else (find (λ s. s.cohort.deployment_eligible) rows) (find from_deployment rows) s
        (All-find (λ s. s.cohort.deployment_eligible) rows s held)
        (All-find from_deployment rows s held) e

window_eq-fast : (w : Window) → window_eq w fast ≡ true → w ≡ fast
window_eq-fast fast e = refl
window_eq-fast slow e = absurd cc

component_of-degraded :
    (o : Option DriftSnapshot)
    → (component_of o).degrades_readiness ≡ some true
    → (s : DriftSnapshot) × (o ≡ some s) × (degrades s ≡ true)
unfolding component_of
component_of-degraded none e = absurd cc
component_of-degraded (some s) e = (s, refl, some-injective _ _ e)

not-true : (b : Bool) → not b ≡ true → b ≡ false
not-true true e = absurd cc
not-true false e = refl

-- What a snapshot that degrades the readiness is.
degrades-parts :
    (s : DriftSnapshot)
    → degrades s ≡ true
    → (is_critical s.status ≡ true)
      × (s.shadow_mode ≡ false)
      × (s.cohort.deployment_eligible ≡ true)
unfolding degrades
degrades-parts s d =
    let (a, c) =
      and_both (is_critical s.status && not s.shadow_mode) s.cohort.deployment_eligible d in
    let (k, n) = and_both (is_critical s.status) (not s.shadow_mode) a in
    (k, not-true s.shadow_mode n, c)

-- From an empty table of snapshots, in a run that is in order and within the retention, model health
-- degrades the readiness only for a snapshot of the fast window, of a cohort that is eligible for
-- deployment and outside of the shadow mode, that counted an alarm as did the two before it in its
-- cohort and window.
pub component-degraded :
    (svc : Services) (start : ℕ) (steps : List Step) (db : Database)
    → db.snapshots ≡ []
    → InTime svc start start steps
    → (component (run svc steps db)).degrades_readiness ≡ some true
    → (s : DriftSnapshot) × Persisted (run svc steps db).snapshots s
      × (s.window ≡ fast)
      × (s.shadow_mode ≡ false)
      × (s.cohort.deployment_eligible ≡ true)
unfolding component
component-degraded svc start steps db e t degrading =
    let after = run svc steps db in
    let (s, found, d) = component_of-degraded (latest after) degrading in
    let (k, shadow, deployed) = degrades-parts s d in
    let backed =
      Explained-Backed after.snapshots [] after.snapshots refl
        (run-Explained svc start steps db e t) in
    let (b, w) =
      All-latest (λ s. Backed after.snapshots s × (s.window ≡ fast)) after s
        (All-keep (Backed after.snapshots) (λ s. Backed after.snapshots s × (s.window ≡ fast))
          (λ s. window_eq s.window fast) after.snapshots (λ x b w. (b, window_eq-fast x.window w))
          backed)
        found in
    (s, b k, w, shadow, deployed)
