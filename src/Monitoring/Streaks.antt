-- ===== src/Monitoring/Streaks.antt =====
-- backend/app/monitoring/service.py: which snapshots of a run are critical.
use mathlib.Core.Path.{subst}
use intrusion_detect.Common.{
  ℕ, ◌+◌, ◌≤◌, ◌≡◌, refl, sym, ap, ◌∙◌, Bool, false, ◌&&◌, ◌||◌, Option, none, some, List, [], ◌∷◌,
  keep, take, All, ltb, arith, All-keep,
}
use intrusion_detect.Store.{ObservationRow, PredictionRow}
use intrusion_detect.Monitoring.{
  Window, Cohort, DriftSnapshot, Services, Database, Observed, Finding, judge, of_key, latest_first,
  prior, is_alarm, is_critical, persists, snapshot_of, retained, days, evaluate, policy, rows_of,
  eligible,
}
use intrusion_detect.Monitoring.Findings.{IsPlain, >>=-some, judge-IsPlain, escalate-status}
use intrusion_detect.Monitoring.Retained.{
  Descending, Descending-later, Descending-keep, latest_first-Descending, retained-all,
}

-- A snapshot that counted an alarm.
abbrev pub alarms : DriftSnapshot → Bool
alarms s = ltb 0 s.feature_alarm_count || ltb 0 s.output_alarm_count

abbrev pub both_alarm : List DriftSnapshot → Bool
both_alarm (a ∷ b ∷ rest) = alarms a && alarms b
both_alarm _ = false

-- Newest first: each snapshot is critical exactly if it and the two before it in its cohort and window
-- counted alarms, and a warning or critical exactly if it counted one.
abbrev pub Explained : List DriftSnapshot → Type 0
Explained [] = Unit
Explained (s ∷ rest) =
    (is_critical s.status ≡ (alarms s && both_alarm (keep (of_key s.cohort s.window) rest)))
    × (is_alarm s.status ≡ alarms s)
    × Explained rest

-- What happens: the tables of the predictions change, or a cohort is evaluated.
pub data Step : Type 0 where
  tables : List ObservationRow → List PredictionRow → Step
  evaluates : Window → Cohort → (at : ℕ) → Step

abbrev behind : Database → Option (DriftSnapshot × Database) → Database
behind db none = db
behind db (some (row, db')) = db'

-- An evaluation that raises changes nothing.
unfoldable pub step : Services → Step → Database → Database
unfolding evaluate
step svc (tables observations predictions) db = record db {
  observations = observations;
  predictions = predictions;
}
step svc (evaluates window cohort at) db = behind db (evaluate svc window cohort at db)

unfoldable pub run : Services → List Step → Database → Database
unfolding step
run svc [] db = db
run svc (s ∷ steps) db = run svc steps (step svc s db)

-- The evaluations come in the order of time, and the run is no longer than the retention.
abbrev pub InTime : Services → ℕ → ℕ → List Step → Type 0
InTime svc start last [] = Unit
InTime svc start last (tables observations predictions ∷ steps) = InTime svc start last steps
InTime svc start last (evaluates window cohort at ∷ steps) =
    (last ≤ at) × (at ≤ start + days svc.retention_days) × InTime svc start at steps

-- The two before, by their status and by their alarms.
persists-alarms :
    (xs : List DriftSnapshot)
    → All (λ s. is_alarm s.status ≡ alarms s) xs
    → persists (take 2 xs) ≡ both_alarm xs
persists-alarms [] h = refl
persists-alarms (a ∷ []) h = refl
persists-alarms (a ∷ b ∷ rest) h = rw (h.0, h.1.0) refl

All-alarm : (xs : List DriftSnapshot) → Explained xs → All (λ s. is_alarm s.status ≡ alarms s) xs
All-alarm [] h = tt
All-alarm (s ∷ rest) h = (h.1, All-alarm rest h.2)

-- The table behind an evaluation that commits.
record Added (svc : Services) (window : Window) (cohort : Cohort) (at : ℕ) (db db' : Database)
    : Type 0 where
  server_cohort : Cohort
  rows : List Observed
  finding : Finding
  plain : IsPlain finding
  table :
      db'.snapshots
      ≡ retained svc at (
          snapshot_of svc window server_cohort at rows finding
            (prior server_cohort window db.snapshots)
          ∷ db.snapshots)

same_snapshots :
    (r s : DriftSnapshot) (d d' : Database)
    → ◌≡◌ {A = Option (DriftSnapshot × Database)} (some (r, d)) (some (s, d'))
    → d'.snapshots ≡ d.snapshots
same_snapshots r s d d' e = let same : d ≡ d' = cc in ap (λ x. x.snapshots) (sym same)

evaluate-Added :
    (svc : Services) (window : Window) (cohort : Cohort) (at : ℕ) (db db' : Database)
    (row : DriftSnapshot)
    → evaluate svc window cohort at db ≡ some (row, db')
    → Added svc window cohort at db db'
unfolding evaluate
evaluate-Added svc window cohort at db db' row e =
    let route = svc.resolve_route cohort.schema_version cohort.extractor_fingerprint in
    let server_cohort = eligible cohort route in
    let p = policy svc window in
    let rows = rows_of server_cohort p at db in
    let (f, j, e1) = >>=-some (judge svc server_cohort p rows route) _ (row, db') e in
    record {
      server_cohort = server_cohort;
      rows = rows;
      finding = f;
      plain = judge-IsPlain svc server_cohort p rows route f j;
      table = same_snapshots _ row _ db' e1;
    }

-- A snapshot in front of a table in order.
snapshot_of-Explained :
    (svc : Services) (window : Window) (cohort : Cohort) (start last at : ℕ) (rows : List Observed)
    (f : Finding) (xs : List DriftSnapshot)
    → IsPlain f
    → Descending start last xs
    → Explained xs
    → Explained (snapshot_of svc window cohort at rows f (prior cohort window xs) ∷ xs)
unfolding snapshot_of prior
snapshot_of-Explained svc window cohort start last at rows f xs p d h =
    let key = of_key cohort window in
    let sorted =
      latest_first-Descending start last (keep key xs) (Descending-keep key start last xs d) in
    let two = persists-alarms (keep key xs) (
      All-keep (λ s. is_alarm s.status ≡ alarms s) (λ s. is_alarm s.status ≡ alarms s) key xs
        (λ s a e. a) (All-alarm xs h)) in
    let e = escalate-status (take 2 (latest_first (keep key xs))) f.status p.plain in
    let same : persists (take 2 (latest_first (keep key xs))) ≡ both_alarm (keep key xs) =
      rw sorted two in
    (
      e.0 ∙ ap (λ b. is_alarm f.status && b) same ∙ ap (λ b. b && both_alarm (keep key xs)) p.alarm,
      e.1 ∙ p.alarm,
      h,
    )

-- A table in order, with its snapshots explained.
record IsGood (start last : ℕ) (db : Database) : Type 0 where
  descending : Descending start last db.snapshots
  explained : Explained db.snapshots

Added-IsGood :
    (svc : Services) (window : Window) (cohort : Cohort) (start last at : ℕ) (db db' : Database)
    → start ≤ at
    → last ≤ at
    → at ≤ start + days svc.retention_days
    → IsGood start last db
    → Added svc window cohort at db db'
    → IsGood start at db'
unfolding snapshot_of
Added-IsGood svc window cohort start last at db db' h k m g a =
    let row =
      snapshot_of svc window a.server_cohort at a.rows a.finding
        (prior a.server_cohort window db.snapshots) in
    let d : Descending start at (row ∷ db.snapshots) =
      (omega arith, h, Descending-later start last at db.snapshots k g.descending) in
    let table = a.table ∙ retained-all svc start at at (row ∷ db.snapshots) m d in
    let e =
      snapshot_of-Explained svc window a.server_cohort start last at a.rows a.finding db.snapshots
        a.plain g.descending g.explained in
    record {
      descending = subst (Descending start at) (sym table) d;
      explained = subst Explained (sym table) e;
    }

behind-IsGood :
    (svc : Services) (window : Window) (cohort : Cohort) (start last at : ℕ) (db : Database)
    (result : Option (DriftSnapshot × Database))
    → evaluate svc window cohort at db ≡ result
    → start ≤ at
    → last ≤ at
    → at ≤ start + days svc.retention_days
    → IsGood start last db
    → IsGood start at (behind db result)
behind-IsGood svc window cohort start last at db none e h k m g = record {
  descending = Descending-later start last at db.snapshots k g.descending;
  explained = g.explained;
}
behind-IsGood svc window cohort start last at db (some (row, db')) e h k m g =
    Added-IsGood svc window cohort start last at db db' h k m g
      (evaluate-Added svc window cohort at db db' row e)

run-IsGood :
    (svc : Services) (start last : ℕ) (steps : List Step) (db : Database)
    → start ≤ last
    → InTime svc start last steps
    → IsGood start last db
    → Explained (run svc steps db).snapshots
unfolding run step
run-IsGood svc start last [] db h t g = g.explained
run-IsGood svc start last (tables observations predictions ∷ steps) db h t g =
    run-IsGood svc start last steps (step svc (tables observations predictions) db) h t
      (record { descending = g.descending; explained = g.explained })
run-IsGood svc start last (evaluates window cohort at ∷ steps) db h t g =
    let later : start ≤ at = omega (arith, t.0) in
    run-IsGood svc start at steps (step svc (evaluates window cohort at) db) later t.2 (
      behind-IsGood svc window cohort start last at db (evaluate svc window cohort at db) refl later
        t.0 t.1 g)

-- From an empty table of snapshots, however the tables of the predictions change between evaluations
-- of any cohorts in any windows, which come in the order of time and last no longer than the
-- retention: each snapshot is critical exactly if it and the two before it of its cohort and its
-- window counted alarms, and it is a warning or critical exactly if it counted one.
pub run-Explained :
    (svc : Services) (start : ℕ) (steps : List Step) (db : Database)
    → db.snapshots ≡ []
    → InTime svc start start steps
    → Explained (run svc steps db).snapshots
run-Explained svc start steps db e t = run-IsGood svc start start steps db (omega arith) t (record {
  descending = subst (Descending start start) (sym e) tt;
  explained = subst Explained (sym e) tt;
})
