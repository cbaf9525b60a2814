-- ===== src/Agent/Deliveries.antt =====
-- What reaches the API of the agent's events (backend/app/ingestion/suricata_agent.py), again and again
-- until a checkpoint is behind them.
use mathlib.Core.List.{append_assoc, append-nil}
use intrusion_detect.Common.{◌≡◌, sym, ap, ◌∙◌, Bool, List, [], ◌∷◌, ◌++◌, if◌then◌else◌}
use intrusion_detect.Agent.{Forwarded}

-- The events of a request that reached the API, and whether the agent then wrote its checkpoint.
pub record Delivery : Type 0 where
  pub events : List Forwarded
  pub committed : Bool

abbrev pub kept_of : Delivery → List Forwarded
kept_of d = if d.committed then d.events else []

-- The events of the deliveries with a checkpoint.
abbrev pub kept : List Delivery → List Forwarded
kept [] = []
kept (d ∷ ds) = kept_of d ++ kept ds

-- Behind the events `before`, every delivery has the next events of `all`, from where the last one
-- with a checkpoint ended.
abbrev pub Resumes : List Forwarded → List Forwarded → List Delivery → Type 0
Resumes all before [] = Unit
Resumes all before (d ∷ ds) =
    ((later : List Forwarded) × (all ≡ before ++ d.events ++ later))
    × Resumes all (before ++ kept_of d) ds

pub kept-append : (ds : List Delivery) (d : Delivery) → kept (ds ++ d ∷ []) ≡ kept ds ++ kept_of d
kept-append [] d = append-nil (kept_of d)
kept-append (e ∷ ds) d =
    ap (λ es. kept_of e ++ es) (kept-append ds d)
    ∙ sym (append_assoc (kept_of e) (kept ds) (kept_of d))

-- One more delivery, of the events behind those with a checkpoint.
pub Resumes-append :
    (all before : List Forwarded) (ds : List Delivery) (d : Delivery) (later : List Forwarded)
    → Resumes all before ds
    → all ≡ (before ++ kept ds) ++ d.events ++ later
    → Resumes all before (ds ++ d ∷ [])
Resumes-append all before [] d later h e =
    ((later, e ∙ ap (λ es. es ++ d.events ++ later) (append-nil before)), tt)
Resumes-append all before (f ∷ ds) d later h e = (
  h.0,
  Resumes-append all (before ++ kept_of f) ds d later h.1
      (e ∙ ap (λ es. es ++ d.events ++ later) (sym (append_assoc before (kept_of f) (kept ds)))),
)

-- More events at the end change nothing.
pub Resumes-more :
    (all more before : List Forwarded) (ds : List Delivery)
    → Resumes all before ds
    → Resumes (all ++ more) before ds
Resumes-more all more before [] h = tt
Resumes-more all more before (d ∷ ds) ((later, e), h) = (
  (later ++ more, ap (λ es. es ++ more) e ∙ append_assoc (before ++ d.events) later more),
  Resumes-more all more (before ++ kept_of d) ds h,
)
