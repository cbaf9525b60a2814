-- ===== src/Replay/Rows.antt =====
-- The rows that `_matching_rows` of backend/app/ingestion/dataset_replay.py yields.
use intrusion_detect.Common.{
  ℕ, zero, suc, ◌+◌, ◌-◌, ◌≤◌, ◌≡◌, refl, sym, ap, Bool, true, false, inl, inr, Option, none, some,
  List, [], ◌∷◌, arith, ltb, Bool-cases, keep, Text, codes, text_eq, starts_with, length, take,
}
use intrusion_detect.Errors.{Result, ok, err}
use intrusion_detect.Replay.{
  Row, scenario_matches, is_reached, Yielded, emit, matching_from, matching_rows, dataset_total,
  total_of,
}

abbrev pub matched : Result Bool → Bool
matched (ok b) = b
matched (err e) = false

-- Whether a row is of the scenario.
abbrev pub is_of : Text → Row → Bool
is_of scenario row = matched (scenario_matches row.attack_type scenario)

abbrev pub drop : ℕ → List Row → List Row
drop zero rows = rows
drop (suc n) [] = []
drop (suc n) (row ∷ rows) = drop n rows

-- At most the rest of the limit.
abbrev pub at_most : Option ℕ → ℕ → List Row → List Row
at_most none emitted rows = rows
at_most (some n) emitted rows = take (n - emitted) rows

-- Whether a scenario is known does not depend on the label.
known_scenario :
    (label other scenario : Text) (b : Bool)
    → scenario_matches other scenario ≡ ok b
    → scenario_matches label scenario ≡ ok (matched (scenario_matches label scenario))
unfolding scenario_matches
known_scenario label other scenario b h = elim (Bool-cases (text_eq scenario (codes "all"))) [
  | inl all ↦ rw all refl
  | inr not_all ↦ elim (Bool-cases (text_eq scenario (codes "normal"))) [
    | inl normal ↦ rw (not_all, normal) refl
    | inr not_normal ↦ elim (Bool-cases (text_eq scenario (codes "attack"))) [
      | inl attack ↦ rw (not_all, not_normal, attack) refl
      | inr not_attack ↦ elim (Bool-cases (starts_with (codes "class:") scenario)) [
        | inl class ↦ rw (not_all, not_normal, not_attack, class) refl
        | inr not_class ↦ cc (rw (not_all, not_normal, not_attack, not_class) at h)
      ]
    ]
  ]
]

take_nil : (n : ℕ) → take {A = Row} n [] ≡ []
take_nil zero = refl
take_nil (suc n) = refl

at_most_nil :
    (limit : Option ℕ) (emitted : ℕ) → ◌≡◌ {A = Yielded} ([], none) (at_most limit emitted [], none)
at_most_nil none emitted = refl
at_most_nil (some n) emitted = ap (λ (rows : List Row). (rows, none)) (sym (take_nil (n - emitted)))

at_most-emit :
    (limit : Option ℕ) (emitted : ℕ) (row : Row) (rows : List Row)
    → is_reached limit emitted ≡ false
    → at_most limit emitted (row ∷ rows) ≡ row ∷ at_most limit (emitted + 1) rows
at_most-emit none emitted row rows h = refl
at_most-emit (some n) emitted row rows h =
    let e : n - emitted ≡ suc (n - (emitted + 1)) = ground (arith, h) in rw e refl

at_most-end :
    (limit : Option ℕ) (emitted : ℕ) (rows : List Row)
    → is_reached limit emitted ≡ true
    → at_most limit emitted rows ≡ []
at_most-end none emitted rows h = cc
at_most-end (some n) emitted rows h = let e : n - emitted ≡ 0 = ground (arith, h) in rw e refl

module _ (scenario other : Text) (b : Bool) (known : scenario_matches other scenario ≡ ok b)
    (offset : ℕ) (limit : Option ℕ) where
  matching_from_lem :
      (row_index emitted : ℕ) (rows : List Row)
      → offset ≤ row_index
      → matching_from scenario offset limit row_index emitted rows
        ≡ (at_most limit emitted (keep (is_of scenario) rows), none)
  unfolding matching_from emit
  matching_from_lem row_index emitted [] le = at_most_nil limit emitted
  matching_from_lem row_index emitted (row ∷ rows) le =
      let here : ltb row_index offset ≡ false = ground (arith, le) in
      let e = known_scenario row.attack_type other scenario b known in
      let ih = matching_from_lem (row_index + 1) emitted rows (omega arith) in
      let ih_taken = matching_from_lem (row_index + 1) (emitted + 1) rows (omega arith) in
      elim (Bool-cases (is_of scenario row)) [
        | inl hit ↦ elim (Bool-cases (is_reached limit emitted)) [
          | inl over ↦
              rw
                (
                  here,
                  e,
                  hit,
                  over,
                  at_most-end limit emitted (row ∷ keep (is_of scenario) rows) over,
                )
                refl
          | inr more ↦
              rw
                (
                  here,
                  e,
                  hit,
                  more,
                  ih_taken,
                  at_most-emit limit emitted row (keep (is_of scenario) rows) more,
                )
                refl
        ]
        | inr miss ↦ rw (here, e, miss, ih) refl
      ]

  -- The rows before the offset are counted and not looked at.
  matching_from_offset :
      (row_index n : ℕ) (rows : List Row)
      → row_index + n ≡ offset
      → matching_from scenario offset limit row_index 0 rows
        ≡ (at_most limit 0 (keep (is_of scenario) (drop n rows)), none)
  unfolding matching_from
  matching_from_offset row_index zero rows e = matching_from_lem row_index 0 rows (omega arith)
  matching_from_offset row_index (suc n) [] e = at_most_nil limit 0
  matching_from_offset row_index (suc n) (row ∷ rows) e =
      let before : ltb row_index offset ≡ true = ground (arith, e) in
      let ih = matching_from_offset (row_index + 1) n rows (omega arith) in rw (before, ih) refl

-- If the scenario is known, which a probe with any label shows, the generator raises nothing and
-- yields the rows of the scenario behind the first `offset` rows, in their order and `limit` of
-- them at most; and the total that is announced before the replay is their number.
pub matching_rows_lem :
    (scenario label : Text) (b : Bool) (offset : ℕ) (limit : Option ℕ) (rows : List Row)
    → scenario_matches label scenario ≡ ok b
    → (matching_rows scenario offset limit rows
        ≡ (at_most limit 0 (keep (is_of scenario) (drop offset rows)), none))
      × (dataset_total scenario offset limit rows
          ≡ ok (length (at_most limit 0 (keep (is_of scenario) (drop offset rows)))))
unfolding matching_rows dataset_total total_of
matching_rows_lem scenario label b offset limit rows known =
    let e = matching_from_offset scenario label b known offset limit 0 offset rows (omega arith) in
    (e, ap total_of e)
