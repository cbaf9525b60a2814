-- ===== src/Corpus/Splits.antt =====
-- machine-learning/src/iot_ids_ml/native_corpus.py: `assign_session_splits` of a manifest that passes.
use mathlib.Core.Path.{subst}
use intrusion_detect.Common.{
  ℕ, ◌≤◌, ◌≡◌, refl, sym, ap, ◌∙◌, Bool, true, false, ◌&&◌, List, [], ◌∷◌, Text, text_eq,
  text_eq_iff, any, All-imp, count_if, length, arith, Bool-cases, inl, inr,
}
use intrusion_detect.Corpus.{
  Session, CaptureManifest, passed, in_family, of_family, families_of, text_mem,
  validate_capture_manifest, Split, train, validation, test, Assignments, lookup, train_end,
  validation_end, assign_from, key_of, ordered, assign_family, assign_families,
  assign_session_splits,
}
use intrusion_detect.Corpus.Shares.{share, places-share}
use intrusion_detect.Corpus.Lookups.{
  has_id, DistinctIds, assigned, lookup-assign_from_other, count-assign_from, count-ordered,
  length-ordered, any-ordered, DistinctIds-ordered,
}
use intrusion_detect.Corpus.Families.{
  DistinctIds-keep, count-keep, of_family-Apart, count-assigned, text_mem-distinct, All-text_mem,
}
use intrusion_detect.Corpus.Checks.{validate_capture_manifest-passed}

module _ (digest : Text → Text → Text → Text → Text) (seed : Text) (sessions : List Session)
    (different : DistinctIds sessions) (split : Split) where
  -- The sessions of a family that have the split.
  abbrev count : Text → Assignments → ℕ
  count f entries = count_if (assigned split entries) (of_family f sessions)

  count-assign_family :
      (f : Text) (entries : Assignments)
      → count f (assign_family digest seed sessions f entries)
        ≡ share split (length (of_family f sessions))
  unfolding assign_family
  count-assign_family f entries =
      let key = key_of digest seed f in
      let family = of_family f sessions in
      let values = ordered key family in
      let n = length values in
      sym (
        count-ordered key
          (assigned split (assign_from (train_end n) (validation_end n) 0 values entries)) family)
      ∙ count-assign_from split (train_end n) (validation_end n) 0 values entries
          (DistinctIds-ordered key family (DistinctIds-keep (in_family f) sessions different))
      ∙ places-share split n
      ∙ ap (share split) (length-ordered key family)

  count-assign_family_other :
      (f g : Text) (entries : Assignments)
      → text_eq g f ≡ false
      → count f (assign_family digest seed sessions g entries) ≡ count f entries
  unfolding assign_family
  count-assign_family_other f g entries other =
      let key = key_of digest seed g in
      let values = ordered key (of_family g sessions) in
      let n = length values in
      count-assigned split (assign_from (train_end n) (validation_end n) 0 values entries) entries
        (of_family f sessions)
        (All-imp (λ s. has_id s.session_id (of_family g sessions) ≡ false)
          (λ s.
            lookup s.session_id (assign_from (train_end n) (validation_end n) 0 values entries)
            ≡ lookup s.session_id entries)
          (of_family f sessions)
          (λ s h.
            lookup-assign_from_other s.session_id (train_end n) (validation_end n) 0 values entries
              (any-ordered key (λ t. text_eq t.session_id s.session_id) (of_family g sessions) ∙ h))
          (of_family-Apart f g other sessions different))

  count-assign_families_other :
      (f : Text) (families : List Text) (entries : Assignments)
      → text_mem f families ≡ false
      → count f (assign_families digest seed sessions families entries) ≡ count f entries
  unfolding assign_families
  count-assign_families_other f [] entries h = refl
  count-assign_families_other f (g ∷ families) entries h =
      count-assign_families_other f families (assign_family digest seed sessions g entries)
        (ground (arith, h))
      ∙ count-assign_family_other f g entries (ground (arith, h))

  count-assign_families :
      (f : Text) (families : List Text) (entries : Assignments)
      → text_mem f families ≡ true
      → count f (assign_families digest seed sessions families entries)
        ≡ share split (length (of_family f sessions))
  unfolding assign_families
  count-assign_families f [] entries h = absurd cc
  count-assign_families f (g ∷ families) entries h = elim (Bool-cases (text_mem f families)) [
    | inl e ↦ count-assign_families f families (assign_family digest seed sessions g entries) e
    | inr e ↦
        count-assign_families_other f families (assign_family digest seed sessions g entries) e
        ∙ subst
            (λ g.
              count f (assign_family digest seed sessions g entries)
              ≡ share split (length (of_family f sessions)))
            (sym ((text_eq_iff g f).0 (ground (arith, h, e)))) (count-assign_family f entries)
  ]

  count-assign_session_splits :
      (f : Text)
      → text_mem f (families_of sessions) ≡ true
      → count_if
          (λ s. in_family f s && assigned split (assign_session_splits digest seed sessions) s)
          sessions
        ≡ share split (length (of_family f sessions))
  unfolding assign_session_splits
  count-assign_session_splits f h =
      count-keep (in_family f)
        (assigned split (assign_families digest seed sessions (families_of sessions) [])) sessions
      ∙ count-assign_families f (families_of sessions) [] h

three_of : (split : Split) (n : ℕ) → 15 ≤ n → 3 ≤ share split n
three_of train n h = omega arith
three_of validation n h = omega arith
three_of test n h = omega arith

-- In a corpus whose manifest passes, every family that a session has is in every split: it has at
-- least fifteen sessions, three fifths of them, rounded down, are for training, one fifth, rounded
-- down, for validation and the rest for testing, and each of these counts is at least three.
pub assign_session_splits_lem :
    (is_hex : Text → Bool) (m : CaptureManifest) (sessions : List Session)
    → (digest : Text → Text → Text → Text → Text) (seed family : Text) (split : Split)
    → validate_capture_manifest is_hex m ≡ passed sessions
    → any (in_family family) sessions ≡ true
    → (count_if
          (λ s. in_family family s && assigned split (assign_session_splits digest seed sessions) s)
          sessions
        ≡ share split (length (of_family family sessions)))
      × (15 ≤ length (of_family family sessions))
      × (3 ≤ share split (length (of_family family sessions)))
assign_session_splits_lem is_hex m sessions digest seed family split passes there =
    let (different, rich) = validate_capture_manifest-passed is_hex m sessions passes in
    let known = text_mem-distinct (λ s. s.traffic_family) family sessions ∙ there in
    let enough =
      All-text_mem (λ f. 15 ≤ length (of_family f sessions)) family (families_of sessions) rich.0
        known in
    (
      count-assign_session_splits digest seed sessions different split family known,
      enough,
      three_of split (length (of_family family sessions)) enough,
    )
