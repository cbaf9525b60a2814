-- ===== src/Corpus/Families.antt =====
-- machine-learning/src/iot_ids_ml/native_corpus.py: the sessions of the families of a corpus.
use mathlib.Core.Path.{subst}
use intrusion_detect.Common.{
  ℕ, ◌≡◌, refl, sym, ap, ◌∙◌, Bool, true, false, ◌&&◌, ◌||◌, List, [], ◌∷◌, Text, text_eq,
  text_eq_iff, if◌then◌else◌, keep, any, All, All-both, All-imp, count_if, arith, Bool-cases, inl,
  inr,
}
use intrusion_detect.Corpus.{
  Session, Split, Assignments, in_family, of_family, distinct, text_mem, lookup,
}
use intrusion_detect.Corpus.Lookups.{has_id, DistinctIds, is_in, assigned}

-- A part of the sessions.
module _ (p : Session → Bool) where
  has_id-keep :
      (k : Text) (sessions : List Session)
      → has_id k sessions ≡ false
      → has_id k (keep p sessions) ≡ false
  has_id-keep k [] h = refl
  has_id-keep k (s ∷ sessions) h = ground (arith, has_id-keep k sessions)

  All-has_id :
      (k : Text) (sessions : List Session)
      → has_id k sessions ≡ false
      → All (λ s. text_eq k s.session_id ≡ false) (keep p sessions)
  All-has_id k [] h = tt
  All-has_id k (s ∷ sessions) h = elim (Bool-cases (p s)) [
    | inl e ↦ rw e (
      ground (arith, h, text_eq_iff k s.session_id, text_eq_iff s.session_id k),
      All-has_id k sessions (ground (arith, h)),
    )
    | inr e ↦ rw e (All-has_id k sessions (ground (arith, h)))
  ]

  pub DistinctIds-keep :
      (sessions : List Session) → DistinctIds sessions → DistinctIds (keep p sessions)
  DistinctIds-keep [] d = tt
  DistinctIds-keep (s ∷ sessions) d = elim (Bool-cases (p s)) [
    | inl e ↦ rw e (has_id-keep s.session_id sessions d.0, DistinctIds-keep sessions d.1)
    | inr e ↦ rw e (DistinctIds-keep sessions d.1)
  ]

  pub count-keep :
      (q : Session → Bool) (sessions : List Session)
      → count_if (λ s. p s && q s) sessions ≡ count_if q (keep p sessions)
  count-keep q [] = refl
  count-keep q (s ∷ sessions) = ground (arith, count-keep q sessions)

keep-takes :
    (p : Session → Bool) (s : Session) (xs : List Session)
    → p s ≡ true
    → keep p (s ∷ xs) ≡ s ∷ keep p xs
keep-takes p s xs e = rw e refl

keep-skips :
    (p : Session → Bool) (s : Session) (xs : List Session)
    → p s ≡ false
    → keep p (s ∷ xs) ≡ keep p xs
keep-skips p s xs e = rw e refl

-- No session of the first list has the id of one of the second.
abbrev pub Apart : List Session → List Session → Type 0
Apart xs ys = All (λ s. has_id s.session_id ys ≡ false) xs

-- Sessions of one family have no id of a session of another.
module _ (f g : Text) (other : text_eq g f ≡ false) where
  not_both : (s : Session) → in_family f s ≡ true → in_family g s ≡ false
  not_both s h =
      ground
        (arith, text_eq_iff s.traffic_family f, text_eq_iff s.traffic_family g, text_eq_iff g f, h)

  pub of_family-Apart :
      (sessions : List Session)
      → DistinctIds sessions
      → Apart (of_family f sessions) (of_family g sessions)
  of_family-Apart [] d = tt
  of_family-Apart (s ∷ sessions) d = elim (Bool-cases (in_family f s)) [
    | inl e ↦
        subst (λ xs. Apart xs (of_family g (s ∷ sessions)))
          (sym (keep-takes (in_family f) s sessions e))
          (subst (Apart (s ∷ of_family f sessions))
            (sym (keep-skips (in_family g) s sessions (not_both s e)))
            (has_id-keep (in_family g) s.session_id sessions d.0, of_family-Apart sessions d.1))
    | inr e ↦
        subst (λ xs. Apart xs (of_family g (s ∷ sessions)))
          (sym (keep-skips (in_family f) s sessions e))
          (elim (Bool-cases (in_family g s)) [
            | inl k ↦
                subst (Apart (of_family f sessions)) (sym (keep-takes (in_family g) s sessions k)) (
                  All-imp
                    (λ t.
                      (text_eq s.session_id t.session_id ≡ false)
                      × (has_id t.session_id (of_family g sessions) ≡ false))
                    (λ t. has_id t.session_id (s ∷ of_family g sessions) ≡ false)
                    (of_family f sessions) (λ t h. ground (arith, h.0, h.1))
                    (All-both (λ t. text_eq s.session_id t.session_id ≡ false)
                      (λ t. has_id t.session_id (of_family g sessions) ≡ false)
                      (of_family f sessions) (All-has_id (in_family f) s.session_id sessions d.0)
                      (of_family-Apart sessions d.1)))
            | inr k ↦
                subst (Apart (of_family f sessions)) (sym (keep-skips (in_family g) s sessions k))
                  (of_family-Apart sessions d.1)
          ])
  ]

-- Sessions that the same split is found for.
pub count-assigned :
    (split : Split) (a b : Assignments) (sessions : List Session)
    → All (λ s. lookup s.session_id a ≡ lookup s.session_id b) sessions
    → count_if (assigned split a) sessions ≡ count_if (assigned split b) sessions
count-assigned split a b [] h = refl
count-assigned split a b (s ∷ sessions) h = omega (
  arith,
  ap {B = ℕ} (λ o. if is_in split o then 1 else 0) h.0,
  count-assigned split a b sessions h.1,
)

pub text_mem-distinct :
    (column : Session → Text) (k : Text) (sessions : List Session)
    → text_mem k (distinct column sessions) ≡ any (λ s. text_eq (column s) k) sessions
unfolding distinct
text_mem-distinct column k [] = refl
text_mem-distinct column k (s ∷ sessions) =
    elim (Bool-cases (any (λ t. text_eq (column t) (column s)) sessions)) [
      | inl e ↦ rw e (
          text_mem-distinct column k sessions
          ∙ absorbed (text_eq (column s) k) (any (λ t. text_eq (column t) k) sessions) (λ h.
            subst (λ u. any (λ t. text_eq (column t) u) sessions ≡ true)
              ((text_eq_iff (column s) k).0 h) e))
      | inr e ↦ rw e (ap (λ b. text_eq (column s) k || b) (text_mem-distinct column k sessions))
    ]
  where
    absorbed : (a b : Bool) → (a ≡ true → b ≡ true) → b ≡ (a || b)
    absorbed true b h = h refl
    absorbed false b h = refl

pub All-text_mem :
    (P : Text → Type 0) (k : Text) (xs : List Text) → All P xs → text_mem k xs ≡ true → P k
All-text_mem P k [] h e = absurd cc
All-text_mem P k (x ∷ xs) h e = elim (Bool-cases (text_eq x k)) [
  | inl same ↦ subst P ((text_eq_iff x k).0 same) h.0
  | inr differ ↦ All-text_mem P k xs h.1 (ground (arith, e, differ))
]
