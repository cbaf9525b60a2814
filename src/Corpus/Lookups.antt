-- ===== src/Corpus/Lookups.antt =====
-- machine-learning/src/iot_ids_ml/native_corpus.py: what the assignments of a family hold.
use intrusion_detect.Common.{
  ℕ, suc, ◌+◌, ◌≡◌, refl, ap, ◌∙◌, Bool, false, ◌||◌, Option, none, some, List, [], ◌∷◌, Text,
  text_eq, text_eq_iff, if◌then◌else◌, any, count_if, length, arith, Bool-cases, inl, inr,
}
use intrusion_detect.Corpus.{
  Session, Split, split_eq, Assignments, put_split, lookup, split_at, assign_from, insert_session,
  ordered, text_leb,
}
use intrusion_detect.Corpus.Shares.{places}

pub lookup-put_split :
    (k key : Text) (split : Split) (entries : Assignments)
    → lookup k (put_split key split entries)
      ≡ (if text_eq key k then some split else lookup k entries)
unfolding lookup put_split
lookup-put_split k key split [] = refl
lookup-put_split k key split ((j, old) ∷ entries) = ground (
  arith,
  text_eq_iff j key,
  text_eq_iff j k,
  text_eq_iff key k,
  lookup-put_split k key split entries,
)

abbrev pub has_id : Text → List Session → Bool
has_id k sessions = any (λ s. text_eq s.session_id k) sessions

-- The ids of the sessions are pairwise different.
abbrev pub DistinctIds : List Session → Type 0
DistinctIds [] = Unit
DistinctIds (s ∷ sessions) = (has_id s.session_id sessions ≡ false) × DistinctIds sessions

pub lookup-assign_from_other :
    (k : Text) (te ve index : ℕ) (sessions : List Session) (entries : Assignments)
    → has_id k sessions ≡ false
    → lookup k (assign_from te ve index sessions entries) ≡ lookup k entries
unfolding assign_from
lookup-assign_from_other k te ve index [] entries h = refl
lookup-assign_from_other k te ve index (s ∷ sessions) entries h =
    let put_e = lookup-put_split k s.session_id (split_at te ve index) entries in
    let ih =
      lookup-assign_from_other k te ve (suc index) sessions
        (put_split s.session_id (split_at te ve index) entries) in
    ground (arith, put_e, ih)

-- A split as it is found.
abbrev pub is_in : Split → Option Split → Bool
is_in split none = false
is_in split (some found) = split_eq found split

abbrev pub assigned : Split → Assignments → Session → Bool
assigned split entries s = is_in split (lookup s.session_id entries)

pub count-assign_from :
    (split : Split) (te ve index : ℕ) (sessions : List Session) (entries : Assignments)
    → DistinctIds sessions
    → count_if (assigned split (assign_from te ve index sessions entries)) sessions
      ≡ places te ve split index (length sessions)
unfolding assign_from
count-assign_from split te ve index [] entries d = refl
count-assign_from split te ve index (s ∷ sessions) entries d =
    let entries' = put_split s.session_id (split_at te ve index) entries in
    let first : lookup s.session_id (assign_from te ve (suc index) sessions entries')
        ≡ some (split_at te ve index) =
      lookup-assign_from_other s.session_id te ve (suc index) sessions entries' d.0
      ∙ lookup-put_split s.session_id s.session_id (split_at te ve index) entries
      ∙ ap (λ b. if b then some (split_at te ve index) else lookup s.session_id entries)
          ((text_eq_iff s.session_id s.session_id).1 refl) in
    ap
      (λ o.
        (if is_in split o then 1 else 0)
        + count_if (assigned split (assign_from te ve (suc index) sessions entries')) sessions)
      first
    ∙ ap (λ n. (if split_eq (split_at te ve index) split then 1 else 0) + n)
        (count-assign_from split te ve (suc index) sessions entries' d.1)

-- A sort moves sessions only.
module _ (key : Session → Text) where
  count-insert_session :
      (p : Session → Bool) (s : Session) (xs : List Session)
      → count_if p (insert_session key s xs) ≡ (if p s then 1 else 0) + count_if p xs
  unfolding insert_session
  count-insert_session p s [] = refl
  count-insert_session p s (t ∷ xs) = ground (arith, count-insert_session p s xs)

  pub count-ordered :
      (p : Session → Bool) (xs : List Session) → count_if p (ordered key xs) ≡ count_if p xs
  unfolding ordered
  count-ordered p [] = refl
  count-ordered p (s ∷ xs) =
      omega (arith, count-insert_session p s (ordered key xs), count-ordered p xs)

  length-insert_session :
      (s : Session) (xs : List Session) → length (insert_session key s xs) ≡ suc (length xs)
  unfolding insert_session
  length-insert_session s [] = refl
  length-insert_session s (t ∷ xs) = ground (arith, length-insert_session s xs)

  pub length-ordered : (xs : List Session) → length (ordered key xs) ≡ length xs
  unfolding ordered
  length-ordered [] = refl
  length-ordered (s ∷ xs) =
      omega (arith, length-insert_session s (ordered key xs), length-ordered xs)

  any-insert_session :
      (p : Session → Bool) (s : Session) (xs : List Session)
      → any p (insert_session key s xs) ≡ (p s || any p xs)
  unfolding insert_session
  any-insert_session p s [] = refl
  any-insert_session p s (t ∷ xs) = ground (arith, any-insert_session p s xs)

  pub any-ordered : (p : Session → Bool) (xs : List Session) → any p (ordered key xs) ≡ any p xs
  unfolding ordered
  any-ordered p [] = refl
  any-ordered p (s ∷ xs) =
      any-insert_session p s (ordered key xs) ∙ ap (λ b. p s || b) (any-ordered p xs)

  DistinctIds-insert_session :
      (s : Session) (xs : List Session)
      → has_id s.session_id xs ≡ false
      → DistinctIds xs
      → DistinctIds (insert_session key s xs)
  unfolding insert_session
  DistinctIds-insert_session s [] h d = (refl, tt)
  DistinctIds-insert_session s (t ∷ xs) h d = elim (Bool-cases (text_leb (key s) (key t))) [
    | inl e ↦ rw e (h, d)
    | inr e ↦ rw e (
      any-insert_session (λ u. text_eq u.session_id t.session_id) s xs
          ∙ ground (
            arith,
            text_eq_iff t.session_id s.session_id,
            text_eq_iff s.session_id t.session_id,
            h,
            d.0,
          ),
      DistinctIds-insert_session s xs (ground (arith, h)) d.1,
    )
  ]

  pub DistinctIds-ordered : (xs : List Session) → DistinctIds xs → DistinctIds (ordered key xs)
  unfolding ordered
  DistinctIds-ordered [] d = tt
  DistinctIds-ordered (s ∷ xs) d =
      DistinctIds-insert_session s (ordered key xs)
        (any-ordered (λ u. text_eq u.session_id s.session_id) xs ∙ d.0) (DistinctIds-ordered xs d.1)
