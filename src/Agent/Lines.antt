-- ===== src/Agent/Lines.antt =====
-- The lines of the sensor's log (backend/app/ingestion/suricata_agent.py), and what one `read` takes.
use Prim.Native.Nat.{zero}
use mathlib.Core.List.{append_assoc, append-nil}
use intrusion_detect.Common.{
  ℕ, suc, ◌+◌, ◌≤◌, ◌≡◌, refl, sym, ap, ◌∙◌, List, [], ◌∷◌, ◌++◌, Text, length, length-append, ◌==◌,
  ==_iff, Bool-cases, inl, inr, arith,
}
use intrusion_detect.Agent.{
  Python, Forwarded, Normalized, skipped, raised, item, of_line, lines_from, drop,
}

abbrev pub record_of : Normalized → List Forwarded
record_of skipped = []
record_of raised = []
record_of (item i) = i ∷ []

-- The records of some lines, in order.
unfoldable pub records : Python → List Text → List Forwarded
records py [] = []
records py (line ∷ lines) = record_of (of_line py line) ++ records py lines

-- How many bytes some lines have, their newlines included.
abbrev pub widths : List Text → ℕ
widths [] = 0
widths (line ∷ lines) = suc (length line) + widths lines

pub records-append :
    (py : Python) (xs ys : List Text) → records py (xs ++ ys) ≡ records py xs ++ records py ys
unfolding records
records-append py [] ys = refl
records-append py (line ∷ xs) ys =
    ap (λ zs. record_of (of_line py line) ++ zs) (records-append py xs ys)
    ∙ sym (append_assoc (record_of (of_line py line)) (records py xs) (records py ys))

-- What a line's start and the bytes behind it are, when they have a first line.
record FirstLine (line : Text) (bytes : List ℕ) (first : Text) (others : List Text) : Type 0 where
  start : Text
  behind : List ℕ
  split : bytes ≡ start ++ 10 ∷ behind
  whole : first ≡ line ++ start
  next : lines_from [] behind ≡ others

lines_from-FirstLine :
    (line : Text) (bytes : List ℕ) (first : Text) (others : List Text)
    → lines_from line bytes ≡ first ∷ others
    → FirstLine line bytes first others
unfolding lines_from
lines_from-FirstLine line [] first others e = absurd cc
lines_from-FirstLine line (c ∷ bytes) first others e = elim (Bool-cases (c == 10)) [
  | inl newline ↦
      let e' = rw newline at e in
      let head_e : first ≡ line = cc in
      record {
        start = [];
        behind = bytes;
        split = ap (λ (n : ℕ). n ∷ bytes) ((==_iff c 10).0 newline);
        whole = head_e ∙ sym (append-nil line);
        next = cc;
      }
  | inr other ↦
      let f = lines_from-FirstLine (line ++ c ∷ []) bytes first others (rw other at e) in
      record {
        start = c ∷ f.start;
        behind = f.behind;
        split = ap (λ bs. c ∷ bs) f.split;
        whole = f.whole ∙ append_assoc line (c ∷ []) f.start;
        next = f.next;
      }
]

drop-append : (xs : Text) (c : ℕ) (ys : List ℕ) → drop (suc (length xs)) (xs ++ c ∷ ys) ≡ ys
drop-append [] c ys = refl
drop-append (x ∷ xs) c ys = drop-append xs c ys

drop-nil : (n : ℕ) → drop n [] ≡ []
drop-nil zero = refl
drop-nil (suc n) = refl

drop-drop : (m n : ℕ) (bytes : List ℕ) → drop (m + n) bytes ≡ drop n (drop m bytes)
drop-drop zero n bytes = let e : 0 + n ≡ n = omega arith in rw e refl
drop-drop (suc m) n [] = drop-nil (suc m + n) ∙ sym (drop-nil n)
drop-drop (suc m) n (b ∷ bytes) =
    let e : suc m + n ≡ suc (m + n) = omega arith in rw e (drop-drop m n bytes)

-- A seek behind lines that have been read leaves the others.
pub lines_from-drop :
    (done rest : List Text) (bytes : List ℕ)
    → lines_from [] bytes ≡ done ++ rest
    → (lines_from [] (drop (widths done) bytes) ≡ rest) × (widths done ≤ length bytes)
lines_from-drop [] rest bytes e = (e, omega arith)
lines_from-drop (line ∷ done) rest bytes e =
    let f = lines_from-FirstLine [] bytes line (done ++ rest) e in
    let (others, fits) = lines_from-drop done rest f.behind f.next in
    let behind : drop (suc (length line)) bytes ≡ f.behind =
      rw (f.split, f.whole) (drop-append f.start 10 f.behind) in
    let size : length bytes ≡ length line + suc (length f.behind) =
      rw (f.split, f.whole) (length-append f.start (10 ∷ f.behind)) in
    (
      rw (drop-drop (suc (length line)) (widths done) bytes, behind) others,
      omega (arith, fits, size),
    )

-- What is appended to the log keeps the lines that it has.
pub lines_from-append :
    (line : Text) (xs ys : List ℕ)
    → (more : List Text) × (lines_from line (xs ++ ys) ≡ lines_from line xs ++ more)
unfolding lines_from
lines_from-append line [] ys = (lines_from line ys, refl)
lines_from-append line (c ∷ xs) ys = elim (Bool-cases (c == 10)) [
  | inl newline ↦
      let (more, e) = lines_from-append [] xs ys in (more, rw newline (ap (λ ls. line ∷ ls) e))
  | inr other ↦ let (more, e) = lines_from-append (line ++ c ∷ []) xs ys in (more, rw other e)
]
