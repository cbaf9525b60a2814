-- ===== src/Agent/Reads.antt =====
-- What one `read` of the log takes (backend/app/ingestion/suricata_agent.py).
use Prim.Native.Nat.{zero}
use mathlib.Core.List.{append_assoc, append-nil}
use intrusion_detect.Common.{
  ℕ, suc, ◌+◌, ◌-◌, ◌<◌, ◌≡◌, refl, sym, ap, ◌∙◌, List, [], ◌∷◌, ◌++◌, Text, length, length-append,
  take, ltb, Bool-cases, inl, inr, arith,
}
use intrusion_detect.Agent.{
  Python, Forwarded, Normalized, skipped, raised, item, of_line, read_to, taken, collect,
}
use intrusion_detect.Agent.Lines.{record_of, records, widths}

-- What is left when a `read` ends: it went through `done`, and gave what of the records of `lines`
-- there was still room for.
pub record Collected (py : Python) (room : ℕ) (acc : List Forwarded) (offset : ℕ)
    (lines : List Text) (found : List Forwarded) (end_ : ℕ) : Type 0 where
  pub done : List Text
  pub rest : List Text
  pub split : lines ≡ done ++ rest
  pub moved : end_ ≡ offset + widths done
  pub gave : found ≡ acc ++ records py done
  pub most : records py done ≡ take room (records py lines)

take-nil : (n : ℕ) → take {A = Forwarded} n [] ≡ []
take-nil zero = refl
take-nil (suc n) = refl

nothing-Collected :
    (py : Python) (room : ℕ) (acc : List Forwarded) (offset : ℕ) (lines : List Text)
    (found : List Forwarded) (end_ : ℕ)
    → take room (records py lines) ≡ []
    → read_to acc offset ≡ read_to found end_
    → Collected py room acc offset lines found end_
unfolding records
nothing-Collected py room acc offset lines found end_ none_left e =
    let same : end_ ≡ offset = cc in
    let unchanged : found ≡ acc = cc in
    record {
      done = [];
      rest = lines;
      split = refl;
      moved = rw same (omega arith);
      gave = unchanged ∙ sym (append-nil acc);
      most = sym none_left;
    }

skip-Collected :
    (py : Python) (room : ℕ) (acc : List Forwarded) (offset : ℕ) (line : Text) (lines : List Text)
    (found : List Forwarded) (end_ : ℕ)
    → record_of (of_line py line) ≡ []
    → Collected py room acc (offset + suc (length line)) lines found end_
    → Collected py room acc offset (line ∷ lines) found end_
unfolding records
skip-Collected py room acc offset line lines found end_ no_record c = record {
  done = line ∷ c.done;
  rest = c.rest;
  split = ap (λ ls. line ∷ ls) c.split;
  moved = omega (arith, c.moved);
  gave = rw no_record c.gave;
  most = rw no_record c.most;
}

item-Collected :
    (py : Python) (room : ℕ) (acc : List Forwarded) (offset : ℕ) (line : Text) (lines : List Text)
    (i : Forwarded) (found : List Forwarded) (end_ : ℕ)
    → record_of (of_line py line) ≡ i ∷ []
    → Collected py room (acc ++ i ∷ []) (offset + suc (length line)) lines found end_
    → Collected py (suc room) acc offset (line ∷ lines) found end_
unfolding records
item-Collected py room acc offset line lines i found end_ one_record c = record {
  done = line ∷ c.done;
  rest = c.rest;
  split = ap (λ ls. line ∷ ls) c.split;
  moved = omega (arith, c.moved);
  gave = rw one_record (c.gave ∙ append_assoc acc (i ∷ []) (records py c.done));
  most = rw one_record (ap (λ is. i ∷ is) c.most);
}

taken-Collected :
    (py : Python) (limit : ℕ) (acc : List Forwarded) (offset : ℕ) (line : Text) (lines : List Text)
    (found : List Forwarded) (end_ : ℕ) (n : Normalized)
    → of_line py line ≡ n
    → length acc < limit
    → ((acc' : List Forwarded)
        → collect py limit acc' (offset + suc (length line)) lines ≡ read_to found end_
        → Collected py (limit - length acc') acc' (offset + suc (length line)) lines found end_)
    → taken n (λ acc'. collect py limit acc' (offset + suc (length line)) lines) acc
      ≡ read_to found end_
    → Collected py (limit - length acc) acc offset (line ∷ lines) found end_
unfolding taken
taken-Collected py limit acc offset line lines found end_ skipped n_e fits rest e =
    skip-Collected py _ acc offset line lines found end_ (ap record_of n_e) (rest acc e)
taken-Collected py limit acc offset line lines found end_ raised n_e fits rest e = absurd cc
taken-Collected py limit acc offset line lines found end_ (item i) n_e fits rest e =
    let room : limit - length acc ≡ suc (limit - length (acc ++ i ∷ [])) =
      omega (arith, fits, length-append acc (i ∷ [])) in
    rw room (
      item-Collected py _ acc offset line lines i found end_ (ap record_of n_e)
        (rest (acc ++ i ∷ []) e))

pub collect-Collected :
    (py : Python) (limit : ℕ) (acc : List Forwarded) (offset : ℕ) (lines : List Text)
    (found : List Forwarded) (end_ : ℕ)
    → collect py limit acc offset lines ≡ read_to found end_
    → Collected py (limit - length acc) acc offset lines found end_
unfolding collect records
collect-Collected py limit acc offset [] found end_ e =
    nothing-Collected py _ acc offset [] found end_ (take-nil (limit - length acc)) e
collect-Collected py limit acc offset (line ∷ lines) found end_ e =
    elim (Bool-cases (ltb (length acc) limit)) [
      | inl fits ↦
          taken-Collected py limit acc offset line lines found end_ (of_line py line) refl
            (ground arith)
            (λ acc' e'.
              collect-Collected py limit acc' (offset + suc (length line)) lines found end_ e')
            (rw fits at e)
      | inr full ↦
          let room : limit - length acc ≡ 0 = ground arith in
          nothing-Collected py _ acc offset (line ∷ lines) found end_ (rw room refl) (rw full at e)
    ]
