-- ===== src/MtuWatch/Bulk.antt =====
-- The rows that the event INSERT of a push returns (internal/server/mtuwatch/mtuwatch.go): no event is
-- reported under another's id.
use polarbeam.Base.{
  ℕ, ◌≡◌, refl, Bool-cases, inl, inr, List, [], ◌∷◌, Outcome, done, fail, arith, ◌==◌,
}
use polarbeam.MtuWatch.{PendingEvent, Change, InsertError, change_of, add_change, match_returned}

-- Each queued event with the row of its position.
unfoldable pub paired : List PendingEvent → List (ℕ × ℕ) → List Change
paired [] rows = []
paired (p ∷ ps) [] = []
paired (p ∷ ps) ((id, probe) ∷ rows) = change_of id p ∷ paired ps rows

-- The rows name the probes of the queue, one by one.
abbrev pub Agree : List PendingEvent → List (ℕ × ℕ) → Type 0
Agree [] [] = Unit
Agree [] (row ∷ rows) = ⊥
Agree (p ∷ ps) [] = ⊥
Agree (p ∷ ps) ((id, probe) ∷ rows) = (probe ≡ p.run.probe_id) × Agree ps rows

-- The changes of the rest, from those of the whole.
rest_done :
    (c : Change) (o : Outcome InsertError (List Change)) (cs : List Change)
    → add_change c o ≡ done cs
    → (ds : List Change) × (o ≡ done ds)
rest_done c (done ds) cs e = (ds, refl)
rest_done c (fail x) cs e = cc

from_row :
    (p : PendingEvent) (ps : List PendingEvent) (id probe : ℕ) (rows : List (ℕ × ℕ))
    → ((cs : List Change) → match_returned ps rows ≡ done cs → Agree ps rows)
    → (cs : List Change) → match_returned (p ∷ ps) ((id, probe) ∷ rows) ≡ done cs
    → (probe ≡ p.run.probe_id) × Agree ps rows
unfolding match_returned
from_row p ps id probe rows from cs e = elim (Bool-cases (probe == p.run.probe_id)) [
  | inl q ↦
      let r = rest_done (change_of id p) (match_returned ps rows) cs (rw q at e) in
      (ground arith, from r.0 r.1)
  | inr q ↦ ground arith
]

-- Where the returned rows name the probes of the queue one by one, the changes are the queued events
-- under the ids of their rows; where they do not, in number or in order, there are none.
pub match_returned_lem :
    (ps : List PendingEvent) (rows : List (ℕ × ℕ))
    → (Agree ps rows → match_returned ps rows ≡ done (paired ps rows))
      × ((cs : List Change) → match_returned ps rows ≡ done cs → Agree ps rows)
unfolding match_returned paired
match_returned_lem [] [] = ((λ a. refl), (λ cs e. tt))
match_returned_lem [] (row ∷ rows) = ((λ a. absurd a), (λ cs e. cc))
match_returned_lem (p ∷ ps) [] = ((λ a. absurd a), (λ cs e. cc))
match_returned_lem (p ∷ ps) ((id, probe) ∷ rows) =
    let (to, from) = match_returned_lem ps rows in
    ((λ a. ground (arith, to a.1)), (λ cs e. from_row p ps id probe rows from cs e))
