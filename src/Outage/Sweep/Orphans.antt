-- ===== src/Outage/Sweep/Orphans.antt =====
-- The repairs of the sweep (internal/server/outage/sweep.go).
use polarbeam.Base.{
  ℕ, ◌≡◌, refl, Bool, true, false, ◌||◌, ◌&&◌, Bool-cases, inl, inr, List, [], ◌∷◌, All, All-map,
  arith, if◌then◌else◌,
}
use polarbeam.Outage.Table.{Event, Env, Row, close_row, update_closed, is_row}
use polarbeam.Outage.Sweep.{
  elem, is_orphan, find_orphans, close_all, is_dangling, find_damaged, reset_row, reset_series,
  reset_all, close_orphan_events,
}

-- The orphans among the events have their ids in the list.
abbrev Listed : List ℕ → List ℕ → Event → Type 0
Listed ids is e = is_orphan ids e ≡ true → elem e.id is ≡ true

Listed-cons : (ids is : List ℕ) (i : ℕ) (e : Event) → Listed ids is e → Listed ids (i ∷ is) e
unfolding elem
Listed-cons ids is i e h q = ground (arith, h q)

Listed-split :
    (ids is : List ℕ) (e : Event) (es : List Event) (b : Bool)
    → is_orphan ids e ≡ b
    → All (Listed ids is) es
    → All (Listed ids (if b then e.id ∷ is else is)) (e ∷ es)
unfolding elem
Listed-split ids is e es true t h = ((λ q. ground arith), All-map (Listed-cons ids is e.id) es h)
Listed-split ids is e es false t h = ((λ q. absurd (cc (t, q))), h)

find_orphans-Listed : (ids : List ℕ) (es : List Event) → All (Listed ids (find_orphans ids es)) es
unfolding find_orphans
find_orphans-Listed ids [] = tt
find_orphans-Listed ids (e ∷ es) =
    Listed-split ids (find_orphans ids es) e es (is_orphan ids e) refl (find_orphans-Listed ids es)

close_row-Listed :
    (ids is : List ℕ) (i at : ℕ) (e : Event)
    → Listed ids (i ∷ is) e
    → Listed ids is (close_row i at e)
unfolding elem
close_row-Listed ids is i at e h q = ground (arith, h)

update_closed-Listed :
    (env : Env) (now i : ℕ) (ids is : List ℕ) (es : List Event)
    → All (Listed ids (i ∷ is)) es
    → All (Listed ids is) (update_closed env i now es)
unfolding update_closed
update_closed-Listed env now i ids is [] h = tt
update_closed-Listed env now i ids is (e ∷ es) h = (
  close_row-Listed ids is i (env.timestamptz now) e h.0,
  update_closed-Listed env now i ids is es h.1,
)

close_all-Listed :
    (env : Env) (now : ℕ) (ids is : List ℕ) (es : List Event)
    → All (Listed ids is) es
    → All (λ e. is_orphan ids e ≡ false) (close_all env now is es)
unfolding close_all elem
close_all-Listed env now ids [] es h = All-map (λ e q. ground (arith, q)) es h
close_all-Listed env now ids (i ∷ is) es h =
    close_all-Listed env now ids is (update_closed env i now es)
      (update_closed-Listed env now i ids is es h)

-- A key of the list is that of the row.
unfoldable has_key : List (ℕ × ℕ) → Row → Bool
has_key [] row = false
has_key ((a, p) ∷ ks) row = is_row a p row || has_key ks row

abbrev Keyed : List Event → List (ℕ × ℕ) → Row → Type 0
Keyed es ks row = is_dangling es row ≡ true → has_key ks row ≡ true

Keyed-cons :
    (es : List Event) (ks : List (ℕ × ℕ)) (k : ℕ × ℕ) (row : Row)
    → Keyed es ks row
    → Keyed es (k ∷ ks) row
unfolding has_key
Keyed-cons es ks (a, p) row h q = ground (arith, h q)

reset_row-Keyed :
    (es : List Event) (ks : List (ℕ × ℕ)) (k : ℕ × ℕ) (row : Row)
    → Keyed es (k ∷ ks) row
    → Keyed es ks (reset_row es k row)
unfolding has_key
reset_row-Keyed es ks (a, p) row h = elim (Bool-cases (is_row a p row && is_dangling es row)) [
  | inl t ↦ rw t (λ q. cc q)
  | inr t ↦ rw t (λ q. ground (arith, h q, t))
]

reset_series-Keyed :
    (es : List Event) (ks : List (ℕ × ℕ)) (k : ℕ × ℕ) (rows : List Row)
    → All (Keyed es (k ∷ ks)) rows
    → All (Keyed es ks) (reset_series es k rows)
unfolding reset_series
reset_series-Keyed es ks k [] h = tt
reset_series-Keyed es ks k (row ∷ rows) h =
    (reset_row-Keyed es ks k row h.0, reset_series-Keyed es ks k rows h.1)

reset_all-Keyed :
    (es : List Event) (ks : List (ℕ × ℕ)) (rows : List Row)
    → All (Keyed es ks) rows
    → All (λ row. is_dangling es row ≡ false) (reset_all es ks rows)
unfolding reset_all has_key
reset_all-Keyed es [] rows h = All-map (λ row q. ground (arith, q)) rows h
reset_all-Keyed es (k ∷ ks) rows h =
    reset_all-Keyed es ks (reset_series es k rows) (reset_series-Keyed es ks k rows h)

Keyed-split :
    (es : List Event) (ks : List (ℕ × ℕ)) (row : Row) (rows : List Row) (b : Bool)
    → is_dangling es row ≡ b
    → All (Keyed es ks) rows
    → All (Keyed es (if b then (row.agent_id, row.probe_id) ∷ ks else ks)) (row ∷ rows)
unfolding has_key
Keyed-split es ks row rows true t h =
    ((λ q. ground arith), All-map (Keyed-cons es ks (row.agent_id, row.probe_id)) rows h)
Keyed-split es ks row rows false t h = ((λ q. absurd (cc (t, q))), h)

find_damaged-Keyed :
    (es : List Event) (rows : List Row) → All (Keyed es (find_damaged es rows)) rows
unfolding find_damaged
find_damaged-Keyed es [] = tt
find_damaged-Keyed es (row ∷ rows) =
    Keyed-split es (find_damaged es rows) row rows (is_dangling es row) refl
      (find_damaged-Keyed es rows)

-- Whatever the tables hold, after the repairs no event of a probe that is not assigned is open, and no
-- series points to a closed event.
pub close_orphan_events-repairs :
    (env : Env) (now : ℕ) (ids : List ℕ) (es : List Event) (rows : List Row)
    → let (es', rows') = close_orphan_events env now ids es rows in
      All (λ e. is_orphan ids e ≡ false) es' × All (λ row. is_dangling es' row ≡ false) rows'
unfolding close_orphan_events
close_orphan_events-repairs env now ids es rows =
    let es' = close_all env now (find_orphans ids es) es in
    (
      close_all-Listed env now ids (find_orphans ids es) es (find_orphans-Listed ids es),
      reset_all-Keyed es' (find_damaged es' rows) rows (find_damaged-Keyed es' rows),
    )
