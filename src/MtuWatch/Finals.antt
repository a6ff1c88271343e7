-- ===== src/MtuWatch/Finals.antt =====
-- The final runs of the series (internal/server/mtuwatch/mtuwatch.go), and when the guard of the upsert,
-- which sees times as the column keeps them, lets them through.
use polarbeam.Base.{
  ℕ, ◌≤◌, ◌<◌, ◌≡◌, ◌≢◌, inl, inr, refl, sym, subst, true, false, ◌&&◌, Bool-cases, Option, none,
  some, List, [], ◌∷◌, All, All-append, All-map, arith, ltb, ◌==◌,
}
use polarbeam.MtuWatch.{
  Run, Current, Action, skip, insert, refresh, change, decide, act, PendingEvent, applicable, Fold,
  fold_run, fold_runs, start,
}
use polarbeam.MtuWatch.Chain.{fold_runs-Chain}
use polarbeam.MtuWatch.Upsert.{Row, is_series, find_current, is_older}
use polarbeam.MtuWatch.Apply.{
  is_missing, runs_of, current_in, lock_current, Progress, add_final, fold_series,
}
use polarbeam.MtuWatch.Locks.{Locked, kept, seeded}

-- A run that Apply groups.
abbrev pub IsGrouped : Run → Type 0
IsGrouped r = (r.usable ≡ true) × (0 < r.time)

-- The column does not change the order of two times, though it may make them equal.
abbrev pub IsMonotone : (ℕ → ℕ) → Type 0
IsMonotone timestamptz = (x y : ℕ) → x ≤ y → timestamptz x ≤ timestamptz y

-- The time of a row is one that the column keeps as it is.
abbrev pub IsStored : (ℕ → ℕ) → Row → Type 0
IsStored timestamptz row = timestamptz row.updated_at ≡ row.updated_at

abbrev pub IsStoredIn : (ℕ → ℕ) → Option Row → Type 0
IsStoredIn timestamptz none = Unit
IsStoredIn timestamptz (some row) = IsStored timestamptz row

-- What ingest promises of a run beside the row of its series: as the column keeps times, it is no
-- second run of the row's time. Where there is no row, it is not at the zero time of the placeholder,
-- unless it is at the zero time itself.
abbrev pub IsNew : (ℕ → ℕ) → Option Row → Run → Type 0
IsNew timestamptz none r = timestamptz r.time ≡ 0 → r.time ≡ 0
IsNew timestamptz (some row) r = timestamptz r.time ≢ row.updated_at

-- The same, of each run and the row of its own series.
abbrev pub IsNewIn : (ℕ → ℕ) → ℕ → List Row → Run → Type 0
IsNewIn timestamptz a rows r = IsNew timestamptz (find_current a r.probe_id rows) r

pub applicable-All :
    (P : Run → Type 0) (rs : List Run) → All P rs → All (λ r. IsGrouped r × P r) (applicable rs)
unfolding applicable
applicable-All P [] h = tt
applicable-All P (r ∷ rs) h = elim (Bool-cases (r.usable && ltb 0 r.time)) [
  | inl q ↦ rw q (((ground arith, ground arith), h.0), applicable-All P rs h.1)
  | inr q ↦ rw q (applicable-All P rs h.1)
]

runs_of-All :
    (P : Run → Type 0) (p : ℕ) (rs : List Run)
    → All P rs
    → All (λ r. (r.probe_id ≡ p) × P r) (runs_of p rs)
unfolding runs_of
runs_of-All P p [] h = tt
runs_of-All P p (r ∷ rs) h = elim (Bool-cases (r.probe_id == p)) [
  | inl q ↦ rw q ((ground arith, h.0), runs_of-All P p rs h.1)
  | inr q ↦ rw q (runs_of-All P p rs h.1)
]

-- A run of the series that passes the filter.
abbrev IsOf : (ℕ → ℕ) → ℕ → Option Row → Run → Type 0
IsOf timestamptz p before r = (r.probe_id ≡ p) × IsGrouped r × IsNew timestamptz before r

runs_of-IsOf :
    (timestamptz : ℕ → ℕ) (a p : ℕ) (before : List Row) (rs : List Run)
    → All (λ r. IsGrouped r × IsNewIn timestamptz a before r) rs
    → All (IsOf timestamptz p (find_current a p before)) (runs_of p rs)
runs_of-IsOf timestamptz a p before rs h =
    All-map
      (λ r g.
        (g.0, g.1.0, subst (λ (n : ℕ). IsNew timestamptz (find_current a n before) r) g.0 g.1.1))
      (runs_of p rs) (runs_of-All _ p rs h)

-- What holds of the final run, if there is one.
abbrev HoldsOf : (Run → Type 0) → Option Run → Type 0
HoldsOf P none = Unit
HoldsOf P (some q) = P q

act-HoldsOf :
    (P : Run → Type 0) (a : Action) (f : Fold) (r : Run)
    → P r
    → HoldsOf P f.final
    → HoldsOf P (act a f r).final
act-HoldsOf P skip f r p h = h
act-HoldsOf P insert f r p h = p
act-HoldsOf P refresh f r p h = p
act-HoldsOf P change f r p h = p

fold_runs-HoldsOf :
    (P : Run → Type 0) (f : Fold) (rs : List Run)
    → All P rs
    → HoldsOf P f.final
    → HoldsOf P (fold_runs f rs).final
unfolding fold_runs fold_run
fold_runs-HoldsOf P f [] a h = h
fold_runs-HoldsOf P f (r ∷ rs) a h =
    fold_runs-HoldsOf P (fold_run f r) rs a.1 (act-HoldsOf P (decide f.cur r) f r a.0 h)

HoldsOf-map :
    (P Q : Run → Type 0) (o : Option Run)
    → ((q : Run) → o ≡ some q → P q → Q q)
    → HoldsOf P o
    → HoldsOf Q o
HoldsOf-map P Q none k h = tt
HoldsOf-map P Q (some q) k h = k q refl h

-- Where the runs of a series are new beside its row, the upsert writes the final one.
final-is_older :
    (timestamptz : ℕ → ℕ)
    → IsMonotone timestamptz
    → (p : ℕ) (before locked : Option Row) (rs : List Run) → Locked before locked
    → IsStoredIn timestamptz before
    → All (IsOf timestamptz p before) rs
    → HoldsOf
        (λ q. (q.probe_id ≡ p) × (is_older timestamptz locked q ≡ true))
        (fold_runs (start (is_missing before) (current_in locked)) rs).final
final-is_older timestamptz m p before locked rs (kept none) s h =
    fold_runs-HoldsOf _ (start true none) rs (All-map (λ r g. (g.0, refl)) rs h) tt
final-is_older timestamptz m p before locked rs (kept (some row)) s h =
    let c : Current = record {
      updated_at = row.updated_at;
      largest_ok = row.largest_ok;
      black_hole = row.black_hole;
    } in
    let k = fold_runs-Chain c rs in
    HoldsOf-map (IsOf timestamptz p (some row)) _ (fold_runs (start false (some c)) rs).final
      (λ q e g.
        let l : row.updated_at < q.time = (k.2.later q e).1 in
        let kept_order = m row.updated_at q.time (omega arith) in
        let different = g.1.1 in (g.0, ground (arith, kept_order, s, different)))
      (fold_runs-HoldsOf _ (start false (some c)) rs h tt)
final-is_older timestamptz m p before locked rs (seeded row e) s h =
    fold_runs-HoldsOf _ (start true (current_in (some row))) rs
      (All-map (λ r g. let (o, (u, t), new) = g in (o, ground (arith, e, t, new))) rs h) tt

-- Every run of the list is written by the upsert.
abbrev pub IsWritten : (ℕ → ℕ) → ℕ → List Row → Run → Type 0
IsWritten timestamptz a rows q = is_older timestamptz (find_current a q.probe_id rows) q ≡ true

add_final-All :
    (P : Run → Type 0) (o : Option Run) (qs : List Run)
    → HoldsOf P o
    → All P qs
    → All P (add_final o qs)
add_final-All P none qs h a = a
add_final-All P (some q) qs h a = All-append P qs (q ∷ []) a (h, tt)

HoldsOf-IsWritten :
    (timestamptz : ℕ → ℕ) (a p : ℕ) (rows : List Row) (o : Option Run)
    → HoldsOf (λ q. (q.probe_id ≡ p) × (is_older timestamptz (find_current a p rows) q ≡ true)) o
    → HoldsOf (IsWritten timestamptz a rows) o
HoldsOf-IsWritten timestamptz a p rows none h = tt
HoldsOf-IsWritten timestamptz a p rows (some q) (e, w) =
    subst (λ (n : ℕ). is_older timestamptz (find_current a n rows) q ≡ true) (sym e) w

find_current-IsStored :
    (timestamptz : ℕ → ℕ) (a p : ℕ) (rows : List Row)
    → All (IsStored timestamptz) rows
    → IsStoredIn timestamptz (find_current a p rows)
unfolding find_current
find_current-IsStored timestamptz a p [] h = tt
find_current-IsStored timestamptz a p (row ∷ rows) h = elim (Bool-cases (is_series a p row)) [
  | inl q ↦ rw q h.0
  | inr q ↦ rw q (find_current-IsStored timestamptz a p rows h.1)
]

-- Sorting gives the runs that it was given.
abbrev pub Keeps : (List Run → List Run) → Type 1
Keeps sort = (P : Run → Type 0) (rs : List Run) → All P rs → All P (sort rs)

module _ (timestamptz : ℕ → ℕ) (sort : List Run → List Run)
    (returning : List PendingEvent → List (ℕ × ℕ)) where
  pub fold_series-IsWritten :
      IsMonotone timestamptz
      → Keeps sort
      → (a : ℕ) (runs : List Run) (before locked : List Row) (ps : List ℕ) (acc : Progress)
      → All (IsStored timestamptz) before
      → All (λ r. IsGrouped r × IsNewIn timestamptz a before r) runs
      → ((p : ℕ) → Locked (find_current a p before) (find_current a p locked))
      → All (IsWritten timestamptz a locked) acc.finals
      → All
          (IsWritten timestamptz a locked)
          (fold_series timestamptz sort returning a runs before locked ps acc).finals
  unfolding fold_series lock_current
  fold_series-IsWritten m s a runs before locked [] acc st g k h = h
  fold_series-IsWritten m s a runs before locked (p ∷ ps) acc st g k h =
      fold_series-IsWritten m s a runs before locked ps _ st g k (
        add_final-All (IsWritten timestamptz a locked) _ acc.finals
          (HoldsOf-IsWritten timestamptz a p locked _ (
            final-is_older timestamptz m p (find_current a p before) (find_current a p locked)
              (sort (runs_of p runs)) (k p) (find_current-IsStored timestamptz a p before st)
              (s (IsOf timestamptz p (find_current a p before)) (runs_of p runs)
                (runs_of-IsOf timestamptz a p before runs g))))
          h)
