-- ===== src/PathWatch/Tests.antt =====
-- Tests of the path changes (internal/server/pathwatch/pathwatch.go), and the theorem at a concrete
-- input.
use polarbeam.Base.{ℕ, suc, zero, ◌≡◌, refl, true, false, some, List, [], ◌∷◌, fail}
use polarbeam.PathWatch.{
  Run, Current, PendingEvent, applicable, fold_runs, start, order_diverged, match_returned,
}
use polarbeam.PathWatch.Chain.{IsLinked, fold_runs-IsLinked}

-- A hash of `n` equal bytes.
abbrev bytes : ℕ → ℕ → List ℕ
bytes zero b = []
bytes (suc n) b = b ∷ bytes n b

abbrev traced : ℕ → ℕ → Run
traced t b = record {
  probe_id = 7;
  target_id = 9;
  time = t;
  dest_reached = true;
  path_hash = bytes 32 b;
  hops = b ∷ [];
}

abbrev known : Current
known = record { updated_at = 10; path_hash = bytes 32 1; hops = 1 ∷ [] }

-- A refresh, a change, a late run, an incomplete one, and one whose hash is short.
abbrev runs : List Run
runs =
    traced 11 1
    ∷ traced 13 2
    ∷ traced 12 3
    ∷ record (traced 14 4) { dest_reached = false }
    ∷ record (traced 15 5) { path_hash = bytes 31 5 }
    ∷ []

abbrev one_change : List PendingEvent
one_change = record { run = traced 13 2; old_hash = bytes 32 1; old_hops = 1 ∷ [] } ∷ []

fold_runs_one : (fold_runs (start false (some known)) runs).pending ≡ one_change
unfolding fold_runs
fold_runs_one = refl

applicable_three : applicable runs ≡ traced 11 1 ∷ traced 13 2 ∷ traced 12 3 ∷ []
unfolding applicable
applicable_three = refl

match_returned_swapped : match_returned one_change ((1, 8) ∷ []) ≡ fail order_diverged
unfolding match_returned
match_returned_swapped = refl

fold_runs-IsLinked_example :
    let f = fold_runs (start false (some known)) runs in
    (d : Current) × (f.cur ≡ some d) × IsLinked known d f.pending f.final
fold_runs-IsLinked_example = fold_runs-IsLinked known runs
