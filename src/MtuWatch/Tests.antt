-- ===== src/MtuWatch/Tests.antt =====
-- Tests of the path MTU changes (internal/server/mtuwatch/mtuwatch.go), and the theorems at concrete
-- inputs.
use polarbeam.Base.{
  ℕ, ◌+◌, ◌*◌, ◌/◌, ◌≡◌, All, arith, refl, true, false, none, some, List, [], ◌∷◌, done, fail,
}
use polarbeam.MtuWatch.{
  Run, Current, fold_runs, start, PendingEvent, Change, order_diverged, match_returned,
}
use polarbeam.MtuWatch.Upsert.{Row, find_current, applied_fewer}
use polarbeam.MtuWatch.Apply.{Tables, apply}
use polarbeam.MtuWatch.Finals.{IsMonotone, IsNewIn}
use polarbeam.MtuWatch.Accepted.{apply_accepts}
use polarbeam.MtuWatch.Chain.{IsChained, fold_runs-Chain}
use polarbeam.MtuWatch.Bulk.{Agree}

abbrev measured : ℕ → ℕ → Run
measured t mtu = record {
  probe_id = 7;
  target_id = 9;
  time = t;
  largest_ok = mtu;
  smallest_failed = mtu + 1;
  next_hop_mtu = 0;
  ip_version = 4;
  black_hole = false;
  local_constraint = false;
  rtt_us = none;
  usable = true;
}

abbrev known : Current
known = record { updated_at = 10; largest_ok = 1500; black_hole = false }

-- A refresh, a change, a late run and a change back.
abbrev runs : List Run
runs = measured 11 1500 ∷ measured 13 1400 ∷ measured 12 1300 ∷ measured 14 1500 ∷ []

abbrev two_changes : List PendingEvent
two_changes =
    record { run = measured 13 1400; old_mtu = 1500; old_black = false }
    ∷ record { run = measured 14 1500; old_mtu = 1400; old_black = false }
    ∷ []

fold_runs_two : (fold_runs (start false (some known)) runs).pending ≡ two_changes
unfolding fold_runs
fold_runs_two = refl

match_returned_swapped : match_returned two_changes ((1, 7) ∷ (2, 8) ∷ []) ≡ fail order_diverged
unfolding match_returned
match_returned_swapped = refl

fold_runs-Chain_example :
    let f = fold_runs (start false (some known)) runs in
    (d : Current) × (f.cur ≡ some d) × IsChained known d f.pending f.final
fold_runs-Chain_example = fold_runs-Chain known runs

-- A sorted batch, and an INSERT that returns its rows in the order of the queue.
abbrev returned : List PendingEvent → List (ℕ × ℕ)
returned [] = []
returned (p ∷ ps) = (1, p.run.probe_id) ∷ returned ps

returned-Agree : (ps : List PendingEvent) → Agree ps (returned ps)
returned-Agree [] = tt
returned-Agree (p ∷ ps) = (refl, returned-Agree ps)

-- A column that keeps microseconds.
abbrev micros : ℕ → ℕ
micros t = t / 1000 * 1000

micros-IsMonotone : IsMonotone micros
micros-IsMonotone x y l = omega arith

abbrev row : Row
row = record {
  agent_id = 5;
  probe_id = 7;
  target_id = 9;
  updated_at = 10000;
  largest_ok = 1500;
  smallest_failed = 1501;
  next_hop_mtu = 0;
  ip_version = 4;
  black_hole = false;
  local_constraint = false;
  rtt_us = none;
}

abbrev one_row : Tables
one_row = record { current = row ∷ []; events = [] }

-- A late run, a refresh, and a change half a microsecond later than a whole one.
abbrev pushed : List Run
pushed = measured 9000 1300 ∷ measured 11000 1500 ∷ measured 12500 1400 ∷ []

pushed-IsNewIn : All (IsNewIn micros 5 one_row.current) pushed
unfolding find_current
pushed-IsNewIn = (λ e. omega (arith, e), (λ e. omega (arith, e), (λ e. omega (arith, e), tt)))

apply_accepts_example :
    (db' : Tables) × (cs : List Change) × (apply micros (λ rs. rs) returned 5 pushed one_row
      ≡ done (db', cs))
apply_accepts_example =
    apply_accepts micros (λ rs. rs) returned micros-IsMonotone (λ P rs h. h) returned-Agree 5 pushed
      one_row (refl, tt) pushed-IsNewIn

-- A run half a microsecond later than the row passes the fold, but the guard of the upsert does not
-- see it as later: the push fails, where ingest lets such a run through.
same_microsecond :
    apply micros (λ rs. rs) returned 5 (measured 10500 1400 ∷ []) one_row ≡ fail applied_fewer
unfolding apply
same_microsecond = refl

abbrev empty_tables : Tables
empty_tables = record { current = []; events = [] }

-- So does one half a microsecond later than Go's zero time, for which no earlier run is needed.
beside_zero :
    apply micros (λ rs. rs) returned 5 (measured 500 1400 ∷ []) empty_tables ≡ fail applied_fewer
unfolding apply
beside_zero = refl
