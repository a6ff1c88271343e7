-- ===== src/MtuWatch/Apply.antt =====
-- `Apply` of internal/server/mtuwatch/mtuwatch.go: a push folded into path_mtu_current and
-- path_mtu_events. As in Outage/Apply, the model runs the statements that succeed, and the
-- failures that the code raises itself are values.
use polarbeam.Base.{
  ℕ, Bool, true, false, Option, none, some, List, [], ◌∷◌, ◌++◌, map, Outcome, done, fail, ltb,
  ◌==◌, if◌then◌else◌, ◌>>=◌,
}
use polarbeam.MtuWatch.Upsert.{Row, find_current, Fault, insert_failed, bulk_upsert_current}
use polarbeam.MtuWatch.{
  Run, Current, PendingEvent, applicable, Fold, fold_runs, start, Change, InsertError,
  match_returned,
}

abbrev pub is_missing : Option Row → Bool
is_missing none = true
is_missing (some row) = false

-- The placeholder of `ensureCurrent`, with Go's zero time.
abbrev pub placeholder : ℕ → ℕ → ℕ → Row
placeholder a p target = record {
  agent_id = a;
  probe_id = p;
  target_id = target;
  updated_at = 0;
  largest_ok = 0;
  smallest_failed = 0;
  next_hop_mtu = 0;
  ip_version = 0;
  black_hole = false;
  local_constraint = false;
  rtt_us = none;
}

unfoldable pub seed_current : ℕ → ℕ → ℕ → List Row → List Row
unfolding find_current
seed_current a p target rows =
    if is_missing (find_current a p rows) then rows ++ placeholder a p target ∷ [] else rows

-- `bySeries[id]`
unfoldable pub runs_of : ℕ → List Run → List Run
runs_of p [] = []
runs_of p (r ∷ rs) = if r.probe_id == p then r ∷ runs_of p rs else runs_of p rs

-- `bySeries[id][0].TargetID`
abbrev pub first_target : List Run → ℕ
first_target [] = 0
first_target (r ∷ rs) = r.target_id

unfoldable pub ensure_current : ℕ → List Run → List ℕ → List Row → List Row
unfolding seed_current runs_of
ensure_current a runs [] rows = rows
ensure_current a runs (p ∷ ps) rows =
    ensure_current a runs ps (seed_current a p (first_target (runs_of p runs)) rows)

-- `probeIDs`: the keys of bySeries in their order, each once.
unfoldable pub insert_probe : ℕ → List ℕ → List ℕ
insert_probe p [] = p ∷ []
insert_probe p (q ∷ qs) =
    if ltb p q then p ∷ q ∷ qs else if p == q then q ∷ qs else q ∷ insert_probe p qs

unfoldable pub series_ids : List Run → List ℕ
unfolding insert_probe
series_ids [] = []
series_ids (r ∷ rs) = insert_probe r.probe_id (series_ids rs)

abbrev pub current_in : Option Row → Option Current
current_in none = none
current_in (some row) = some (record {
  updated_at = row.updated_at;
  largest_ok = row.largest_ok;
  black_hole = row.black_hole;
})

-- `lockCurrents`, for one series.
unfoldable pub lock_current : ℕ → ℕ → List Row → Option Current
unfolding find_current
lock_current a p rows = current_in (find_current a p rows)

-- What the loop over the series carries.
pub record Progress : Type 0 where
  pub pending : List PendingEvent
  pub finals : List Run

abbrev pub add_final : Option Run → List Run → List Run
add_final none qs = qs
add_final (some q) qs = qs ++ q ∷ []

abbrev pub add_series : Progress → Fold → Progress
add_series acc f = record {
  pending = acc.pending ++ f.pending;
  finals = add_final f.final acc.finals;
}

-- A row of path_mtu_events, with its agent, from a queued event.
abbrev pub event_row : (ℕ → ℕ) → ℕ → PendingEvent → ℕ × PendingEvent
event_row timestamptz a p =
    let r = p.run in (a, record p { run = record r { time = timestamptz r.time } })

pub record Tables : Type 0 where
  pub current : List Row
  pub events : List (ℕ × PendingEvent)

abbrev pub checked : Outcome InsertError (List Change) → Outcome Fault (List Change)
checked (done cs) = done cs
checked (fail e) = fail (insert_failed e)

-- What `Apply` takes from outside: the precision of a timestamptz, `sort.Slice` by time, and the rows
-- that the INSERT returns.
module _ (timestamptz : ℕ → ℕ) (sort_by_time : List Run → List Run)
    (returning : List PendingEvent → List (ℕ × ℕ)) where
  -- The loop over `probeIDs`. A series is seeded where it had no row before `ensureCurrent`.
  unfoldable pub fold_series : ℕ → List Run → List Row → List Row → List ℕ → Progress → Progress
  unfolding runs_of lock_current fold_runs
  fold_series a runs before locked [] acc = acc
  fold_series a runs before locked (p ∷ ps) acc = fold_series a runs before locked ps (
      add_series acc (
        fold_runs (start (is_missing (find_current a p before)) (lock_current a p locked))
          (sort_by_time (runs_of p runs))))

  -- `bulkInsertEvents`: with nothing pending there is no statement.
  unfoldable pub bulk_insert_events : List PendingEvent → Outcome Fault (List Change)
  unfolding match_returned
  bulk_insert_events [] = done []
  bulk_insert_events (p ∷ ps) = checked (match_returned (p ∷ ps) (returning (p ∷ ps)))

  -- The statements at the end.
  abbrev pub write_out : ℕ → List Row → Tables → Progress → Outcome Fault (Tables × List Change)
  write_out a locked db acc = do
    changes ← bulk_insert_events acc.pending
    rows ← bulk_upsert_current timestamptz a acc.finals locked
    done (
      record {
        current = rows;
        events = db.events ++ map (λ p. event_row timestamptz a p) acc.pending;
      },
      changes,
    )

  unfoldable pub apply : ℕ → List Run → Tables → Outcome Fault (Tables × List Change)
  unfolding applicable series_ids ensure_current fold_series bulk_insert_events bulk_upsert_current
  apply a runs db =
      let grouped = applicable runs in
      let ids = series_ids grouped in
      let locked = ensure_current a grouped ids db.current in
      write_out a locked db
        (fold_series a grouped db.current locked ids (record { pending = []; finals = [] }))
