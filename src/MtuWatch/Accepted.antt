-- ===== src/MtuWatch/Accepted.antt =====
-- The checks of `Apply` (internal/server/mtuwatch/mtuwatch.go) on what its own statements did.
use polarbeam.Base.{ℕ, ◌≡◌, refl, ap, List, [], ◌∷◌, ◌++◌, map, All, length, done, arith}
use polarbeam.MtuWatch.{Run, Change, PendingEvent, applicable}
use polarbeam.MtuWatch.Bulk.{Agree, paired, match_returned_lem}
use polarbeam.MtuWatch.Upsert.{Row, count_applied, write_rows, bulk_upsert_current}
use polarbeam.MtuWatch.Apply.{
  ensure_current, series_ids, Progress, Tables, event_row, bulk_insert_events, checked, write_out,
  apply,
}
use polarbeam.MtuWatch.Locks.{ensure_current-Locked}
use polarbeam.MtuWatch.Finals.{
  IsMonotone, IsStored, IsNewIn, IsWritten, Keeps, applicable-All, fold_series-IsWritten,
}

count_applied-length :
    (timestamptz : ℕ → ℕ) (a : ℕ) (qs : List Run) (rows : List Row)
    → All (IsWritten timestamptz a rows) qs
    → count_applied timestamptz a qs rows ≡ length qs
unfolding count_applied
count_applied-length timestamptz a [] rows h = refl
count_applied-length timestamptz a (q ∷ qs) rows h =
    ground (arith, h.0, count_applied-length timestamptz a qs rows h.1)

bulk_insert_events-done :
    (timestamptz : ℕ → ℕ) (sort : List Run → List Run)
    (returning : List PendingEvent → List (ℕ × ℕ))
    → ((qs : List PendingEvent) → Agree qs (returning qs))
    → (ps : List PendingEvent)
    → (cs : List Change) × (bulk_insert_events timestamptz sort returning ps ≡ done cs)
unfolding bulk_insert_events
bulk_insert_events-done timestamptz sort returning h [] = ([], refl)
bulk_insert_events-done timestamptz sort returning h (p ∷ ps) =
    let e = (match_returned_lem (p ∷ ps) (returning (p ∷ ps))).0 (h (p ∷ ps)) in
    (paired (p ∷ ps) (returning (p ∷ ps)), ap checked e)

bulk_upsert_current-done :
    (timestamptz : ℕ → ℕ) (a : ℕ) (qs : List Run) (rows : List Row)
    → All (IsWritten timestamptz a rows) qs
    → bulk_upsert_current timestamptz a qs rows ≡ done (write_rows timestamptz a qs rows)
unfolding bulk_upsert_current
bulk_upsert_current-done timestamptz a qs rows h =
    ground (arith, count_applied-length timestamptz a qs rows h)

write_out-done :
    (timestamptz : ℕ → ℕ) (sort : List Run → List Run)
    (returning : List PendingEvent → List (ℕ × ℕ))
    → ((qs : List PendingEvent) → Agree qs (returning qs))
    → (a : ℕ) (locked : List Row) (db : Tables) (acc : Progress)
    → All (IsWritten timestamptz a locked) acc.finals
    → (db' : Tables) × (cs : List Change) × (write_out timestamptz sort returning a locked db acc
        ≡ done (db', cs))
write_out-done timestamptz sort returning h a locked db acc w =
    let (cs, e) = bulk_insert_events-done timestamptz sort returning h acc.pending in
    (
      record {
        current = write_rows timestamptz a acc.finals locked;
        events = db.events ++ map (λ p. event_row timestamptz a p) acc.pending;
      },
      cs,
      rw (e, bulk_upsert_current-done timestamptz a acc.finals locked w),
    )

-- No push is aborted by the code's own checks: whatever the runs and the tables are, `Apply` returns
-- the changed tables and the changes. The conditions: sorting keeps the runs; the INSERT returns one
-- row for each event, in the order of the queue; the column keeps the order of times, and the times of
-- the rows are ones that it keeps; and, as ingest's dedupe at the precision of the column promises, no
-- run has, as the column keeps times, the time of its series' row; and no run of a series without a
-- row is at Go's zero time as the column keeps times, unless its own time is the zero time.
pub apply_accepts :
    (timestamptz : ℕ → ℕ) (sort : List Run → List Run)
    (returning : List PendingEvent → List (ℕ × ℕ))
    → IsMonotone timestamptz
    → Keeps sort
    → ((qs : List PendingEvent) → Agree qs (returning qs))
    → (a : ℕ) (runs : List Run) (db : Tables) → All (IsStored timestamptz) db.current
    → All (IsNewIn timestamptz a db.current) runs
    → (db' : Tables) × (cs : List Change) × (apply timestamptz sort returning a runs db
        ≡ done (db', cs))
unfolding apply
apply_accepts timestamptz sort returning m s h a runs db st new =
    let grouped = applicable runs in
    let ids = series_ids grouped in
    let locked = ensure_current a grouped ids db.current in
    write_out-done timestamptz sort returning h a locked db _ (
      fold_series-IsWritten timestamptz sort returning m s a grouped db.current locked ids
        (record { pending = []; finals = [] }) st
        (applicable-All (IsNewIn timestamptz a db.current) runs new)
        (λ p. ensure_current-Locked a p grouped ids db.current) tt)
