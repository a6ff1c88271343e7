-- ===== src/MtuWatch/Upsert.antt =====
-- `bulkUpsertCurrent` of internal/server/mtuwatch/mtuwatch.go on the rows of path_mtu_current. What a
-- timestamptz column keeps of a time is an argument: the code compares the times of the runs, the
-- statement's guard those of the column.
use polarbeam.Base.{
  ℕ, ◌+◌, Bool, true, ◌&&◌, Option, none, some, List, [], ◌∷◌, length, Outcome, done, fail, ltb,
  ◌==◌, if◌then◌else◌,
}
use polarbeam.MtuWatch.{Run, InsertError}

-- A row of path_mtu_current.
pub record Row : Type 0 where
  pub agent_id : ℕ
  pub probe_id : ℕ
  pub target_id : ℕ
  pub updated_at : ℕ
  pub largest_ok : ℕ
  pub smallest_failed : ℕ
  pub next_hop_mtu : ℕ
  pub ip_version : ℕ
  pub black_hole : Bool
  pub local_constraint : Bool
  pub rtt_us : Option ℕ

abbrev pub is_series : ℕ → ℕ → Row → Bool
is_series a p row = row.agent_id == a && row.probe_id == p

-- The row of a series, by its primary key.
unfoldable pub find_current : ℕ → ℕ → List Row → Option Row
find_current a p [] = none
find_current a p (row ∷ rows) = if is_series a p row then some row else find_current a p rows

-- The row that the upsert writes for a run.
abbrev pub row_of : (ℕ → ℕ) → ℕ → Run → Row
row_of timestamptz a r = record {
  agent_id = a;
  probe_id = r.probe_id;
  target_id = r.target_id;
  updated_at = timestamptz r.time;
  largest_ok = r.largest_ok;
  smallest_failed = r.smallest_failed;
  next_hop_mtu = r.next_hop_mtu;
  ip_version = r.ip_version;
  black_hole = r.black_hole;
  local_constraint = r.local_constraint;
  rtt_us = r.rtt_us;
}

-- Whether the upsert writes a run: there is no row, or one with an older time than the column
-- would keep.
abbrev pub is_older : (ℕ → ℕ) → Option Row → Run → Bool
is_older timestamptz none q = true
is_older timestamptz (some row) q = ltb row.updated_at (timestamptz q.time)

unfoldable pub count_applied : (ℕ → ℕ) → ℕ → List Run → List Row → ℕ
unfolding find_current
count_applied timestamptz a [] rows = 0
count_applied timestamptz a (q ∷ qs) rows =
    (if is_older timestamptz (find_current a q.probe_id rows) q then 1 else 0)
    + count_applied timestamptz a qs rows

unfoldable pub put_row : Row → List Row → List Row
put_row new [] = new ∷ []
put_row new (row ∷ rows) =
    if is_series new.agent_id new.probe_id row then new ∷ rows else row ∷ put_row new rows

unfoldable pub write_rows : (ℕ → ℕ) → ℕ → List Run → List Row → List Row
unfolding put_row
write_rows timestamptz a [] rows = rows
write_rows timestamptz a (q ∷ qs) rows = write_rows timestamptz a qs (
    if is_older timestamptz (find_current a q.probe_id rows) q
    then put_row (row_of timestamptz a q) rows
    else rows)

pub data Fault : Type 0 where
  insert_failed : InsertError → Fault
  applied_fewer : Fault

-- `bulkUpsertCurrent`, with its check of RowsAffected.
unfoldable pub bulk_upsert_current : (ℕ → ℕ) → ℕ → List Run → List Row → Outcome Fault (List Row)
unfolding count_applied write_rows
bulk_upsert_current timestamptz a finals rows =
    if count_applied timestamptz a finals rows == length finals
    then done (write_rows timestamptz a finals rows)
    else fail applied_fewer
