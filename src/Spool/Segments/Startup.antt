-- ===== src/Spool/Segments/Startup.antt =====
-- `Open` on the spool's directory (internal/agent/spool/spool.go): the scan of each file, the drop
-- counters, and the bounds on what was recovered.
use polarbeam.Base.{ℕ, ◌+◌, List, [], ◌∷◌, Outcome, done, fail, take, ltb, false, if◌then◌else◌}
use polarbeam.Spool.Counters.{Disk, Counters, OpenError, add64, open_counters}
use polarbeam.Spool.Frames.{scan_segment}
use polarbeam.Spool.Files.{Segment, size}
use polarbeam.Spool.Segments.{Spool, enforce_bounds, wake}

-- The spool that `Open` makes of the sidecars and the files before the bounds are checked.
abbrev pub recovered : ℕ → ℕ → Counters × Disk → List Segment × ℕ × ℕ → Spool
recovered max_bytes max_age (c, d) (files, pending, next_seq) = record {
  max_bytes = max_bytes;
  max_age = max_age;
  files = files;
  disk = d;
  active = false;
  active_seq = 0;
  active_size = 0;
  active_opened_at = 0;
  next_seq = next_seq;
  read_seq = 0;
  read_offset = 0;
  pending = pending;
  counters = c;
  total_bytes = 0;
  last_bounds_check = 0;
  notified = false;
}

abbrev pub wake_pending : Spool → Spool
wake_pending s = if ltb 0 s.pending then wake s else s

module _ (crc32 : List ℕ → ℕ) where
  -- `scanSegment` on a file, which cuts a tail behind the last good record.
  unfoldable pub scan_file : ℕ → Segment → Segment
  scan_file now g =
      let good = (scan_segment crc32 g.bytes).1 in
      if ltb good (size g) then record g { bytes = take good g.bytes; mod_time = now } else g

  -- The loop of `Open`: the files as the scan leaves them, `pending` and `nextSeq`.
  unfoldable pub scan_files : ℕ → List Segment → ℕ → ℕ → List Segment × ℕ × ℕ
  scan_files now [] pending next_seq = ([], pending, next_seq)
  scan_files now (g ∷ gs) pending next_seq =
      let (files, p, q) =
        scan_files now gs (pending + (scan_segment crc32 g.bytes).0) (add64 g.seq 1) in
      (scan_file now g ∷ files, p, q)

  abbrev pub open_recovered :
      ℕ → ℕ → ℕ → List Segment → Outcome OpenError (Counters × Disk) → Outcome OpenError Spool
  open_recovered now max_bytes max_age files (fail e) = fail e
  open_recovered now max_bytes max_age files (done counters) = done (
      wake_pending
        (enforce_bounds now (recovered max_bytes max_age counters (scan_files now files 0 1))))

  -- `Open`
  unfoldable pub open_spool : ℕ → ℕ → ℕ → List Segment → Disk → Outcome OpenError Spool
  open_spool now max_bytes max_age files disk =
      open_recovered now max_bytes max_age files (open_counters disk)
