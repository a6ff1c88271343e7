-- ===== src/Spool/Segments.antt =====
-- The spool's segment files and the operations on them (internal/agent/spool/spool.go): the struct
-- `Spool`, `openActiveLocked`, `rotateLocked`, `enforceBoundsLocked`, `truncateSegmentLocked`,
-- `dropUnspoolable`, `Append`, `Next` and the ack it returns, and `AckDropped`.
--
-- `files` is the directory as `listSegments` lists it, in the order of the sequence numbers. Times
-- and durations are nanoseconds, and `now.Sub(t) >= d` is `t + d <= now`. A call that writes a
-- segment or a sidecar and fails, or a removal by the bounds, stops the agent: here they succeed,
-- and a file that is listed can be read. Removing a file may fail in an ack, and whether it does
-- is an argument. The encoded result of `proto.Marshal` is the argument of `append`, `none` for
-- its error.
pub mod Startup
pub mod Blocks
pub mod Reading
pub mod Turns
pub mod Acks
pub mod Opening
pub mod Writing
pub mod Bounds
pub mod Overdue
pub mod Stale
pub mod Marks
pub mod Drops
pub mod Limits
pub mod Appends
pub mod Appended
pub mod Reopening
pub mod Recovery
pub mod Fifo
pub mod Faults
pub mod Samples
mod Tests
use polarbeam.Base.{
  ℕ, zero, suc, ◌+◌, ◌-◌, ◌*◌, ◌/◌, Bool, true, false, ◌&&◌, ◌||◌, not, Option, none, some, List,
  [], ◌∷◌, ◌++◌, Outcome, done, fail, length, take, ltb, leb, ◌==◌, min, if◌then◌else◌,
}
use polarbeam.Spool.Files.{
  Segment, size, total_size, create_file, file_size, write_to, remove_file, truncate_file,
}
use polarbeam.Spool.Counters.{
  Disk, Counters, OpenError, add64, persist, open_counters, count_drops, ack_dropped,
}
use polarbeam.Spool.Frames.{
  max_record_bytes, record_overhead, Read, count_records, frame, scan_segment, read_segment,
}

pub record Spool : Type 0 where
  pub max_bytes : ℕ
  pub max_age : ℕ
  pub files : List Segment
  pub disk : Disk
  pub active : Bool
  pub active_seq : ℕ
  pub active_size : ℕ
  pub active_opened_at : ℕ
  pub next_seq : ℕ
  pub read_seq : ℕ
  pub read_offset : ℕ
  pub pending : ℕ
  pub counters : Counters
  pub total_bytes : ℕ
  pub last_bounds_check : ℕ
  pub notified : Bool

abbrev pub seg_max_bytes : ℕ
seg_max_bytes = 1048576

abbrev pub minute : ℕ
minute = 60000000000

-- `rotateLocked`
abbrev pub rotate : Spool → Spool
rotate s = record s { active = false }

-- `openActiveLocked`
unfoldable pub open_active : ℕ → Spool → Spool
open_active now s =
    let files = create_file s.next_seq now s.files in
    record s {
      files = files;
      active = true;
      active_seq = s.next_seq;
      active_size = file_size s.next_seq files;
      active_opened_at = now;
      next_seq = add64 s.next_seq 1;
    }

-- `truncateSegmentLocked`
unfoldable pub truncate_segment : ℕ → Segment → ℕ → Spool → Spool
truncate_segment now g end_ s = record s {
  files = truncate_file g.seq now end_ s.files;
  active = s.active && not (g.seq == s.active_seq);
}

-- `n` records dropped: both counters, and both sidecars.
unfoldable pub record_drops : ℕ → Spool → Spool
record_drops n s =
    let c = count_drops n s.counters in record s { counters = c; disk = persist c s.disk }

-- `dropUnspoolable`
unfoldable pub drop_unspoolable : Spool → Spool
drop_unspoolable s = record_drops 1 s

-- A turn of `enforceBoundsLocked` that drops the oldest file; `rest` are the others.
unfoldable pub drop_oldest : Segment → List Segment → Spool → Spool
drop_oldest oldest rest s =
    let records = count_records oldest.bytes in
    let head = s.read_seq == oldest.seq in
    record_drops records (record s {
      files = rest;
      active = s.active && not (oldest.seq == s.active_seq);
      read_seq = if head then 0 else s.read_seq;
      read_offset = if head then 0 else s.read_offset;
      pending = s.pending - records;
    })

-- `overSize || overAge`
unfoldable pub is_over : ℕ → Segment → List Segment → Spool → Bool
is_over now oldest rest s =
    ltb s.max_bytes (total_size (oldest ∷ rest)) || ltb (oldest.mod_time + s.max_age) now

abbrev pub checked : ℕ → ℕ → Spool → Spool
checked now total s = record s { total_bytes = total; last_bounds_check = now }

-- The loop of `enforceBoundsLocked`: a turn lists the directory, which the turn before has left
-- without its first file.
unfoldable pub enforce_loop : ℕ → List Segment → Spool → Spool
enforce_loop now [] s = checked now 0 s
enforce_loop now (oldest ∷ rest) s =
    let dropped = enforce_loop now rest (drop_oldest oldest rest s) in
    if is_over now oldest rest s then dropped else checked now (total_size (oldest ∷ rest)) s

unfoldable pub enforce_bounds : ℕ → Spool → Spool
enforce_bounds now s = enforce_loop now s.files s

abbrev pub wake : Spool → Spool
wake s = record s { notified = true }

abbrev pub bounds_check_every : Spool → ℕ
bounds_check_every s = min minute (s.max_age / 2)

-- `Dropped`
abbrev pub dropped : Spool → ℕ × ℕ
dropped s = (s.counters.total, s.counters.unacked)

-- `AckDropped`
unfoldable pub ack_reported : ℕ → Spool → Spool
ack_reported reported s =
    let c = ack_dropped reported s.counters in record s { counters = c; disk = persist c s.disk }

unfoldable pub rotate_full : ℕ → List ℕ → Spool → Spool
rotate_full now payload s =
    if s.active
      && (ltb seg_max_bytes (s.active_size + length payload + record_overhead)
          || leb (s.active_opened_at + minute) now)
    then rotate s
    else s

unfoldable pub ensure_active : ℕ → Spool → Spool
ensure_active now s = if s.active then s else open_active now s

unfoldable pub check_bounds : ℕ → Spool → Spool
check_bounds now s =
    if ltb s.max_bytes s.total_bytes || leb (s.last_bounds_check + bounds_check_every s) now
    then enforce_bounds now s
    else s

-- What `Next` remembers of a file for the ack.
pub record Consumed : Type 0 where
  pub seq : ℕ
  pub end_ : ℕ
  pub complete : Bool

-- Where the read of a file starts.
abbrev pub start : ℕ → ℕ → ℕ → ℕ
start read_seq read_offset seq = if seq == read_seq then read_offset else 0

abbrev pub is_none_left {ℓ} : {R : Type ℓ} → List R → Bool
is_none_left [] = true
is_none_left (r ∷ rs) = false

-- The entry of `consumed` for a file, if it has one.
unfoldable pub taken {ℓ} : {R : Type ℓ} → Spool → Segment → Read R → List Consumed
taken s g (recs, end_, corrupt) =
    let sealed = leb (size g) end_ && (not (g.seq == s.active_seq) && not corrupt) in
    if is_none_left recs && sealed
    then record { seq = g.seq; end_ = end_; complete = true } ∷ []
    else if is_none_left recs
    then []
    else record { seq = g.seq; end_ = end_; complete = sealed } ∷ []

-- A turn of the ack on one file; `removes` says whether the file can be removed. A file that is
-- gone already counts as removed.
unfoldable pub ack_file : (ℕ → Bool) → Consumed → Spool → Spool
ack_file removes c s =
    let head = s.read_seq == c.seq in
    if not c.complete
    then record s { read_seq = c.seq; read_offset = c.end_ }
    else if removes c.seq
    then record s {
      files = remove_file c.seq s.files;
      read_seq = if head then 0 else s.read_seq;
      read_offset = if head then 0 else s.read_offset;
    }
    else s

unfoldable pub ack_files : (ℕ → Bool) → List Consumed → Spool → Spool
ack_files removes [] s = s
ack_files removes (c ∷ cs) s = ack_files removes cs (ack_file removes c s)

-- The ack of a batch of `n` results.
unfoldable pub ack : (ℕ → Bool) → List Consumed → ℕ → Spool → Spool
ack removes consumed n s =
    let acked = ack_files removes consumed s in record acked { pending = acked.pending - n }

module _ (crc32 : List ℕ → ℕ) where
  unfoldable pub write_record : ℕ → List ℕ → Spool → Spool
  write_record now payload s = record s {
    files = write_to s.active_seq now (frame crc32 payload) s.files;
    active_size = s.active_size + (length payload + record_overhead);
    total_bytes = s.total_bytes + (length payload + record_overhead);
    pending = s.pending + 1;
  }

  unfoldable pub append : ℕ → Option (List ℕ) → Spool → Spool
  append now none s = drop_unspoolable s
  append now (some payload) s =
      if ltb (max_record_bytes - record_overhead) (length payload)
      then drop_unspoolable s
      else wake (
          check_bounds now
            (write_record now payload (ensure_active now (rotate_full now payload s))))

  module _ {ℓ} {R : Type ℓ} (unmarshal : List ℕ → Option R) where
    abbrev pub Batch : Type ℓ
    Batch = Spool × List R × List Consumed

    -- A turn of `Next` on a file that was read, before the other files' turns.
    unfoldable pub with_read : Spool → Segment → Read R → Batch → Batch
    with_read s g (recs, end_, corrupt) (s', out, consumed) =
        (s', recs ++ out, taken s g (recs, end_, corrupt) ++ consumed)

    -- The loop of `Next` over the files, where `most` results may still be taken.
    unfoldable pub next_loop : ℕ → List Segment → ℕ → Spool → Batch
    next_loop now [] most s = (s, [], [])
    next_loop now (g ∷ gs) zero s = (s, [], [])
    next_loop now (g ∷ gs) (suc most) s =
        let found =
          read_segment crc32 unmarshal g.bytes (start s.read_seq s.read_offset g.seq) (suc most) in
        let truncated = if found.2 then truncate_segment now g found.1 s else s in
        with_read s g found (next_loop now gs (suc most - length found.0) truncated)

    abbrev pub settle_pending : Batch → Batch
    settle_pending (s, [], consumed) = (record s { pending = 0 }, [], consumed)
    settle_pending (s, r ∷ rs, consumed) = (s, r ∷ rs, consumed)

    unfoldable pub next : ℕ → ℕ → Spool → Batch
    next now most s = settle_pending (next_loop now s.files most s)
