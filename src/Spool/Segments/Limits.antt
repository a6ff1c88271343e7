-- ===== src/Spool/Segments/Limits.antt =====
-- Every operation keeps the spool within `max_bytes` (internal/agent/spool/spool.go), whatever its
-- files hold.
use polarbeam.Base.{
  ℕ, zero, suc, ◌+◌, ◌-◌, ◌≤◌, ◌≡◌, Bool, true, false, inl, inr, Option, none, some, List, [], ◌∷◌,
  length, length-append, arith, ltb, Bool-cases, if◌then◌else◌,
}
use polarbeam.Spool.Frames.{record_overhead, max_record_bytes, frame, put_uint32, read_segment}
use polarbeam.Spool.Segments.{
  Spool, Consumed, start, rotate_full, ensure_active, write_record, check_bounds, append,
  truncate_segment, drop_unspoolable, record_drops, open_active, ack_file, ack_files, ack,
  next_loop, next, with_read, settle_pending, Batch,
}
use polarbeam.Spool.Files.{Segment, total_size}
use polarbeam.Spool.Segments.Bounds.{
  IsTight, create_size, write_size, remove_size, truncate_size, check_bounds-IsTight,
}

pub length-frame_lem :
    (crc32 : List ℕ → ℕ) (p : List ℕ) → length (frame crc32 p) ≡ length p + record_overhead
unfolding frame
length-frame_lem crc32 p = omega (arith, length-append p (put_uint32 (crc32 p)))

-- No file is larger, and the count and the limit are what they were.
pub record IsSmaller (s t : Spool) : Type 0 where
  pub files : total_size t.files ≤ total_size s.files
  pub count : t.total_bytes ≡ s.total_bytes
  pub limit : t.max_bytes ≡ s.max_bytes

rotate_full-IsSmaller : (now : ℕ) (p : List ℕ) (s : Spool) → IsSmaller s (rotate_full now p s)
unfolding rotate_full
rotate_full-IsSmaller now p s = ground arith

ensure_active-IsSmaller : (now : ℕ) (s : Spool) → IsSmaller s (ensure_active now s)
unfolding ensure_active open_active
ensure_active-IsSmaller now s = ground (arith, create_size s.next_seq now s.files)

truncate_segment-IsSmaller :
    (now end_ : ℕ) (g : Segment) (s : Spool) → IsSmaller s (truncate_segment now g end_ s)
unfolding truncate_segment
truncate_segment-IsSmaller now end_ g s = ground (arith, truncate_size g.seq now end_ s.files)

ack_file-IsSmaller : (r : ℕ → Bool) (c : Consumed) (s : Spool) → IsSmaller s (ack_file r c s)
unfolding ack_file
ack_file-IsSmaller r c s = ground (arith, remove_size c.seq s.files)

IsSmaller-trans : (s t u : Spool) → IsSmaller s t → IsSmaller t u → IsSmaller s u
IsSmaller-trans s t u a b = ground arith

IsTight-smaller : (s t : Spool) → IsSmaller s t → IsTight s → IsTight t
IsTight-smaller s t a h = ground arith

ack_files-IsSmaller :
    (r : ℕ → Bool) (cs : List Consumed) (s : Spool) → IsSmaller s (ack_files r cs s)
unfolding ack_files
ack_files-IsSmaller r [] s = ground arith
ack_files-IsSmaller r (c ∷ cs) s =
    IsSmaller-trans s (ack_file r c s) _ (ack_file-IsSmaller r c s)
      (ack_files-IsSmaller r cs (ack_file r c s))

-- An ack keeps the bound, also when files cannot be removed.
pub ack-IsTight :
    (r : ℕ → Bool) (cs : List Consumed) (n : ℕ) (s : Spool) → IsTight s → IsTight (ack r cs n s)
unfolding ack
ack-IsTight r cs n s h =
    let t = IsTight-smaller s (ack_files r cs s) (ack_files-IsSmaller r cs s) h in
    record { counted = t.counted; limit = t.limit }

written-IsTight :
    (crc32 : List ℕ → ℕ) (now : ℕ) (p : List ℕ) (s : Spool)
    → total_size s.files ≤ s.total_bytes
    → IsTight (check_bounds now (write_record crc32 now p s))
unfolding write_record
written-IsTight crc32 now p s h =
    check_bounds-IsTight now (write_record crc32 now p s)
      (omega (arith, write_size s.active_seq now (frame crc32 p) s.files, length-frame_lem crc32 p))

-- However many results are appended, the files stay within `max_bytes`, a result that cannot be
-- spooled included.
pub append-IsTight :
    (crc32 : List ℕ → ℕ) (now : ℕ) (encoded : Option (List ℕ)) (s : Spool)
    → IsTight s
    → IsTight (append crc32 now encoded s)
unfolding append drop_unspoolable record_drops
append-IsTight crc32 now none s h = record { counted = h.counted; limit = h.limit }
append-IsTight crc32 now (some p) s h =
    elim (Bool-cases (ltb (max_record_bytes - record_overhead) (length p))) [
      | inl t ↦ simp t (record { counted = h.counted; limit = h.limit })
      | inr t ↦ simp t (
          let opened = ensure_active now (rotate_full now p s) in
          let o =
            IsTight-smaller s opened
              (IsSmaller-trans s (rotate_full now p s) opened (rotate_full-IsSmaller now p s)
                (ensure_active-IsSmaller now (rotate_full now p s)))
              h in
          let w = written-IsTight crc32 now p opened o.counted in
          record { counted = w.counted; limit = w.limit })
    ]

truncated-IsSmaller :
    (corrupt : Bool) (now end_ : ℕ) (g : Segment) (s : Spool)
    → IsSmaller s (if corrupt then truncate_segment now g end_ s else s)
truncated-IsSmaller true now end_ g s = truncate_segment-IsSmaller now end_ g s
truncated-IsSmaller false now end_ g s = ground arith

module _ {ℓ} {R : Type ℓ} (crc32 : List ℕ → ℕ) (unmarshal : List ℕ → Option R) where
  settled-IsTight :
      (b : Batch crc32 unmarshal) → IsTight b.0 → IsTight (settle_pending crc32 unmarshal b).0
  settled-IsTight (s, [], cs) h = record { counted = h.counted; limit = h.limit }
  settled-IsTight (s, r ∷ rs, cs) h = h

  next_loop-IsSmaller :
      (now : ℕ) (gs : List Segment) (most : ℕ) (s : Spool)
      → IsSmaller s (next_loop crc32 unmarshal now gs most s).0
  unfolding next_loop with_read
  next_loop-IsSmaller now [] most s = ground arith
  next_loop-IsSmaller now (g ∷ gs) zero s = ground arith
  next_loop-IsSmaller now (g ∷ gs) (suc most) s =
      let found =
        read_segment crc32 unmarshal g.bytes (start s.read_seq s.read_offset g.seq) (suc most) in
      let t = if found.2 then truncate_segment now g found.1 s else s in
      IsSmaller-trans s t _ (truncated-IsSmaller found.2 now found.1 g s)
        (next_loop-IsSmaller now gs (suc most - length found.0) t)

  -- A read keeps the bound, also when it cuts corrupt tails.
  pub next-IsTight :
      (now most : ℕ) (s : Spool) → IsTight s → IsTight (next crc32 unmarshal now most s).0
  unfolding next
  next-IsTight now most s h =
      settled-IsTight (next_loop crc32 unmarshal now s.files most s)
        (IsTight-smaller s _ (next_loop-IsSmaller now s.files most s) h)
