-- ===== src/Spool/Tests.antt =====
-- Runs of the spool's model on small inputs (internal/agent/spool/spool.go).
use polarbeam.Base.{
  ℕ, ◌+◌, ◌^◌, ◌<◌, ◌≡◌, refl, ◌&&◌, none, some, List, [], ◌∷◌, ◌++◌, done, length, arith, ltb,
}
use polarbeam.Spool.Counters.{
  Disk, Counters, holds, persist_first, persist, open_counters, count_drops,
}
use polarbeam.Spool.Counters.Recovery.{IsBalanced, open_counters-count_drops}
use polarbeam.Spool.Frames.{
  is_torn, read_record, frame, scan_segment, truncated, read_segment, count_records,
}
use polarbeam.Spool.Frames.Replay.{frames}
use polarbeam.Spool.Frames.Torn.{written, read_record-torn, scan_segment-torn, read_segment-written}

-- Ten drops, of which the server has acknowledged seven.
abbrev ten : Counters
ten = record { total = 10; acked = 7; unacked = 3 }

abbrev ten_disk : Disk
ten_disk = record { dropped = holds 3; dropped_state = holds (10, 7) }

ten-IsBalanced : IsBalanced ten
ten-IsBalanced = omega arith

open_ten : open_counters ten_disk ≡ done (ten, ten_disk)
unfolding open_counters
open_ten = refl

open_counters-count_drops_example :
    open_counters (persist_first (count_drops 5 ten) ten_disk)
    ≡ done (count_drops 5 ten, persist (count_drops 5 ten) ten_disk)
open_counters-count_drops_example =
    open_counters-count_drops 5 ten ten_disk ten-IsBalanced (omega arith) (refl, refl)

-- A checksum that stands for CRC32.
abbrev length_sum : List ℕ → ℕ
length_sum bs = 77

length_sum_bound : (bs : List ℕ) → length_sum bs < 2 ^ 32
length_sum_bound bs = omega arith

abbrev torn : List ℕ
torn = 2 ∷ 0 ∷ 0 ∷ 0 ∷ 9 ∷ []

torn-frame : frame length_sum (9 ∷ 8 ∷ []) ≡ torn ++ 8 ∷ 77 ∷ 0 ∷ 0 ∷ 0 ∷ []
unfolding frame
torn-frame = refl

torn_unread : read_record length_sum torn ≡ none
torn_unread =
    read_record-torn length_sum (9 ∷ 8 ∷ []) torn (77 ∷ 0 ∷ 0 ∷ 0 ∷ []) 8 (omega arith) torn-frame

abbrev two : List (List ℕ)
two = (1 ∷ 2 ∷ []) ∷ (3 ∷ []) ∷ []

scan_segment-torn_example :
    (scan_segment length_sum (frames length_sum length_sum_bound two ++ torn)
      ≡ (2, length (frames length_sum length_sum_bound two)))
    × (truncated length_sum (frames length_sum length_sum_bound two ++ torn)
        ≡ frames length_sum length_sum_bound two)
scan_segment-torn_example =
    scan_segment-torn length_sum length_sum_bound two (9 ∷ 8 ∷ []) torn (77 ∷ 0 ∷ 0 ∷ 0 ∷ []) 8
      (omega arith) (omega arith) torn-frame

-- A record that has its header is counted when its segment is dropped, though it is torn.
torn_counted : count_records torn ≡ 1
unfolding count_records
torn_counted = refl

abbrev bytes_of : List ℕ → List ℕ
bytes_of r = r

read_segment-written_example :
    read_segment length_sum
      (λ (p : List ℕ). some p)
      (written length_sum length_sum_bound bytes_of (λ p. some p) (λ r. refl) ((5 ∷ []) ∷ [])
        ++ (written length_sum length_sum_bound bytes_of (λ p. some p) (λ r. refl) two ++ torn))
      (length
        (written length_sum length_sum_bound bytes_of (λ p. some p) (λ r. refl) ((5 ∷ []) ∷ [])))
      5
    ≡ (
      two,
      length
            (written length_sum length_sum_bound bytes_of (λ p. some p) (λ r. refl) ((5 ∷ []) ∷ []))
          + length (written length_sum length_sum_bound bytes_of (λ p. some p) (λ r. refl) two),
      ltb 2 5 && is_torn torn,
    )
read_segment-written_example =
    read_segment-written length_sum length_sum_bound bytes_of (λ p. some p) (λ r. refl)
      ((5 ∷ []) ∷ []) two torn 5 (omega arith) torn_unread
