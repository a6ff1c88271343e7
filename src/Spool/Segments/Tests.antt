-- ===== src/Spool/Segments/Tests.antt =====
-- Runs of the segment files' model on small inputs (internal/agent/spool/spool.go).
use polarbeam.Base.{ℕ, ◌≡◌, refl, none, some, List, [], ◌∷◌, ◌++◌, done, arith, sym}
use mathlib.Core.List.{append-nil}
use polarbeam.Spool.Counters.{count_drops, open_counters}
use polarbeam.Spool.Counters.Recovery.{IsBalanced}
use polarbeam.Spool.Frames.{count_loop, count_records, frame, read_record}
use polarbeam.Spool.Frames.Replay.{frames}
use polarbeam.Spool.Segments.{
  Spool, append, next, enforce_loop, enforce_bounds, is_over, drop_oldest, record_drops,
}
use polarbeam.Spool.Segments.Startup.{scan_files, open_spool}
use polarbeam.Spool.Files.{Segment, total_size}
use polarbeam.Spool.Segments.Blocks.{image}
use polarbeam.Spool.Segments.Bounds.{IsChecked, IsTight, enforce_bounds-IsChecked}
use polarbeam.Spool.Segments.Limits.{append-IsTight}
use polarbeam.Spool.Segments.Fifo.{IsFront, next-IsFront}
use polarbeam.Spool.Segments.Faults.{IsCounted, append-IsCounted}
use polarbeam.Spool.Segments.Recovery.{Recovers, open_spool-Recovers}
use polarbeam.Spool.Segments.Samples.{
  plain, first_done, second, third, drops_so_far, on_disk, two_files, two_blocks, two_files-IsSound,
}

next-IsFront_example : IsFront plain 1 two_files (next plain.crc32 plain.unmarshal 300 1 two_files)
next-IsFront_example = next-IsFront plain 300 1 two_files two_blocks two_files-IsSound

enforce_bounds-IsChecked_example : IsChecked 1000 (enforce_bounds 1000 two_files)
enforce_bounds-IsChecked_example = enforce_bounds-IsChecked 1000 two_files

two_files-IsTight : IsTight two_files
unfolding frames frame total_size
two_files-IsTight = record { counted = omega arith; limit = omega arith }

append-IsTight_example : IsTight (append plain.crc32 300 (some third) two_files)
append-IsTight_example = append-IsTight plain.crc32 300 (some third) two_files two_files-IsTight

drops_so_far-IsBalanced : IsBalanced drops_so_far
drops_so_far-IsBalanced = omega arith

append-IsCounted_example : IsCounted two_files (append plain.crc32 300 none two_files)
append-IsCounted_example =
    append-IsCounted plain.crc32 300 none two_files tt drops_so_far-IsBalanced (omega arith)

-- The beginning of a record that a crash tore.
abbrev torn : List ℕ
torn = 2 ∷ 0 ∷ 0 ∷ 0 ∷ 9 ∷ []

empty_unread : read_record plain.crc32 [] ≡ none
unfolding read_record
empty_unread = refl

torn_unread : read_record plain.crc32 torn ≡ none
unfolding read_record
torn_unread = refl

abbrev crashed : List Segment
crashed =
    record { seq = 1; bytes = image plain (first_done ∷ second ∷ []); mod_time = 100 }
    ∷ record { seq = 2; bytes = image plain (third ∷ []) ++ torn; mod_time = 200 }
    ∷ []

open_on_disk : open_counters on_disk ≡ done (drops_so_far, on_disk)
unfolding open_counters
open_on_disk = refl

open_spool-Recovers_example :
    (s : Spool) × (open_spool plain.crc32 300 1000 600 crashed on_disk ≡ done s)
    × Recovers plain 300 1000 600
        (scan_files plain.crc32 300 crashed 0 1).0
        drops_so_far
        ((first_done ∷ second ∷ []) ∷ (third ∷ []) ∷ [])
        s
open_spool-Recovers_example =
    open_spool-Recovers plain 300 1000 600 3 crashed on_disk
      ((first_done ∷ second ∷ []) ∷ (third ∷ []) ∷ []) drops_so_far on_disk
      (omega arith, omega arith, (omega arith, omega arith, tt)) (omega arith)
      (
        ([], sym (append-nil _), empty_unread),
        (omega arith, (omega arith, tt)),
        ((torn, refl, torn_unread), (omega arith, tt), tt),
      )
      (omega arith, omega arith) open_on_disk (omega arith)

-- Both files are too old. Of the three records, one was acknowledged before, and is counted as
-- dropped with the two that wait.
acknowledged_counted : (enforce_bounds 2000 two_files).counters.total ≡ 13
unfolding enforce_bounds enforce_loop is_over drop_oldest record_drops count_drops count_records
    count_loop frames frame total_size
acknowledged_counted = refl
