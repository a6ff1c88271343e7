-- ===== src/Spool/Segments/Samples.antt =====
-- Small well-formed files, for the runs of the model (internal/agent/spool/spool.go).
use polarbeam.Base.{ℕ, ◌≡◌, refl, true, false, some, List, [], ◌∷◌, length, arith, inr, ◌∙◌}
use polarbeam.Spool.Counters.{Counters, Disk, holds}
use polarbeam.Spool.Frames.Replay.{frames}
use polarbeam.Spool.Segments.{Spool}
use polarbeam.Spool.Segments.Blocks.{Codec, Block, IsSound, image, backlog, queue, queue-IsSound}

-- Results that are their own encoding, under a checksum that stands for CRC32.
abbrev pub plain : Codec (List ℕ)
plain = record {
  crc32 = λ bs. 77;
  marshal = λ r. r;
  unmarshal = λ p. some p;
  bound = λ bs. omega arith;
  decodes = λ r. refl;
}

abbrev pub first_done : List ℕ
first_done = 1 ∷ 2 ∷ []

abbrev pub second : List ℕ
second = 3 ∷ []

abbrev pub third : List ℕ
third = 4 ∷ []

abbrev pub drops_so_far : Counters
drops_so_far = record { total = 10; acked = 7; unacked = 3 }

abbrev pub on_disk : Disk
on_disk = record { dropped = holds 3; dropped_state = holds (10, 7) }

-- A sealed file of which one record was acknowledged, and the active file behind it.
abbrev pub two_files : Spool
two_files = record {
  max_bytes = 1000;
  max_age = 600;
  files =
      record { seq = 1; bytes = image plain (first_done ∷ second ∷ []); mod_time = 100 }
      ∷ record { seq = 2; bytes = image plain (third ∷ []); mod_time = 200 }
      ∷ [];
  disk = on_disk;
  active = true;
  active_seq = 2;
  active_size = 9;
  active_opened_at = 150;
  next_seq = 3;
  read_seq = 1;
  read_offset = length (image plain (first_done ∷ []));
  pending = 2;
  counters = drops_so_far;
  total_bytes = 100;
  last_bounds_check = 150;
  notified = false;
}

abbrev pub two_blocks : List (Block (List ℕ))
two_blocks = (first_done ∷ [], second ∷ []) ∷ ([], third ∷ []) ∷ []

pub two_files-IsSound : IsSound plain two_files two_blocks
unfolding frames
two_files-IsSound = record {
  holds = ((refl, refl, (omega arith, (omega arith, tt))), ((refl, refl, (omega arith, tt)), tt));
  ascends = (omega arith, omega arith, (omega arith, omega arith, tt));
  newest = inr refl;
  read = omega arith;
  opened = λ a. refl;
}

backlog_two : backlog two_blocks ≡ second ∷ third ∷ []
unfolding backlog
backlog_two = refl

pub queue_two : queue plain two_files ≡ second ∷ third ∷ []
queue_two = queue-IsSound plain two_files two_blocks two_files-IsSound ∙ backlog_two
