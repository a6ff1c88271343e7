-- ===== src/Spool/Files.antt =====
-- The spool's directory of segment files (internal/agent/spool/spool.go), as `listSegments` lists it,
-- in the order of the sequence numbers: what opening, writing, removing and truncating a file do.
use polarbeam.Base.{ℕ, ◌+◌, List, [], ◌∷◌, ◌++◌, length, take, ltb, ◌==◌, if◌then◌else◌}

pub record Segment : Type 0 where
  pub seq : ℕ
  pub bytes : List ℕ
  pub mod_time : ℕ

abbrev pub size : Segment → ℕ
size g = length g.bytes

unfoldable pub total_size : List Segment → ℕ
total_size [] = 0
total_size (g ∷ gs) = size g + total_size gs

-- `os.OpenFile` with `O_CREATE`: a file that is there stays as it is.
unfoldable pub create_file : ℕ → ℕ → List Segment → List Segment
create_file seq now [] = record { seq = seq; bytes = []; mod_time = now } ∷ []
create_file seq now (g ∷ gs) =
    let rest = create_file seq now gs in
    if g.seq == seq
    then g ∷ gs
    else if ltb seq g.seq
    then record { seq = seq; bytes = []; mod_time = now } ∷ g ∷ gs
    else g ∷ rest

unfoldable pub file_size : ℕ → List Segment → ℕ
file_size seq [] = 0
file_size seq (g ∷ gs) = if g.seq == seq then size g else file_size seq gs

-- A write to the append handle of a segment.
unfoldable pub write_to : ℕ → ℕ → List ℕ → List Segment → List Segment
write_to seq now bytes [] = []
write_to seq now bytes (g ∷ gs) =
    let rest = write_to seq now bytes gs in
    if g.seq == seq then record g { bytes = g.bytes ++ bytes; mod_time = now } ∷ gs else g ∷ rest

unfoldable pub remove_file : ℕ → List Segment → List Segment
remove_file seq [] = []
remove_file seq (g ∷ gs) = let rest = remove_file seq gs in if g.seq == seq then gs else g ∷ rest

unfoldable pub truncate_file : ℕ → ℕ → ℕ → List Segment → List Segment
truncate_file seq now end_ [] = []
truncate_file seq now end_ (g ∷ gs) =
    let rest = truncate_file seq now end_ gs in
    if g.seq == seq then record g { bytes = take end_ g.bytes; mod_time = now } ∷ gs else g ∷ rest
