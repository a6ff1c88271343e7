-- ===== src/Spool/Frames.antt =====
-- The record framing of a segment file (internal/agent/spool/spool.go): a little-endian length, the
-- payload, and the CRC32 of the payload. A file is the list of its bytes. The checksum and the
-- protobuf decoder are arguments: neither is the program's.
pub mod Counts
pub mod Replay
pub mod Torn
use polarbeam.Base.{
  ℕ, zero, suc, ◌+◌, ◌-◌, ◌*◌, ◌/◌, ◌%◌, ◌^◌, Bool, true, false, not, Option, none, some, List, [],
  ◌∷◌, ◌++◌, length, take, drop, ltb, ◌==◌, if◌then◌else◌,
}

abbrev pub max_record_bytes : ℕ
max_record_bytes = 2 ^ 20

abbrev pub record_overhead : ℕ
record_overhead = 8

-- `binary.LittleEndian.PutUint32` of a uint32, and `Uint32`.
abbrev pub put_uint32 : ℕ → List ℕ
put_uint32 n = (n % 256) ∷ (n / 256 % 256) ∷ (n / 65536 % 256) ∷ (n / 16777216 % 256) ∷ []

abbrev pub uint32 : ℕ → ℕ → ℕ → ℕ → ℕ
uint32 a b c d = a + 256 * b + 65536 * c + 16777216 * d

-- `io.ReadFull` of `n` bytes: the bytes and the rest of the file, `none` for EOF inside.
unfoldable pub read_full : ℕ → List ℕ → Option (List ℕ × List ℕ)
read_full zero bs = some ([], bs)
read_full (suc n) [] = none
read_full (suc n) (b ∷ bs) = elim (read_full n bs) [
  | none ↦ none
  | some (taken, rest) ↦ some (b ∷ taken, rest)
]

-- A header or a trailer: four bytes as a number.
abbrev pub read_uint32 : List ℕ → Option (ℕ × List ℕ)
read_uint32 (a ∷ b ∷ c ∷ d ∷ rest) = some (uint32 a b c d, rest)
read_uint32 _ = none

-- `countRecords`: headers alone are read, and a seek behind the end is no error.
unfoldable pub count_loop : ℕ → List ℕ → ℕ → ℕ
count_loop zero bs n = n
count_loop (suc fuel) bs n = elim (read_uint32 bs) [
  | none ↦ n
  | some (len, rest) ↦
      if ltb max_record_bytes len then n else count_loop fuel (drop (len + 4) rest) (n + 1)
]

unfoldable pub count_records : List ℕ → ℕ
unfolding count_loop
count_records bs = count_loop (suc (length bs)) bs 0

-- What a segment gave: the records, the offset behind the last good one, and whether the tail
-- from there is corrupt.
abbrev pub Read {ℓ} : Type ℓ → Type ℓ
Read R = List R × ℕ × Bool

abbrev pub prepend {ℓ} : {R : Type ℓ} → R → Read R → Read R
prepend r (rs, end_, corrupt) = (r ∷ rs, end_, corrupt)

-- A clean end is an end of file where a header would start.
abbrev pub is_torn : List ℕ → Bool
is_torn [] = false
is_torn (b ∷ bs) = true

module _ (crc32 : List ℕ → ℕ) where
  -- What `Append` writes for a payload.
  unfoldable pub frame : List ℕ → List ℕ
  frame payload = put_uint32 (length payload) ++ (payload ++ put_uint32 (crc32 payload))

  abbrev pub check_crc : List ℕ → Option (ℕ × List ℕ) → Option (List ℕ × List ℕ)
  check_crc payload none = none
  check_crc payload (some (sum, rest)) = if sum == crc32 payload then some (payload, rest) else none

  abbrev pub check_payload : Option (List ℕ × List ℕ) → Option (List ℕ × List ℕ)
  check_payload none = none
  check_payload (some (payload, rest)) = check_crc payload (read_uint32 rest)

  abbrev pub check_header : Option (ℕ × List ℕ) → Option (List ℕ × List ℕ)
  check_header none = none
  check_header (some (n, rest)) =
      if ltb max_record_bytes n then none else check_payload (read_full n rest)

  -- One turn of the loops: a whole record with a good checksum, and what follows it.
  unfoldable pub read_record : List ℕ → Option (List ℕ × List ℕ)
  unfolding read_full
  read_record bs = check_header (read_uint32 bs)

  -- The loop of `scanSegment`: the count of good records and the offset behind the last. Each turn
  -- takes at least eight bytes, so that fuel for each byte is enough.
  unfoldable pub scan_loop : ℕ → List ℕ → ℕ → ℕ → ℕ × ℕ
  unfolding read_record
  scan_loop zero bs n end_ = (n, end_)
  scan_loop (suc fuel) bs n end_ = elim (read_record bs) [
    | none ↦ (n, end_)
    | some (payload, rest) ↦ scan_loop fuel rest (n + 1) (end_ + length payload + record_overhead)
  ]

  unfoldable pub scan_segment : List ℕ → ℕ × ℕ
  unfolding scan_loop
  scan_segment bs = scan_loop (suc (length bs)) bs 0 0

  -- The good prefix that `scanSegment` leaves of a file.
  unfoldable pub truncated : List ℕ → List ℕ
  unfolding scan_segment
  truncated bs = take (scan_segment bs).1 bs

  module _ {ℓ} {R : Type ℓ} (unmarshal : List ℕ → Option R) where
    -- The loop of `readSegmentLocked`, on the `most` records that may still be read.
    unfoldable pub read_loop : ℕ → List ℕ → ℕ → Read R
    unfolding read_record
    read_loop zero bs pos = ([], pos, false)
    read_loop (suc most) bs pos = elim (read_record bs) [
      | none ↦ ([], pos, is_torn bs)
      | some (payload, rest) ↦ elim (unmarshal payload) [
        | none ↦ ([], pos, true)
        | some r ↦ prepend r (read_loop most rest (pos + length payload + record_overhead))
      ]
    ]

    unfoldable pub read_segment : List ℕ → ℕ → ℕ → Read R
    unfolding read_loop
    read_segment bs offset most = read_loop most (drop offset bs) offset
