-- ===== src/Spool/Frames/Replay.antt =====
-- What is read back from a segment file is what was appended to it, up to the record that a crash
-- tore (internal/agent/spool/spool.go).
use polarbeam.Base.{
  ℕ, zero, suc, ◌+◌, ◌/◌, ◌%◌, ◌^◌, ◌≤◌, ◌<◌, ◌≡◌, refl, ap, ap₂, ◌∙◌, Bool, true, false, none,
  some, List, [], ◌∷◌, ◌++◌, All, length, length-append, arith, ltb, ◌==◌, if◌then◌else◌,
}
use mathlib.Core.List.{append_assoc}
use polarbeam.Spool.Frames.{
  max_record_bytes, record_overhead, put_uint32, uint32, read_full, read_uint32, frame, check_crc,
  check_payload, check_header, read_record, scan_loop, scan_segment,
}

read_full-append : (p rest : List ℕ) → read_full (length p) (p ++ rest) ≡ some (p, rest)
unfolding read_full
read_full-append [] rest = refl
read_full-append (b ∷ bs) rest = rw (read_full-append bs rest)

pub uint32-put_uint32 :
    (n : ℕ) (rest : List ℕ) → n < 2 ^ 32 → read_uint32 (put_uint32 n ++ rest) ≡ some (n, rest)
uint32-put_uint32 n rest h = ap (λ (k : ℕ). some (k, rest)) (omega arith)

pub not_over : (n : ℕ) → n ≤ max_record_bytes → ltb max_record_bytes n ≡ false
not_over n h = ground arith

==_refl : (n : ℕ) → (n == n) ≡ true
==_refl n = ground arith

module _ (crc32 : List ℕ → ℕ) (crc32_bound : (bs : List ℕ) → crc32 bs < 2 ^ 32) where
  good_crc :
      (p rest : List ℕ)
      → check_crc crc32 p (read_uint32 (put_uint32 (crc32 p) ++ rest)) ≡ some (p, rest)
  good_crc p rest =
      ap (check_crc crc32 p) (uint32-put_uint32 (crc32 p) rest (crc32_bound p))
      ∙ ap (λ (b : Bool). if b then some (p, rest) else none) (==_refl (crc32 p))

  good_header :
      (p rest : List ℕ)
      → length p ≤ max_record_bytes
      → check_header crc32 (some (length p, p ++ (put_uint32 (crc32 p) ++ rest))) ≡ some (p, rest)
  good_header p rest h =
      ap
        (λ (b : Bool).
          if b
          then none
          else check_payload crc32 (read_full (length p) (p ++ (put_uint32 (crc32 p) ++ rest))))
        (not_over (length p) h)
      ∙ ap (check_payload crc32) (read_full-append p (put_uint32 (crc32 p) ++ rest))
      ∙ good_crc p rest

  -- A whole record is read back as its payload, and leaves what follows it.
  pub read_record-frame :
      (p rest : List ℕ)
      → length p ≤ max_record_bytes
      → read_record crc32 (frame crc32 p ++ rest) ≡ some (p, rest)
  unfolding read_record frame
  read_record-frame p rest h =
      ap
        (λ (bs : List ℕ). check_header crc32 (
          some (
            uint32 (length p % 256) (length p / 256 % 256) (length p / 65536 % 256)
                (length p / 16777216 % 256),
            bs,
          )))
        (append_assoc p (put_uint32 (crc32 p)) rest)
      ∙ ap (check_header crc32)
          (uint32-put_uint32 (length p) (p ++ (put_uint32 (crc32 p) ++ rest)) (omega arith))
      ∙ good_header p rest h

  -- The file that appends of these payloads make.
  unfoldable pub frames : List (List ℕ) → List ℕ
  frames [] = []
  frames (p ∷ ps) = frame crc32 p ++ frames ps

  scan_stops :
      (fuel n end_ : ℕ) (bs : List ℕ)
      → read_record crc32 bs ≡ none
      → scan_loop crc32 (suc fuel) bs n end_ ≡ (n, end_)
  unfolding scan_loop
  scan_stops fuel n end_ bs e = rw (e, scan_loop)

  scan_goes_on :
      (fuel n end_ : ℕ) (p bs rest : List ℕ)
      → read_record crc32 bs ≡ some (p, rest)
      → scan_loop crc32 (suc fuel) bs n end_
        ≡ scan_loop crc32 fuel rest (n + 1) (end_ + length p + record_overhead)
  unfolding scan_loop
  scan_goes_on fuel n end_ p bs rest e = rw (e, scan_loop)

  pub length-frame : (p : List ℕ) → length (frame crc32 p) ≡ length p + record_overhead
  unfolding frame
  length-frame p = omega (arith, length-append p (put_uint32 (crc32 p)))

  scan_loop-frames :
      (ps : List (List ℕ)) (tail : List ℕ) (fuel n end_ : ℕ)
      → All (λ (p : List ℕ). length p ≤ max_record_bytes) ps
      → read_record crc32 tail ≡ none
      → length ps < fuel
      → scan_loop crc32 fuel (frames ps ++ tail) n end_ ≡ (n + length ps, end_ + length (frames ps))
  unfolding frames
  scan_loop-frames ps tail zero n end_ h t f = elim f [ ]
  scan_loop-frames [] tail (suc fuel) n end_ h t f =
      scan_stops fuel n end_ tail t ∙ ap₂ (λ (a b : ℕ). (a, b)) (omega arith) (omega arith)
  scan_loop-frames (p ∷ ps) tail (suc fuel) n end_ h t f =
      scan_goes_on fuel n end_ p _ (frames ps ++ tail) (
        ap (read_record crc32) (append_assoc (frame crc32 p) (frames ps) tail)
        ∙ read_record-frame p (frames ps ++ tail) h.0)
      ∙ scan_loop-frames ps tail fuel (n + 1) (end_ + length p + record_overhead) h.1 t
          (omega arith)
      ∙ ap₂ (λ (a b : ℕ). (a, b)) (omega arith)
          (omega (arith, length-frame p, length-append (frame crc32 p) (frames ps)))

  pub frames_long : (ps : List (List ℕ)) → length ps ≤ length (frames ps)
  unfolding frames
  frames_long [] = omega arith
  frames_long (p ∷ ps) =
      omega (arith, frames_long ps, length-frame p, length-append (frame crc32 p) (frames ps))

  -- Behind any records whose payloads are within the limit, a tail that is no whole record is not
  -- counted: the scan counts the records and stops where the last of them ends.
  pub scan_segment-frames :
      (ps : List (List ℕ)) (tail : List ℕ)
      → All (λ (p : List ℕ). length p ≤ max_record_bytes) ps
      → read_record crc32 tail ≡ none
      → scan_segment crc32 (frames ps ++ tail) ≡ (length ps, length (frames ps))
  unfolding scan_segment
  scan_segment-frames ps tail h t =
      scan_loop-frames ps tail (suc (length (frames ps ++ tail))) 0 0 h t
        (omega (arith, frames_long ps, length-append (frames ps) tail))
      ∙ ap₂ (λ (a b : ℕ). (a, b)) (omega arith) (omega arith)
