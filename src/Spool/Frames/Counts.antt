-- ===== src/Spool/Frames/Counts.antt =====
-- The records that `countRecords` counts in a segment of whole records
-- (internal/agent/spool/spool.go).
use polarbeam.Base.{
  ℕ, zero, suc, ◌+◌, ◌^◌, ◌≤◌, ◌<◌, ◌≡◌, refl, ap, ◌∙◌, Bool, Option, none, some, List, [], ◌∷◌,
  ◌++◌, All, length, length-append, drop, arith, ltb, if◌then◌else◌, drop-append_self,
}
use polarbeam.Spool.Frames.{max_record_bytes, put_uint32, frame, count_loop, count_records}
use polarbeam.Spool.Frames.Replay.{frames, frames_long, uint32-put_uint32, not_over}

count_none : (fuel n : ℕ) → count_loop (suc fuel) [] n ≡ n
unfolding count_loop
count_none fuel n = refl

module _ (crc32 : List ℕ → ℕ) (bound : (bs : List ℕ) → crc32 bs < 2 ^ 32) where
  -- A turn skips the payload and the checksum.
  skipped : (p rest : List ℕ) → drop (length p + 4) ((p ++ put_uint32 (crc32 p)) ++ rest) ≡ rest
  skipped p rest =
      ap (λ (i : ℕ). drop i ((p ++ put_uint32 (crc32 p)) ++ rest))
        (omega (arith, length-append p (put_uint32 (crc32 p))))
      ∙ drop-append_self (p ++ put_uint32 (crc32 p)) rest

  counts_on :
      (fuel n : ℕ) (p rest : List ℕ)
      → length p ≤ max_record_bytes
      → count_loop (suc fuel) (frame crc32 p ++ rest) n ≡ count_loop fuel rest (n + 1)
  unfolding count_loop frame
  counts_on fuel n p rest h =
      ap
        (λ (o : Option (ℕ × List ℕ)). elim o [
          | none ↦ n
          | some (len, after) ↦
              if ltb max_record_bytes len then n else count_loop fuel (drop (len + 4) after) (n + 1)
        ])
        (uint32-put_uint32 (length p) ((p ++ put_uint32 (crc32 p)) ++ rest) (omega arith))
      ∙ ap
          (λ (b : Bool).
            if b
            then n
            else count_loop fuel (drop (length p + 4) ((p ++ put_uint32 (crc32 p)) ++ rest))
                (n + 1))
          (not_over (length p) h)
      ∙ ap (λ (l : List ℕ). count_loop fuel l (n + 1)) (skipped p rest)

  count_loop-frames :
      (ps : List (List ℕ)) (fuel n : ℕ)
      → All (λ (p : List ℕ). length p ≤ max_record_bytes) ps
      → length ps < fuel
      → count_loop fuel (frames crc32 bound ps) n ≡ n + length ps
  unfolding frames
  count_loop-frames ps zero n h f = absurd (omega arith)
  count_loop-frames [] (suc fuel) n h f = count_none fuel n ∙ omega arith
  count_loop-frames (p ∷ ps) (suc fuel) n h f =
      counts_on fuel n p (frames crc32 bound ps) h.0
      ∙ count_loop-frames ps fuel (n + 1) h.1 (omega arith)
      ∙ omega arith

  -- Every record of a segment of whole records is counted.
  pub count_records-frames :
      (ps : List (List ℕ))
      → All (λ (p : List ℕ). length p ≤ max_record_bytes) ps
      → count_records (frames crc32 bound ps) ≡ length ps
  unfolding count_records
  count_records-frames ps h =
      count_loop-frames ps (suc (length (frames crc32 bound ps))) 0 h
        (omega (arith, frames_long crc32 bound ps))
      ∙ omega arith
