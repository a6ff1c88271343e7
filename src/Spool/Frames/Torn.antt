-- ===== src/Spool/Frames/Torn.antt =====
-- A segment whose last record was torn by a crash (internal/agent/spool/spool.go): what is counted,
-- what is kept, and what is read from an offset.
use polarbeam.Base.{
  ℕ, zero, suc, ◌+◌, ◌/◌, ◌%◌, ◌^◌, ◌≤◌, ◌<◌, ◌≡◌, refl, sym, ap, ap₂, ◌∙◌, Bool, ◌&&◌, Option,
  none, some, List, [], ◌∷◌, ◌++◌, map, All, length, length-append, take, arith, ltb, if◌then◌else◌,
  take-append_self, drop-append_self,
}
use mathlib.Core.List.{append_assoc}
use polarbeam.Spool.Frames.{
  max_record_bytes, record_overhead, put_uint32, uint32, read_full, read_uint32, frame, check_crc,
  check_payload, check_header, read_record, scan_segment, truncated, prepend, is_torn, read_loop,
  read_segment,
}
use polarbeam.Spool.Frames.Replay.{read_record-frame, frames, length-frame, scan_segment-frames}

-- What a full read takes off a list.
abbrev Takes : ℕ → List ℕ → Option (List ℕ × List ℕ) → Type 0
Takes n bs none = Unit
Takes n bs (some (taken, rest)) = length bs ≡ n + length rest

abbrev add_byte : ℕ → Option (List ℕ × List ℕ) → Option (List ℕ × List ℕ)
add_byte b o = elim o [ none ↦ none | some (taken, rest) ↦ some (b ∷ taken, rest) ]

Takes-suc :
    (n b : ℕ) (bs : List ℕ) (o : Option (List ℕ × List ℕ))
    → Takes n bs o
    → Takes (suc n) (b ∷ bs) (add_byte b o)
Takes-suc n b bs none h = tt
Takes-suc n b bs (some (taken, rest)) h = omega arith

read_full-Takes : (n : ℕ) (bs : List ℕ) → Takes n bs (read_full n bs)
unfolding read_full
read_full-Takes zero bs = omega arith
read_full-Takes (suc n) [] = tt
read_full-Takes (suc n) (b ∷ bs) = Takes-suc n b bs (read_full n bs) (read_full-Takes n bs)

short_header : (bs : List ℕ) → length bs < 4 → read_uint32 bs ≡ none
short_header [] h = refl
short_header (a ∷ []) h = refl
short_header (a ∷ b ∷ []) h = refl
short_header (a ∷ b ∷ c ∷ []) h = refl
short_header (a ∷ b ∷ c ∷ d ∷ bs) h = absurd (omega arith)

abbrev header_of : Option (ℕ × List ℕ) → ℕ
header_of none = 0
header_of (some (n, bs)) = n

uint32_lem :
    (n : ℕ)
    → n < 2 ^ 32
    → uint32 (n % 256) (n / 256 % 256) (n / 65536 % 256) (n / 16777216 % 256) ≡ n
uint32_lem n h = omega arith

module _ (crc32 : List ℕ → ℕ) where
  short_payload :
      (n : ℕ) (bs : List ℕ) (o : Option (List ℕ × List ℕ))
      → Takes n bs o
      → length bs < n + 4
      → check_payload crc32 o ≡ none
  short_payload n bs none t l = refl
  short_payload n bs (some (taken, rest)) t l =
      ap (check_crc crc32 taken) (short_header rest (omega arith))

  short_record :
      (n : ℕ) (bs : List ℕ) → length bs < n + 4 → check_header crc32 (some (n, bs)) ≡ none
  short_record n bs l =
      ap (λ o. if ltb max_record_bytes n then none else o)
        (short_payload n bs (read_full n bs) (read_full-Takes n bs) l)
      ∙ ground arith

  -- A proper prefix of a record is no record, whatever the checksum is.
  pub read_record-torn :
      (p tail more : List ℕ) (b : ℕ)
      → length p < 2 ^ 32
      → frame crc32 p ≡ tail ++ b ∷ more
      → read_record crc32 tail ≡ none
  unfolding read_record frame
  read_record-torn p [] more b l e = refl
  read_record-torn p (x ∷ []) more b l e = refl
  read_record-torn p (x ∷ y ∷ []) more b l e = refl
  read_record-torn p (x ∷ y ∷ z ∷ []) more b l e = refl
  read_record-torn p (x ∷ y ∷ z ∷ w ∷ tail) more b l e =
      let n : uint32 x y z w ≡ length p =
        sym (ap (λ (bs : List ℕ). header_of (read_uint32 bs)) e) ∙ uint32_lem (length p) l in
      short_record (uint32 x y z w) tail (
        omega (
          arith,
          n,
          ap length e,
          length-append p (put_uint32 (crc32 p)),
          length-append tail (b ∷ more),
        ))

  -- Whatever whole records a segment holds, and however much of one more was written when a crash
  -- came: the scan at startup counts the whole records, and cuts the file where the last one ends.
  pub scan_segment-torn :
      (bound : (bs : List ℕ) → crc32 bs < 2 ^ 32) (ps : List (List ℕ)) (p tail more : List ℕ)
      (b : ℕ)
      → All (λ (q : List ℕ). length q ≤ max_record_bytes) ps
      → length p ≤ max_record_bytes
      → frame crc32 p ≡ tail ++ b ∷ more
      → (scan_segment crc32 (frames crc32 bound ps ++ tail)
          ≡ (length ps, length (frames crc32 bound ps)))
        × (truncated crc32 (frames crc32 bound ps ++ tail) ≡ frames crc32 bound ps)
  unfolding truncated
  scan_segment-torn bound ps p tail more b h l e =
      let s =
        scan_segment-frames crc32 bound ps tail h
          (read_record-torn p tail more b (omega arith) e) in
      (
        s,
        ap (λ (r : ℕ × ℕ). take r.1 (frames crc32 bound ps ++ tail)) s
            ∙ take-append_self (frames crc32 bound ps) tail,
      )

module _ {ℓ} {R : Type ℓ} (crc32 : List ℕ → ℕ) (bound : (bs : List ℕ) → crc32 bs < 2 ^ 32)
    (marshal : R → List ℕ) (unmarshal : List ℕ → Option R)
    (decodes : (r : R) → unmarshal (marshal r) ≡ some r) where
  -- The bytes of these records.
  abbrev pub written : List R → List ℕ
  written rs = frames crc32 bound (map marshal rs)

  abbrev pub Small : List R → Type 0
  Small rs = All (λ (p : List ℕ). length p ≤ max_record_bytes) (map marshal rs)

  read_stops :
      (most : ℕ) (bs : List ℕ) (pos : ℕ)
      → read_record crc32 bs ≡ none
      → read_loop crc32 unmarshal (suc most) bs pos ≡ ([], pos, is_torn bs)
  unfolding read_loop
  read_stops most bs pos e = rw (e, read_loop)

  read_goes_on :
      (most : ℕ) (r : R) (bs rest : List ℕ) (pos : ℕ)
      → read_record crc32 bs ≡ some (marshal r, rest)
      → read_loop crc32 unmarshal (suc most) bs pos
        ≡ prepend r
            (read_loop crc32 unmarshal most rest (pos + length (marshal r) + record_overhead))
  unfolding read_loop
  read_goes_on most r bs rest pos e = rw (e, read_loop) (rw (decodes r))

  read_loop-written :
      (rs : List R) (tail : List ℕ) (most pos : ℕ)
      → Small rs
      → read_record crc32 tail ≡ none
      → read_loop crc32 unmarshal most (written rs ++ tail) pos ≡ (
        take most rs,
        pos + length (written (take most rs)),
        ltb (length rs) most && is_torn tail,
      )
  unfolding frames read_loop
  read_loop-written rs tail zero pos h t =
      ap₂ (λ (a : ℕ) (c : Bool). ([], a, c)) (omega arith) (ground arith)
  read_loop-written [] tail (suc most) pos h t =
      read_stops most tail pos t
      ∙ ap₂ (λ (a : ℕ) (c : Bool). ([], a, c)) (omega arith) (ground arith)
  read_loop-written (r ∷ rs) tail (suc most) pos h t =
      read_goes_on most r (frame crc32 (marshal r) ++ written rs ++ tail) (written rs ++ tail) pos (
        ap (read_record crc32) (append_assoc (frame crc32 (marshal r)) (written rs) tail)
        ∙ read_record-frame crc32 bound (marshal r) (written rs ++ tail) h.0)
      ∙ ap (prepend r)
          (read_loop-written rs tail most (pos + length (marshal r) + record_overhead) h.1 t)
      ∙ ap₂ (λ (a : ℕ) (c : Bool). (r ∷ take most rs, a, c))
          (omega (
            arith,
            length-frame crc32 bound (marshal r),
            length-append (frame crc32 (marshal r)) (written (take most rs)),
          ))
          (ground arith)

  -- From the offset behind any records, at most `most` of the records that follow are read, in the
  -- order in which they were appended; the new offset is behind the last of them, so that the next
  -- read goes on from there; a tail that is no whole record is reported as corrupt, if the read
  -- reaches it and it is not empty.
  pub read_segment-written :
      (past rs : List R) (tail : List ℕ) (most : ℕ)
      → Small rs
      → read_record crc32 tail ≡ none
      → read_segment crc32 unmarshal
          (written past ++ (written rs ++ tail))
          (length (written past))
          most
        ≡ (
          take most rs,
          length (written past) + length (written (take most rs)),
          ltb (length rs) most && is_torn tail,
        )
  unfolding read_segment
  read_segment-written past rs tail most h t =
      ap (λ (bs : List ℕ). read_loop crc32 unmarshal most bs (length (written past)))
        (drop-append_self (written past) (written rs ++ tail))
      ∙ read_loop-written rs tail most (length (written past)) h t
