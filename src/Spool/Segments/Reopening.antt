-- ===== src/Spool/Segments/Reopening.antt =====
-- What `Open` recovers after a crash (internal/agent/spool/spool.go): the segment files may each have
-- a torn record at their end, and the read position is gone.
use polarbeam.Base.{
  ℕ, suc, ◌+◌, ◌^◌, ◌≤◌, ◌<◌, ◌≡◌, refl, ap, ap₂, ◌∙◌, inl, inr, none, List, [], ◌∷◌, ◌++◌, map,
  length, length-append, length-map, take, arith, ltb, Bool-cases, take-append_self, nothing_left,
}
use mathlib.Core.List.{append-nil}
use polarbeam.Spool.Counters.{Disk, Counters, add64}
use polarbeam.Spool.Frames.{read_record, scan_segment}
use polarbeam.Spool.Frames.Replay.{frames, scan_segment-frames}
use polarbeam.Spool.Segments.{start}
use polarbeam.Spool.Segments.Startup.{scan_file, scan_files, recovered}
use polarbeam.Spool.Files.{Segment, size}
use polarbeam.Spool.Segments.Blocks.{
  Codec, Ascends, Ascends-lower, Block, Holds, image, Fit, backlog, IsSound,
}
use polarbeam.Spool.Segments.Drops.{records}

start_zero : (seq : ℕ) → start 0 0 seq ≡ 0
start_zero seq = ground arith

module _ {ℓ} {R : Type ℓ} (k : Codec R) where
  -- Each file is whole records and a tail that is no whole record.
  abbrev pub IsTorn : List Segment → List (List R) → Type 0
  IsTorn [] [] = Unit
  IsTorn (g ∷ gs) (rs ∷ rss) =
      ((tail : List ℕ) × (g.bytes ≡ image k rs ++ tail) × (read_record k.crc32 tail ≡ none))
      × Fit k rs
      × IsTorn gs rss
  IsTorn _ _ = ⊥

  -- All their records, oldest first.
  abbrev pub every_record : List (List R) → List R
  every_record [] = []
  every_record (rs ∷ rss) = rs ++ every_record rss

  abbrev pub fresh : List (List R) → List (Block R)
  fresh [] = []
  fresh (rs ∷ rss) = ([], rs) ∷ fresh rss

  scan-image :
      (rs : List R) (tail : List ℕ)
      → Fit k rs
      → read_record k.crc32 tail ≡ none
      → scan_segment k.crc32 (image k rs ++ tail) ≡ (length rs, length (image k rs))
  scan-image rs tail f t =
      scan_segment-frames k.crc32 k.bound (map k.marshal rs) tail f t
      ∙ ap (λ (n : ℕ). (n, length (image k rs))) (length-map k.marshal rs)

  -- The scan leaves the whole records of a file.
  scan_file-bytes :
      (now : ℕ) (g : Segment) (rs : List R) (tail : List ℕ)
      → g.bytes ≡ image k rs ++ tail
      → Fit k rs
      → read_record k.crc32 tail ≡ none
      → (scan_file k.crc32 now g).bytes ≡ image k rs
  unfolding scan_file
  scan_file-bytes now g rs tail e f t =
      let good : (scan_segment k.crc32 g.bytes).1 ≡ length (image k rs) =
        ap (λ (b : List ℕ). (scan_segment k.crc32 b).1) e
        ∙ ap (λ (r : ℕ × ℕ). r.1) (scan-image rs tail f t) in
      elim (Bool-cases (ltb (scan_segment k.crc32 g.bytes).1 (size g))) [
        | inl c ↦ simp c (ap₂ take good e ∙ take-append_self (image k rs) tail)
        | inr c ↦ simp c (
            e
            ∙ ap (λ (l : List ℕ). image k rs ++ l)
                (nothing_left tail
                  (ground (arith, good, ap length e, length-append (image k rs) tail)))
            ∙ append-nil (image k rs))
      ]

  scan_file-seq : (now : ℕ) (g : Segment) → (scan_file k.crc32 now g).seq ≡ g.seq
  unfolding scan_file
  scan_file-seq now g = elim (Bool-cases (ltb (scan_segment k.crc32 g.bytes).1 (size g))) [
    | inl c ↦ simp c refl
    | inr c ↦ simp c refl
  ]

  scan_files-Holds :
      (now pending next : ℕ) (gs : List Segment) (rss : List (List R))
      → IsTorn gs rss
      → Holds k 0 0 (scan_files k.crc32 now gs pending next).0 (fresh rss)
  unfolding scan_files frames
  scan_files-Holds now pending next [] [] t = tt
  scan_files-Holds now pending next [] (rs ∷ rss) t = elim t [ ]
  scan_files-Holds now pending next (g ∷ gs) [] t = elim t [ ]
  scan_files-Holds now pending next (g ∷ gs) (rs ∷ rss) ((tail, e, n), f, t) = (
    (scan_file-bytes now g rs tail e f n, start_zero (scan_file k.crc32 now g).seq, f),
    scan_files-Holds now (pending + (scan_segment k.crc32 g.bytes).0) (add64 g.seq 1) gs rss t,
  )

  scan_files-Ascends :
      (now pending lo last next : ℕ) (gs : List Segment)
      → Ascends lo last gs
      → last < 2 ^ 64
      → lo ≤ next
      → (lo ≤ (scan_files k.crc32 now gs pending next).2)
        × Ascends lo
            (scan_files k.crc32 now gs pending next).2
            (scan_files k.crc32 now gs pending next).0
  unfolding scan_files
  scan_files-Ascends now pending lo last next [] a l h = (h, tt)
  scan_files-Ascends now pending lo last next (g ∷ gs) a l h =
      let (above, rest) =
        scan_files-Ascends now (pending + (scan_segment k.crc32 g.bytes).0) (suc g.seq) last
          (add64 g.seq 1) gs a.2 l (omega (arith, a.1)) in
      let same = scan_file-seq now g in
      (
        omega (arith, above, a.0),
        (
          omega (arith, same, a.0),
          omega (arith, same, above),
          Ascends-lower (suc g.seq) _ _ _ (omega (arith, same)) rest,
        ),
      )

  pub recovered-IsSound :
      (now max_bytes max_age last : ℕ) (c : Counters × Disk) (gs : List Segment)
      (rss : List (List R))
      → Ascends 1 last gs
      → last < 2 ^ 64
      → IsTorn gs rss
      → IsSound k (recovered max_bytes max_age c (scan_files k.crc32 now gs 0 1)) (fresh rss)
  recovered-IsSound now max_bytes max_age last c gs rss a l t =
      let (above, ascends) = scan_files-Ascends now 0 1 last 1 gs a l (omega arith) in
      record {
        holds = scan_files-Holds now 0 1 gs rss t;
        ascends = ascends;
        newest = inl refl;
        read = omega (arith, above);
        opened = λ e. ground (arith, e);
      }

  pub backlog-fresh : (rss : List (List R)) → backlog (fresh rss) ≡ every_record rss
  unfolding backlog
  backlog-fresh [] = refl
  backlog-fresh (rs ∷ rss) = ap (λ (l : List R). rs ++ l) (backlog-fresh rss)

  pub records-fresh : (rss : List (List R)) → records (fresh rss) ≡ length (every_record rss)
  unfolding records
  records-fresh [] = refl
  records-fresh (rs ∷ rss) = omega (arith, records-fresh rss, length-append rs (every_record rss))
