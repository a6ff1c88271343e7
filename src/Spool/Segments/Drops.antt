-- ===== src/Spool/Segments/Drops.antt =====
-- What a scan of the bounds drops from well-formed files (internal/agent/spool/spool.go): the oldest
-- files, and each of their records is counted.
use polarbeam.Base.{
  ℕ, ◌+◌, ◌^◌, ◌≤◌, ◌<◌, ◌≡◌, refl, sym, ap, ◌∙◌, inl, inr, not, ◌&&◌, List, [], ◌∷◌, ◌++◌, map,
  length, length-append, length-map, arith, ◌==◌, Bool-cases, subst,
}
use mathlib.Core.List.{append_assoc}
use polarbeam.Spool.Counters.{count_drops}
use polarbeam.Spool.Frames.{count_records}
use polarbeam.Spool.Frames.Counts.{count_records-frames}
use polarbeam.Spool.Segments.{
  Spool, Consumed, drop_oldest, is_over, record_drops, enforce_loop, enforce_bounds, checked,
}
use polarbeam.Spool.Files.{Segment, total_size}
use polarbeam.Spool.Segments.Blocks.{
  Codec, EndsAt, image, Fit, Block, Holds, backlog, IsSound, image_long,
}
use polarbeam.Spool.Segments.Bounds.{drop_files}
use polarbeam.Spool.Segments.Marks.{Marks, Marks-drop_oldest}
use polarbeam.Spool.Segments.Acks.{EndsAt-later, without_head-IsSound}

-- All the records of these files, those that were read and acknowledged too.
unfoldable pub records {ℓ} : {R : Type ℓ} → List (Block R) → ℕ
records [] = 0
records (b ∷ bs) = length b.0 + length b.1 + records bs

-- Both counters, `n` drops later.
abbrev pub CountsOn : ℕ → Spool → Spool → Type 0
CountsOn n s s' =
    (s'.counters.total ≡ s.counters.total + n) × (s'.counters.unacked ≡ s.counters.unacked + n)

module _ {ℓ} {R : Type ℓ} (k : Codec R) where
  count_image : (rs : List R) → Fit k rs → count_records (image k rs) ≡ length rs
  count_image rs h =
      count_records-frames k.crc32 k.bound (map k.marshal rs) h ∙ length-map k.marshal rs

  drop_oldest-IsSound :
      (s : Spool) (g : Segment) (gs : List Segment) (b : Block R) (bs : List (Block R))
      → s.files ≡ g ∷ gs
      → IsSound k s (b ∷ bs)
      → IsSound k (drop_oldest g gs s) bs
  unfolding drop_oldest record_drops
  drop_oldest-IsSound s g gs b bs f h =
      let sound =
        without_head-IsSound k s g gs b bs (s.active && not (g.seq == s.active_seq)) f
          (λ a.
            EndsAt-later s.active_seq g gs (ground arith)
              (subst (EndsAt s.active_seq) f (h.opened (ground arith))))
          h in
      record {
        holds = sound.holds;
        ascends = sound.ascends;
        newest = sound.newest;
        read = sound.read;
        opened = sound.opened;
      }

  drop_oldest-CountsOn :
      (s : Spool) (g : Segment) (gs : List Segment) (b : Block R) (bs : List (Block R))
      → s.files ≡ g ∷ gs
      → IsSound k s (b ∷ bs)
      → s.counters.total + (length b.0 + length b.1) < 2 ^ 64
      → s.counters.unacked ≤ s.counters.total
      → CountsOn (length b.0 + length b.1) s (drop_oldest g gs s)
  unfolding drop_oldest record_drops count_drops
  drop_oldest-CountsOn s g gs b bs f h l u =
      let holds = subst (λ l. Holds k s.read_seq s.read_offset l (b ∷ bs)) f h.holds in
      let counted : count_records g.bytes ≡ length b.0 + length b.1 =
        ap count_records holds.0.0 ∙ count_image (b.0 ++ b.1) holds.0.2 ∙ length-append b.0 b.1 in
      (omega (arith, counted), omega (arith, counted))

  -- The oldest blocks are gone, the others are as they were, and the counters have gone on by the
  -- number of all the records that are gone.
  pub record Pruned (s : Spool) (bs : List (Block R)) (s' : Spool) : Type ℓ where
    pub gone : List (Block R)
    pub kept : List (Block R)
    pub parts : bs ≡ gone ++ kept
    pub sound : IsSound k s' kept
    pub counts : CountsOn (records gone) s s'
    pub marks :
        (cs : List Consumed) (out : List R)
        → Marks k s bs cs out
        → (lost : List R) × (later : List R) × (out ≡ lost ++ later) × Marks k s' kept cs later

  pub Pruned-same : (s : Spool) (bs : List (Block R)) → IsSound k s bs → Pruned s bs s
  unfolding records
  Pruned-same s bs h = record {
    gone = [];
    kept = bs;
    parts = refl;
    sound = h;
    counts = (omega arith, omega arith);
    marks = λ cs out m. ([], out, refl, m);
  }

  Pruned-checked :
      (now n : ℕ) (s s' : Spool) (bs : List (Block R))
      → Pruned s bs s'
      → Pruned s bs (checked now n s')
  Pruned-checked now n s s' bs p = record {
    gone = p.gone;
    kept = p.kept;
    parts = p.parts;
    sound = record {
      holds = p.sound.holds;
      ascends = p.sound.ascends;
      newest = p.sound.newest;
      read = p.sound.read;
      opened = p.sound.opened;
    };
    counts = p.counts;
    marks = λ cs out held.
        let (lost, later, e, m) = p.marks cs out held in
        (
          lost,
          later,
          e,
          record {
            stale = m.stale;
            live = m.live;
            parts = m.parts;
            below = m.below;
            takes = m.takes;
          },
        );
  }

  Pruned-none :
      (now n : ℕ) (s : Spool) (bs : List (Block R)) → IsSound k s bs → Pruned s bs (checked now n s)
  Pruned-none now n s bs h = Pruned-checked now n s s bs (Pruned-same s bs h)

  Pruned-more :
      (s t s' : Spool) (b : Block R) (bs : List (Block R))
      → CountsOn (length b.0 + length b.1) s t
      → ((cs : List Consumed) (out : List R)
          → Marks k s (b ∷ bs) cs out
          → (lost : List R) × (later : List R) × (out ≡ lost ++ later) × Marks k t bs cs later)
      → Pruned t bs s'
      → Pruned s (b ∷ bs) s'
  unfolding records
  Pruned-more s t s' b bs c m p = record {
    gone = b ∷ p.gone;
    kept = p.kept;
    parts = ap (λ (l : List (Block R)). b ∷ l) p.parts;
    sound = p.sound;
    counts = (omega (arith, c.0, p.counts.0), omega (arith, c.1, p.counts.1));
    marks = λ cs out held.
        let (lost, later, e, moved) = m cs out held in
        let (lost', later', e', moved') = p.marks cs later moved in
        (
          lost ++ lost',
          later',
          e ∙ ap (λ (l : List R). lost ++ l) e' ∙ sym (append_assoc lost lost' later'),
          moved',
        );
  }

  pub enforce_loop-Pruned :
      (now : ℕ) (gs : List Segment) (s : Spool) (bs : List (Block R))
      → s.files ≡ gs
      → IsSound k s bs
      → s.counters.total + records bs < 2 ^ 64
      → s.counters.unacked ≤ s.counters.total
      → Pruned s bs (enforce_loop now gs s)
  unfolding enforce_loop records
  enforce_loop-Pruned now [] s bs f h l u = Pruned-none now 0 s bs h
  enforce_loop-Pruned now (g ∷ gs) s [] f h l u =
      elim (subst (λ l. Holds k s.read_seq s.read_offset l []) f h.holds) [ ]
  enforce_loop-Pruned now (g ∷ gs) s (b ∷ bs) f h l u = elim (Bool-cases (is_over now g gs s)) [
    | inl t ↦ simp t (
        let c = drop_oldest-CountsOn s g gs b bs f h (omega arith) u in
        Pruned-more s (drop_oldest g gs s) _ b bs c
          (λ cs out m. Marks-drop_oldest k s g gs b bs cs out f h m)
          (enforce_loop-Pruned now gs (drop_oldest g gs s) bs (drop_files g gs s)
            (drop_oldest-IsSound s g gs b bs f h) (omega (arith, c.0)) (omega (arith, c.0, c.1))))
    | inr t ↦ simp t (Pruned-none now (total_size (g ∷ gs)) s (b ∷ bs) h)
  ]

  -- A scan of the bounds drops the oldest records and counts them.
  pub enforce_bounds-Pruned :
      (now : ℕ) (s : Spool) (bs : List (Block R))
      → IsSound k s bs
      → s.counters.total + records bs < 2 ^ 64
      → s.counters.unacked ≤ s.counters.total
      → Pruned s bs (enforce_bounds now s)
  unfolding enforce_bounds
  enforce_bounds-Pruned now s bs h l u = enforce_loop-Pruned now s.files s bs refl h l u

  pub backlog-append : (xs ys : List (Block R)) → backlog (xs ++ ys) ≡ backlog xs ++ backlog ys
  unfolding backlog
  backlog-append [] ys = refl
  backlog-append (b ∷ xs) ys =
      ap (λ (l : List R). b.1 ++ l) (backlog-append xs ys)
      ∙ sym (append_assoc b.1 (backlog xs) (backlog ys))

  -- The waiting records of files are some of their records.
  pub backlog_short : (bs : List (Block R)) → length (backlog bs) ≤ records bs
  unfolding backlog records
  backlog_short [] = omega arith
  backlog_short (b ∷ bs) = omega (arith, backlog_short bs, length-append b.1 (backlog bs))

  -- Each record has its bytes in the files.
  pub records-Holds :
      (r o : ℕ) (gs : List Segment) (bs : List (Block R))
      → Holds k r o gs bs
      → records bs ≤ total_size gs
  unfolding records total_size
  records-Holds r o [] [] h = omega arith
  records-Holds r o [] (b ∷ bs) h = elim h [ ]
  records-Holds r o (g ∷ gs) [] h = elim h [ ]
  records-Holds r o (g ∷ gs) ((past, todo) ∷ bs) h = omega (
    arith,
    records-Holds r o gs bs h.1,
    ap length h.0.0,
    image_long k past todo,
    image_long k [] past,
  )
