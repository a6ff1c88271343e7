-- ===== src/Spool/Segments/Recovery.antt =====
-- What `Open` recovers after a crash (internal/agent/spool/spool.go): all whole records, less those of
-- the files that are outside the bounds, which it drops and counts.
use polarbeam.Base.{
  ℕ, zero, suc, ◌+◌, ◌^◌, ◌≤◌, ◌<◌, ◌≡◌, refl, sym, ap, ap₂, ◌∙◌, inl, inr, List, [], ◌∷◌, ◌++◌,
  length, length-append, take, take-append_self, done, arith, ltb, Bool-cases, subst,
}
use polarbeam.Spool.Counters.{Disk, Counters, open_counters}
use polarbeam.Spool.Counters.Recovery.{Fits, open_counters-IsBalanced}
use polarbeam.Spool.Segments.{Spool, enforce_bounds}
use polarbeam.Spool.Segments.Startup.{
  scan_files, recovered, wake_pending, open_recovered, open_spool,
}
use polarbeam.Spool.Files.{Segment, total_size}
use polarbeam.Spool.Segments.Bounds.{Young, IsChecked, enforce_bounds-IsChecked}
use polarbeam.Spool.Segments.Overdue.{AllOver, Trimmed, enforce_bounds-Trimmed}
use polarbeam.Spool.Segments.Blocks.{
  Codec, Ascends, Block, Holds, backlog, IsSound, queue, queue-IsSound,
}
use polarbeam.Spool.Segments.Drops.{
  records, Pruned, enforce_bounds-Pruned, backlog-append, backlog_short,
}
use polarbeam.Spool.Segments.Reopening.{
  fresh, recovered-IsSound, backlog-fresh, records-fresh, IsTorn, every_record,
}

module _ {ℓ} {R : Type ℓ} (k : Codec R) where
  -- What the opened spool has of the files that the scan left: `dropped` are the files that are gone,
  -- each of which was outside the bounds, `lost` are their records, and the files that are left
  -- are within the bounds.
  pub record Recovers (now max_bytes max_age : ℕ) (files : List Segment) (c : Counters)
      (rss : List (List R)) (s : Spool) : Type ℓ where
    pub blocks : List (Block R)
    pub sound : IsSound k s blocks
    pub dropped : List Segment
    pub kept_files : files ≡ dropped ++ s.files
    pub over : AllOver now max_bytes max_age dropped s.files
    pub size : total_size s.files ≤ max_bytes
    pub age : Young now max_age s.files
    pub lost : List R
    pub lost_of : lost ≡ every_record k (take (length dropped) rss)
    pub parts : every_record k rss ≡ lost ++ queue k s
    pub total : s.counters.total ≡ c.total + length lost
    pub unacked : s.counters.unacked ≡ c.unacked + length lost

  wake_pending-Recovers :
      (now max_bytes max_age : ℕ) (files : List Segment) (c : Counters) (rss : List (List R))
      (s : Spool)
      → Recovers now max_bytes max_age files c rss s
      → Recovers now max_bytes max_age files c rss (wake_pending s)
  unfolding queue
  wake_pending-Recovers now max_bytes max_age files c rss s r =
      elim (Bool-cases (ltb 0 s.pending)) [
        | inl t ↦ simp t (record {
          blocks = r.blocks;
          sound = record {
            holds = r.sound.holds;
            ascends = r.sound.ascends;
            newest = r.sound.newest;
            read = r.sound.read;
            opened = r.sound.opened;
          };
          dropped = r.dropped;
          kept_files = r.kept_files;
          over = r.over;
          size = r.size;
          age = r.age;
          lost = r.lost;
          lost_of = r.lost_of;
          parts = r.parts;
          total = r.total;
          unacked = r.unacked;
        })
        | inr t ↦ simp t r
      ]

  records-append : (xs ys : List (Block R)) → records (xs ++ ys) ≡ records xs + records ys
  unfolding records
  records-append [] ys = omega arith
  records-append (b ∷ xs) ys = omega (arith, records-append xs ys)

  length-Holds :
      (r o : ℕ) (gs : List Segment) (bs : List (Block R))
      → Holds k r o gs bs
      → length gs ≡ length bs
  length-Holds r o [] [] h = refl
  length-Holds r o [] (b ∷ bs) h = elim h [ ]
  length-Holds r o (g ∷ gs) [] h = elim h [ ]
  length-Holds r o (g ∷ gs) (b ∷ bs) h = ap suc (length-Holds r o gs bs h.1)

  take-fresh : (n : ℕ) (rss : List (List R)) → take n (fresh k rss) ≡ fresh k (take n rss)
  take-fresh zero rss = refl
  take-fresh (suc n) [] = refl
  take-fresh (suc n) (rs ∷ rss) = ap (λ (l : List (Block R)). ([], rs) ∷ l) (take-fresh n rss)

  -- The blocks that are gone are the records of the first files, as many as were dropped.
  gone_lem :
      (n : ℕ) (rss : List (List R)) (gone kept : List (Block R))
      → fresh k rss ≡ gone ++ kept
      → length gone ≡ n
      → backlog gone ≡ every_record k (take n rss)
  gone_lem n rss gone kept e l =
      let first : gone ≡ take n (fresh k rss) =
        sym (take-append_self gone kept) ∙ ap₂ take l (sym e) in
      ap backlog (first ∙ take-fresh n rss) ∙ backlog-fresh k (take n rss)

  -- One file is dropped for each block that is gone.
  length-gone :
      (s s' : Spool) (bs gone kept : List (Block R)) (dropped : List Segment)
      → IsSound k s bs
      → bs ≡ gone ++ kept
      → IsSound k s' kept
      → s.files ≡ dropped ++ s'.files
      → length gone ≡ length dropped
  length-gone s s' bs gone kept dropped h e h' f = omega (
    arith,
    length-Holds s.read_seq s.read_offset s.files bs h.holds,
    length-Holds s'.read_seq s'.read_offset s'.files kept h'.holds,
    ap length e,
    length-append gone kept,
    ap length f,
    length-append dropped s'.files,
  )

  Pruned-Recovers :
      (now : ℕ) (c : Counters) (rss : List (List R)) (s s' : Spool)
      → s.counters ≡ c
      → IsSound k s (fresh k rss)
      → Pruned k s (fresh k rss) s'
      → Trimmed now s.files s s'
      → IsChecked now s'
      → Recovers now s.max_bytes s.max_age s.files c rss s'
  Pruned-Recovers now c rss s s' e h p t within =
      let parts : every_record k rss ≡ backlog p.gone ++ backlog p.kept =
        sym (backlog-fresh k rss) ∙ ap backlog p.parts ∙ backlog-append k p.gone p.kept in
      let all : records p.gone ≡ length (backlog p.gone) = omega (
        arith,
        records-fresh k rss,
        ap records p.parts,
        records-append p.gone p.kept,
        ap length parts,
        length-append (backlog p.gone) (backlog p.kept),
        backlog_short k p.gone,
        backlog_short k p.kept,
      ) in
      record {
        blocks = p.kept;
        sound = p.sound;
        dropped = t.dropped;
        kept_files = t.parts;
        over = t.over;
        size = omega (arith, within.size, t.same_bytes);
        age = subst (λ (a : ℕ). Young now a s'.files) t.same_age within.age;
        lost = backlog p.gone;
        lost_of =
            gone_lem (length t.dropped) rss p.gone p.kept p.parts
              (length-gone s s' (fresh k rss) p.gone p.kept t.dropped h p.parts p.sound t.parts);
        parts =
            parts
            ∙ ap (λ (l : List R). backlog p.gone ++ l) (sym (queue-IsSound k s' p.kept p.sound));
        total = omega (arith, p.counts.0, ap (λ (c : Counters). c.total) e, all);
        unacked = omega (arith, p.counts.1, ap (λ (c : Counters). c.unacked) e, all);
      }

  -- After a crash that left a torn record at the end of any segment, `Open` returns a spool whose
  -- queue is all the whole records of the files, in order, those acknowledged before the crash too,
  -- less the records of the oldest files, those that were dropped. Each dropped file, as the scan of
  -- the records left it, was outside the bounds when the ones before it were gone (together with the
  -- files after it, it was larger than `max_bytes`, or it was older than `max_age`); the files that
  -- are left are within `max_bytes`, and the oldest of them within `max_age`. Each lost record is
  -- counted once, on top of what the sidecars had, which hold uint64 numbers where they are readable,
  -- and the count does not overflow.
  pub open_spool-Recovers :
      (now max_bytes max_age last : ℕ) (gs : List Segment) (disk : Disk) (rss : List (List R))
      (c : Counters) (d : Disk)
      → Ascends 1 last gs
      → last < 2 ^ 64
      → IsTorn k gs rss
      → Fits disk
      → open_counters disk ≡ done (c, d)
      → c.total + length (every_record k rss) < 2 ^ 64
      → (s : Spool) × (open_spool k.crc32 now max_bytes max_age gs disk ≡ done s)
        × Recovers now max_bytes max_age (scan_files k.crc32 now gs 0 1).0 c rss s
  unfolding open_spool
  open_spool-Recovers now max_bytes max_age last gs disk rss c d a l t f e room =
      let s = recovered max_bytes max_age (c, d) (scan_files k.crc32 now gs 0 1) in
      let balanced = open_counters-IsBalanced disk f e in
      let sound = recovered-IsSound k now max_bytes max_age last (c, d) gs rss a l t in
      (
        wake_pending (enforce_bounds now s),
        ap (open_recovered k.crc32 now max_bytes max_age gs) e,
        wake_pending-Recovers now max_bytes max_age s.files c rss (enforce_bounds now s) (
            Pruned-Recovers now c rss s (enforce_bounds now s) refl sound
              (enforce_bounds-Pruned k now s (fresh k rss) sound
                (omega (arith, records-fresh k rss, room)) (omega (arith, balanced.sum)))
              (enforce_bounds-Trimmed now s) (enforce_bounds-IsChecked now s)),
      )
