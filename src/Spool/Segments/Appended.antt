-- ===== src/Spool/Segments/Appended.antt =====
-- What a whole `Append` does to well-formed files (internal/agent/spool/spool.go): the record waits
-- behind the others, and the oldest records that the bounds drop are counted.
use polarbeam.Base.{
  ℕ, suc, ◌+◌, ◌^◌, ◌≤◌, ◌<◌, ◌≡◌, sym, ap, ◌∙◌, inl, inr, Bool, ◌||◌, some, List, [], ◌∷◌, ◌++◌,
  length, arith, ltb, leb, Bool-cases, if◌then◌else◌, subst,
}
use polarbeam.Spool.Counters.{Counters}
use polarbeam.Spool.Frames.{max_record_bytes, record_overhead}
use polarbeam.Spool.Segments.{
  Spool, Consumed, rotate_full, ensure_active, write_record, check_bounds, bounds_check_every,
  append, wake, drop_unspoolable,
}
use polarbeam.Spool.Segments.Blocks.{Codec, Block, backlog, IsSound}
use polarbeam.Spool.Segments.Marks.{Marks}
use polarbeam.Spool.Segments.Drops.{
  records, CountsOn, Pruned, Pruned-same, enforce_bounds-Pruned, backlog-append,
}
use polarbeam.Spool.Segments.Appends.{
  within, seq_rotate, Goes-trans, Goes-rotate_full, ensure_active-Opens, written-Goes, Goes,
}

module _ {ℓ} {R : Type ℓ} (k : Codec R) where
  -- The record waits in the right place, the records that are gone were the oldest, each file's
  -- records are counted, and marks of a batch on its way are still right.
  pub record Appended (s : Spool) (bs : List (Block R)) (x : R) (s' : Spool) : Type ℓ where
    pub gone : List (Block R)
    pub kept : List (Block R)
    pub parts : backlog bs ++ x ∷ [] ≡ backlog gone ++ backlog kept
    pub sound : IsSound k s' kept
    pub counts : CountsOn (records gone) s s'
    pub marks :
        (cs : List Consumed) (out : List R)
        → Marks k s bs cs out
        → (lost : List R) × (later : List R) × (out ≡ lost ++ later) × Marks k s' kept cs later

  Appended-Pruned :
      (s t u : Spool) (bs bs' : List (Block R)) (x : R)
      → Goes k s bs (x ∷ []) t bs'
      → Pruned k t bs' u
      → Appended s bs x (wake u)
  Appended-Pruned s t u bs bs' x g p = record {
    gone = p.gone;
    kept = p.kept;
    parts = sym g.waiting ∙ ap backlog p.parts ∙ backlog-append k p.gone p.kept;
    sound = record {
      holds = p.sound.holds;
      ascends = p.sound.ascends;
      newest = p.sound.newest;
      read = p.sound.read;
      opened = p.sound.opened;
    };
    counts = (
      p.counts.0 ∙ ap (λ (c : Counters). c.total + records p.gone) g.counters,
      p.counts.1 ∙ ap (λ (c : Counters). c.unacked + records p.gone) g.counters,
    );
    marks = λ cs out m.
        let (lost, later, e, m') = p.marks cs out (g.marks cs out m) in
        (
          lost,
          later,
          e,
          record {
            stale = m'.stale;
            live = m'.live;
            parts = m'.parts;
            below = m'.below;
            takes = m'.takes;
          },
        );
  }

  check_bounds-Pruned :
      (now : ℕ) (s : Spool) (bs : List (Block R))
      → IsSound k s bs
      → s.counters.total + records bs < 2 ^ 64
      → s.counters.unacked ≤ s.counters.total
      → Pruned k s bs (check_bounds now s)
  unfolding check_bounds
  check_bounds-Pruned now s bs h l u =
      elim (Bool-cases
        (ltb s.max_bytes s.total_bytes || leb (s.last_bounds_check + bounds_check_every s) now)) [
          | inl t ↦ simp t (enforce_bounds-Pruned k now s bs h l u)
          | inr t ↦ simp t (Pruned-same k s bs h)
        ]

  -- A record whose encoding is within the limit is appended.
  pub append-Appended :
      (now : ℕ) (x : R) (s : Spool) (bs : List (Block R))
      → IsSound k s bs
      → length (k.marshal x) + record_overhead ≤ max_record_bytes
      → suc s.next_seq < 2 ^ 64
      → s.counters.total + (records bs + 1) < 2 ^ 64
      → s.counters.unacked ≤ s.counters.total
      → Appended s bs x (append k.crc32 now (some (k.marshal x)) s)
  unfolding append
  append-Appended now x s bs h l room c u =
      let p = k.marshal x in
      let r = rotate_full now p s in
      let g = Goes-rotate_full k now p s bs h in
      let o = ensure_active-Opens k now r bs (seq_rotate now p s room) g.sound in
      let w =
        written-Goes k now x (ensure_active now r) o.blocks (omega arith) o.active o.goes.sound in
      let goes = Goes-trans k _ _ _ _ _ _ _ _ (Goes-trans k _ _ _ _ _ _ _ _ g o.goes) w in
      let total = ap (λ (c : Counters). c.total) goes.counters in
      let unacked = ap (λ (c : Counters). c.unacked) goes.counters in
      subst
        (λ (b : Bool). Appended s bs x (
          if b
          then drop_unspoolable s
          else wake (check_bounds now (write_record k.crc32 now p (ensure_active now r)))))
        (sym (within (length p) l))
        (Appended-Pruned s _ _ bs _ x goes (
          check_bounds-Pruned now _ _ goes.sound (omega (arith, total, goes.all))
            (omega (arith, total, unacked))))
