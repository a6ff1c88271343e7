-- ===== src/Spool/Segments/Appends.antt =====
-- What `Append` does to well-formed files (internal/agent/spool/spool.go): the record waits behind
-- the others, and the oldest records that the bounds drop are counted.
use polarbeam.Base.{
  ℕ, suc, ◌+◌, ◌-◌, ◌^◌, ◌≤◌, ◌<◌, ◌≡◌, refl, sym, ap, ◌∙◌, inl, inr, true, false, ◌&&◌, ◌||◌, List,
  [], ◌∷◌, ◌++◌, length, length-append, arith, ltb, leb, Bool-cases, subst,
}
use mathlib.Core.List.{append_assoc, append-nil}
use polarbeam.Spool.Frames.{max_record_bytes, record_overhead}
use polarbeam.Spool.Segments.{
  Spool, Consumed, seg_max_bytes, minute, rotate, rotate_full, ensure_active, open_active,
  write_record,
}
use polarbeam.Spool.Segments.Blocks.{Codec, Block, backlog, IsSound}
use polarbeam.Spool.Segments.Opening.{open_active-IsSound}
use polarbeam.Spool.Segments.Writing.{add_last, EndsAt-block, write_record-IsSound}
use polarbeam.Spool.Segments.Marks.{Marks, Marks-Grown}
use polarbeam.Spool.Segments.Drops.{records}

pub within :
    (n : ℕ)
    → n + record_overhead ≤ max_record_bytes
    → ltb (max_record_bytes - record_overhead) n ≡ false
within n h = ground arith

pub seq_rotate :
    (now : ℕ) (p : List ℕ) (s : Spool)
    → suc s.next_seq < 2 ^ 64
    → suc (rotate_full now p s).next_seq < 2 ^ 64
unfolding rotate_full
seq_rotate now p s h = ground arith

module _ {ℓ} {R : Type ℓ} (k : Codec R) where
  -- A sound state in which `more` waits behind the rest and no counter has moved.
  pub record Goes (s : Spool) (bs : List (Block R)) (more : List R) (s' : Spool)
      (bs' : List (Block R)) : Type ℓ where
    pub sound : IsSound k s' bs'
    pub waiting : backlog bs' ≡ backlog bs ++ more
    pub marks : (cs : List Consumed) (out : List R) → Marks k s bs cs out → Marks k s' bs' cs out
    pub counters : s'.counters ≡ s.counters
    pub all : records bs' ≡ records bs + length more

  pub Goes-trans :
      (s t u : Spool) (bs bs' bs'' : List (Block R)) (more more' : List R)
      → Goes s bs more t bs'
      → Goes t bs' more' u bs''
      → Goes s bs (more ++ more') u bs''
  Goes-trans s t u bs bs' bs'' more more' a b = record {
    sound = b.sound;
    waiting =
        b.waiting
        ∙ ap (λ (l : List R). l ++ more') a.waiting
        ∙ append_assoc (backlog bs) more more';
    marks = λ cs out m. b.marks cs out (a.marks cs out m);
    counters = b.counters ∙ a.counters;
    all = omega (arith, a.all, b.all, length-append more more');
  }

  Goes-none : (s : Spool) (bs : List (Block R)) → IsSound k s bs → Goes s bs [] s bs
  Goes-none s bs h = record {
    sound = h;
    waiting = sym (append-nil (backlog bs));
    marks = λ cs out m. m;
    counters = refl;
    all = omega arith;
  }

  Goes-rotate : (s : Spool) (bs : List (Block R)) → IsSound k s bs → Goes s bs [] (rotate s) bs
  Goes-rotate s bs h = record {
    sound = record {
      holds = h.holds;
      ascends = h.ascends;
      newest = h.newest;
      read = h.read;
      opened = λ e. ground (arith, e);
    };
    waiting = sym (append-nil (backlog bs));
    marks = λ cs out m. record {
      stale = m.stale;
      live = m.live;
      parts = m.parts;
      below = m.below;
      takes = m.takes;
    };
    counters = refl;
    all = omega arith;
  }

  pub Goes-rotate_full :
      (now : ℕ) (p : List ℕ) (s : Spool) (bs : List (Block R))
      → IsSound k s bs
      → Goes s bs [] (rotate_full now p s) bs
  unfolding rotate_full
  Goes-rotate_full now p s bs h =
      elim (Bool-cases (
        s.active
        && (ltb seg_max_bytes (s.active_size + length p + record_overhead)
            || leb (s.active_opened_at + minute) now))) [
              | inl t ↦ simp t (Goes-rotate s bs h)
              | inr t ↦ simp t (Goes-none s bs h)
            ]

  records_open : (bs : List (Block R)) → records (bs ++ ([], []) ∷ []) ≡ records bs
  unfolding records
  records_open [] = omega arith
  records_open (b ∷ bs) = omega (arith, records_open bs)

  records_add :
      (x : R) (b : Block R) (bs : List (Block R))
      → records (add_last k x (b ∷ bs)) ≡ records (b ∷ bs) + 1
  unfolding records
  records_add x b [] = omega (arith, length-append b.1 (x ∷ []))
  records_add x b (c ∷ bs) = omega (arith, records_add x c bs)

  -- A state with an open segment.
  pub record Opens (s : Spool) (bs : List (Block R)) (s' : Spool) : Type ℓ where
    pub blocks : List (Block R)
    pub goes : Goes s bs [] s' blocks
    pub active : s'.active ≡ true

  Opens-new :
      (now : ℕ) (s : Spool) (bs : List (Block R))
      → suc s.next_seq < 2 ^ 64
      → IsSound k s bs
      → Opens s bs (open_active now s)
  unfolding open_active
  Opens-new now s bs room h =
      let g = open_active-IsSound k now s bs room h in
      record {
        blocks = bs ++ ([], []) ∷ [];
        goes = record {
          sound = g.0;
          waiting = g.1;
          marks = λ cs out m. Marks-Grown k s (open_active now s) bs _ [] cs out g refl m;
          counters = refl;
          all = omega (arith, records_open bs);
        };
        active = refl;
      }

  pub ensure_active-Opens :
      (now : ℕ) (s : Spool) (bs : List (Block R))
      → suc s.next_seq < 2 ^ 64
      → IsSound k s bs
      → Opens s bs (ensure_active now s)
  unfolding ensure_active
  ensure_active-Opens now s bs room h = elim (Bool-cases s.active) [
    | inl t ↦ simp t (record { blocks = bs; goes = Goes-none s bs h; active = t })
    | inr t ↦ simp t (Opens-new now s bs room h)
  ]

  pub written-Goes :
      (now : ℕ) (x : R) (s : Spool) (bs : List (Block R))
      → length (k.marshal x) ≤ max_record_bytes
      → s.active ≡ true
      → IsSound k s bs
      → Goes s bs (x ∷ []) (write_record k.crc32 now (k.marshal x) s) (add_last k x bs)
  unfolding write_record
  written-Goes now x s bs l a h =
      let g = write_record-IsSound k now x s bs l a h in
      let (b, rest, e) =
        EndsAt-block k s.read_seq s.read_offset s.active_seq s.files bs (h.opened a) h.holds in
      record {
        sound = g.0;
        waiting = g.1;
        marks = λ cs out m.
            Marks-Grown k s (write_record k.crc32 now (k.marshal x) s) bs _ (x ∷ []) cs out g refl
              m;
        counters = refl;
        all =
            subst (λ (l : List (Block R)). records (add_last k x l) ≡ records l + 1) (sym e)
              (records_add x b rest);
      }
