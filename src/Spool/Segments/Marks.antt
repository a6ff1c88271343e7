-- ===== src/Spool/Segments/Marks.antt =====
-- The marks of a batch that is on its way, while the spool goes on (internal/agent/spool/spool.go):
-- records are appended, and the bounds drop files, between `Next` and its ack.
use polarbeam.Base.{
  ℕ, suc, ◌≤◌, ◌<◌, ◌≡◌, refl, sym, ap, ◌∙◌, ◌⊎◌, inl, inr, List, [], ◌∷◌, ◌++◌, arith, ◌==◌, max,
  if◌then◌else◌, subst,
}
use mathlib.Core.List.{append_assoc, append-nil}
use polarbeam.Spool.Segments.{Spool, Consumed, ack_files, drop_oldest, record_drops}
use polarbeam.Spool.Files.{Segment}
use polarbeam.Spool.Segments.Blocks.{Codec, Ascends, Ascends-lower, Block, IsSound}
use polarbeam.Spool.Segments.Reading.{Takes}
use polarbeam.Spool.Segments.Acks.{every, Acked, ack_files-Takes, Holds-start}
use polarbeam.Spool.Segments.Opening.{Stale, Grown}
use polarbeam.Spool.Segments.Stale.{Stale-lower, Stale-later, Stale-add, reading, stale_file}

module _ {ℓ} {R : Type ℓ} (k : Codec R) where
  -- `out` are the results of the batch that still wait: marks of gone files come first.
  pub record Marks (s : Spool) (bs : List (Block R)) (cs : List Consumed) (out : List R)
      : Type ℓ where
    pub stale : List Consumed
    pub live : List Consumed
    pub parts : cs ≡ stale ++ live
    pub below : Stale s.read_seq s.next_seq s.files stale
    pub takes : Takes k s.active_seq live out s.files bs

  -- Nothing that is appended spoils the marks.
  pub Marks-Grown :
      (s s' : Spool) (bs bs' : List (Block R)) (more : List R) (cs : List Consumed) (out : List R)
      → Grown k s bs more s' bs'
      → s'.read_seq ≡ s.read_seq
      → Marks s bs cs out
      → Marks s' bs' cs out
  Marks-Grown s s' bs bs' more cs out g r m = record {
    stale = m.stale;
    live = m.live;
    parts = m.parts;
    below =
        subst (λ (i : ℕ). Stale i s'.next_seq s'.files m.stale) (sym r)
          (g.3 s.read_seq m.stale m.below);
    takes = g.2 m.live out m.takes;
  }

  reading-IsSound :
      (s : Spool) (bs : List (Block R)) (at r o : ℕ)
      → s.read_seq ≤ at
      → r ≤ at
      → at < s.next_seq
      → Ascends (suc at) s.next_seq s.files
      → IsSound k s bs
      → IsSound k (reading r o s) bs
  reading-IsSound s bs at r o l l' n a h = record {
    holds =
        Holds-start k s.read_seq s.read_offset r o (suc at) s.next_seq s.files bs a (omega arith)
          (omega arith) h.holds;
    ascends = Ascends-lower (suc at) (max 1 r) s.next_seq s.files (omega arith) a;
    newest = h.newest;
    read = omega arith;
    opened = h.opened;
  }

  Stale-files :
      (cs live : List Consumed) (s : Spool) (bs : List (Block R)) (out : List R)
      → IsSound k s bs
      → Stale s.read_seq s.next_seq s.files cs
      → Takes k s.active_seq live out s.files bs
      → Acked k bs out (ack_files every (cs ++ live) s)
  unfolding ack_files
  Stale-files [] live s bs out h t m = ack_files-Takes k live s s.files bs out refl h m
  Stale-files (c ∷ cs) live s bs out h t m =
      let (r, o, e, l) = stale_file c s t.0 t.2 in
      subst (λ (s' : Spool). Acked k bs out (ack_files every (cs ++ live) s')) (sym e)
        (Stale-files cs live (reading r o s) bs out (reading-IsSound s bs c.seq r o t.0 l t.1 t.2 h)
          (Stale-lower c.seq r s.next_seq s.files cs l t.3) m)

  -- The ack takes off the backlog what the batch still has there.
  pub ack_files-Marks :
      (s : Spool) (bs : List (Block R)) (cs : List Consumed) (out : List R)
      → IsSound k s bs
      → Marks s bs cs out
      → Acked k bs out (ack_files every cs s)
  ack_files-Marks s bs cs out h m =
      subst (λ (l : List Consumed). Acked k bs out (ack_files every l s)) (sym m.parts)
        (Stale-files m.stale m.live s bs out h m.below m.takes)

  -- The marks without the one that the first file may have.
  record Later (newest : ℕ) (g : Segment) (gs : List Segment) (bs : List (Block R))
      (live : List Consumed) (out : List R) : Type ℓ where
    first : List Consumed
    marks : List Consumed
    parts : live ≡ first ++ marks
    single : (first ≡ []) ⊎ ((d : Consumed) × (first ≡ d ∷ []) × (d.seq ≡ g.seq))
    lost : List R
    rest : List R
    split : out ≡ lost ++ rest
    takes : Takes k newest marks rest gs bs

  Takes-Later :
      (newest : ℕ) (g : Segment) (gs : List Segment) (b : Block R) (bs : List (Block R))
      (live : List Consumed) (out : List R)
      → Takes k newest live out (g ∷ gs) (b ∷ bs)
      → Later newest g gs bs live out
  Takes-Later newest g gs b bs [] out t = record {
    first = [];
    marks = [];
    parts = refl;
    single = inl refl;
    lost = [];
    rest = [];
    split = t;
    takes = refl;
  }
  Takes-Later newest g gs b bs (c ∷ cs) out (q, inl (later, w, t)) = record {
    first = c ∷ [];
    marks = cs;
    parts = refl;
    single = inr (c, refl, q);
    lost = b.1;
    rest = later;
    split = w.2;
    takes = t;
  }
  Takes-Later newest g gs b bs (c ∷ cs) out (q, inr (left, e, z, d, i)) = record {
    first = c ∷ [];
    marks = [];
    parts = ap (λ (l : List Consumed). c ∷ l) z;
    single = inr (c, refl, q);
    lost = out;
    rest = [];
    split = sym (append-nil out);
    takes = refl;
  }

  Stale-first :
      (lo next : ℕ) (g : Segment) (gs : List Segment) (cs first : List Consumed)
      → lo ≤ g.seq
      → g.seq < next
      → Ascends (suc g.seq) next gs
      → (first ≡ []) ⊎ ((d : Consumed) × (first ≡ d ∷ []) × (d.seq ≡ g.seq))
      → Stale lo next (g ∷ gs) cs
      → Stale lo next gs (cs ++ first)
  Stale-first lo next g gs cs first l n a (inl e) t =
      subst (Stale lo next gs) (sym (append-nil cs) ∙ ap (λ (l : List Consumed). cs ++ l) (sym e))
        (Stale-later lo next g gs cs t)
  Stale-first lo next g gs cs first l n a (inr (d, e, q)) t =
      subst (Stale lo next gs) (ap (λ (l : List Consumed). cs ++ l) (sym e))
        (Stale-add lo next g gs cs d l n a q t)

  -- When the oldest file is dropped, its results of the batch no longer wait.
  pub Marks-drop_oldest :
      (s : Spool) (g : Segment) (gs : List Segment) (b : Block R) (bs : List (Block R))
      (cs : List Consumed) (out : List R)
      → s.files ≡ g ∷ gs
      → IsSound k s (b ∷ bs)
      → Marks s (b ∷ bs) cs out
      → (lost : List R) × (later : List R) × (out ≡ lost ++ later)
        × Marks (drop_oldest g gs s) bs cs later
  unfolding drop_oldest record_drops
  Marks-drop_oldest s g gs b bs cs out f h m =
      let ascends = subst (Ascends (max 1 s.read_seq) s.next_seq) f h.ascends in
      let p =
        Takes-Later s.active_seq g gs b bs m.live out
          (subst (λ l. Takes k s.active_seq m.live out l (b ∷ bs)) f m.takes) in
      let below = subst (λ l. Stale s.read_seq s.next_seq l m.stale) f m.below in
      (
        p.lost,
        p.rest,
        p.split,
        record {
          stale = m.stale ++ p.first;
          live = p.marks;
          parts =
              m.parts
              ∙ ap (λ (l : List Consumed). m.stale ++ l) p.parts
              ∙ sym (append_assoc m.stale p.first p.marks);
          below =
              Stale-lower s.read_seq (if s.read_seq == g.seq then 0 else s.read_seq) s.next_seq gs
                (m.stale ++ p.first) (ground arith)
                (Stale-first s.read_seq s.next_seq g gs m.stale p.first (omega (arith, ascends.0))
                  ascends.1 ascends.2 p.single below);
          takes = p.takes;
        },
      )
