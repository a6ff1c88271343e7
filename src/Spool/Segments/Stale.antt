-- ===== src/Spool/Segments/Stale.antt =====
-- Marks of files that are gone when their ack comes (internal/agent/spool/spool.go): dropped by the
-- bounds between `Next` and the ack.
use polarbeam.Base.{
  ℕ, suc, ◌≤◌, ◌<◌, ◌≡◌, refl, ap, ◌∙◌, inl, inr, List, [], ◌∷◌, ◌++◌, arith, ◌==◌, if◌then◌else◌,
  Bool-cases,
}
use polarbeam.Spool.Segments.{Spool, Consumed, ack_file}
use polarbeam.Spool.Files.{Segment, remove_file}
use polarbeam.Spool.Segments.Blocks.{Ascends, Ascends-lower}
use polarbeam.Spool.Segments.Acks.{every}
use polarbeam.Spool.Segments.Opening.{Stale}

pub Stale-lower :
    (lo lo' next : ℕ) (gs : List Segment) (cs : List Consumed)
    → lo' ≤ lo
    → Stale lo next gs cs
    → Stale lo' next gs cs
Stale-lower lo lo' next gs [] l t = tt
Stale-lower lo lo' next gs (c ∷ cs) l t = (omega (arith, t.0), t.1, t.2, t.3)

-- Behind the first file the marks of gone files stay what they are.
pub Stale-later :
    (lo next : ℕ) (g : Segment) (gs : List Segment) (cs : List Consumed)
    → Stale lo next (g ∷ gs) cs
    → Stale lo next gs cs
Stale-later lo next g gs [] t = tt
Stale-later lo next g gs (c ∷ cs) t = (
  t.0,
  t.1,
  Ascends-lower (suc g.seq) (suc c.seq) next gs (omega (arith, t.2.0)) t.2.2,
  Stale-later c.seq next g gs cs t.3,
)

-- The mark of the first file is one more of them when that file is dropped.
pub Stale-add :
    (lo next : ℕ) (g : Segment) (gs : List Segment) (cs : List Consumed) (d : Consumed)
    → lo ≤ g.seq
    → g.seq < next
    → Ascends (suc g.seq) next gs
    → d.seq ≡ g.seq
    → Stale lo next (g ∷ gs) cs
    → Stale lo next gs (cs ++ d ∷ [])
Stale-add lo next g gs [] d l n a e t =
    (omega arith, omega arith, Ascends-lower (suc g.seq) (suc d.seq) next gs (omega arith) a, tt)
Stale-add lo next g gs (c ∷ cs) d l n a e t = (
  t.0,
  t.1,
  Ascends-lower (suc g.seq) (suc c.seq) next gs (omega (arith, t.2.0)) a,
  Stale-add c.seq next g gs cs d (omega (arith, t.2.0)) n a e t.3,
)

remove_absent :
    (lo next seq : ℕ) (gs : List Segment) → seq < lo → Ascends lo next gs → remove_file seq gs ≡ gs
unfolding remove_file
remove_absent lo next seq [] l a = refl
remove_absent lo next seq (g ∷ gs) l a =
    ap (λ (rest : List Segment). if g.seq == seq then gs else g ∷ rest)
      (remove_absent (suc g.seq) next seq gs (omega (arith, a.0)) a.2)
    ∙ ground (arith, a.0)

abbrev pub reading : ℕ → ℕ → Spool → Spool
reading seq offset s = record s { read_seq = seq; read_offset = offset }

-- The ack of a file that is gone moves at most the read position, and not above that file.
pub stale_file :
    (c : Consumed) (s : Spool)
    → s.read_seq ≤ c.seq
    → Ascends (suc c.seq) s.next_seq s.files
    → (r : ℕ) × (o : ℕ) × (ack_file every c s ≡ reading r o s) × (r ≤ c.seq)
unfolding ack_file
stale_file c s l a = elim (Bool-cases c.complete) [
  | inl t ↦ (
    if s.read_seq == c.seq then 0 else s.read_seq,
    if s.read_seq == c.seq then 0 else s.read_offset,
    simp t (
        ap
          (λ (files : List Segment). record s {
            files = files;
            read_seq = if s.read_seq == c.seq then 0 else s.read_seq;
            read_offset = if s.read_seq == c.seq then 0 else s.read_offset;
          })
          (remove_absent (suc c.seq) s.next_seq c.seq s.files (omega arith) a)),
    ground arith,
  )
  | inr t ↦ (c.seq, c.end_, simp t refl, omega arith)
]
