-- ===== src/Spool/Segments/Opening.antt =====
-- Opening a new active segment on well-formed files (internal/agent/spool/spool.go): a file behind
-- the others, in which nothing waits.
use polarbeam.Base.{
  ℕ, suc, ◌^◌, ◌≤◌, ◌<◌, ◌≡◌, refl, sym, ap, ◌∙◌, inl, inr, List, [], ◌∷◌, ◌++◌, arith, ltb, ◌==◌,
  max, if◌then◌else◌, subst,
}
use mathlib.Core.List.{append-nil}
use polarbeam.Spool.Frames.Replay.{frames}
use polarbeam.Spool.Segments.{Spool, Consumed, open_active}
use polarbeam.Spool.Files.{Segment, create_file}
use polarbeam.Spool.Segments.Blocks.{Codec, Ascends, EndsAt, Block, Holds, backlog, IsSound}
use polarbeam.Spool.Counters.{add64}
use polarbeam.Spool.Segments.Acks.{start_elsewhere}
use polarbeam.Spool.Segments.Reading.{Takes}

abbrev empty_file : ℕ → ℕ → Segment
empty_file seq now = record { seq = seq; bytes = []; mod_time = now }

-- The number is above the others, so that the file comes last.
create_file-Ascends :
    (lo next now : ℕ) (gs : List Segment)
    → Ascends lo next gs
    → create_file next now gs ≡ gs ++ empty_file next now ∷ []
unfolding create_file
create_file-Ascends lo next now [] a = refl
create_file-Ascends lo next now (g ∷ gs) a =
    ap
      (λ (l : List Segment).
        if g.seq == next
        then g ∷ gs
        else if ltb next g.seq
        then empty_file next now ∷ g ∷ gs
        else g ∷ l)
      (create_file-Ascends (suc g.seq) next now gs a.2)
    ∙ ground (arith, a.1)

Ascends-append :
    (lo next now : ℕ) (gs : List Segment)
    → lo ≤ next
    → Ascends lo next gs
    → Ascends lo (suc next) (gs ++ empty_file next now ∷ [])
Ascends-append lo next now [] l a = (l, omega arith, tt)
Ascends-append lo next now (g ∷ gs) l a =
    (a.0, omega (arith, a.1), Ascends-append (suc g.seq) next now gs (omega (arith, a.1)) a.2)

EndsAt-append : (seq now : ℕ) (gs : List Segment) → EndsAt seq (gs ++ empty_file seq now ∷ [])
EndsAt-append seq now [] = refl
EndsAt-append seq now (g ∷ []) = refl
EndsAt-append seq now (g ∷ h ∷ gs) = EndsAt-append seq now (h ∷ gs)

-- Marks of files that are gone: their numbers ascend from `lo`, and lie below the files' numbers.
abbrev pub Stale : ℕ → ℕ → List Segment → List Consumed → Type 0
Stale lo next gs [] = Unit
Stale lo next gs (c ∷ cs) =
    (lo ≤ c.seq) × (c.seq < next) × Ascends (suc c.seq) next gs × Stale c.seq next gs cs

Stale-append :
    (lo next now : ℕ) (gs : List Segment) (cs : List Consumed)
    → Stale lo next gs cs
    → Stale lo (suc next) (gs ++ empty_file next now ∷ []) cs
Stale-append lo next now gs [] t = tt
Stale-append lo next now gs (c ∷ cs) t = (
  t.0,
  omega (arith, t.1),
  Ascends-append (suc c.seq) next now gs (omega (arith, t.1)) t.2,
  Stale-append c.seq next now gs cs t.3,
)

module _ {ℓ} {R : Type ℓ} (k : Codec R) where
  Holds-append :
      (r o seq now : ℕ) (gs : List Segment) (bs : List (Block R))
      → r < seq
      → Holds k r o gs bs
      → Holds k r o (gs ++ empty_file seq now ∷ []) (bs ++ ([], []) ∷ [])
  unfolding frames
  Holds-append r o seq now [] [] l h = ((refl, start_elsewhere r o seq l, tt), tt)
  Holds-append r o seq now [] (b ∷ bs) l h = elim h [ ]
  Holds-append r o seq now (g ∷ gs) [] l h = elim h [ ]
  Holds-append r o seq now (g ∷ gs) (b ∷ bs) l h = (h.0, Holds-append r o seq now gs bs l h.1)

  backlog-append : (bs : List (Block R)) → backlog (bs ++ ([], []) ∷ []) ≡ backlog bs
  unfolding backlog
  backlog-append [] = refl
  backlog-append (b ∷ bs) = ap (λ (l : List R). b.1 ++ l) (backlog-append bs)

  -- Marks stay right when a file is opened behind theirs.
  Takes-append :
      (cs : List Consumed) (a lo seq now : ℕ) (out : List R) (gs : List Segment)
      (bs : List (Block R))
      → Ascends lo seq gs
      → Takes k a cs out gs bs
      → Takes k seq cs out (gs ++ empty_file seq now ∷ []) (bs ++ ([], []) ∷ [])
  Takes-append [] a lo seq now out gs bs s t = t
  Takes-append (c ∷ cs) a lo seq now out [] bs s t = elim t.1 [ ]
  Takes-append (c ∷ cs) a lo seq now out (g ∷ gs) [] s t = elim t.1 [ ]
  Takes-append (c ∷ cs) a lo seq now out (g ∷ gs) (b ∷ bs) s (q, inl (later, (e, n, o), t)) =
      (q, inl (later, (e, omega (arith, s.1), o), Takes-append cs a _ seq now later gs bs s.2 t))
  Takes-append (c ∷ cs) a lo seq now out (g ∷ gs) (b ∷ bs) s (q, inr t) = (q, inr t)

  -- A sound state in which `more` waits behind the rest, and for which the marks `cs` are right.
  abbrev pub Grown : Spool → List (Block R) → List R → Spool → List (Block R) → Type ℓ
  Grown s bs more s' bs' =
      IsSound k s' bs'
      × (backlog bs' ≡ backlog bs ++ more)
      × ((cs : List Consumed) (out : List R)
          → Takes k s.active_seq cs out s.files bs
          → Takes k s'.active_seq cs out s'.files bs')
      × ((lo : ℕ) (cs : List Consumed)
          → Stale lo s.next_seq s.files cs
          → Stale lo s'.next_seq s'.files cs)

  pub open_active-IsSound :
      (now : ℕ) (s : Spool) (bs : List (Block R))
      → suc s.next_seq < 2 ^ 64
      → IsSound k s bs
      → Grown s bs [] (open_active now s) (bs ++ ([], []) ∷ [])
  unfolding open_active
  open_active-IsSound now s bs room h =
      let created = create_file-Ascends (max 1 s.read_seq) s.next_seq now s.files h.ascends in
      let next : add64 s.next_seq 1 ≡ suc s.next_seq = omega (arith, room) in
      (
        record {
          holds =
              subst (λ l. Holds k s.read_seq s.read_offset l (bs ++ ([], []) ∷ [])) (sym created)
                (Holds-append s.read_seq s.read_offset s.next_seq now s.files bs h.read h.holds);
          ascends =
              subst (λ (i : ℕ). Ascends (max 1 s.read_seq) i (create_file s.next_seq now s.files))
                (sym next)
                (subst (Ascends (max 1 s.read_seq) (suc s.next_seq)) (sym created) (
                  Ascends-append (max 1 s.read_seq) s.next_seq now s.files (omega (arith, h.read))
                    h.ascends));
          newest = inr (sym next);
          read = omega (arith, h.read, next);
          opened =
              λ a. subst (EndsAt s.next_seq) (sym created) (EndsAt-append s.next_seq now s.files);
        },
        backlog-append bs ∙ sym (append-nil (backlog bs)),
        λ cs out t.
            subst (λ l. Takes k s.next_seq cs out l (bs ++ ([], []) ∷ [])) (sym created)
              (Takes-append cs s.active_seq (max 1 s.read_seq) s.next_seq now out s.files bs
                h.ascends t),
        λ lo cs t.
            subst (λ (i : ℕ). Stale lo i (create_file s.next_seq now s.files) cs) (sym next)
              (subst (λ l. Stale lo (suc s.next_seq) l cs) (sym created)
                (Stale-append lo s.next_seq now s.files cs t)),
      )
