-- ===== src/Spool/Segments/Reading.antt =====
-- What `Next` gives on well-formed files (internal/agent/spool/spool.go): the oldest records, and
-- marks from which the ack removes them.
use polarbeam.Base.{
  ℕ, suc, ◌≤◌, ◌≡◌, ◌≢◌, ap, ◌⊎◌, inl, inr, Bool, true, false, not, ◌&&◌, List, [], ◌∷◌, ◌++◌,
  length, arith, leb, ◌==◌,
}
use polarbeam.Spool.Segments.{Spool, Consumed, taken, next}
use polarbeam.Spool.Files.{Segment, size}
use polarbeam.Spool.Segments.Blocks.{Codec, Ascends, image, Block}

-- Only the last file can be the one that is written.
abbrev pub Newest : ℕ → List Segment → Type 0
Newest newest [] = Unit
Newest newest (g ∷ []) = Unit
Newest newest (g ∷ h ∷ gs) = (g.seq ≢ newest) × Newest newest (h ∷ gs)

pub Newest-later :
    (newest : ℕ) (g : Segment) (gs : List Segment) → Newest newest (g ∷ gs) → Newest newest gs
Newest-later newest g [] n = tt
Newest-later newest g (h ∷ gs) n = n.1

-- The active segment is the one that was opened last.
pub Ascends-Newest :
    (lo next newest : ℕ) (gs : List Segment)
    → 1 ≤ lo
    → (newest ≡ 0) ⊎ (suc newest ≡ next)
    → Ascends lo next gs
    → Newest newest gs
Ascends-Newest lo next newest [] l e a = tt
Ascends-Newest lo next newest (g ∷ []) l e a = tt
Ascends-Newest lo next newest (g ∷ h ∷ gs) l (inl e) a =
    (omega (arith, a.0), Ascends-Newest (suc g.seq) next newest (h ∷ gs) (omega arith) (inl e) a.2)
Ascends-Newest lo next newest (g ∷ h ∷ gs) l (inr e) a = (
  omega (arith, a.2.0, a.2.1),
  Ascends-Newest (suc g.seq) next newest (h ∷ gs) (omega arith) (inr e) a.2,
)

-- A file of which everything was taken, and that is sealed, is to be removed.
pub taken_whole {ℓ} :
    {R : Type ℓ} (s : Spool) (g : Segment) (recs : List R) (end_ : ℕ)
    → size g ≡ end_
    → (g.seq == s.active_seq) ≡ false
    → taken s g (recs, end_, false) ≡ record { seq = g.seq; end_ = end_; complete = true } ∷ []
unfolding taken
taken_whole s g [] end_ e n = ground arith
taken_whole s g (r ∷ rs) end_ e n = ground arith

-- Of a file that goes on, or that is written, a part is taken.
pub taken_part {ℓ} :
    {R : Type ℓ} (s : Spool) (g : Segment) (r : R) (rs : List R) (end_ : ℕ)
    → (leb (size g) end_ && (not (g.seq == s.active_seq) && true)) ≡ false
    → taken s g (r ∷ rs, end_, false) ≡ record { seq = g.seq; end_ = end_; complete = false } ∷ []
unfolding taken
taken_part s g r rs end_ n =
    ap (λ (b : Bool). record { seq = g.seq; end_ = end_; complete = b } ∷ []) n

-- The file that is written gives no mark when nothing waits in it.
pub taken_nothing {ℓ} :
    (R : Type ℓ) (s : Spool) (g : Segment) (end_ : ℕ)
    → (g.seq == s.active_seq) ≡ true
    → taken {R = R} s g ([], end_, false) ≡ []
unfolding taken
taken_nothing R s g end_ n = ground arith

module _ {ℓ} {R : Type ℓ} (k : Codec R) where
  -- What a mark says of the first file: it is sealed and everything waiting in it is taken, or a
  -- part is, and then no later file has a mark.
  abbrev pub TakesWhole : ℕ → Consumed → List R → Segment → Block R → List R → Type ℓ
  TakesWhole newest c out g (past, todo) later =
      (c.complete ≡ true) × (g.seq ≢ newest) × (out ≡ todo ++ later)

  abbrev pub TakesPart : Consumed → List Consumed → List R → Block R → Type ℓ
  TakesPart c cs out (past, todo) =
      (left : List R) × (c.complete ≡ false)
      × (cs ≡ [])
      × (todo ≡ out ++ left)
      × (c.end_ ≡ length (image k (past ++ out)))

  -- The marks of a batch with the results `out`.
  abbrev pub Takes : ℕ → List Consumed → List R → List Segment → List (Block R) → Type ℓ
  Takes newest [] out gs bs = out ≡ []
  Takes newest (c ∷ cs) out (g ∷ gs) (b ∷ bs) =
      (c.seq ≡ g.seq)
      × (((later : List R) × TakesWhole newest c out g b later × Takes newest cs later gs bs)
          ⊎ TakesPart c cs out b)
  Takes newest (c ∷ cs) out gs bs = (x : List R) × ⊥
