-- ===== src/Spool/Segments/Overdue.antt =====
-- Which files a scan of the bounds drops (`enforceBoundsLocked` of internal/agent/spool/spool.go): the
-- ones that are outside the bounds, and no other.
use polarbeam.Base.{
  ℕ, ◌+◌, ◌<◌, ◌≡◌, ◌⊎◌, refl, sym, ap, inl, inr, List, [], ◌∷◌, ◌++◌, arith, Bool-cases, subst,
  true,
}
use polarbeam.Spool.Segments.{
  Spool, drop_oldest, is_over, record_drops, enforce_loop, enforce_bounds,
}
use polarbeam.Spool.Segments.Bounds.{drop_files}
use polarbeam.Spool.Files.{Segment, total_size}

-- With `g` the oldest file, the files are too large or `g` is too old.
abbrev pub IsOver : ℕ → ℕ → ℕ → Segment → List Segment → Type 0
IsOver now max_bytes max_age g rest =
    (max_bytes < total_size (g ∷ rest)) ⊎ (g.mod_time + max_age < now)

-- Each of the files was outside the bounds when the ones before it were gone.
abbrev pub AllOver : ℕ → ℕ → ℕ → List Segment → List Segment → Type 0
AllOver now max_bytes max_age [] rest = Unit
AllOver now max_bytes max_age (g ∷ gs) rest =
    IsOver now max_bytes max_age g (gs ++ rest) × AllOver now max_bytes max_age gs rest

-- The files without the oldest ones, each of which was outside the bounds.
pub record Trimmed (now : ℕ) (gs : List Segment) (s s' : Spool) : Type 0 where
  pub dropped : List Segment
  pub parts : gs ≡ dropped ++ s'.files
  pub over : AllOver now s.max_bytes s.max_age dropped s'.files
  pub same_bytes : s'.max_bytes ≡ s.max_bytes
  pub same_age : s'.max_age ≡ s.max_age

is_over-IsOver :
    (now : ℕ) (g : Segment) (gs : List Segment) (s : Spool)
    → is_over now g gs s ≡ true
    → IsOver now s.max_bytes s.max_age g gs
unfolding is_over
is_over-IsOver now g gs s t = ground arith

Trimmed-more :
    (now : ℕ) (g : Segment) (gs : List Segment) (s s' : Spool)
    → is_over now g gs s ≡ true
    → Trimmed now gs (drop_oldest g gs s) s'
    → Trimmed now (g ∷ gs) s s'
unfolding drop_oldest record_drops
Trimmed-more now g gs s s' t p = record {
  dropped = g ∷ p.dropped;
  parts = ap (λ (l : List Segment). g ∷ l) p.parts;
  over = (subst (IsOver now s.max_bytes s.max_age g) p.parts (is_over-IsOver now g gs s t), p.over);
  same_bytes = p.same_bytes;
  same_age = p.same_age;
}

enforce_loop-Trimmed :
    (now : ℕ) (gs : List Segment) (s : Spool)
    → s.files ≡ gs
    → Trimmed now gs s (enforce_loop now gs s)
unfolding enforce_loop
enforce_loop-Trimmed now [] s f = record {
  dropped = [];
  parts = sym f;
  over = tt;
  same_bytes = refl;
  same_age = refl;
}
enforce_loop-Trimmed now (g ∷ gs) s f = elim (Bool-cases (is_over now g gs s)) [
  | inl t ↦ simp t (
      Trimmed-more now g gs s _ t
        (enforce_loop-Trimmed now gs (drop_oldest g gs s) (drop_files g gs s)))
  | inr t ↦
      simp t (record { dropped = []; parts = sym f; over = tt; same_bytes = refl; same_age = refl })
]

-- A scan keeps the newest files, and each one that it drops was outside the bounds.
pub enforce_bounds-Trimmed : (now : ℕ) (s : Spool) → Trimmed now s.files s (enforce_bounds now s)
unfolding enforce_bounds
enforce_bounds-Trimmed now s = enforce_loop-Trimmed now s.files s refl
