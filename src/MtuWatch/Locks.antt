-- ===== src/MtuWatch/Locks.antt =====
-- What `ensureCurrent` and `lockCurrents` leave of one series (internal/server/mtuwatch/mtuwatch.go).
use polarbeam.Base.{
  ℕ, ◌≡◌, inl, inr, refl, sym, subst, Bool-cases, Option, none, some, List, [], ◌∷◌, ◌++◌,
}
use polarbeam.MtuWatch.{Run}
use polarbeam.MtuWatch.Upsert.{Row, is_series, find_current}
use polarbeam.MtuWatch.Apply.{
  is_missing, placeholder, seed_current, runs_of, first_target, ensure_current,
}

-- The row of a series that was locked is the one before, or a placeholder where there was none.
pub data Locked : Option Row → Option Row → Type 0 where
  kept : (o : Option Row) → Locked o o
  seeded : (row : Row) → row.updated_at ≡ 0 → Locked none (some row)

find_current-append :
    (a p : ℕ) (rows : List Row) (new : Row)
    → new.updated_at ≡ 0
    → Locked (find_current a p rows) (find_current a p (rows ++ new ∷ []))
unfolding find_current
find_current-append a p [] new z = elim (Bool-cases (is_series a p new)) [
  | inl t ↦ rw t (seeded new z)
  | inr t ↦ rw t (kept none)
]
find_current-append a p (row ∷ rows) new z = elim (Bool-cases (is_series a p row)) [
  | inl t ↦ rw t (kept (some row))
  | inr t ↦ rw t (find_current-append a p rows new z)
]

Locked-some : (x y : Option Row) (row : Row) → Locked x y → x ≡ some row → y ≡ some row
Locked-some x y row (kept o) e = e
Locked-some x y row (seeded r z) e = absurd (cc e)

Locked-join : (x y z : Option Row) → Locked x y → Locked y z → Locked x z
Locked-join x y z (kept o) h = h
Locked-join x y z (seeded row e) h =
    subst (λ (o : Option Row). Locked none o) (sym (Locked-some (some row) z row h refl))
      (seeded row e)

seed_current-Locked :
    (a p q target : ℕ) (rows : List Row)
    → Locked (find_current a p rows) (find_current a p (seed_current a q target rows))
unfolding seed_current
seed_current-Locked a p q target rows = elim (Bool-cases (is_missing (find_current a q rows))) [
  | inl t ↦ rw t (find_current-append a p rows (placeholder a q target) refl)
  | inr t ↦ rw t (kept (find_current a p rows))
]

pub ensure_current-Locked :
    (a p : ℕ) (runs : List Run) (ps : List ℕ) (rows : List Row)
    → Locked (find_current a p rows) (find_current a p (ensure_current a runs ps rows))
unfolding ensure_current
ensure_current-Locked a p runs [] rows = kept (find_current a p rows)
ensure_current-Locked a p runs (q ∷ qs) rows =
    let rows' = seed_current a q (first_target (runs_of q runs)) rows in
    Locked-join (find_current a p rows) (find_current a p rows') _
      (seed_current-Locked a p q (first_target (runs_of q runs)) rows)
      (ensure_current-Locked a p runs qs rows')
