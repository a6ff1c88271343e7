-- ===== src/Spool/Segments/Bounds.antt =====
-- The spool stays within its bounds on the disk (internal/agent/spool/spool.go), whatever its files
-- hold: `total_bytes` is never below the size of the files, so that a scan is never missed.
use polarbeam.Base.{
  ℕ, zero, suc, ◌+◌, ◌≤◌, ◌≡◌, refl, sym, ap, ◌∙◌, inl, inr, false, ◌||◌, List, [], ◌∷◌, length,
  length-append, take, arith, ltb, leb, Bool-cases, subst,
}
use polarbeam.Spool.Segments.{
  Spool, check_bounds, drop_oldest, is_over, record_drops, bounds_check_every, enforce_loop,
  enforce_bounds, checked,
}
use polarbeam.Spool.Files.{Segment, total_size, create_file, write_to, remove_file, truncate_file}

-- The oldest file is not older than `max_age`.
abbrev pub Young : ℕ → ℕ → List Segment → Type 0
Young now max_age [] = Unit
Young now max_age (g ∷ gs) = now ≤ g.mod_time + max_age

-- What a scan of the directory promises.
pub record IsChecked (now : ℕ) (s : Spool) : Type 0 where
  pub size : total_size s.files ≤ s.max_bytes
  pub age : Young now s.max_age s.files
  pub total : s.total_bytes ≡ total_size s.files

total_none : total_size [] ≡ 0
unfolding total_size
total_none = refl

or_size :
    (now : ℕ) (g : Segment) (gs : List Segment) (s : Spool)
    → is_over now g gs s ≡ false
    → total_size (g ∷ gs) ≤ s.max_bytes
unfolding is_over
or_size now g gs s o = ground arith

pub drop_files : (g : Segment) (gs : List Segment) (s : Spool) → (drop_oldest g gs s).files ≡ gs
unfolding drop_oldest record_drops
drop_files g gs s = refl

checked-IsChecked :
    (now : ℕ) (g : Segment) (gs : List Segment) (s : Spool)
    → s.files ≡ g ∷ gs
    → is_over now g gs s ≡ false
    → IsChecked now (checked now (total_size (g ∷ gs)) s)
unfolding is_over
checked-IsChecked now g gs s f o = record {
  size = omega (arith, ap total_size f, or_size now g gs s o);
  age = subst (Young now s.max_age) (sym f) (ground arith);
  total = ap total_size (sym f);
}

enforce_loop-IsChecked :
    (now : ℕ) (gs : List Segment) (s : Spool) → s.files ≡ gs → IsChecked now (enforce_loop now gs s)
unfolding enforce_loop
enforce_loop-IsChecked now [] s f = record {
  size = omega (arith, ap total_size f, total_none);
  age = subst (Young now s.max_age) (sym f) tt;
  total = sym (ap total_size f ∙ total_none);
}
enforce_loop-IsChecked now (g ∷ gs) s f = elim (Bool-cases (is_over now g gs s)) [
  | inl t ↦ simp t (enforce_loop-IsChecked now gs (drop_oldest g gs s) (drop_files g gs s))
  | inr t ↦ simp t (checked-IsChecked now g gs s f t)
]

-- After a scan the files are within `max_bytes`, the oldest is within `max_age`, and the byte count
-- is exact.
pub enforce_bounds-IsChecked : (now : ℕ) (s : Spool) → IsChecked now (enforce_bounds now s)
unfolding enforce_bounds
enforce_bounds-IsChecked now s = enforce_loop-IsChecked now s.files s refl

-- The byte count is never below the size of the files, nor above the limit.
pub record IsTight (s : Spool) : Type 0 where
  pub counted : total_size s.files ≤ s.total_bytes
  pub limit : s.total_bytes ≤ s.max_bytes

checked-IsTight : (now : ℕ) (s : Spool) → IsChecked now s → IsTight s
checked-IsTight now s h = record {
  counted = omega (arith, h.total);
  limit = omega (arith, h.total, h.size);
}

pub create_size :
    (seq now : ℕ) (gs : List Segment) → total_size (create_file seq now gs) ≡ total_size gs
unfolding create_file total_size
create_size seq now [] = refl
create_size seq now (g ∷ gs) = ground (arith, create_size seq now gs)

pub write_size :
    (seq now : ℕ) (bytes : List ℕ) (gs : List Segment)
    → total_size (write_to seq now bytes gs) ≤ total_size gs + length bytes
unfolding write_to total_size
write_size seq now bytes [] = omega arith
write_size seq now bytes (g ∷ gs) =
    ground (arith, write_size seq now bytes gs, length-append g.bytes bytes)

pub remove_size : (seq : ℕ) (gs : List Segment) → total_size (remove_file seq gs) ≤ total_size gs
unfolding remove_file total_size
remove_size seq [] = omega arith
remove_size seq (g ∷ gs) = ground (arith, remove_size seq gs)

take_short {ℓ} : {A : Type ℓ} (n : ℕ) (xs : List A) → length (take n xs) ≤ length xs
take_short zero xs = omega arith
take_short (suc n) [] = omega arith
take_short (suc n) (x ∷ xs) = omega (arith, take_short n xs)

pub truncate_size :
    (seq now end_ : ℕ) (gs : List Segment)
    → total_size (truncate_file seq now end_ gs) ≤ total_size gs
unfolding truncate_file total_size
truncate_size seq now end_ [] = omega arith
truncate_size seq now end_ (g ∷ gs) =
    ground (arith, truncate_size seq now end_ gs, take_short end_ g.bytes)

pub check_bounds-IsTight :
    (now : ℕ) (s : Spool) → total_size s.files ≤ s.total_bytes → IsTight (check_bounds now s)
unfolding check_bounds
check_bounds-IsTight now s h =
    elim (Bool-cases
      (ltb s.max_bytes s.total_bytes || leb (s.last_bounds_check + bounds_check_every s) now)) [
        | inl t ↦
            simp t (checked-IsTight now (enforce_bounds now s) (enforce_bounds-IsChecked now s))
        | inr t ↦ simp t (record { counted = h; limit = ground arith })
      ]
