-- ===== src/PathWatch/Chain.antt =====
-- The path events of one series form a chain (internal/server/pathwatch/pathwatch.go).
use polarbeam.Base.{
  ℕ, ◌≤◌, ◌<◌, ◌≡◌, refl, sym, ap, subst, ◌∙◌, Bool, true, false, ◌||◌, not, Option, some, List, [],
  ◌∷◌, ◌++◌, length, arith, ltb, ◌==◌, if◌then◌else◌,
}
use native.Mathlib.Nat.{le_refl}
use polarbeam.PathWatch.{
  Run, Current, Action, skip, insert, refresh, change, bytes_eq, decide_complete, decide,
  PendingEvent, Fold, current_of, act, fold_run, fold_runs, start,
}

bytes_eq_sound : (a b : List ℕ) → bytes_eq a b ≡ true → a ≡ b
unfolding bytes_eq
bytes_eq_sound [] [] e = refl
bytes_eq_sound [] (y ∷ b) e = absurd (cc e)
bytes_eq_sound (x ∷ a) [] e = absurd (cc e)
bytes_eq_sound (x ∷ a) (y ∷ b) e = ground (arith, bytes_eq_sound a b)

bytes_eq_refl : (a : List ℕ) → bytes_eq a a ≡ true
unfolding bytes_eq
bytes_eq_refl [] = refl
bytes_eq_refl (x ∷ a) = ground (arith, bytes_eq_refl a)

-- The identity that events compare: the hash of the path.
abbrev pub Same : Current → Current → Type 0
Same a b = a.path_hash ≡ b.path_hash

-- From `c` the events lead to `d`: the old hash of each is what the one before it left, its new hash
-- is another, and the last leaves that of `d`.
abbrev pub Chain : Current → List PendingEvent → Current → Type 0
Chain c [] d = Same c d × (c.updated_at ≤ d.updated_at)
Chain c (p ∷ ps) d =
    (p.old_hash ≡ c.path_hash)
    × ¬ Same c (current_of p.run)
    × (c.updated_at < p.run.time)
    × Chain (current_of p.run) ps d

Chain-append :
    (c d : Current) (ps : List PendingEvent) (p : PendingEvent)
    → Chain c ps d
    → p.old_hash ≡ d.path_hash
    → ¬ Same d (current_of p.run)
    → d.updated_at < p.run.time
    → Chain c (ps ++ p ∷ []) (current_of p.run)
Chain-append c d [] p h a n t =
    (a ∙ sym h.0, (λ s. n (sym h.0 ∙ s)), omega arith, (refl, omega arith))
Chain-append c d (q ∷ qs) p h a n t =
    (h.0, h.1, h.2, Chain-append (current_of q.run) d qs p h.3 a n t)

Chain-refresh :
    (c d e : Current) (ps : List PendingEvent)
    → Chain c ps d
    → Same d e
    → d.updated_at ≤ e.updated_at
    → Chain c ps e
Chain-refresh c d e [] h s t = (h.0 ∙ s, omega arith)
Chain-refresh c d e (q ∷ qs) h s t =
    (h.0, h.1, h.2, Chain-refresh (current_of q.run) d e qs h.3 s t)

-- The fold so far, of a series whose row held `c`: the events lead from it to the identity now,
-- which is that of the final run, if there is one, and that run is newer than the row.
pub record IsLinked (c d : Current) (ps : List PendingEvent) (final : Option Run) : Type 0 where
  pub chain : Chain c ps d
  pub later : (r : Run) → final ≡ some r → (d ≡ current_of r) × (c.updated_at < r.time)
  pub forward : c.updated_at ≤ d.updated_at

abbrev IsFolded : Current → Fold → Type 0
IsFolded c f = (d : Current) × (f.cur ≡ some d) × IsLinked c d f.pending f.final

pub data Decided (cur : Current) (r : Run) : Action → Type 0 where
  skipped : Decided cur r skip
  refreshed : Same cur (current_of r) → cur.updated_at < r.time → Decided cur r refresh
  changed : ¬ Same cur (current_of r) → cur.updated_at < r.time → Decided cur r change

differ :
    (cur : Current) (r : Run)
    → bytes_eq cur.path_hash r.path_hash ≡ false
    → ¬ Same cur (current_of r)
differ cur r g s =
    absurd (cc (g, sym (bytes_eq_refl cur.path_hash) ∙ ap (λ h. bytes_eq cur.path_hash h) s))

Decided-test :
    (cur : Current) (r : Run) (a b : Bool)
    → ltb cur.updated_at r.time ≡ a
    → bytes_eq cur.path_hash r.path_hash ≡ b
    → Decided cur r (if not a then skip else if b then refresh else change)
Decided-test cur r false b e g = skipped
Decided-test cur r true true e g =
    refreshed (bytes_eq_sound cur.path_hash r.path_hash g) (ground arith)
Decided-test cur r true false e g = changed (differ cur r g) (ground arith)

Decided-complete :
    (cur : Current) (r : Run) (u : Bool)
    → Decided cur r (if u then skip else decide_complete (some cur) r)
Decided-complete cur r false = Decided-test cur r _ _ refl refl
Decided-complete cur r true = skipped

decide-Decided : (cur : Current) (r : Run) → Decided cur r (decide (some cur) r)
unfolding decide
decide-Decided cur r = Decided-complete cur r (not r.dest_reached || not (length r.path_hash == 32))

abbrev fold_of : Current → List PendingEvent → Option Run → Fold
fold_of d ps final = record { cur = some d; pending = ps; final = final }

newest :
    (c : Current) (r q : Run)
    → c.updated_at < r.time
    → some r ≡ some q
    → (current_of r ≡ current_of q) × (c.updated_at < q.time)
newest c r q h e = ground arith

act-IsFolded :
    (c d : Current) (ps : List PendingEvent) (final : Option Run) (r : Run) (a : Action)
    → Decided d r a
    → IsLinked c d ps final
    → IsFolded c (act a (fold_of d ps final) r)
act-IsFolded c d ps final r skip k h = (d, refl, h)
act-IsFolded c d ps final r refresh (refreshed s t) h = (
  current_of r,
  refl,
  record {
    chain = Chain-refresh c d (current_of r) ps h.chain s (omega arith);
    later = λ q e. newest c r q (omega (arith, h.forward)) e;
    forward = omega (arith, h.forward);
  },
)
act-IsFolded c d ps final r change (changed n t) h = (
  current_of r,
  refl,
  record {
    chain =
        Chain-append c d ps (record { run = r; old_hash = d.path_hash; old_hops = d.hops }) h.chain
          refl n t;
    later = λ q e. newest c r q (omega (arith, h.forward)) e;
    forward = omega (arith, h.forward);
  },
)
act-IsFolded c d ps final r insert k h = elim k [ ]

fold_run-IsFolded :
    (c d : Current) (ps : List PendingEvent) (final : Option Run) (r : Run)
    → IsLinked c d ps final
    → IsFolded c (fold_run (fold_of d ps final) r)
unfolding fold_run
fold_run-IsFolded c d ps final r h =
    act-IsFolded c d ps final r (decide (some d) r) (decide-Decided d r) h

again : (c : Current) (f : Fold) (r : Run) → IsFolded c f → IsFolded c (fold_run f r)
again c f r (d, e, h) =
    subst (λ (g : Fold). IsFolded c (fold_run g r))
      (λ i. record { cur = sym e i; pending = f.pending; final = f.final })
      (fold_run-IsFolded c d f.pending f.final r h)

fold_runs-IsFolded :
    (c : Current) (f : Fold) (rs : List Run) → IsFolded c f → IsFolded c (fold_runs f rs)
unfolding fold_runs
fold_runs-IsFolded c f [] h = h
fold_runs-IsFolded c f (r ∷ rs) h = fold_runs-IsFolded c (fold_run f r) rs (again c f r h)

-- For a series whose row held the path `c`, whatever the runs and their order: each event records as
-- old hash what the one before it recorded as new, the first one what the row held, and no event
-- records an unchanged hash; the final run, if any, carries the hash that the events lead to, and is
-- newer than the row.
pub fold_runs-IsLinked :
    (c : Current) (rs : List Run)
    → let f = fold_runs (start false (some c)) rs in
      (d : Current) × (f.cur ≡ some d) × IsLinked c d f.pending f.final
fold_runs-IsLinked c rs = fold_runs-IsFolded c (start false (some c)) rs (
  c,
  refl,
  record {
    chain = (refl, le_refl c.updated_at);
    later = λ r e. absurd (cc e);
    forward = le_refl c.updated_at;
  },
)
