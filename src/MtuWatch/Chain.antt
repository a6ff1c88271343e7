-- ===== src/MtuWatch/Chain.antt =====
-- The events of one series form a chain (internal/server/mtuwatch/mtuwatch.go).
use polarbeam.Base.{
  ◌≤◌, ◌<◌, ◌≡◌, refl, sym, subst, ◌∙◌, Bool, true, false, ◌&&◌, not, Option, some, List, [], ◌∷◌,
  ◌++◌, arith, ltb, ◌==◌, if◌then◌else◌,
}
use native.Mathlib.Nat.{le_refl}
use polarbeam.MtuWatch.{
  Run, Current, Action, skip, insert, refresh, change, same_bool, decide_usable, decide, act,
  PendingEvent, Fold, current_of, fold_run, fold_runs, start,
}

-- The identity that events compare: the MTU and the black-hole state.
abbrev pub Same : Current → Current → Type 0
Same a b = (a.largest_ok ≡ b.largest_ok) × (a.black_hole ≡ b.black_hole)

-- From `c` the events lead to `d`: the old identity of each is what the one before it left, its
-- new identity is another, and the last leaves that of `d`.
abbrev pub Chain : Current → List PendingEvent → Current → Type 0
Chain c [] d = Same c d × (c.updated_at ≤ d.updated_at)
Chain c (p ∷ ps) d =
    (p.old_mtu ≡ c.largest_ok)
    × (p.old_black ≡ c.black_hole)
    × ¬ Same c (current_of p.run)
    × (c.updated_at < p.run.time)
    × Chain (current_of p.run) ps d

Chain-append :
    (c d : Current) (ps : List PendingEvent) (p : PendingEvent)
    → Chain c ps d
    → p.old_mtu ≡ d.largest_ok
    → p.old_black ≡ d.black_hole
    → ¬ Same d (current_of p.run)
    → d.updated_at < p.run.time
    → Chain c (ps ++ p ∷ []) (current_of p.run)
Chain-append c d [] p h a b n t = (
  a ∙ sym h.0.0,
  b ∙ sym h.0.1,
  (λ s. n (sym h.0.0 ∙ s.0, sym h.0.1 ∙ s.1)),
  omega arith,
  ((refl, refl), omega arith),
)
Chain-append c d (q ∷ qs) p h a b n t =
    (h.0, h.1, h.2, h.3, Chain-append (current_of q.run) d qs p h.4 a b n t)

Chain-refresh :
    (c d e : Current) (ps : List PendingEvent)
    → Chain c ps d
    → Same d e
    → d.updated_at ≤ e.updated_at
    → Chain c ps e
Chain-refresh c d e [] h s t = ((h.0.0 ∙ s.0, h.0.1 ∙ s.1), omega arith)
Chain-refresh c d e (q ∷ qs) h s t =
    (h.0, h.1, h.2, h.3, Chain-refresh (current_of q.run) d e qs h.4 s t)

-- The fold so far, of a series whose row held `c`: the events lead from it to the identity now,
-- which is that of the final run, if there is one, and that run is newer than the row.
pub record IsChained (c d : Current) (ps : List PendingEvent) (final : Option Run) : Type 0 where
  pub chain : Chain c ps d
  pub later : (r : Run) → final ≡ some r → (d ≡ current_of r) × (c.updated_at < r.time)
  pub forward : c.updated_at ≤ d.updated_at

abbrev IsFolded : Current → Fold → Type 0
IsFolded c f = (d : Current) × (f.cur ≡ some d) × IsChained c d f.pending f.final

pub data Decided (cur : Current) (r : Run) : Action → Type 0 where
  skipped : Decided cur r skip
  refreshed : Same cur (current_of r) → cur.updated_at < r.time → Decided cur r refresh
  changed : ¬ Same cur (current_of r) → cur.updated_at < r.time → Decided cur r change

Decided-test :
    (cur : Current) (r : Run) (a b : Bool)
    → ltb cur.updated_at r.time ≡ a
    → (cur.largest_ok == r.largest_ok && same_bool cur.black_hole r.black_hole) ≡ b
    → Decided cur r (if not a then skip else if b then refresh else change)
Decided-test cur r false b e g = skipped
Decided-test cur r true true e g = refreshed (ground arith) (ground arith)
Decided-test cur r true false e g = changed (λ s. ground arith) (ground arith)

Decided-usable :
    (cur : Current) (r : Run) (u : Bool)
    → Decided cur r (if not u then skip else decide_usable (some cur) r)
Decided-usable cur r true = Decided-test cur r _ _ refl refl
Decided-usable cur r false = skipped

decide-Decided : (cur : Current) (r : Run) → Decided cur r (decide (some cur) r)
unfolding decide
decide-Decided cur r = Decided-usable cur r r.usable

abbrev fold_of : Current → List PendingEvent → Option Run → Fold
fold_of d ps final = record { cur = some d; pending = ps; final = final }

newest :
    (c : Current) (r q : Run)
    → c.updated_at < r.time
    → some r ≡ some q
    → (current_of r ≡ current_of q) × (c.updated_at < q.time)
newest c r q h e = ground arith

act-IsFolded :
    (c d : Current) (ps : List PendingEvent) (final : Option Run) (r : Run) (a : Action)
    → Decided d r a
    → IsChained c d ps final
    → IsFolded c (act a (fold_of d ps final) r)
act-IsFolded c d ps final r skip k h = (d, refl, h)
act-IsFolded c d ps final r refresh (refreshed s t) h = (
  current_of r,
  refl,
  record {
    chain = Chain-refresh c d (current_of r) ps h.chain s (omega arith);
    later = λ q e. newest c r q (omega (arith, h.forward)) e;
    forward = omega (arith, h.forward);
  },
)
act-IsFolded c d ps final r change (changed n t) h = (
  current_of r,
  refl,
  record {
    chain =
        Chain-append c d ps (record { run = r; old_mtu = d.largest_ok; old_black = d.black_hole })
          h.chain refl refl n t;
    later = λ q e. newest c r q (omega (arith, h.forward)) e;
    forward = omega (arith, h.forward);
  },
)
act-IsFolded c d ps final r insert k h = elim k [ ]

fold_run-IsFolded :
    (c d : Current) (ps : List PendingEvent) (final : Option Run) (r : Run)
    → IsChained c d ps final
    → IsFolded c (fold_run (fold_of d ps final) r)
unfolding fold_run
fold_run-IsFolded c d ps final r h =
    act-IsFolded c d ps final r (decide (some d) r) (decide-Decided d r) h

again : (c : Current) (f : Fold) (r : Run) → IsFolded c f → IsFolded c (fold_run f r)
again c f r (d, e, h) =
    subst (λ (g : Fold). IsFolded c (fold_run g r))
      (λ i. record { cur = sym e i; pending = f.pending; final = f.final })
      (fold_run-IsFolded c d f.pending f.final r h)

fold_runs-IsFolded :
    (c : Current) (f : Fold) (rs : List Run) → IsFolded c f → IsFolded c (fold_runs f rs)
unfolding fold_runs
fold_runs-IsFolded c f [] h = h
fold_runs-IsFolded c f (r ∷ rs) h = fold_runs-IsFolded c (fold_run f r) rs (again c f r h)

-- For a series whose row held `c`, whatever the runs and their order: each event records as old
-- what the one before it recorded as new, the first one what the row held, and no event records
-- an unchanged identity; the final run, if any, carries the identity that the events lead to, and its
-- time is later than `c`'s.
pub fold_runs-Chain :
    (c : Current) (rs : List Run)
    → let f = fold_runs (start false (some c)) rs in
      (d : Current) × (f.cur ≡ some d) × IsChained c d f.pending f.final
fold_runs-Chain c rs = fold_runs-IsFolded c (start false (some c)) rs (
  c,
  refl,
  record {
    chain = ((refl, refl), le_refl c.updated_at);
    later = λ r e. absurd (cc e);
    forward = le_refl c.updated_at;
  },
)
