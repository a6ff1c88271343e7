-- ===== src/Scheduler/Loops.antt =====
-- What the loops of the probe scheduler's `Apply` keep (internal/agent/scheduler/scheduler.go): each
-- worker has its goroutine, and each that stays is looked at or no longer desired.
use polarbeam.Base.{
  ℤ, pos, negsuc, ℕ, zero, suc, ◌+◌, ◌<◌, ◌≡◌, ◌≢◌, ◌⊎◌, refl, sym, ap, subst, String, Bool, true,
  false, ◌||◌, List, [], ◌∷◌, Bool-cases, inl, inr, All, All-map, arith, ◌==◌, if◌then◌else◌,
}
use polarbeam.Scheduler.{
  Prober, planned, registered_or, Spec, Worker, Scheduler, same, same_not, lookup, delete,
  delete-All, delete-IsMap, delete-gone, insert, insert-IsMap, IsMap, is_some, collect,
  start_worker, start_all, is_kept, prune_one, prune,
}
use polarbeam.Scheduler.Known.{
  all-Known, Workers, delete-IsOnce, Known, All-both, Matched, IsSound, removed-IsSound,
}

-- An entry with this key.
abbrev pub HasKey : String → Workers → Type 0
HasKey id [] = ⊥
HasKey id ((k, w) ∷ ws) = (k ≡ id) ⊎ HasKey id ws

-- Each worker is still to be looked at, or its id is no longer desired.
abbrev pub Covered : Workers → List (String × Spec) → String × Worker → Type 0
Covered es desired v = HasKey v.0 es ⊎ All (λ e. e.0 ≢ v.0) desired

Covered-kept :
    (id : String) (w : Worker) (es : Workers) (desired : List (String × Spec)) (v : String × Worker)
    → Covered ((id, w) ∷ es) desired v
    → Covered es (delete id desired) v
Covered-kept id w es desired v (inl (inl q)) =
    inr (subst (λ i. All (λ e. e.0 ≢ i) (delete id desired)) q (delete-gone id desired))
Covered-kept id w es desired v (inl (inr h)) = inl h
Covered-kept id w es desired v (inr h) = inr (delete-All (λ e. e.0 ≢ v.0) id desired h)

Covered-removed :
    (id : String) (w : Worker) (es : Workers) (desired : List (String × Spec)) (v : String × Worker)
    → (v.0 ≢ id) × Covered ((id, w) ∷ es) desired v
    → Covered es desired v
Covered-removed id w es desired v (n, inl (inl q)) = absurd (n (sym q))
Covered-removed id w es desired v (n, inl (inr h)) = inl h
Covered-removed id w es desired v (n, inr h) = inr h

pub all-HasKey : (ws : Workers) → All (λ v. HasKey v.0 ws) ws
all-HasKey [] = tt
all-HasKey ((k, w) ∷ ws) = (inl refl, All-map (λ e h. inr h) ws (all-HasKey ws))

planned_runs : (p : Prober) (i : ℤ) → 0 < (planned p i).1
planned_runs p (pos zero) = omega arith
planned_runs p (pos (suc n)) = omega arith
planned_runs p (negsuc n) = omega arith

-- What the snapshot's loop collects: one spec an id, under its own.
pub record Desired (d : List (String × Spec)) : Type 0 where
  pub keys : IsMap d
  pub own_ids : All (λ e. e.1.probe_id ≡ e.0) d

insert-Desired :
    (spec : Spec) (d : List (String × Spec)) → Desired d → Desired (insert spec.probe_id spec d)
unfolding insert
insert-Desired spec d h = record {
  keys = insert-IsMap spec.probe_id spec d h.keys;
  own_ids = (refl, delete-All (λ e. e.1.probe_id ≡ e.0) spec.probe_id d h.own_ids);
}

Desired-if :
    (b : Bool) (d d' : List (String × Spec))
    → Desired d
    → Desired d'
    → Desired (if b then d else d')
Desired-if true d d' h k = h
Desired-if false d d' h k = k

pub collect-Desired :
    (specs : List Spec) (d : List (String × Spec)) → Desired d → Desired (collect specs d)
unfolding collect
collect-Desired [] d h = h
collect-Desired (spec ∷ specs) d h = collect-Desired specs _ (
    Desired-if (same spec.probe_id "" || is_some (lookup spec.probe_id d)) d _ h
      (insert-Desired spec d h))

delete-absent :
    {A : Type 0} (id : String) (es : List (String × A)) → All (λ e. e.0 ≢ id) es → delete id es ≡ es
unfolding delete
delete-absent id [] h = refl
delete-absent id ((k, a) ∷ es) h =
    simp (same_not k id h.0) (ap (λ rest. (k, a) ∷ rest) (delete-absent id es h.1))

-- The ids of the specs are no workers'.
abbrev pub Apart : Workers → List (String × Spec) → Type 0
Apart ws es = All (λ v. All (λ e. e.0 ≢ v.0) es) ws

pub Covered-end :
    (desired : List (String × Spec)) (v : String × Worker)
    → Covered [] desired v
    → All (λ e. e.0 ≢ v.0) desired
Covered-end desired v (inl h) = absurd h
Covered-end desired v (inr h) = h

module _ (registry : ℕ → Bool) (spec_hash : Spec → String) where
  -- What the loop over the workers keeps, with `es` still to come.
  pub record Pruning (es : Workers) (ds : List (String × Spec) × Scheduler) : Type 0 where
    pub sound : IsSound spec_hash ds.1
    pub known : All (λ e. Known e.0 e.1.cancel ds.1.workers) es
    pub covered : All (Covered es ds.0) ds.1.workers
    pub desired : Desired ds.0

  prune_one-Pruning :
      (id : String) (w : Worker) (es : Workers) (ds : List (String × Spec) × Scheduler)
      → Pruning ((id, w) ∷ es) ds
      → Pruning es (prune_one registry spec_hash id w ds)
  unfolding prune_one
  prune_one-Pruning id w es ds h =
      elim (Bool-cases (is_kept registry spec_hash w (lookup id ds.0))) [
        | inl t ↦ simp t (record {
          sound = h.sound;
          known = h.known.1;
          covered = All-map (Covered-kept id w es ds.0) ds.1.workers h.covered;
          desired = record {
            keys = delete-IsMap id ds.0 h.desired.keys;
            own_ids = delete-All (λ e. e.1.probe_id ≡ e.0) id ds.0 h.desired.own_ids;
          };
        })
        | inr t ↦ simp t (record {
          sound = removed-IsSound spec_hash id w.cancel ds.1 h.known.0 h.sound;
          known =
              All-map
                (λ e k.
                  delete-All (λ v. same v.0 e.0 ≡ (v.1.cancel == e.1.cancel)) id ds.1.workers k)
                es h.known.1;
          covered = All-map (Covered-removed id w es ds.0) (delete id ds.1.workers) (
              All-both _ _ (delete id ds.1.workers) (delete-gone id ds.1.workers)
                (delete-All (Covered ((id, w) ∷ es) ds.0) id ds.1.workers h.covered));
          desired = h.desired;
        })
      ]

  prune-Pruning :
      (es : Workers) (ds : List (String × Spec) × Scheduler)
      → Pruning es ds
      → Pruning [] (prune registry spec_hash es ds)
  unfolding prune
  prune-Pruning [] ds h = h
  prune-Pruning ((id, w) ∷ es) ds h =
      prune-Pruning es (prune_one registry spec_hash id w ds) (prune_one-Pruning id w es ds h)

  -- The spec's id is no worker's.
  start_worker-IsSound :
      (s : Scheduler) (id : String) (spec : Spec)
      → spec.probe_id ≡ id
      → All (λ v. v.0 ≢ id) s.workers
      → IsSound spec_hash s
      → IsSound spec_hash (start_worker registry spec_hash s id spec)
  unfolding start_worker insert
  start_worker-IsSound s id spec own new h = record {
    keys = (delete-gone id s.workers, delete-IsMap id s.workers h.keys);
    once = (
      delete-All (λ e. e.1.cancel ≢ s.next) id s.workers
          (All-map (λ e l q. omega (arith, l, q)) s.workers h.fresh),
      delete-IsOnce id s.workers h.once,
    );
    fresh = (
      omega arith,
      delete-All (λ e. e.1.cancel < s.next + 1) id s.workers
          (All-map (λ e l. omega (arith, l)) s.workers h.fresh),
    );
    timed = (
      planned_runs (registered_or (registry spec.kind) spec.kind) spec.interval,
      delete-All (λ e. 0 < e.1.interval) id s.workers h.timed,
    );
    matched = (
      record { serial = refl; of_id = own; hash = refl; interval = refl; evidence = refl },
      subst (λ ws. Matched spec_hash ws s.live) (sym (delete-absent id s.workers new)) h.matched,
    );
  }

  start_worker-Apart :
      (id : String) (spec : Spec) (es : List (String × Spec)) (s : Scheduler)
      → All (λ e. e.0 ≢ id) es
      → Apart s.workers ((id, spec) ∷ es)
      → Apart (start_worker registry spec_hash s id spec).workers es
  unfolding start_worker insert
  start_worker-Apart id spec es s k a =
      (k, delete-All (λ v. All (λ e. e.0 ≢ v.0) es) id s.workers (All-map (λ v n. n.1) s.workers a))

  pub start_all-IsSound :
      (es : List (String × Spec)) (s : Scheduler)
      → Desired es
      → Apart s.workers es
      → IsSound spec_hash s
      → IsSound spec_hash (start_all registry spec_hash es s)
  unfolding start_all
  start_all-IsSound [] s d a h = h
  start_all-IsSound ((id, spec) ∷ es) s d a h =
      let s' = start_worker registry spec_hash s id spec in
      start_all-IsSound es s' (record { keys = d.keys.1; own_ids = d.own_ids.1 })
        (start_worker-Apart id spec es s d.keys.0 a)
        (start_worker-IsSound s id spec d.own_ids.0 (All-map (λ v n q. n.0 (sym q)) s.workers a) h)

  -- The loop over the workers, in `Apply`.
  pub apply-Pruning :
      (probes : List Spec) (s : Scheduler)
      → IsSound spec_hash s
      → Pruning [] (prune registry spec_hash s.workers (collect probes [], s))
  apply-Pruning probes s h =
      prune-Pruning s.workers (collect probes [], s)
        (record {
          sound = h;
          known = all-Known s.workers h.keys h.once;
          covered = All-map (λ v k. inl k) s.workers (all-HasKey s.workers);
          desired = collect-Desired probes [] (record { keys = tt; own_ids = tt });
        })
