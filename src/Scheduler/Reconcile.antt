-- ===== src/Scheduler/Reconcile.antt =====
-- What `Apply` of the probe scheduler makes of each id (internal/agent/scheduler/scheduler.go): the
-- loops, seen at one id.
use polarbeam.Base.{
  ℕ, ◌≤◌, ◌≡◌, ◌≢◌, refl, sym, ap, subst, ◌∙◌, String, Bool, false, Option, none, some, List, [],
  ◌∷◌, Bool-cases, inl, inr, All, arith, if◌then◌else◌,
}
use polarbeam.Scheduler.{
  Spec, Worker, Scheduler, gives_evidence, same, same_apart, same→≡, lookup, lookup-delete,
  lookup-delete_other, lookup-insert, lookup-insert_other, lookup-head, lookup-next, absent-lookup,
  IsMap, collect, planned, registered_or, start_worker, start_all, is_kept, prune_one, prune, apply,
}
use polarbeam.Scheduler.Known.{Workers, IsSound}
use polarbeam.Scheduler.Loops.{apply-Pruning}
use polarbeam.Scheduler.Collect.{first_spec, collected}

abbrev from_some : Spec → Option Spec → Spec
from_some d none = d
from_some d (some spec) = spec

module _ (registry : ℕ → Bool) (spec_hash : Spec → String) where
  -- What the loop over the workers leaves at an id: of its desired spec, and of its worker.
  abbrev pub fate : Option Worker → Option Spec → Option Worker → Option Spec × Option Worker
  fate none o v = (o, v)
  fate (some w) o v = if is_kept registry spec_hash w o then (none, v) else (o, none)

  abbrev seen : String → List (String × Spec) × Scheduler → Option Spec × Option Worker
  seen id ds = (lookup id ds.0, lookup id ds.1.workers)

  prune_other :
      (id k : String) (w : Worker) (ds : List (String × Spec) × Scheduler)
      → k ≢ id
      → seen id (prune_one registry spec_hash k w ds) ≡ seen id ds
  unfolding prune_one
  prune_other id k w ds n = elim (Bool-cases (is_kept registry spec_hash w (lookup k ds.0))) [
    | inl t ↦ simp (t, lookup-delete_other id k ds.0 n) refl
    | inr t ↦ simp (t, lookup-delete_other id k ds.1.workers n) refl
  ]

  prune_own :
      (id : String) (w : Worker) (ds : List (String × Spec) × Scheduler)
      → seen id (prune_one registry spec_hash id w ds)
        ≡ fate (some w) (lookup id ds.0) (lookup id ds.1.workers)
  unfolding prune_one
  prune_own id w ds = elim (Bool-cases (is_kept registry spec_hash w (lookup id ds.0))) [
    | inl t ↦ simp (t, lookup-delete id ds.0) refl
    | inr t ↦ simp (t, lookup-delete id ds.1.workers) refl
  ]

  prune-seen :
      (id : String) (es : Workers) (ds : List (String × Spec) × Scheduler)
      → IsMap es
      → seen id (prune registry spec_hash es ds)
        ≡ fate (lookup id es) (lookup id ds.0) (lookup id ds.1.workers)
  unfolding prune lookup
  prune-seen id [] ds m = refl
  prune-seen id ((k, w) ∷ es) ds m = elim (Bool-cases (same k id)) [
    | inl e ↦
        let k_is = same→≡ k id e in
        let gone = absent-lookup id es (subst (λ i. All (λ v. v.0 ≢ i) es) k_is m.0) in
        let ds' = prune_one registry spec_hash k w ds in
        simp e (
          prune-seen id es ds' m.1
          ∙ ap (λ o. fate o (lookup id ds'.0) (lookup id ds'.1.workers)) gone
          ∙ ap (λ j. seen id (prune_one registry spec_hash j w ds)) k_is
          ∙ prune_own id w ds)
    | inr e ↦ simp e (
        prune-seen id es (prune_one registry spec_hash k w ds) m.1
        ∙ ap (λ p. fate (lookup id es) p.0 p.1) (prune_other id k w ds (same_apart k id e)))
  ]

  prune_next :
      (es : Workers) (ds : List (String × Spec) × Scheduler)
      → (prune registry spec_hash es ds).1.next ≡ ds.1.next
  unfolding prune prune_one
  prune_next [] ds = refl
  prune_next ((k, w) ∷ es) ds =
      prune_next es (prune_one registry spec_hash k w ds)
      ∙ (elim (Bool-cases (is_kept registry spec_hash w (lookup k ds.0))) [
        | inl t ↦ simp t refl
        | inr t ↦ simp t refl
      ])

  -- A worker that was started for this spec, with a goroutine of its own.
  pub record Started (next : ℕ) (spec : Spec) (w : Worker) : Type 0 where
    pub hash : w.spec_hash ≡ spec_hash spec
    pub own : next ≤ w.cancel
    pub plan :
        let p = planned (registered_or (registry spec.kind) spec.kind) spec.interval in
        (w.interval ≡ p.1) × (w.evidence ≡ gives_evidence p.0)

  start_all-none :
      (id : String) (es : List (String × Spec)) (s : Scheduler)
      → lookup id es ≡ none
      → lookup id (start_all registry spec_hash es s).workers ≡ lookup id s.workers
  unfolding start_all start_worker lookup
  start_all-none id [] s h = refl
  start_all-none id ((k, spec) ∷ es) s h = elim (Bool-cases (same k id)) [
    | inl e ↦ absurd (cc (h, e))
    | inr e ↦
        start_all-none id es (start_worker registry spec_hash s k spec)
          (sym (lookup-next id k spec es e) ∙ h)
        ∙ lookup-insert_other id k _ s.workers (same_apart k id e)
  ]

  start_worker-own :
      (id : String) (next : ℕ) (spec : Spec) (s : Scheduler)
      → next ≤ s.next
      → (w : Worker) × (lookup id (start_worker registry spec_hash s id spec).workers ≡ some w)
        × Started next spec w
  unfolding start_worker
  start_worker-own id next spec s l =
      (_, lookup-insert id _ s.workers, record { hash = refl; own = l; plan = (refl, refl) })

  start_all-some :
      (id : String) (next : ℕ) (spec : Spec) (es : List (String × Spec)) (s : Scheduler)
      → next ≤ s.next
      → IsMap es
      → lookup id es ≡ some spec
      → (w : Worker) × (lookup id (start_all registry spec_hash es s).workers ≡ some w)
        × Started next spec w
  unfolding start_all start_worker lookup
  start_all-some id next spec [] s l m h = absurd (cc h)
  start_all-some id next spec ((k, first) ∷ es) s l m h = elim (Bool-cases (same k id)) [
    | inl e ↦
        let k_is = same→≡ k id e in
        let gone = absent-lookup id es (subst (λ i. All (λ v. v.0 ≢ i) es) k_is m.0) in
        let started = start_worker-own id next first s l in
        let first_is : some first ≡ some spec = sym (lookup-head id k first es e) ∙ h in
        (
          started.0,
          start_all-none id es (start_worker registry spec_hash s k first) gone
              ∙ ap (λ j. lookup id (start_worker registry spec_hash s j first).workers) k_is
              ∙ started.1,
          subst (λ o. Started next (from_some first o) started.0) first_is started.2,
        )
    | inr e ↦
        start_all-some id next spec es (start_worker registry spec_hash s k first) (omega arith) m.1
          (sym (lookup-next id k first es e) ∙ h)
  ]

  abbrev New : ℕ → Spec → Option Worker → Type 0
  New next spec o = (w : Worker) × (o ≡ some w) × Started next spec w

  -- The worker of an id behind `Apply`, from its first spec and its worker before.
  abbrev pub AsDesired : ℕ → Option Spec → Option Worker → Option Worker → Type 0
  AsDesired next none old new = new ≡ none
  AsDesired next (some spec) none new = New next spec new
  AsDesired next (some spec) (some w) new =
      if same w.spec_hash (spec_hash spec) then new ≡ some w else New next spec new

  finish :
      (id : String) (next : ℕ) (spec : Option Spec) (old : Option Worker)
      (ds : List (String × Spec) × Scheduler)
      → next ≤ ds.1.next
      → IsMap ds.0
      → seen id ds ≡ fate old spec old
      → AsDesired next spec old (lookup id (start_all registry spec_hash ds.0 ds.1).workers)
  finish id next none none ds l m e =
      start_all-none id ds.0 ds.1 (ap (λ p. p.0) e) ∙ ap (λ p. p.1) e
  finish id next none (some w) ds l m e =
      start_all-none id ds.0 ds.1 (ap (λ p. p.0) e) ∙ ap (λ p. p.1) e
  finish id next (some spec) none ds l m e =
      start_all-some id next spec ds.0 ds.1 l m (ap (λ p. p.0) e)
  finish id next (some spec) (some w) ds l m e =
      let both : Bool → Option Spec × Option Worker =
        λ b. if b then (none, some w) else (some spec, none) in
      elim (Bool-cases (same w.spec_hash (spec_hash spec))) [
        | inl t ↦
            let k = e ∙ ap both t in
            simp t (start_all-none id ds.0 ds.1 (ap (λ p. p.0) k) ∙ ap (λ p. p.1) k)
        | inr t ↦
            let k = e ∙ ap both t in
            simp t (start_all-some id next spec ds.0 ds.1 l m (ap (λ p. p.0) k))
      ]

  reconciled :
      (id : String) (probes : List Spec) (s : Scheduler)
      → IsSound spec_hash s
      → let ds = prune registry spec_hash s.workers (collect probes [], s) in
        AsDesired s.next
          (first_spec id probes)
          (lookup id s.workers)
          (lookup id (start_all registry spec_hash ds.0 ds.1).workers)
  reconciled id probes s h =
      let ds = prune registry spec_hash s.workers (collect probes [], s) in
      finish id s.next (first_spec id probes) (lookup id s.workers) ds
        (omega (arith, prune_next s.workers (collect probes [], s)))
        (apply-Pruning registry spec_hash probes s h).desired.keys
        (prune-seen id s.workers (collect probes [], s) h.keys
          ∙ ap (λ o. fate (lookup id s.workers) o (lookup id s.workers)) (collected id probes))

  -- `Apply` of a scheduler whose workers are sound and that has not stopped, at any id: where no spec of
  -- the snapshot has the id, there is no worker; where the worker's hash is that of the first such spec,
  -- it is the same worker with the same goroutine; and else it is a worker with a new goroutine, with
  -- the hash, the interval and the evidence of that spec. The empty id has no spec.
  pub apply_reconciles :
      (id : String) (probes : List Spec) (s : Scheduler)
      → IsSound spec_hash s
      → s.stopped ≡ false
      → AsDesired s.next
          (first_spec id probes)
          (lookup id s.workers)
          (lookup id (apply registry spec_hash probes s).workers)
  unfolding apply
  apply_reconciles id probes s h t =
      let ds = prune registry spec_hash s.workers (collect probes [], s) in
      subst
        (λ (b : Bool).
          AsDesired s.next (first_spec id probes) (lookup id s.workers)
            (lookup id (if b then s else start_all registry spec_hash ds.0 ds.1).workers))
        (sym t) (reconciled id probes s h)
