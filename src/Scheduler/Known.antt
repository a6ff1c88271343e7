-- ===== src/Scheduler/Known.antt =====
-- The goroutines of the probe scheduler (internal/agent/scheduler/scheduler.go): each worker has one
-- that goes on, with its spec, and there is no other.
use polarbeam.Base.{
  ℕ, ◌<◌, ◌≡◌, ◌≢◌, sym, ap, ◌∙◌, String, true, false, List, [], ◌∷◌, Bool-cases, inl, inr, All,
  All-map, arith, ◌==◌,
}
use polarbeam.Scheduler.{
  Spec, Worker, Runner, Scheduler, gives_evidence, cancel_runner, same, same_not, same_refl, delete,
  delete-All, delete-IsMap, IsMap,
}

abbrev pub Workers : Type 0
Workers = List (String × Worker)

-- The numbers of the goroutines differ.
abbrev pub IsOnce : Workers → Type 0
IsOnce [] = Unit
IsOnce ((k, w) ∷ ws) = All (λ e. e.1.cancel ≢ w.cancel) ws × IsOnce ws

module _ (spec_hash : Spec → String) where
  -- The goroutine that a worker stands for.
  pub record Runs (id : String) (w : Worker) (r : Runner) : Type 0 where
    pub serial : r.serial ≡ w.cancel
    pub of_id : r.spec.probe_id ≡ id
    pub hash : spec_hash r.spec ≡ w.spec_hash
    pub interval : r.interval ≡ w.interval
    pub evidence : gives_evidence r.prober ≡ w.evidence

  abbrev pub Matched : Workers → List Runner → Type 0
  Matched [] [] = Unit
  Matched [] (r ∷ rs) = ⊥
  Matched (e ∷ ws) [] = ⊥
  Matched ((id, w) ∷ ws) (r ∷ rs) = Runs id w r × Matched ws rs

  -- The workers have their own ids and goroutines, and intervals that run, and
  -- those are all the goroutines that go on.
  pub record IsSound (s : Scheduler) : Type 0 where
    pub keys : IsMap s.workers
    pub once : IsOnce s.workers
    pub fresh : All (λ e. e.1.cancel < s.next) s.workers
    pub timed : All (λ e. 0 < e.1.interval) s.workers
    pub matched : Matched s.workers s.live

-- Among the workers, the one with this id is the one with this goroutine.
abbrev pub Known : String → ℕ → Workers → Type 0
Known id n ws = All (λ e. same e.0 id ≡ (e.1.cancel == n)) ws

same_number : (n : ℕ) → (n == n) ≡ true
same_number n = ground arith

other_number : (n m : ℕ) → n ≢ m → (n == m) ≡ false
other_number n m h = ground (arith, h)

pub All-both {ℓ κ λ'} :
    {A : Type ℓ} (P : A → Type κ) (Q : A → Type λ') (xs : List A)
    → All P xs
    → All Q xs
    → All (λ x. P x × Q x) xs
All-both P Q [] p q = tt
All-both P Q (x ∷ xs) p q = ((p.0, q.0), All-both P Q xs p.1 q.1)

-- The others do not have the first one's id, nor its goroutine.
Known-first :
    (k : String) (w : Worker) (ws : Workers)
    → All (λ e. e.0 ≢ k) ws
    → All (λ e. e.1.cancel ≢ w.cancel) ws
    → Known k w.cancel ((k, w) ∷ ws)
Known-first k w ws a b = (
  same_refl k ∙ sym (same_number w.cancel),
  All-map (λ e h. same_not e.0 k h.0 ∙ sym (other_number e.1.cancel w.cancel h.1)) ws
      (All-both _ _ ws a b),
)

Known-rest :
    (k : String) (w : Worker) (ws es : Workers)
    → All (λ e. e.0 ≢ k) es
    → All (λ e. e.1.cancel ≢ w.cancel) es
    → All (λ e. Known e.0 e.1.cancel ws) es
    → All (λ e. Known e.0 e.1.cancel ((k, w) ∷ ws)) es
Known-rest k w ws [] a b h = tt
Known-rest k w ws (e ∷ es) a b h = (
  (
    same_not k e.0 (λ q. a.0 (sym q)) ∙ sym (other_number w.cancel e.1.cancel (λ q. b.0 (sym q))),
    h.0,
  ),
  Known-rest k w ws es a.1 b.1 h.1,
)

pub all-Known : (ws : Workers) → IsMap ws → IsOnce ws → All (λ e. Known e.0 e.1.cancel ws) ws
all-Known [] a b = tt
all-Known ((k, w) ∷ ws) a b =
    (Known-first k w ws a.0 b.0, Known-rest k w ws ws a.0 b.0 (all-Known ws a.1 b.1))

pub delete-IsOnce : (id : String) (ws : Workers) → IsOnce ws → IsOnce (delete id ws)
unfolding delete
delete-IsOnce id [] h = h
delete-IsOnce id ((k, w) ∷ ws) h = elim (Bool-cases (same k id)) [
  | inl e ↦ simp e (delete-IsOnce id ws h.1)
  | inr e ↦ simp e (delete-All (λ e. e.1.cancel ≢ w.cancel) id ws h.0, delete-IsOnce id ws h.1)
]

module _ (spec_hash : Spec → String) where
  delete-Matched :
      (id : String) (n : ℕ) (ws : Workers) (rs : List Runner)
      → Known id n ws
      → Matched spec_hash ws rs
      → Matched spec_hash (delete id ws) (cancel_runner n rs)
  unfolding delete cancel_runner
  delete-Matched id n [] [] k m = m
  delete-Matched id n [] (r ∷ rs) k m = absurd m
  delete-Matched id n (e ∷ ws) [] k m = absurd m
  delete-Matched id n ((j, w) ∷ ws) (r ∷ rs) k m =
      let number : (r.serial == n) ≡ same j id = ap (λ x. x == n) m.0.serial ∙ sym k.0 in
      let rest = delete-Matched id n ws rs k.1 m.1 in
      elim (Bool-cases (same j id)) [
        | inl e ↦ simp (e, number ∙ e) rest
        | inr e ↦ simp (e, number ∙ e) (m.0, rest)
      ]

  -- A worker that stops takes its goroutine with it.
  pub removed-IsSound :
      (id : String) (n : ℕ) (s : Scheduler)
      → Known id n s.workers
      → IsSound spec_hash s
      → IsSound spec_hash
          (record s { workers = delete id s.workers; live = cancel_runner n s.live })
  removed-IsSound id n s k h = record {
    keys = delete-IsMap id s.workers h.keys;
    once = delete-IsOnce id s.workers h.once;
    fresh = delete-All (λ e. e.1.cancel < s.next) id s.workers h.fresh;
    timed = delete-All (λ e. 0 < e.1.interval) id s.workers h.timed;
    matched = delete-Matched id n s.workers s.live k h.matched;
  }
