-- ===== src/Scheduler/Live.antt =====
-- No goroutine of the probe scheduler leaks, and none is left out
-- (internal/agent/scheduler/scheduler.go), after any calls of `Apply` and `Stop`.
use polarbeam.Base.{
  ℕ, ◌<◌, ◌≡◌, ◌≢◌, refl, sym, ap, subst, ◌∙◌, String, Bool, true, List, [], ◌∷◌, Bool-cases, inl,
  inr, All, All-map,
}
use polarbeam.Scheduler.{
  Spec, Worker, Scheduler, new_scheduler, cancel_runner, delete, delete-All, delete-gone, IsMap,
  collect, start_all, prune, apply, stop_all, stop,
}
use polarbeam.Scheduler.Known.{Workers, IsOnce, All-both, Matched, IsSound}
use polarbeam.Scheduler.Loops.{HasKey, all-HasKey, Covered-end, apply-Pruning, start_all-IsSound}
use polarbeam.Scheduler.{Call, snapshot, stop_call, serve_one, serve}

remaining :
    (id : String) (w : Worker) (es : Workers) (v : String × Worker)
    → (v.0 ≢ id) × HasKey v.0 ((id, w) ∷ es)
    → HasKey v.0 es
remaining id w es v (n, inl q) = absurd (n (sym q))
remaining id w es v (n, inr h) = h

cancel_none : (n : ℕ) → cancel_runner n [] ≡ []
unfolding cancel_runner
cancel_none n = refl

none_left : (ws : Workers) → All (λ v. HasKey v.0 []) ws → ws ≡ []
none_left [] h = refl
none_left (v ∷ ws) h = absurd h.0

stop_all-empties :
    (es : Workers) (s : Scheduler)
    → All (λ v. HasKey v.0 es) s.workers
    → s.live ≡ []
    → ((stop_all es s).workers ≡ []) × ((stop_all es s).live ≡ [])
unfolding stop_all
stop_all-empties [] s h l = (none_left s.workers h, l)
stop_all-empties ((id, w) ∷ es) s h l =
    stop_all-empties es _
      (All-map (remaining id w es) (delete id s.workers) (
        All-both _ _ (delete id s.workers) (delete-gone id s.workers)
          (delete-All (λ v. HasKey v.0 ((id, w) ∷ es)) id s.workers h)))
      (ap (cancel_runner w.cancel) l ∙ cancel_none w.cancel)

stop-empties : (s : Scheduler) → ((stop s).workers ≡ []) × ((stop s).live ≡ [])
unfolding stop
stop-empties s =
    stop_all-empties s.workers (record s { stopped = true; live = [] }) (all-HasKey s.workers) refl

stop_all_stopped : (es : Workers) (s : Scheduler) → (stop_all es s).stopped ≡ s.stopped
unfolding stop_all
stop_all_stopped [] s = refl
stop_all_stopped ((id, w) ∷ es) s = stop_all_stopped es _

stop_stopped : (s : Scheduler) → (stop s).stopped ≡ true
unfolding stop
stop_stopped s = stop_all_stopped s.workers (record s { stopped = true; live = [] })

-- Nothing runs, and nothing will.
record Ended (s : Scheduler) : Type 0 where
  workers : s.workers ≡ []
  live : s.live ≡ []
  stopped : s.stopped ≡ true

stop-Ended : (s : Scheduler) → Ended (stop s)
stop-Ended s = record {
  workers = (stop-empties s).0;
  live = (stop-empties s).1;
  stopped = stop_stopped s;
}

module _ (registry : ℕ → Bool) (spec_hash : Spec → String) where
  -- `Apply` of a scheduler that has not stopped.
  reconciled-IsSound :
      (probes : List Spec) (s : Scheduler)
      → IsSound spec_hash s
      → let ds = prune registry spec_hash s.workers (collect probes [], s) in
        IsSound spec_hash (start_all registry spec_hash ds.0 ds.1)
  reconciled-IsSound probes s h =
      let pruned = apply-Pruning registry spec_hash probes s h in
      let ds = prune registry spec_hash s.workers (collect probes [], s) in
      start_all-IsSound registry spec_hash ds.0 ds.1 pruned.desired
        (All-map (Covered-end ds.0) ds.1.workers pruned.covered) pruned.sound

  apply-IsSound :
      (probes : List Spec) (s : Scheduler)
      → IsSound spec_hash s
      → IsSound spec_hash (apply registry spec_hash probes s)
  unfolding apply
  apply-IsSound probes s h = elim (Bool-cases s.stopped) [
    | inl t ↦ simp t h
    | inr t ↦ simp t (reconciled-IsSound probes s h)
  ]

  empty-IsSound : (s : Scheduler) → s.workers ≡ [] → s.live ≡ [] → IsSound spec_hash s
  empty-IsSound s e f = record {
    keys = subst IsMap (sym e) tt;
    once = subst IsOnce (sym e) tt;
    fresh = subst (All (λ v. v.1.cancel < s.next)) (sym e) tt;
    timed = subst (All (λ v. 0 < v.1.interval)) (sym e) tt;
    matched =
        subst (λ ws. Matched spec_hash ws s.live) (sym e) (subst (Matched spec_hash []) (sym f) tt);
  }

  stop-IsSound : (s : Scheduler) → IsSound spec_hash (stop s)
  stop-IsSound s = empty-IsSound (stop s) (stop-empties s).0 (stop-empties s).1

  serve_one-IsSound :
      (s : Scheduler) (c : Call)
      → IsSound spec_hash s
      → IsSound spec_hash (serve_one registry spec_hash s c)
  serve_one-IsSound s (snapshot probes) h = apply-IsSound probes s h
  serve_one-IsSound s stop_call h = stop-IsSound s

  serve_from-IsSound :
      (s : Scheduler) (cs : List Call)
      → IsSound spec_hash s
      → IsSound spec_hash (serve registry spec_hash s cs)
  serve_from-IsSound s [] h = h
  serve_from-IsSound s (c ∷ cs) h =
      serve_from-IsSound (serve_one registry spec_hash s c) cs (serve_one-IsSound s c h)

  -- After any calls of `Apply` and `Stop` on a new scheduler: the workers have different ids and
  -- goroutines, each worker's goroutine goes on with the spec of its id and hash and at its interval,
  -- and no other goroutine goes on.
  pub serve-IsSound :
      (cs : List Call) → IsSound spec_hash (serve registry spec_hash new_scheduler cs)
  serve-IsSound cs = serve_from-IsSound new_scheduler cs (empty-IsSound new_scheduler refl refl)

  serve-Ended : (s : Scheduler) (cs : List Call) → Ended s → Ended (serve registry spec_hash s cs)
  unfolding apply
  serve-Ended s [] h = h
  serve-Ended s (snapshot probes ∷ cs) h =
      serve-Ended (apply registry spec_hash probes s) cs (simp h.stopped h)
  serve-Ended s (stop_call ∷ cs) h = serve-Ended (stop s) cs (stop-Ended s)

  -- Whatever a scheduler did before, once it is stopped no worker is kept and no goroutine goes on, and
  -- no call after that starts one.
  pub nothing_after_stop :
      (s : Scheduler) (cs : List Call)
      → let s' = serve registry spec_hash (stop s) cs in (s'.workers ≡ []) × (s'.live ≡ [])
  nothing_after_stop s cs = let e = serve-Ended (stop s) cs (stop-Ended s) in (e.workers, e.live)
