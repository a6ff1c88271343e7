-- ===== src/Scheduler/Tests.antt =====
-- The probe scheduler (internal/agent/scheduler/scheduler.go) at concrete snapshots. The hash of a spec
-- is its text, and the agent has a prober for the kind 1.
use polarbeam.Base.{pos, ℕ, ◌≡◌, refl, String, Bool, false, List, [], ◌∷◌, map, ◌==◌}
use polarbeam.Scheduler.{
  Spec, Scheduler, new_scheduler, cancel_runner, apply, stop, fastest_interval, fastest_loop, Call,
  snapshot, serve, lookup, delete, insert,
}
use polarbeam.Scheduler.Known.{IsSound}
use polarbeam.Scheduler.Live.{serve-IsSound, nothing_after_stop}
use polarbeam.Scheduler.Collect.{first_spec}
use polarbeam.Scheduler.Reconcile.{AsDesired, apply_reconciles}

abbrev registry : ℕ → Bool
registry kind = kind == 1

abbrev spec_hash : Spec → String
spec_hash spec = spec.body

abbrev spec_of : String → ℕ → ℕ → String → Spec
spec_of id kind n text = record { probe_id = id; kind = kind; interval = pos n; body = text }

-- A duplicate, a spec without an id, one of an unknown kind, and one with no interval.
abbrev first_probes : List Spec
first_probes =
    spec_of "a" 1 30 "x"
    ∷ spec_of "a" 1 20 "y"
    ∷ spec_of "" 1 10 "z"
    ∷ spec_of "b" 2 5 "u"
    ∷ spec_of "c" 1 0 "v"
    ∷ []

-- "a" is unchanged, "b" is now known, and "c" is gone.
abbrev second_probes : List Spec
second_probes = spec_of "a" 1 30 "x" ∷ spec_of "b" 1 40 "w" ∷ []

abbrev first_calls : List Call
first_calls = snapshot first_probes ∷ []

abbrev running : Scheduler
running = serve registry spec_hash new_scheduler first_calls

abbrev rerunning : Scheduler
rerunning = apply registry spec_hash second_probes running

running_ids :
    (map (λ e. e.0) running.workers ≡ "a" ∷ "b" ∷ "c" ∷ [])
    × (map (λ e. e.1.cancel) running.workers ≡ 2 ∷ 1 ∷ 0 ∷ [])
    × (map (λ e. e.0) rerunning.workers ≡ "b" ∷ "a" ∷ [])
    × (map (λ r. r.serial) rerunning.live ≡ 3 ∷ 2 ∷ [])
unfolding apply lookup insert delete cancel_runner
running_ids = (refl, refl, refl, refl)

serve-IsSound_example : IsSound spec_hash (serve registry spec_hash new_scheduler first_calls)
serve-IsSound_example = serve-IsSound registry spec_hash first_calls

running_goes_on : running.stopped ≡ false
unfolding apply lookup insert
running_goes_on = refl

running-IsSound : IsSound spec_hash running
running-IsSound = serve-IsSound registry spec_hash first_calls

apply_reconciles_example :
    AsDesired registry spec_hash running.next
      (first_spec "a" second_probes)
      (lookup "a" running.workers)
      (lookup "a" rerunning.workers)
apply_reconciles_example =
    apply_reconciles registry spec_hash "a" second_probes running running-IsSound running_goes_on

fastest_here : fastest_interval running ≡ 30
unfolding apply fastest_loop lookup insert delete
fastest_here = refl

nothing_after_stop_example :
    let s = serve registry spec_hash (stop running) first_calls in (s.workers ≡ []) × (s.live ≡ [])
nothing_after_stop_example = nothing_after_stop registry spec_hash running first_calls
