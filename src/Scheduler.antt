-- ===== src/Scheduler.antt =====
-- The agent's probe scheduler (internal/agent/scheduler/scheduler.go): `Apply` as the reconciliation of
-- the running workers with a snapshot, `Stop` and `FastestInterval`. A Go map is the list of its entries,
-- and a loop over it takes their order. The registry and the hash of a spec are arguments.
mod Tables
pub mod Known
pub mod Loops
pub mod Live
pub mod Collect
pub mod Reconcile
pub mod Fastest
mod Tests
unfoldable pub use Tables.*
use polarbeam.Base.{
  ℤ, pos, negsuc, ℕ, suc, ◌+◌, ◌<◌, String, Bool, true, false, ◌&&◌, ◌||◌, not, Option, none, some,
  List, [], ◌∷◌, ltb, ◌==◌, if◌then◌else◌,
}

-- `pb.ProbeSpec`, its interval a Duration in nanoseconds, with what else it says as one text.
pub record Spec : Type 0 where
  pub probe_id : String
  pub kind : ℕ
  pub interval : ℤ
  pub body : String

pub data Prober : Type 0 where
  registered : ℕ → Prober
  unsupported : Prober
  misconfigured : ℤ → Prober

-- `worker`: its `cancel` is the number of the goroutine that it stops.
pub record Worker : Type 0 where
  pub spec_hash : String
  pub cancel : ℕ
  pub interval : ℕ
  pub evidence : Bool

-- A goroutine of `runWorker` whose context is not cancelled.
pub record Runner : Type 0 where
  pub serial : ℕ
  pub spec : Spec
  pub prober : Prober
  pub interval : ℕ

-- `Scheduler`, with the goroutines that go on, and the number of the next one.
pub record Scheduler : Type 0 where
  pub stopped : Bool
  pub workers : List (String × Worker)
  pub live : List Runner
  pub next : ℕ

abbrev pub new_scheduler : Scheduler
new_scheduler = record { stopped = false; workers = []; live = []; next = 0 }

-- `context.CancelFunc`
unfoldable pub cancel_runner : ℕ → List Runner → List Runner
cancel_runner n [] = []
cancel_runner n (r ∷ rs) = let rest = cancel_runner n rs in if r.serial == n then rest else r ∷ rest

-- A minute.
abbrev pub misconfigured_interval : ℕ
misconfigured_interval = 60_000_000_000

abbrev pub registered_or : Bool → ℕ → Prober
registered_or true kind = registered kind
registered_or false kind = unsupported

-- The prober and the cadence of a spec.
abbrev pub planned : Prober → ℤ → Prober × ℕ
planned p (pos (suc n)) = (p, suc n)
planned p i = (misconfigured i, misconfigured_interval)

abbrev pub gives_evidence : Prober → Bool
gives_evidence (registered kind) = true
gives_evidence _ = false

-- The loop that collects the snapshot's specs by their id.
unfoldable pub collect : List Spec → List (String × Spec) → List (String × Spec)
collect [] desired = desired
collect (spec ∷ specs) desired = collect specs (
    if same spec.probe_id "" || is_some (lookup spec.probe_id desired)
    then desired
    else insert spec.probe_id spec desired)

module _ (registry : ℕ → Bool) (spec_hash : Spec → String) where
  -- `startWorkerLocked`
  unfoldable pub start_worker : Scheduler → String → Spec → Scheduler
  start_worker s id spec =
      let (prober, interval) =
        planned (registered_or (registry spec.kind) spec.kind) spec.interval in
      record s {
        workers =
            insert id
              (record {
                spec_hash = spec_hash spec;
                cancel = s.next;
                interval = interval;
                evidence = gives_evidence prober;
              })
              s.workers;
        live =
            record { serial = s.next; spec = spec; prober = prober; interval = interval } ∷ s.live;
        next = s.next + 1;
      }

  -- `keep && w.specHash == specHash(spec)`
  abbrev pub is_kept : Worker → Option Spec → Bool
  is_kept w none = false
  is_kept w (some spec) = same w.spec_hash (spec_hash spec)

  -- One turn of the loop over the workers, on the desired specs and the scheduler.
  unfoldable pub prune_one :
      String → Worker → List (String × Spec) × Scheduler → List (String × Spec) × Scheduler
  prune_one id w (desired, s) = if is_kept w (lookup id desired) then (delete id desired, s) else (
    desired,
    record s { workers = delete id s.workers; live = cancel_runner w.cancel s.live },
  )

  unfoldable pub prune :
      List (String × Worker) → List (String × Spec) × Scheduler → List (String × Spec) × Scheduler
  unfolding prune_one
  prune [] ds = ds
  prune ((id, w) ∷ ws) ds = prune ws (prune_one id w ds)

  unfoldable pub start_all : List (String × Spec) → Scheduler → Scheduler
  unfolding start_worker
  start_all [] s = s
  start_all ((id, spec) ∷ es) s = start_all es (start_worker s id spec)

  -- `Apply`
  unfoldable pub apply : List Spec → Scheduler → Scheduler
  unfolding collect prune start_all
  apply probes s =
      if s.stopped
      then s
      else (let (desired, pruned) = prune s.workers (collect probes [], s) in
          start_all desired pruned)

-- The loop of `Stop` over the workers.
unfoldable pub stop_all : List (String × Worker) → Scheduler → Scheduler
stop_all [] s = s
stop_all ((id, w) ∷ ws) s =
    stop_all ws (record s { workers = delete id s.workers; live = cancel_runner w.cancel s.live })

-- `Stop`: the scheduler's own context is the parent of the workers'.
unfoldable pub stop : Scheduler → Scheduler
unfolding stop_all
stop s = stop_all s.workers (record s { stopped = true; live = [] })

unfoldable pub fastest_loop : List (String × Worker) → ℕ → ℕ
fastest_loop [] fastest = fastest
fastest_loop ((id, w) ∷ ws) fastest =
    fastest_loop ws
      (if w.evidence && (fastest == 0 || ltb w.interval fastest) then w.interval else fastest)

-- `FastestInterval`
abbrev pub fastest_interval : Scheduler → ℕ
fastest_interval s = fastest_loop s.workers 0

-- The calls of a scheduler, which its lock puts in an order.
pub data Call : Type 0 where
  snapshot : List Spec → Call
  stop_call : Call

abbrev pub serve_one : (ℕ → Bool) → (Spec → String) → Scheduler → Call → Scheduler
serve_one registry spec_hash s (snapshot probes) = apply registry spec_hash probes s
serve_one registry spec_hash s stop_call = stop s

abbrev pub serve : (ℕ → Bool) → (Spec → String) → Scheduler → List Call → Scheduler
serve registry spec_hash s [] = s
serve registry spec_hash s (c ∷ cs) = serve registry spec_hash (serve_one registry spec_hash s c) cs
