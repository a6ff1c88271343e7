-- ===== src/Scheduler/Fastest.antt =====
-- `FastestInterval` of the probe scheduler (internal/agent/scheduler/scheduler.go), which the watchdog
-- of the uplink waits for.
use polarbeam.Base.{
  ℕ, ◌≤◌, ◌<◌, ◌≡◌, ◌⊎◌, refl, sym, ◌∙◌, String, Bool, true, ◌&&◌, ◌||◌, Bool-cases, inl, inr, List,
  [], ◌∷◌, All, arith, ltb, ◌==◌, if◌then◌else◌,
}
use polarbeam.Scheduler.{Worker, Spec, fastest_loop, fastest_interval, new_scheduler, Call, serve}
use polarbeam.Scheduler.Known.{Workers}
use polarbeam.Scheduler.Live.{serve-IsSound}

-- No worker that gives evidence is faster.
abbrev pub IsLeast : ℕ → Workers → Type 0
IsLeast f ws = All (λ e. e.1.evidence ≡ true → (0 < f) × (f ≤ e.1.interval)) ws

-- A worker that gives evidence has this interval.
abbrev pub IsOne : ℕ → Workers → Type 0
IsOne f [] = ⊥
IsOne f (e ∷ ws) = ((e.1.evidence ≡ true) × (e.1.interval ≡ f)) ⊎ IsOne f ws

abbrev pick : Worker → ℕ → ℕ
pick w f = if w.evidence && (f == 0 || ltb w.interval f) then w.interval else f

-- One turn: the least so far.
pick_lem :
    (w : Worker) (f : ℕ)
    → 0 < w.interval
    → (w.evidence ≡ true → (0 < pick w f) × (pick w f ≤ w.interval))
      × (0 < f → (0 < pick w f) × (pick w f ≤ f))
pick_lem w f l = ((λ e. (ground arith, ground arith)), (λ m. (ground arith, ground arith)))

pick_one : (w : Worker) (f : ℕ) → (pick w f ≡ f) ⊎ ((w.evidence ≡ true) × (w.interval ≡ pick w f))
pick_one w f = elim (Bool-cases w.evidence) [
  | inr e ↦ inl (ground arith)
  | inl e ↦ elim (Bool-cases (f == 0 || ltb w.interval f)) [
    | inl t ↦ inr (e, ground arith)
    | inr t ↦ inl (ground arith)
  ]
]

fastest_loop-lower :
    (ws : Workers) (f : ℕ)
    → All (λ e. 0 < e.1.interval) ws
    → 0 < f
    → (0 < fastest_loop ws f) × (fastest_loop ws f ≤ f)
unfolding fastest_loop
fastest_loop-lower [] f h l = (l, omega arith)
fastest_loop-lower ((id, w) ∷ ws) f h l =
    let p = (pick_lem w f h.0).1 l in
    let k = fastest_loop-lower ws (pick w f) h.1 p.0 in (k.0, omega (arith, k.1, p.1))

fastest_loop-IsLeast :
    (ws : Workers) (f : ℕ) → All (λ e. 0 < e.1.interval) ws → IsLeast (fastest_loop ws f) ws
unfolding fastest_loop
fastest_loop-IsLeast [] f h = tt
fastest_loop-IsLeast ((id, w) ∷ ws) f h = (
  (λ e.
      let p = (pick_lem w f h.0).0 e in
      let k = fastest_loop-lower ws (pick w f) h.1 p.0 in (k.0, omega (arith, k.1, p.1))),
  fastest_loop-IsLeast ws (pick w f) h.1,
)

fastest_loop-IsOne : (ws : Workers) (f : ℕ) → (fastest_loop ws f ≡ f) ⊎ IsOne (fastest_loop ws f) ws
unfolding fastest_loop
fastest_loop-IsOne [] f = inl refl
fastest_loop-IsOne ((id, w) ∷ ws) f = elim (fastest_loop-IsOne ws (pick w f)) [
  | inr h ↦ inr (inr h)
  | inl e ↦ elim (pick_one w f) [ inl q ↦ inl (e ∙ q) | inr q ↦ inr (inl (q.0, q.1 ∙ sym e)) ]
]

-- After any calls of `Apply` and `Stop` on a new scheduler: `FastestInterval` is above zero and at most
-- the interval of every worker that gives evidence, and it is 0 or the interval of one of them.
fastest_interval-IsLeast :
    (registry : ℕ → Bool) (spec_hash : Spec → String) (cs : List Call)
    → let s = serve registry spec_hash new_scheduler cs in
      IsLeast (fastest_interval s) s.workers
      × ((fastest_interval s ≡ 0) ⊎ IsOne (fastest_interval s) s.workers)
fastest_interval-IsLeast registry spec_hash cs =
    let s = serve registry spec_hash new_scheduler cs in
    (
      fastest_loop-IsLeast s.workers 0 (serve-IsSound registry spec_hash cs).timed,
      fastest_loop-IsOne s.workers 0,
    )
