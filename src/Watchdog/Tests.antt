-- ===== src/Watchdog/Tests.antt =====
-- Tests of the watchdog (internal/agent/uplink/watchdog.go), and the theorems at concrete inputs. The
-- times are small numbers, long before 1970, so that an OK probe is always recent.
use polarbeam.Base.{ℕ, ◌≡◌, refl, true, false, List, [], ◌∷◌, ◌++◌, arith}
use polarbeam.Watchdog.{Tick, unreachable, watching, watchdog}
use polarbeam.Watchdog.Turns.{ready_since, Dead}
use polarbeam.Watchdog.Verdicts.{watchdog-Dead}

abbrev ready_at : ℕ → Tick
ready_at t = record { cancelled = false; now = t; ready = true; fastest = 4; last_probe_ok = 0 }

abbrev down_at : ℕ → Tick
down_at t = record { cancelled = false; now = t; ready = false; fastest = 4; last_probe_ok = 0 }

abbrev probing_at : ℕ → Tick
probing_at t = record { cancelled = false; now = t; ready = false; fastest = 4; last_probe_ok = 1 }

-- The budget is twice the fastest interval, which is more than the limit of 5.
abbrev outage : List Tick
outage = down_at 15 ∷ ready_at 30 ∷ down_at 37 ∷ probing_at 45 ∷ []

outage_over : watchdog 5 10 (outage ++ down_at 60 ∷ []) ≡ unreachable 30 8
unfolding watchdog
outage_over = refl

still_watching : watchdog 5 10 outage ≡ watching (record { last_ready = 30; held_back = true })
unfolding watchdog
still_watching = refl

Dead-at_60 : Dead 5 (ready_since 10 outage) (down_at 60)
unfolding ready_since
Dead-at_60 = record {
  not_cancelled = refl;
  not_ready = refl;
  over_budget = omega arith;
  no_evidence = λ e. cc e;
}

watchdog-Dead_example :
    (s : ℕ) × (b : ℕ) × (watchdog 5 10 (outage ++ down_at 60 ∷ []) ≡ unreachable s b)
watchdog-Dead_example =
    watchdog-Dead 5 10 outage [] (down_at 60) (omega arith) (refl, (refl, (refl, (refl, tt))))
      Dead-at_60
