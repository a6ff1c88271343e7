-- ===== src/Outage/Sweep/Tests.antt =====
-- Tests of the silence sweep (internal/server/outage/sweep.go), and the theorems at concrete inputs.
use polarbeam.Base.{
  ℕ, ◌+◌, ◌≡◌, refl, false, none, some, [], ◌∷◌, All, length, arith, if◌then◌else◌,
}
use polarbeam.Outage.{probe_failing, agent_offline}
use polarbeam.Outage.Table.{Event, Env, Row}
use polarbeam.Outage.Sweep.{
  Agent, signals_of, is_silent, sweep_agent, is_orphan, is_dangling, close_orphan_events,
}
use polarbeam.Outage.Sweep.Offline.{count_open, sweep_agent-count}
use polarbeam.Outage.Sweep.Orphans.{close_orphan_events-repairs}

abbrev plain : Env
plain = record { new_id = λ es. length es + 1; timestamptz = λ t. t; sort_by_time = λ rs. rs }

abbrev quiet : Agent
quiet = record { id = 5; last_seen = 1000; interval_ms = some 10 }

abbrev failing : Event
failing = record {
  id = 3;
  kind = probe_failing;
  agent_id = 5;
  probe_id = 7;
  target_id = 8;
  probe_type = 1;
  opened_at = 900;
  closed_at = none;
  open_error = none;
}

abbrev series : Row
series = record {
  agent_id = 5;
  probe_id = 7;
  target_id = 8;
  probe_type = 1;
  consec_fails = 4;
  consec_oks = 0;
  consec_degraded = 0;
  consec_clean = 0;
  first_fail_at = some 900;
  first_ok_at = none;
  first_degraded_at = none;
  first_clean_at = none;
  last_status = 2;
  last_time = 2000;
  last_loss_pct = none;
  last_latency_us = none;
  last_latency_source = none;
  open_event_id = some 3;
}

-- Two minutes and one nanosecond after it was seen.
abbrev later : ℕ
later = 120_000_001_001

goes_offline :
    sweep_agent plain later (signals_of quiet (failing ∷ []) (series ∷ [])) (failing ∷ [])
    ≡ failing
      ∷ record {
        id = 2;
        kind = agent_offline;
        agent_id = 5;
        probe_id = 0;
        target_id = 0;
        probe_type = 0;
        opened_at = 2000;
        closed_at = none;
        open_error = none;
      }
      ∷ []
unfolding sweep_agent signals_of
goes_offline = refl

orphan_closed : close_orphan_events plain later [] (failing ∷ []) (series ∷ []) ≡ (
  record failing { closed_at = some later } ∷ [],
  record series { consec_fails = 0; first_fail_at = none; open_event_id = none } ∷ [],
)
unfolding close_orphan_events
orphan_closed = refl

sweep_agent-count_example :
    count_open 5
      (sweep_agent plain later (signals_of quiet (failing ∷ []) (series ∷ [])) (failing ∷ []))
    ≡ (if is_silent later (signals_of quiet (failing ∷ []) (series ∷ [])) then 1 else 0)
sweep_agent-count_example =
    sweep_agent-count plain later quiet (failing ∷ []) (series ∷ [])
      (unfold count_open in omega arith)

close_orphan_events-repairs_example :
    let (es, rows) = close_orphan_events plain later [] (failing ∷ []) (series ∷ []) in
    All (λ e. is_orphan [] e ≡ false) es × All (λ row. is_dangling es row ≡ false) rows
close_orphan_events-repairs_example =
    close_orphan_events-repairs plain later [] (failing ∷ []) (series ∷ [])
