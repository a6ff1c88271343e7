-- ===== src/Outage/Sweep.antt =====
-- The silence sweep (internal/server/outage/sweep.go): `sweepOnce`, which opens and closes the
-- agent_offline events, and `closeOrphanEvents`, both on the tables of Outage/Table. The columns
-- that an agent_offline row leaves NULL are 0 here, where no statement reads them. A difference of
-- times that the code cuts at the largest Duration is above both limits that it is compared with.
pub mod Offline
pub mod Orphans
mod Tests
use polarbeam.Base.{
  ℕ, ◌+◌, ◌-◌, ◌*◌, ◌^◌, Bool, true, false, ◌&&◌, ◌||◌, not, Option, none, some, List, [], ◌∷◌,
  ◌++◌, max, ltb, ◌==◌, if◌then◌else◌,
}
use polarbeam.Outage.{Kind, probe_failing, probe_degraded, agent_offline}
use polarbeam.Outage.Table.{Event, Env, Row, is_kind, is_none, is_row, or_zero, update_closed}

-- 2 minutes.
abbrev pub offline_seen_grace : ℕ
offline_seen_grace = 120_000_000_000

-- An agent that was seen, and the int4 that the query finds for it in the configuration tables: the
-- fastest interval in milliseconds, as a 32-bit pattern.
pub record Agent : Type 0 where
  pub id : ℕ
  pub last_seen : ℕ
  pub interval_ms : Option ℕ

-- `agentSignals`. A MinInterval that is not positive is 0, which is all that the code asks.
pub record Signals : Type 0 where
  pub agent_id : ℕ
  pub last_seen : ℕ
  pub min_interval : ℕ
  pub last_result : ℕ
  pub open_event_id : Option ℕ

abbrev pub min_interval_of : Option ℕ → ℕ
min_interval_of none = 0
min_interval_of (some ms) = if ltb ms (2 ^ 31) then ms * 1_000_000 else 0

-- `SELECT max(ss.last_time) FROM series_state ss WHERE ss.agent_id = a.id`
unfoldable pub last_result_of : ℕ → List Row → Option ℕ
last_result_of a [] = none
last_result_of a (row ∷ rows) =
    let rest = last_result_of a rows in
    if row.agent_id == a then some (max row.last_time (or_zero rest)) else rest

abbrev pub is_offline_open : ℕ → Event → Bool
is_offline_open a e = e.agent_id == a && is_kind agent_offline e.kind && is_none e.closed_at

-- The agent's open agent_offline event.
unfoldable pub select_offline : ℕ → List Event → Option ℕ
select_offline a [] = none
select_offline a (e ∷ es) = if is_offline_open a e then some e.id else select_offline a es

-- One row of the sweep query.
unfoldable pub signals_of : Agent → List Event → List Row → Signals
unfolding last_result_of select_offline
signals_of a es rows = record {
  agent_id = a.id;
  last_seen = a.last_seen;
  min_interval = min_interval_of a.interval_ms;
  last_result = or_zero (last_result_of a.id rows);
  open_event_id = select_offline a.id es;
}

-- The local `silent` of `decideOffline`.
unfoldable pub is_silent : ℕ → Signals → Bool
is_silent now s =
    (s.last_result == 0 || s.min_interval == 0 || ltb (3 * s.min_interval) (now - s.last_result))
    && ltb offline_seen_grace (now - s.last_seen)

unfoldable pub decide_offline : ℕ → Signals → Bool × Bool
unfolding is_silent
decide_offline now s =
    if is_none s.open_event_id then (is_silent now s, false) else (false, not (is_silent now s))

-- The last evidence of life.
abbrev pub opened_at_of : Signals → ℕ
opened_at_of s = if ltb s.last_seen s.last_result then s.last_result else s.last_seen

-- The INSERT: on a conflict with an open row of the agent nothing is inserted.
unfoldable pub insert_offline : Env → Signals → List Event → List Event
unfolding select_offline
insert_offline env s es =
    if is_none (select_offline s.agent_id es)
    then es
      ++ record {
        id = env.new_id es;
        kind = agent_offline;
        agent_id = s.agent_id;
        probe_id = 0;
        target_id = 0;
        probe_type = 0;
        opened_at = env.timestamptz (opened_at_of s);
        closed_at = none;
        open_error = none;
      }
        ∷ []
    else es

abbrev pub close_offline : Env → ℕ → Option ℕ → List Event → List Event
close_offline env now none es = es
close_offline env now (some i) es = update_closed env i now es

abbrev pub act_offline : Env → ℕ → Signals → Bool × Bool → List Event → List Event
act_offline env now s (true, close) es = insert_offline env s es
act_offline env now s (false, true) es = close_offline env now s.open_event_id es
act_offline env now s (false, false) es = es

-- One turn of the loop over the agents.
unfoldable pub sweep_agent : Env → ℕ → Signals → List Event → List Event
unfolding decide_offline insert_offline update_closed
sweep_agent env now s es = act_offline env now s (decide_offline now s) es

unfoldable pub sweep_agents : Env → ℕ → List Signals → List Event → List Event
unfolding sweep_agent
sweep_agents env now [] es = es
sweep_agents env now (s ∷ ss) es = sweep_agents env now ss (sweep_agent env now s es)

-- The signals of every agent are read before the first event is written.
unfoldable pub all_signals : List Agent → List Event → List Row → List Signals
unfolding signals_of
all_signals [] es rows = []
all_signals (a ∷ more) es rows = signals_of a es rows ∷ all_signals more es rows

unfoldable pub sweep_once : Env → ℕ → List Agent → List Event → List Row → List Event
unfolding sweep_agents all_signals
sweep_once env now agents es rows = sweep_agents env now (all_signals agents es rows) es

unfoldable pub elem : ℕ → List ℕ → Bool
elem n [] = false
elem n (m ∷ ms) = n == m || elem n ms

-- An open event of a probe that is not assigned.
abbrev pub is_orphan : List ℕ → Event → Bool
is_orphan ids e =
    (is_kind probe_failing e.kind || is_kind probe_degraded e.kind)
    && is_none e.closed_at
    && not (elem e.probe_id ids)

unfoldable pub find_orphans : List ℕ → List Event → List ℕ
unfolding elem
find_orphans ids [] = []
find_orphans ids (e ∷ es) =
    if is_orphan ids e then e.id ∷ find_orphans ids es else find_orphans ids es

unfoldable pub close_all : Env → ℕ → List ℕ → List Event → List Event
unfolding update_closed
close_all env now [] es = es
close_all env now (i ∷ is) es = close_all env now is (update_closed env i now es)

unfoldable pub is_closed : ℕ → List Event → Bool
is_closed i [] = false
is_closed i (e ∷ es) = e.id == i && not (is_none e.closed_at) || is_closed i es

-- The row points to a closed event.
abbrev pub points_to_closed : List Event → Option ℕ → Bool
points_to_closed es none = false
points_to_closed es (some i) = is_closed i es

abbrev pub is_dangling : List Event → Row → Bool
is_dangling es row = points_to_closed es row.open_event_id

unfoldable pub find_damaged : List Event → List Row → List (ℕ × ℕ)
unfolding is_closed
find_damaged es [] = []
find_damaged es (row ∷ rows) =
    if is_dangling es row
    then (row.agent_id, row.probe_id) ∷ find_damaged es rows
    else find_damaged es rows

-- The UPDATE of one series, which tests its pointer again.
abbrev pub reset_row : List Event → ℕ × ℕ → Row → Row
reset_row es (a, p) row =
    if is_row a p row && is_dangling es row
    then record row {
      open_event_id = none;
      consec_fails = 0;
      consec_oks = 0;
      consec_degraded = 0;
      consec_clean = 0;
      first_fail_at = none;
      first_ok_at = none;
      first_degraded_at = none;
      first_clean_at = none;
    }
    else row

unfoldable pub reset_series : List Event → ℕ × ℕ → List Row → List Row
reset_series es k [] = []
reset_series es k (row ∷ rows) = reset_row es k row ∷ reset_series es k rows

unfoldable pub reset_all : List Event → List (ℕ × ℕ) → List Row → List Row
unfolding reset_series
reset_all es [] rows = rows
reset_all es (k ∷ ks) rows = reset_all es ks (reset_series es k rows)

-- `closeOrphanEvents`, on the ids of the assigned probes.
unfoldable pub close_orphan_events :
    Env → ℕ → List ℕ → List Event → List Row → List Event × List Row
unfolding find_orphans close_all find_damaged reset_all
close_orphan_events env now ids es rows =
    let es' = close_all env now (find_orphans ids es) es in
    (es', reset_all es' (find_damaged es' rows) rows)
