-- ===== src/Outage.antt =====
-- The hysteresis of internal/server/outage/outage.go: one series' state, one result, and `step`.
--
-- A `time.Time` is the number of nanoseconds since Go's zero time, so that the zero time is 0 and
-- `After` is `<`. An `int` is its 64-bit pattern: `++` wraps, and a signed comparison with a
-- small constant also tests the sign bit. A UUID is its 128-bit number, whose order is that of its
-- bytes. A float32 or an int64 that is only carried along is its bit pattern.
pub mod Table
pub mod Sweep
pub mod Apply
pub mod Streaks
mod Tests
pub mod Persist
pub mod Total
pub mod Batch
pub mod Store
pub mod Runs
pub mod Timeline
use polarbeam.Base.{
  ℕ, ◌+◌, ◌%◌, ◌^◌, String, Bool, ◌&&◌, Option, none, some, List, [], ◌∷◌, ltb, leb, ◌==◌,
  if◌then◌else◌,
}

-- The kinds of the outage_events table. A series never opens `agent_offline`.
pub data Kind : Type 0 where
  probe_failing probe_degraded agent_offline : Kind

pub Kind-discrete : Discrete Kind
Kind-discrete = hlevel

abbrev pub threshold : ℕ
threshold = 3

pub record Result : Type 0 where
  pub probe_id : ℕ
  pub target_id : ℕ
  pub probe_type : ℕ
  pub time : ℕ
  pub ok : Bool
  pub status_code : ℕ
  pub error : String
  pub degraded : Bool
  pub degraded_detail : String
  pub loss_pct : Option ℕ
  pub latency_us : Option ℕ
  pub latency_source : Option String

-- `open_kind` is `none` for the empty string.
pub record State : Type 0 where
  pub consec_fails : ℕ
  pub consec_oks : ℕ
  pub consec_degraded : ℕ
  pub consec_clean : ℕ
  pub first_fail_at : ℕ
  pub first_ok_at : ℕ
  pub first_degraded_at : ℕ
  pub first_clean_at : ℕ
  pub last_status : ℕ
  pub last_time : ℕ
  pub last_loss_pct : Option ℕ
  pub last_latency_us : Option ℕ
  pub last_latency_source : Option String
  pub open_event_id : Option ℕ
  pub open_kind : Option Kind

-- The zero `State`.
abbrev pub zero_state : State
zero_state = record {
  consec_fails = 0;
  consec_oks = 0;
  consec_degraded = 0;
  consec_clean = 0;
  first_fail_at = 0;
  first_ok_at = 0;
  first_degraded_at = 0;
  first_clean_at = 0;
  last_status = 0;
  last_time = 0;
  last_loss_pct = none;
  last_latency_us = none;
  last_latency_source = none;
  open_event_id = none;
  open_kind = none;
}

-- `actionOpen` with its kind, time and detail, and `actionClose` with its time.
pub data Op : Type 0 where
  open_op : Kind → ℕ → String → Op
  close_op : ℕ → Op

-- `n++` on an int.
abbrev pub inc : ℕ → ℕ
inc n = (n + 1) % 2 ^ 64

-- `n >= Threshold` on an int: a pattern with the sign bit is negative.
abbrev pub at_threshold : ℕ → Bool
at_threshold n = leb threshold n && ltb n (2 ^ 63)

-- The `First…At` of a streak: set by its first result.
abbrev pub streak_start : ℕ → ℕ → ℕ → ℕ
streak_start count old now = if count == 1 then now else old

-- The assignments before the test of `r.OK`.
abbrev pub mirror : State → Result → State
mirror st r = record st {
  last_time = r.time;
  last_status = r.status_code;
  last_loss_pct = r.loss_pct;
  last_latency_us = r.latency_us;
  last_latency_source = r.latency_source;
}

unfoldable pub count_failure : State → Result → State
count_failure st r = record st {
  consec_oks = 0;
  first_ok_at = 0;
  consec_degraded = 0;
  first_degraded_at = 0;
  consec_clean = 0;
  first_clean_at = 0;
  consec_fails = inc st.consec_fails;
  first_fail_at = streak_start (inc st.consec_fails) st.first_fail_at r.time;
}

unfoldable pub count_success : State → Result → State
count_success st r =
    let st' = record st {
      consec_fails = 0;
      first_fail_at = 0;
      consec_oks = inc st.consec_oks;
      first_ok_at = streak_start (inc st.consec_oks) st.first_ok_at r.time;
    } in
    if r.degraded
    then record st' {
      consec_clean = 0;
      first_clean_at = 0;
      consec_degraded = inc st.consec_degraded;
      first_degraded_at = streak_start (inc st.consec_degraded) st.first_degraded_at r.time;
    }
    else record st' {
      consec_degraded = 0;
      first_degraded_at = 0;
      consec_clean = inc st.consec_clean;
      first_clean_at = streak_start (inc st.consec_clean) st.first_clean_at r.time;
    }

-- The `switch st.OpenKind` of a failure.
unfoldable pub failure_ops : Option Kind → State → Result → List Op
failure_ops (some probe_degraded) st r =
    if at_threshold st.consec_fails
    then close_op st.first_fail_at ∷ open_op probe_failing st.first_fail_at r.error ∷ []
    else []
failure_ops none st r =
    if at_threshold st.consec_fails then open_op probe_failing st.first_fail_at r.error ∷ [] else []
failure_ops _ st r = []

-- The last `switch`, of a success.
unfoldable pub success_ops : Option Kind → State → Result → List Op
success_ops (some probe_failing) st r =
    if at_threshold st.consec_oks
    then close_op st.first_ok_at
      ∷ (if at_threshold st.consec_degraded
          then open_op probe_degraded st.first_degraded_at r.degraded_detail ∷ []
          else [])
    else []
success_ops (some probe_degraded) st r =
    if at_threshold st.consec_clean then close_op st.first_clean_at ∷ [] else []
success_ops none st r =
    if at_threshold st.consec_degraded
    then open_op probe_degraded st.first_degraded_at r.degraded_detail ∷ []
    else []
success_ops _ st r = []

-- Folds one result into the state, and says what has to be written.
unfoldable pub step : State → Result → State × List Op
unfolding count_failure count_success failure_ops success_ops
step st r =
    if ltb st.last_time r.time
    then (if r.ok
        then (let st' = count_success (mirror st r) r in (st', success_ops st'.open_kind st' r))
        else (let st' = count_failure (mirror st r) r in (st', failure_ops st'.open_kind st' r)))
    else (st, [])
