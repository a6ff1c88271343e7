-- ===== src/Outage/Streaks.antt =====
-- What holds of a series' streaks between two results (internal/server/outage/outage.go).
use polarbeam.Base.{ℕ, ◌+◌, ◌^◌, ◌≤◌, ◌<◌, ◌≡◌, ◌≢◌, Option, none, some, List, [], ◌∷◌, arith}
use polarbeam.Outage.{
  Kind, probe_failing, probe_degraded, agent_offline, Result, State, zero_state, Op, open_op,
  close_op, step,
}

-- What the operations make of the open kind.
abbrev pub after_op : Op → Option Kind
after_op (open_op k at detail) = some k
after_op (close_op at) = none

abbrev pub after_ops : List Op → Option Kind → Option Kind
after_ops [] k = k
after_ops (o ∷ os) k = after_ops os (after_op o)

-- `step`, with the effect of its operations on the open kind.
unfoldable pub advance : State → Result → State
unfolding step
advance st r = let (st', ops) = step st r in record st' { open_kind = after_ops ops st'.open_kind }

-- The counters are at most `n`, a streak's start is set exactly while it runs, the kinds of streak
-- exclude one another, and no streak that would open or close an event has reached the threshold.
pub record IsSettled (n : ℕ) (st : State) : Type 0 where
  pub fails_le : st.consec_fails ≤ n
  pub oks_le : st.consec_oks ≤ n
  pub sub_le : st.consec_degraded + st.consec_clean ≤ st.consec_oks
  pub fails_alone : 0 < st.consec_fails → st.consec_oks ≡ 0
  pub one_sub : 0 < st.consec_degraded → st.consec_clean ≡ 0
  pub fail_start : 0 < st.consec_fails → st.first_fail_at ≤ st.last_time
  pub ok_start : 0 < st.consec_oks → st.first_ok_at ≤ st.last_time
  pub degraded_start : 0 < st.consec_degraded → st.first_degraded_at ≤ st.last_time
  pub clean_start : 0 < st.consec_clean → st.first_clean_at ≤ st.last_time
  pub no_degraded : st.consec_degraded ≡ 0 → st.first_degraded_at ≡ 0
  pub no_ok : st.consec_oks ≡ 0 → st.first_ok_at ≡ 0
  pub in_order : 0 < st.consec_degraded → st.first_ok_at ≤ st.first_degraded_at
  pub all_degraded : st.consec_degraded ≡ st.consec_oks → st.first_degraded_at ≡ st.first_ok_at
  pub unopened : st.open_kind ≡ none → (st.consec_fails < 3) × (st.consec_degraded < 3)
  pub failing : st.open_kind ≡ some probe_failing → st.consec_oks < 3
  pub degraded : st.open_kind ≡ some probe_degraded → (st.consec_fails < 3) × (st.consec_clean < 3)
  pub not_offline : st.open_kind ≢ some agent_offline

pub zero_state-IsSettled : IsSettled 0 zero_state
zero_state-IsSettled = ground arith

-- Any result, whatever its time, keeps the invariant of the streaks, while fewer than 2 ^ 63 results
-- were folded.
pub advance-IsSettled :
    (n : ℕ) (st : State) (r : Result)
    → n + 1 < 2 ^ 63
    → IsSettled n st
    → IsSettled (n + 1) (advance st r)
unfolding advance
advance-IsSettled n st r b h = ground arith
