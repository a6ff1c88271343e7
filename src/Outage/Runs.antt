-- ===== src/Outage/Runs.antt =====
-- The counters of a series against its history (internal/server/outage/outage.go): what each of
-- them counts, said of the list of results that the series was given.
use polarbeam.Base.{
  ℕ, zero, suc, ◌+◌, ◌^◌, ◌≤◌, ◌<◌, ◌≡◌, Bool, ◌&&◌, not, List, [], ◌∷◌, length, arith,
  if◌then◌else◌,
}
use polarbeam.Outage.{Result, State, zero_state}
use polarbeam.Outage.Streaks.{advance}

-- The state after a history, given newest first.
unfoldable pub replay : List Result → State
unfolding advance
replay [] = zero_state
replay (r ∷ rs) = advance (replay rs) r

-- The time of the newest result.
abbrev pub newest : List Result → ℕ
newest [] = 0
newest (r ∷ rs) = r.time

-- Each result is later than the one before it.
abbrev pub InOrder : List Result → Type 0
InOrder [] = Unit
InOrder (r ∷ rs) = (newest rs < r.time) × InOrder rs

-- How many of the newest results satisfy `p`, up to the first that does not.
unfoldable pub trailing : (Result → Bool) → List Result → ℕ
trailing p [] = 0
trailing p (r ∷ rs) = if p r then suc (trailing p rs) else 0

-- The time of the oldest result of that run, 0 if the run is empty.
unfoldable pub run_start : (Result → Bool) → List Result → ℕ
unfolding trailing
run_start p [] = 0
run_start p (r ∷ rs) =
    if p r then (elim (trailing p rs) [ zero ↦ r.time | suc n ↦ run_start p rs ]) else 0

abbrev pub is_failure : Result → Bool
is_failure r = not r.ok

abbrev pub is_success : Result → Bool
is_success r = r.ok

abbrev pub is_breach : Result → Bool
is_breach r = r.ok && r.degraded

abbrev pub is_clean : Result → Bool
is_clean r = r.ok && not r.degraded

pub trailing-le : (p : Result → Bool) (rs : List Result) → trailing p rs ≤ length rs
unfolding trailing
trailing-le p [] = omega arith
trailing-le p (r ∷ rs) = ground (arith, trailing-le p rs)

-- The state agrees with the history.
pub record Agrees (rs : List Result) (st : State) : Type 0 where
  pub time : st.last_time ≡ newest rs
  pub fails : st.consec_fails ≡ trailing is_failure rs
  pub oks : st.consec_oks ≡ trailing is_success rs
  pub breaches : st.consec_degraded ≡ trailing is_breach rs
  pub cleans : st.consec_clean ≡ trailing is_clean rs
  pub fail_at : st.first_fail_at ≡ run_start is_failure rs
  pub ok_at : st.first_ok_at ≡ run_start is_success rs
  pub breach_at : st.first_degraded_at ≡ run_start is_breach rs
  pub clean_at : st.first_clean_at ≡ run_start is_clean rs

Agrees-step :
    (r : Result) (rs : List Result) (st : State)
    → length rs + 1 < 2 ^ 63
    → newest rs < r.time
    → Agrees rs st
    → Agrees (r ∷ rs) (advance st r)
unfolding advance trailing run_start
Agrees-step r rs st b o h = ground (
  arith,
  trailing-le is_failure rs,
  trailing-le is_success rs,
  trailing-le is_breach rs,
  trailing-le is_clean rs,
)

-- After any history in time order, of fewer than 2 ^ 63 results, each counter of the state is the
-- length of the newest run of its kind of result, and each start is the time of that run's oldest.
pub replay-Agrees : (rs : List Result) → length rs < 2 ^ 63 → InOrder rs → Agrees rs (replay rs)
unfolding replay
replay-Agrees [] b o = unfold trailing run_start in ground arith
replay-Agrees (r ∷ rs) b o =
    Agrees-step r rs (replay rs) (omega arith) o.0 (replay-Agrees rs (omega arith) o.1)
