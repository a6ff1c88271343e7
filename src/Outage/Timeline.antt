-- ===== src/Outage/Timeline.antt =====
-- The event history that a series' results write: it alternates, moves forward in time, and joins
-- a failing and a degraded event at one instant (internal/server/outage/outage.go).
use polarbeam.Base.{
  ℕ, ◌+◌, ◌^◌, ◌≤◌, ◌<◌, ◌≡◌, ◌≢◌, Bool, true, false, ◌&&◌, ◌||◌, not, Option, none, some, List, [],
  ◌∷◌, ◌++◌, length, arith, ltb, ◌==◌,
}
use polarbeam.Outage.{
  Kind, probe_failing, probe_degraded, Result, State, zero_state, Op, open_op, close_op, step,
}
use polarbeam.Outage.Table.{is_none}
use polarbeam.Outage.Streaks.{
  after_ops, advance, IsSettled, zero_state-IsSettled, advance-IsSettled,
}

-- From open kind `k` and time `m` on: only an open event is closed, one is opened only where none is
-- open, and no operation lies before the one above it.
abbrev pub Timeline : Option Kind → ℕ → List Op → Type 0
Timeline k m [] = Unit
Timeline none m (open_op k at detail ∷ os) = (m ≤ at) × Timeline (some k) at os
Timeline none m (close_op at ∷ os) = ⊥
Timeline (some k) m (close_op at ∷ os) = (m ≤ at) × Timeline none at os
Timeline (some k) m (open_op _ _ _ ∷ os) = ⊥

abbrev pub at_of : Op → ℕ
at_of (open_op k at detail) = at
at_of (close_op at) = at

abbrev pub last_at : ℕ → List Op → ℕ
last_at m [] = m
last_at m (o ∷ os) = last_at (at_of o) os

-- The last operation of the series was at `m`: what may fire next began no earlier.
pub record Since (m : ℕ) (st : State) : Type 0 where
  pub seen : m ≤ st.last_time
  pub fail_later : st.open_kind ≢ some probe_failing → 0 < st.consec_fails → m ≤ st.first_fail_at
  pub degraded_later : st.open_kind ≡ none → 0 < st.consec_degraded → m ≤ st.first_degraded_at
  pub ok_later : st.open_kind ≡ some probe_failing → 0 < st.consec_oks → m ≤ st.first_ok_at
  pub clean_later : st.open_kind ≡ some probe_degraded → 0 < st.consec_clean → m ≤ st.first_clean_at

step-Timeline :
    (n m : ℕ) (st : State) (r : Result)
    → n + 1 < 2 ^ 63
    → IsSettled n st
    → Since m st
    → Timeline st.open_kind m (step st r).1
unfolding step
step-Timeline n m st r b h s = ground arith

step-Since :
    (n m : ℕ) (st : State) (r : Result)
    → n + 1 < 2 ^ 63
    → IsSettled n st
    → Since m st
    → Since (last_at m (step st r).1) (advance st r)
unfolding advance
step-Since n m st r b h s = ground arith

-- The operations of a list of results, oldest first.
unfoldable pub history : State → List Result → List Op
unfolding step advance
history st [] = []
history st (r ∷ rs) = (step st r).1 ++ history (advance st r) rs

Timeline-append :
    (k : Option Kind) (m : ℕ) (os ps : List Op)
    → Timeline k m os
    → Timeline (after_ops os k) (last_at m os) ps
    → Timeline k m (os ++ ps)
Timeline-append k m [] ps h g = g
Timeline-append none m (open_op k at detail ∷ os) ps h g =
    (h.0, Timeline-append (some k) at os ps h.1 g)
Timeline-append none m (close_op at ∷ os) ps h g = absurd h
Timeline-append (some k) m (close_op at ∷ os) ps h g = (h.0, Timeline-append none at os ps h.1 g)
Timeline-append (some k) m (open_op _ _ _ ∷ os) ps h g = absurd h

kind-advance :
    (st : State) (r : Result) → after_ops (step st r).1 st.open_kind ≡ (advance st r).open_kind
unfolding advance
kind-advance st r = ground arith

history-Timeline_from :
    (n m : ℕ) (st : State) (rs : List Result)
    → n + length rs < 2 ^ 63
    → IsSettled n st
    → Since m st
    → Timeline st.open_kind m (history st rs)
unfolding history
history-Timeline_from n m st [] b h s = tt
history-Timeline_from n m st (r ∷ rs) b h s =
    Timeline-append st.open_kind m (step st r).1 (history (advance st r) rs)
      (step-Timeline n m st r (omega arith) h s)
      (rw (kind-advance st r) (
        history-Timeline_from (n + 1) (last_at m (step st r).1) (advance st r) rs (omega arith)
          (advance-IsSettled n st r (omega arith) h) (step-Since n m st r (omega arith) h s)))

-- Whatever the results of a new series, fewer than 2 ^ 63, and in whatever order they arrive: the
-- operations written for it open an event only while none is open, close one only while one is
-- open, and never go back in time, so its events do not overlap.
pub history-Timeline :
    (rs : List Result) → length rs < 2 ^ 63 → Timeline none 0 (history zero_state rs)
history-Timeline rs b =
    history-Timeline_from 0 0 zero_state rs (omega arith) zero_state-IsSettled (ground arith)

-- Two operations of one result: the close of one kind and the open of the other, at one time.
abbrev pub IsJoined : List Op → Type 0
IsJoined (o ∷ p ∷ []) = at_of o ≡ at_of p
IsJoined (o ∷ p ∷ q ∷ os) = ⊥
IsJoined _ = Unit

-- In a state that the streak invariant holds of, one result writes at most two operations, and
-- two only at the same time: the event that opens starts where the one that closes ends.
step-IsJoined :
    (n : ℕ) (st : State) (r : Result) → n + 1 < 2 ^ 63 → IsSettled n st → IsJoined (step st r).1
unfolding step
step-IsJoined n st r b h = ground arith

abbrev pub opens : Kind → List Op → Bool
opens k [] = false
opens probe_failing (open_op probe_failing at detail ∷ os) = true
opens probe_degraded (open_op probe_degraded at detail ∷ os) = true
opens k (o ∷ os) = opens k os

abbrev pub closes : List Op → Bool
closes (close_op at ∷ os) = true
closes _ = false

abbrev pub is_kind? : Kind → Option Kind → Bool
is_kind? probe_failing (some probe_failing) = true
is_kind? probe_degraded (some probe_degraded) = true
is_kind? _ _ = false

-- In a state that the streak invariant holds of, a probe_failing event is opened by exactly the
-- third failure of a run, in time order, while no such event is open.
opens-failing :
    (n : ℕ) (st : State) (r : Result)
    → n + 1 < 2 ^ 63
    → IsSettled n st
    → opens probe_failing (step st r).1 ≡ (
        ltb st.last_time r.time
        && not r.ok
        && st.consec_fails == 2
        && not (is_kind? probe_failing st.open_kind))
unfolding step
opens-failing n st r b h = ground arith

-- In a state that the streak invariant holds of, a probe_degraded event is opened by exactly the
-- third breaching success of a run, in time order: while no event is open, or where the same
-- success is the third that closes a probe_failing event.
opens-degraded :
    (n : ℕ) (st : State) (r : Result)
    → n + 1 < 2 ^ 63
    → IsSettled n st
    → opens probe_degraded (step st r).1 ≡ (
        ltb st.last_time r.time
        && r.ok
        && r.degraded
        && st.consec_degraded == 2
        && (is_none st.open_kind || is_kind? probe_failing st.open_kind && st.consec_oks == 2))
unfolding step
opens-degraded n st r b h = ground arith

-- In a state that the streak invariant holds of, an event is closed by exactly the third success
-- while probe_failing is open, and while probe_degraded is open by exactly the third clean success
-- or the third failure of a run; all in time order.
closes-step :
    (n : ℕ) (st : State) (r : Result)
    → n + 1 < 2 ^ 63
    → IsSettled n st
    → closes (step st r).1 ≡ (
        ltb st.last_time r.time
        && (is_kind? probe_failing st.open_kind && r.ok && st.consec_oks == 2
            || is_kind? probe_degraded st.open_kind
              && (r.ok && not r.degraded && st.consec_clean == 2
                  || not r.ok && st.consec_fails == 2)))
unfolding step
closes-step n st r b h = ground arith
