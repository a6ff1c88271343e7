-- ===== src/Outage/Tests.antt =====
-- Runs of the outage model on small inputs (internal/server/outage/outage.go).
use polarbeam.Base.{ℕ, ◌+◌, ◌≡◌, refl, Bool, true, false, none, some, List, [], ◌∷◌, length, arith}
use polarbeam.Outage.{
  probe_failing, probe_degraded, Result, State, zero_state, open_op, close_op, step,
}
use polarbeam.Outage.Table.{Env, epoch, to_row, from_row}
use polarbeam.Outage.Apply.{Work, fold_batch, apply}
use polarbeam.Outage.Streaks.{advance}
use polarbeam.Outage.Timeline.{Timeline, history, history-Timeline}
use polarbeam.Outage.Runs.{Agrees, replay, replay-Agrees}
use polarbeam.Outage.Batch.{Folded, advance_all, fold_batch-Folded}
use polarbeam.Outage.Total.{Returns, apply-Returns}
use polarbeam.Outage.Persist.{from_row-to_row-epoch}

abbrev result_at : ℕ → Bool → Bool → Result
result_at t ok degraded = record {
  probe_id = 7;
  target_id = 8;
  probe_type = 1;
  time = t;
  ok = ok;
  status_code = 1;
  error = "refused";
  degraded = degraded;
  degraded_detail = "slow";
  loss_pct = none;
  latency_us = some 1500;
  latency_source = none;
}

abbrev bad : ℕ → Result
bad t = result_at t false false

abbrev slow : ℕ → Result
slow t = result_at t true true

abbrev good : ℕ → Result
good t = result_at t true false

-- Three failures, three breaching successes, three clean ones.
abbrev episode : List Result
episode = bad 1 ∷ bad 2 ∷ bad 3 ∷ slow 4 ∷ slow 5 ∷ slow 6 ∷ good 7 ∷ good 8 ∷ good 9 ∷ []

episode-history :
    history zero_state episode
    ≡ open_op probe_failing 1 "refused"
      ∷ close_op 4
      ∷ open_op probe_degraded 4 "slow"
      ∷ close_op 7
      ∷ []
unfolding history step advance
episode-history = refl

history-Timeline_example : Timeline none 0 (history zero_state episode)
history-Timeline_example = history-Timeline episode (omega arith)

replay-Agrees_example : Agrees (bad 3 ∷ bad 2 ∷ good 1 ∷ []) (replay (bad 3 ∷ bad 2 ∷ good 1 ∷ []))
replay-Agrees_example = replay-Agrees (bad 3 ∷ bad 2 ∷ good 1 ∷ []) (omega arith) (omega arith)

-- Ids by the size of the table, times kept as they are, batches that come sorted.
abbrev plain : Env
plain = record { new_id = λ es. length es + 1; timestamptz = λ t. t; sort_by_time = λ rs. rs }

abbrev no_work : Work
no_work = record { st = zero_state; events = []; transitions = [] }

fold_batch-Folded_example :
    Folded 5 7 (advance_all zero_state episode) (fold_batch plain 5 episode no_work)
fold_batch-Folded_example =
    fold_batch-Folded plain 5 7 episode no_work (ground arith)
      (record { linked = λ e. refl; only = tt })

apply-Returns_example : Returns (apply plain 5 episode (record { events = []; series = [] }))
apply-Returns_example =
    apply-Returns plain (λ rs. refl) 5 episode (record { events = []; series = [] })

abbrev counting : State
counting = record zero_state { consec_fails = 2; first_fail_at = 30; last_time = 40 }

from_row-to_row-epoch_example :
    (from_row []
      (to_row plain 5 (bad epoch) (record counting { first_fail_at = epoch }))).first_fail_at
    ≡ 0
from_row-to_row-epoch_example =
    from_row-to_row-epoch plain 5 (bad epoch) (record counting { first_fail_at = epoch }) [] refl
      refl
