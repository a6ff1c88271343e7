-- ===== src/Outage/Persist.antt =====
-- A series' state through its row of series_state (`bulkUpsertStates`, `lockStates` and
-- `zeroToEpoch` in internal/server/outage/outage.go).
use polarbeam.Base.{ℕ, ◌^◌, ◌<◌, ◌≡◌, ◌≢◌, refl, Option, some, List, [], ◌∷◌, arith, if◌then◌else◌}
use polarbeam.Outage.{Result, State}
use polarbeam.Outage.Table.{
  Event, Env, Row, epoch, is_row, joined_kind, or_zero, event_column, int32, from_int4,
  first_column, to_row, from_row, find_row, upsert_row,
}

-- A time that a timestamptz column keeps as it is, and that is not the sentinel for NULL.
pub record IsStorable (env : Env) (t : ℕ) : Type 0 where
  pub kept : env.timestamptz t ≡ t
  pub not_sentinel : t ≢ epoch

pub record IsPersistable (env : Env) (st : State) : Type 0 where
  pub fails : st.consec_fails < 2 ^ 31
  pub oks : st.consec_oks < 2 ^ 31
  pub degraded : st.consec_degraded < 2 ^ 31
  pub clean : st.consec_clean < 2 ^ 31
  pub fail_at : IsStorable env st.first_fail_at
  pub ok_at : IsStorable env st.first_ok_at
  pub degraded_at : IsStorable env st.first_degraded_at
  pub clean_at : IsStorable env st.first_clean_at
  pub last : env.timestamptz st.last_time ≡ st.last_time
  pub event : st.open_event_id ≢ some 0

first_column_kept :
    (env : Env) (t : ℕ)
    → env.timestamptz epoch ≡ epoch
    → IsStorable env t
    → or_zero (first_column env t) ≡ t
unfolding first_column
first_column_kept env t s h = ground arith

event_column_kept : (i : Option ℕ) → i ≢ some 0 → event_column i ≡ i
event_column_kept i h = ground arith

int4_kept : (n : ℕ) → n < 2 ^ 31 → from_int4 (int32 n) ≡ n
int4_kept n h = ground arith

-- Where the counters fit an int32, the column keeps the times, none of the starts is the Unix epoch
-- and the open event's id is not the nil UUID, the state that is read back from the row that was
-- written is the same state, with the kind of the event as the table has it.
from_row-to_row :
    (env : Env) (a : ℕ) (last : Result) (st : State) (es : List Event)
    → env.timestamptz epoch ≡ epoch
    → IsPersistable env st
    → from_row es (to_row env a last st) ≡ record st { open_kind = joined_kind st.open_event_id es }
unfolding from_row to_row
from_row-to_row env a last st es s h = ground (
  arith,
  first_column_kept env st.first_fail_at s h.fail_at,
  first_column_kept env st.first_ok_at s h.ok_at,
  first_column_kept env st.first_degraded_at s h.degraded_at,
  first_column_kept env st.first_clean_at s h.clean_at,
  event_column_kept st.open_event_id h.event,
  int4_kept st.consec_fails h.fails,
  int4_kept st.consec_oks h.oks,
  int4_kept st.consec_degraded h.degraded,
  int4_kept st.consec_clean h.clean,
  h.last,
)

-- Where the column keeps the Unix epoch, a failure run that began at it is read back as one that
-- began at the zero time.
pub from_row-to_row-epoch :
    (env : Env) (a : ℕ) (last : Result) (st : State) (es : List Event)
    → env.timestamptz epoch ≡ epoch
    → st.first_fail_at ≡ epoch
    → (from_row es (to_row env a last st)).first_fail_at ≡ 0
unfolding from_row to_row
from_row-to_row-epoch env a last st es s h = rw (h, s)

-- After the upsert of a row, the row of its series is the one written, and the row of every other
-- series is what it was.
pub find_row-upsert_row :
    (a p : ℕ) (new : Row) (rows : List Row)
    → find_row a p (upsert_row new rows) ≡ (if is_row a p new then some new else find_row a p rows)
unfolding find_row upsert_row
find_row-upsert_row a p new [] = refl
find_row-upsert_row a p new (row ∷ rows) = ground (arith, find_row-upsert_row a p new rows)
