-- ===== src/Outage/Table.antt =====
-- The rows that internal/server/outage/outage.go reads and writes, and its SQL statements as
-- functions on them: events in `outage_events`, one row for each series in `series_state`.
use polarbeam.Base.{
  ℕ, ◌+◌, ◌-◌, ◌%◌, ◌^◌, String, Bool, true, false, ◌&&◌, Option, none, some, List, [], ◌∷◌, ◌++◌,
  ltb, ◌==◌, if◌then◌else◌,
}
use text.Mathlib.Text.{◌==◌ as str_eq}
use polarbeam.Outage.{Kind, probe_failing, probe_degraded, agent_offline, Result, State}

pub record Event : Type 0 where
  pub id : ℕ
  pub kind : Kind
  pub agent_id : ℕ
  pub probe_id : ℕ
  pub target_id : ℕ
  pub probe_type : ℕ
  pub opened_at : ℕ
  pub closed_at : Option ℕ
  pub open_error : Option String

-- What Apply takes from outside the program: `gen_random_uuid` on the table so far, the precision
-- that a timestamptz column keeps of a time, and `sort.Slice` by time, whose order of equal times
-- is not said.
pub record Env : Type 0 where
  pub new_id : List Event → ℕ
  pub timestamptz : ℕ → ℕ
  pub sort_by_time : List Result → List Result

abbrev pub is_kind : Kind → Kind → Bool
is_kind probe_failing probe_failing = true
is_kind probe_degraded probe_degraded = true
is_kind agent_offline agent_offline = true
is_kind _ _ = false

abbrev pub is_none {ℓ} : {A : Type ℓ} → Option A → Bool
is_none none = true
is_none (some a) = false

-- `kind = k AND agent_id = a AND probe_id = p AND closed_at IS NULL`
abbrev pub is_open : Kind → ℕ → ℕ → Event → Bool
is_open k a p e = is_kind k e.kind && e.agent_id == a && e.probe_id == p && is_none e.closed_at

-- The SELECT of `openEvent`: the first row, as QueryRow reads it.
unfoldable pub select_open : Kind → ℕ → ℕ → List Event → Option ℕ
select_open k a p [] = none
select_open k a p (e ∷ es) = if is_open k a p e then some e.id else select_open k a p es

-- `NULLIF($6, '')`
abbrev pub nullif_empty : String → Option String
nullif_empty s = if str_eq s "" then none else some s

-- The row of a newly opened event.
abbrev pub new_row : Env → ℕ → Result → Kind → ℕ → String → List Event → Event
new_row env a r k at detail es = record {
  id = env.new_id es;
  kind = k;
  agent_id = a;
  probe_id = r.probe_id;
  target_id = r.target_id;
  probe_type = r.probe_type;
  opened_at = env.timestamptz at;
  closed_at = none;
  open_error = nullif_empty detail;
}

-- openFailingSQL and openDegradedSQL: on a conflict with an open row nothing is inserted.
unfoldable pub insert_open :
    Env → ℕ → Result → Kind → ℕ → String → List Event → Option ℕ × List Event
unfolding select_open
insert_open env a r k at detail es =
    if is_none (select_open k a r.probe_id es)
    then (some (env.new_id es), es ++ new_row env a r k at detail es ∷ [])
    else (none, es)

-- `UPDATE outage_events SET closed_at = $2 WHERE id = $1 AND closed_at IS NULL`
abbrev pub close_row : ℕ → ℕ → Event → Event
close_row i at e = if e.id == i && is_none e.closed_at then record e { closed_at = some at } else e

unfoldable pub update_closed : Env → ℕ → ℕ → List Event → List Event
update_closed env i at [] = []
update_closed env i at (e ∷ es) = close_row i (env.timestamptz at) e ∷ update_closed env i at es

-- The kind that the LEFT JOIN of `lockStates` finds for an event, closed or not.
unfoldable pub kind_of : ℕ → List Event → Option Kind
kind_of i [] = none
kind_of i (e ∷ es) = if e.id == i then some e.kind else kind_of i es

-- A row of series_state. The counters are int4 columns, as 32-bit patterns.
pub record Row : Type 0 where
  pub agent_id : ℕ
  pub probe_id : ℕ
  pub target_id : ℕ
  pub probe_type : ℕ
  pub consec_fails : ℕ
  pub consec_oks : ℕ
  pub consec_degraded : ℕ
  pub consec_clean : ℕ
  pub first_fail_at : Option ℕ
  pub first_ok_at : Option ℕ
  pub first_degraded_at : Option ℕ
  pub first_clean_at : Option ℕ
  pub last_status : ℕ
  pub last_time : ℕ
  pub last_loss_pct : Option ℕ
  pub last_latency_us : Option ℕ
  pub last_latency_source : Option String
  pub open_event_id : Option ℕ

-- `time.Unix(0, 0)`, in nanoseconds since the zero time.
abbrev pub epoch : ℕ
epoch = 62_135_596_800_000_000_000

abbrev pub zero_to_epoch : ℕ → ℕ
zero_to_epoch t = if t == 0 then epoch else t

-- `NULLIF(u.first_…_at, 'epoch')` on what the column type keeps of `zeroToEpoch(t)`.
unfoldable pub first_column : Env → ℕ → Option ℕ
first_column env t =
    if env.timestamptz (zero_to_epoch t) == epoch
    then none
    else some (env.timestamptz (zero_to_epoch t))

-- `NULLIF(u.open_event_id, '0000…')`, of the nil UUID that stands for a nil pointer.
abbrev pub event_column : Option ℕ → Option ℕ
event_column none = none
event_column (some i) = if i == 0 then none else some i

-- `int32(n)`, and an int4 column scanned into an int, which extends the sign.
abbrev pub int32 : ℕ → ℕ
int32 n = n % 2 ^ 32

abbrev pub from_int4 : ℕ → ℕ
from_int4 n = if ltb n (2 ^ 31) then n else n + (2 ^ 64 - 2 ^ 32)

-- The row that `bulkUpsertStates` writes for one series.
unfoldable pub to_row : Env → ℕ → Result → State → Row
unfolding first_column
to_row env a last st = record {
  agent_id = a;
  probe_id = last.probe_id;
  target_id = last.target_id;
  probe_type = last.probe_type;
  consec_fails = int32 st.consec_fails;
  consec_oks = int32 st.consec_oks;
  consec_degraded = int32 st.consec_degraded;
  consec_clean = int32 st.consec_clean;
  first_fail_at = first_column env st.first_fail_at;
  first_ok_at = first_column env st.first_ok_at;
  first_degraded_at = first_column env st.first_degraded_at;
  first_clean_at = first_column env st.first_clean_at;
  last_status = st.last_status;
  last_time = env.timestamptz st.last_time;
  last_loss_pct = st.last_loss_pct;
  last_latency_us = st.last_latency_us;
  last_latency_source = st.last_latency_source;
  open_event_id = event_column st.open_event_id;
}

abbrev pub or_zero : Option ℕ → ℕ
or_zero none = 0
or_zero (some t) = t

abbrev pub joined_kind : Option ℕ → List Event → Option Kind
joined_kind none es = none
joined_kind (some i) es = kind_of i es

-- One scanned row of `lockStates`.
unfoldable pub from_row : List Event → Row → State
unfolding kind_of
from_row es row = record {
  consec_fails = from_int4 row.consec_fails;
  consec_oks = from_int4 row.consec_oks;
  consec_degraded = from_int4 row.consec_degraded;
  consec_clean = from_int4 row.consec_clean;
  first_fail_at = or_zero row.first_fail_at;
  first_ok_at = or_zero row.first_ok_at;
  first_degraded_at = or_zero row.first_degraded_at;
  first_clean_at = or_zero row.first_clean_at;
  last_status = row.last_status;
  last_time = row.last_time;
  last_loss_pct = row.last_loss_pct;
  last_latency_us = row.last_latency_us;
  last_latency_source = row.last_latency_source;
  open_event_id = row.open_event_id;
  open_kind = joined_kind row.open_event_id es;
}

abbrev pub is_row : ℕ → ℕ → Row → Bool
is_row a p row = row.agent_id == a && row.probe_id == p

-- The row of a series, by its primary key.
unfoldable pub find_row : ℕ → ℕ → List Row → Option Row
find_row a p [] = none
find_row a p (row ∷ rows) = if is_row a p row then some row else find_row a p rows

-- The INSERT of `ensureStates` for one series: on a conflict nothing is done.
unfoldable pub seed_row : ℕ → Result → List Row → List Row
unfolding find_row
seed_row a first rows =
    if is_none (find_row a first.probe_id rows)
    then rows
      ++ record {
        agent_id = a;
        probe_id = first.probe_id;
        target_id = first.target_id;
        probe_type = first.probe_type;
        consec_fails = 0;
        consec_oks = 0;
        consec_degraded = 0;
        consec_clean = 0;
        first_fail_at = none;
        first_ok_at = none;
        first_degraded_at = none;
        first_clean_at = none;
        last_status = 0;
        last_time = 0;
        last_loss_pct = none;
        last_latency_us = none;
        last_latency_source = none;
        open_event_id = none;
      }
        ∷ []
    else rows

-- The INSERT … ON CONFLICT DO UPDATE of `bulkUpsertStates` for one series.
unfoldable pub upsert_row : Row → List Row → List Row
upsert_row new [] = new ∷ []
upsert_row new (row ∷ rows) =
    if is_row new.agent_id new.probe_id row then new ∷ rows else row ∷ upsert_row new rows
