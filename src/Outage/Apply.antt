-- ===== src/Outage/Apply.antt =====
-- `Apply` of internal/server/outage/outage.go: a batch of results folded into the tables, series by
-- series. A statement that fails ends Apply with the caller's transaction rolled back, so the model
-- runs the statements that succeed; the faults that the code itself can raise are values.
use polarbeam.Base.{
  ℕ, String, Bool, true, false, Option, none, some, List, [], ◌∷◌, ◌++◌, Outcome, done, fail, ltb,
  ◌==◌, if◌then◌else◌, ◌>>=◌,
}
use polarbeam.Outage.{Kind, Result, State, zero_state, Op, open_op, close_op, step}
use polarbeam.Outage.Table.{
  Event, Env, Row, select_open, insert_open, update_closed, to_row, from_row, find_row, seed_row,
  upsert_row,
}

-- "adopt open outage event" with no row to adopt, a nil `OpenEventID` that is dereferenced, and the
-- last element of an empty batch.
pub data Fault : Type 0 where
  nothing_to_adopt nil_event empty_batch : Fault

pub record Transition : Type 0 where
  pub event_id : ℕ
  pub probe_id : ℕ
  pub kind : Option Kind
  pub opened : Bool
  pub at : ℕ

-- The variables of the loops: the state of the series, the events table, the transitions.
pub record Work : Type 0 where
  pub st : State
  pub events : List Event
  pub transitions : List Transition

abbrev pub adopt : Option ℕ → List Event → Outcome Fault (ℕ × List Event)
adopt none es = fail nothing_to_adopt
adopt (some i) es = done (i, es)

-- The id that the insert returned, or else that of the open event of the same kind.
abbrev pub opened_or_adopted :
    Kind → ℕ → Result → Option ℕ × List Event → Outcome Fault (ℕ × List Event)
opened_or_adopted k a r (some i, es) = done (i, es)
opened_or_adopted k a r (none, es) = adopt (select_open k a r.probe_id es) es

unfoldable pub open_event :
    Env → ℕ → Result → Kind → ℕ → String → List Event → Outcome Fault (ℕ × List Event)
unfolding insert_open
open_event env a r k at detail es = opened_or_adopted k a r (insert_open env a r k at detail es)

-- The assignments after an event was opened, and after one was closed.
abbrev pub opened_work : Result → Kind → ℕ → Work → ℕ → List Event → Work
opened_work r k at w i es = record {
  st = record w.st { open_event_id = some i; open_kind = some k };
  events = es;
  transitions =
      w.transitions
      ++ record { event_id = i; probe_id = r.probe_id; kind = some k; opened = true; at = at } ∷ [];
}

abbrev pub closed_work : Env → Result → ℕ → Work → ℕ → Work
closed_work env r at w i = record {
  st = record w.st { open_event_id = none; open_kind = none };
  events = update_closed env i at w.events;
  transitions =
      w.transitions
      ++ record {
        event_id = i;
        probe_id = r.probe_id;
        kind = w.st.open_kind;
        opened = false;
        at = at;
      }
        ∷ [];
}

abbrev pub record_open : Result → Kind → ℕ → Work → ℕ × List Event → Outcome Fault Work
record_open r k at w (i, es) = done (opened_work r k at w i es)

abbrev pub record_close : Env → Result → ℕ → Work → Option ℕ → Outcome Fault Work
record_close env r at w none = fail nil_event
record_close env r at w (some i) = done (closed_work env r at w i)

-- The body of the loop over `ops`.
unfoldable pub exec_op : Env → ℕ → Result → Op → Work → Outcome Fault Work
unfolding open_event update_closed
exec_op env a r (open_op k at detail) w = do
  opened ← open_event env a r k at detail w.events
  record_open r k at w opened
exec_op env a r (close_op at) w = record_close env r at w w.st.open_event_id

unfoldable pub exec_ops : Env → ℕ → Result → List Op → Work → Outcome Fault Work
unfolding exec_op
exec_ops env a r [] w = done w
exec_ops env a r (o ∷ os) w = exec_op env a r o w >>= exec_ops env a r os

-- One result: `st, ops = step(st, r)` and its operations.
unfoldable pub fold_one : Env → ℕ → Result → Work → Outcome Fault Work
unfolding exec_ops step
fold_one env a r w = let (st', ops) = step w.st r in exec_ops env a r ops (record w { st = st' })

-- The loop over one series' batch.
unfoldable pub fold_batch : Env → ℕ → List Result → Work → Outcome Fault Work
unfolding fold_one
fold_batch env a [] w = done w
fold_batch env a (r ∷ rs) w = fold_one env a r w >>= fold_batch env a rs

-- The results of one series, in the order of the batch.
unfoldable pub of_series : ℕ → List Result → List Result
of_series p [] = []
of_series p (r ∷ rs) = if r.probe_id == p then r ∷ of_series p rs else of_series p rs

-- `probeIDs`: the keys of bySeries in their order, each once.
unfoldable pub insert_id : ℕ → List ℕ → List ℕ
insert_id p [] = p ∷ []
insert_id p (q ∷ qs) = if ltb p q then p ∷ q ∷ qs else if p == q then q ∷ qs else q ∷ insert_id p qs

unfoldable pub probe_ids : List Result → List ℕ
unfolding insert_id
probe_ids [] = []
probe_ids (r ∷ rs) = insert_id r.probe_id (probe_ids rs)

-- `batch[len(batch)-1]`
unfoldable pub last_of : Result → List Result → Result
last_of r [] = r
last_of r (s ∷ rs) = last_of s rs

-- `ensureStates`: one row is seeded for each series, from the first result of its group.
abbrev pub seed_first : ℕ → List Result → List Row → List Row
seed_first a [] rows = rows
seed_first a (r ∷ rs) rows = seed_row a r rows

unfoldable pub ensure_states : ℕ → List Result → List ℕ → List Row → List Row
unfolding seed_row of_series
ensure_states a results [] rows = rows
ensure_states a results (p ∷ ps) rows =
    ensure_states a results ps (seed_first a (of_series p results) rows)

-- `states[probeID]`: the zero State for a series with no row.
abbrev pub state_or_zero : List Event → Option Row → State
state_or_zero es none = zero_state
state_or_zero es (some row) = from_row es row

unfoldable pub lock_state : ℕ → ℕ → List Event → List Row → State
unfolding find_row from_row
lock_state a p es rows = state_or_zero es (find_row a p rows)

-- What the loop over the series carries: the table, the transitions, the queued rows.
pub record Progress : Type 0 where
  pub events : List Event
  pub transitions : List Transition
  pub finals : List Row

-- The end of a series' turn: its row is queued, from the last result of the batch.
abbrev pub queue_final : Env → ℕ → List Result → Progress → Work → Outcome Fault Progress
queue_final env a [] acc w = fail empty_batch
queue_final env a (r ∷ rs) acc w = done (record {
  events = w.events;
  transitions = w.transitions;
  finals = acc.finals ++ to_row env a (last_of r rs) w.st ∷ [];
})

unfoldable pub fold_series : Env → ℕ → State → List Result → Progress → Outcome Fault Progress
unfolding fold_batch to_row last_of
fold_series env a st batch acc =
    fold_batch env a batch (record { st = st; events = acc.events; transitions = acc.transitions })
    >>= queue_final env a batch acc

-- The loop over `probeIDs`. The states are those that `lockStates` read before it.
unfoldable pub fold_all :
    Env → ℕ → (ℕ → State) → List Result → List ℕ → Progress → Outcome Fault Progress
unfolding fold_series of_series
fold_all env a states results [] acc = done acc
fold_all env a states results (p ∷ ps) acc =
    fold_series env a (states p) (env.sort_by_time (of_series p results)) acc
    >>= fold_all env a states results ps

unfoldable pub upsert_all : List Row → List Row → List Row
unfolding upsert_row
upsert_all [] rows = rows
upsert_all (new ∷ news) rows = upsert_all news (upsert_row new rows)

-- The two tables.
pub record Tables : Type 0 where
  pub events : List Event
  pub series : List Row

abbrev pub commit : List Row → Progress → Outcome Fault (Tables × List Transition)
commit rows acc =
    done (record { events = acc.events; series = upsert_all acc.finals rows }, acc.transitions)

unfoldable pub apply : Env → ℕ → List Result → Tables → Outcome Fault (Tables × List Transition)
unfolding probe_ids ensure_states lock_state fold_all upsert_all
apply env a [] db = done (db, [])
apply env a (r ∷ rs) db =
    let ids = probe_ids (r ∷ rs) in
    let rows = ensure_states a (r ∷ rs) ids db.series in
    fold_all env a (λ p. lock_state a p db.events rows) (r ∷ rs) ids
      (record { events = db.events; transitions = []; finals = [] })
    >>= commit rows
