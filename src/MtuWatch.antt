-- ===== src/MtuWatch.antt =====
-- Path MTU changes on the server (internal/server/mtuwatch/mtuwatch.go): `decide`, the fold of one
-- series, and the checks of the two bulk statements. A time is in nanoseconds since Go's zero time,
-- a UUID its 128-bit number, and an int32 that is only carried along and compared is its pattern.
pub mod Bulk
pub mod Chain
pub mod Upsert
pub mod Apply
pub mod Locks
pub mod Finals
pub mod Accepted
mod Tests
use polarbeam.Base.{
  ℕ, ◌+◌, Bool, true, false, ◌&&◌, ◌||◌, not, Option, none, some, List, [], ◌∷◌, ◌++◌, length,
  Outcome, done, fail, ltb, ◌==◌, if◌then◌else◌, ◌>>=◌,
}

pub record Run : Type 0 where
  pub probe_id : ℕ
  pub target_id : ℕ
  pub time : ℕ
  pub largest_ok : ℕ
  pub smallest_failed : ℕ
  pub next_hop_mtu : ℕ
  pub ip_version : ℕ
  pub black_hole : Bool
  pub local_constraint : Bool
  pub rtt_us : Option ℕ
  pub usable : Bool

pub record Current : Type 0 where
  pub updated_at : ℕ
  pub largest_ok : ℕ
  pub black_hole : Bool

pub data Action : Type 0 where
  skip insert refresh change : Action

abbrev pub same_bool : Bool → Bool → Bool
same_bool true b = b
same_bool false b = not b

abbrev pub decide_known : Current → Run → Action
decide_known cur r =
    if not (ltb cur.updated_at r.time)
    then skip
    else if cur.largest_ok == r.largest_ok && same_bool cur.black_hole r.black_hole
    then refresh
    else change

abbrev pub decide_usable : Option Current → Run → Action
decide_usable none r = insert
decide_usable (some cur) r = decide_known cur r

unfoldable pub decide : Option Current → Run → Action
decide cur r = if not r.usable then skip else decide_usable cur r

-- `pendingEvent`
pub record PendingEvent : Type 0 where
  pub run : Run
  pub old_mtu : ℕ
  pub old_black : Bool

-- The pre-grouping filter of `Apply`.
abbrev pub is_applicable : Run → Bool
is_applicable r = r.usable && ltb 0 r.time

unfoldable pub applicable : List Run → List Run
applicable [] = []
applicable (r ∷ rs) = if is_applicable r then r ∷ applicable rs else applicable rs

-- What the loop over one series' batch carries: the current identity, the queued events, and the
-- final run, `none` while `applied` is false.
pub record Fold : Type 0 where
  pub cur : Option Current
  pub pending : List PendingEvent
  pub final : Option Run

abbrev pub current_of : Run → Current
current_of r = record { updated_at = r.time; largest_ok = r.largest_ok; black_hole = r.black_hole }

-- A change is decided only where there is a current identity.
abbrev pub queue_change : Option Current → Run → List PendingEvent → List PendingEvent
queue_change none r ps = ps
queue_change (some cur) r ps =
    ps ++ record { run = r; old_mtu = cur.largest_ok; old_black = cur.black_hole } ∷ []

abbrev pub take_run : Fold → Run → List PendingEvent → Fold
take_run f r ps = record { cur = some (current_of r); pending = ps; final = some r }

abbrev pub act : Action → Fold → Run → Fold
act skip f r = f
act change f r = take_run f r (queue_change f.cur r f.pending)
act insert f r = take_run f r f.pending
act refresh f r = take_run f r f.pending

unfoldable pub fold_run : Fold → Run → Fold
unfolding decide
fold_run f r = act (decide f.cur r) f r

unfoldable pub fold_runs : Fold → List Run → Fold
unfolding fold_run
fold_runs f [] = f
fold_runs f (r ∷ rs) = fold_runs (fold_run f r) rs

-- A series starts from the row that was locked, or from nothing if this call seeded it.
abbrev pub start : Bool → Option Current → Fold
start seeded cur = record { cur = if seeded then none else cur; pending = []; final = none }

pub record Change : Type 0 where
  pub event_id : ℕ
  pub probe_id : ℕ
  pub old_mtu : ℕ
  pub new_mtu : ℕ
  pub new_black : Bool

pub data InsertError : Type 0 where
  order_diverged : InsertError
  rows_missing : InsertError

abbrev pub change_of : ℕ → PendingEvent → Change
change_of id p = record {
  event_id = id;
  probe_id = p.run.probe_id;
  old_mtu = p.old_mtu;
  new_mtu = p.run.largest_ok;
  new_black = p.run.black_hole;
}

abbrev pub add_change :
    Change → Outcome InsertError (List Change) → Outcome InsertError (List Change)
add_change c (done cs) = done (c ∷ cs)
add_change c (fail e) = fail e

-- `bulkInsertEvents`, on the rows that RETURNING gave: each is the id and the probe of an event.
unfoldable pub match_returned : List PendingEvent → List (ℕ × ℕ) → Outcome InsertError (List Change)
match_returned [] [] = done []
match_returned [] (row ∷ rows) = fail order_diverged
match_returned (p ∷ ps) [] = fail rows_missing
match_returned (p ∷ ps) ((id, probe) ∷ rows) =
    if probe == p.run.probe_id
    then add_change (change_of id p) (match_returned ps rows)
    else fail order_diverged
