-- ===== src/PathWatch.antt =====
-- Path changes on the server (internal/server/pathwatch/pathwatch.go): `decide`, the filter of
-- `Apply`, the fold of one series, and the check of the rows that the insert returns. A time is in
-- nanoseconds since Go's zero time, a UUID its 128-bit number, a []byte the list of its bytes.
pub mod Chain
mod Tests
use polarbeam.Base.{
  ℕ, Bool, true, false, ◌&&◌, ◌||◌, not, Option, none, some, List, [], ◌∷◌, ◌++◌, length, Outcome,
  done, fail, ltb, ◌==◌, if◌then◌else◌,
}

pub record Run : Type 0 where
  pub probe_id : ℕ
  pub target_id : ℕ
  pub time : ℕ
  pub dest_reached : Bool
  pub path_hash : List ℕ
  pub hops : List ℕ

pub record Current : Type 0 where
  pub updated_at : ℕ
  pub path_hash : List ℕ
  pub hops : List ℕ

pub data Action : Type 0 where
  skip insert refresh change : Action

-- `string(a) == string(b)`
unfoldable pub bytes_eq : List ℕ → List ℕ → Bool
bytes_eq [] [] = true
bytes_eq [] (b ∷ bs) = false
bytes_eq (a ∷ more) [] = false
bytes_eq (a ∷ more) (b ∷ bs) = a == b && bytes_eq more bs

abbrev pub decide_known : Current → Run → Action
decide_known cur r =
    if not (ltb cur.updated_at r.time)
    then skip
    else if bytes_eq cur.path_hash r.path_hash
    then refresh
    else change

abbrev pub decide_complete : Option Current → Run → Action
decide_complete none r = insert
decide_complete (some cur) r = decide_known cur r

unfoldable pub decide : Option Current → Run → Action
unfolding bytes_eq
decide cur r =
    if not r.dest_reached || not (length r.path_hash == 32) then skip else decide_complete cur r

-- `pendingEvent`
pub record PendingEvent : Type 0 where
  pub run : Run
  pub old_hash : List ℕ
  pub old_hops : List ℕ

-- The pre-grouping filter of `Apply`.
abbrev pub is_applicable : Run → Bool
is_applicable r = r.dest_reached && length r.path_hash == 32 && ltb 0 r.time

unfoldable pub applicable : List Run → List Run
applicable [] = []
applicable (r ∷ rs) = if is_applicable r then r ∷ applicable rs else applicable rs

-- What the loop over one series' batch carries; `final` is `none` while `applied` is false.
pub record Fold : Type 0 where
  pub cur : Option Current
  pub pending : List PendingEvent
  pub final : Option Run

abbrev pub current_of : Run → Current
current_of r = record { updated_at = r.time; path_hash = r.path_hash; hops = r.hops }

-- A change is decided only where there is a current path.
abbrev pub queue_change : Option Current → Run → List PendingEvent → List PendingEvent
queue_change none r ps = ps
queue_change (some cur) r ps =
    ps ++ record { run = r; old_hash = cur.path_hash; old_hops = cur.hops } ∷ []

abbrev pub take_run : Fold → Run → List PendingEvent → Fold
take_run f r ps = record { cur = some (current_of r); pending = ps; final = some r }

abbrev pub act : Action → Fold → Run → Fold
act skip f r = f
act change f r = take_run f r (queue_change f.cur r f.pending)
act insert f r = take_run f r f.pending
act refresh f r = take_run f r f.pending

unfoldable pub fold_run : Fold → Run → Fold
unfolding decide
fold_run f r = act (decide f.cur r) f r

unfoldable pub fold_runs : Fold → List Run → Fold
unfolding fold_run
fold_runs f [] = f
fold_runs f (r ∷ rs) = fold_runs (fold_run f r) rs

-- A series starts from the row that was locked, or from nothing if this call seeded it.
abbrev pub start : Bool → Option Current → Fold
start seeded cur = record { cur = if seeded then none else cur; pending = []; final = none }

pub record Change : Type 0 where
  pub event_id : ℕ
  pub probe_id : ℕ

pub data InsertError : Type 0 where
  order_diverged rows_missing : InsertError

abbrev pub add_change :
    Change → Outcome InsertError (List Change) → Outcome InsertError (List Change)
add_change c (done cs) = done (c ∷ cs)
add_change c (fail e) = fail e

-- `bulkInsertEvents`, on the rows that RETURNING gave: each is the id and the probe of an event.
unfoldable pub match_returned : List PendingEvent → List (ℕ × ℕ) → Outcome InsertError (List Change)
match_returned [] [] = done []
match_returned [] (row ∷ rows) = fail order_diverged
match_returned (p ∷ ps) [] = fail rows_missing
match_returned (p ∷ ps) ((id, probe) ∷ rows) =
    if probe == p.run.probe_id
    then add_change (record { event_id = id; probe_id = probe }) (match_returned ps rows)
    else fail order_diverged
