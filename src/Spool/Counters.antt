-- ===== src/Spool/Counters.antt =====
-- The drop counters of the spool and their two sidecar files (internal/agent/spool/spool.go): the
-- part of `Open` that reconciles them, `dropUnspoolable` and the counting of `enforceBoundsLocked`,
-- `AckDropped`, and `persistDropCountersLocked` with a crash between its two renames.
--
-- A uint64 is a number below 2 ^ 64, and its sum wraps. A sidecar is what reading and parsing it
-- gives; formatting and parsing its decimal numbers is the standard library's.
pub mod Recovery
use polarbeam.Base.{
  ℕ, ◌+◌, ◌-◌, ◌%◌, ◌^◌, Bool, true, false, ◌&&◌, ◌||◌, not, Option, none, some, Outcome, done,
  fail, ltb, ◌==◌, min, max, if◌then◌else◌,
}

-- Absent or unparsable, an operational read error, or what the file holds.
pub data Sidecar (A : Type 0) : Type 0 where
  unreadable : Sidecar A
  read_error : Sidecar A
  holds : A → Sidecar A

-- The files `dropped` and `dropped-state`; the second holds the total and what was acknowledged.
pub record Disk : Type 0 where
  pub dropped : Sidecar ℕ
  pub dropped_state : Sidecar (ℕ × ℕ)

pub record Counters : Type 0 where
  pub total : ℕ
  pub acked : ℕ
  pub unacked : ℕ

pub data OpenError : Type 0 where
  counter_unreadable state_unreadable : OpenError

abbrev pub add64 : ℕ → ℕ → ℕ
add64 a b = (a + b) % 2 ^ 64

abbrev pub max_uint64 : ℕ
max_uint64 = 2 ^ 64 - 1

-- The disk after both renames of `persistDropCountersLocked`, and after the first alone.
abbrev pub persist_first : Counters → Disk → Disk
persist_first c d = record d { dropped = holds c.unacked }

abbrev pub persist : Counters → Disk → Disk
persist c d = record (persist_first c d) { dropped_state = holds (c.total, c.acked) }

-- The lifetime pair that `Open` starts from.
abbrev pub loaded_state : Sidecar (ℕ × ℕ) → Outcome OpenError (ℕ × ℕ)
loaded_state (holds (t, a)) = done (t, min a t)
loaded_state unreadable = done (0, 0)
loaded_state read_error = fail state_unreadable

-- An unacknowledged count that cannot be read is the remainder of the pair, with `unackedKnown`.
abbrev pub loaded_unacked : Sidecar ℕ → ℕ × ℕ → Outcome OpenError (ℕ × Bool)
loaded_unacked (holds u) (t, a) = done (u, true)
loaded_unacked unreadable (t, a) = done (t - a, false)
loaded_unacked read_error (t, a) = fail counter_unreadable

-- `total = max(total, acked+unacked)` and `acked = total-unacked`.
unfoldable pub reconcile : ℕ × ℕ → ℕ → Counters
reconcile (t, a) u =
    let total = if ltb (max_uint64 - a) u then max_uint64 else max t (a + u) in
    record { total = total; acked = total - u; unacked = u }

-- Whether the repair is persisted.
abbrev pub is_repaired : ℕ × ℕ → Bool → Counters → Bool
is_repaired (t, a) known c =
    not (c.total == t) || not (c.acked == a) || (not known && ltb 0 c.total)

abbrev pub reconciled : Disk → ℕ × ℕ → ℕ × Bool → Counters × Disk
reconciled d pair (u, known) =
    let c = reconcile pair u in (c, if is_repaired pair known c then persist c d else d)

abbrev pub open_unacked :
    Disk → ℕ × ℕ → Outcome OpenError (ℕ × Bool) → Outcome OpenError (Counters × Disk)
open_unacked d pair (done v) = done (reconciled d pair v)
open_unacked d pair (fail e) = fail e

-- The unacknowledged sidecar is read first, so its error comes before that of the pair.
abbrev pub open_pair : Disk → Outcome OpenError (ℕ × ℕ) → Outcome OpenError (Counters × Disk)
open_pair d (done pair) = open_unacked d pair (loaded_unacked d.dropped pair)
open_pair d (fail e) = elim d.dropped [ read_error ↦ fail counter_unreadable | _ ↦ fail e ]

unfoldable pub open_counters : Disk → Outcome OpenError (Counters × Disk)
unfolding reconcile
open_counters d = open_pair d (loaded_state d.dropped_state)

-- `n` more records dropped: one that cannot be spooled, or those of a dropped segment.
unfoldable pub count_drops : ℕ → Counters → Counters
count_drops n c = record c { total = add64 c.total n; unacked = add64 c.unacked n }

-- `AckDropped`
unfoldable pub ack_dropped : ℕ → Counters → Counters
ack_dropped reported c =
    let r = min reported c.unacked in
    record c { unacked = c.unacked - r; acked = min (add64 c.acked r) c.total }
