-- ===== src/Spool/Counters/Recovery.antt =====
-- A crash loses no drop: what `Open` makes of the sidecars (internal/agent/spool/spool.go).
use polarbeam.Base.{ℕ, ◌+◌, ◌-◌, ◌^◌, ◌≤◌, ◌<◌, ◌≡◌, done, arith, min}
use polarbeam.Spool.Counters.{
  Sidecar, unreadable, read_error, holds, Disk, Counters, persist_first, persist, reconcile,
  open_counters, count_drops, ack_dropped,
}

abbrev pub FitsCount : Sidecar ℕ → Type 0
FitsCount (holds u) = u < 2 ^ 64
FitsCount _ = Unit

abbrev pub FitsPair : Sidecar (ℕ × ℕ) → Type 0
FitsPair (holds (t, a)) = t < 2 ^ 64
FitsPair _ = Unit

-- Every drop is acknowledged or not, and the total is a uint64.
pub record IsBalanced (c : Counters) : Type 0 where
  pub sum : c.total ≡ c.acked + c.unacked
  pub bound : c.total < 2 ^ 64

-- Both sidecars hold the counters.
abbrev pub Holds : Disk → Counters → Type 0
Holds d c = (d.dropped ≡ holds c.unacked) × (d.dropped_state ≡ holds (c.total, c.acked))

-- Drops that do not overflow the total keep the balance.
pub count_drops-IsBalanced :
    (n : ℕ) (c : Counters) → c.total + n < 2 ^ 64 → IsBalanced c → IsBalanced (count_drops n c)
unfolding count_drops
count_drops-IsBalanced n c l h = ground arith

-- Any acknowledgement, even one of more than is open, keeps the balance.
ack_dropped-IsBalanced : (r : ℕ) (c : Counters) → IsBalanced c → IsBalanced (ack_dropped r c)
unfolding ack_dropped
ack_dropped-IsBalanced r c h = ground arith

reconcile-IsBalanced :
    (t a u : ℕ) → t < 2 ^ 64 → a ≤ t → u < 2 ^ 64 → IsBalanced (reconcile (t, a) u)
unfolding reconcile
reconcile-IsBalanced t a u ht ha hu = ground arith

-- What a sidecar holds is a uint64.
abbrev pub Fits : Disk → Type 0
Fits d = FitsCount d.dropped × FitsPair d.dropped_state

open_parts :
    (s : Sidecar ℕ) (p : Sidecar (ℕ × ℕ)) {c : Counters} {d' : Disk}
    → Fits (record { dropped = s; dropped_state = p })
    → open_counters (record { dropped = s; dropped_state = p }) ≡ done (c, d')
    → IsBalanced c
unfolding open_counters
open_parts (holds u) (holds (t, a)) f e =
    ground (arith, reconcile-IsBalanced t (min a t) u f.1 (omega arith) f.0)
open_parts (holds u) unreadable f e =
    ground (arith, reconcile-IsBalanced 0 0 u (omega arith) (omega arith) f.0)
open_parts unreadable (holds (t, a)) f e =
    ground (arith, reconcile-IsBalanced t (min a t) (t - min a t) f.1 (omega arith) (omega arith))
open_parts unreadable unreadable f e = ground arith
open_parts read_error _ f e = ground arith
open_parts (holds u) read_error f e = cc
open_parts unreadable read_error f e = cc

-- What `Open` leaves is balanced, whatever uint64 numbers the sidecars hold, and where they are
-- missing or unparsable: every drop counted is acknowledged or not, and the total does not wrap.
pub open_counters-IsBalanced :
    (d : Disk) {c : Counters} {d' : Disk} → Fits d → open_counters d ≡ done (c, d') → IsBalanced c
open_counters-IsBalanced d f e = open_parts d.dropped d.dropped_state f e

-- Opening what a balanced state persisted gives that state, and writes nothing.
pub open_counters-persist :
    (c : Counters) (d : Disk) → IsBalanced c → open_counters (persist c d) ≡ done (c, persist c d)
unfolding open_counters
open_counters-persist c d h = ground arith

-- A crash between the two renames that record drops, where the sidecars held the balanced counters
-- before them and the total does not overflow: the reopened spool has counted the drops, and has
-- completed the second sidecar.
pub open_counters-count_drops :
    (n : ℕ) (c : Counters) (d : Disk)
    → IsBalanced c
    → c.total + n < 2 ^ 64
    → Holds d c
    → open_counters (persist_first (count_drops n c) d)
      ≡ done (count_drops n c, persist (count_drops n c) d)
unfolding open_counters count_drops
open_counters-count_drops n c d h l k = ground arith

-- A crash between the two renames that record an acknowledgement, where the sidecars held the
-- balanced counters before it: the reopened spool has taken the acknowledgement, and has completed
-- the second sidecar.
open_counters-ack_dropped :
    (r : ℕ) (c : Counters) (d : Disk)
    → IsBalanced c
    → Holds d c
    → open_counters (persist_first (ack_dropped r c) d)
      ≡ done (ack_dropped r c, persist (ack_dropped r c) d)
unfolding open_counters ack_dropped
open_counters-ack_dropped r c d h k = ground arith
