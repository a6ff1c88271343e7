-- ===== src/Pusher.antt =====
-- The agent's pusher (internal/agent/uplink/pusher.go): the drain loop of `Pusher.Run` over the
-- spool, with the probes that append while it runs.
--
-- Each call of the spool takes its lock, so that a run is a list of calls in some order: a phase of
-- the loop per call, and appends between any two. `answers` is what the push to the server gave.
-- When the loop sleeps, for how long, and the batching window are not part of the model: the events
-- come at any time. `accepted` and `appended` record what the server accepted and what was appended.
pub mod Fates
pub mod Ledger
pub mod Delivery
pub mod Drain
mod Tests
use polarbeam.Base.{
  ℕ, ◌*◌, Bool, true, false, Option, List, [], ◌∷◌, ◌++◌, length, ltb, min, if◌then◌else◌,
}
use polarbeam.Spool.Segments.{Spool, Consumed, append, next, ack, ack_reported, dropped}

abbrev pub batch_size : ℕ
batch_size = 500

abbrev pub backoff_min : ℕ
backoff_min = 1000000000

abbrev pub backoff_max : ℕ
backoff_max = 60000000000

-- Where the loop is: before `Next`, before `Dropped`, in the push, and before the ack.
pub data Phase {ℓ} (R : Type ℓ) : Type ℓ where
  idle : Phase R
  fetched : List R → List Consumed → Phase R
  pushing : List R → List Consumed → ℕ × ℕ → Phase R
  acking : List R → List Consumed → Phase R

pub record Pusher {ℓ} (R : Type ℓ) : Type ℓ where
  pub spool : Spool
  pub phase : Phase R
  pub backoff : ℕ
  pub accepted : List R
  pub appended : List R

pub data Event {ℓ} (R : Type ℓ) : Type ℓ where
  appends : ℕ → R → Event R
  fetches : ℕ → Event R
  reads_dropped : Event R
  answers : Bool → Event R
  acks : Event R

-- `AckDropped` when there was something to report.
abbrev pub report : ℕ → Spool → Spool
report unacked s = if ltb 0 unacked then ack_reported unacked s else s

-- What the push of a batch gave.
unfoldable pub answered {ℓ} :
    {R : Type ℓ} → Bool → List R → List Consumed → ℕ × ℕ → Pusher R → Pusher R
answered true results consumed (total, unacked) p = record p {
  spool = report unacked p.spool;
  phase = acking results consumed;
  backoff = backoff_min;
  accepted = p.accepted ++ results;
}
answered false results consumed counts p = record p {
  phase = idle;
  backoff = min (p.backoff * 2) backoff_max;
}

module _ {ℓ} {R : Type ℓ} (crc32 : List ℕ → ℕ) (marshal : R → Option (List ℕ))
    (unmarshal : List ℕ → Option R) (removes : ℕ → Bool) where
  -- An empty batch ends the drain.
  unfoldable pub fetch : Pusher R → Spool × List R × List Consumed → Pusher R
  fetch p (s, [], consumed) = record p { spool = s; phase = idle }
  fetch p (s, r ∷ rs, consumed) = record p { spool = s; phase = fetched (r ∷ rs) consumed }

  unfoldable pub phase_step : Phase R → Event R → Pusher R → Pusher R
  phase_step idle (fetches now) p = fetch p (next crc32 unmarshal now batch_size p.spool)
  phase_step (fetched results consumed) reads_dropped p = record p {
    phase = pushing results consumed (dropped p.spool);
  }
  phase_step (pushing results consumed counts) (answers ok) p =
      answered ok results consumed counts p
  phase_step (acking results consumed) acks p = record p {
    spool = ack removes consumed (length results) p.spool;
    phase = idle;
  }
  phase_step phase event p = p

  -- An append at any phase, or the next call of the loop. Another event does nothing.
  unfoldable pub step : Pusher R → Event R → Pusher R
  step p (appends now x) = record p {
    spool = append crc32 now (marshal x) p.spool;
    appended = p.appended ++ x ∷ [];
  }
  step p event = phase_step p.phase event p

  unfoldable pub run : Pusher R → List (Event R) → Pusher R
  run p [] = p
  run p (e ∷ es) = run (step p e) es
