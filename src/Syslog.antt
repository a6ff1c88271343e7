-- ===== src/Syslog.antt =====
-- The queue of the syslog forwarder (internal/server/syslogfwd/forwarder.go): the `sink` with its ring
-- of records, and the sequence numbers. A `[]byte` slot is `none` for nil, and else what the message
-- was formatted from. A time is in nanoseconds since Go's zero time.
pub mod Writer
pub mod Queue
pub mod Window
pub mod Ring
pub mod Rising
pub mod Pushes
pub mod Taking
pub mod Untouched
pub mod Steps
pub mod Delivery
pub mod Outage
pub mod Clock
pub mod Format
mod Tests
use polarbeam.Base.{
  ℕ, ◌+◌, ◌-◌, ◌*◌, ◌%◌, ◌^◌, ◌<◌, String, Bool, true, false, ◌&&◌, not, Option, none, some, ltb,
  leb, ◌==◌, if◌then◌else◌,
}

abbrev pub queue_size : ℕ
queue_size = 10000

-- `len(s.ring)`: two spare slots.
abbrev pub ring_len : ℕ
ring_len = 10002

-- The largest sequence number.
abbrev pub max_seq : ℕ
max_seq = 2147483647

-- A record that a producer handed over, or the forwarder's own on a lost connection.
pub data Body : Type 0 where
  produced disconnected : String → Body

pub record Message : Type 0 where
  pub seq : ℕ
  pub origin_ip : String
  pub body : Body

pub data SinkState : Type 0 where
  connecting connected disconnected_state : SinkState

-- `sink`, without what its configuration fixes. A connection is a number, and a zero time is 0.
pub record Sink : Type 0 where
  pub ring : ℕ → Option Message
  pub head : ℕ
  pub n : ℕ
  pub inflight : Option Message
  pub conn : Option ℕ
  pub connected_at : ℕ
  pub local_ip : String
  pub state : SinkState
  pub since : ℕ
  pub last_err : String
  pub stopping : Bool
  pub dropped : ℕ
  pub dropped_at_outage : ℕ
  pub first_failure : ℕ
  pub last_alert : ℕ
  pub warned75 : Bool
  pub attempted : Bool
  pub pending_disconnect : Option String
  pub reset_backoff : Bool

-- `newSink`
abbrev pub new_sink : ℕ → Sink
new_sink now = record {
  ring = λ i. none;
  head = 0;
  n = 0;
  inflight = none;
  conn = none;
  connected_at = 0;
  local_ip = "";
  state = connecting;
  since = now;
  last_err = "";
  stopping = false;
  dropped = 0;
  dropped_at_outage = 0;
  first_failure = 0;
  last_alert = 0;
  warned75 = false;
  attempted = false;
  pending_disconnect = none;
  reset_backoff = false;
}

abbrev pub set_slot : (ℕ → Option Message) → ℕ → Option Message → ℕ → Option Message
set_slot f i v k = if k == i then v else f k

-- `dropped++` on a uint64.
abbrev pub inc64 : ℕ → ℕ
inc64 n = (n + 1) % 2 ^ 64

-- The first half of `appendLocked`: the oldest record goes where the budget is spent.
unfoldable pub make_room : Sink → Bool → Sink
make_room s reserved =
    if leb queue_size s.n && not (reserved && s.n == queue_size)
    then record s { head = (s.head + 1) % ring_len; n = s.n - 1; dropped = inc64 s.dropped }
    else s

unfoldable pub put_last : Sink → Message → Sink
put_last s msg = record s {
  ring = set_slot s.ring ((s.head + s.n) % ring_len) (some msg);
  n = s.n + 1;
}

-- `appendLocked`
unfoldable pub append_locked : Sink → Message → Bool → Sink
append_locked s msg reserved = put_last (make_room s reserved) msg

-- `seqNextLocked`, on a uint32 that stays below 2 ^ 31.
abbrev pub seq_next : ℕ → ℕ
seq_next seq = if ltb max_seq (seq + 1) then 1 else seq + 1

-- A sink, and the last sequence number that its core handed out.
pub record Numbered : Type 0 where
  pub sink : Sink
  pub seq : ℕ

abbrev pub append_numbered : Numbered → Body → Bool → Numbered
append_numbered c body reserved = record {
  sink =
      append_locked c.sink
        (record { seq = seq_next c.seq; origin_ip = c.sink.local_ip; body = body }) reserved;
  seq = seq_next c.seq;
}

-- The disconnected record of an outage goes first.
unfoldable pub push_pending : Numbered → Option String → Numbered
unfolding append_locked
push_pending c none = c
push_pending c (some err) =
    append_numbered (record c { sink = record c.sink { pending_disconnect = none } })
      (disconnected err) false

-- `build` is nil, or gives the record that it formats.
unfoldable pub push_built : Numbered → Option String → Bool → Numbered
unfolding append_locked
push_built c none reserved = c
push_built c (some record_text) reserved = append_numbered c (produced record_text) reserved

-- `push`'s warning at three quarters, given once a fill cycle.
abbrev pub note_fill : Sink → Sink
note_fill s =
    if not s.warned75 && leb (queue_size * 3) (s.n * 4) then record s { warned75 = true } else s

-- `push`, under the sequence lock of `enqueue`. The Boolean is its result.
unfoldable pub push : Numbered → Bool → Option String → Numbered × Bool
unfolding push_pending push_built
push c reserved build =
    if c.sink.stopping
    then (c, false)
    else (let c' = push_built (push_pending c c.sink.pending_disconnect) build reserved in
        (record c' { sink = note_fill c'.sink }, true))

-- `takeLocked`, where the caller has checked that n is above 0.
unfoldable pub take_locked : Sink → Sink
take_locked s = record s {
  inflight = s.ring s.head;
  ring = set_slot s.ring s.head none;
  head = (s.head + 1) % ring_len;
  n = s.n - 1;
  warned75 = if ltb ((s.n - 1) * 2) queue_size then false else s.warned75;
}

unfoldable pub ack : Sink → Sink
ack s = record s { inflight = none }

-- The record in flight goes back to the front.
unfoldable pub requeue : Sink → Sink
requeue s =
    if leb queue_size s.n && not s.stopping
    then record s { inflight = none; dropped = inc64 s.dropped }
    else (let front = (s.head + ring_len - 1) % ring_len in
        record s {
          inflight = none;
          head = front;
          ring = set_slot s.ring front s.inflight;
          n = s.n + 1;
        })
