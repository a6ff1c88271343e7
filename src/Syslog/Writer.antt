-- ===== src/Syslog/Writer.antt =====
-- The writer of the syslog forwarder and what else touches its sink
-- (internal/server/syslogfwd/forwarder.go): `run`, `fail`, `connected`, `delivered` and `stop` as steps
-- of one world, in any interleaving. Each section under the sink's lock is one step.
use polarbeam.Base.{
  ℕ, ◌+◌, ◌-◌, ◌*◌, ◌%◌, ◌^◌, String, Bool, true, false, ◌&&◌, ◌||◌, not, Option, none, some, List,
  [], ◌∷◌, ◌++◌, min, leb, ◌==◌, if◌then◌else◌,
}
use polarbeam.Syslog.{
  Message, Sink, connected, disconnected_state, Numbered, new_sink, seq_next, push, take_locked,
  ack, requeue,
}

abbrev pub backoff_min : ℕ
backoff_min = 1_000_000_000

abbrev pub backoff_max : ℕ
backoff_max = 30_000_000_000

abbrev pub alert_interval : ℕ
alert_interval = 300_000_000_000

abbrev pub stable_after : ℕ
stable_after = 10_000_000_000

-- What of the configuration the failure handling reads.
pub record Policy : Type 0 where
  pub halts : Bool
  pub failure_timeout : ℕ

abbrev pub is_conn : Option ℕ → ℕ → Bool
is_conn none c = false
is_conn (some d) c = d == c

-- The early return of `fail`: the sink retires, or the connection is no longer its own.
abbrev pub is_stale : Sink → Option ℕ → Bool
is_stale s none = s.stopping
is_stale s (some c) = s.stopping || not (is_conn s.conn c)

abbrev pub lose_conn : Sink → Option ℕ → ℕ → Sink
lose_conn s none now = s
lose_conn s (some c) now = record s {
  conn = none;
  reset_backoff = leb stable_after (now - s.connected_at);
  connected_at = 0;
}

abbrev pub open_outage : Sink → String → ℕ → Sink
open_outage s err now =
    if s.first_failure == 0
    then record s {
      first_failure = now;
      dropped_at_outage = s.dropped;
      last_alert = now;
      pending_disconnect = some err;
    }
    else s

-- What `fail` does once the lock is free: the first alert, a later one, the halt policy.
pub record Alerts : Type 0 where
  pub first : Bool
  pub periodic : Bool
  pub halt : Bool

abbrev pub no_alerts : Alerts
no_alerts = record { first = false; periodic = false; halt = false }

abbrev pub is_periodic : Sink → ℕ → Bool
is_periodic s now = not (s.first_failure == 0) && leb alert_interval (now - s.last_alert)

abbrev pub note_failure : Policy → Sink → Bool → Bool → String → ℕ → Sink × Alerts
note_failure p s first periodic err now = (
  record s {
    state = disconnected_state;
    since = s.first_failure;
    last_err = err;
    last_alert = if periodic then now else s.last_alert;
  },
  record {
    first = first;
    periodic = periodic;
    halt = p.halts && leb p.failure_timeout (now - s.first_failure);
  },
)

-- The section of `fail` under the lock.
unfoldable pub fail_locked : Policy → Sink → Option ℕ → String → ℕ → Sink × Alerts
fail_locked p s conn err now =
    if is_stale s conn
    then (s, no_alerts)
    else note_failure p (open_outage (lose_conn s conn now) err now) (s.first_failure == 0)
        (is_periodic s now) err now

abbrev pub host_or : String → Option String → String
host_or ip none = ip
host_or ip (some host) = host

-- `connected`: `host` is what `net.SplitHostPort` gives of the local address.
abbrev pub install : Sink → ℕ → Option String → ℕ → Sink
install s c host now = record s {
  conn = some c;
  connected_at = now;
  local_ip = host_or s.local_ip host;
  state = connected;
  since = now;
  last_err = "";
}

-- `delivered`: with the length of the outage that ended, and what was dropped in it.
unfoldable pub delivered : Sink → ℕ → ℕ → Sink × Option (ℕ × ℕ)
delivered s c now = if not (is_conn s.conn c) || s.first_failure == 0 then (s, none) else (
  record s { first_failure = 0 },
  some (now - s.first_failure, (s.dropped + 2 ^ 64 - s.dropped_at_outage) % 2 ^ 64),
)

-- Where the writer goroutine is.
pub data Phase : Type 0 where
  idle sleeping dialing requeueing exited : Phase
  writing confirming : ℕ → Phase

-- The sink with its numbers, the writer, its back-off, and the records it has written, the oldest
-- first. That log is the model's own.
pub record World : Type 0 where
  pub core : Numbered
  pub phase : Phase
  pub backoff : ℕ
  pub sent : List Message

abbrev pub new_world : ℕ → ℕ → World
new_world now seq = record {
  core = record { sink = new_sink now; seq = seq };
  phase = idle;
  backoff = backoff_min;
  sent = [];
}

abbrev pub with_sink : World → Sink → World
with_sink w s = record w { core = record w.core { sink = s } }

-- What can happen. A `flush` is the push of a pending disconnected record, and `probe` takes a number
-- for a test message.
pub data Input : Type 0 where
  produce : Bool → String → Input
  flush probe wake slept stop_sleeping write_ok requeued retire force_close : Input
  dial_failed write_failed : String → ℕ → Input
  dialed : ℕ → Option String → ℕ → Input
  confirm : ℕ → Input
  peer_lost : ℕ → String → ℕ → Input

-- The choice before a dial.
abbrev pub next_dial : World → World
next_dial w =
    let s = w.core.sink in
    let w' = with_sink w (record s { reset_backoff = false; attempted = true }) in
    if s.reset_backoff
    then record w' { phase = dialing; backoff = backoff_min }
    else record w' { phase = if s.attempted then sleeping else dialing }

-- The top of the loop of `run`, with a connection or without.
abbrev pub top : World → Option ℕ → World
top w none = if w.core.sink.stopping then record w { phase = exited } else next_dial w
top w (some c) =
    if w.core.sink.n == 0
    then (if w.core.sink.stopping
        then record (with_sink w (record w.core.sink { conn = none })) { phase = exited }
        else w)
    else record (with_sink w (take_locked w.core.sink)) { phase = writing c }

abbrev pub log_sent : Option Message → List Message → List Message
log_sent none ms = ms
log_sent (some m) ms = ms ++ m ∷ []

-- The steps of the writer in each phase; what cannot happen there is ignored.
unfoldable pub write_step : Policy → World → Phase → Input → World
unfolding take_locked fail_locked ack requeue delivered
write_step p w idle wake = top w w.core.sink.conn
write_step p w sleeping slept = record w {
  phase = dialing;
  backoff = min (w.backoff * 2) backoff_max;
}
write_step p w sleeping stop_sleeping = record w { phase = exited }
write_step p w dialing (dial_failed err now) =
    record (with_sink w (fail_locked p w.core.sink none err now).0) { phase = idle }
write_step p w dialing (dialed c host now) = record (with_sink w (install w.core.sink c host now)) {
  phase = idle;
}
write_step p w (writing c) write_ok = record (with_sink w (ack w.core.sink)) {
  phase = confirming c;
  sent = log_sent w.core.sink.inflight w.sent;
}
write_step p w (writing c) (write_failed err now) =
    record (with_sink w (fail_locked p w.core.sink (some c) err now).0) { phase = requeueing }
write_step p w requeueing requeued = record (with_sink w (requeue w.core.sink)) { phase = idle }
write_step p w (confirming c) (confirm now) = record (with_sink w (delivered w.core.sink c now).0) {
  phase = idle;
}
write_step p w _ _ = w

-- The steps of the other goroutines, and else those of the writer.
unfoldable pub step : Policy → World → Input → World
unfolding push fail_locked write_step
step p w (produce reserved text) = record w { core = (push w.core reserved (some text)).0 }
step p w flush = record w { core = (push w.core true none).0 }
step p w probe = record w { core = record w.core { seq = seq_next w.core.seq } }
step p w (peer_lost c err now) = with_sink w (fail_locked p w.core.sink (some c) err now).0
step p w retire = with_sink w (record w.core.sink { stopping = true })
step p w force_close = with_sink w (record w.core.sink { conn = none })
step p w i = write_step p w w.phase i

unfoldable pub run : Policy → World → List Input → World
unfolding step
run p w [] = w
run p w (i ∷ is) = run p (step p w i) is
