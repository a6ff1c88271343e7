-- ===== src/Syslog/Untouched.antt =====
-- What the failures and the dials of the syslog forwarder leave alone
-- (internal/server/syslogfwd/forwarder.go): the queue, and whether the sink retires.
use polarbeam.Base.{
  ℕ, ◌≡◌, refl, ◌∙◌, String, Bool, true, false, ◌||◌, not, Bool-cases, inl, inr, Option, none, some,
  ◌==◌, if◌then◌else◌,
}
use polarbeam.Syslog.{Sink}
use polarbeam.Syslog.Pushes.{SameQueue}
use polarbeam.Syslog.Writer.{
  Policy, World, is_stale, lose_conn, is_periodic, note_failure, fail_locked, install, is_conn,
  delivered, next_dial,
}

-- Nothing of the queue changes, nor whether the sink retires.
pub record Untouched (s s' : Sink) : Type 0 where
  pub queue : SameQueue s s'
  pub stopping : s'.stopping ≡ s.stopping

pub untouched : {s : Sink} → Untouched s s
untouched = record {
  queue = record { ring = refl; head = refl; n = refl; inflight = refl; dropped = refl };
  stopping = refl;
}

Untouched-trans : {s t u : Sink} → Untouched s t → Untouched t u → Untouched s u
Untouched-trans a b = record {
  queue = record {
    ring = b.queue.ring ∙ a.queue.ring;
    head = b.queue.head ∙ a.queue.head;
    n = b.queue.n ∙ a.queue.n;
    inflight = b.queue.inflight ∙ a.queue.inflight;
    dropped = b.queue.dropped ∙ a.queue.dropped;
  };
  stopping = b.stopping ∙ a.stopping;
}

lose_conn-Untouched : (s : Sink) (conn : Option ℕ) (now : ℕ) → Untouched s (lose_conn s conn now)
lose_conn-Untouched s none now = untouched
lose_conn-Untouched s (some c) now = record {
  queue = record { ring = refl; head = refl; n = refl; inflight = refl; dropped = refl };
  stopping = refl;
}

either :
    (s t u : Sink) (b : Bool) → Untouched s t → Untouched s u → Untouched s (if b then t else u)
either s t u true a c = a
either s t u false a c = c

outage :
    (s : Sink) (err : String) (now : ℕ)
    → Untouched s (record s {
      first_failure = now;
      dropped_at_outage = s.dropped;
      last_alert = now;
      pending_disconnect = some err;
    })
outage s err now = record {
  queue = record { ring = refl; head = refl; n = refl; inflight = refl; dropped = refl };
  stopping = refl;
}

note_failure-Untouched :
    (p : Policy) (s : Sink) (first periodic : Bool) (err : String) (now : ℕ)
    → Untouched s (note_failure p s first periodic err now).0
note_failure-Untouched p s first periodic err now = record {
  queue = record { ring = refl; head = refl; n = refl; inflight = refl; dropped = refl };
  stopping = refl;
}

pub fail_locked-Untouched :
    (p : Policy) (s : Sink) (conn : Option ℕ) (err : String) (now : ℕ)
    → Untouched s (fail_locked p s conn err now).0
unfolding fail_locked
fail_locked-Untouched p s conn err now = elim (Bool-cases (is_stale s conn)) [
  | inl t ↦ simp t untouched
  | inr t ↦
      let s1 = lose_conn s conn now in
      simp t (
        Untouched-trans (lose_conn-Untouched s conn now) (
          Untouched-trans (either s1 _ s1 (s1.first_failure == 0) (outage s1 err now) untouched)
            (note_failure-Untouched p _ (s.first_failure == 0) (is_periodic s now) err now)))
]

pub delivered-Untouched : (s : Sink) (c now : ℕ) → Untouched s (delivered s c now).0
unfolding delivered
delivered-Untouched s c now = elim (Bool-cases (not (is_conn s.conn c) || s.first_failure == 0)) [
  | inl t ↦ simp t untouched
  | inr t ↦ simp t (record {
    queue = record { ring = refl; head = refl; n = refl; inflight = refl; dropped = refl };
    stopping = refl;
  })
]

pub next_dial-Untouched : (w : World) → Untouched w.core.sink (next_dial w).core.sink
next_dial-Untouched w = elim (Bool-cases w.core.sink.reset_backoff) [
  | inl t ↦ simp t (record {
    queue = record { ring = refl; head = refl; n = refl; inflight = refl; dropped = refl };
    stopping = refl;
  })
  | inr t ↦ simp t (record {
    queue = record { ring = refl; head = refl; n = refl; inflight = refl; dropped = refl };
    stopping = refl;
  })
]

pub install-Untouched :
    (s : Sink) (c : ℕ) (host : Option String) (now : ℕ) → Untouched s (install s c host now)
install-Untouched s c host now = record {
  queue = record { ring = refl; head = refl; n = refl; inflight = refl; dropped = refl };
  stopping = refl;
}
