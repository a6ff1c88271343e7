-- ===== src/Syslog/Clock.antt =====
-- The clock of the halt policy of the syslog forwarder, and the waits between its dials
-- (internal/server/syslogfwd/forwarder.go).
use polarbeam.Base.{
  ℕ, ◌-◌, ◌≤◌, ◌<◌, ◌≡◌, refl, ap, ◌∙◌, String, Bool, true, false, ◌&&◌, Option, none, some, List,
  [], ◌∷◌, arith, leb,
}
use polarbeam.Syslog.{
  Message, Sink, Numbered, make_room, put_last, append_locked, push_pending, push_built, push,
  take_locked, ack, requeue,
}
use polarbeam.Syslog.Outage.{fail_locked-noted, lose_conn-same}
use polarbeam.Syslog.Writer.{
  Policy, Phase, World, Input, is_stale, lose_conn, open_outage, fail_locked, top, write_step, step,
  run, backoff_min, backoff_max, idle, sleeping, dialing, requeueing, writing, confirming, wake,
  slept, stop_sleeping, dial_failed, dialed, write_ok, write_failed, requeued, confirm, produce,
  flush, probe, retire, force_close, peer_lost,
}

-- Not a confirmed write.
abbrev pub IsQuiet : Input → Type 0
IsQuiet (confirm now) = ⊥
IsQuiet _ = Unit

abbrev pub Unconfirmed : List Input → Type 0
Unconfirmed [] = Unit
Unconfirmed (i ∷ is) = IsQuiet i × Unconfirmed is

append_locked_clock :
    (s : Sink) (m : Message) (reserved : Bool)
    → (append_locked s m reserved).first_failure ≡ s.first_failure
unfolding append_locked make_room put_last
append_locked_clock s m reserved = ground arith

push_pending_clock :
    (c : Numbered) (pending : Option String)
    → (push_pending c pending).sink.first_failure ≡ c.sink.first_failure
unfolding push_pending
push_pending_clock c none = refl
push_pending_clock c (some err) =
    append_locked_clock (record c.sink { pending_disconnect = none }) _ false

push_built_clock :
    (c : Numbered) (build : Option String) (reserved : Bool)
    → (push_built c build reserved).sink.first_failure ≡ c.sink.first_failure
unfolding push_built
push_built_clock c none reserved = refl
push_built_clock c (some text) reserved = append_locked_clock c.sink _ reserved

push_clock :
    (c : Numbered) (reserved : Bool) (build : Option String)
    → (push c reserved build).0.sink.first_failure ≡ c.sink.first_failure
unfolding push
push_clock c reserved build =
    let c1 = push_pending c c.sink.pending_disconnect in
    ground
      (arith, push_built_clock c1 build reserved, push_pending_clock c c.sink.pending_disconnect)

requeue_clock : (s : Sink) → (requeue s).first_failure ≡ s.first_failure
unfolding requeue
requeue_clock s = ground arith

take_locked_clock : (s : Sink) → (take_locked s).first_failure ≡ s.first_failure
unfolding take_locked
take_locked_clock s = refl

ack_clock : (s : Sink) → (ack s).first_failure ≡ s.first_failure
unfolding ack
ack_clock s = refl

fail_locked_clock :
    (p : Policy) (s : Sink) (conn : Option ℕ) (err : String) (now : ℕ)
    → 0 < s.first_failure
    → (fail_locked p s conn err now).0.first_failure ≡ s.first_failure
unfolding fail_locked
fail_locked_clock p s none err now l = ground arith
fail_locked_clock p s (some c) err now l = ground arith

top_clock :
    (w : World) (conn : Option ℕ) → (top w conn).core.sink.first_failure ≡ w.core.sink.first_failure
unfolding take_locked
top_clock w none = ground arith
top_clock w (some c) = ground arith

write_step_clock :
    (p : Policy) (w : World) (phase : Phase) (i : Input)
    → IsQuiet i
    → 0 < w.core.sink.first_failure
    → (write_step p w phase i).core.sink.first_failure ≡ w.core.sink.first_failure
unfolding write_step
write_step_clock p w idle wake q l = top_clock w w.core.sink.conn
write_step_clock p w sleeping slept q l = refl
write_step_clock p w sleeping stop_sleeping q l = refl
write_step_clock p w dialing (dial_failed err now) q l =
    fail_locked_clock p w.core.sink none err now l
write_step_clock p w dialing (dialed c host now) q l = refl
write_step_clock p w (writing c) write_ok q l = ack_clock w.core.sink
write_step_clock p w (writing c) (write_failed err now) q l =
    fail_locked_clock p w.core.sink (some c) err now l
write_step_clock p w requeueing requeued q l = requeue_clock w.core.sink
write_step_clock p w (confirming c) (confirm now) q l = absurd q
write_step_clock p w phase i q l = refl

step_clock :
    (p : Policy) (w : World) (i : Input)
    → IsQuiet i
    → 0 < w.core.sink.first_failure
    → (step p w i).core.sink.first_failure ≡ w.core.sink.first_failure
unfolding step
step_clock p w (produce reserved text) q l = push_clock w.core reserved (some text)
step_clock p w flush q l = push_clock w.core true none
step_clock p w probe q l = refl
step_clock p w (peer_lost c err now) q l = fail_locked_clock p w.core.sink (some c) err now l
step_clock p w retire q l = refl
step_clock p w force_close q l = refl
step_clock p w i q l = write_step_clock p w w.phase i q l

run_clock :
    (p : Policy) (w : World) (is : List Input)
    → Unconfirmed is
    → 0 < w.core.sink.first_failure
    → (run p w is).core.sink.first_failure ≡ w.core.sink.first_failure
unfolding run
run_clock p w [] q l = refl
run_clock p w (i ∷ is) q l =
    let e = step_clock p w i q.0 l in run_clock p (step p w i) is q.1 (omega (arith, e)) ∙ e

open_outage-again :
    (s : Sink) (err : String) (now : ℕ)
    → 0 < s.first_failure
    → (open_outage s err now).first_failure ≡ s.first_failure
open_outage-again s err now l = ground arith

failing_halt :
    (p : Policy) (s : Sink) (conn : Option ℕ) (err : String) (now : ℕ)
    → is_stale s conn ≡ false
    → 0 < s.first_failure
    → (fail_locked p s conn err now).1.halt
      ≡ (p.halts && leb p.failure_timeout (now - s.first_failure))
failing_halt p s conn err now own l =
    let lost = lose_conn-same s conn now in
    ap (λ r. r.1.halt) (fail_locked-noted p s conn err now own)
    ∙ ap (λ t. p.halts && leb p.failure_timeout (now - t))
        (open_outage-again (lose_conn s conn now) err now (omega (arith, lost.0)) ∙ lost.0)

-- In an outage, and after any steps with no confirmed write among them, reconnects included: a failure
-- of the sink's own connection or of a dial calls for a halt exactly when the policy halts and the time
-- since the first failure of the outage has reached the timeout.
pub halt_counts_from_first :
    (p : Policy) (w : World) (is : List Input) (conn : Option ℕ) (err : String) (now : ℕ)
    → 0 < w.core.sink.first_failure
    → Unconfirmed is
    → is_stale (run p w is).core.sink conn ≡ false
    → (fail_locked p (run p w is).core.sink conn err now).1.halt
      ≡ (p.halts && leb p.failure_timeout (now - w.core.sink.first_failure))
halt_counts_from_first p w is conn err now l q own =
    let e = run_clock p w is q l in
    failing_halt p (run p w is).core.sink conn err now own (omega (arith, e))
    ∙ ap (λ t. p.halts && leb p.failure_timeout (now - t)) e

abbrev WaitsWell : ℕ → Type 0
WaitsWell b = (backoff_min ≤ b) × (b ≤ backoff_max)

top-WaitsWell : (w : World) (conn : Option ℕ) → WaitsWell w.backoff → WaitsWell (top w conn).backoff
top-WaitsWell w none h = (ground (arith, h.0), ground (arith, h.1))
top-WaitsWell w (some c) h = (ground (arith, h.0), ground (arith, h.1))

write_step-WaitsWell :
    (p : Policy) (w : World) (phase : Phase) (i : Input)
    → WaitsWell w.backoff
    → WaitsWell (write_step p w phase i).backoff
unfolding write_step
write_step-WaitsWell p w idle wake h = top-WaitsWell w w.core.sink.conn h
write_step-WaitsWell p w sleeping slept h = (ground (arith, h.0, h.1), ground (arith, h.0, h.1))
write_step-WaitsWell p w sleeping stop_sleeping h = h
write_step-WaitsWell p w dialing (dial_failed err now) h = h
write_step-WaitsWell p w dialing (dialed c host now) h = h
write_step-WaitsWell p w (writing c) write_ok h = h
write_step-WaitsWell p w (writing c) (write_failed err now) h = h
write_step-WaitsWell p w requeueing requeued h = h
write_step-WaitsWell p w (confirming c) (confirm now) h = h
write_step-WaitsWell p w phase i h = h

step-WaitsWell :
    (p : Policy) (w : World) (i : Input) → WaitsWell w.backoff → WaitsWell (step p w i).backoff
unfolding step
step-WaitsWell p w (produce reserved text) h = h
step-WaitsWell p w flush h = h
step-WaitsWell p w probe h = h
step-WaitsWell p w (peer_lost c err now) h = h
step-WaitsWell p w retire h = h
step-WaitsWell p w force_close h = h
step-WaitsWell p w i h = write_step-WaitsWell p w w.phase i h

-- The writer's next wait is never under the least nor above the greatest back-off, whatever happens.
run-WaitsWell :
    (p : Policy) (w : World) (is : List Input)
    → WaitsWell w.backoff
    → WaitsWell (run p w is).backoff
unfolding run
run-WaitsWell p w [] h = h
run-WaitsWell p w (i ∷ is) h = run-WaitsWell p (step p w i) is (step-WaitsWell p w i h)
