-- ===== src/Syslog/Steps.antt =====
-- Every step of the syslog forwarder (internal/server/syslogfwd/forwarder.go) keeps the queue that its
-- sink is, the order of the numbers, and the count of the records.
use polarbeam.Base.{
  ℕ, ◌+◌, ◌≤◌, ◌<◌, ◌≡◌, refl, sym, subst, ◌∙◌, Bool, true, false, Option, none, some, List, arith,
  ◌==◌, if◌then◌else◌,
}
use polarbeam.Syslog.{Message, Sink, Numbered, max_seq, seq_next}
use polarbeam.Syslog.Queue.{put_front}
use polarbeam.Syslog.Rising.{Rising-higher}
use polarbeam.Syslog.Pushes.{IsFree, InPhase, Good, Good-same, push-Good, seq_next-suc}
use polarbeam.Syslog.Untouched.{
  Untouched, untouched, fail_locked-Untouched, install-Untouched, delivered-Untouched,
}
use polarbeam.Syslog.Writer.{
  wake, slept, stop_sleeping, dial_failed, dialed, write_ok, write_failed, requeued, confirm,
  produce, flush, probe, retire, force_close, peer_lost, Policy, Phase, idle, sleeping, dialing,
  requeueing, exited, writing, confirming, World, Input, install, next_dial, top, write_step, step,
}
use polarbeam.Syslog.Taking.{take_locked-Good, ack-Good, requeue-Good}

-- The world's sink is the queue, and its records are in order and counted.
abbrev pub IsGood : ℕ → World → Type 0
IsGood probes w = Good probes w.phase w.sent w.core

untouched-Good :
    (probes : ℕ) (phase phase' : Phase) (sent : List Message) (d : Numbered) (s : Sink)
    → Untouched d.sink s
    → ((o : Option Message) → InPhase phase o → InPhase phase' o)
    → Good probes phase sent d
    → Good probes phase' sent (record d { sink = s })
untouched-Good probes phase phase' sent d s u i g =
    Good-same probes phase phase' sent d s u.queue i (λ e. sym u.stopping ∙ e) g

relabelled :
    (probes : ℕ) (phase phase' : Phase) (sent : List Message) (d : Numbered)
    → ((o : Option Message) → InPhase phase o → InPhase phase' o)
    → Good probes phase sent d
    → Good probes phase' sent d
relabelled probes phase phase' sent d i g =
    untouched-Good probes phase phase' sent d d.sink untouched i g

IsGood-if :
    (probes : ℕ) (b : Bool) (w w' : World)
    → (b ≡ true → IsGood probes w)
    → (b ≡ false → IsGood probes w')
    → IsGood probes (if b then w else w')
IsGood-if probes true w w' t f = t refl
IsGood-if probes false w w' t f = f refl

free_dial : (b : Bool) (o : Option Message) → IsFree o → InPhase (if b then sleeping else dialing) o
free_dial true o i = i
free_dial false o i = i

attempt : (s : Sink) → Untouched s (record s { reset_backoff = false; attempted = true })
attempt s = record {
  queue = record { ring = refl; head = refl; n = refl; inflight = refl; dropped = refl };
  stopping = refl;
}

next_dial-IsGood :
    (probes : ℕ) (w : World) → Good probes idle w.sent w.core → IsGood probes (next_dial w)
next_dial-IsGood probes w g =
    let s = record w.core.sink { reset_backoff = false; attempted = true } in
    IsGood-if probes w.core.sink.reset_backoff _ _
      (λ t. untouched-Good probes idle dialing w.sent w.core s (attempt w.core.sink) (λ o i. i) g)
      (λ t.
        untouched-Good probes idle _ w.sent w.core s (attempt w.core.sink)
          (free_dial w.core.sink.attempted) g)

closed : (s : Sink) → Untouched s (record s { conn = none })
closed s = record {
  queue = record { ring = refl; head = refl; n = refl; inflight = refl; dropped = refl };
  stopping = refl;
}

top-IsGood :
    (probes : ℕ) (w : World) (conn : Option ℕ)
    → w.phase ≡ idle
    → Good probes idle w.sent w.core
    → IsGood probes (top w conn)
top-IsGood probes w none e g =
    IsGood-if probes w.core.sink.stopping _ _
      (λ t. relabelled probes idle exited w.sent w.core (λ o i. i) g)
      (λ t. next_dial-IsGood probes w g)
top-IsGood probes w (some c) e g =
    IsGood-if probes (w.core.sink.n == 0) _ _
      (λ t.
        IsGood-if probes w.core.sink.stopping _ w
          (λ u. untouched-Good probes idle exited w.sent w.core _ (closed w.core.sink) (λ o i. i) g)
          (λ u. subst (λ ph. Good probes ph w.sent w.core) (sym e) g))
      (λ t. take_locked-Good probes c w.sent w.core (ground arith) g)

write_step-IsGood :
    (probes : ℕ) (p : Policy) (w : World) (phase : Phase) (i : Input)
    → w.core.seq ≤ max_seq
    → w.phase ≡ phase
    → Good probes phase w.sent w.core
    → IsGood probes (write_step p w phase i)
unfolding write_step
write_step-IsGood probes p w idle wake b e g = top-IsGood probes w w.core.sink.conn e g
write_step-IsGood probes p w sleeping slept b e g =
    untouched-Good probes sleeping dialing w.sent w.core w.core.sink untouched (λ o i. i) g
write_step-IsGood probes p w sleeping stop_sleeping b e g =
    untouched-Good probes sleeping exited w.sent w.core w.core.sink untouched (λ o i. i) g
write_step-IsGood probes p w dialing (dial_failed err now) b e g =
    untouched-Good probes dialing idle w.sent w.core _
      (fail_locked-Untouched p w.core.sink none err now) (λ o i. i) g
write_step-IsGood probes p w dialing (dialed c ip now) b e g =
    untouched-Good probes dialing idle w.sent w.core (install w.core.sink c ip now)
      (install-Untouched w.core.sink c ip now) (λ o i. i) g
write_step-IsGood probes p w (writing c) write_ok b e g = ack-Good probes c w.sent w.core g
write_step-IsGood probes p w (writing c) (write_failed err now) b e g =
    untouched-Good probes (writing c) requeueing w.sent w.core _
      (fail_locked-Untouched p w.core.sink (some c) err now) (λ o i. i) g
write_step-IsGood probes p w requeueing requeued b e g = requeue-Good probes w.sent w.core b g
write_step-IsGood probes p w (confirming c) (confirm now) b e g =
    untouched-Good probes (confirming c) idle w.sent w.core _
      (delivered-Untouched w.core.sink c now) (λ o i. i) g
write_step-IsGood probes p w phase i b e g = subst (λ ph. Good probes ph w.sent w.core) (sym e) g

more_probes :
    (probes : ℕ) (phase : Phase) (sent : List Message) (d : Numbered)
    → d.seq < max_seq
    → Good probes phase sent d
    → Good (probes + 1) phase sent (record d { seq = seq_next d.seq })
more_probes probes phase sent d b g = record {
  queue = g.queue;
  holds = g.holds;
  mid = g.mid;
  sent_rising = g.sent_rising;
  tail_rising =
      Rising-higher g.mid d.seq (seq_next d.seq) (put_front g.queue.inflight g.queue.items)
        (omega (arith, seq_next-suc d.seq b)) g.tail_rising;
  in_phase = g.in_phase;
  small = g.small;
  fits = g.fits;
  counted = omega (arith, seq_next-suc d.seq b, g.counted);
}

retire-Good :
    (probes : ℕ) (phase : Phase) (sent : List Message) (d : Numbered)
    → Good probes phase sent d
    → Good probes phase sent (record d { sink = record d.sink { stopping = true } })
retire-Good probes phase sent d g =
    Good-same probes phase phase sent d (record d.sink { stopping = true })
      (record { ring = refl; head = refl; n = refl; inflight = refl; dropped = refl }) (λ o i. i)
      (λ e. absurd (cc e)) g

-- The numbers that went to test messages.
abbrev pub add_probe : ℕ → Input → ℕ
add_probe n probe = n + 1
add_probe n _ = n

top_seq : (w : World) (conn : Option ℕ) → (top w conn).core.seq ≡ w.core.seq
top_seq w none = ground arith
top_seq w (some c) = ground arith

write_step_seq :
    (p : Policy) (w : World) (phase : Phase) (i : Input)
    → (write_step p w phase i).core.seq ≡ w.core.seq
unfolding write_step
write_step_seq p w idle wake = top_seq w w.core.sink.conn
write_step_seq p w sleeping slept = refl
write_step_seq p w sleeping stop_sleeping = refl
write_step_seq p w dialing (dial_failed err now) = refl
write_step_seq p w dialing (dialed c ip now) = refl
write_step_seq p w (writing c) write_ok = refl
write_step_seq p w (writing c) (write_failed err now) = refl
write_step_seq p w requeueing requeued = refl
write_step_seq p w (confirming c) (confirm now) = refl
write_step_seq p w phase i = refl

pub step-IsGood :
    (probes : ℕ) (p : Policy) (w : World) (i : Input)
    → w.core.seq + 2 ≤ max_seq
    → IsGood probes w
    → IsGood (add_probe probes i) (step p w i) × ((step p w i).core.seq ≤ w.core.seq + 2)
unfolding step
step-IsGood probes p w (produce reserved text) b g =
    push-Good probes w.phase w.sent w.core reserved (some text) b g
step-IsGood probes p w flush b g = push-Good probes w.phase w.sent w.core true none b g
step-IsGood probes p w probe b g = (
  more_probes probes w.phase w.sent w.core (omega arith) g,
  omega (arith, seq_next-suc w.core.seq),
)
step-IsGood probes p w (peer_lost c err now) b g = (
  untouched-Good probes w.phase w.phase w.sent w.core _
      (fail_locked-Untouched p w.core.sink (some c) err now) (λ o i. i) g,
  omega arith,
)
step-IsGood probes p w retire b g = (retire-Good probes w.phase w.sent w.core g, omega arith)
step-IsGood probes p w force_close b g = (
  untouched-Good probes w.phase w.phase w.sent w.core _ (closed w.core.sink) (λ o i. i) g,
  omega arith,
)
step-IsGood probes p w i b g = (
  write_step-IsGood probes p w w.phase i (omega arith) refl g,
  omega (arith, write_step_seq p w w.phase i),
)
