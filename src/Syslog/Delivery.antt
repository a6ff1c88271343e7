-- ===== src/Syslog/Delivery.antt =====
-- No record is lost without being counted, none is sent out of order, and none is overwritten in the
-- ring (internal/server/syslogfwd/forwarder.go), in any interleaving of the goroutines.
use polarbeam.Base.{
  ℕ, ◌+◌, ◌*◌, ◌≤◌, ◌<◌, ◌≡◌, refl, sym, ap, subst, ◌∙◌, false, Option, none, some, List, [], ◌∷◌,
  ◌++◌, map, length, arith,
}
use polarbeam.Syslog.{Message, Sink, queue_size, ring_len, max_seq}
use polarbeam.Syslog.Queue.{Queue, put_front}
use polarbeam.Syslog.Window.{window}
use polarbeam.Syslog.Ring.{Holds, Holds-length}
use polarbeam.Syslog.Rising.{Rising, Rising-append}
use polarbeam.Syslog.Pushes.{count_opt}
use polarbeam.Syslog.Steps.{IsGood, add_probe, step-IsGood}
use polarbeam.Syslog.Writer.{Policy, World, Input, new_world, step, run}

unfoldable pub keep_some : List (Option Message) → List Message
keep_some [] = []
keep_some (none ∷ ms) = keep_some ms
keep_some (some m ∷ ms) = m ∷ keep_some ms

keep_some-map : (ms : List Message) → keep_some (map (λ m. some m) ms) ≡ ms
unfolding keep_some
keep_some-map [] = refl
keep_some-map (m ∷ ms) = ap (λ k. m ∷ k) (keep_some-map ms)

-- The records in the ring, oldest first.
abbrev pub queued : Sink → List Message
queued s = keep_some (window s.ring s.head s.n)

pub queued-Holds : {s : Sink} {q : Queue} → Holds s q → queued s ≡ q.items
queued-Holds {s} {q} h = ap keep_some h.slots ∙ keep_some-map q.items

-- The numbers that went elsewhere than to a record of this sink: `n` before, and one a test message.
abbrev pub probes_after : ℕ → List Input → ℕ
probes_after n [] = n
probes_after n (i ∷ is) = probes_after (add_probe n i) is

run-IsGood :
    (probes : ℕ) (p : Policy) (w : World) (is : List Input)
    → w.core.seq + 2 * length is ≤ max_seq
    → IsGood probes w
    → IsGood (probes_after probes is) (run p w is)
unfolding run
run-IsGood probes p w [] b g = g
run-IsGood probes p w (i ∷ is) b g =
    let k = step-IsGood probes p w i (omega arith) g in
    run-IsGood (add_probe probes i) p (step p w i) is (omega (arith, k.1)) k.0

new_world-IsGood : (now seq : ℕ) → IsGood seq (new_world now seq)
unfolding window
new_world-IsGood now seq = record {
  queue = record { items = []; inflight = none; dropped = 0; stopping = false };
  holds = record {
    slots = refl;
    head_in = omega arith;
    same_inflight = refl;
    same_dropped = refl;
    same_stopping = refl;
  };
  mid = 0;
  sent_rising = omega arith;
  tail_rising = omega arith;
  in_phase = tt;
  small = λ e. omega arith;
  fits = omega arith;
  counted = omega arith;
}

-- A run of a new sink, of fewer steps than would use up the numbers.
started-IsGood :
    (p : Policy) (now seq : ℕ) (is : List Input)
    → seq + 2 * length is ≤ max_seq
    → IsGood (probes_after seq is) (run p (new_world now seq) is)
started-IsGood p now seq is b =
    run-IsGood seq p (new_world now seq) is (omega arith) (new_world-IsGood now seq)

-- From a new sink, at any number, and for as many steps as the numbers last, in any interleaving: the records
-- that were written, the one in flight and those in the ring have rising numbers, in this order, up to
-- the last number handed out.
pub run_in_order :
    (p : Policy) (now seq : ℕ) (is : List Input)
    → seq + 2 * length is ≤ max_seq
    → let w = run p (new_world now seq) is in
      Rising 0 (w.sent ++ put_front w.core.sink.inflight (queued w.core.sink)) w.core.seq
run_in_order p now seq is b =
    let w = run p (new_world now seq) is in
    let g = started-IsGood p now seq is b in
    subst (λ ms. Rising 0 (w.sent ++ put_front w.core.sink.inflight ms) w.core.seq)
      (sym (queued-Holds g.holds))
      (subst (λ o. Rising 0 (w.sent ++ put_front o g.queue.items) w.core.seq)
        (sym g.holds.same_inflight)
        (Rising-append 0 g.mid w.core.seq w.sent (put_front g.queue.inflight g.queue.items)
          g.sent_rising g.tail_rising))

-- From a new sink, at any number, and for as many steps as the numbers last, in any interleaving: every number
-- handed out went elsewhere before the sink, to a test message, or to a record that was written, is in flight, is in the ring, or
-- was dropped and counted.
pub run_none_lost :
    (p : Policy) (now seq : ℕ) (is : List Input)
    → seq + 2 * length is ≤ max_seq
    → let w = run p (new_world now seq) is in
      w.core.seq
      ≡ probes_after seq is
        + length w.sent
        + count_opt w.core.sink.inflight
        + length (queued w.core.sink)
        + w.core.sink.dropped
run_none_lost p now seq is b =
    let g = started-IsGood p now seq is b in
    omega (
      arith,
      g.counted,
      Holds-length g.holds,
      ap length (queued-Holds g.holds),
      ap count_opt g.holds.same_inflight,
    )

-- From a new sink, at any number, and for as many steps as the numbers last, in any interleaving: each of the `n`
-- slots in use holds a record, the one in flight has its slot too, and unless the sink retires there is
-- at most one record above the budget.
run_bounded :
    (p : Policy) (now seq : ℕ) (is : List Input)
    → seq + 2 * length is ≤ max_seq
    → let s = (run p (new_world now seq) is).core.sink in
      (length (queued s) ≡ s.n)
      × (s.n + count_opt s.inflight ≤ ring_len)
      × (s.head < ring_len)
      × (s.stopping ≡ false → s.n ≤ queue_size + 1)
run_bounded p now seq is b =
    let g = started-IsGood p now seq is b in
    (
      ap length (queued-Holds g.holds) ∙ sym (Holds-length g.holds),
      omega (arith, g.fits, ap count_opt g.holds.same_inflight),
      g.holds.head_in,
      g.small,
    )
