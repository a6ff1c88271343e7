-- ===== src/Syslog/Taking.antt =====
-- What the writer of the syslog forwarder does to the record it holds
-- (internal/server/syslogfwd/forwarder.go): `takeLocked`, `ack` and `requeue` keep the queue that the
-- sink is, the order of the numbers, and the count of the records.
use polarbeam.Base.{
  ℕ, ◌+◌, ◌≤◌, ◌<◌, ◌≡◌, refl, sym, ap, subst, ◌∙◌, false, ◌&&◌, not, Bool-cases, inl, inr, Option,
  none, some, List, [], ◌∷◌, length, length-append, arith, leb,
}
use polarbeam.Syslog.{Message, Sink, Numbered, queue_size, max_seq, take_locked, ack, requeue}
use polarbeam.Syslog.Queue.{Queue, take_from, take_first, acknowledge, put_front, put_back}
use polarbeam.Syslog.Ring.{Holds-length, take_locked-Holds, ack-Holds, requeue-Holds}
use polarbeam.Syslog.Rising.{Rising, Rising-snoc, Rising-tail}
use polarbeam.Syslog.Pushes.{count_opt, IsHeld, IsFree, InPhase, Good}
use polarbeam.Syslog.Writer.{idle, requeueing, writing, confirming, log_sent}

-- Splits on the record in flight.
Rising-in_flight :
    (lo mid hi : ℕ) (o : Option Message) (sent ms : List Message)
    → Rising lo sent mid
    → Rising mid (put_front o ms) hi
    → (mid' : ℕ) × Rising lo (log_sent o sent) mid' × Rising mid' ms hi
Rising-in_flight lo mid hi none sent ms a b = (mid, a, b)
Rising-in_flight lo mid hi (some m) sent ms a b = (m.seq, Rising-snoc lo mid sent m b.0 a, b.1)

length-log_sent :
    (o : Option Message) (sent : List Message)
    → length (log_sent o sent) ≡ length sent + count_opt o
length-log_sent none sent = omega arith
length-log_sent (some m) sent = length-append sent (m ∷ [])

idle_empty : (o : Option Message) → IsFree o → o ≡ none
idle_empty none i = refl
idle_empty (some m) i = absurd i

pub ack-Good :
    (probes c : ℕ) (sent : List Message) (d : Numbered)
    → Good probes (writing c) sent d
    → Good probes (confirming c) (log_sent d.sink.inflight sent) (record d { sink = ack d.sink })
unfolding ack acknowledge
ack-Good probes c sent d g =
    let r =
      Rising-in_flight 0 g.mid d.seq g.queue.inflight sent g.queue.items g.sent_rising
        g.tail_rising in
    let e = g.holds.same_inflight in
    record {
      queue = acknowledge g.queue;
      holds = ack-Holds g.holds;
      mid = r.0;
      sent_rising = subst (λ o. Rising 0 (log_sent o sent) r.0) (sym e) r.1;
      tail_rising = r.2;
      in_phase = tt;
      small = g.small;
      fits = omega (arith, g.fits);
      counted = omega (
        arith,
        g.counted,
        length-log_sent g.queue.inflight sent,
        ap (λ o. length (log_sent o sent)) e,
      );
    }

-- A queue that is not empty, with nothing in flight.
take_from-lem :
    (q : Queue) (ms : List Message)
    → 0 < length ms
    → (put_front (take_from q ms).inflight (take_from q ms).items ≡ ms)
      × (count_opt (take_from q ms).inflight ≡ 1)
      × ((c : ℕ) → InPhase (writing c) (take_from q ms).inflight)
take_from-lem q [] l = absurd (omega arith)
take_from-lem q (m ∷ ms) l = (refl, refl, λ c. tt)

pub take_locked-Good :
    (probes c : ℕ) (sent : List Message) (d : Numbered)
    → 0 < d.sink.n
    → Good probes idle sent d
    → Good probes (writing c) sent (record d { sink = take_locked d.sink })
unfolding take_locked take_first
take_locked-Good probes c sent d l g =
    let none_yet = idle_empty g.queue.inflight g.in_phase in
    let t = take_from-lem g.queue g.queue.items (omega (arith, Holds-length g.holds)) in
    let zero_yet = ap count_opt none_yet in
    record {
      queue = take_first g.queue;
      holds = take_locked-Holds l (omega (arith, g.fits)) g.holds;
      mid = g.mid;
      sent_rising = g.sent_rising;
      tail_rising =
          subst (λ ms. Rising g.mid ms d.seq)
            (sym (t.0 ∙ ap (λ o. put_front o g.queue.items) (sym none_yet))) g.tail_rising;
      in_phase = t.2 c;
      small = λ e. omega (arith, g.small e);
      fits = omega (arith, g.fits, t.1);
      counted = omega (arith, g.counted, t.1, zero_yet);
    }

in_flight : (o : Option Message) → IsHeld o → (m : Message) × (o ≡ some m)
in_flight none i = absurd i
in_flight (some m) i = (m, refl)

requeue_counts :
    (s : Sink)
    → s.dropped < max_seq
    → ((requeue s).n + (requeue s).dropped ≡ s.n + s.dropped + 1)
      × ((requeue s).stopping ≡ s.stopping)
      × ((requeue s).n ≤ s.n + 1)
      × (s.stopping ≡ false → s.n ≤ queue_size + 1 → (requeue s).n ≤ queue_size + 1)
unfolding requeue
requeue_counts s d = ground arith

Rising-rest :
    (lo hi : ℕ) (o : Option Message) (ms : List Message)
    → Rising lo (put_front o ms) hi
    → Rising lo ms hi
Rising-rest lo hi none ms r = r
Rising-rest lo hi (some m) ms r = Rising-tail lo hi m ms r

put_back-Rising :
    (mid hi : ℕ) (q : Queue)
    → Rising mid (put_front q.inflight q.items) hi
    → Rising mid (put_front (put_back q).inflight (put_back q).items) hi
unfolding put_back
put_back-Rising mid hi q r = elim (Bool-cases (leb queue_size (length q.items) && not q.stopping)) [
  | inl t ↦ rw t (Rising-rest mid hi q.inflight q.items r)
  | inr t ↦ rw t r
]

put_back_empty : (q : Queue) → (put_back q).inflight ≡ none
unfolding put_back
put_back_empty q = ground arith

pub requeue-Good :
    (probes : ℕ) (sent : List Message) (d : Numbered)
    → d.seq ≤ max_seq
    → Good probes requeueing sent d
    → Good probes idle sent (record d { sink = requeue d.sink })
requeue-Good probes sent d b g =
    let held = in_flight g.queue.inflight g.in_phase in
    let one = ap count_opt held.1 in
    let gone = put_back_empty g.queue in
    let k = requeue_counts d.sink (omega (arith, g.counted, one)) in
    record {
      queue = put_back g.queue;
      holds =
          requeue-Holds held.0 (g.holds.same_inflight ∙ held.1) (omega (arith, g.fits, one))
            g.holds;
      mid = g.mid;
      sent_rising = g.sent_rising;
      tail_rising = put_back-Rising g.mid d.seq g.queue g.tail_rising;
      in_phase = subst (InPhase idle) (sym gone) tt;
      small = λ e. k.3 (sym k.1 ∙ e) (g.small (sym k.1 ∙ e));
      fits = omega (arith, g.fits, one, ap count_opt gone, k.2);
      counted = omega (arith, g.counted, k.0, one, ap count_opt gone);
    }
