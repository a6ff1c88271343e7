-- ===== src/Syslog/Pushes.antt =====
-- What a push keeps of the syslog forwarder's sink (internal/server/syslogfwd/forwarder.go): the queue
-- that it is, the order of the numbers, and the count of the records.
use polarbeam.Base.{
  ℕ, ◌+◌, ◌*◌, ◌≤◌, ◌<◌, ◌≡◌, refl, sym, ap, subst, ◌∙◌, String, Bool, true, false, ◌&&◌, not,
  Bool-cases, inl, inr, Option, none, some, List, length, arith, leb, if◌then◌else◌,
}
use polarbeam.Syslog.{
  Message, Body, produced, disconnected, Sink, Numbered, queue_size, ring_len, max_seq, seq_next,
  make_room, put_last, append_locked, append_numbered, push_pending, push_built, note_fill, push,
}
use polarbeam.Syslog.Queue.{Queue, append, put_front}
use polarbeam.Syslog.Window.{window, Slots}
use polarbeam.Syslog.Ring.{Holds, append_locked-Holds}
use polarbeam.Syslog.Rising.{Rising, append-Rising}
use polarbeam.Syslog.Writer.{Phase, requeueing, writing}

abbrev pub count_opt : Option Message → ℕ
count_opt none = 0
count_opt (some m) = 1

abbrev pub IsHeld : Option Message → Type 0
IsHeld none = ⊥
IsHeld (some m) = Unit

abbrev pub IsFree : Option Message → Type 0
IsFree none = Unit
IsFree (some m) = ⊥

-- The writer holds a record exactly while it writes and until it has put it back.
abbrev pub InPhase : Phase → Option Message → Type 0
InPhase (writing c) o = IsHeld o
InPhase requeueing o = IsHeld o
InPhase _ o = IsFree o

-- The queue that the sink is, with what was sent before it, after `probes` test messages.
pub record Good (probes : ℕ) (phase : Phase) (sent : List Message) (c : Numbered) : Type 0 where
  pub queue : Queue
  pub holds : Holds c.sink queue
  pub mid : ℕ
  pub sent_rising : Rising 0 sent mid
  pub tail_rising : Rising mid (put_front queue.inflight queue.items) c.seq
  pub in_phase : InPhase phase queue.inflight
  pub small : c.sink.stopping ≡ false → c.sink.n ≤ queue_size + 1
  pub fits : c.sink.n + count_opt queue.inflight ≤ ring_len
  pub counted : c.seq ≡ probes + length sent + count_opt queue.inflight + c.sink.n + c.sink.dropped

append_counts :
    (s : Sink) (m : Message) (reserved : Bool)
    → s.dropped < max_seq
    → s.n ≤ queue_size + 1
    → ((append_locked s m reserved).n + (append_locked s m reserved).dropped ≡ s.n + s.dropped + 1)
      × ((append_locked s m reserved).n ≤ queue_size + 1)
      × ((append_locked s m reserved).stopping ≡ s.stopping)
unfolding append_locked make_room put_last
append_counts s m reserved d l = ground arith

inflight-append :
    (q : Queue) (m : Message) (reserved : Bool) → (append q m reserved).inflight ≡ q.inflight
unfolding append
inflight-append q m reserved = ground arith

pub count_opt-le : (o : Option Message) → count_opt o ≤ 1
count_opt-le none = omega arith
count_opt-le (some m) = omega arith

pub seq_next-suc : (n : ℕ) → n < max_seq → seq_next n ≡ n + 1
seq_next-suc n l = ground arith

append_numbered-Good :
    (probes : ℕ) (phase : Phase) (sent : List Message) (c : Numbered) (body : Body)
    (reserved : Bool)
    → c.sink.stopping ≡ false
    → c.seq < max_seq
    → Good probes phase sent c
    → Good probes phase sent (append_numbered c body reserved)
append_numbered-Good probes phase sent c body reserved live b g =
    let m : Message = record { seq = seq_next c.seq; origin_ip = c.sink.local_ip; body = body } in
    let k = append_counts c.sink m reserved (omega (arith, g.counted)) (g.small live) in
    let next = seq_next-suc c.seq b in
    let same = ap count_opt (inflight-append g.queue m reserved) in
    record {
      queue = append g.queue m reserved;
      holds = append_locked-Holds m reserved (g.small live) g.holds;
      mid = g.mid;
      sent_rising = g.sent_rising;
      tail_rising =
          append-Rising g.mid c.seq g.queue m reserved (omega (arith, next)) g.tail_rising;
      in_phase = subst (InPhase phase) (sym (inflight-append g.queue m reserved)) g.in_phase;
      small = λ e. k.1;
      fits = omega (arith, k.1, same, count_opt-le g.queue.inflight);
      counted = omega (arith, k.0, next, same, g.counted);
    }

-- Two sinks that agree on the queue.
pub record SameQueue (s s' : Sink) : Type 0 where
  pub ring : s'.ring ≡ s.ring
  pub head : s'.head ≡ s.head
  pub n : s'.n ≡ s.n
  pub inflight : s'.inflight ≡ s.inflight
  pub dropped : s'.dropped ≡ s.dropped

Slots-same :
    {f f' : ℕ → Option Message} {h h' n n' : ℕ} (ms : List Message)
    → f' ≡ f
    → h' ≡ h
    → n' ≡ n
    → Slots f h n ms
    → Slots f' h' n' ms
Slots-same {f} {f'} {h} {h'} {n} {n'} ms a b c e =
    ap (λ k. window f' h' k) c ∙ ap (λ k. window f' k n) b ∙ ap (λ k. window k h n) a ∙ e

pub Holds-same :
    (s s' : Sink) (q : Queue)
    → SameQueue s s'
    → Holds s q
    → Holds s' (record q { stopping = s'.stopping })
Holds-same s s' q e h = record {
  slots = Slots-same q.items e.ring e.head e.n h.slots;
  head_in = omega (arith, e.head, h.head_in);
  same_inflight = e.inflight ∙ h.same_inflight;
  same_dropped = e.dropped ∙ h.same_dropped;
  same_stopping = refl;
}

pub Good-same :
    (probes : ℕ) (phase phase' : Phase) (sent : List Message) (c : Numbered) (s : Sink)
    → SameQueue c.sink s
    → ((o : Option Message) → InPhase phase o → InPhase phase' o)
    → (s.stopping ≡ false → c.sink.stopping ≡ false)
    → Good probes phase sent c
    → Good probes phase' sent (record c { sink = s })
Good-same probes phase phase' sent c s e i live g = record {
  queue = record g.queue { stopping = s.stopping };
  holds = Holds-same c.sink s g.queue e g.holds;
  mid = g.mid;
  sent_rising = g.sent_rising;
  tail_rising = g.tail_rising;
  in_phase = i g.queue.inflight g.in_phase;
  small = λ q. omega (arith, e.n, g.small (live q));
  fits = omega (arith, e.n, g.fits);
  counted = omega (arith, e.n, e.dropped, g.counted);
}

-- After one part of a push: the sink still lives, and few numbers were used.
record Pushed (probes : ℕ) (phase : Phase) (sent : List Message) (used : ℕ) (c' : Numbered)
    : Type 0 where
  good : Good probes phase sent c'
  lives : c'.sink.stopping ≡ false
  next : c'.seq ≤ used + 1

append_numbered-Pushed :
    (probes : ℕ) (phase : Phase) (sent : List Message) (c : Numbered) (body : Body)
    (reserved : Bool)
    → c.sink.stopping ≡ false
    → c.seq < max_seq
    → Good probes phase sent c
    → Pushed probes phase sent c.seq (append_numbered c body reserved)
append_numbered-Pushed probes phase sent c body reserved live b g = record {
  good = append_numbered-Good probes phase sent c body reserved live b g;
  lives = (append_counts c.sink _ reserved (omega (arith, g.counted)) (g.small live)).2 ∙ live;
  next = omega (arith, seq_next-suc c.seq b);
}

push_pending-Pushed :
    (probes : ℕ) (phase : Phase) (sent : List Message) (c : Numbered) (pending : Option String)
    → c.sink.stopping ≡ false
    → c.seq < max_seq
    → Good probes phase sent c
    → Pushed probes phase sent c.seq (push_pending c pending)
unfolding push_pending
push_pending-Pushed probes phase sent c none live b g = record {
  good = g;
  lives = live;
  next = omega arith;
}
push_pending-Pushed probes phase sent c (some err) live b g =
    let s = record c.sink { pending_disconnect = none } in
    append_numbered-Pushed probes phase sent (record c { sink = s }) (disconnected err) false live b
      (Good-same probes phase phase sent c s
        (record { ring = refl; head = refl; n = refl; inflight = refl; dropped = refl }) (λ o p. p)
        (λ e. e) g)

push_built-Pushed :
    (probes : ℕ) (phase : Phase) (sent : List Message) (c : Numbered) (build : Option String)
    (reserved : Bool)
    → c.sink.stopping ≡ false
    → c.seq < max_seq
    → Good probes phase sent c
    → Pushed probes phase sent c.seq (push_built c build reserved)
unfolding push_built
push_built-Pushed probes phase sent c none reserved live b g = record {
  good = g;
  lives = live;
  next = omega arith;
}
push_built-Pushed probes phase sent c (some text) reserved live b g =
    append_numbered-Pushed probes phase sent c (produced text) reserved live b g

warned_if :
    (s : Sink) (b : Bool)
    → let s' = if b then record s { warned75 = true } else s in
      SameQueue s s' × (s'.stopping ≡ s.stopping)
warned_if s true =
    (record { ring = refl; head = refl; n = refl; inflight = refl; dropped = refl }, refl)
warned_if s false =
    (record { ring = refl; head = refl; n = refl; inflight = refl; dropped = refl }, refl)

pub note_fill-SameQueue :
    (s : Sink) → SameQueue s (note_fill s) × ((note_fill s).stopping ≡ s.stopping)
note_fill-SameQueue s = warned_if s (not s.warned75 && leb (queue_size * 3) (s.n * 4))

-- `push`, whoever calls it.
pub push-Good :
    (probes : ℕ) (phase : Phase) (sent : List Message) (c : Numbered) (reserved : Bool)
    (build : Option String)
    → c.seq + 2 ≤ max_seq
    → Good probes phase sent c
    → Good probes phase sent (push c reserved build).0 × ((push c reserved build).0.seq ≤ c.seq + 2)
unfolding push
push-Good probes phase sent c reserved build b g = elim (Bool-cases c.sink.stopping) [
  | inl t ↦ simp t (g, omega arith)
  | inr t ↦
      let p = push_pending-Pushed probes phase sent c c.sink.pending_disconnect t (omega arith) g in
      let c1 = push_pending c c.sink.pending_disconnect in
      let k =
        push_built-Pushed probes phase sent c1 build reserved p.lives (omega (arith, p.next))
          p.good in
      let c2 = push_built c1 build reserved in
      let f = note_fill-SameQueue c2.sink in
      simp t (
        Good-same probes phase phase sent c2 (note_fill c2.sink) f.0 (λ o q. q) (λ e. k.lives)
            k.good,
        omega (arith, p.next, k.next),
      )
]
