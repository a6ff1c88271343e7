-- ===== src/Syslog/Ring.antt =====
-- The ring is the queue (internal/server/syslogfwd/forwarder.go): `appendLocked`, `takeLocked`, `ack`
-- and `requeue` do to the records that the ring holds what the queue's operations do.
use polarbeam.Base.{
  ℕ, ◌+◌, ◌-◌, ◌%◌, ◌≤◌, ◌<◌, ◌≡◌, refl, sym, ap, ap₂, subst, ◌∙◌, Bool, true, false, ◌&&◌, not,
  none, some, List, [], ◌∷◌, ◌++◌, map, length, drop, arith, leb, ◌==◌, if◌then◌else◌,
}
use polarbeam.Syslog.{
  Message, Sink, queue_size, ring_len, set_slot, inc64, make_room, put_last, append_locked,
  take_locked, ack, requeue,
}
use polarbeam.Syslog.Window.{
  window, window-away, window-put, window-front, map-snoc, Slots, Slots-length, Slots-tail,
  Slots-head,
}
use polarbeam.Syslog.Queue.{
  Queue, capacity, append, take_from, take_first, acknowledge, put_front, put_back,
}

-- The sink is the queue.
pub record Holds (s : Sink) (q : Queue) : Type 0 where
  pub slots : Slots s.ring s.head s.n q.items
  pub head_in : s.head < ring_len
  pub same_inflight : s.inflight ≡ q.inflight
  pub same_dropped : s.dropped ≡ q.dropped
  pub same_stopping : s.stopping ≡ q.stopping

pub Holds-length : {s : Sink} {q : Queue} → Holds s q → s.n ≡ length q.items
Holds-length {s} {q} h = Slots-length s.ring s.head s.n q.items h.slots

put_last-Holds :
    {s : Sink} {q : Queue} (m : Message)
    → s.n < ring_len
    → Holds s q
    → Holds (put_last s m) (record q { items = q.items ++ m ∷ [] })
unfolding put_last
put_last-Holds {s} {q} m l h = record {
  slots =
      ap (λ k. window (set_slot s.ring ((s.head + s.n) % ring_len) (some m)) s.head k) (omega arith)
      ∙ window-put s.ring (some m) s.head s.n h.head_in l
      ∙ ap (λ ks. ks ++ some m ∷ []) h.slots
      ∙ sym (map-snoc q.items m);
  head_in = h.head_in;
  same_inflight = h.same_inflight;
  same_dropped = h.same_dropped;
  same_stopping = h.same_stopping;
}

drop_first-Holds :
    {s : Sink} {q : Queue}
    → 0 < s.n
    → Holds s q
    → Holds
        (record s { head = (s.head + 1) % ring_len; n = s.n - 1; dropped = inc64 s.dropped })
        (record q { items = drop 1 q.items; dropped = inc64 q.dropped })
drop_first-Holds {s} {q} l h = record {
  slots = Slots-tail s.ring s.head s.n q.items l h.slots;
  head_in = omega arith;
  same_inflight = h.same_inflight;
  same_dropped = ap inc64 h.same_dropped;
  same_stopping = h.same_stopping;
}

append_split :
    {s : Sink} {q : Queue} (m : Message) (full : Bool)
    → (full ≡ true → 0 < s.n)
    → s.n ≤ queue_size + 1
    → Holds s q
    → Holds
        (put_last
          (if full
            then record s { head = (s.head + 1) % ring_len; n = s.n - 1; dropped = inc64 s.dropped }
            else s)
          m)
        (if full
          then record q { items = drop 1 q.items ++ m ∷ []; dropped = inc64 q.dropped }
          else record q { items = q.items ++ m ∷ [] })
append_split m true b l h = put_last-Holds m (omega arith) (drop_first-Holds (b refl) h)
append_split m false b l h = put_last-Holds m (omega arith) h

overflow_lem :
    (n : ℕ) (reserved : Bool)
    → leb queue_size n && not (reserved && n == queue_size) ≡ leb (capacity reserved) n
overflow_lem n true = ground arith
overflow_lem n false = ground arith

-- Where the ring holds what a queue holds (its records, oldest first, the record in flight, the drop
-- count and the stopping flag), and at most `queue_size` + 1 records wait, `appendLocked` leaves a
-- ring that holds the queue with the record at its back. If the queue was at its capacity, which is
-- `queue_size` records, and one more for a reserved record, its oldest record is gone and counted;
-- otherwise nothing is lost.
pub append_locked-Holds :
    {s : Sink} {q : Queue} (m : Message) (reserved : Bool)
    → s.n ≤ queue_size + 1
    → Holds s q
    → Holds (append_locked s m reserved) (append q m reserved)
unfolding append_locked make_room append
append_locked-Holds {s} {q} m reserved l h =
    let e = Holds-length h in
    rw (← e, ← overflow_lem s.n reserved)
      (append_split m (leb queue_size s.n && not (reserved && s.n == queue_size))
        (λ t. ground arith) l h)

take_split :
    {s : Sink} {q : Queue} (ms : List Message)
    → q.items ≡ ms
    → 0 < s.n
    → s.n ≤ ring_len
    → Holds s q
    → Holds (take_locked s) (take_from q ms)
unfolding take_locked
take_split {s} {q} [] e l r h = absurd (omega (arith, Holds-length h, ap length e))
take_split {s} {q} (m ∷ ms) e l r h =
    let slots : Slots s.ring s.head s.n (m ∷ ms) = h.slots ∙ ap (map (λ k. some k)) e in
    record {
      slots =
          window-away s.ring s.head none ((s.head + 1) % ring_len) (s.n - 1) (λ j b c. omega arith)
            (omega arith)
          ∙ Slots-tail s.ring s.head s.n (m ∷ ms) l slots;
      head_in = omega arith;
      same_inflight = Slots-head s.ring s.head s.n m ms slots;
      same_dropped = h.same_dropped;
      same_stopping = h.same_stopping;
    }

-- `takeLocked`, of a ring that is not empty.
pub take_locked-Holds :
    {s : Sink} {q : Queue}
    → 0 < s.n
    → s.n ≤ ring_len
    → Holds s q
    → Holds (take_locked s) (take_first q)
unfolding take_first
take_locked-Holds {s} {q} l r h = take_split q.items refl l r h

pub ack-Holds : {s : Sink} {q : Queue} → Holds s q → Holds (ack s) (acknowledge q)
unfolding ack acknowledge
ack-Holds h = record {
  slots = h.slots;
  head_in = h.head_in;
  same_inflight = refl;
  same_dropped = h.same_dropped;
  same_stopping = h.same_stopping;
}

requeue_split :
    {s : Sink} {q : Queue} (m : Message) (full : Bool)
    → s.inflight ≡ some m
    → s.n < ring_len
    → Holds s q
    → Holds
        (if full then record s { inflight = none; dropped = inc64 s.dropped } else record s {
          inflight = none;
          head = (s.head + ring_len - 1) % ring_len;
          ring = set_slot s.ring ((s.head + ring_len - 1) % ring_len) s.inflight;
          n = s.n + 1;
        })
        (if full
          then record q { inflight = none; dropped = inc64 q.dropped }
          else record q { inflight = none; items = put_front q.inflight q.items })
requeue_split {s} {q} m true e l h = record {
  slots = h.slots;
  head_in = h.head_in;
  same_inflight = refl;
  same_dropped = ap inc64 h.same_dropped;
  same_stopping = h.same_stopping;
}
requeue_split {s} {q} m false e l h = record {
  slots =
      ap
        (λ k.
          window (set_slot s.ring ((s.head + ring_len - 1) % ring_len) s.inflight)
            ((s.head + ring_len - 1) % ring_len) k)
        (omega arith)
      ∙ window-front s.ring s.inflight s.head s.n h.head_in l
      ∙ ap₂ ◌∷◌ e h.slots
      ∙ ap (λ o. map (λ k. some k) (put_front o q.items)) (sym e ∙ h.same_inflight);
  head_in = omega arith;
  same_inflight = refl;
  same_dropped = h.same_dropped;
  same_stopping = h.same_stopping;
}

-- `requeue` of a record in flight, where the ring has room for it.
pub requeue-Holds :
    {s : Sink} {q : Queue} (m : Message)
    → s.inflight ≡ some m
    → s.n < ring_len
    → Holds s q
    → Holds (requeue s) (put_back q)
unfolding requeue put_back
requeue-Holds {s} {q} m e l h =
    subst
      (λ (full : Bool). Holds (requeue s) (
        if full
        then record q { inflight = none; dropped = inc64 q.dropped }
        else record q { inflight = none; items = put_front q.inflight q.items }))
      (ap₂ (λ k b. leb queue_size k && not b) (Holds-length h) h.same_stopping)
      (requeue_split m (leb queue_size s.n && not s.stopping) e l h)
