-- ===== src/Syslog/Outage.antt =====
-- An outage of a syslog collector (internal/server/syslogfwd/forwarder.go): the record of its start, the
-- clock of the halt policy, and the waits between the dials.
use polarbeam.Base.{
  ℕ, zero, suc, ◌+◌, ◌≤◌, ◌<◌, ◌≡◌, refl, ap, ◌∙◌, String, Bool, true, false, Bool-cases, inl, inr,
  Option, none, some, List, [], ◌∷◌, ◌++◌, length, drop, arith, ◌==◌, if◌then◌else◌,
}
use polarbeam.Syslog.{
  Message, produced, disconnected, Sink, Numbered, queue_size, seq_next, make_room, put_last,
  append_locked, push_pending, push_built, note_fill, push,
}
use polarbeam.Syslog.Queue.{Queue, is_full, append}
use polarbeam.Syslog.Window.{window}
use polarbeam.Syslog.Ring.{Holds, append_locked-Holds}
use polarbeam.Syslog.Pushes.{SameQueue, Holds-same, note_fill-SameQueue}
use polarbeam.Syslog.Untouched.{Untouched, fail_locked-Untouched}
use polarbeam.Syslog.Delivery.{keep_some, queued, queued-Holds}
use polarbeam.Syslog.Writer.{
  Policy, is_stale, is_periodic, no_alerts, lose_conn, open_outage, note_failure, fail_locked,
}

drop-snoc :
    (k : ℕ) (ms : List Message) (m : Message)
    → k < length (ms ++ m ∷ [])
    → (rest : List Message) × (drop k (ms ++ m ∷ []) ≡ rest ++ m ∷ [])
drop-snoc zero ms m l = (ms, refl)
drop-snoc (suc k) [] m l = absurd (omega arith)
drop-snoc (suc k) (x ∷ ms) m l = drop-snoc k ms m (omega arith)

snoc-snoc : (ms : List Message) (m k : Message) → (ms ++ m ∷ []) ++ k ∷ [] ≡ ms ++ m ∷ k ∷ []
snoc-snoc [] m k = refl
snoc-snoc (x ∷ ms) m k = ap (λ ks. x ∷ ks) (snoc-snoc ms m k)

is_full-length :
    (q : Queue) (reserved : Bool) → is_full q reserved ≡ true → queue_size ≤ length q.items
is_full-length q reserved t = ground arith

-- An append leaves the record that was last where it is, under its own.
append-last :
    (q : Queue) (ms : List Message) (m k : Message) (reserved : Bool)
    → q.items ≡ ms ++ m ∷ []
    → (rest : List Message) × ((append q k reserved).items ≡ rest ++ m ∷ k ∷ [])
unfolding append
append-last q ms m k reserved e = elim (Bool-cases (is_full q reserved)) [
  | inl t ↦
      (let d = drop-snoc 1 ms m (omega (arith, is_full-length q reserved t, ap length e)) in
        (
          d.0,
          simp t (ap (λ x. drop 1 x ++ k ∷ []) e ∙ ap (λ x. x ++ k ∷ []) d.1 ∙ snoc-snoc d.0 m k),
        ))
  | inr t ↦ (ms, simp t (ap (λ x. x ++ k ∷ []) e ∙ snoc-snoc ms m k))
]

append-snoc :
    (q : Queue) (m : Message) (reserved : Bool)
    → (rest : List Message) × ((append q m reserved).items ≡ rest ++ m ∷ [])
unfolding append
append-snoc q m reserved = elim (Bool-cases (is_full q reserved)) [
  | inl t ↦ (drop 1 q.items, simp t refl)
  | inr t ↦ (q.items, simp t refl)
]

-- What a failure that opens an outage leaves.
record Opened (s s' : Sink) (err : String) : Type 0 where
  queue : Untouched s s'
  pending : s'.pending_disconnect ≡ some err
  local_ip : s'.local_ip ≡ s.local_ip

pub lose_conn-same :
    (s : Sink) (conn : Option ℕ) (now : ℕ)
    → ((lose_conn s conn now).first_failure ≡ s.first_failure)
      × ((lose_conn s conn now).local_ip ≡ s.local_ip)
lose_conn-same s none now = (refl, refl)
lose_conn-same s (some c) now = (refl, refl)

open_outage-new :
    (s : Sink) (err : String) (now : ℕ)
    → s.first_failure ≡ 0
    → ((open_outage s err now).pending_disconnect ≡ some err)
      × ((open_outage s err now).local_ip ≡ s.local_ip)
open_outage-new s err now e = ground arith

-- The failure of a sink's own connection, or of a dial.
pub fail_locked-noted :
    (p : Policy) (s : Sink) (conn : Option ℕ) (err : String) (now : ℕ)
    → is_stale s conn ≡ false
    → fail_locked p s conn err now
      ≡ note_failure p
          (open_outage (lose_conn s conn now) err now)
          (s.first_failure == 0)
          (is_periodic s now)
          err
          now
unfolding fail_locked
fail_locked-noted p s conn err now a =
    ap
      (λ b.
        if b
        then (s, no_alerts)
        else note_failure p (open_outage (lose_conn s conn now) err now) (s.first_failure == 0)
            (is_periodic s now) err now)
      a

fail_locked-Opened :
    (p : Policy) (s : Sink) (conn : Option ℕ) (err : String) (now : ℕ)
    → is_stale s conn ≡ false
    → s.first_failure ≡ 0
    → Opened s (fail_locked p s conn err now).0 err
fail_locked-Opened p s conn err now a b =
    let e = fail_locked-noted p s conn err now a in
    let l = lose_conn-same s conn now in
    let o = open_outage-new (lose_conn s conn now) err now (l.0 ∙ b) in
    record {
      queue = fail_locked-Untouched p s conn err now;
      pending = ap (λ r. r.0.pending_disconnect) e ∙ o.0;
      local_ip = ap (λ r. r.0.local_ip) e ∙ o.1 ∙ l.1;
    }

-- The records of a push of one that a producer built, with the start of the outage before it.
abbrev pub disconnected_record : Numbered → String → Message
disconnected_record c err = record {
  seq = seq_next c.seq;
  origin_ip = c.sink.local_ip;
  body = disconnected err;
}

abbrev pub next_record : Numbered → String → Message
next_record c text = record {
  seq = seq_next (seq_next c.seq);
  origin_ip = c.sink.local_ip;
  body = produced text;
}

append_same_ip :
    (s : Sink) (m : Message) (reserved : Bool) → (append_locked s m reserved).local_ip ≡ s.local_ip
unfolding append_locked make_room put_last
append_same_ip s m reserved = ground arith

append_bound :
    (s : Sink) (m : Message) (reserved : Bool)
    → s.n ≤ queue_size + 1
    → (append_locked s m reserved).n ≤ queue_size + 1
unfolding append_locked make_room put_last
append_bound s m reserved l = ground arith

-- With the outage pending.
push_pair :
    (c : Numbered) (q : Queue) (err text : String) (reserved : Bool)
    → c.sink.n ≤ queue_size + 1
    → Holds c.sink q
    → (rest : List Message) × (queued
          (push_built (push_pending c (some err)) (some text) reserved).sink
        ≡ rest ++ disconnected_record c err ∷ next_record c text ∷ [])
unfolding push_built push_pending
push_pair c q err text reserved l h =
    let s0 = record c.sink { pending_disconnect = none } in
    let h0 =
      Holds-same c.sink s0 q
        (record { ring = refl; head = refl; n = refl; inflight = refl; dropped = refl }) h in
    let first = disconnected_record c err in
    let s1 = append_locked s0 first false in
    let q0 = record q { stopping = c.sink.stopping } in
    let second : Message = record {
      seq = seq_next (seq_next c.seq);
      origin_ip = s1.local_ip;
      body = produced text;
    } in
    let h2 =
      append_locked-Holds second reserved (append_bound s0 first false l)
        (append_locked-Holds first false l h0) in
    let a = append-snoc q0 first false in
    let b = append-last (append q0 first false) a.0 first second reserved a.1 in
    (
      b.0,
      queued-Holds h2
          ∙ b.1
          ∙ ap
              (λ ip.
                b.0
                ++ first
                  ∷ record { seq = seq_next (seq_next c.seq); origin_ip = ip; body = produced text }
                  ∷ [])
              (append_same_ip s0 first false),
    )

push-live :
    (c : Numbered) (reserved : Bool) (build pending : Option String)
    → c.sink.stopping ≡ false
    → c.sink.pending_disconnect ≡ pending
    → let c' = push_built (push_pending c pending) build reserved in
      (push c reserved build).0 ≡ record c' { sink = note_fill c'.sink }
unfolding push
push-live c reserved build pending e d =
    let c' = push_built (push_pending c c.sink.pending_disconnect) build reserved in
    ap
      (λ (b : Bool).
        (if◌then◌else◌ {A = Numbered × Bool} b (c, false)
          (record c' { sink = note_fill c'.sink }, true)).0)
      e
    ∙ ap
        (λ o.
          let k = push_built (push_pending c o) build reserved in
          record k { sink = note_fill k.sink })
        d

queued-same : (s s' : Sink) → SameQueue s s' → queued s' ≡ queued s
queued-same s s' e =
    ap (λ f. keep_some (window f s'.head s'.n)) e.ring
    ∙ ap (λ k. keep_some (window s.ring k s'.n)) e.head
    ∙ ap (λ k. keep_some (window s.ring s.head k)) e.n

-- The failure that opens an outage, of the sink's own connection or of a dial, and then the push of a
-- record: the last two records of the ring are the start of the outage and that record, numbered one
-- after the other.
pub failure_recorded_first :
    (p : Policy) (c : Numbered) (q : Queue) (conn : Option ℕ) (err text : String) (now : ℕ)
    (reserved : Bool)
    → Holds c.sink q
    → c.sink.n ≤ queue_size + 1
    → c.sink.stopping ≡ false
    → is_stale c.sink conn ≡ false
    → c.sink.first_failure ≡ 0
    → let failed = record c { sink = (fail_locked p c.sink conn err now).0 } in
      (rest : List Message) × (queued (push failed reserved (some text)).0.sink
        ≡ rest ++ disconnected_record c err ∷ next_record c text ∷ [])
failure_recorded_first p c q conn err text now reserved h l live own none_yet =
    let failed = record c { sink = (fail_locked p c.sink conn err now).0 } in
    let o = fail_locked-Opened p c.sink conn err now own none_yet in
    let k =
      push_pair failed _ err text reserved (omega (arith, o.queue.queue.n))
        (Holds-same c.sink failed.sink q o.queue.queue h) in
    let pushed = push_built (push_pending failed (some err)) (some text) reserved in
    (
      k.0,
      ap (λ d. queued d.sink)
            (push-live failed reserved (some text) (some err) (o.queue.stopping ∙ live) o.pending)
          ∙ queued-same pushed.sink (note_fill pushed.sink) (note_fill-SameQueue pushed.sink).0
          ∙ k.1
          ∙ ap
              (λ ip.
                k.0
                ++ record { seq = seq_next c.seq; origin_ip = ip; body = disconnected err }
                  ∷ record { seq = seq_next (seq_next c.seq); origin_ip = ip; body = produced text }
                  ∷ [])
              o.local_ip,
    )
