-- ===== src/Syslog/Rising.antt =====
-- Sequence numbers that rise along a list of records (internal/server/syslogfwd/forwarder.go), through
-- the operations of the queue.
use polarbeam.Base.{
  ℕ, ◌≤◌, ◌<◌, Bool, Bool-cases, inl, inr, Option, none, some, List, [], ◌∷◌, ◌++◌, drop, arith,
}
use polarbeam.Syslog.{Message}
use polarbeam.Syslog.Queue.{Queue, is_full, append, put_front}

-- Above `lo`, each above the one before it, and none above `hi`.
abbrev pub Rising : ℕ → List Message → ℕ → Type 0
Rising lo [] hi = lo ≤ hi
Rising lo (m ∷ ms) hi = (lo < m.seq) × Rising m.seq ms hi

Rising-lower : (lo lo' hi : ℕ) (ms : List Message) → lo ≤ lo' → Rising lo' ms hi → Rising lo ms hi
Rising-lower lo lo' hi [] l h = omega arith
Rising-lower lo lo' hi (m ∷ ms) l h = (omega (arith, h.0), h.1)

pub Rising-higher :
    (lo hi hi' : ℕ) (ms : List Message) → hi ≤ hi' → Rising lo ms hi → Rising lo ms hi'
Rising-higher lo hi hi' [] l h = omega arith
Rising-higher lo hi hi' (m ∷ ms) l h = (h.0, Rising-higher m.seq hi hi' ms l h.1)

pub Rising-snoc :
    (lo hi : ℕ) (ms : List Message) (m : Message)
    → hi < m.seq
    → Rising lo ms hi
    → Rising lo (ms ++ m ∷ []) m.seq
Rising-snoc lo hi [] m l h = omega arith
Rising-snoc lo hi (x ∷ ms) m l h = (h.0, Rising-snoc x.seq hi ms m l h.1)

pub Rising-append :
    (lo mid hi : ℕ) (ms ks : List Message)
    → Rising lo ms mid
    → Rising mid ks hi
    → Rising lo (ms ++ ks) hi
Rising-append lo mid hi [] ks h k = Rising-lower lo mid hi ks h k
Rising-append lo mid hi (m ∷ ms) ks h k = (h.0, Rising-append m.seq mid hi ms ks h.1 k)

pub Rising-tail :
    (lo hi : ℕ) (m : Message) (ms : List Message) → Rising lo (m ∷ ms) hi → Rising lo ms hi
Rising-tail lo hi m ms h = Rising-lower lo m.seq hi ms (omega (arith, h.0)) h.1

Rising-drop :
    (lo hi : ℕ) (o : Option Message) (ms : List Message)
    → Rising lo (put_front o ms) hi
    → Rising lo (put_front o (drop 1 ms)) hi
Rising-drop lo hi none [] h = h
Rising-drop lo hi (some k) [] h = h
Rising-drop lo hi none (m ∷ ms) h = Rising-tail lo hi m ms h
Rising-drop lo hi (some k) (m ∷ ms) h = (h.0, Rising-tail k.seq hi m ms h.1)

Rising-put_last :
    (lo hi : ℕ) (o : Option Message) (ms : List Message) (m : Message)
    → hi < m.seq
    → Rising lo (put_front o ms) hi
    → Rising lo (put_front o (ms ++ m ∷ [])) m.seq
Rising-put_last lo hi none ms m l h = Rising-snoc lo hi ms m l h
Rising-put_last lo hi (some k) ms m l h = (h.0, Rising-snoc k.seq hi ms m l h.1)

-- A record with the next number keeps the order, whether or not the oldest one makes room for it.
pub append-Rising :
    (lo hi : ℕ) (q : Queue) (m : Message) (reserved : Bool)
    → hi < m.seq
    → Rising lo (put_front q.inflight q.items) hi
    → Rising lo (put_front (append q m reserved).inflight (append q m reserved).items) m.seq
unfolding append
append-Rising lo hi q m reserved l h = elim (Bool-cases (is_full q reserved)) [
  | inl t ↦ rw t (
      Rising-put_last lo hi q.inflight (drop 1 q.items) m l
        (Rising-drop lo hi q.inflight q.items h))
  | inr t ↦ rw t (Rising-put_last lo hi q.inflight q.items m l h)
]
