-- ===== src/Spool/Segments/Fifo.antt =====
-- `Next` and its ack are the front of a queue (internal/agent/spool/spool.go).
use polarbeam.Base.{
  ℕ, ◌≡◌, refl, sym, ap, ◌∙◌, List, [], ◌∷◌, length, take, drop, take-drop, arith, max, subst,
}
use mathlib.Core.List.{append_cancel_left}
use polarbeam.Spool.Segments.{Spool, Consumed, next, settle_pending, ack}
use polarbeam.Spool.Segments.Blocks.{Codec, Block, backlog, IsSound, queue, queue-IsSound}
use polarbeam.Spool.Segments.Reading.{Takes, Ascends-Newest}
use polarbeam.Spool.Segments.Turns.{next_loop-Holds}
use polarbeam.Spool.Segments.Acks.{every, ack_files-Takes}

module _ {ℓ} {R : Type ℓ} (k : Codec R) where
  -- The state that `Next` leaves differs from the one it found in `pending` at most.
  abbrev pub pending_of : List R → Spool → Spool
  pending_of [] s = record s { pending = 0 }
  pending_of (r ∷ rs) s = s

  settled_batch :
      (s : Spool) (out : List R) (cs : List Consumed)
      → settle_pending k.crc32 k.unmarshal (s, out, cs) ≡ (pending_of out s, out, cs)
  settled_batch s [] cs = refl
  settled_batch s (r ∷ rs) cs = refl

  pub pending_of-IsSound :
      (s : Spool) (out : List R) (bs : List (Block R))
      → IsSound k s bs
      → IsSound k (pending_of out s) bs
  pending_of-IsSound s [] bs h = record {
    holds = h.holds;
    ascends = h.ascends;
    newest = h.newest;
    read = h.read;
    opened = h.opened;
  }
  pending_of-IsSound s (r ∷ rs) bs h = h

  pending-Takes :
      (s : Spool) (out : List R) (bs : List (Block R)) (cs : List Consumed) (l : List R)
      → Takes k s.active_seq cs l s.files bs
      → Takes k (pending_of out s).active_seq cs l (pending_of out s).files bs
  pending-Takes s [] bs cs l t = t
  pending-Takes s (r ∷ rs) bs cs l t = t

  -- What a call of `Next` gives, and what its ack leaves.
  pub record TakesOff (now most : ℕ) (s : Spool) (bs : List (Block R)) : Type ℓ where
    pub marks : List Consumed
    pub batch :
        next k.crc32 k.unmarshal now most s
        ≡ (pending_of (take most (backlog bs)) s, take most (backlog bs), marks)
    pub takes : Takes k s.active_seq marks (take most (backlog bs)) s.files bs
    pub later : List (Block R)
    pub sound :
        (n : ℕ) → IsSound k (ack every marks n (pending_of (take most (backlog bs)) s)) later
    pub rest : backlog later ≡ drop most (backlog bs)

  pub next-TakesOff :
      (now most : ℕ) (s : Spool) (bs : List (Block R)) → IsSound k s bs → TakesOff now most s bs
  unfolding next ack
  next-TakesOff now most s bs h =
      let (cs, e, t) = next_loop-Holds k now most s s.files bs h.holds (
        Ascends-Newest (max 1 s.read_seq) s.next_seq s.active_seq s.files (omega arith) h.newest
          h.ascends) in
      let out = take most (backlog bs) in
      let s' = pending_of out s in
      let (later, sound, off) =
        ack_files-Takes k cs s' s'.files bs out refl (pending_of-IsSound s out bs h)
          (pending-Takes s out bs cs out t) in
      record {
        marks = cs;
        batch = ap (settle_pending k.crc32 k.unmarshal) e ∙ settled_batch s out cs;
        takes = t;
        later = later;
        sound = λ n. record {
          holds = sound.holds;
          ascends = sound.ascends;
          newest = sound.newest;
          read = sound.read;
          opened = sound.opened;
        };
        rest =
            append_cancel_left out (backlog later) (drop most (backlog bs))
              (sym off ∙ sym (take-drop most (backlog bs)));
      }

  -- A batch that is the front of the queue of `s`, and an ack that leaves the rest.
  pub record IsFront (most : ℕ) (s : Spool) (b : Spool × List R × List Consumed) : Type ℓ where
    pub results : b.1 ≡ take most (queue k s)
    pub rest : queue k (ack every b.2 (length b.1) b.0) ≡ drop most (queue k s)
    pub blocks : List (Block R)
    pub sound : IsSound k (ack every b.2 (length b.1) b.0) blocks

  -- On well-formed files `Next` gives the oldest records of the queue, up to the number asked for and
  -- across files, and the ack of that batch, when files can be removed, leaves exactly the others, in
  -- well-formed files again.
  pub next-IsFront :
      (now most : ℕ) (s : Spool) (bs : List (Block R))
      → IsSound k s bs
      → IsFront most s (next k.crc32 k.unmarshal now most s)
  next-IsFront now most s bs h =
      let off = next-TakesOff now most s bs h in
      let waits = queue-IsSound k s bs h in
      let out = take most (backlog bs) in
      subst (IsFront most s) (sym off.batch) (record {
        results = ap (take most) (sym waits);
        rest =
            queue-IsSound k (ack every off.marks (length out) (pending_of out s)) off.later
              (off.sound (length out))
            ∙ off.rest
            ∙ ap (drop most) (sym waits);
        blocks = off.later;
        sound = off.sound (length out);
      })
