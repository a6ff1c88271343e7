-- ===== src/Pusher/Ledger/Calls.antt =====
-- The calls of the pusher's loop keep the ledger (internal/agent/uplink/pusher.go): `Next`, the
-- report of the drops, and the ack.
use polarbeam.Base.{
  ℕ, ◌≤◌, ◌≡◌, refl, sym, ap, ◌∙◌, true, some, List, [], ◌∷◌, ◌++◌, length, take, All, All-append,
  arith, subst, max, ltb, Bool-cases, inl, inr,
}
use mathlib.Core.List.{append_assoc, Mem}
use polarbeam.Spool.Counters.{Counters, ack_dropped}
use polarbeam.Spool.Segments.{
  Spool, Consumed, next, ack, ack_file, ack_files, ack_reported, settle_pending,
}
use polarbeam.Spool.Segments.Blocks.{Codec, Block, backlog, IsSound}
use polarbeam.Spool.Segments.Reading.{Takes, Ascends-Newest}
use polarbeam.Spool.Segments.Turns.{next_loop-Holds}
use polarbeam.Spool.Segments.Acks.{every}
use polarbeam.Spool.Segments.Marks.{ack_files-Marks}
use polarbeam.Pusher.{idle, acking, Pusher, batch_size, report, fetch}
use polarbeam.Pusher.Fates.{
  all_of, each, Delivered, all_of-each, drops_delivered, fates-Delivered, All-later,
}
use polarbeam.Pusher.Ledger.{Flies, Flight, IsKept}

module _ {ℓ} {R : Type ℓ} (k : Codec R) where
  pub pending-IsSound :
      (n : ℕ) (s : Spool) (bs : List (Block R))
      → IsSound k s bs
      → IsSound k (record s { pending = n }) bs
  pending-IsSound n s bs h = record {
    holds = h.holds;
    ascends = h.ascends;
    newest = h.newest;
    read = h.read;
    opened = h.opened;
  }

  fetched-IsKept :
      (base : ℕ) (p : Pusher R) (h : IsKept k base p) (cs : List Consumed) (out : List R)
      → Takes k p.spool.active_seq cs out p.spool.files h.blocks
      → IsKept k base (
          fetch k.crc32
            (λ r. some (k.marshal r))
            k.unmarshal
            every
            p
            (settle_pending k.crc32 k.unmarshal (p.spool, out, cs)))
  unfolding fetch
  fetched-IsKept base p h cs [] t = record {
    blocks = h.blocks;
    sound = pending-IsSound 0 p.spool h.blocks h.sound;
    settled = h.settled;
    parts = h.parts;
    fates = h.fates;
    counted = h.counted;
    balance = h.balance;
    flight = tt;
  }
  fetched-IsKept base p h cs (r ∷ rs) t = record {
    blocks = h.blocks;
    sound = h.sound;
    settled = h.settled;
    parts = h.parts;
    fates = h.fates;
    counted = h.counted;
    balance = h.balance;
    flight = record {
      lost = [];
      rest = r ∷ rs;
      parts = refl;
      marks = record { stale = []; live = cs; parts = refl; below = tt; takes = t };
    };
  }

  pub step-next :
      (base now : ℕ) (p : Pusher R)
      → IsKept k base p
      → IsKept k base (
          fetch k.crc32
            (λ r. some (k.marshal r))
            k.unmarshal
            every
            p
            (next k.crc32 k.unmarshal now batch_size p.spool))
  unfolding next
  step-next base now p h =
      let s = p.spool in
      let (cs, e, t) = next_loop-Holds k now batch_size s s.files h.blocks h.sound.holds (
        Ascends-Newest (max 1 s.read_seq) s.next_seq s.active_seq s.files (omega arith)
          h.sound.newest h.sound.ascends) in
      subst
        (λ b. IsKept k base (
          fetch k.crc32 (λ r. some (k.marshal r)) k.unmarshal every p
            (settle_pending k.crc32 k.unmarshal b)))
        (sym e) (fetched-IsKept base p h cs (take batch_size (backlog h.blocks)) t)

  ack_files-counters :
      (cs : List Consumed) (s : Spool) → (ack_files every cs s).counters ≡ s.counters
  unfolding ack_files ack_file
  ack_files-counters [] s = refl
  ack_files-counters (c ∷ cs) s =
      ack_files-counters cs (ack_file every c s)
      ∙ elim (Bool-cases c.complete) [ inl t ↦ simp t refl | inr t ↦ simp t refl ]

  pub step-ack :
      (base : ℕ) (results : List R) (cs : List Consumed) (p : Pusher R)
      → p.phase ≡ acking results cs
      → IsKept k base p
      → IsKept k base (record p { spool = ack every cs (length results) p.spool; phase = idle })
  unfolding ack
  step-ack base results cs p e h =
      let (f, m) = subst (λ ph. Flight k ph p.accepted p.spool h.blocks) e h.flight in
      let (later, sound, off) = ack_files-Marks k p.spool h.blocks cs f.rest h.sound f.marks in
      let counters = ack_files-counters cs p.spool in
      record {
        blocks = later;
        sound = pending-IsSound _ (ack_files every cs p.spool) later sound;
        settled = h.settled ++ each true f.rest;
        parts =
            h.parts
            ∙ ap (λ (l : List R). all_of h.settled ++ l) off
            ∙ sym (append_assoc (all_of h.settled) f.rest (backlog later))
            ∙ ap (λ (l : List R). l ++ backlog later) (sym (all_of-each true h.settled f.rest));
        fates = All-append (Delivered p.accepted) h.settled (each true f.rest) h.fates (
            fates-Delivered p.accepted f.rest (
              All-later (λ r. Mem r p.accepted) f.lost f.rest
                (subst (All (λ r. Mem r p.accepted)) f.parts m)));
        counted = omega (
          arith,
          h.counted,
          ap (λ (c : Counters). c.total) counters,
          drops_delivered h.settled f.rest,
        );
        balance = omega (
          arith,
          h.balance,
          ap (λ (c : Counters). c.total) counters,
          ap (λ (c : Counters). c.unacked) counters,
        );
        flight = tt;
      }

  pub report-total : (n : ℕ) (s : Spool) → (report n s).counters.total ≡ s.counters.total
  unfolding ack_reported ack_dropped
  report-total n s = elim (Bool-cases (ltb 0 n)) [ inl t ↦ simp t refl | inr t ↦ simp t refl ]

  pub report-unacked : (n : ℕ) (s : Spool) → (report n s).counters.unacked ≤ s.counters.unacked
  unfolding ack_reported ack_dropped
  report-unacked n s = elim (Bool-cases (ltb 0 n)) [
    | inl t ↦ simp t (omega arith)
    | inr t ↦ simp t (omega arith)
  ]

  pub report-IsSound :
      (n : ℕ) (s : Spool) (bs : List (Block R)) → IsSound k s bs → IsSound k (report n s) bs
  unfolding ack_reported
  report-IsSound n s bs h = elim (Bool-cases (ltb 0 n)) [
    | inl t ↦ simp t (record {
      holds = h.holds;
      ascends = h.ascends;
      newest = h.newest;
      read = h.read;
      opened = h.opened;
    })
    | inr t ↦ simp t h
  ]

  pub Flies-report :
      (n : ℕ) (s : Spool) (bs : List (Block R)) (results : List R) (cs : List Consumed)
      → Flies k s bs results cs
      → Flies k (report n s) bs results cs
  unfolding ack_reported
  Flies-report n s bs results cs f = elim (Bool-cases (ltb 0 n)) [
    | inl t ↦ simp t (record {
      lost = f.lost;
      rest = f.rest;
      parts = f.parts;
      marks = record {
        stale = f.marks.stale;
        live = f.marks.live;
        parts = f.marks.parts;
        below = f.marks.below;
        takes = f.marks.takes;
      };
    })
    | inr t ↦ simp t f
  ]
