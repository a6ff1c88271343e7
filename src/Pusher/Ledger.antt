-- ===== src/Pusher/Ledger.antt =====
-- What holds at each moment of a run of the pusher (internal/agent/uplink/pusher.go over
-- internal/agent/spool/spool.go), and that an append keeps it.
pub mod Calls
use polarbeam.Base.{
  ℕ, zero, suc, ◌+◌, ◌≤◌, ◌<◌, ◌^◌, ◌≡◌, refl, sym, ap, ◌∙◌, Bool, true, false, some, List, [], ◌∷◌,
  ◌++◌, length, take, All, All-append, All-map, arith, subst, max, ltb, Bool-cases, inl, inr,
}
use mathlib.Core.List.{append_assoc, Mem}
use polarbeam.Spool.Frames.{max_record_bytes, record_overhead}
use polarbeam.Spool.Counters.{Counters, ack_dropped}
use polarbeam.Spool.Segments.{
  Spool, Consumed, next, ack, ack_file, ack_files, ack_reported, settle_pending,
}
use polarbeam.Spool.Files.{total_size}
use polarbeam.Spool.Segments.Blocks.{Codec, Block, backlog, IsSound, queue, queue-IsSound}
use polarbeam.Spool.Segments.Reading.{Takes, Ascends-Newest}
use polarbeam.Spool.Segments.Turns.{next_loop-Holds}
use polarbeam.Spool.Segments.Acks.{every}
use polarbeam.Spool.Segments.Marks.{Marks, ack_files-Marks}
use polarbeam.Spool.Segments.Drops.{backlog_short, records-Holds}
use polarbeam.Spool.Segments.Appended.{append-Appended}
use polarbeam.Pusher.{
  Phase, idle, fetched, pushing, acking, Pusher, Event, appends, fetches, reads_dropped, answers,
  acks, batch_size, report, fetch, answered, phase_step, step, run,
}
use polarbeam.Pusher.Fates.{
  Fates, all_of, drops, each, Delivered, all_of-each, drops_delivered, drops_more, fates_dropped,
  fates-Delivered, Delivered-more, Mem-all, All-later,
}

module _ {ℓ} {R : Type ℓ} (k : Codec R) where
  -- The marks of the batch that is on its way, and what of it still waits.
  pub record Flies (s : Spool) (bs : List (Block R)) (results : List R) (cs : List Consumed)
      : Type ℓ where
    pub lost : List R
    pub rest : List R
    pub parts : results ≡ lost ++ rest
    pub marks : Marks k s bs cs rest

  abbrev pub Flight : Phase R → List R → Spool → List (Block R) → Type ℓ
  Flight idle accepted s bs = Unit
  Flight (fetched results cs) accepted s bs = Flies s bs results cs
  Flight (pushing results cs counts) accepted s bs = Flies s bs results cs
  Flight (acking results cs) accepted s bs =
      Flies s bs results cs × All (λ r. Mem r accepted) results

  -- Everything that was appended is, in order, what is settled and then what waits.
  pub record IsKept (base : ℕ) (p : Pusher R) : Type ℓ where
    pub blocks : List (Block R)
    pub sound : IsSound k p.spool blocks
    pub settled : Fates R
    pub parts : p.appended ≡ all_of settled ++ backlog blocks
    pub fates : All (Delivered p.accepted) settled
    pub counted : base + drops settled ≤ p.spool.counters.total
    pub balance : p.spool.counters.unacked ≤ p.spool.counters.total
    pub flight : Flight p.phase p.accepted p.spool blocks

  abbrev pub step_all : Pusher R → Event R → Pusher R
  step_all = step k.crc32 (λ r. some (k.marshal r)) k.unmarshal every

  -- The encoding of an appended record is within the limit, and the counters do not overflow.
  abbrev pub Fits : Event R → Spool → Type 0
  Fits (appends now x) s =
      (length (k.marshal x) + record_overhead ≤ max_record_bytes)
      × (suc s.next_seq < 2 ^ 64)
      × (suc (s.counters.total + total_size s.files) < 2 ^ 64)
  Fits _ s = Unit

  -- A batch stays in flight while the spool goes on.
  Flies-moves :
      (s s' : Spool) (bs bs' : List (Block R)) (results : List R) (cs : List Consumed)
      → ((cs : List Consumed) (out : List R)
          → Marks k s bs cs out
          → (lost : List R) × (later : List R) × (out ≡ lost ++ later) × Marks k s' bs' cs later)
      → Flies s bs results cs
      → Flies s' bs' results cs
  Flies-moves s s' bs bs' results cs moves f =
      let (lost, later, e, m) = moves cs f.rest f.marks in
      record {
        lost = f.lost ++ lost;
        rest = later;
        parts = f.parts ∙ ap (λ (l : List R). f.lost ++ l) e ∙ sym (append_assoc f.lost lost later);
        marks = m;
      }

  Flight-append :
      (phase : Phase R) (accepted : List R) (s s' : Spool) (bs bs' : List (Block R))
      → ((cs : List Consumed) (out : List R)
          → Marks k s bs cs out
          → (lost : List R) × (later : List R) × (out ≡ lost ++ later) × Marks k s' bs' cs later)
      → Flight phase accepted s bs
      → Flight phase accepted s' bs'
  Flight-append idle accepted s s' bs bs' moves f = tt
  Flight-append (fetched results cs) accepted s s' bs bs' moves f =
      Flies-moves s s' bs bs' results cs moves f
  Flight-append (pushing results cs counts) accepted s s' bs bs' moves f =
      Flies-moves s s' bs bs' results cs moves f
  Flight-append (acking results cs) accepted s s' bs bs' moves f =
      (Flies-moves s s' bs bs' results cs moves f.0, f.1)

  pub step-append :
      (base now : ℕ) (x : R) (p : Pusher R)
      → Fits (appends now x) p.spool
      → IsKept base p
      → IsKept base (step_all p (appends now x))
  unfolding step
  step-append base now x p f h =
      let a =
        append-Appended k now x p.spool h.blocks h.sound f.0 f.1
          (omega (
            arith,
            f.2,
            records-Holds k p.spool.read_seq p.spool.read_offset p.spool.files h.blocks
                h.sound.holds,
          ))
          h.balance in
      record {
        blocks = a.kept;
        sound = a.sound;
        settled = h.settled ++ each false (backlog a.gone);
        parts =
            ap (λ (l : List R). l ++ x ∷ []) h.parts
            ∙ append_assoc (all_of h.settled) (backlog h.blocks) (x ∷ [])
            ∙ ap (λ (l : List R). all_of h.settled ++ l) a.parts
            ∙ sym (append_assoc (all_of h.settled) (backlog a.gone) (backlog a.kept))
            ∙ ap (λ (l : List R). l ++ backlog a.kept)
                (sym (all_of-each false h.settled (backlog a.gone)));
        fates =
            All-append (Delivered p.accepted) h.settled (each false (backlog a.gone)) h.fates
              (fates_dropped p.accepted (backlog a.gone));
        counted = omega (
          arith,
          h.counted,
          a.counts.0,
          backlog_short k a.gone,
          drops_more h.settled (backlog a.gone),
        );
        balance = omega (arith, h.balance, a.counts.0, a.counts.1);
        flight = Flight-append p.phase p.accepted p.spool _ h.blocks a.kept a.marks h.flight;
      }
