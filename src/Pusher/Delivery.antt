-- ===== src/Pusher/Delivery.antt =====
-- Nothing is lost between the probes and the server (internal/agent/uplink/pusher.go over
-- internal/agent/spool/spool.go): what each record came to, as the calls of the pusher and the
-- appends take place in any order.
use polarbeam.Base.{
  ℕ, ◌+◌, ◌≤◌, ◌≡◌, refl, sym, ap, ◌∙◌, Bool, true, false, some, List, [], ◌∷◌, ◌++◌, All, All-map,
  arith, subst,
}
use polarbeam.Spool.Segments.{Consumed}
use polarbeam.Spool.Segments.Blocks.{Codec, Block, IsSound, queue, queue-IsSound}
use polarbeam.Spool.Segments.Acks.{every}
use polarbeam.Pusher.{
  Phase, idle, fetched, pushing, acking, Pusher, Event, appends, fetches, reads_dropped, answers,
  acks, answered, phase_step, step, run,
}
use polarbeam.Pusher.Fates.{Fates, all_of, drops, Delivered, Delivered-more, Mem-all}
use polarbeam.Pusher.Ledger.{Flight, IsKept, step_all, Fits, step-append}
use polarbeam.Pusher.Ledger.Calls.{
  step-next, step-ack, report-total, report-unacked, report-IsSound, Flies-report,
}

module _ {ℓ} {R : Type ℓ} (k : Codec R) where
  step-answer :
      (base : ℕ) (ok : Bool) (results : List R) (cs : List Consumed) (counts : ℕ × ℕ) (p : Pusher R)
      → p.phase ≡ pushing results cs counts
      → IsKept k base p
      → IsKept k base (answered ok results cs counts p)
  unfolding answered
  step-answer base false results cs counts p e h = record {
    blocks = h.blocks;
    sound = h.sound;
    settled = h.settled;
    parts = h.parts;
    fates = h.fates;
    counted = h.counted;
    balance = h.balance;
    flight = tt;
  }
  step-answer base true results cs (total, unacked) p e h = record {
    blocks = h.blocks;
    sound = report-IsSound k unacked p.spool h.blocks h.sound;
    settled = h.settled;
    parts = h.parts;
    fates = All-map (Delivered-more p.accepted results) h.settled h.fates;
    counted = omega (arith, h.counted, report-total k unacked p.spool);
    balance =
        omega (arith, h.balance, report-total k unacked p.spool, report-unacked k unacked p.spool);
    flight = (
      Flies-report k unacked p.spool h.blocks results cs
          (subst (λ ph. Flight k ph p.accepted p.spool h.blocks) e h.flight),
      Mem-all p.accepted results,
    );
  }

  in_phase :
      (base : ℕ) (phase : Phase R) (e : Event R) (p : Pusher R)
      → p.phase ≡ phase
      → IsKept k base p
      → IsKept k base (phase_step k.crc32 (λ r. some (k.marshal r)) k.unmarshal every phase e p)
  unfolding phase_step
  in_phase base idle (fetches now) p e h = step-next k base now p h
  in_phase base (fetched rs cs) reads_dropped p e h = record {
    blocks = h.blocks;
    sound = h.sound;
    settled = h.settled;
    parts = h.parts;
    fates = h.fates;
    counted = h.counted;
    balance = h.balance;
    flight = subst (λ ph. Flight k ph p.accepted p.spool h.blocks) e h.flight;
  }
  in_phase base (pushing rs cs counts) (answers ok) p e h = step-answer base ok rs cs counts p e h
  in_phase base (acking rs cs) acks p e h = step-ack k base rs cs p e h
  in_phase base idle (appends now x) p e h = h
  in_phase base idle reads_dropped p e h = h
  in_phase base idle (answers ok) p e h = h
  in_phase base idle acks p e h = h
  in_phase base (fetched rs cs) (appends now x) p e h = h
  in_phase base (fetched rs cs) (fetches now) p e h = h
  in_phase base (fetched rs cs) (answers ok) p e h = h
  in_phase base (fetched rs cs) acks p e h = h
  in_phase base (pushing rs cs c) (appends now x) p e h = h
  in_phase base (pushing rs cs c) (fetches now) p e h = h
  in_phase base (pushing rs cs c) reads_dropped p e h = h
  in_phase base (pushing rs cs c) acks p e h = h
  in_phase base (acking rs cs) (appends now x) p e h = h
  in_phase base (acking rs cs) (fetches now) p e h = h
  in_phase base (acking rs cs) reads_dropped p e h = h
  in_phase base (acking rs cs) (answers ok) p e h = h

  step-IsKept :
      (base : ℕ) (e : Event R) (p : Pusher R)
      → Fits k e p.spool
      → IsKept k base p
      → IsKept k base (step_all k p e)
  unfolding step
  step-IsKept base (appends now x) p f h = step-append k base now x p f h
  step-IsKept base (fetches now) p f h = in_phase base p.phase (fetches now) p refl h
  step-IsKept base reads_dropped p f h = in_phase base p.phase reads_dropped p refl h
  step-IsKept base (answers ok) p f h = in_phase base p.phase (answers ok) p refl h
  step-IsKept base acks p f h = in_phase base p.phase acks p refl h

  abbrev pub run_all : Pusher R → List (Event R) → Pusher R
  run_all = run k.crc32 (λ r. some (k.marshal r)) k.unmarshal every

  -- Each append of the run fits the state in which it comes.
  abbrev pub AllFit : Pusher R → List (Event R) → Type 0
  AllFit p [] = Unit
  AllFit p (e ∷ es) = Fits k e p.spool × AllFit (step_all k p e) es

  run-IsKept :
      (base : ℕ) (es : List (Event R)) (p : Pusher R)
      → AllFit p es
      → IsKept k base p
      → IsKept k base (run_all p es)
  unfolding run
  run-IsKept base [] p f h = h
  run-IsKept base (e ∷ es) p f h =
      run-IsKept base es (step_all k p e) f.1 (step-IsKept base e p f.0 h)

  -- A run begins with an idle loop over well-formed files.
  pub record Begins (p : Pusher R) (bs : List (Block R)) : Type ℓ where
    pub sound : IsSound k p.spool bs
    pub idle_phase : p.phase ≡ idle
    pub appended_so_far : p.appended ≡ queue k p.spool
    pub balance : p.spool.counters.unacked ≤ p.spool.counters.total

  Begins-IsKept :
      (p : Pusher R) (bs : List (Block R)) → Begins p bs → IsKept k p.spool.counters.total p
  unfolding drops
  Begins-IsKept p bs b = record {
    blocks = bs;
    sound = b.sound;
    settled = [];
    parts = b.appended_so_far ∙ queue-IsSound k p.spool bs b.sound;
    fates = tt;
    counted = omega arith;
    balance = b.balance;
    flight = subst (λ ph. Flight k ph p.accepted p.spool bs) (sym b.idle_phase) tt;
  }

  -- However the appends, the calls of the pusher, failed pushes and the bounds follow on each other,
  -- from a spool of well-formed files, when files can be removed, encodings are within the limit and
  -- the counters do not overflow: the records waiting at the beginning and those appended since are,
  -- in order, records that left the spool, followed by those that the spool still has. Each record
  -- that left was accepted by the server, but for at most as many as `dropped_total` has gone up by.
  pub run-Accounted :
      (es : List (Event R)) (p : Pusher R) (bs : List (Block R))
      → Begins p bs
      → AllFit p es
      → (settled : Fates R) × ((run_all p es).appended
          ≡ all_of settled ++ queue k (run_all p es).spool)
        × All (Delivered (run_all p es).accepted) settled
        × (p.spool.counters.total + drops settled ≤ (run_all p es).spool.counters.total)
  run-Accounted es p bs b f =
      let h = run-IsKept p.spool.counters.total es p f (Begins-IsKept p bs b) in
      (
        h.settled,
        h.parts
            ∙ ap (λ (l : List R). all_of h.settled ++ l)
                (sym (queue-IsSound k (run_all p es).spool h.blocks h.sound)),
        h.fates,
        h.counted,
      )
