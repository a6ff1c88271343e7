-- ===== src/Pusher/Drain.antt =====
-- The pusher empties the spool (internal/agent/uplink/pusher.go): pushes that the server accepts, one
-- after the other, with no append between them.
use polarbeam.Base.{
  ℕ, zero, suc, ◌*◌, ◌≤◌, ◌≡◌, refl, sym, ap, ◌∙◌, true, some, List, [], ◌∷◌, ◌++◌, length, take,
  drop, take-drop, length-drop, arith, subst, ltb, Bool-cases, inl, inr, drop-take,
  drop-append_self, nothing_left,
}
use mathlib.Core.List.{append_assoc, append-nil}
use polarbeam.Spool.Segments.{Spool, Consumed, next, ack, ack_files, ack_reported}
use polarbeam.Spool.Segments.Blocks.{Codec, Block, backlog, IsSound, queue, queue-IsSound}
use polarbeam.Spool.Segments.Reading.{Takes}
use polarbeam.Spool.Segments.Acks.{every, ack_files-Takes}
use polarbeam.Spool.Segments.Fifo.{pending_of, pending_of-IsSound, next-TakesOff}
use polarbeam.Pusher.{
  Phase, idle, Pusher, Event, fetches, reads_dropped, answers, acks, batch_size, report, fetch,
  answered, phase_step, step, run,
}
use polarbeam.Pusher.Ledger.Calls.{report-IsSound, pending-IsSound}
use polarbeam.Pusher.Delivery.{run_all}

take_none {ℓ} : {A : Type ℓ} (n : ℕ) (xs : List A) → 1 ≤ n → take n xs ≡ [] → xs ≡ []
take_none zero xs h e = absurd (omega arith)
take_none (suc n) [] h e = refl
take_none (suc n) (x ∷ xs) h e = absurd (omega (arith, ap length e))

drop_none {ℓ} : {A : Type ℓ} (n : ℕ) → drop {A = A} n [] ≡ []
drop_none zero = refl
drop_none (suc n) = refl

module _ {ℓ} {R : Type ℓ} (k : Codec R) where
  -- Rounds of the loop in which the server accepts the batch.
  abbrev pub rounds : ℕ → ℕ → List (Event R)
  rounds now zero = []
  rounds now (suc n) = fetches now ∷ reads_dropped ∷ answers true ∷ acks ∷ rounds now n

  abbrev pub round : ℕ → Pusher R → Pusher R
  round now p = run_all k p (rounds now 1)

  -- An idle loop over a sound spool, with what the server has accepted and what waits.
  pub record Rests (p : Pusher R) (got left : List R) : Type ℓ where
    pub blocks : List (Block R)
    pub sound : IsSound k p.spool blocks
    pub phase : p.phase ≡ idle
    pub accepted : p.accepted ≡ got
    pub waiting : backlog blocks ≡ left

  report-Takes :
      (n : ℕ) (s : Spool) (bs : List (Block R)) (cs : List Consumed) (out : List R)
      → Takes k s.active_seq cs out s.files bs
      → Takes k (report n s).active_seq cs out (report n s).files bs
  unfolding ack_reported
  report-Takes n s bs cs out t = elim (Bool-cases (ltb 0 n)) [ inl e ↦ simp e t | inr e ↦ simp e t ]

  -- The rest of a round, on what `Next` gave.
  rest_of_round : Pusher R → Spool × List R × List Consumed → Pusher R
  rest_of_round p b =
      run_all k (fetch k.crc32 (λ r. some (k.marshal r)) k.unmarshal every p b)
        (reads_dropped ∷ answers true ∷ acks ∷ [])

  round_empty :
      (p : Pusher R) (bs : List (Block R)) (cs : List Consumed)
      → IsSound k p.spool bs
      → backlog bs ≡ []
      → Rests (rest_of_round p (pending_of k [] p.spool, [], cs)) p.accepted []
  unfolding rest_of_round run step fetch phase_step
  round_empty p bs cs h e = record {
    blocks = bs;
    sound = pending_of-IsSound k p.spool [] bs h;
    phase = refl;
    accepted = refl;
    waiting = e;
  }

  round_batch :
      (p : Pusher R) (bs : List (Block R)) (cs : List Consumed) (r : R) (rs : List R)
      → IsSound k p.spool bs
      → Takes k p.spool.active_seq cs (r ∷ rs) p.spool.files bs
      → Rests
          (rest_of_round p (p.spool, r ∷ rs, cs))
          (p.accepted ++ r ∷ rs)
          (drop (length (r ∷ rs)) (backlog bs))
  unfolding rest_of_round run step fetch phase_step answered ack
  round_batch p bs cs r rs h t =
      let u = p.spool.counters.unacked in
      let s = report u p.spool in
      let (later, sound, off) =
        ack_files-Takes k cs s s.files bs (r ∷ rs) refl (report-IsSound k u p.spool bs h)
          (report-Takes u p.spool bs cs (r ∷ rs) t) in
      record {
        blocks = later;
        sound = pending-IsSound k _ (ack_files every cs s) later sound;
        phase = refl;
        accepted = refl;
        waiting = sym (ap (drop (length (r ∷ rs))) off ∙ drop-append_self (r ∷ rs) (backlog later));
      }

  -- What `Next` gave is accepted, and the rest of the backlog waits.
  of_batch :
      (p : Pusher R) (bs : List (Block R)) (most : ℕ) (cs : List Consumed) (out : List R)
      → 1 ≤ most
      → IsSound k p.spool bs
      → take most (backlog bs) ≡ out
      → Takes k p.spool.active_seq cs out p.spool.files bs
      → Rests
          (rest_of_round p (pending_of k out p.spool, out, cs))
          (p.accepted ++ out)
          (drop most (backlog bs))
  of_batch p bs most cs [] l h e t =
      let nothing = take_none most (backlog bs) l e in
      let r = round_empty p bs cs h nothing in
      record {
        blocks = r.blocks;
        sound = r.sound;
        phase = r.phase;
        accepted = r.accepted ∙ sym (append-nil p.accepted);
        waiting = r.waiting ∙ sym (ap (drop most) nothing ∙ drop_none most);
      }
  of_batch p bs most cs (x ∷ xs) l h e t =
      let r = round_batch p bs cs x xs h t in
      record {
        blocks = r.blocks;
        sound = r.sound;
        phase = r.phase;
        accepted = r.accepted;
        waiting =
            r.waiting
            ∙ ap (λ (o : List R). drop (length o) (backlog bs)) (sym e)
            ∙ drop-take most (backlog bs);
      }

  starts_round :
      (now : ℕ) (p : Pusher R)
      → p.phase ≡ idle
      → round now p ≡ rest_of_round p (next k.crc32 k.unmarshal now batch_size p.spool)
  unfolding rest_of_round run step phase_step
  starts_round now p e =
      ap
        (λ (ph : Phase R).
          run_all k
            (phase_step k.crc32 (λ r. some (k.marshal r)) k.unmarshal every ph (fetches now) p)
            (reads_dropped ∷ answers true ∷ acks ∷ []))
        e

  round-Rests :
      (now : ℕ) (p : Pusher R) (got left : List R)
      → Rests p got left
      → Rests (round now p) (got ++ take batch_size left) (drop batch_size left)
  round-Rests now p got left h =
      let off = next-TakesOff k now batch_size p.spool h.blocks h.sound in
      let out = take batch_size (backlog h.blocks) in
      subst (λ (g : List R). Rests (round now p) (g ++ take batch_size left) (drop batch_size left))
        h.accepted
        (subst
          (λ (l : List R).
            Rests (round now p) (p.accepted ++ take batch_size l) (drop batch_size l))
          h.waiting
          (subst
            (λ (q : Pusher R). Rests q (p.accepted ++ out) (drop batch_size (backlog h.blocks)))
            (sym (starts_round now p h.phase ∙ ap (rest_of_round p) off.batch))
            (of_batch p h.blocks batch_size off.marks out (omega arith) h.sound refl off.takes)))

  rounds-Rests :
      (n now : ℕ) (p : Pusher R) (got left : List R)
      → length left ≤ n * batch_size
      → Rests p got left
      → Rests (run_all k p (rounds now n)) (got ++ left) []
  unfolding run
  rounds-Rests zero now p got left l h =
      let nothing = nothing_left left (omega arith) in
      record {
        blocks = h.blocks;
        sound = h.sound;
        phase = h.phase;
        accepted = h.accepted ∙ sym (append-nil got) ∙ ap (λ (x : List R). got ++ x) (sym nothing);
        waiting = h.waiting ∙ nothing;
      }
  rounds-Rests (suc n) now p got left l h =
      subst (λ (g : List R). Rests (run_all k (round now p) (rounds now n)) g [])
        (append_assoc got (take batch_size left) (drop batch_size left)
          ∙ ap (λ (x : List R). got ++ x) (take-drop batch_size left))
        (rounds-Rests n now (round now p) (got ++ take batch_size left) (drop batch_size left)
          (omega (arith, length-drop batch_size left)) (round-Rests now p got left h))

  -- When the loop is idle over well-formed files, the server accepts what is pushed, files can be
  -- removed and nothing is appended, then after one round for each 500 waiting records, or more
  -- rounds, the queue is empty, and the server has accepted exactly the records of the queue, each
  -- once and in order, behind what it had.
  pub run-rounds :
      (n now : ℕ) (p : Pusher R) (bs : List (Block R))
      → IsSound k p.spool bs
      → p.phase ≡ idle
      → length (queue k p.spool) ≤ n * batch_size
      → ((run_all k p (rounds now n)).accepted ≡ p.accepted ++ queue k p.spool)
        × (queue k (run_all k p (rounds now n)).spool ≡ [])
  run-rounds n now p bs h e l =
      let waits = queue-IsSound k p.spool bs h in
      let r =
        rounds-Rests n now p p.accepted (queue k p.spool) l
          (record { blocks = bs; sound = h; phase = e; accepted = refl; waiting = sym waits }) in
      (r.accepted, queue-IsSound k _ r.blocks r.sound ∙ r.waiting)
