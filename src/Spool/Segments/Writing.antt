-- ===== src/Spool/Segments/Writing.antt =====
-- Writing a record to the active segment of well-formed files (internal/agent/spool/spool.go): one
-- more record waits in the last file.
use polarbeam.Base.{
  ℕ, suc, ◌≤◌, ◌≡◌, ◌≢◌, refl, sym, ap, ◌∙◌, inl, inr, true, List, [], ◌∷◌, ◌++◌, length, arith,
  ◌==◌, max, subst, Bool-cases,
}
use mathlib.Core.List.{append_assoc, append-nil}
use polarbeam.Spool.Frames.{max_record_bytes, frame}
use polarbeam.Spool.Frames.Replay.{frames}
use polarbeam.Spool.Segments.{Spool, Consumed, write_record}
use polarbeam.Spool.Files.{Segment, write_to}
use polarbeam.Spool.Segments.Blocks.{
  Codec, Ascends, EndsAt, Block, Holds, backlog, IsSound, image, image-append, Fit,
}
use polarbeam.Spool.Segments.Reading.{Takes, Newest, Ascends-Newest}
use polarbeam.Spool.Segments.Opening.{Stale, Grown}

abbrev with_bytes : ℕ → List ℕ → Segment → Segment
with_bytes now bytes g = record g { bytes = g.bytes ++ bytes; mod_time = now }

write_last :
    (seq now : ℕ) (bytes : List ℕ) (g : Segment)
    → g.seq ≡ seq
    → write_to seq now bytes (g ∷ []) ≡ with_bytes now bytes g ∷ []
unfolding write_to
write_last seq now bytes g e = ground arith

write_later :
    (seq now : ℕ) (bytes : List ℕ) (g h : Segment) (gs : List Segment)
    → g.seq ≢ seq
    → write_to seq now bytes (g ∷ h ∷ gs) ≡ g ∷ write_to seq now bytes (h ∷ gs)
unfolding write_to
write_later seq now bytes g h gs n = ground arith

Ascends-write_to :
    (lo next seq now : ℕ) (bytes : List ℕ) (gs : List Segment)
    → Ascends lo next gs
    → Ascends lo next (write_to seq now bytes gs)
unfolding write_to
Ascends-write_to lo next seq now bytes [] a = tt
Ascends-write_to lo next seq now bytes (g ∷ gs) a = elim (Bool-cases (g.seq == seq)) [
  | inl t ↦ simp t (a.0, a.1, a.2)
  | inr t ↦ simp t (a.0, a.1, Ascends-write_to (suc g.seq) next seq now bytes gs a.2)
]

Stale-write_to :
    (lo next seq now : ℕ) (bytes : List ℕ) (gs : List Segment) (cs : List Consumed)
    → Stale lo next gs cs
    → Stale lo next (write_to seq now bytes gs) cs
Stale-write_to lo next seq now bytes gs [] t = tt
Stale-write_to lo next seq now bytes gs (c ∷ cs) t = (
  t.0,
  t.1,
  Ascends-write_to (suc c.seq) next seq now bytes gs t.2,
  Stale-write_to c.seq next seq now bytes gs cs t.3,
)

EndsAt-cons : (at : ℕ) (g : Segment) (gs : List Segment) → EndsAt at gs → EndsAt at (g ∷ gs)
EndsAt-cons at g [] e = elim e [ ]
EndsAt-cons at g (h ∷ gs) e = e

EndsAt-write_to :
    (seq at now : ℕ) (bytes : List ℕ) (gs : List Segment)
    → Newest seq gs
    → EndsAt at gs
    → EndsAt at (write_to seq now bytes gs)
unfolding write_to
EndsAt-write_to seq at now bytes [] n e = e
EndsAt-write_to seq at now bytes (g ∷ []) n e = ground arith
EndsAt-write_to seq at now bytes (g ∷ h ∷ gs) n e =
    subst (EndsAt at) (sym (write_later seq now bytes g h gs n.0)) (
      EndsAt-cons at g (write_to seq now bytes (h ∷ gs))
        (EndsAt-write_to seq at now bytes (h ∷ gs) n.1 e))

module _ {ℓ} {R : Type ℓ} (k : Codec R) where
  -- One more record waits in the last block.
  abbrev pub add_last : R → List (Block R) → List (Block R)
  add_last r [] = []
  add_last r ((past, todo) ∷ []) = (past, todo ++ r ∷ []) ∷ []
  add_last r (b ∷ c ∷ bs) = b ∷ add_last r (c ∷ bs)

  backlog-add_last :
      (r : R) (b : Block R) (bs : List (Block R))
      → backlog (add_last r (b ∷ bs)) ≡ backlog (b ∷ bs) ++ r ∷ []
  unfolding backlog
  backlog-add_last r (past, todo) [] =
      append-nil (todo ++ r ∷ []) ∙ ap (λ (l : List R). l ++ r ∷ []) (sym (append-nil todo))
  backlog-add_last r b (c ∷ bs) =
      ap (λ (l : List R). b.1 ++ l) (backlog-add_last r c bs)
      ∙ sym (append_assoc b.1 (backlog (c ∷ bs)) (r ∷ []))

  image_add :
      (rs : List R) (r : R) → image k (rs ++ r ∷ []) ≡ image k rs ++ frame k.crc32 (k.marshal r)
  unfolding frames
  image_add rs r =
      image-append k rs (r ∷ [])
      ∙ ap (λ (l : List ℕ). image k rs ++ l) (append-nil (frame k.crc32 (k.marshal r)))

  Fit-add :
      (rs : List R) (r : R)
      → length (k.marshal r) ≤ max_record_bytes
      → Fit k rs
      → Fit k (rs ++ r ∷ [])
  Fit-add [] r l h = (l, tt)
  Fit-add (x ∷ rs) r l h = (h.0, Fit-add rs r l h.1)

  Holds-add_last :
      (r o seq now : ℕ) (x : R) (gs : List Segment) (bs : List (Block R))
      → length (k.marshal x) ≤ max_record_bytes
      → Newest seq gs
      → EndsAt seq gs
      → Holds k r o gs bs
      → Holds k r o (write_to seq now (frame k.crc32 (k.marshal x)) gs) (add_last x bs)
  Holds-add_last r o seq now x [] bs l n e h = elim e [ ]
  Holds-add_last r o seq now x (g ∷ []) ((past, todo) ∷ []) l n e h =
      let regrouped : (past ++ todo) ++ x ∷ [] ≡ past ++ (todo ++ x ∷ []) =
        append_assoc past todo (x ∷ []) in
      subst (λ (gs : List Segment). Holds k r o gs ((past, todo ++ x ∷ []) ∷ []))
        (sym (write_last seq now (frame k.crc32 (k.marshal x)) g e))
        (
          (
            ap (λ (l : List ℕ). l ++ frame k.crc32 (k.marshal x)) h.0.0
                ∙ sym (image_add (past ++ todo) x)
                ∙ ap (image k) regrouped,
            h.0.1,
            subst (Fit k) regrouped (Fit-add (past ++ todo) x l h.0.2),
          ),
          tt,
        )
  Holds-add_last r o seq now x (g ∷ []) [] l n e h = elim h [ ]
  Holds-add_last r o seq now x (g ∷ f ∷ gs) [] l n e h = elim h [ ]
  Holds-add_last r o seq now x (g ∷ []) (b ∷ c ∷ bs) l n e h = elim h.1 [ ]
  Holds-add_last r o seq now x (g ∷ f ∷ gs) (b ∷ []) l n e h = elim h.1 [ ]
  Holds-add_last r o seq now x (g ∷ f ∷ gs) (b ∷ c ∷ bs) l n e h =
      subst (λ l. Holds k r o l (b ∷ add_last x (c ∷ bs)))
        (sym (write_later seq now (frame k.crc32 (k.marshal x)) g f gs n.0))
        (h.0, Holds-add_last r o seq now x (f ∷ gs) (c ∷ bs) l n.1 e h.1)

  Takes-add_last :
      (cs : List Consumed) (r o seq now : ℕ) (x : R) (bytes : List ℕ) (out : List R)
      (gs : List Segment) (bs : List (Block R))
      → Newest seq gs
      → EndsAt seq gs
      → Holds k r o gs bs
      → Takes k seq cs out gs bs
      → Takes k seq cs out (write_to seq now bytes gs) (add_last x bs)
  Takes-add_last [] r o seq now x bytes out gs bs n e h t = t
  Takes-add_last (c ∷ cs) r o seq now x bytes out [] bs n e h t = elim e [ ]
  Takes-add_last (c ∷ cs) r o seq now x bytes out (g ∷ gs) [] n e h t = elim h [ ]
  Takes-add_last (c ∷ cs) r o seq now x bytes out (g ∷ []) (b ∷ d ∷ bs) n e h t = elim h.1 [ ]
  Takes-add_last (c ∷ cs) r o seq now x bytes out (g ∷ f ∷ gs) (b ∷ []) n e h t = elim h.1 [ ]
  Takes-add_last (c ∷ cs) r o seq now x bytes out (g ∷ []) (b ∷ []) n e h (q, inl (later, w, t)) =
      absurd (w.1 e)
  Takes-add_last (c ∷ cs) r o seq now x bytes out (g ∷ []) ((past, todo) ∷ []) n e h
        (q, inr (left, p, z, d, i)) =
      subst (λ (gs : List Segment). Takes k seq (c ∷ cs) out gs ((past, todo ++ x ∷ []) ∷ []))
        (sym (write_last seq now bytes g e))
        (
          q,
          inr (
            left ++ x ∷ [],
            p,
            z,
            ap (λ (l : List R). l ++ x ∷ []) d ∙ append_assoc out left (x ∷ []),
            i,
          ),
        )
  Takes-add_last (c ∷ cs) r o seq now x bytes out (g ∷ f ∷ gs) (b ∷ d ∷ bs) n e h (q, t) =
      subst (λ (gs : List Segment). Takes k seq (c ∷ cs) out gs (b ∷ add_last x (d ∷ bs)))
        (sym (write_later seq now bytes g f gs n.0))
        (
          q,
          elim t [
            | inl (later, w, t') ↦ inl (
              later,
              w,
              Takes-add_last cs r o seq now x bytes later (f ∷ gs) (d ∷ bs) n.1 e h.1 t',
            )
            | inr p ↦ inr p
          ],
        )

  pub EndsAt-block :
      (r o seq : ℕ) (gs : List Segment) (bs : List (Block R))
      → EndsAt seq gs
      → Holds k r o gs bs
      → (b : Block R) × (rest : List (Block R)) × (bs ≡ b ∷ rest)
  EndsAt-block r o seq [] bs e h = elim e [ ]
  EndsAt-block r o seq (g ∷ gs) [] e h = elim h [ ]
  EndsAt-block r o seq (g ∷ gs) (b ∷ bs) e h = (b, bs, refl)

  -- A record written to an open segment waits behind the others.
  pub write_record-IsSound :
      (now : ℕ) (x : R) (s : Spool) (bs : List (Block R))
      → length (k.marshal x) ≤ max_record_bytes
      → s.active ≡ true
      → IsSound k s bs
      → Grown k s bs (x ∷ []) (write_record k.crc32 now (k.marshal x) s) (add_last x bs)
  unfolding write_record
  write_record-IsSound now x s bs l a h =
      let newest =
        Ascends-Newest (max 1 s.read_seq) s.next_seq s.active_seq s.files (omega arith) h.newest
          h.ascends in
      let ends = h.opened a in
      let (b, rest, e) =
        EndsAt-block s.read_seq s.read_offset s.active_seq s.files bs ends h.holds in
      let bytes = frame k.crc32 (k.marshal x) in
      (
        record {
          holds =
              Holds-add_last s.read_seq s.read_offset s.active_seq now x s.files bs l newest ends
                h.holds;
          ascends =
              Ascends-write_to (max 1 s.read_seq) s.next_seq s.active_seq now bytes s.files
                h.ascends;
          newest = h.newest;
          read = h.read;
          opened = λ a'. EndsAt-write_to s.active_seq s.active_seq now bytes s.files newest ends;
        },
        subst (λ (l : List (Block R)). backlog (add_last x l) ≡ backlog l ++ x ∷ []) (sym e)
            (backlog-add_last x b rest),
        λ cs out t.
            Takes-add_last cs s.read_seq s.read_offset s.active_seq now x bytes out s.files bs
              newest ends h.holds t,
        λ lo cs t. Stale-write_to lo s.next_seq s.active_seq now bytes s.files cs t,
      )
