-- ===== src/Spool/Segments/Acks.antt =====
-- What the ack of a batch leaves (internal/agent/spool/spool.go), when the files that it removes can
-- be removed.
use polarbeam.Base.{
  ℕ, suc, ◌≤◌, ◌<◌, ◌≡◌, ◌≢◌, refl, sym, ap, ap₂, ◌∙◌, inl, inr, Bool, true, false, not, List, [],
  ◌∷◌, ◌++◌, length, arith, ◌==◌, max, if◌then◌else◌, subst,
}
use mathlib.Core.List.{append_assoc}
use polarbeam.Spool.Segments.{Spool, Consumed, start, ack_file, ack_files, next}
use polarbeam.Spool.Files.{Segment, remove_file}
use polarbeam.Spool.Segments.Blocks.{
  Codec, Ascends, Ascends-lower, EndsAt, image, Fit, Block, Holds, backlog, IsSound,
}
use polarbeam.Spool.Segments.Reading.{Takes}

abbrev pub every : ℕ → Bool
every seq = true

pub start_elsewhere : (r o seq : ℕ) → r < seq → start r o seq ≡ 0
start_elsewhere r o seq h = ground arith

start_here : (seq o : ℕ) → start seq o seq ≡ o
start_here seq o = ground arith

remove_head : (g : Segment) (gs : List Segment) → remove_file g.seq (g ∷ gs) ≡ gs
unfolding remove_file
remove_head g gs = ground arith

pub EndsAt-later :
    (seq : ℕ) (g : Segment) (gs : List Segment) → g.seq ≢ seq → EndsAt seq (g ∷ gs) → EndsAt seq gs
EndsAt-later seq g [] n e = absurd (n e)
EndsAt-later seq g (h ∷ gs) n e = e

-- The ack of a whole file, and of a part.
abbrev pub without_head : Segment → List Segment → Spool → Spool
without_head g gs s = record s {
  files = gs;
  read_seq = if s.read_seq == g.seq then 0 else s.read_seq;
  read_offset = if s.read_seq == g.seq then 0 else s.read_offset;
}

ack_whole :
    (c : Consumed) (s : Spool) (g : Segment) (gs : List Segment)
    → s.files ≡ g ∷ gs
    → c.seq ≡ g.seq
    → c.complete ≡ true
    → ack_file every c s ≡ without_head g gs s
unfolding ack_file
ack_whole c s g gs f q e =
    ap₂
      (λ (b : Bool) (i : ℕ).
        if not b then record s { read_seq = c.seq; read_offset = c.end_ } else record s {
          files = remove_file i s.files;
          read_seq = if s.read_seq == i then 0 else s.read_seq;
          read_offset = if s.read_seq == i then 0 else s.read_offset;
        })
      e q
    ∙ ap (λ (files : List Segment). record (without_head g gs s) { files = files })
        (ap (remove_file g.seq) f ∙ remove_head g gs)

ack_part :
    (c : Consumed) (s : Spool)
    → c.complete ≡ false
    → ack_file every c s ≡ record s { read_seq = c.seq; read_offset = c.end_ }
unfolding ack_file
ack_part c s e =
    ap
      (λ (b : Bool).
        if not b then record s { read_seq = c.seq; read_offset = c.end_ } else record s {
          files = remove_file c.seq s.files;
          read_seq = if s.read_seq == c.seq then 0 else s.read_seq;
          read_offset = if s.read_seq == c.seq then 0 else s.read_offset;
        })
      e

module _ {ℓ} {R : Type ℓ} (k : Codec R) where
  -- Files behind the one that is read from are read from their start.
  pub Holds-start :
      (r o r' o' lo next : ℕ) (gs : List Segment) (bs : List (Block R))
      → Ascends lo next gs
      → r < lo
      → r' < lo
      → Holds k r o gs bs
      → Holds k r' o' gs bs
  Holds-start r o r' o' lo next [] [] a l l' h = tt
  Holds-start r o r' o' lo next [] (b ∷ bs) a l l' h = h
  Holds-start r o r' o' lo next (g ∷ gs) [] a l l' h = h
  Holds-start r o r' o' lo next (g ∷ gs) ((past, todo) ∷ bs) a l l' h = (
    (
      h.0.0,
      start_elsewhere r' o' g.seq (omega arith)
          ∙ sym (start_elsewhere r o g.seq (omega arith))
          ∙ h.0.1,
      h.0.2,
    ),
    Holds-start r o r' o' (suc g.seq) next gs bs a.2 (omega arith) (omega arith) h.1,
  )

  -- Without its first file the state is sound, if the handle that is left is that of the last file.
  pub without_head-IsSound :
      (s : Spool) (g : Segment) (gs : List Segment) (b : Block R) (bs : List (Block R))
      (active : Bool)
      → s.files ≡ g ∷ gs
      → (active ≡ true → EndsAt s.active_seq gs)
      → IsSound k s (b ∷ bs)
      → IsSound k (record (without_head g gs s) { active = active }) bs
  without_head-IsSound s g gs b bs active f o h =
      let ascends = subst (Ascends (max 1 s.read_seq) s.next_seq) f h.ascends in
      let moved : (if s.read_seq == g.seq then 0 else s.read_seq) ≤ g.seq = ground arith in
      record {
        holds =
            Holds-start s.read_seq s.read_offset _ _ (suc g.seq) s.next_seq gs bs ascends.2
              (omega (arith, ascends.0)) (omega (arith, moved))
              (subst (λ l. Holds k s.read_seq s.read_offset l (b ∷ bs)) f h.holds).1;
        ascends = Ascends-lower (suc g.seq) _ s.next_seq gs (omega (arith, moved)) ascends.2;
        newest = h.newest;
        read = omega (arith, moved, ascends.1);
        opened = o;
      }

  part-IsSound :
      (s : Spool) (g : Segment) (gs : List Segment) (past out left : List R) (bs : List (Block R))
      → s.files ≡ g ∷ gs
      → IsSound k s ((past, out ++ left) ∷ bs)
      → IsSound k
          (record s { read_seq = g.seq; read_offset = length (image k (past ++ out)) })
          ((past ++ out, left) ∷ bs)
  part-IsSound s g gs past out left bs f h =
      let ascends = subst (Ascends (max 1 s.read_seq) s.next_seq) f h.ascends in
      let holds =
        subst (λ l. Holds k s.read_seq s.read_offset l ((past, out ++ left) ∷ bs)) f h.holds in
      let regrouped : past ++ (out ++ left) ≡ (past ++ out) ++ left =
        sym (append_assoc past out left) in
      record {
        holds =
            subst (λ l. Holds k g.seq (length (image k (past ++ out))) l ((past ++ out, left) ∷ bs))
              (sym f)
              (
                (
                  holds.0.0 ∙ ap (image k) regrouped,
                  start_here g.seq _,
                  subst (Fit k) regrouped holds.0.2,
                ),
                Holds-start s.read_seq s.read_offset _ _ (suc g.seq) s.next_seq gs bs ascends.2
                    (omega (arith, ascends.0)) (omega arith) holds.1,
              );
        ascends =
            subst (Ascends (max 1 g.seq) s.next_seq) (sym f)
              (omega (arith, ascends.0), ascends.1, ascends.2);
        newest = h.newest;
        read = ascends.1;
        opened = h.opened;
      }

  -- A sound state in which `out` is no longer waiting.
  abbrev pub Acked : List (Block R) → List R → Spool → Type ℓ
  Acked bs out s =
      (later : List (Block R)) × IsSound k s later × (backlog bs ≡ out ++ backlog later)

  -- The ack of marks that fit takes the results of the batch, and nothing else, off the backlog.
  pub ack_files-Takes :
      (cs : List Consumed) (s : Spool) (gs : List Segment) (bs : List (Block R)) (out : List R)
      → s.files ≡ gs
      → IsSound k s bs
      → Takes k s.active_seq cs out gs bs
      → Acked bs out (ack_files every cs s)
  unfolding ack_files backlog
  ack_files-Takes [] s gs bs out f h t = (bs, h, ap (λ (l : List R). l ++ backlog bs) (sym t))
  ack_files-Takes (c ∷ cs) s [] bs out f h t = elim t.1 [ ]
  ack_files-Takes (c ∷ cs) s (g ∷ gs) [] out f h t = elim t.1 [ ]
  ack_files-Takes (c ∷ cs) s (g ∷ gs) ((past, todo) ∷ bs) out f h (q, inl (rest, (e, n, o), t)) =
      let (later, sound, off) =
        ack_files-Takes cs (without_head g gs s) gs bs rest refl
          (without_head-IsSound s g gs (past, todo) bs s.active f
            (λ a. EndsAt-later s.active_seq g gs n (subst (EndsAt s.active_seq) f (h.opened a))) h)
          t in
      subst (λ (s' : Spool). Acked ((past, todo) ∷ bs) out (ack_files every cs s'))
        (sym (ack_whole c s g gs f q e))
        (
          later,
          sound,
          ap (λ (l : List R). todo ++ l) off
              ∙ sym (append_assoc todo rest (backlog later))
              ∙ ap (λ (l : List R). l ++ backlog later) (sym o),
        )
  ack_files-Takes (c ∷ cs) s (g ∷ gs) ((past, todo) ∷ bs) out f h
        (q, inr (left, e, none_more, parts, at)) =
      subst (λ (l : List Consumed). Acked ((past, todo) ∷ bs) out (ack_files every (c ∷ l) s))
        (sym none_more)
        (subst (λ (s' : Spool). Acked ((past, todo) ∷ bs) out s')
          (sym
            (ack_part c s e ∙ ap₂ (λ (i j : ℕ). record s { read_seq = i; read_offset = j }) q at))
          (
            (past ++ out, left) ∷ bs,
            part-IsSound s g gs past out left bs f
                (subst (λ (l : List R). IsSound k s ((past, l) ∷ bs)) parts h),
            ap (λ (l : List R). l ++ backlog bs) parts ∙ append_assoc out left (backlog bs),
          ))
