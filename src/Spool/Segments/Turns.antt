-- ===== src/Spool/Segments/Turns.antt =====
-- The turns of `Next` over well-formed files (internal/agent/spool/spool.go): the oldest records are
-- read, file by file, and the marks are right.
use polarbeam.Base.{
  ℕ, zero, suc, ◌-◌, ◌≤◌, ◌<◌, ◌≡◌, refl, sym, ap, ◌∙◌, inl, inr, Bool, true, false, not, ◌&&◌,
  List, [], ◌∷◌, ◌++◌, length, take, drop, take_all, take_over, take_within, take-drop, length-drop,
  length-take, arith, leb, ◌==◌, leb→le, Bool-cases, if◌then◌else◌,
}
use mathlib.Core.List.{append_assoc, append-nil}
use polarbeam.Spool.Frames.{Read}
use polarbeam.Spool.Segments.{Spool, Consumed, taken, with_read, next_loop, truncate_segment}
use polarbeam.Spool.Files.{Segment, size}
use polarbeam.Spool.Segments.Blocks.{
  Codec, image, Block, HoldsBlock, Holds, backlog, read-HoldsBlock, image_long,
}
use polarbeam.Spool.Segments.Reading.{
  Newest-later, taken_whole, taken_part, taken_nothing, Newest, Takes,
}

module _ {ℓ} {R : Type ℓ} (k : Codec R) where
  -- Reading a well-formed file, the loop goes on in the state it is in.
  next_turn :
      (now most : ℕ) (s : Spool) (g : Segment) (gs : List Segment) (past todo : List R)
      → HoldsBlock k s.read_seq s.read_offset g (past, todo)
      → next_loop k.crc32 k.unmarshal now (g ∷ gs) (suc most) s
        ≡ with_read k.crc32 k.unmarshal s g
            (take (suc most) todo, length (image k (past ++ take (suc most) todo)), false)
            (next_loop k.crc32 k.unmarshal now gs (suc most - length (take (suc most) todo)) s)
  unfolding next_loop
  next_turn now most s g gs past todo h =
      ap
        (λ (found : Read R). with_read k.crc32 k.unmarshal s g found (
          next_loop k.crc32 k.unmarshal now gs (suc most - length found.0)
            (if found.2 then truncate_segment now g found.1 s else s)))
        (read-HoldsBlock k s.read_seq s.read_offset (suc most) g past todo h)

  next_loop_zero :
      (now : ℕ) (s : Spool) (gs : List Segment)
      → next_loop k.crc32 k.unmarshal now gs 0 s ≡ (s, [], [])
  unfolding next_loop
  next_loop_zero now s [] = refl
  next_loop_zero now s (g ∷ gs) = refl

  abbrev pub Found : ℕ → ℕ → Spool → List Segment → List (Block R) → Type ℓ
  Found now most s gs bs =
      (cs : List Consumed) × (next_loop k.crc32 k.unmarshal now gs most s
        ≡ (s, take most (backlog bs), cs))
      × Takes k s.active_seq cs (take most (backlog bs)) gs bs

  -- The turn on a file, given what its block gives and the rest of the loop.
  turn_gives :
      (now most : ℕ) (s : Spool) (g : Segment) (gs : List Segment) (past todo recs later : List R)
      (marks cs : List Consumed)
      → HoldsBlock k s.read_seq s.read_offset g (past, todo)
      → take (suc most) todo ≡ recs
      → next_loop k.crc32 k.unmarshal now gs (suc most - length recs) s ≡ (s, later, cs)
      → taken s g (recs, length (image k (past ++ recs)), false) ≡ marks
      → next_loop k.crc32 k.unmarshal now (g ∷ gs) (suc most) s ≡ (s, recs ++ later, marks ++ cs)
  unfolding with_read
  turn_gives now most s g gs past todo recs later marks cs h t rest m =
      next_turn now most s g gs past todo h
      ∙ ap
          (λ (l : List R).
            with_read k.crc32 k.unmarshal s g (l, length (image k (past ++ l)), false)
              (next_loop k.crc32 k.unmarshal now gs (suc most - length l) s))
          t
      ∙ ap (with_read k.crc32 k.unmarshal s g (recs, length (image k (past ++ recs)), false)) rest
      ∙ ap (λ (l : List Consumed). (s, recs ++ later, l ++ cs)) m

  -- A sealed file that is taken to its end.
  Found-whole :
      (now most : ℕ) (s : Spool) (g : Segment) (gs : List Segment) (past todo : List R)
      (bs : List (Block R))
      → HoldsBlock k s.read_seq s.read_offset g (past, todo)
      → length todo ≤ suc most
      → (g.seq == s.active_seq) ≡ false
      → Found now (suc most - length todo) s gs bs
      → Found now (suc most) s (g ∷ gs) ((past, todo) ∷ bs)
  unfolding backlog
  Found-whole now most s g gs past todo bs h l n (cs, e, t) =
      let over = take_over (suc most) todo (backlog bs) l in
      (
        record { seq = g.seq; end_ = length (image k (past ++ todo)); complete = true } ∷ cs,
        turn_gives now most s g gs past todo todo _ _ cs h (take_all (suc most) todo l) e
              (taken_whole s g todo _ (ap length h.0) n)
            ∙ ap
                (λ (out : List R). (
                  s,
                  out,
                  record { seq = g.seq; end_ = length (image k (past ++ todo)); complete = true }
                      ∷ cs,
                ))
                (sym over),
        (refl, inl (_, (refl, ground arith, over), t)),
      )

  -- A file with more records waiting than may be taken.
  Found-part :
      (now most : ℕ) (s : Spool) (g : Segment) (gs : List Segment) (past : List R) (r : R)
      (rs : List R) (bs : List (Block R))
      → HoldsBlock k s.read_seq s.read_offset g (past, r ∷ rs)
      → most < length rs
      → Found now (suc most) s (g ∷ gs) ((past, r ∷ rs) ∷ bs)
  unfolding backlog
  Found-part now most s g gs past r rs bs h l =
      let recs = r ∷ take most rs in
      let over : take (suc most) ((r ∷ rs) ++ backlog bs) ≡ recs =
        take_within (suc most) (r ∷ rs) (backlog bs) (omega arith) in
      let parted : past ++ r ∷ rs ≡ (past ++ recs) ++ drop most rs =
        ap (λ (l : List R). past ++ r ∷ l) (sym (take-drop most rs))
        ∙ sym (append_assoc past recs (drop most rs)) in
      let shorter : (leb (size g) (length (image k (past ++ recs)))) ≡ false = ground (
        arith,
        ap length h.0,
        ap (λ (l : List R). length (image k l)) parted,
        image_long k (past ++ recs) (drop most rs),
        length-drop most rs,
      ) in
      (
        record { seq = g.seq; end_ = length (image k (past ++ recs)); complete = false } ∷ [],
        turn_gives now most s g gs past (r ∷ rs) recs [] _ [] h refl
              (ap (λ (i : ℕ). next_loop k.crc32 k.unmarshal now gs i s)
                  (omega (arith, length-take most rs (omega arith)))
                ∙ next_loop_zero now s gs)
              (taken_part s g r (take most rs) _
                (ap (λ (b : Bool). b && (not (g.seq == s.active_seq) && true)) shorter))
            ∙ ap
                (λ (out : List R). (
                  s,
                  out,
                  record { seq = g.seq; end_ = length (image k (past ++ recs)); complete = false }
                      ∷ [],
                ))
                (append-nil recs ∙ sym over),
        (
          refl,
          inr (
            drop most rs,
            refl,
            refl,
            ap (λ (l : List R). r ∷ l) (sym (take-drop most rs))
                ∙ ap (λ (l : List R). l ++ drop most rs) (sym over),
            ap (λ (l : List R). length (image k (past ++ l))) (sym over),
          ),
        ),
      )

  -- The file that is written, when all that waits in it is taken.
  Found-newest :
      (now most : ℕ) (s : Spool) (g : Segment) (past todo : List R)
      → HoldsBlock k s.read_seq s.read_offset g (past, todo)
      → length todo ≤ suc most
      → (g.seq == s.active_seq) ≡ true
      → Found now (suc most) s (g ∷ []) ((past, todo) ∷ [])
  unfolding backlog next_loop
  Found-newest now most s g past [] h l n = (
    [],
    turn_gives now most s g [] past [] [] [] [] [] h refl refl (taken_nothing R s g _ n),
    refl,
  )
  Found-newest now most s g past (r ∷ rs) h l n =
      let all : take (suc most) ((r ∷ rs) ++ []) ≡ r ∷ rs =
        ap (take (suc most)) (append-nil (r ∷ rs)) ∙ take_all (suc most) (r ∷ rs) l in
      (
        record { seq = g.seq; end_ = length (image k (past ++ r ∷ rs)); complete = false } ∷ [],
        turn_gives now most s g [] past (r ∷ rs) (r ∷ rs) [] _ [] h (take_all (suc most) (r ∷ rs) l)
              refl (taken_part s g r rs _ (ground (arith, n)))
            ∙ ap
                (λ (out : List R). (
                  s,
                  out,
                  record { seq = g.seq; end_ = length (image k (past ++ r ∷ rs)); complete = false }
                      ∷ [],
                ))
                (append-nil (r ∷ rs) ∙ sym all),
        (
          refl,
          inr (
            [],
            refl,
            refl,
            sym (append-nil (r ∷ rs)) ∙ ap (λ (l : List R). l ++ []) (sym all),
            ap (λ (l : List R). length (image k (past ++ l))) (sym all),
          ),
        ),
      )

  Found-alone :
      (now most : ℕ) (s : Spool) (g : Segment) (gs : List Segment) (past todo : List R)
      (bs : List (Block R))
      → Holds k s.read_seq s.read_offset (g ∷ gs) ((past, todo) ∷ bs)
      → Newest s.active_seq (g ∷ gs)
      → length todo ≤ suc most
      → (g.seq == s.active_seq) ≡ true
      → Found now (suc most) s (g ∷ gs) ((past, todo) ∷ bs)
  Found-alone now most s g [] past todo [] h n l a = Found-newest now most s g past todo h.0 l a
  Found-alone now most s g [] past todo (b ∷ bs) h n l a = elim h.1 [ ]
  Found-alone now most s g (f ∷ gs) past todo bs h n l a = absurd (n.0 (ground arith))

  Found-longer :
      (now most : ℕ) (s : Spool) (g : Segment) (gs : List Segment) (past todo : List R)
      (bs : List (Block R))
      → HoldsBlock k s.read_seq s.read_offset g (past, todo)
      → leb (length todo) (suc most) ≡ false
      → Found now (suc most) s (g ∷ gs) ((past, todo) ∷ bs)
  Found-longer now most s g gs past [] bs h l = ground arith
  Found-longer now most s g gs past (r ∷ rs) bs h l =
      Found-part now most s g gs past r rs bs h (ground arith)

  pub next_loop-Holds :
      (now most : ℕ) (s : Spool) (gs : List Segment) (bs : List (Block R))
      → Holds k s.read_seq s.read_offset gs bs
      → Newest s.active_seq gs
      → Found now most s gs bs
  unfolding next_loop backlog
  next_loop-Holds now zero s [] [] h n = ([], refl, refl)
  next_loop-Holds now (suc most) s [] [] h n = ([], refl, refl)
  next_loop-Holds now most s [] (b ∷ bs) h n = elim h [ ]
  next_loop-Holds now most s (g ∷ gs) [] h n = elim h [ ]
  next_loop-Holds now zero s (g ∷ gs) (b ∷ bs) h n = ([], refl, refl)
  next_loop-Holds now (suc most) s (g ∷ gs) ((past, todo) ∷ bs) h n =
      elim (Bool-cases (leb (length todo) (suc most))) [
        | inl l ↦ elim (Bool-cases (g.seq == s.active_seq)) [
          | inl a ↦ Found-alone now most s g gs past todo bs h n (leb→le _ _ l) a
          | inr a ↦ Found-whole now most s g gs past todo bs h.0 (leb→le _ _ l) a (
              next_loop-Holds now (suc most - length todo) s gs bs h.1
                (Newest-later s.active_seq g gs n))
        ]
        | inr l ↦ Found-longer now most s g gs past todo bs h.0 l
      ]
