-- ===== src/Spool/Segments/Blocks.antt =====
-- What well-formed segment files hold (internal/agent/spool/spool.go): each file is records read
-- and acknowledged, and records that still wait.
use polarbeam.Base.{
  ℕ, suc, ◌+◌, ◌^◌, ◌≤◌, ◌<◌, ◌≡◌, refl, sym, ap, ◌∙◌, ◌⊎◌, Bool, true, false, Option, some, List,
  [], ◌∷◌, ◌++◌, map, All, length, length-append, take, take_all, length-map, arith, ap₂, max,
}
use mathlib.Core.List.{append_assoc, append-nil}
use polarbeam.Spool.Frames.{max_record_bytes, read_record, read_segment, Read, frame}
use polarbeam.Spool.Frames.Replay.{frames, frames_long}
use polarbeam.Spool.Frames.Torn.{read_segment-written}
use polarbeam.Spool.Segments.{Spool, start}
use polarbeam.Spool.Files.{Segment}

-- The files are in the order of their numbers, which lie from `lo` on and below `next`.
abbrev pub Ascends : ℕ → ℕ → List Segment → Type 0
Ascends lo next [] = Unit
Ascends lo next (g ∷ gs) = (lo ≤ g.seq) × (g.seq < next) × Ascends (suc g.seq) next gs

-- The last file has this number.
abbrev pub EndsAt : ℕ → List Segment → Type 0
EndsAt seq [] = ⊥
EndsAt seq (g ∷ []) = g.seq ≡ seq
EndsAt seq (g ∷ h ∷ gs) = EndsAt seq (h ∷ gs)

-- Numbers above the file that is read from stay where they are.
pub Ascends-lower :
    (lo lo' next : ℕ) (gs : List Segment) → lo' ≤ lo → Ascends lo next gs → Ascends lo' next gs
Ascends-lower lo lo' next [] l a = tt
Ascends-lower lo lo' next (g ∷ gs) l a = (omega arith, a.1, a.2)

-- The checksum and the encoding of results, which are not the program's, and what the spool relies
-- on: a checksum is a uint32, and decoding gives back what was encoded.
pub record Codec {ℓ} (R : Type ℓ) : Type ℓ where
  pub crc32 : List ℕ → ℕ
  pub marshal : R → List ℕ
  pub unmarshal : List ℕ → Option R
  pub bound : (bs : List ℕ) → crc32 bs < 2 ^ 32
  pub decodes : (r : R) → unmarshal (marshal r) ≡ some r

-- The records of a file before the offset from which it is read, and those behind it.
abbrev pub Block {ℓ} : Type ℓ → Type ℓ
Block R = List R × List R

-- The records that wait, oldest first.
unfoldable pub backlog {ℓ} : {R : Type ℓ} → List (Block R) → List R
backlog [] = []
backlog (b ∷ bs) = b.1 ++ backlog bs

module _ {ℓ} {R : Type ℓ} (k : Codec R) where
  -- The bytes of these records.
  abbrev pub image : List R → List ℕ
  image rs = frames k.crc32 k.bound (map k.marshal rs)

  abbrev pub Fit : List R → Type 0
  Fit rs = All (λ (p : List ℕ). length p ≤ max_record_bytes) (map k.marshal rs)

  abbrev pub HoldsBlock : ℕ → ℕ → Segment → Block R → Type 0
  HoldsBlock read_seq read_offset g (past, todo) =
      (g.bytes ≡ image (past ++ todo))
      × (start read_seq read_offset g.seq ≡ length (image past))
      × Fit (past ++ todo)

  abbrev pub Holds : ℕ → ℕ → List Segment → List (Block R) → Type 0
  Holds read_seq read_offset [] [] = Unit
  Holds read_seq read_offset (g ∷ gs) (b ∷ bs) =
      HoldsBlock read_seq read_offset g b × Holds read_seq read_offset gs bs
  Holds _ _ _ _ = ⊥

  pub record IsSound (s : Spool) (bs : List (Block R)) : Type 0 where
    pub holds : Holds s.read_seq s.read_offset s.files bs
    pub ascends : Ascends (max 1 s.read_seq) s.next_seq s.files
    pub newest : (s.active_seq ≡ 0) ⊎ (suc s.active_seq ≡ s.next_seq)
    pub read : s.read_seq < s.next_seq
    pub opened : s.active ≡ true → EndsAt s.active_seq s.files

  -- What a read from the beginning to the end would give: the files from where each is read.
  unfoldable pub unread : ℕ → ℕ → List Segment → List R
  unread read_seq read_offset [] = []
  unread read_seq read_offset (g ∷ gs) =
      (read_segment k.crc32 k.unmarshal g.bytes (start read_seq read_offset g.seq)
        (length g.bytes)).0
      ++ unread read_seq read_offset gs

  -- The records that the spool holds for the server.
  unfoldable pub queue : Spool → List R
  queue s = unread s.read_seq s.read_offset s.files

  pub image-append : (xs ys : List R) → image (xs ++ ys) ≡ image xs ++ image ys
  unfolding frames
  image-append [] ys = refl
  image-append (x ∷ xs) ys =
      ap (λ (l : List ℕ). frame k.crc32 (k.marshal x) ++ l) (image-append xs ys)
      ∙ sym (append_assoc (frame k.crc32 (k.marshal x)) (image xs) (image ys))

  Fit-later : (xs ys : List R) → Fit (xs ++ ys) → Fit ys
  Fit-later [] ys h = h
  Fit-later (x ∷ xs) ys h = Fit-later xs ys h.1

  -- A file of whole records has no torn tail to find.
  read_image :
      (past todo : List R) (most : ℕ)
      → Fit (past ++ todo)
      → read_segment k.crc32 k.unmarshal (image (past ++ todo)) (length (image past)) most
        ≡ (take most todo, length (image (past ++ take most todo)), false)
  unfolding read_record
  read_image past todo most h =
      ap (λ (bs : List ℕ). read_segment k.crc32 k.unmarshal bs (length (image past)) most)
        (image-append past todo
          ∙ ap (λ (l : List ℕ). image past ++ l) (sym (append-nil (image todo))))
      ∙ read_segment-written k.crc32 k.bound k.marshal k.unmarshal k.decodes past todo [] most
          (Fit-later past todo h) refl
      ∙ ap₂ (λ (n : ℕ) (b : Bool). (take most todo, n, b))
          (omega (
            arith,
            length-append (image past) (image (take most todo)),
            ap length (image-append past (take most todo)),
          ))
          (ground arith)

  -- A read of a block takes the first `most` waiting records, and finds no corrupt tail.
  pub read-HoldsBlock :
      (read_seq read_offset most : ℕ) (g : Segment) (past todo : List R)
      → HoldsBlock read_seq read_offset g (past, todo)
      → read_segment k.crc32 k.unmarshal g.bytes (start read_seq read_offset g.seq) most
        ≡ (take most todo, length (image (past ++ take most todo)), false)
  read-HoldsBlock read_seq read_offset most g past todo h =
      ap₂ (λ (bs : List ℕ) (n : ℕ). read_segment k.crc32 k.unmarshal bs n most) h.0 h.1
      ∙ read_image past todo most h.2

  -- Each record has its bytes.
  pub image_long :
      (past todo : List R) → length (image past) + length todo ≤ length (image (past ++ todo))
  image_long past todo = omega (
    arith,
    ap length (image-append past todo),
    length-append (image past) (image todo),
    frames_long k.crc32 k.bound (map k.marshal todo),
    length-map k.marshal todo,
  )

  unread-Holds :
      (read_seq read_offset : ℕ) (gs : List Segment) (bs : List (Block R))
      → Holds read_seq read_offset gs bs
      → unread read_seq read_offset gs ≡ backlog bs
  unfolding unread backlog
  unread-Holds read_seq read_offset [] [] h = refl
  unread-Holds read_seq read_offset (g ∷ gs) ((past, todo) ∷ bs) h =
      ap₂ (λ (a b : List R). a ++ b)
        (ap (λ (r : Read R). r.0)
            (read-HoldsBlock read_seq read_offset (length g.bytes) g past todo h.0)
          ∙ take_all (length g.bytes) todo (omega (arith, ap length h.0.0, image_long past todo)))
        (unread-Holds read_seq read_offset gs bs h.1)
  unread-Holds read_seq read_offset [] (b ∷ bs) h = elim h [ ]
  unread-Holds read_seq read_offset (g ∷ gs) [] h = elim h [ ]

  -- What is read from the bytes is what the blocks have waiting.
  pub queue-IsSound : (s : Spool) (bs : List (Block R)) → IsSound s bs → queue s ≡ backlog bs
  unfolding queue
  queue-IsSound s bs h = unread-Holds s.read_seq s.read_offset s.files bs h.holds
