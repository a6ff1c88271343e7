-- ===== src/Syslog/Format/Cutting.antt =====
-- A syslog message or value that is too long is cut at a rune (internal/server/syslogfwd/format.go).
use polarbeam.Base.{
  ℕ, zero, suc, ◌≤◌, ◌<◌, ◌≡◌, ◌⊎◌, refl, ap, subst, Bool, true, false, Bool-cases, inl, inr, List,
  [], ◌∷◌, ◌++◌, length, length-append, take, arith, leb, if◌then◌else◌,
}
use polarbeam.Syslog.Format.{
  rune_start, byte_at, cut_back, clip_runes, max_message_bytes, truncated_mark, truncate,
}

-- The greatest place up to `limit` where a rune starts, or the beginning.
pub record IsCut (s : List ℕ) (limit cut : ℕ) : Type 0 where
  pub within : cut ≤ limit
  pub at_rune : (cut ≡ 0) ⊎ (rune_start (byte_at s cut) ≡ true)
  pub greatest : (j : ℕ) → cut < j → j ≤ limit → rune_start (byte_at s j) ≡ false

next-IsCut :
    (s : List ℕ) (n lower : ℕ) (b : Bool)
    → rune_start (byte_at s (suc n)) ≡ b
    → IsCut s n lower
    → IsCut s (suc n) (if b then suc n else lower)
next-IsCut s n lower true e h = record {
  within = omega arith;
  at_rune = inr e;
  greatest = λ j l m. absurd (omega (arith, l, m));
}
next-IsCut s n lower false e h = record {
  within = omega (arith, h.within);
  at_rune = h.at_rune;
  greatest = λ j l m. elim (Bool-cases (leb j n)) [
    | inl t ↦ h.greatest j l (ground (arith, t))
    | inr t ↦
        let last : suc n ≡ j = ground (arith, t, m) in
        subst (λ k. rune_start (byte_at s k) ≡ false) last e
  ];
}

cut_back-IsCut : (s : List ℕ) (n : ℕ) → IsCut s n (cut_back s n)
unfolding cut_back
cut_back-IsCut s zero = record {
  within = omega arith;
  at_rune = inl refl;
  greatest = λ j l m. absurd (omega (arith, l, m));
}
cut_back-IsCut s (suc n) =
    next-IsCut s n (cut_back s n) (rune_start (byte_at s (suc n))) refl (cut_back-IsCut s n)

length-take : (n : ℕ) (s : List ℕ) → length (take n s) ≤ n
length-take zero s = omega arith
length-take (suc n) [] = omega arith
length-take (suc n) (c ∷ s) = omega (arith, length-take n s)

leb_over : (a b : ℕ) → leb a b ≡ false → b < a
leb_over a b e = ground (arith, e)

-- A value clipped to `limit` bytes: it is the value itself where that is no longer, and else it stops at
-- the last rune that starts in the limit.
pub clip_runes-IsCut :
    (s : List ℕ) (limit : ℕ)
    → ((length s ≤ limit) × (clip_runes s limit ≡ s))
      ⊎ ((limit < length s) × (cut : ℕ) × IsCut s limit cut × (clip_runes s limit ≡ take cut s))
unfolding clip_runes
clip_runes-IsCut s limit = elim (Bool-cases (leb (length s) limit)) [
  | inl t ↦ inl (ground (arith, t), simp t refl)
  | inr t ↦ inr (ground (arith, t), cut_back s limit, cut_back-IsCut s limit, simp t refl)
]

-- A message never leaves with more bytes than the greatest message: it is the message itself where that
-- is no longer, and else it stops at the last rune that starts before the mark, which follows.
pub truncate-IsCut :
    (msg : List ℕ)
    → (length (truncate msg) ≤ max_message_bytes)
      × (((length msg ≤ max_message_bytes) × (truncate msg ≡ msg))
          ⊎ ((max_message_bytes < length msg)
              × (cut : ℕ) × IsCut msg 8180 cut
              × (truncate msg ≡ take cut msg ++ truncated_mark)))
unfolding truncate
truncate-IsCut msg = elim (Bool-cases (leb (length msg) max_message_bytes)) [
  | inl t ↦
      let l : length msg ≤ max_message_bytes = ground (arith, t) in (simp t l, inl (l, simp t refl))
  | inr t ↦
      let cut = cut_back msg 8180 in
      let c = cut_back-IsCut msg 8180 in
      let e : truncate msg ≡ take cut msg ++ truncated_mark = simp t refl in
      (
        omega (
          arith,
          ap length e,
          length-append (take cut msg) truncated_mark,
          length-take cut msg,
          c.within,
        ),
        inr (leb_over (length msg) max_message_bytes t, cut, c, e),
      )
]
