-- ===== src/PathMtu/Network.antt =====
-- The search on a path that behaves (internal/agent/probes/pathmtu.go): no reply is lost or late,
-- so that each size gets one verdict. What the search finds, and how many sizes it tests.
use polarbeam.Base.{
  ℕ, zero, suc, ◌+◌, ◌-◌, ◌≤◌, ◌<◌, ◌≡◌, ◌⊎◌, refl, sym, subst, Bool, true, false, none, some, List,
  [], ◌∷◌, length, arith, min, ap, ◌∙◌, Option-cases, inl, inr,
}
use polarbeam.PathMtu.{Verdict, ok, Search, new_search, is_done, next, record_verdict}
use polarbeam.PathMtu.Run.{record_verdict-max}
use polarbeam.PathMtu.Bracket.{
  IsBracket, new_search-IsBracket, next_inside, next-none, record_verdict-IsBracket,
  record_verdict_narrows,
}

-- What the path answers to a size: the verdict, and the MTU that a too-big message advertises.
abbrev pub Answer : Type 0
Answer = ℕ → Verdict × ℕ

-- sizeLoop with one verdict for each size, and the sizes that it tested.
unfoldable pub search_loop : ℕ → Answer → Search → Search × List ℕ
search_loop zero path s = (s, [])
search_loop (suc fuel) path s = elim (next s) [
  | none ↦ (s, [])
  | some n ↦
      let rest = search_loop fuel path (record_verdict s n (path n).0 (path n).1) in
      (rest.0, n ∷ rest.1)
]

-- The path delivers exactly the packets of at most `mtu` bytes.
abbrev pub Carries : Answer → ℕ → Type 0
Carries path mtu = (n : ℕ) → (n ≤ mtu → (path n).0 ≡ ok) × ((path n).0 ≡ ok → n ≤ mtu)

-- What is known so far agrees with the path.
abbrev pub Encloses : Search → ℕ → Type 0
Encloses s mtu = (s.lo ≤ mtu) × ((mtu < s.hi) ⊎ (s.max < s.hi))

record_verdict-Encloses :
    (s : Search) (n : ℕ) (v : Verdict) (adv mtu : ℕ)
    → ((n ≤ mtu → v ≡ ok) × (v ≡ ok → n ≤ mtu))
    → Encloses s mtu
    → Encloses (record_verdict s n v adv) mtu
unfolding record_verdict
record_verdict-Encloses s n v adv mtu c e = ground arith

-- The loop from `s` ended in `t`, having tested so many sizes.
pub record Found (s t : Search) (mtu tests : ℕ) : Type 0 where
  pub finished : is_done t ≡ true
  pub bracket : IsBracket t
  pub encloses : Encloses t mtu
  pub same_min : t.min ≡ s.min
  pub same_max : t.max ≡ s.max
  pub few : tests ≤ s.hi - s.lo

Found-next :
    (s t : Search) (n adv mtu tests : ℕ) (v : Verdict)
    → s.lo < n
    → n < s.hi
    → Found (record_verdict s n v adv) t mtu tests
    → Found s t mtu (suc tests)
Found-next s t n adv mtu tests v a b h = record {
  finished = h.finished;
  bracket = h.bracket;
  encloses = h.encloses;
  same_min = h.same_min ∙ (record_verdict-max s n v adv).1;
  same_max = h.same_max ∙ (record_verdict-max s n v adv).0;
  few = omega (arith, h.few, record_verdict_narrows s n v adv a b);
}

abbrev pub through : ℕ → Search × List ℕ → Search × List ℕ
through n rest = (rest.0, n ∷ rest.1)

pub search_loop-none :
    (fuel : ℕ) (path : Answer) (s : Search)
    → next s ≡ none
    → search_loop (suc fuel) path s ≡ (s, [])
unfolding search_loop
search_loop-none fuel path s e = rw (e, search_loop)

pub search_loop-some :
    (fuel : ℕ) (path : Answer) (s : Search) (n : ℕ)
    → next s ≡ some n
    → search_loop (suc fuel) path s
      ≡ through n (search_loop fuel path (record_verdict s n (path n).0 (path n).1))
unfolding search_loop
search_loop-some fuel path s n e = rw (e, search_loop)

abbrev FoundBy : Search → ℕ → Search × List ℕ → Type 0
FoundBy s mtu r = Found s r.0 mtu (length r.1)

search_loop-Found :
    (fuel : ℕ) (path : Answer) (s : Search) (mtu : ℕ)
    → Carries path mtu
    → IsBracket s
    → Encloses s mtu
    → s.hi - s.lo < fuel
    → FoundBy s mtu (search_loop fuel path s)
search_loop-Found zero path s mtu c b e l = elim l [ ]
search_loop-Found (suc fuel) path s mtu c b e l = elim (Option-cases (next s)) [
  | inl q ↦ subst (FoundBy s mtu) (sym (search_loop-none fuel path s q)) (record {
    finished = (next-none s b).0 q;
    bracket = b;
    encloses = e;
    same_min = refl;
    same_max = refl;
    few = omega arith;
  })
  | inr (n, q) ↦
      let i = next_inside s n b q in
      let v = (path n).0 in
      let adv = (path n).1 in
      subst (FoundBy s mtu) (sym (search_loop-some fuel path s n q)) (
        Found-next s _ n adv mtu _ v i.0 i.1 (
          search_loop-Found fuel path (record_verdict s n v adv) mtu c
            (record_verdict-IsBracket s n v adv b i.2 i.3 i.5)
            (record_verdict-Encloses s n v adv mtu (c n) e)
            (omega (arith, record_verdict_narrows s n v adv i.0 i.1))))
]

found_size :
    (t : Search) (mtu : ℕ)
    → IsBracket t
    → Encloses t mtu
    → is_done t ≡ true
    → t.adv_confirmed ≡ false
    → t.min ≤ mtu
    → t.lo ≡ min mtu t.max
unfolding is_done
found_size t mtu b e d n l = ground (arith, e.0, e.1)

-- On a path that carries exactly the packets of at most `mtu` bytes, whatever MTUs its ICMP errors
-- advertise, a loop with fuel `highest` + 2 ends with the search done after at most `highest` + 1
-- sizes. What it found is never above the path's MTU; and unless it stopped at an advertised MTU
-- that it had confirmed, it found the lesser of the path's MTU and `highest`, or nothing if
-- even `lowest` does not pass.
pub search_loop_finds :
    (path : Answer) (lowest highest mtu : ℕ) (v6 : Bool)
    → 0 < lowest
    → lowest < highest
    → Carries path mtu
    → let (t, sizes) = search_loop (highest + 2) path (new_search lowest highest v6) in
      (is_done t ≡ true)
      × (length sizes ≤ highest + 1)
      × (t.lo ≤ mtu)
      × (t.adv_confirmed ≡ false → mtu < lowest → t.lo ≡ 0)
      × (t.adv_confirmed ≡ false → lowest ≤ mtu → t.lo ≡ min mtu highest)
search_loop_finds path lowest highest mtu v6 a b c =
    let s = new_search lowest highest v6 in
    let h =
      search_loop-Found (highest + 2) path s mtu c (new_search-IsBracket lowest highest v6 a b)
        (omega arith) (omega arith) in
    let t = (search_loop (highest + 2) path s).0 in
    (
      h.finished,
      omega (arith, h.few),
      h.encloses.0,
      (λ n l. omega (arith, h.bracket.reached, h.encloses.0, h.same_min)),
      (λ n l.
          found_size t mtu h.bracket h.encloses h.finished n (rw h.same_min l)
          ∙ ap (min mtu) h.same_max),
    )
