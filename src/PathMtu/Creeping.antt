-- ===== src/PathMtu/Creeping.antt =====
-- A path whose ICMP errors always advertise one byte less than the packet that they answer
-- (internal/agent/probes/pathmtu.go): the search follows each advertised MTU.
use polarbeam.Base.{
  ℕ, zero, suc, ◌+◌, ◌-◌, ◌≤◌, ◌<◌, ◌≡◌, ap, subst, ◌∙◌, true, false, none, some, List, [], ◌∷◌,
  arith, leb, if◌then◌else◌,
}
use polarbeam.PathMtu.{Verdict, ok, too_big, by_too_big, Search, new_search, next, record_verdict}
use polarbeam.PathMtu.Network.{Answer, search_loop, search_loop-none, search_loop-some}

abbrev pub creeping : ℕ → Answer
creeping lowest n = if leb n lowest then (ok, 0) else (too_big, n - 1)

-- Everything above `lowest` + d failed, and `lowest` + d was advertised.
record IsCreeping (lowest d : ℕ) (s : Search) : Type 0 where
  above : 0 < lowest
  family : s.v6 ≡ false
  low : s.min ≡ lowest
  top : lowest + d < s.max
  nothing : s.lo ≡ 0
  bound : s.hi ≡ lowest + d + 1
  why : s.cause ≡ by_too_big
  advertised : s.next_hop_mtu ≡ lowest + d
  follow : s.override ≡ lowest + d
  fresh : (n : ℕ) → n < s.hi → s.tested n ≡ false
  started : s.tested s.max ≡ true
  open_end : s.adv_confirmed ≡ false

creeping_next :
    (lowest d : ℕ) (s : Search) → 68 ≤ lowest → IsCreeping lowest d s → next s ≡ some (lowest + d)
unfolding next
creeping_next lowest d s f h = ground (arith, h.fresh (lowest + d))

IsCreeping-step :
    (lowest d : ℕ) (s : Search)
    → 68 ≤ lowest
    → IsCreeping lowest (suc d) s
    → IsCreeping lowest d (record_verdict s (lowest + suc d) too_big (lowest + suc d - 1))
unfolding record_verdict
IsCreeping-step lowest d s f h = ground arith

creeping_end :
    (lowest : ℕ) (s : Search)
    → 68 ≤ lowest
    → IsCreeping lowest 0 s
    → next (record_verdict s (lowest + 0) ok 0) ≡ none
unfolding record_verdict next
creeping_end lowest s f h = ground arith

creeping_low : (lowest : ℕ) → creeping lowest (lowest + 0) ≡ (ok, 0)
creeping_low lowest = ground arith

creeping_high : (lowest d : ℕ) → creeping lowest (lowest + suc d) ≡ (too_big, lowest + suc d - 1)
creeping_high lowest d = ground arith

-- A loop that tests `n`, with the answer `a`.
tests_one_more :
    (fuel lowest n : ℕ) (s : Search) (a : Verdict × ℕ) (ns : List ℕ)
    → next s ≡ some n
    → creeping lowest n ≡ a
    → (search_loop fuel (creeping lowest) (record_verdict s n a.0 a.1)).1 ≡ ns
    → (search_loop (suc fuel) (creeping lowest) s).1 ≡ n ∷ ns
tests_one_more fuel lowest n s a ns e c h =
    let rest =
      λ (b : Verdict × ℕ). search_loop fuel (creeping lowest) (record_verdict s n b.0 b.1) in
    ap (λ (r : Search × List ℕ). r.1) (search_loop-some fuel (creeping lowest) s n e)
    ∙ ap (λ (b : Verdict × ℕ). n ∷ (rest b).1) c
    ∙ ap (λ ks. n ∷ ks) h

-- The sizes from `lowest` + d down to `lowest`.
abbrev pub sizes_down : ℕ → ℕ → List ℕ
sizes_down lowest zero = (lowest + 0) ∷ []
sizes_down lowest (suc d) = (lowest + suc d) ∷ sizes_down lowest d

creeping_tests :
    (d fuel lowest : ℕ) (s : Search)
    → 68 ≤ lowest
    → d + 1 < fuel
    → IsCreeping lowest d s
    → (search_loop fuel (creeping lowest) s).1 ≡ sizes_down lowest d
creeping_tests zero zero lowest s f l h = elim l [ ]
creeping_tests zero (suc zero) lowest s f l h = absurd (omega arith)
creeping_tests zero (suc (suc fuel)) lowest s f l h =
    tests_one_more (suc fuel) lowest (lowest + 0) s (ok, 0) [] (creeping_next lowest 0 s f h)
      (creeping_low lowest)
      (ap (λ (r : Search × List ℕ). r.1)
        (search_loop-none fuel (creeping lowest) (record_verdict s (lowest + 0) ok 0)
          (creeping_end lowest s f h)))
creeping_tests (suc d) zero lowest s f l h = elim l [ ]
creeping_tests (suc d) (suc fuel) lowest s f l h =
    tests_one_more fuel lowest (lowest + suc d) s (too_big, lowest + suc d - 1)
      (sizes_down lowest d) (creeping_next lowest (suc d) s f h) (creeping_high lowest d)
      (creeping_tests d fuel lowest (record_verdict s (lowest + suc d) too_big (lowest + suc d - 1))
        f (omega arith) (IsCreeping-step lowest d s f h))

first_next :
    (lowest highest : ℕ)
    → lowest < highest
    → 0 < lowest
    → next (new_search lowest highest false) ≡ some highest
unfolding next
first_next lowest highest l p = ground arith

first_step :
    (lowest d : ℕ)
    → 68 ≤ lowest
    → IsCreeping lowest d (
        record_verdict
          (new_search lowest (lowest + suc d) false)
          (lowest + suc d)
          too_big
          (lowest + suc d - 1))
unfolding record_verdict
first_step lowest d f = ground arith

fuel_eq : (lowest d : ℕ) → suc (lowest + suc d + 1) ≡ lowest + suc d + 2
fuel_eq lowest d = omega arith

-- On a path that carries `lowest` bytes, 68 at least, and answers each larger packet by advertising
-- one byte less, an IPv4 search between `lowest` and a greater size tests exactly the sizes from the
-- greatest down to `lowest`, each one once, in that order, however many they are.
pub creeping_scan :
    (lowest d : ℕ)
    → 68 ≤ lowest
    → (search_loop
        (lowest + suc d + 2)
        (creeping lowest)
        (new_search lowest (lowest + suc d) false)).1
      ≡ sizes_down lowest (suc d)
creeping_scan lowest d f =
    subst
      (λ (k : ℕ).
        (search_loop k (creeping lowest) (new_search lowest (lowest + suc d) false)).1
        ≡ sizes_down lowest (suc d))
      (fuel_eq lowest d)
      (tests_one_more (lowest + suc d + 1) lowest (lowest + suc d)
        (new_search lowest (lowest + suc d) false) (too_big, lowest + suc d - 1)
        (sizes_down lowest d) (first_next lowest (lowest + suc d) (omega arith) (omega arith))
        (creeping_high lowest d)
        (creeping_tests d (lowest + suc d + 1) lowest _ f (omega arith) (first_step lowest d f)))
