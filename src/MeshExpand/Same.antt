-- ===== src/MeshExpand/Same.antt =====
-- The snapshot does not depend on the order of the rows, and its ids are different
-- (internal/server/meshexpand/meshexpand.go).
use polarbeam.Base.{ℕ, ◌≡◌, ap, ◌⊎◌, Option, none, some, List, Option-cases, inl, inr}
use polarbeam.MeshExpand.{
  Inputs, ProbeSpec, Snapshot, Built, duplicate, built, Calls, first_duplicate, hash_input,
  all_specs, checked, build_snapshot,
}
use polarbeam.MeshExpand.Orders.{
  Distinct, Ascends, Rises, Perm-In, Perm-Distinct, Rises-unique, Ascends-Rises, Rises-Distinct,
  first_duplicate-none, first_duplicate-Rises,
}
use polarbeam.MeshExpand.Expanded.{Reordered, all_specs-Perm}
use mathlib.Core.List.{Permᴰ}
use mathlib.Core.List.Permᴰ as P

-- What `sort.Slice` does with `specs[i].ProbeId < specs[j].ProbeId`: it is not stable.
pub record Sorts (sort_slice : List ProbeSpec → List ProbeSpec) : Type 0 where
  pub perm : (xs : List ProbeSpec) → Permᴰ (sort_slice xs) xs
  pub order : (xs : List ProbeSpec) → Ascends (sort_slice xs)

-- The same snapshot, or both an error of the same agent.
abbrev pub SameBuilt : Built → Built → Type 0
SameBuilt (built s) (built t) = s ≡ t
SameBuilt (duplicate i a) (duplicate j b) = a ≡ b
SameBuilt _ _ = ⊥

abbrev Bad : Option ℕ → Type 0
Bad o = (id : ℕ) × (o ≡ some id)

checked-same :
    (calls : Calls) (a b : ℕ) (xs ys : List ProbeSpec) (o p : Option ℕ)
    → a ≡ b
    → ((o ≡ none) × (p ≡ none) × (xs ≡ ys)) ⊎ (Bad o × Bad p)
    → SameBuilt (checked calls a xs o) (checked calls b ys p)
unfolding checked
checked-same calls a b xs ys none none e (inl h) =
    ap
      (λ specs. record {
        config_hash = calls.sha256_hex (hash_input calls.encode specs);
        probes = specs;
      })
      h.2
checked-same calls a b xs ys none none e (inr h) = absurd (cc (h.0.1))
checked-same calls a b xs ys none (some j) e (inl h) = absurd (cc (h.1))
checked-same calls a b xs ys none (some j) e (inr h) = absurd (cc (h.0.1))
checked-same calls a b xs ys (some i) none e (inl h) = absurd (cc (h.0))
checked-same calls a b xs ys (some i) none e (inr h) = absurd (cc (h.1.1))
checked-same calls a b xs ys (some i) (some j) e h = e

-- Of sorted specs, the test finds none exactly where they differ in their ids.
settled :
    (xs ys : List ProbeSpec)
    → Permᴰ xs ys
    → Ascends xs
    → Ascends ys
    → ((first_duplicate xs ≡ none) × (first_duplicate ys ≡ none) × (xs ≡ ys))
      ⊎ (Bad (first_duplicate xs) × Bad (first_duplicate ys))
settled xs ys d a b = elim (Option-cases (first_duplicate xs)) [
  | inl e ↦
      let r = first_duplicate-Rises xs a e in
      let s = Ascends-Rises ys b (Perm-Distinct d (Rises-Distinct xs r)) in
      inl (
        e,
        first_duplicate-none ys s,
        Rises-unique xs ys r s (λ x h. Perm-In x d h) (λ y h. Perm-In y (P.symm d) h),
      )
  | inr x ↦ elim (Option-cases (first_duplicate ys)) [
    | inl e ↦
        let s = first_duplicate-Rises ys b e in
        let r = Ascends-Rises xs a (Perm-Distinct (P.symm d) (Rises-Distinct ys s)) in
        absurd (cc (first_duplicate-none xs r, x.1))
    | inr y ↦ inr (x, y)
  ]
]

-- For a sort as documented: the same rows of an agent in another order give the same snapshot with the
-- same hash, or both an error.
pub build_snapshot-same :
    (calls : Calls) (i j : Inputs)
    → Sorts calls.sort_slice
    → Reordered i j
    → SameBuilt (build_snapshot calls i) (build_snapshot calls j)
unfolding build_snapshot
build_snapshot-same calls i j s r =
    let xs = calls.sort_slice (all_specs calls i) in
    let ys = calls.sort_slice (all_specs calls j) in
    checked-same calls i.agent_id j.agent_id xs ys (first_duplicate xs) (first_duplicate ys) r.agent
      (settled xs ys
        (Permᴰ.trans (s.perm (all_specs calls i))
          (Permᴰ.trans (all_specs-Perm calls i j r) (P.symm (s.perm (all_specs calls j)))))
        (s.order (all_specs calls i)) (s.order (all_specs calls j)))

-- For a sort as documented, where the expanded specs have different ids: the snapshot holds them all and
-- no other, by rising ids.
pub build_snapshot-Rises :
    (calls : Calls) (i : Inputs)
    → Sorts calls.sort_slice
    → Distinct (all_specs calls i)
    → (s : Snapshot) × (build_snapshot calls i ≡ built s)
      × Rises s.probes
      × Permᴰ s.probes (all_specs calls i)
unfolding build_snapshot checked
build_snapshot-Rises calls i s d =
    let specs = all_specs calls i in
    let xs = calls.sort_slice specs in
    let r = Ascends-Rises xs (s.order specs) (Perm-Distinct (P.symm (s.perm specs)) d) in
    (_, ap (checked calls i.agent_id xs) (first_duplicate-none xs r), r, s.perm specs)

-- For a sort as documented, where two of the expanded specs have one id: there is an error.
pub build_snapshot-duplicate :
    (calls : Calls) (i : Inputs)
    → Sorts calls.sort_slice
    → (Distinct (all_specs calls i) → ⊥)
    → (id : ℕ) × (build_snapshot calls i ≡ duplicate id i.agent_id)
unfolding build_snapshot checked
build_snapshot-duplicate calls i s n =
    let specs = all_specs calls i in
    let xs = calls.sort_slice specs in
    elim (Option-cases (first_duplicate xs)) [
      | inl e ↦ absurd (
          n (
            Perm-Distinct (s.perm specs)
              (Rises-Distinct xs (first_duplicate-Rises xs (s.order specs) e))))
      | inr x ↦ (x.0, ap (checked calls i.agent_id xs) x.1)
    ]
