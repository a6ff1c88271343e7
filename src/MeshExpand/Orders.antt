-- ===== src/MeshExpand/Orders.antt =====
-- Lists of specs by their probe id (internal/server/meshexpand/meshexpand.go): what a permutation keeps,
-- and what the sort and the test behind it settle.
use polarbeam.Base.{
  ℕ, ◌≤◌, ◌<◌, ◌≡◌, ◌≢◌, ◌⊎◌, refl, sym, ap, ap₂, subst, ◌∙◌, Bool, Option, none, some, List, [],
  ◌∷◌, Bool-cases, inl, inr, All, All-map, arith, ◌==◌, if◌then◌else◌,
}
use polarbeam.MeshExpand.{ProbeSpec, first_duplicate}
use mathlib.Core.List.{Permᴰ}

abbrev pub In : ProbeSpec → List ProbeSpec → Type 0
In x [] = ⊥
In x (y ∷ ys) = (x ≡ y) ⊎ In x ys

-- No two specs have one id.
abbrev pub Distinct : List ProbeSpec → Type 0
Distinct [] = Unit
Distinct (x ∷ xs) = All (λ y. y.probe_id ≢ x.probe_id) xs × Distinct xs

-- What `sort.Slice` promises.
abbrev pub Ascends : List ProbeSpec → Type 0
Ascends [] = Unit
Ascends (x ∷ xs) = All (λ y. x.probe_id ≤ y.probe_id) xs × Ascends xs

abbrev pub Rises : List ProbeSpec → Type 0
Rises [] = Unit
Rises (x ∷ xs) = All (λ y. x.probe_id < y.probe_id) xs × Rises xs

pub Perm-In : {xs ys : List ProbeSpec} (x : ProbeSpec) → Permᴰ xs ys → In x xs → In x ys
Perm-In x Permᴰ.nil h = h
Perm-In x (Permᴰ.cons e d) (inl q) = inl (q ∙ e)
Perm-In x (Permᴰ.cons e d) (inr h) = inr (Perm-In x d h)
Perm-In x (Permᴰ.swap e f) (inl q) = inr (inl (q ∙ e))
Perm-In x (Permᴰ.swap e f) (inr (inl q)) = inl (q ∙ f)
Perm-In x (Permᴰ.swap e f) (inr (inr h)) = inr (inr h)
Perm-In x (Permᴰ.trans c d) h = Perm-In x d (Perm-In x c h)

Perm-All : {xs ys : List ProbeSpec} (P : ProbeSpec → Type 0) → Permᴰ xs ys → All P xs → All P ys
Perm-All P Permᴰ.nil h = h
Perm-All P (Permᴰ.cons e d) h = (subst P e h.0, Perm-All P d h.1)
Perm-All P (Permᴰ.swap e f) h = (subst P f h.1.0, (subst P e h.0, h.1.1))
Perm-All P (Permᴰ.trans c d) h = Perm-All P d (Perm-All P c h)

apart_from :
    {a b : ProbeSpec} (xs : List ProbeSpec)
    → a ≡ b
    → All (λ y. y.probe_id ≢ a.probe_id) xs
    → All (λ y. y.probe_id ≢ b.probe_id) xs
apart_from xs e h = subst (λ c. All (λ y. y.probe_id ≢ c.probe_id) xs) e h

pub Perm-Distinct : {xs ys : List ProbeSpec} → Permᴰ xs ys → Distinct xs → Distinct ys
Perm-Distinct Permᴰ.nil h = h
Perm-Distinct (Permᴰ.cons {a} {b} {l₁} {l₂} e d) h =
    (apart_from l₂ e (Perm-All (λ y. y.probe_id ≢ a.probe_id) d h.0), Perm-Distinct d h.1)
Perm-Distinct (Permᴰ.swap {a} {b} {a'} {b'} {l} e f) h = (
  (
    λ q. h.0.0 (ap (λ c. c.probe_id) f ∙ sym q ∙ ap (λ c. c.probe_id) (sym e)),
    apart_from l f h.1.0,
  ),
  (apart_from l e h.0.1, h.1.1),
)
Perm-Distinct (Permᴰ.trans c d) h = Perm-Distinct d (Perm-Distinct c h)

All-In : (P : ProbeSpec → Type 0) (x : ProbeSpec) (xs : List ProbeSpec) → All P xs → In x xs → P x
All-In P x (y ∷ ys) a (inl q) = subst P (sym q) a.0
All-In P x (y ∷ ys) a (inr h) = All-In P x ys a.1 h
All-In P x [] a h = absurd h

Rises-heads :
    (x y : ProbeSpec) (xs ys : List ProbeSpec)
    → Rises (x ∷ xs)
    → Rises (y ∷ ys)
    → In x (y ∷ ys)
    → In y (x ∷ xs)
    → x ≡ y
Rises-heads x y xs ys r s (inl q) h = q
Rises-heads x y xs ys r s (inr k) (inl q) = sym q
Rises-heads x y xs ys r s (inr k) (inr h) = absurd (
    omega (
      arith,
      All-In (λ z. x.probe_id < z.probe_id) y xs r.0 h,
      All-In (λ z. y.probe_id < z.probe_id) x ys s.0 k,
    ))

In-tail :
    (x y z : ProbeSpec) (xs ys : List ProbeSpec)
    → x ≡ y
    → Rises (x ∷ xs)
    → In z xs
    → In z (y ∷ ys)
    → In z ys
In-tail x y z xs ys e r h (inr k) = k
In-tail x y z xs ys e r h (inl q) = absurd (
    omega
      (arith, All-In (λ v. x.probe_id < v.probe_id) z xs r.0 h, ap (λ v. v.probe_id) (q ∙ sym e)))

-- Rising lists with the same specs are the same list.
pub Rises-unique :
    (xs ys : List ProbeSpec)
    → Rises xs
    → Rises ys
    → ((x : ProbeSpec) → In x xs → In x ys)
    → ((y : ProbeSpec) → In y ys → In y xs)
    → xs ≡ ys
Rises-unique [] [] r s f g = refl
Rises-unique [] (y ∷ ys) r s f g = absurd (g y (inl refl))
Rises-unique (x ∷ xs) [] r s f g = absurd (f x (inl refl))
Rises-unique (x ∷ xs) (y ∷ ys) r s f g =
    let e = Rises-heads x y xs ys r s (f x (inl refl)) (g y (inl refl)) in
    ap₂ ◌∷◌ e (
      Rises-unique xs ys r.1 s.1 (λ z h. In-tail x y z xs ys e r h (f z (inr h)))
        (λ z h. In-tail y x z ys xs (sym e) s h (g z (inr h))))

above :
    (x : ProbeSpec) (ys : List ProbeSpec)
    → All (λ y. x.probe_id ≤ y.probe_id) ys
    → All (λ y. y.probe_id ≢ x.probe_id) ys
    → All (λ y. x.probe_id < y.probe_id) ys
above x [] a d = tt
above x (y ∷ ys) a d = (omega (arith, a.0, d.0), above x ys a.1 d.1)

-- Sorted specs of different ids rise, and then no two neighbours have one id.
pub Ascends-Rises : (xs : List ProbeSpec) → Ascends xs → Distinct xs → Rises xs
Ascends-Rises [] a d = tt
Ascends-Rises (x ∷ xs) a d = (above x xs a.0 d.0, Ascends-Rises xs a.1 d.1)

pub Rises-Distinct : (xs : List ProbeSpec) → Rises xs → Distinct xs
Rises-Distinct [] r = tt
Rises-Distinct (x ∷ xs) r = (All-map (λ y l q. omega (arith, l, q)) xs r.0, Rises-Distinct xs r.1)

pub first_duplicate-none : (xs : List ProbeSpec) → Rises xs → first_duplicate xs ≡ none
unfolding first_duplicate
first_duplicate-none [] r = refl
first_duplicate-none (x ∷ []) r = refl
first_duplicate-none (x ∷ y ∷ xs) r = ground (arith, r.0.0, first_duplicate-none (y ∷ xs) r.1)

pub first_duplicate-Rises :
    (xs : List ProbeSpec) → Ascends xs → first_duplicate xs ≡ none → Rises xs
unfolding first_duplicate
first_duplicate-Rises [] a e = tt
first_duplicate-Rises (x ∷ []) a e = (tt, tt)
first_duplicate-Rises (x ∷ y ∷ xs) a e = elim (Bool-cases (y.probe_id == x.probe_id)) [
  | inl t ↦ absurd (cc (e, t))
  | inr t ↦
      let next : Bool → Option ℕ = λ b. if b then some y.probe_id else first_duplicate (y ∷ xs) in
      let rest = first_duplicate-Rises (y ∷ xs) a.1 (sym (ap next t) ∙ e) in
      let l : x.probe_id < y.probe_id = ground (arith, a.0.0, t) in
      ((l, All-map (λ z m. omega (arith, l, m)) xs rest.0), rest)
]
