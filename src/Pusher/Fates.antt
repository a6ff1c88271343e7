-- ===== src/Pusher/Fates.antt =====
-- What becomes of the records that leave the spool (internal/agent/uplink/pusher.go).
use polarbeam.Base.{
  ℕ, suc, ◌+◌, ◌≡◌, refl, ap, Bool, true, false, List, [], ◌∷◌, ◌++◌, length, All, All-map, arith,
}
use mathlib.Core.List.{Mem, mem-append_left, mem-append_right, mem-cons_self, mem-cons_of_mem}

-- What became of a record that no longer waits: acknowledged, or dropped.
abbrev pub Fates {ℓ} : Type ℓ → Type ℓ
Fates R = List (R × Bool)

abbrev pub all_of {ℓ} : {R : Type ℓ} → Fates R → List R
all_of [] = []
all_of (f ∷ fs) = f.0 ∷ all_of fs

-- How many of them were dropped.
unfoldable pub drops {ℓ} : {R : Type ℓ} → Fates R → ℕ
drops [] = 0
drops ((r, true) ∷ fs) = drops fs
drops ((r, false) ∷ fs) = suc (drops fs)

abbrev pub each {ℓ} : {R : Type ℓ} → Bool → List R → Fates R
each b [] = []
each b (r ∷ rs) = (r, b) ∷ each b rs

-- A record that was acknowledged was accepted by the server.
abbrev pub Delivered {ℓ} : {R : Type ℓ} → List R → R × Bool → Type ℓ
Delivered accepted (r, true) = Mem r accepted
Delivered accepted (r, false) = Unit

pub all_of-each {ℓ} :
    {R : Type ℓ} (b : Bool) (fs : Fates R) (rs : List R)
    → all_of (fs ++ each b rs) ≡ all_of fs ++ rs
all_of-each b [] [] = refl
all_of-each b [] (r ∷ rs) = ap (λ l. r ∷ l) (all_of-each b [] rs)
all_of-each b (f ∷ fs) rs = ap (λ l. f.0 ∷ l) (all_of-each b fs rs)

pub drops_delivered {ℓ} :
    {R : Type ℓ} (fs : Fates R) (rs : List R) → drops (fs ++ each true rs) ≡ drops fs
unfolding drops
drops_delivered [] [] = refl
drops_delivered [] (r ∷ rs) = drops_delivered [] rs
drops_delivered ((r, true) ∷ fs) rs = drops_delivered fs rs
drops_delivered ((r, false) ∷ fs) rs = ap suc (drops_delivered fs rs)

pub drops_more {ℓ} :
    {R : Type ℓ} (fs : Fates R) (rs : List R) → drops (fs ++ each false rs) ≡ drops fs + length rs
unfolding drops
drops_more [] [] = refl
drops_more [] (r ∷ rs) = omega (arith, drops_more [] rs)
drops_more ((r, true) ∷ fs) rs = drops_more fs rs
drops_more ((r, false) ∷ fs) rs = omega (arith, drops_more fs rs)

pub fates_dropped {ℓ} :
    {R : Type ℓ} (accepted rs : List R) → All (Delivered accepted) (each false rs)
fates_dropped accepted [] = tt
fates_dropped accepted (r ∷ rs) = (tt, fates_dropped accepted rs)

pub fates-Delivered {ℓ} :
    {R : Type ℓ} (accepted rs : List R)
    → All (λ r. Mem r accepted) rs
    → All (Delivered accepted) (each true rs)
fates-Delivered accepted [] h = tt
fates-Delivered accepted (r ∷ rs) h = (h.0, fates-Delivered accepted rs h.1)

-- What the server accepted it goes on having accepted.
pub Delivered-more {ℓ} :
    {R : Type ℓ} (accepted more : List R) (f : R × Bool)
    → Delivered accepted f
    → Delivered (accepted ++ more) f
Delivered-more accepted more (r, true) d = mem-append_left more d
Delivered-more accepted more (r, false) d = tt

Mem-self {ℓ} : {R : Type ℓ} (ys : List R) → All (λ r. Mem r ys) ys
Mem-self [] = tt
Mem-self (y ∷ ys) = (mem-cons_self, All-map (λ r m. mem-cons_of_mem y m) ys (Mem-self ys))

pub Mem-all {ℓ} : {R : Type ℓ} (xs ys : List R) → All (λ r. Mem r (xs ++ ys)) ys
Mem-all xs ys = All-map (λ r m. mem-append_right xs m) ys (Mem-self ys)

pub All-later {ℓ κ} : {A : Type ℓ} (P : A → Type κ) (xs ys : List A) → All P (xs ++ ys) → All P ys
All-later P [] ys h = h
All-later P (x ∷ xs) ys h = All-later P xs ys h.1
