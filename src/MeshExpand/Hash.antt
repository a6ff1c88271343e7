-- ===== src/MeshExpand/Hash.antt =====
-- What is hashed of a snapshot tells where each spec ends (internal/server/meshexpand/meshexpand.go).
use polarbeam.Base.{
  ℕ, ◌+◌, ◌*◌, ◌%◌, ◌^◌, ◌<◌, ◌≡◌, refl, sym, ap, ap₂, ◌∙◌, Option, some, List, [], ◌∷◌, ◌++◌, map,
  length, drop, All, arith,
}
use polarbeam.MeshExpand.{ProbeSpec, le_bytes, hashed, hash_input}

abbrev value : List ℕ → ℕ
value [] = 0
value (b ∷ bs) = b + 256 * value bs

value-le_bytes : (k : ℕ) → k < 2 ^ 64 → value (le_bytes 8 k) ≡ k
value-le_bytes k l = omega arith

append_cancel :
    (xs ys us vs : List ℕ) → length xs ≡ length ys → xs ++ us ≡ ys ++ vs → (xs ≡ ys) × (us ≡ vs)
append_cancel [] [] us vs l e = (refl, e)
append_cancel [] (y ∷ ys) us vs l e = absurd (omega (arith, l))
append_cancel (x ∷ xs) [] us vs l e = absurd (omega (arith, l))
append_cancel (x ∷ xs) (y ∷ ys) us vs l e =
    let h : x ≡ y = cc e in
    let t : xs ++ us ≡ ys ++ vs = ap (drop 1) e in
    let k = append_cancel xs ys us vs (omega (arith, l)) t in (ap₂ ◌∷◌ h k.0, k.1)

assoc : (xs ys zs : List ℕ) → (xs ++ ys) ++ zs ≡ xs ++ (ys ++ zs)
assoc [] ys zs = refl
assoc (x ∷ xs) ys zs = ap (λ r. x ∷ r) (assoc xs ys zs)

-- The prefix gives the length, and so where the bytes end.
framed_cancel :
    (bs cs us vs : List ℕ)
    → length bs < 2 ^ 64
    → length cs < 2 ^ 64
    → hashed (some bs) ++ us ≡ hashed (some cs) ++ vs
    → (bs ≡ cs) × (us ≡ vs)
framed_cancel bs cs us vs b c e =
    let n = length bs % 2 ^ 64 in
    let m = length cs % 2 ^ 64 in
    let k =
      append_cancel (le_bytes 8 n) (le_bytes 8 m) (bs ++ us) (cs ++ vs) refl
        (sym (assoc (le_bytes 8 n) bs us) ∙ e ∙ assoc (le_bytes 8 m) cs vs) in
    let same_length : length bs ≡ length cs =
      omega (arith, value-le_bytes n (omega arith), value-le_bytes m (omega arith), ap value k.0) in
    append_cancel bs cs us vs same_length k.1

-- The encoder gives bytes, fewer than 2 ^ 64.
abbrev pub IsEncoded : (ProbeSpec → Option (List ℕ)) → ProbeSpec → Type 0
IsEncoded encode s = (bytes : List ℕ) × (encode s ≡ some bytes) × (length bytes < 2 ^ 64)

-- Of specs that the encoder takes: if the same is written into the hash, the specs are as many and have
-- the same encodings, in the same order.
pub hash_input-injective :
    (encode : ProbeSpec → Option (List ℕ)) (xs ys : List ProbeSpec)
    → All (IsEncoded encode) xs
    → All (IsEncoded encode) ys
    → hash_input encode xs ≡ hash_input encode ys
    → map encode xs ≡ map encode ys
unfolding hash_input
hash_input-injective encode [] [] a b e = refl
hash_input-injective encode [] (y ∷ ys) a b e =
    let q = e ∙ ap (λ o. hashed o ++ hash_input encode ys) b.0.1 in absurd (cc q)
hash_input-injective encode (x ∷ xs) [] a b e =
    let q = sym e ∙ ap (λ o. hashed o ++ hash_input encode xs) a.0.1 in absurd (cc q)
hash_input-injective encode (x ∷ xs) (y ∷ ys) a b e =
    let k = framed_cancel a.0.0 b.0.0 (hash_input encode xs) (hash_input encode ys) a.0.2 b.0.2 (
      sym (ap (λ o. hashed o ++ hash_input encode xs) a.0.1)
      ∙ e
      ∙ ap (λ o. hashed o ++ hash_input encode ys) b.0.1) in
    ap₂ ◌∷◌ (a.0.1 ∙ ap (λ bs. some bs) k.0 ∙ sym b.0.1)
      (hash_input-injective encode xs ys a.1 b.1 k.1)
