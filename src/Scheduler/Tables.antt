-- ===== src/Scheduler/Tables.antt =====
-- Maps by a text as the lists of their entries (internal/agent/scheduler/scheduler.go): Go's lookup,
-- assignment and `delete`.
use polarbeam.Base.{
  ◌≡◌, ◌≢◌, refl, sym, ap, ◌∙◌, String, Bool, true, false, Option, none, some, List, [], ◌∷◌,
  Bool-cases, inl, inr, All, if◌then◌else◌,
}
use text.Mathlib.Text
use text.Mathlib.TextEquality.{eq_iff}

-- Go's `==` on strings.
abbrev pub same : String → String → Bool
same s t = Text.◌==◌ s t

abbrev pub is_some {ℓ} : {A : Type ℓ} → Option A → Bool
is_some none = false
is_some (some a) = true

pub same_refl : (s : String) → same s s ≡ true
same_refl s = (eq_iff s s).1 refl

pub same→≡ : (s t : String) → same s t ≡ true → s ≡ t
same→≡ s t e = (eq_iff s t).0 e

pub same_not : (s t : String) → s ≢ t → same s t ≡ false
same_not s t n = elim (Bool-cases (same s t)) [ inl e ↦ absurd (n (same→≡ s t e)) | inr e ↦ e ]

pub same_apart : (s t : String) → same s t ≡ false → s ≢ t
same_apart s t e q = absurd (cc (e, sym (same_refl t), ap (λ u. same u t) q))

module _ {ℓ} {A : Type ℓ} where
  unfoldable pub lookup : String → List (String × A) → Option A
  lookup id [] = none
  lookup id ((k, a) ∷ es) = let rest = lookup id es in if same k id then some a else rest

  unfoldable pub delete : String → List (String × A) → List (String × A)
  delete id [] = []
  delete id ((k, a) ∷ es) = let rest = delete id es in if same k id then rest else (k, a) ∷ rest

  unfoldable pub insert : String → A → List (String × A) → List (String × A)
  unfolding delete
  insert id a es = (id, a) ∷ delete id es

  pub lookup-delete : (id : String) (es : List (String × A)) → lookup id (delete id es) ≡ none
  unfolding lookup delete
  lookup-delete id [] = refl
  lookup-delete id ((k, a) ∷ es) = elim (Bool-cases (same k id)) [
    | inl e ↦ rw e (lookup-delete id es)
    | inr e ↦ simp e (lookup-delete id es)
  ]

  pub lookup-delete_other :
      (id k : String) (es : List (String × A)) → k ≢ id → lookup id (delete k es) ≡ lookup id es
  unfolding lookup delete
  lookup-delete_other id k [] n = refl
  lookup-delete_other id k ((j, a) ∷ es) n = elim (Bool-cases (same j k)) [
    | inl e ↦
        simp (e, same_not j id (λ q. n (sym (same→≡ j k e) ∙ q))) (lookup-delete_other id k es n)
    | inr e ↦ simp e (ap (λ o. if same j id then some a else o) (lookup-delete_other id k es n))
  ]

  -- No two entries have one key.
  abbrev pub IsMap : List (String × A) → Type ℓ
  IsMap [] = Unit
  IsMap ((k, a) ∷ es) = All (λ e. e.0 ≢ k) es × IsMap es

  pub delete-All {κ} :
      (P : String × A → Type κ) (id : String) (es : List (String × A))
      → All P es
      → All P (delete id es)
  unfolding delete
  delete-All P id [] h = h
  delete-All P id ((k, a) ∷ es) h = elim (Bool-cases (same k id)) [
    | inl e ↦ simp e (delete-All P id es h.1)
    | inr e ↦ simp e (h.0, delete-All P id es h.1)
  ]

  pub delete-IsMap : (id : String) (es : List (String × A)) → IsMap es → IsMap (delete id es)
  unfolding delete
  delete-IsMap id [] h = h
  delete-IsMap id ((k, a) ∷ es) h = elim (Bool-cases (same k id)) [
    | inl e ↦ simp e (delete-IsMap id es h.1)
    | inr e ↦ simp e (delete-All (λ e. e.0 ≢ k) id es h.0, delete-IsMap id es h.1)
  ]

  pub delete-gone : (id : String) (es : List (String × A)) → All (λ e. e.0 ≢ id) (delete id es)
  unfolding delete
  delete-gone id [] = tt
  delete-gone id ((k, a) ∷ es) = elim (Bool-cases (same k id)) [
    | inl e ↦ simp e (delete-gone id es)
    | inr e ↦ simp e ((λ q. same_apart k id e q), delete-gone id es)
  ]

  pub insert-IsMap :
      (id : String) (a : A) (es : List (String × A)) → IsMap es → IsMap (insert id a es)
  unfolding insert
  insert-IsMap id a es h = (delete-gone id es, delete-IsMap id es h)

  pub lookup-insert :
      (id : String) (a : A) (es : List (String × A)) → lookup id (insert id a es) ≡ some a
  unfolding lookup insert
  lookup-insert id a es = simp (same_refl id) refl

  pub lookup-insert_other :
      (id k : String) (a : A) (es : List (String × A))
      → k ≢ id
      → lookup id (insert k a es) ≡ lookup id es
  unfolding lookup insert
  lookup-insert_other id k a es n = simp (same_not k id n) (lookup-delete_other id k es n)

  pub absent-lookup :
      (id : String) (es : List (String × A)) → All (λ e. e.0 ≢ id) es → lookup id es ≡ none
  unfolding lookup
  absent-lookup id [] h = refl
  absent-lookup id ((k, a) ∷ es) h = simp (same_not k id h.0) (absent-lookup id es h.1)

  pub lookup-head :
      (id k : String) (a : A) (es : List (String × A))
      → same k id ≡ true
      → lookup id ((k, a) ∷ es) ≡ some a
  unfolding lookup
  lookup-head id k a es e = simp e refl

  pub lookup-next :
      (id k : String) (a : A) (es : List (String × A))
      → same k id ≡ false
      → lookup id ((k, a) ∷ es) ≡ lookup id es
  unfolding lookup
  lookup-next id k a es e = simp e refl
