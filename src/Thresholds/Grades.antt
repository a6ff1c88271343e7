-- ===== src/Thresholds/Grades.antt =====
-- The two grades (internal/server/thresholds/thresholds.go).
use polarbeam.Base.{ℕ, ◌≡◌, sym, ap, ◌∙◌, Bool, true, false, ◌||◌, Option, none, some, arith}
use polarbeam.Thresholds.{
  int64_ge, Float64, Thresholds, breaches, grade_warn, grade_crit, detail_of, latency_breach,
  loss_breach,
}

module _ (f : Float64)
    (ge_trans : (a b c : f.Number) → f.ge a b ≡ true → f.ge b c ≡ true → f.ge a c ≡ true) where
  latency_down :
      (l : Option ℕ) (a b : ℕ)
      → int64_ge a b ≡ true
      → latency_breach f l a ≡ true
      → latency_breach f l b ≡ true
  latency_down none a b h e = e
  latency_down (some l) a b h e = ground arith

  loss_down :
      (p : Option f.Number) (a b : f.Number)
      → f.ge a b ≡ true
      → loss_breach f p a ≡ true
      → loss_breach f p b ≡ true
  loss_down none a b h e = e
  loss_down (some p) a b h e = ground (arith, ge_trans p a b)

  or_mono :
      (a b c d : Bool)
      → (a ≡ true → c ≡ true)
      → (b ≡ true → d ≡ true)
      → (a || b) ≡ true
      → (c || d) ≡ true
  or_mono a b c d h k e = ground arith

  detail_grade : (t : Thresholds f.Number) (a b : Bool) → (detail_of f t a b).0 ≡ (a || b)
  detail_grade t a b = ground arith

  -- Where the order of percentages is transitive and no critical threshold is below its warning
  -- threshold, every measurement that reaches the critical tier reaches the warning tier.
  pub grade_crit-grade_warn :
      (t : Thresholds f.Number) (latency : Option ℕ) (loss : Option f.Number)
      → int64_ge t.latency_crit_us t.latency_warn_us ≡ true
      → f.ge t.loss_crit_pct t.loss_warn_pct ≡ true
      → (grade_crit f t latency loss).0 ≡ true
      → grade_warn f t latency loss ≡ true
  unfolding grade_crit grade_warn
  grade_crit-grade_warn t latency loss h k e =
      or_mono _ _ _ _ (latency_down latency t.latency_crit_us t.latency_warn_us h)
        (loss_down loss t.loss_crit_pct t.loss_warn_pct k)
        (sym (
            detail_grade t (latency_breach f latency t.latency_crit_us)
              (loss_breach f loss t.loss_crit_pct))
          ∙ e)

module _ (f : Float64) where
  -- The text of a critical grade depends on the thresholds and on which of the two metrics breach,
  -- and on nothing else of the measurement: two measurements that breach in the same metrics are
  -- graded with the same text.
  pub grade_crit_stable :
      (t : Thresholds f.Number) (l l' : Option ℕ) (p p' : Option f.Number)
      → breaches f l p t.latency_crit_us t.loss_crit_pct
        ≡ breaches f l' p' t.latency_crit_us t.loss_crit_pct
      → grade_crit f t l p ≡ grade_crit f t l' p'
  unfolding grade_crit
  grade_crit_stable t l l' p p' e = ap (λ (b : Bool × Bool). detail_of f t b.0 b.1) e

  -- What was not measured, and a loss that is not above zero, never breach.
  pub grade_crit_unmeasured :
      (t : Thresholds f.Number) (p : f.Number)
      → f.is_positive p ≡ false
      → ((grade_crit f t none none).0 ≡ false)
        × ((grade_crit f t none (some p)).0 ≡ false)
        × (grade_warn f t none (some p) ≡ false)
  unfolding grade_crit grade_warn
  grade_crit_unmeasured t p h = ground arith
