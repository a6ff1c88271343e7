-- ===== src/Thresholds/Tests.antt =====
-- Tests of the severity thresholds (internal/server/thresholds/thresholds.go), and the theorems at
-- concrete inputs; a percentage is a natural number here.
use polarbeam.Base.{ℕ, ◌≡◌, refl, true, false, none, some, [], ◌∷◌, map, arith, ltb, leb}
use polarbeam.Thresholds.{
  Float64, Thresholds, Override, latency_at, effective, breaches, grade_warn, grade_crit,
}
use polarbeam.Thresholds.Merge.{first_set, effective_lem}

abbrev whole : Float64
whole = record { Number = ℕ; is_positive = λ p. ltb 0 p; ge = λ a b. leb b a }

abbrev limits : Thresholds ℕ
limits = record {
  latency_warn_us = 100;
  latency_crit_us = 200;
  loss_warn_pct = 0;
  loss_crit_pct = 5;
}

abbrev network : Override ℕ
network = record {
  latency_warn_us = none;
  latency_crit_us = some 300;
  loss_warn_pct = none;
  loss_crit_pct = none;
}

abbrev default_layer : Override ℕ
default_layer = record network { latency_crit_us = some 400; loss_warn_pct = some 1 }

effective_layers :
    effective limits (network ∷ default_layer ∷ [])
    ≡ record limits { latency_crit_us = 300; loss_warn_pct = 1 }
unfolding effective
effective_layers = refl

lossless_is_healthy : grade_warn whole limits (some 99) (some 0) ≡ false
unfolding grade_warn
lossless_is_healthy = refl

at_the_threshold : grade_crit whole limits (some 200) (some 4) ≡ (true, latency_at 200)
unfolding grade_crit
at_the_threshold = refl

effective_lem_example : effective limits (network ∷ default_layer ∷ []) ≡ record {
  latency_warn_us = first_set 100 (map (λ o. o.latency_warn_us) (network ∷ default_layer ∷ []));
  latency_crit_us = first_set 200 (map (λ o. o.latency_crit_us) (network ∷ default_layer ∷ []));
  loss_warn_pct = first_set 0 (map (λ o. o.loss_warn_pct) (network ∷ default_layer ∷ []));
  loss_crit_pct = first_set 5 (map (λ o. o.loss_crit_pct) (network ∷ default_layer ∷ []));
}
effective_lem_example = effective_lem limits (network ∷ default_layer ∷ [])

whole_trans : (a b c : ℕ) → leb b a ≡ true → leb c b ≡ true → leb c a ≡ true
whole_trans a b c h k = ground arith

critical : (grade_crit whole limits (some 250) none).0 ≡ true
unfolding grade_crit
critical = refl

same_breaches : breaches whole (some 250) (some 9) 200 5 ≡ breaches whole (some 600) (some 70) 200 5
unfolding breaches
same_breaches = refl
