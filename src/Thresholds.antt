-- ===== src/Thresholds.antt =====
-- The severity thresholds (internal/server/thresholds/thresholds.go): the merge of override layers,
-- and the two grades. An int64 is its 64-bit pattern, compared with its sign; a float64 is a value of
-- an argument, with the two tests that the code makes of it.
pub mod Merge
pub mod Grades
mod Tests
use polarbeam.Base.{
  ℕ, ◌+◌, ◌%◌, ◌^◌, Bool, true, false, ◌&&◌, ◌||◌, not, Option, none, some, List, [], ◌∷◌, leb,
  if◌then◌else◌,
}

-- `*a >= b` on int64.
abbrev pub int64_ge : ℕ → ℕ → Bool
int64_ge a b = leb ((b + 2 ^ 63) % 2 ^ 64) ((a + 2 ^ 63) % 2 ^ 64)

-- A float64 that is not a NaN enters the code by `x > 0` and `x >= y`.
pub record Float64 : Type 1 where
  pub Number : Type 0
  pub is_positive : Number → Bool
  pub ge : Number → Number → Bool

module _ (F : Type 0) where
  -- `T`
  pub record Thresholds : Type 0 where
    pub latency_warn_us : ℕ
    pub latency_crit_us : ℕ
    pub loss_warn_pct : F
    pub loss_crit_pct : F

  pub record Override : Type 0 where
    pub latency_warn_us : Option ℕ
    pub latency_crit_us : Option ℕ
    pub loss_warn_pct : Option F
    pub loss_crit_pct : Option F

-- One field of `out` with its `have…` flag, and one layer's value for it.
abbrev pub merge_field {ℓ} : {A : Type ℓ} → A × Bool → Option A → A × Bool
merge_field (out, have) none = (out, have)
merge_field (out, have) (some v) = if not have then (v, true) else (out, have)

-- The variables of the loop of `Effective`.
pub record Merging (F : Type 0) : Type 0 where
  pub latency_warn : ℕ × Bool
  pub latency_crit : ℕ × Bool
  pub loss_warn : F × Bool
  pub loss_crit : F × Bool

module _ {F : Type 0} where
  abbrev pub merge_layer : Merging F → Override F → Merging F
  merge_layer m o = record {
    latency_warn = merge_field m.latency_warn o.latency_warn_us;
    latency_crit = merge_field m.latency_crit o.latency_crit_us;
    loss_warn = merge_field m.loss_warn o.loss_warn_pct;
    loss_crit = merge_field m.loss_crit o.loss_crit_pct;
  }

  unfoldable pub merge_layers : Merging F → List (Override F) → Merging F
  merge_layers m [] = m
  merge_layers m (o ∷ os) = merge_layers (merge_layer m o) os

  abbrev pub merged : Merging F → Thresholds F
  merged m = record {
    latency_warn_us = m.latency_warn.0;
    latency_crit_us = m.latency_crit.0;
    loss_warn_pct = m.loss_warn.0;
    loss_crit_pct = m.loss_crit.0;
  }

  unfoldable pub effective : Thresholds F → List (Override F) → Thresholds F
  unfolding merge_layers
  effective global layers = merged (
      merge_layers
        (record {
          latency_warn = (global.latency_warn_us, false);
          latency_crit = (global.latency_crit_us, false);
          loss_warn = (global.loss_warn_pct, false);
          loss_crit = (global.loss_crit_pct, false);
        })
        layers)

-- The texts of `GradeCrit`, by what they show.
pub data Detail (F : Type 0) : Type 0 where
  both_at : ℕ → F → Detail F
  latency_at : ℕ → Detail F
  loss_at : F → Detail F
  no_detail : Detail F

module _ (f : Float64) where
  open f use {Number, is_positive, ge}

  abbrev pub latency_breach : Option ℕ → ℕ → Bool
  latency_breach none t = false
  latency_breach (some l) t = int64_ge l t

  abbrev pub loss_breach : Option Number → Number → Bool
  loss_breach none t = false
  loss_breach (some p) t = is_positive p && ge p t

  -- `breaches`
  unfoldable pub breaches : Option ℕ → Option Number → ℕ → Number → Bool × Bool
  breaches latency loss lt pt = (latency_breach latency lt, loss_breach loss pt)

  unfoldable pub grade_warn : Thresholds Number → Option ℕ → Option Number → Bool
  unfolding breaches
  grade_warn t latency loss =
      let (a, b) = breaches latency loss t.latency_warn_us t.loss_warn_pct in a || b

  abbrev pub detail_of : Thresholds Number → Bool → Bool → Bool × Detail Number
  detail_of t true true = (true, both_at t.latency_crit_us t.loss_crit_pct)
  detail_of t true false = (true, latency_at t.latency_crit_us)
  detail_of t false true = (true, loss_at t.loss_crit_pct)
  detail_of t false false = (false, no_detail)

  unfoldable pub grade_crit : Thresholds Number → Option ℕ → Option Number → Bool × Detail Number
  unfolding breaches
  grade_crit t latency loss =
      let (a, b) = breaches latency loss t.latency_crit_us t.loss_crit_pct in detail_of t a b
