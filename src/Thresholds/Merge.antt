-- ===== src/Thresholds/Merge.antt =====
-- The merge of the layers (internal/server/thresholds/thresholds.go) against its description: for
-- each field, the first layer that sets it, and else the global value.
use polarbeam.Base.{ℕ, ◌≡◌, refl, ◌∙◌, Bool, true, false, Option, none, some, List, [], ◌∷◌, map}
use polarbeam.Thresholds.{
  Thresholds, Override, Merging, merge_field, merge_layer, merge_layers, merged, effective,
}

-- The first value that is set, or the default.
unfoldable pub first_set {ℓ} : {A : Type ℓ} → A → List (Option A) → A
first_set d [] = d
first_set d (none ∷ os) = first_set d os
first_set d (some v ∷ os) = v

-- What a field holds after the layers, whether or not it was set before.
abbrev settled {ℓ} : {A : Type ℓ} → A × Bool → List (Option A) → A
settled (out, true) os = out
settled (out, false) os = first_set out os

settled_step {ℓ} :
    {A : Type ℓ} (p : A × Bool) (o : Option A) (os : List (Option A))
    → settled (merge_field p o) os ≡ settled p (o ∷ os)
unfolding first_set
settled_step (out, true) none os = refl
settled_step (out, true) (some v) os = refl
settled_step (out, false) none os = refl
settled_step (out, false) (some v) os = refl

settled_nil {ℓ} : {A : Type ℓ} (p : A × Bool) → p.0 ≡ settled p []
unfolding first_set
settled_nil (out, true) = refl
settled_nil (out, false) = refl

module _ {F : Type 0} where
  abbrev latency_warns : List (Override F) → List (Option ℕ)
  latency_warns = map (λ o. o.latency_warn_us)

  abbrev latency_crits : List (Override F) → List (Option ℕ)
  latency_crits = map (λ o. o.latency_crit_us)

  abbrev loss_warns : List (Override F) → List (Option F)
  loss_warns = map (λ o. o.loss_warn_pct)

  abbrev loss_crits : List (Override F) → List (Option F)
  loss_crits = map (λ o. o.loss_crit_pct)

  merge_layers_lem :
      (m : Merging F) (os : List (Override F))
      → merged (merge_layers m os) ≡ record {
        latency_warn_us = settled m.latency_warn (latency_warns os);
        latency_crit_us = settled m.latency_crit (latency_crits os);
        loss_warn_pct = settled m.loss_warn (loss_warns os);
        loss_crit_pct = settled m.loss_crit (loss_crits os);
      }
  unfolding merge_layers
  merge_layers_lem m [] = λ i. record {
    latency_warn_us = settled_nil m.latency_warn i;
    latency_crit_us = settled_nil m.latency_crit i;
    loss_warn_pct = settled_nil m.loss_warn i;
    loss_crit_pct = settled_nil m.loss_crit i;
  }
  merge_layers_lem m (o ∷ os) = merge_layers_lem (merge_layer m o) os ∙ λ i. record {
    latency_warn_us = settled_step m.latency_warn o.latency_warn_us (latency_warns os) i;
    latency_crit_us = settled_step m.latency_crit o.latency_crit_us (latency_crits os) i;
    loss_warn_pct = settled_step m.loss_warn o.loss_warn_pct (loss_warns os) i;
    loss_crit_pct = settled_step m.loss_crit o.loss_crit_pct (loss_crits os) i;
  }

  -- Each field of the result is that of the first layer that sets this field, whatever the layers
  -- say of the other fields, and the global value where no layer sets it.
  pub effective_lem :
      (global : Thresholds F) (os : List (Override F))
      → effective global os ≡ record {
        latency_warn_us = first_set global.latency_warn_us (map (λ o. o.latency_warn_us) os);
        latency_crit_us = first_set global.latency_crit_us (map (λ o. o.latency_crit_us) os);
        loss_warn_pct = first_set global.loss_warn_pct (map (λ o. o.loss_warn_pct) os);
        loss_crit_pct = first_set global.loss_crit_pct (map (λ o. o.loss_crit_pct) os);
      }
  unfolding effective
  effective_lem global os = merge_layers_lem _ os
