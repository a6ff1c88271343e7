-- ===== src/Scheduler/Collect.antt =====
-- What the probe scheduler desires of a snapshot (internal/agent/scheduler/scheduler.go): the first
-- spec of each id.
use polarbeam.Base.{
  ◌≡◌, refl, ap, subst, ◌∙◌, String, Bool, true, false, not, ◌&&◌, ◌||◌, Option, none, some, List,
  [], ◌∷◌, Bool-cases, Option-cases, inl, inr, if◌then◌else◌,
}
use polarbeam.Scheduler.{
  Spec, same, same_apart, same_refl, same→≡, lookup, lookup-insert, lookup-insert_other, insert,
  is_some, collect,
}

-- The first spec of a snapshot with this id; the empty id is no probe's.
unfoldable pub first_spec : String → List Spec → Option Spec
first_spec id [] = none
first_spec id (spec ∷ specs) =
    let rest = first_spec id specs in
    if same spec.probe_id id && not (same id "") then some spec else rest

abbrev pub or_else : Option Spec → Option Spec → Option Spec
or_else none o = o
or_else (some spec) o = some spec

-- What a turn of the collecting loop does to the id of its spec, and to another.
collect_own :
    (spec : Spec) (d : List (String × Spec)) (rest : Option Spec)
    → let id = spec.probe_id in
      or_else (lookup id (if same id "" || is_some (lookup id d) then d else insert id spec d)) rest
      ≡ or_else (lookup id d) (if not (same id "") then some spec else rest)
collect_own spec d rest = elim (Bool-cases (same spec.probe_id "")) [
  | inl e ↦ simp e refl
  | inr e ↦ elim (Option-cases (lookup spec.probe_id d)) [
    | inl n ↦ simp (e, n, lookup-insert spec.probe_id spec d) refl
    | inr (old, n) ↦ simp (e, n) refl
  ]
]

lookup-if :
    (id : String) (b : Bool) (d d' : List (String × Spec))
    → lookup id d' ≡ lookup id d
    → lookup id (if b then d else d') ≡ lookup id d
lookup-if id true d d' e = refl
lookup-if id false d d' e = e

collect_turn :
    (id : String) (spec : Spec) (d : List (String × Spec)) (rest : Option Spec)
    → or_else
        (lookup id (
          if same spec.probe_id "" || is_some (lookup spec.probe_id d)
          then d
          else insert spec.probe_id spec d))
        rest
      ≡ or_else
          (lookup id d)
          (if same spec.probe_id id && not (same id "") then some spec else rest)
collect_turn id spec d rest = elim (Bool-cases (same spec.probe_id id)) [
  | inl e ↦
      subst
        (λ i.
          or_else
            (lookup i (
              if same spec.probe_id "" || is_some (lookup spec.probe_id d)
              then d
              else insert spec.probe_id spec d))
            rest
          ≡ or_else (lookup i d)
              (if same spec.probe_id i && not (same i "") then some spec else rest))
        (same→≡ spec.probe_id id e) (simp (same_refl spec.probe_id) (collect_own spec d rest))
  | inr e ↦ simp e (
      ap (λ o. or_else o rest)
        (lookup-if id (same spec.probe_id "" || is_some (lookup spec.probe_id d)) d
          (insert spec.probe_id spec d)
          (lookup-insert_other id spec.probe_id spec d (same_apart spec.probe_id id e))))
]

or_else-none : (o : Option Spec) → o ≡ or_else o none
or_else-none none = refl
or_else-none (some spec) = refl

collect-lookup :
    (id : String) (specs : List Spec) (d : List (String × Spec))
    → lookup id (collect specs d) ≡ or_else (lookup id d) (first_spec id specs)
unfolding collect first_spec
collect-lookup id [] d = or_else-none (lookup id d)
collect-lookup id (spec ∷ specs) d =
    collect-lookup id specs _ ∙ collect_turn id spec d (first_spec id specs)

pub collected :
    (id : String) (probes : List Spec) → lookup id (collect probes []) ≡ first_spec id probes
unfolding lookup
collected id probes = collect-lookup id probes []
