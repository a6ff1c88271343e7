-- ===== src/MeshExpand/Tests.antt =====
-- The expansion (internal/server/meshexpand/meshexpand.go) of a mesh of three sites, with an insertion
-- sort in the place of the library's.
use polarbeam.Base.{
  Option, some, map, ℕ, ◌+◌, ◌*◌, ◌≤◌, ◌≡◌, refl, pos, none, List, [], ◌∷◌, Bool-cases, inl, inr,
  All, All-map, arith, leb, if◌then◌else◌,
}
use polarbeam.MeshExpand.{
  Settings, DirectProbeRow, MeshProbeRow, PeerRow, Inputs, ProbeSpec, Snapshot, duplicate, built,
  Calls, expand_mesh, all_specs, build_snapshot,
}
use polarbeam.MeshExpand.Orders.{Distinct, Ascends, Rises}
use polarbeam.MeshExpand.Expanded.{Reordered}
use polarbeam.MeshExpand.{direct_spec}
use polarbeam.MeshExpand.Hash.{IsEncoded, hash_input-injective}
use polarbeam.MeshExpand.Same.{
  Sorts, SameBuilt, build_snapshot-same, build_snapshot-Rises, build_snapshot-duplicate,
}
use mathlib.Core.List.{Permᴰ, filter_map}
use mathlib.Core.List.Permᴰ as P

unfoldable insert_spec : ProbeSpec → List ProbeSpec → List ProbeSpec
insert_spec x [] = x ∷ []
insert_spec x (y ∷ ys) =
    let rest = insert_spec x ys in if leb x.probe_id y.probe_id then x ∷ y ∷ ys else y ∷ rest

unfoldable sort_specs : List ProbeSpec → List ProbeSpec
sort_specs [] = []
sort_specs (x ∷ xs) = insert_spec x (sort_specs xs)

insert_spec-Perm : (x : ProbeSpec) (ys : List ProbeSpec) → Permᴰ (insert_spec x ys) (x ∷ ys)
unfolding insert_spec
insert_spec-Perm x [] = P.refl (x ∷ [])
insert_spec-Perm x (y ∷ ys) = elim (Bool-cases (leb x.probe_id y.probe_id)) [
  | inl t ↦ simp t (P.refl (x ∷ y ∷ ys))
  | inr t ↦ simp t (Permᴰ.trans (Permᴰ.cons refl (insert_spec-Perm x ys)) (Permᴰ.swap refl refl))
]

insert_spec-All :
    (P : ProbeSpec → Type 0) (x : ProbeSpec) (ys : List ProbeSpec)
    → P x
    → All P ys
    → All P (insert_spec x ys)
unfolding insert_spec
insert_spec-All P x [] p h = (p, tt)
insert_spec-All P x (y ∷ ys) p h = elim (Bool-cases (leb x.probe_id y.probe_id)) [
  | inl t ↦ simp t (p, h)
  | inr t ↦ simp t (h.0, insert_spec-All P x ys p h.1)
]

insert_spec-Ascends :
    (x : ProbeSpec) (ys : List ProbeSpec) → Ascends ys → Ascends (insert_spec x ys)
unfolding insert_spec
insert_spec-Ascends x [] a = (tt, tt)
insert_spec-Ascends x (y ∷ ys) a = elim (Bool-cases (leb x.probe_id y.probe_id)) [
  | inl t ↦
      let l : x.probe_id ≤ y.probe_id = ground (arith, t) in
      simp t ((l, All-map (λ z m. omega (arith, l, m)) ys a.0), a)
  | inr t ↦ simp t (
    insert_spec-All (λ z. y.probe_id ≤ z.probe_id) x ys (ground (arith, t)) a.0,
    insert_spec-Ascends x ys a.1,
  )
]

sort_specs-Perm : (xs : List ProbeSpec) → Permᴰ (sort_specs xs) xs
unfolding sort_specs
sort_specs-Perm [] = Permᴰ.nil
sort_specs-Perm (x ∷ xs) =
    Permᴰ.trans (insert_spec-Perm x (sort_specs xs)) (Permᴰ.cons refl (sort_specs-Perm xs))

sort_specs-Ascends : (xs : List ProbeSpec) → Ascends (sort_specs xs)
unfolding sort_specs
sort_specs-Ascends [] = tt
sort_specs-Ascends (x ∷ xs) = insert_spec-Ascends x (sort_specs xs) (sort_specs-Ascends xs)

-- The UUID of a pair is made from the template's number alone, for the tests.
abbrev calls : Calls
calls = record {
  new_sha1 = λ template name. template * 100;
  uuid_text = λ id. "";
  scan_port = λ text. 7;
  sort_slice = sort_specs;
  encode = λ s. none;
  sha256_hex = λ bytes. "";
}

sort_specs-Sorts : Sorts calls.sort_slice
sort_specs-Sorts = record { perm = sort_specs-Perm; order = sort_specs-Ascends }

abbrev settings : Settings
settings = record {
  probe_type = 1;
  interval = pos 30;
  timeout = pos 5;
  train_count = pos 0;
  train_spacing = pos 0;
  params = [];
}

abbrev direct_row : ℕ → DirectProbeRow
direct_row id = record {
  id = id;
  settings = settings;
  target_id = 8;
  kind = "agent";
  address = "192.0.2.1";
  port = pos 80;
  url = "";
}

abbrev template : ℕ → MeshProbeRow
template id = record { config_id = id; mesh_id = 5; settings = settings }

abbrev peer : ℕ → PeerRow
peer site = record {
  mesh_id = 5;
  agent_id = 40 + site;
  site_id = site;
  target_id = 60 + site;
  probe_address = "192.0.2.2";
}

-- Two direct probes, and a template with a peer at another site and one at its own.
abbrev inputs : Inputs
inputs = record {
  agent_id = 3;
  site_id = 1;
  direct = direct_row 30 ∷ direct_row 20 ∷ [];
  mesh = template 4 ∷ [];
  peers = peer 2 ∷ peer 1 ∷ [];
}

abbrev reordered : Inputs
reordered = record inputs {
  direct = direct_row 20 ∷ direct_row 30 ∷ [];
  peers = peer 1 ∷ peer 2 ∷ [];
}

-- A direct probe with the id that the mesh derives.
abbrev clashing : Inputs
clashing = record inputs { direct = direct_row 400 ∷ [] }

inputs-Reordered : Reordered inputs reordered
inputs-Reordered = record {
  agent = refl;
  site = refl;
  direct = Permᴰ.swap refl refl;
  mesh = P.refl (template 4 ∷ []);
  peers = Permᴰ.swap refl refl;
}

build_snapshot-same_example :
    SameBuilt (build_snapshot calls inputs) (build_snapshot calls reordered)
build_snapshot-same_example =
    build_snapshot-same calls inputs reordered sort_specs-Sorts inputs-Reordered

inputs-Distinct : Distinct (all_specs calls inputs)
unfolding all_specs expand_mesh filter_map
inputs-Distinct = (
  ((λ e. omega (arith, e)), ((λ e. omega (arith, e)), tt)),
  (((λ e. omega (arith, e)), tt), (tt, tt)),
)

build_snapshot-Rises_example :
    (s : Snapshot) × (build_snapshot calls inputs ≡ built s)
    × Rises s.probes
    × Permᴰ s.probes (all_specs calls inputs)
build_snapshot-Rises_example = build_snapshot-Rises calls inputs sort_specs-Sorts inputs-Distinct

clashing_ids : Distinct (all_specs calls clashing) → ⊥
unfolding all_specs expand_mesh filter_map
clashing_ids d = d.0.0 refl

build_snapshot-duplicate_example : (id : ℕ) × (build_snapshot calls clashing ≡ duplicate id 3)
build_snapshot-duplicate_example =
    build_snapshot-duplicate calls clashing sort_specs-Sorts clashing_ids

-- An encoder that writes the id.
abbrev encode_id : ProbeSpec → Option (List ℕ)
encode_id s = some (s.probe_id ∷ [])

abbrev two_specs : List ProbeSpec
two_specs = direct_spec (direct_row 20) ∷ direct_spec (direct_row 30) ∷ []

two_specs-IsEncoded : All (IsEncoded encode_id) two_specs
two_specs-IsEncoded = ((20 ∷ [], refl, omega arith), ((30 ∷ [], refl, omega arith), tt))

hash_input-injective_example : map encode_id two_specs ≡ map encode_id two_specs
hash_input-injective_example =
    hash_input-injective encode_id two_specs two_specs two_specs-IsEncoded two_specs-IsEncoded refl
