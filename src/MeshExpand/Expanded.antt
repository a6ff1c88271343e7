-- ===== src/MeshExpand/Expanded.antt =====
-- Permuted inputs expand to permuted specs (internal/server/meshexpand/meshexpand.go).
use polarbeam.Base.{ℕ, ◌≡◌, refl, ap, subst, List, [], ◌∷◌, ◌++◌}
use polarbeam.MeshExpand.{
  MeshProbeRow, PeerRow, Inputs, ProbeSpec, Calls, direct_spec, mesh_spec, expand_mesh, all_specs,
}
use mathlib.Core.List.{Permᴰ, filter_map}
use mathlib.Core.List.Permᴰ as P

append_assoc : (xs ys zs : List ProbeSpec) → (xs ++ ys) ++ zs ≡ xs ++ (ys ++ zs)
append_assoc [] ys zs = refl
append_assoc (x ∷ xs) ys zs = ap (λ r. x ∷ r) (append_assoc xs ys zs)

-- Two blocks change places.
swap_blocks : (xs ys zs : List ProbeSpec) → Permᴰ (xs ++ (ys ++ zs)) (ys ++ (xs ++ zs))
swap_blocks xs ys zs =
    subst (λ r. Permᴰ r (ys ++ (xs ++ zs))) (append_assoc xs ys zs)
      (subst (λ r. Permᴰ ((xs ++ ys) ++ zs) r) (append_assoc ys xs zs)
        (P.append_right zs (P.append_comm xs ys)))

both_perm :
    {xs xs' ys ys' : List ProbeSpec} → Permᴰ xs xs' → Permᴰ ys ys' → Permᴰ (xs ++ ys) (xs' ++ ys')
both_perm {xs} {xs'} {ys} {ys'} a b = Permᴰ.trans (P.append_right ys a) (P.append_left xs' b)

module _ (calls : Calls) (site_id : ℕ) where
  expand_peers :
      {ps ps' : List PeerRow} (ms : List MeshProbeRow)
      → Permᴰ ps ps'
      → Permᴰ (expand_mesh calls site_id ms ps) (expand_mesh calls site_id ms ps')
  unfolding expand_mesh
  expand_peers [] d = Permᴰ.nil
  expand_peers (m ∷ ms) d =
      both_perm (P.filter_map (mesh_spec calls site_id m) d) (expand_peers ms d)

  expand_templates :
      {ms ms' : List MeshProbeRow} (ps : List PeerRow)
      → Permᴰ ms ms'
      → Permᴰ (expand_mesh calls site_id ms ps) (expand_mesh calls site_id ms' ps)
  unfolding expand_mesh
  expand_templates ps Permᴰ.nil = Permᴰ.nil
  expand_templates ps (Permᴰ.cons {a} {b} {l₁} {l₂} e d) =
      subst
        (λ m. Permᴰ (expand_mesh calls site_id (a ∷ l₁) ps) (expand_mesh calls site_id (m ∷ l₂) ps))
        e (P.append_left (filter_map (mesh_spec calls site_id a) ps) (expand_templates ps d))
  expand_templates ps (Permᴰ.swap {a} {b} {a'} {b'} {l} e f) =
      subst
        (λ m.
          Permᴰ (expand_mesh calls site_id (a ∷ b ∷ l) ps)
            (expand_mesh calls site_id (a' ∷ m ∷ l) ps))
        e
        (subst
          (λ m.
            Permᴰ (expand_mesh calls site_id (a ∷ b ∷ l) ps)
              (expand_mesh calls site_id (m ∷ a ∷ l) ps))
          f
          (swap_blocks (filter_map (mesh_spec calls site_id a) ps)
            (filter_map (mesh_spec calls site_id b) ps) (expand_mesh calls site_id l ps)))
  expand_templates ps (Permᴰ.trans c d) =
      Permᴰ.trans (expand_templates ps c) (expand_templates ps d)

-- The rows of an agent in another order.
pub record Reordered (i j : Inputs) : Type 0 where
  pub agent : i.agent_id ≡ j.agent_id
  pub site : i.site_id ≡ j.site_id
  pub direct : Permᴰ i.direct j.direct
  pub mesh : Permᴰ i.mesh j.mesh
  pub peers : Permᴰ i.peers j.peers

pub all_specs-Perm :
    (calls : Calls) (i j : Inputs) → Reordered i j → Permᴰ (all_specs calls i) (all_specs calls j)
unfolding all_specs
all_specs-Perm calls i j r = both_perm (P.map direct_spec r.direct) (
    subst
      (λ s. Permᴰ (expand_mesh calls i.site_id i.mesh i.peers) (expand_mesh calls s j.mesh j.peers))
      r.site
      (Permᴰ.trans (expand_templates calls i.site_id i.peers r.mesh)
        (expand_peers calls i.site_id j.mesh r.peers)))
