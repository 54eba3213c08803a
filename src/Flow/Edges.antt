-- ===== src/Flow/Edges.antt =====
-- Access to the edges of a node by their index.
use iceflow.Prelude.{
  ℕ, suc, ◌^◌, ◌<◌, ◌≡◌, inl, inr, some, List, [], ◌∷◌, arith, length, leb, ◌==◌, get_elem?,
  get_elem?-none, get_elem?-some, if◌then◌else◌, Bool-cases,
}
use iceflow.Prelude.Errors.{ok, throw, out_of_range}
use iceflow.Dag.{Edge}
use iceflow.Flow.{IceFlow, edge_at, get_downstream_edge, get_upstream_edge}

edge_at_lem :
    {C : Type 0} (edges : List (Edge C)) (index : ℕ)
    → index < 2 ^ 32
    → length edges < 2 ^ 32
    → edge_at edges index ≡ (
        if index == 4_294_967_295
        then throw (out_of_range "vector")
        else ok (get_elem? edges index))
unfolding edge_at
edge_at_lem edges index h small = elim (Bool-cases (leb (suc index) (length edges))) [
  | inl inside ↦ let (edge, e) = get_elem?-some edges index (ground arith) in ground (arith, e)
  | inr outside ↦ let e = get_elem?-none edges index (ground arith) in ground (arith, e)
]

edge_at_first :
    {C : Type 0} (edge : Edge C) (edges : List (Edge C)) → edge_at (edge ∷ edges) 0 ≡ ok (some edge)
unfolding edge_at
edge_at_first edge edges = ground arith

module _ {C S G K R : Type 0} where
  pub get_downstream_edge_first :
      (t : IceFlow C S G K R) (edges : List (Edge C))
      → t.downstream_edges ≡ edges
      → get_downstream_edge 0 t ≡ ok (get_elem? edges 0)
  unfolding get_downstream_edge edge_at
  get_downstream_edge_first t [] e = rw (e, get_downstream_edge)
  get_downstream_edge_first t (edge ∷ edges) e =
      rw (e, get_downstream_edge) (edge_at_first edge edges)

  pub get_upstream_edge_first :
      (t : IceFlow C S G K R) (edges : List (Edge C))
      → t.upstream_edges ≡ edges
      → get_upstream_edge 0 t ≡ ok (get_elem? edges 0)
  unfolding get_upstream_edge edge_at
  get_upstream_edge_first t [] e = rw (e, get_upstream_edge)
  get_upstream_edge_first t (edge ∷ edges) e = rw (e, get_upstream_edge) (edge_at_first edge edges)

  -- With fewer than 2^32 edges, `getDownstreamEdge` and `getUpstreamEdge` give the edge at a 32-bit
  -- index, or nothing beyond the end; but at the largest index, where `index + 1` wraps to 0, both
  -- throw `std::out_of_range`.
  pub get_edge_lem :
      (t : IceFlow C S G K R) (index : ℕ)
      → index < 2 ^ 32
      → length t.downstream_edges < 2 ^ 32
      → length t.upstream_edges < 2 ^ 32
      → (get_downstream_edge index t ≡ (
          if index == 4_294_967_295
          then throw (out_of_range "vector")
          else ok (get_elem? t.downstream_edges index)))
        × (get_upstream_edge index t ≡ (
            if index == 4_294_967_295
            then throw (out_of_range "vector")
            else ok (get_elem? t.upstream_edges index)))
  unfolding get_downstream_edge get_upstream_edge
  get_edge_lem t index h down up =
      (edge_at_lem t.downstream_edges index h down, edge_at_lem t.upstream_edges index h up)
