-- ===== src/WordCount/Nodes/Edges.antt =====
-- The edges that the applications of examples/wordCount ask their node for.
use iceflow.Prelude.{◌≡◌, ap, ◌⊎◌, inl, inr, some, List, [], ◌∷◌, arith, Option-cases, str_eq_iff}
use iceflow.Prelude.Errors.{ok, throw, bad_optional_access}
use iceflow.Prelude.Dict.{Dict, lookup, contains}
use iceflow.Ndn.{Ndn, Generator}
use iceflow.Json.{Json}
use iceflow.Dag.{Edge}
use iceflow.Flow.{Flow}
use iceflow.Flow.Edges.{get_upstream_edge_first, get_downstream_edge_first}
use iceflow.Flow.Setup.{names_edge}
use iceflow.WordCount.Nodes.{value, first_upstream, first_downstream, edges_of}

module _ (N : Ndn) (E : Generator) (J : Json) {K R : Type 0} where
  -- A node that lacks an upstream or a downstream edge, or has one of each that stands first.
  abbrev pub FirstEdges : Flow N E J.Object K R → Type 0
  FirstEdges t =
      (((t.upstream_edges ≡ []) ⊎ (t.downstream_edges ≡ []))
        × (edges_of N E J t ≡ throw bad_optional_access))
      ⊎ ((up down : Edge J.Object) × (ups downs : List (Edge J.Object)) × (t.upstream_edges
            ≡ up ∷ ups)
          × (t.downstream_edges ≡ down ∷ downs)
          × (edges_of N E J t ≡ ok (up, down)))

  pub edges_of-FirstEdges :
      (t : Flow N E J.Object K R) (ups downs : List (Edge J.Object))
      → t.upstream_edges ≡ ups
      → t.downstream_edges ≡ downs
      → FirstEdges t
  unfolding edges_of first_upstream first_downstream value
  edges_of-FirstEdges t [] downs e f = inl (inl e, rw (get_upstream_edge_first t [] e, edges_of))
  edges_of-FirstEdges t (up ∷ ups) [] e f = inl (
    inr f,
    rw (get_upstream_edge_first t (up ∷ ups) e, get_downstream_edge_first t [] f, edges_of),
  )
  edges_of-FirstEdges t (up ∷ ups) (down ∷ downs) e f = inr (
    up,
    down,
    ups,
    downs,
    e,
    f,
    rw (
      get_upstream_edge_first t (up ∷ ups) e,
      get_downstream_edge_first t (down ∷ downs) f,
      edges_of,
    ),
  )

pub has_first :
    {C V : Type 0} (edge : Edge C) (edges all : List (Edge C)) (d : Dict V)
    → all ≡ edge ∷ edges
    → contains edge.id d ≡ names_edge edge.id all
    → (v : V) × (lookup edge.id d ≡ some v)
has_first edge edges all d e h = elim (Option-cases (lookup edge.id d)) [
  | inr found ↦ found
  | inl absent ↦
      absurd (ground (arith, absent, h, ap (names_edge edge.id) e, str_eq_iff edge.id edge.id))
]
