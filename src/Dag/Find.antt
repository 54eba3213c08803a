-- ===== src/Dag/Find.antt =====
-- What a lookup of a node or an edge by its name returns.
use iceflow.Prelude.{
  ◌≡◌, refl, sym, subst, ap, ◌⊎◌, inl, inr, Bool, true, false, Option, none, some, List, [], ◌∷◌,
  ◌++◌, arith, String, str_eq, str_eq_iff, All, Bool-cases, ◌≢◌, All-map,
}
use mathlib.Core.List.{Memᴰ}
use mathlib.Core.List.Memᴰ
use iceflow.Prelude.Errors.{Result, ok, throw, runtime_error}
use iceflow.Prelude.Dict.{str_ne}
use iceflow.Dag.{
  Edge, Node, DagParser, find_if, find_node_by_name, find_edge_from, find_edge_by_name,
  edge_not_found, has_id,
}
use Prim.Native.String.{◌++◌ as ◌<>◌}

-- `x` is the first element of `xs` that passes `p`.
abbrev pub First {ℓ} : {A : Type ℓ} → (A → Bool) → List A → A → Type ℓ
First {A = A} p xs x =
    (before : List A) × (after : List A) × (xs ≡ before ++ x ∷ after)
    × All (λ y. p y ≡ false) before
    × (p x ≡ true)

pub First-cons {ℓ} :
    {A : Type ℓ} (p : A → Bool) (y : A) (xs : List A) (x : A)
    → p y ≡ false
    → First p xs x
    → First p (y ∷ xs) x
First-cons p y xs x skip (before, after, e, none_before, hit) =
    (y ∷ before, after, ap (◌∷◌ y) e, (skip, none_before), hit)

-- The search stops at the first hit, and fails only if there is none.
module _ {ℓ} {A : Type ℓ} (p : A → Bool) where
  abbrev pub Search : List A → Option A → Type ℓ
  Search xs r = ((x : A) × (r ≡ some x) × First p xs x) ⊎ ((r ≡ none) × All (λ y. p y ≡ false) xs)

  Search-cons : (x : A) (xs : List A) {r : Option A} → p x ≡ false → Search xs r → Search (x ∷ xs) r
  Search-cons x xs miss (inl (y, e, first)) = inl (y, e, First-cons p x xs y miss first)
  Search-cons x xs miss (inr (e, absent)) = inr (e, (miss, absent))

  find_if-miss : (x : A) (xs : List A) → p x ≡ false → find_if p (x ∷ xs) ≡ find_if p xs
  unfolding find_if
  find_if-miss x xs miss = rw miss refl

  pub find_if-Search : (xs : List A) → Search xs (find_if p xs)
  unfolding find_if
  find_if-Search [] = inr (refl, tt)
  find_if-Search (x ∷ xs) = elim (Bool-cases (p x)) [
    | inl hit ↦ inl (x, rw hit refl, ([], xs, refl, tt, hit))
    | inr miss ↦
        Search-cons x xs miss (subst (Search xs) (sym (find_if-miss x xs miss)) (find_if-Search xs))
  ]

module _ {C J : Type 0} where
  -- `findNodeByName` returns the first node of that name; it throws, with the name in the message,
  -- exactly when no node of the graph has it.
  pub find_node_by_name_cases :
      (dag : DagParser C J) (name : String)
      → ((node : Node C) × (find_node_by_name dag name ≡ ok node)
          × (node.name ≡ name)
          × First (λ n. str_eq n.name name) dag.nodes node)
        ⊎ ((find_node_by_name dag name
              ≡ throw (runtime_error ("Node with name '" <> name <> "' not found")))
            × All (λ n. n.name ≢ name) dag.nodes)
  unfolding find_node_by_name
  find_node_by_name_cases dag name =
      elim (find_if-Search (λ (n : Node C). str_eq n.name name) dag.nodes) [
        | inl (node, e, first) ↦
            inl (node, rw (e, find_node_by_name), (str_eq_iff node.name name).0 first.4, first)
        | inr (e, absent) ↦ inr (
          rw (e, find_node_by_name),
          All-map _ _ dag.nodes (λ n miss. str_ne n.name name miss) absent,
        )
      ]

module _ {C : Type 0} where
  -- Every node's edges, in the order of the nodes.
  abbrev pub all_edges : List (Node C) → List (Edge C)
  all_edges [] = []
  all_edges (node ∷ nodes) = node.downstream ++ all_edges nodes

  or_edge : Option (Edge C) → Result (Unit {0}) → Result (Unit {0})
  or_edge none r = r
  or_edge (some edge) r = ok tt

  find_if-append :
      (p : Edge C → Bool) (xs ys : List (Edge C)) (r : Result (Unit {0}))
      → or_edge (find_if p (xs ++ ys)) r ≡ or_edge (find_if p xs) (or_edge (find_if p ys) r)
  unfolding find_if or_edge
  find_if-append p [] ys r = refl
  find_if-append p (x ∷ xs) ys r = ground (arith, find_if-append p xs ys r)

  find_edge_from_lem :
      (id : String) (nodes : List (Node C))
      → find_edge_from nodes id
        ≡ or_edge (find_if (has_id id) (all_edges nodes)) (edge_not_found id)
  unfolding find_edge_from or_edge find_if
  find_edge_from_lem id [] = refl
  find_edge_from_lem id (node ∷ nodes) = ground (
    arith,
    find_edge_from_lem id nodes,
    find_if-append (has_id id) node.downstream (all_edges nodes) (edge_not_found id),
  )

module _ {C J : Type 0} where
  -- `findEdgeByName` returns exactly when some edge of the graph has the id, and else throws, with the
  -- id in the message.
  pub find_edge_by_name_cases :
      (dag : DagParser C J) (id : String)
      → ((find_edge_by_name dag id ≡ ok tt)
          × ((edge : Edge C) × Memᴰ edge (all_edges dag.nodes) × (edge.id ≡ id)))
        ⊎ ((find_edge_by_name dag id
              ≡ throw (runtime_error ("Edge with ID '" <> id <> "' not found")))
            × All (λ (e : Edge C). e.id ≢ id) (all_edges dag.nodes))
  unfolding find_edge_by_name edge_not_found or_edge
  find_edge_by_name_cases dag id = elim (find_if-Search (has_id id) (all_edges dag.nodes)) [
    | inl (edge, e, first) ↦
        let (before, after, split, _, hit) = first in
        inl (
          rw (find_edge_from_lem id dag.nodes, e),
          (
            edge,
            subst (Memᴰ edge) (sym split) (Memᴰ.append_right before (Memᴰ.head refl)),
            (str_eq_iff edge.id id).0 hit,
          ),
        )
    | inr (e, absent) ↦ inr (
      rw (find_edge_from_lem id dag.nodes, e),
      All-map _ _ (all_edges dag.nodes) (λ n miss. str_ne n.id id miss) absent,
    )
  ]
