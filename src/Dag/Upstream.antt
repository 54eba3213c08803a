-- ===== src/Dag/Upstream.antt =====
-- `findUpstreamEdges`: which edges lead to a task.
use iceflow.Prelude.{
  ◌≡◌, refl, ap, inl, inr, Bool, true, false, none, some, List, [], ◌∷◌, ◌++◌, map, arith, String,
  str_eq, All, any, select,
}
use iceflow.Dag.{Edge, Node, DagParser, find_if, targets, collect_upstream, find_upstream_edges}
use iceflow.Dag.Find.{First, Search, find_if-Search}

any-false {ℓ} :
    {A : Type ℓ} (p : A → Bool) (xs : List A) → All (λ y. p y ≡ false) xs → any p xs ≡ false
any-false p [] h = refl
any-false p (x ∷ xs) h = rw h.0 (any-false p xs h.1)

any-true {ℓ} :
    {A : Type ℓ} (p : A → Bool) (xs ys : List A) (x : A) → p x ≡ true → any p (xs ++ x ∷ ys) ≡ true
any-true p [] ys x hit = rw hit
any-true p (y ∷ xs) ys x hit = ground (arith, any-true p xs ys x hit)

any-First {ℓ} : {A : Type ℓ} (p : A → Bool) {xs : List A} {x : A} → First p xs x → any p xs ≡ true
any-First p (before, after, e, absent, hit) = rw e (any-true p before after _ hit)

module _ {C : Type 0} (task : String) where
  abbrev pub leads : Node C → Bool
  leads node = any (targets task) node.downstream

  -- What the loop has collected from some nodes.
  abbrev Collected : List (Node C) → List (Node C × Edge C) → Type 0
  Collected nodes found =
      (map (λ r. r.0) found ≡ select leads nodes)
      × All (λ r. First (targets task) r.0.downstream r.1) found

  -- The round for one node, by what its search has found.
  Collected-cons :
      (node : Node C) (nodes : List (Node C)) (rest : List (Node C × Edge C))
      → Search (targets task) node.downstream (find_if (targets task) node.downstream)
      → Collected nodes rest
      → Collected (node ∷ nodes) (elim (find_if (targets task) node.downstream) [
        | some edge ↦ (node, edge) ∷ rest
        | none ↦ rest
      ])
  Collected-cons node nodes rest (inl (edge, e, first)) h =
      rw (e, any-First _ first) (ap (◌∷◌ node) h.0, (first, h.1))
  Collected-cons node nodes rest (inr (e, absent)) h = rw (e, any-false _ _ absent) h

  collect_upstream-Collected :
      (nodes : List (Node C)) → Collected nodes (collect_upstream task nodes)
  unfolding collect_upstream
  collect_upstream-Collected [] = (refl, tt)
  collect_upstream-Collected (node ∷ nodes) =
      Collected-cons node nodes (collect_upstream task nodes) (find_if-Search _ node.downstream)
        (collect_upstream-Collected nodes)

module _ {C J : Type 0} where
  -- The nodes that `findUpstreamEdges` returns are those with an edge to the task, each once and in
  -- their order; with each comes the first of its edges to the task, and no other.
  pub find_upstream_edges_lem :
      (dag : DagParser C J) (task : String)
      → (map (λ r. r.0) (find_upstream_edges dag task)
          ≡ select (λ n. any (λ (e : Edge C). str_eq e.target task) n.downstream) dag.nodes)
        × All
            (λ r. First (λ (e : Edge C). str_eq e.target task) r.0.downstream r.1)
            (find_upstream_edges dag task)
  unfolding find_upstream_edges
  find_upstream_edges_lem dag task = collect_upstream-Collected task dag.nodes
