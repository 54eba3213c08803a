-- ===== src/Dag.antt =====
-- include/iceflow/dag-parser.hpp and src/dag-parser.cpp: the application's graph, and the queries
-- on it. `C` stands for `nlohmann::json::object_t`, and `J` for `nlohmann::json`.
pub mod Parser
pub mod Find
pub mod Upstream
use iceflow.Prelude.{
  ℕ, ◌≡◌, refl, Bool, true, false, Option, none, some, List, [], ◌∷◌, ◌++◌, String, str_eq,
  if◌then◌else◌,
}
use iceflow.Prelude.Errors.{Result, ok, throw, runtime_error}
use iceflow.Prelude.Dict.{Dict}
use Prim.Native.String.{◌++◌ as ◌<>◌}

pub record Resources : Type 0 where
  pub cpu : ℕ
  pub memory : ℕ

pub record Container : Type 0 where
  pub image : String
  pub tag : String
  pub envs : Dict String
  pub mounts : Dict String
  pub resources : Resources

pub record ScalingParameters : Type 0 where
  pub task_complexity : ℕ

pub record Edge (C : Type 0) : Type 0 where
  pub id : String
  pub target : String
  pub max_partitions : ℕ
  pub application_configuration : C

pub record Node (C : Type 0) : Type 0 where
  pub task : String
  pub name : String
  pub description : String
  pub executor : String
  pub container : Container
  pub scaling_parameters : ScalingParameters
  pub downstream : List (Edge C)
  pub application_configuration : C

-- `DAGParser`; `json` is `m_json`.
pub record DagParser (C : Type 0) (J : Type 0) : Type 0 where
  pub application_name : String
  pub nodes : List (Node C)
  pub json : Option J

-- `std::find_if`: the first element that passes.
unfoldable pub find_if {ℓ} : {A : Type ℓ} → (A → Bool) → List A → Option A
find_if p [] = none
find_if p (x ∷ xs) = if p x then some x else find_if p xs

edge_not_found : String → Result (Unit {0})
edge_not_found edge_id = throw (runtime_error ("Edge with ID '" <> edge_id <> "' not found"))

module _ {C : Type 0} where
  node_not_found : String → Result (Node C)
  node_not_found name = throw (runtime_error ("Node with name '" <> name <> "' not found"))

  abbrev pub has_id : String → Edge C → Bool
  has_id edge_id edge = str_eq edge.id edge_id

  -- The loop over the nodes. It searches a copy of the edges of each, and the reference that it returns
  -- is to an element of that copy, which is gone by then: there is no edge to return.
  find_edge_from : List (Node C) → String → Result (Unit {0})
  unfolding edge_not_found
  find_edge_from [] edge_id = edge_not_found edge_id
  find_edge_from (node ∷ nodes) edge_id = elim (find_if (has_id edge_id) node.downstream) [
    | some edge ↦ ok tt
    | none ↦ find_edge_from nodes edge_id
  ]

  abbrev pub targets : String → Edge C → Bool
  targets task_id edge = str_eq edge.target task_id

  -- the loop over the nodes: at most one edge of each is taken
  collect_upstream : String → List (Node C) → List (Node C × Edge C)
  collect_upstream task_id [] = []
  collect_upstream task_id (node ∷ nodes) =
      let rest = collect_upstream task_id nodes in
      elim (find_if (targets task_id) node.downstream) [
        | some edge ↦ (node, edge) ∷ rest
        | none ↦ rest
      ]

module _ {C J : Type 0} where
  unfoldable pub get_nodes : DagParser C J → List (Node C)
  get_nodes dag = dag.nodes

  unfoldable pub get_application_name : DagParser C J → String
  get_application_name dag = dag.application_name

  unfoldable pub get_raw_dag : DagParser C J → Option J
  get_raw_dag dag = dag.json

  unfoldable pub find_node_by_name : DagParser C J → String → Result (Node C)
  unfolding node_not_found
  find_node_by_name dag node_name = elim (find_if (λ node. str_eq node.name node_name) dag.nodes) [
    | some node ↦ ok node
    | none ↦ node_not_found node_name
  ]

  unfoldable pub find_edge_by_name : DagParser C J → String → Result (Unit {0})
  unfolding find_edge_from
  find_edge_by_name dag edge_id = find_edge_from dag.nodes edge_id

  unfoldable pub find_upstream_edges : DagParser C J → String → List (Node C × Edge C)
  unfolding collect_upstream
  find_upstream_edges dag task_id = collect_upstream task_id dag.nodes

  -- the overload that takes a node
  unfoldable pub find_upstream_edges_of : DagParser C J → Node C → List (Node C × Edge C)
  find_upstream_edges_of dag node = find_upstream_edges dag node.task
