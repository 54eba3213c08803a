-- ===== src/Dag/Parser.antt =====
-- `DAGParser::fromJson` and `parseFromFile` of src/dag-parser.cpp. The reads are in the order of
-- the code: the first one that the JSON library refuses throws, and nothing is returned.
pub mod Document
pub mod Types
use Prim.Native.String.{◌++◌ as ◌<>◌}
use iceflow.Prelude.{ℕ, true, false, Option, none, some, List, [], ◌∷◌, String}
use iceflow.Prelude.Errors.{Result, ok, throw, runtime_error, ◌>>=◌}
use iceflow.Prelude.Dict.{Dict, emplace}
use iceflow.Json.{Json}
use iceflow.Dag.{Resources, Container, ScalingParameters, Edge, Node, DagParser}

module _ (J : Json) where
  open J use {Value, Object}

  -- `json.at(key).get<…>()`
  string_at : Value → String → Result String
  string_at j key = do v ← J.at j key; J.get_string v

  uint32_at : Value → String → Result ℕ
  uint32_at j key = do v ← J.at j key; J.get_uint32 v

  -- the loops over `envs.items()` and `mounts.items()`
  emplace_items : List (String × Value) → Dict String → Result (Dict String)
  emplace_items [] d = ok d
  emplace_items ((key, value) ∷ rest) d = do
    text ← J.get_string value
    emplace_items rest (emplace key text d)

  -- `json.value(key, json::object())`, read as a map of texts
  string_map : Value → String → Result (Dict String)
  unfolding emplace_items
  string_map j key = do entries ← J.value_json j key J.object; emplace_items (J.items entries) []

  -- `json.value(key, json::object())`, read as an object
  object_or_empty : Value → String → Result Object
  object_or_empty j key = do v ← J.value_json j key J.object; J.get_object v

  parse_container : Value → Result Container
  unfolding string_at uint32_at string_map
  parse_container j = do
    image ← string_at j "image"
    tag ← J.value_string j "tag" "latest"
    envs ← string_map j "envs"
    mounts ← string_map j "mounts"
    cpu_resources ← J.at j "resources"
    cpu ← uint32_at cpu_resources "cpu"
    memory_resources ← J.at j "resources"
    memory ← uint32_at memory_resources "memory"
    ok (record {
      image = image;
      tag = tag;
      envs = envs;
      mounts = mounts;
      resources = record { cpu = cpu; memory = memory };
    })

  parse_edge : Value → Result (Edge Object)
  unfolding string_at uint32_at object_or_empty
  parse_edge j = do
    id ← string_at j "id"
    target ← string_at j "target"
    max_partitions ← uint32_at j "maxPartitions"
    configuration ← object_or_empty j "applicationConfiguration"
    ok (record {
      id = id;
      target = target;
      max_partitions = max_partitions;
      application_configuration = configuration;
    })

  -- the loop over the edges of a node
  parse_edges : List Value → Result (List (Edge Object))
  unfolding parse_edge
  parse_edges [] = ok []
  parse_edges (j ∷ js) = do edge ← parse_edge j; edges ← parse_edges js; ok (edge ∷ edges)

  -- `downstream` stays empty where the node has no such key.
  parse_downstream : Value → Result (List (Edge Object))
  unfolding parse_edges
  parse_downstream j = elim (J.contains j "downstream") [
    | true ↦ do edges ← J.at j "downstream"; parse_edges (J.elements edges)
    | false ↦ ok []
  ]

  parse_node : Value → Result (Node Object)
  unfolding string_at uint32_at object_or_empty parse_container parse_downstream
  parse_node j = do
    task ← string_at j "task"
    name ← string_at j "name"
    description ← string_at j "description"
    executor ← string_at j "executor"
    container_json ← J.at j "container"
    container ← parse_container container_json
    scaling ← J.at j "scalingParameters"
    task_complexity ← uint32_at scaling "taskComplexity"
    downstream ← parse_downstream j
    configuration ← object_or_empty j "applicationConfiguration"
    ok (record {
      task = task;
      name = name;
      description = description;
      executor = executor;
      container = container;
      scaling_parameters = record { task_complexity = task_complexity };
      downstream = downstream;
      application_configuration = configuration;
    })

  -- the loop over the nodes
  parse_nodes : List Value → Result (List (Node Object))
  unfolding parse_node
  parse_nodes [] = ok []
  parse_nodes (j ∷ js) = do node ← parse_node j; nodes ← parse_nodes js; ok (node ∷ nodes)

  unfoldable pub from_json : Value → Result (DagParser Object Value)
  unfolding string_at parse_nodes
  from_json j = do
    app_name ← string_at j "applicationName"
    nodes_json ← J.at j "nodes"
    nodes ← parse_nodes (J.elements nodes_json)
    ok (record { application_name = app_name; nodes = nodes; json = some j })

  -- The file is what reading it gives: nothing where it cannot be opened, and its bytes else.
  unfoldable pub parse_from_file : String → Option (List ℕ) → Result (DagParser Object Value)
  unfolding from_json
  parse_from_file filename none = throw (runtime_error ("File can not be opened " <> filename))
  parse_from_file filename (some bytes) = do j ← J.parse bytes; from_json j
