-- ===== src/Flow.antt =====
-- include/iceflow/iceflow.hpp and src/iceflow.cpp: the node of a dataflow graph, with a producer for
-- each of its outgoing edges and a consumer for each incoming one. `m_svsPubSub` is an option, as the
-- weak pointers to it are; it is made in the constructor and held as long as the node lives.
pub mod Setup
pub mod Events
pub mod Edges
pub mod Routing
pub mod Statistics
use Prim.Native.String.{◌++◌ as ◌<>◌}
use iceflow.Prelude.{
  ℕ, ◌+◌, ◌%◌, ◌^◌, Bool, true, false, Option, none, some, List, [], ◌∷◌, map, String, length, leb,
  get_elem?, if◌then◌else◌,
}
use iceflow.Prelude.Errors.{Result, ok, throw, runtime_error, out_of_range, ◌>>=◌}
use iceflow.Prelude.Dict.{Dict, lookup, insert, emplace}
use iceflow.Ndn.{Ndn, Generator}
use iceflow.Json.{Json}
use iceflow.Stats.{EdgeConsumptionStats, EdgeProductionStats, CongestionReason, Report}
use iceflow.Dag.{
  Node, Edge, DagParser, get_application_name, find_node_by_name, find_upstream_edges_of,
}
use iceflow.Dag.Parser.{parse_from_file}
use iceflow.Consumer
use iceflow.Consumer.{Consumer}
use iceflow.Producer
use iceflow.Producer.{Producer}

-- `IceFlow`, over `C` for `json::object_t`, `S` for the SVS instance, `G` for the generators' states,
-- `K` for the callbacks and `R` for the congestion reporters.
pub record IceFlow (C S G K R : Type 0) : Type 0 where
  pub running : Bool
  pub svs : Option S
  pub node_prefix : String
  pub sync_prefix : String
  pub producers : Dict (Producer G R)
  pub consumers : Dict (Consumer K R)
  pub congestion_reporter : Option R
  pub node : Node C
  pub downstream_edges : List (Edge C)
  pub upstream_edges : List (Edge C)

-- `uuid` is what the generator of boost::uuids gives.
unfoldable pub generate_node_prefix : String → String → String
generate_node_prefix application_name uuid = "/node-" <> (application_name <> ("/" <> uuid))

abbrev pub no_consumer : String → String
no_consumer edge_name = "Consumer for upstream edge " <> (edge_name <> " does not exist!")

abbrev pub no_producer : String → String
no_producer edge_name = "Producer for downstream edge " <> (edge_name <> " does not exist!")

abbrev pub Flow : Ndn → Generator → Type 0 → Type 0 → Type 0 → Type 0
Flow N E C K R = IceFlow C N.Svs E.State K R

module _ (N : Ndn) (E : Generator) {C R : Type 0} where
  -- the loop over the downstream edges
  create_producers :
      String
      → String
      → Option R
      → ℕ
      → List (Edge C)
      → Dict (Producer E.State R)
      → Option N.Svs
      → Result (Dict (Producer E.State R) × Option N.Svs)
  create_producers node_prefix sync_prefix reporter seed [] producers svs = ok (producers, svs)
  create_producers node_prefix sync_prefix reporter seed (edge ∷ edges) producers svs = do
    made ← Producer.create N E node_prefix sync_prefix edge.id edge.max_partitions reporter seed svs
    create_producers node_prefix sync_prefix reporter seed edges (emplace edge.id made.0 producers)
        made.1

module _ (N : Ndn) {C K R : Type 0} where
  -- The loop over the upstream edges. The map holds a copy of each consumer, and the local one is
  -- destroyed at the end of its round.
  create_consumers :
      String
      → Option R
      → ℕ
      → List (Edge C)
      → Dict (Consumer K R)
      → Option N.Svs
      → Dict (Consumer K R) × Option N.Svs
  create_consumers sync_prefix reporter now [] consumers svs = (consumers, svs)
  create_consumers sync_prefix reporter now (edge ∷ edges) consumers svs =
      let consumer : Consumer K R = Consumer.create sync_prefix edge.id reporter now in
      create_consumers sync_prefix reporter now edges (emplace edge.id consumer consumers)
        (Consumer.destroy N consumer svs)

module _ (N : Ndn) (E : Generator) {C J K R : Type 0} where
  -- The constructor. `seed` and `now` are the readings of `time(nullptr)` and the steady clock.
  unfoldable pub create :
      DagParser C J → String → Option R → String → ℕ → ℕ → Result (Flow N E C K R)
  unfolding generate_node_prefix create_producers create_consumers
  create dag node_name reporter uuid seed now = do
    let node_prefix = generate_node_prefix (get_application_name dag) uuid
    let sync_prefix = get_application_name dag
    node ← find_node_by_name dag node_name
    let upstream_edges = map (λ (r : Node C × Edge C). r.1) (find_upstream_edges_of dag node)
    let svs = N.create (N.parse_name sync_prefix) (N.parse_name node_prefix)
    produced ←
        create_producers N E node_prefix sync_prefix reporter seed node.downstream [] (some svs)
    let consumed : Dict (Consumer K R) × Option N.Svs =
        create_consumers N sync_prefix reporter now upstream_edges [] produced.1
    ok (record {
      running = false;
      svs = consumed.1;
      node_prefix = node_prefix;
      sync_prefix = sync_prefix;
      producers = produced.0;
      consumers = consumed.0;
      congestion_reporter = reporter;
      node = node;
      downstream_edges = node.downstream;
      upstream_edges = upstream_edges;
    })

-- The constructors that read the graph from a file; those without a reporter pass `std::nullopt`.
module _ (N : Ndn) (E : Generator) (J : Json) {K R : Type 0} where
  unfoldable pub create_from_file :
      (dag_file_name : String)
      → (file : Option (List ℕ)) → (node_name : String) → Option R
      → (uuid : String) → (seed now : ℕ) → Result (Flow N E J.Object K R)
  create_from_file dag_file_name file node_name reporter uuid seed now = do
    dag ← parse_from_file J dag_file_name file
    create N E dag node_name reporter uuid seed now

-- `index + 1` wraps at 32 bits, and `at` throws beyond the end.
edge_at : {C : Type 0} → List (Edge C) → ℕ → Result (Option (Edge C))
edge_at edges index =
    if leb ((index + 1) % 2 ^ 32) (length edges)
    then (elim (get_elem? edges index) [
      | some edge ↦ ok (some edge)
      | none ↦ throw (out_of_range "vector")
    ])
    else ok none

-- The loop over the producers; each is copied, and the copies go.
-- The keys of a map are distinct, so each `emplace` adds an entry.
producer_stats : {G R : Type 0} → ℕ → Dict (Producer G R) → Dict EdgeProductionStats
producer_stats now [] = []
producer_stats now ((edge_name, producer) ∷ producers) =
    (edge_name, (Producer.get_production_stats now producer).0) ∷ producer_stats now producers

-- The loop over the consumers `for (auto consumer : …)`: it asks a copy of each, which is destroyed
-- at the end of its round.
consumer_stats :
    (N : Ndn) {K R : Type 0}
    → ℕ
    → Dict (Consumer K R)
    → Option N.Svs
    → Dict EdgeConsumptionStats × Option N.Svs
consumer_stats N now [] svs = ([], svs)
consumer_stats N now ((edge_name, consumer) ∷ consumers) svs =
    let (stats, asked) = Consumer.get_consumption_stats now consumer in
    let (rest, svs') = consumer_stats N now consumers (Consumer.destroy N asked svs) in
    ((edge_name, stats) ∷ rest, svs')

module _ {C S G K R : Type 0} where
  unfoldable pub get_node_prefix : IceFlow C S G K R → String
  get_node_prefix t = t.node_prefix

  unfoldable pub get_sync_prefix : IceFlow C S G K R → String
  get_sync_prefix t = t.sync_prefix

  unfoldable pub get_downstream_edges : IceFlow C S G K R → List (Edge C)
  get_downstream_edges t = t.downstream_edges

  unfoldable pub get_upstream_edges : IceFlow C S G K R → List (Edge C)
  get_upstream_edges t = t.upstream_edges

  unfoldable pub shutdown : IceFlow C S G K R → IceFlow C S G K R
  shutdown t = record t { running = false }

  unfoldable pub get_downstream_edge : ℕ → IceFlow C S G K R → Result (Option (Edge C))
  unfolding edge_at
  get_downstream_edge index t = edge_at t.downstream_edges index

  unfoldable pub get_upstream_edge : ℕ → IceFlow C S G K R → Result (Option (Edge C))
  unfolding edge_at
  get_upstream_edge index t = edge_at t.upstream_edges index

  -- The report that is made, if there is a reporter to make it to.
  unfoldable pub report_congestion :
      String → CongestionReason → IceFlow C S G K R → Option (Report R)
  report_congestion edge_name reason t = elim t.congestion_reporter [
    | none ↦ none
    | some reporter ↦ some (record { reporter = reporter; reason = reason; edge_name = edge_name })
  ]

  unfoldable pub register_consumer_callback :
      String → K → IceFlow C S G K R → Result (Unit {0}) × IceFlow C S G K R
  register_consumer_callback edge_name callback t = elim (lookup edge_name t.consumers) [
    | none ↦ (throw (runtime_error (no_consumer edge_name)), t)
    | some consumer ↦ (
      ok tt,
      record t {
        consumers = insert edge_name (Consumer.set_consumer_callback callback consumer) t.consumers;
      },
    )
  ]

  -- A new partition count that the producer refuses throws through this call.
  unfoldable pub repartition_producer :
      String → ℕ → IceFlow C S G K R → Result (Unit {0}) × IceFlow C S G K R
  repartition_producer edge_name number_of_partitions t = elim (lookup edge_name t.producers) [
    | none ↦ (throw (runtime_error (no_producer edge_name)), t)
    | some producer ↦ (elim (Producer.set_topic_partitions number_of_partitions producer) [
      | throw e ↦ (throw e, t)
      | ok producer' ↦ (ok tt, record t { producers = insert edge_name producer' t.producers })
    ])
  ]

  unfoldable pub get_producer_stats : ℕ → IceFlow C S G K R → Dict EdgeProductionStats
  unfolding producer_stats
  get_producer_stats now t = producer_stats now t.producers

module _ (J : Json) {S G K R : Type 0} where
  -- `getApplicationParameter<T>`: nothing for a missing key, and nothing where the read throws
  unfoldable pub get_application_parameter {ℓ} :
      {T : Type ℓ} → (J.Value → Result T) → String → IceFlow J.Object S G K R → Option T
  get_application_parameter get key t =
      let configuration = t.node.application_configuration in
      if J.object_contains configuration key
      then (elim (J.object_at configuration key >>= get) [ ok v ↦ some v | throw e ↦ none ])
      else none

module _ (N : Ndn) (E : Generator) {C K R : Type 0} where
  -- The result of `repartition` is dropped.
  unfoldable pub repartition_consumer :
      String → List ℕ → Flow N E C K R → Result (Unit {0}) × Flow N E C K R
  repartition_consumer edge_name partitions t = elim (lookup edge_name t.consumers) [
    | none ↦ (throw (runtime_error (no_consumer edge_name)), t)
    | some consumer ↦
        let (done, consumer', svs') = Consumer.repartition N partitions consumer t.svs in
        (ok tt, record t { svs = svs'; consumers = insert edge_name consumer' t.consumers })
  ]

  unfoldable pub push_data : String → List ℕ → Flow N E C K R → Result (Unit {0}) × Flow N E C K R
  push_data edge_name payload t = elim (lookup edge_name t.producers) [
    | none ↦ (throw (runtime_error (no_producer edge_name)), t)
    | some producer ↦
        let (producer', svs') = Producer.push_data N E payload producer t.svs in
        (ok tt, record t { svs = svs'; producers = insert edge_name producer' t.producers })
  ]

  unfoldable pub get_consumer_stats :
      ℕ → Flow N E C K R → Dict EdgeConsumptionStats × Flow N E C K R
  unfolding consumer_stats
  get_consumer_stats now t =
      let (stats, svs') = consumer_stats N now t.consumers t.svs in (stats, record t { svs = svs' })
