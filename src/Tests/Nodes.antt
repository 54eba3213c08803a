-- ===== src/Tests/Nodes.antt =====
-- A node: how it is made, and its methods.
use Prim.Native.String.{◌++◌ as ◌<>◌}
use iceflow.Prelude.{
  ℕ, ◌≡◌, refl, ◌⊎◌, none, some, [], ◌∷◌, map, arith, ◌==◌, get_elem?, if◌then◌else◌,
}
use iceflow.Prelude.Errors.{ok, throw, runtime_error, out_of_range}
use iceflow.Prelude.Dict.{lookup}
use iceflow.Ndn.Plain.{plain_ndn, plain_ndn-IsLawful, listed_words, Instance}
use iceflow.Json.Plain.{Tree}
use iceflow.Dag.{Node, find_node_by_name, find_upstream_edges_of}
use iceflow.Producer
use iceflow.Producer.{Producer}
use iceflow.Flow.{
  Flow, create, push_data, repartition_producer, no_producer, get_downstream_edge,
  get_upstream_edge, get_consumer_stats,
}
use iceflow.Flow.Setup.{Made, create-Made}
use iceflow.Flow.Routing.{Pushed, push_data_cases, push_data-repartition_producer}
use iceflow.Flow.Edges.{get_edge_lem}
use iceflow.Flow.Statistics.{holds_handle, get_consumer_stats_unsubscribes}
use iceflow.Flow.Events.{CallbackOf}
use iceflow.Tests.{
  graph, passing, splitter_flow, splitter_flow-IsReady, words_producer, instance_of_wc,
}

abbrev Splitter : Type 0
Splitter = Flow plain_ndn listed_words Tree (CallbackOf passing) ℕ

create-Made_example :
    ((find_node_by_name graph "lines2words"
        ≡ throw (runtime_error ("Node with name '" <> "lines2words" <> "' not found")))
      × (create plain_ndn listed_words {K = CallbackOf passing} {R = ℕ} graph "lines2words" none "0"
            7 0
          ≡ throw (runtime_error ("Node with name '" <> "lines2words" <> "' not found"))))
    ⊎ ((node : Node Tree) × (find_node_by_name graph "lines2words" ≡ ok node)
        × Made plain_ndn listed_words node (map (λ r. r.1) (find_upstream_edges_of graph node)) (
            create plain_ndn listed_words {K = CallbackOf passing} {R = ℕ} graph "lines2words" none
              "0" 7 0))
create-Made_example = create-Made plain_ndn listed_words graph "lines2words" none "0" 7 0

push_data_cases_example :
    ((lookup "words" splitter_flow.producers ≡ none)
      × (push_data plain_ndn listed_words "words" (1 ∷ 2 ∷ []) splitter_flow
          ≡ (throw (runtime_error (no_producer "words")), splitter_flow)))
    ⊎ Pushed plain_ndn plain_ndn-IsLawful listed_words "words"
        (1 ∷ 2 ∷ [])
        splitter_flow
        (push_data plain_ndn listed_words "words" (1 ∷ 2 ∷ []) splitter_flow)
push_data_cases_example =
    push_data_cases plain_ndn plain_ndn-IsLawful listed_words "words" (1 ∷ 2 ∷ []) splitter_flow
      splitter_flow-IsReady

abbrev repartitioned : Splitter
repartitioned = record splitter_flow {
  producers = ("words", record words_producer { topic_partitions = 0 ∷ 1 ∷ 2 ∷ [] }) ∷ [];
}

repartitioned_lem : repartition_producer "words" 3 splitter_flow ≡ (ok tt, repartitioned)
unfolding repartition_producer Producer.set_topic_partitions
repartitioned_lem = refl

push_data-repartition_producer_example :
    (push_data plain_ndn listed_words "words" (1 ∷ []) repartitioned).1.svs
    ≡ (push_data plain_ndn listed_words "words" (1 ∷ []) splitter_flow).1.svs
push_data-repartition_producer_example =
    push_data-repartition_producer plain_ndn plain_ndn-IsLawful listed_words "words" "words" 3
      (1 ∷ []) splitter_flow repartitioned repartitioned_lem

abbrev first_index : ℕ
first_index = 0

get_edge_lem_example :
    (get_downstream_edge first_index splitter_flow ≡ (
      if first_index == 4_294_967_295
      then throw (out_of_range "vector")
      else ok (get_elem? splitter_flow.downstream_edges first_index)))
    × (get_upstream_edge first_index splitter_flow ≡ (
        if first_index == 4_294_967_295
        then throw (out_of_range "vector")
        else ok (get_elem? splitter_flow.upstream_edges first_index)))
get_edge_lem_example =
    get_edge_lem splitter_flow first_index (omega arith) (omega arith) (omega arith)

get_consumer_stats_unsubscribes_example :
    (s' : Instance) × ((get_consumer_stats plain_ndn listed_words 5 splitter_flow).1
      ≡ record splitter_flow { svs = some s' })
    × ((k : ℕ)
        → plain_ndn.subscription s' k ≡ (
            if holds_handle k splitter_flow.consumers
            then none
            else plain_ndn.subscription instance_of_wc k))
get_consumer_stats_unsubscribes_example =
    get_consumer_stats_unsubscribes plain_ndn plain_ndn-IsLawful listed_words 5 splitter_flow
      instance_of_wc refl
