-- ===== src/Tests/Remote.antt =====
-- A node and its executor.
use iceflow.Prelude.{
  ℕ, ◌≡◌, refl, true, false, ◌&&◌, ◌||◌, ◌⊎◌, none, some, String, arith, ltb, leb, is_listed,
  if◌then◌else◌, ◌+◌, inr,
}
use iceflow.Prelude.Errors.{ok}
use iceflow.Prelude.Dict.{Dict, lookup}
use iceflow.Ndn.Plain.{plain_ndn, plain_ndn-IsLawful, listed_words, Instance}
use iceflow.Stats.{EdgeStats}
use iceflow.Flow.Statistics.{holds_handle, told_of_producer, told_of_consumer}
use iceflow.Flow.Events.{CallbackOf}
use iceflow.Services
use iceflow.Services.{
  success, failure, invalid_argument, RepartitionRequest, RepartitionResponse, requested_partitions,
}
use iceflow.Services.Instance.{
  is_listed-requested_partitions, Repartitioned, repartition_request_lem,
}
use iceflow.Flow.{Flow}
use iceflow.Json.Plain.{Tree}
use iceflow.Services.Executor
use iceflow.Services.Executor.{query_edge_stats, IceflowExecutor}
use iceflow.Services.Executor.Joined.{
  direct, joined, received_production, received_consumption, query_edge_stats_lem,
  repartition-direct,
}
use iceflow.Tests.{passing, splitter_flow, splitter_flow-IsReady, instance_of_wc}

is_listed-requested_partitions_example :
    let lower : ℕ = 4_294_967_290 in
    let upper : ℕ = 3 in
    let k : ℕ = 1 in
    is_listed k (requested_partitions lower upper) ≡ (
      if leb lower upper
      then (leb lower k && ltb k upper)
      else (ltb k upper || (leb lower k && ltb k 4_294_967_296)))
is_listed-requested_partitions_example =
    is_listed-requested_partitions 4_294_967_290 3 1 (omega arith) (omega arith)

abbrev request : RepartitionRequest
request = record { edge_name = "lines"; lower_partition_bound = 1; upper_partition_bound = 3 }

abbrev response : RepartitionResponse
response = record {
  edge_name = "";
  success = false;
  lower_partition_bound = 0;
  upper_partition_bound = 0;
}

repartition_request_lem_example :
    let (status, response', t') =
      Services.repartition plain_ndn listed_words request response splitter_flow in
    ((lookup "lines" splitter_flow.consumers ≡ none)
      × (status ≡ failure invalid_argument "Consumer repartitioning has failed.")
      × (response'.success ≡ false)
      × (t' ≡ splitter_flow))
    ⊎ ((status ≡ success)
        × (response'.success ≡ true)
        × Repartitioned plain_ndn listed_words "lines" (requested_partitions 1 3) splitter_flow t')
repartition_request_lem_example =
    repartition_request_lem plain_ndn plain_ndn-IsLawful listed_words request response splitter_flow
      splitter_flow-IsReady

query_edge_stats_lem_example :
    let (result, t') = query_edge_stats (direct plain_ndn listed_words 5) splitter_flow in
    (stats : Dict EdgeStats) × (s' : Instance) × (result ≡ ok stats)
    × ((edge : String)
        → lookup edge stats
          ≡ joined
              (received_production (told_of_producer 5 (lookup edge splitter_flow.producers)))
              (received_consumption (told_of_consumer 5 (lookup edge splitter_flow.consumers))))
    × (t' ≡ record splitter_flow { svs = some s' })
    × ((k : ℕ)
        → plain_ndn.subscription s' k ≡ (
            if holds_handle k splitter_flow.consumers
            then none
            else plain_ndn.subscription instance_of_wc k))
query_edge_stats_lem_example =
    query_edge_stats_lem plain_ndn plain_ndn-IsLawful listed_words 5 splitter_flow instance_of_wc
      refl (refl, tt) (refl, tt)

abbrev executor : IceflowExecutor (Flow plain_ndn listed_words Tree (CallbackOf passing) ℕ) ℕ
executor = record {
  node_instance_service = some (direct plain_ndn listed_words 5);
  congestion_report_callback = λ reason edge reports. reports + 1;
}

repartition-direct_example :
    let t' = Executor.repartition executor "lines" 1 3 splitter_flow in
    ((executor.node_instance_service ≡ none) × (t' ≡ splitter_flow))
    ⊎ ((lookup "lines" splitter_flow.consumers ≡ none) × (t' ≡ splitter_flow))
    ⊎ ((executor.node_instance_service ≡ some (direct plain_ndn listed_words 5))
        × Repartitioned plain_ndn listed_words "lines" (requested_partitions 1 3) splitter_flow t')
repartition-direct_example =
    repartition-direct plain_ndn plain_ndn-IsLawful listed_words 5 1 3 "lines" executor
      splitter_flow splitter_flow-IsReady (inr refl)
