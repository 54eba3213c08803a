-- ===== src/Services.antt =====
-- src/services/ and include/iceflow/node-instance-service.hpp, node-executor-service.hpp: the gRPC
-- services of a node and of its executor, with the messages of proto/. A number that is set in a
-- `uint32` field is taken modulo 2^32. The channel between the two sides is a parameter: a call
-- runs the handler of the other side, or fails.
pub mod Instance
pub mod Executor
use iceflow.Prelude.{
  ℕ, zero, suc, ◌+◌, ◌-◌, ◌%◌, ◌^◌, Bool, true, false, Option, none, some, List, [], ◌∷◌, String,
}
use iceflow.Prelude.Errors.{Result, ok, throw}
use iceflow.Prelude.Dict.{Dict}
use iceflow.Ndn.{Ndn, Generator}
use iceflow.Stats.{EdgeConsumptionStats, EdgeProductionStats, CongestionReason}
use iceflow.Flow.{Flow, repartition_consumer, get_consumer_stats, get_producer_stats}

pub data StatusCode : Type 0 where
  invalid_argument internal unavailable : StatusCode

-- `grpc::Status`
pub data Status : Type 0 where
  success : Status
  failure : StatusCode → String → Status

pub record RepartitionRequest : Type 0 where
  pub edge_name : String
  pub lower_partition_bound : ℕ
  pub upper_partition_bound : ℕ

pub record RepartitionResponse : Type 0 where
  pub edge_name : String
  pub success : Bool
  pub lower_partition_bound : ℕ
  pub upper_partition_bound : ℕ

-- `StatsResponse::ProductionStats` and `StatsResponse::ConsumptionStats`
pub record UnitStats : Type 0 where
  pub edge_name : String
  pub units : ℕ
  pub idle_time : ℕ

pub record StatsResponse : Type 0 where
  pub production_stats : List UnitStats
  pub consumption_stats : List UnitStats

pub record CongestionReportRequest : Type 0 where
  pub edge_name : String
  pub congestion_reason : CongestionReason

-- `std::iota` over `count` elements of type `uint32_t`
unfoldable pub iota : (count : ℕ) → (value : ℕ) → List ℕ
iota zero value = []
iota (suc count) value = value ∷ iota count ((value + 1) % 2 ^ 32)

-- The partitions of a request: the difference of the bounds wraps at 32 bits.
unfoldable pub requested_partitions : (lower upper : ℕ) → List ℕ
unfolding iota
requested_partitions lower upper = iota ((upper + 2 ^ 32 - lower) % 2 ^ 32) lower

-- The end of `Repartition`, after the call in its `try`; `success` is set only if nothing was thrown.
respond :
    {T : Type 0}
    → RepartitionRequest
    → RepartitionResponse
    → Result (Unit {0}) × T
    → Status × RepartitionResponse × T
respond request response (ok _, t) = (
  success,
  record response {
    lower_partition_bound = request.lower_partition_bound;
    upper_partition_bound = request.upper_partition_bound;
    success = true;
  },
  t,
)
respond request response (throw e, t) = (
  failure invalid_argument "Consumer repartitioning has failed.",
  record response {
    lower_partition_bound = request.lower_partition_bound;
    upper_partition_bound = request.upper_partition_bound;
  },
  t,
)

module _ (N : Ndn) (E : Generator) {C K R : Type 0} where
  -- `NodeInstanceService::Repartition`
  unfoldable pub repartition :
      RepartitionRequest
      → RepartitionResponse
      → Flow N E C K R
      → Status × RepartitionResponse × Flow N E C K R
  unfolding requested_partitions respond
  repartition request response t = respond request response (
      repartition_consumer N E request.edge_name
        (requested_partitions request.lower_partition_bound request.upper_partition_bound) t)

-- the loop over the consumers' statistics
add_consumption_stats : Dict EdgeConsumptionStats → List UnitStats
add_consumption_stats [] = []
add_consumption_stats ((edge_name, stats) ∷ rest) =
    record {
      edge_name = edge_name;
      units = stats.units_consumed % 2 ^ 32;
      idle_time = stats.idle_time;
    }
    ∷ add_consumption_stats rest

-- the loop over the producers' statistics
add_production_stats : Dict EdgeProductionStats → List UnitStats
add_production_stats [] = []
add_production_stats ((edge_name, stats) ∷ rest) =
    record {
      edge_name = edge_name;
      units = stats.units_produced % 2 ^ 32;
      idle_time = stats.idle_time;
    }
    ∷ add_production_stats rest

module _ (N : Ndn) (E : Generator) {C K R : Type 0} where
  -- `NodeInstanceService::QueryStats`, at time `now`, into an empty response
  unfoldable pub query_stats : ℕ → Flow N E C K R → Status × StatsResponse × Flow N E C K R
  unfolding add_consumption_stats add_production_stats
  query_stats now t =
      let (consumer_stats, t') = get_consumer_stats N E now t in
      let producer_stats = get_producer_stats now t' in
      (
        success,
        record {
          production_stats = add_production_stats producer_stats;
          consumption_stats = add_consumption_stats consumer_stats;
        },
        t',
      )
