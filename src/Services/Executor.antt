-- ===== src/Services/Executor.antt =====
-- include/iceflow/executor.hpp, src/executor.cpp, src/scaler.cpp and
-- src/services/node-executor-service.cpp: the executor of a node, and the reports that a node's
-- scaler makes to it. `W` is the world that a remote call acts on.
pub mod Joined
pub mod Reports
use iceflow.Prelude.{ℕ, Bool, true, false, Option, none, some, List, [], ◌∷◌, String, has_value}
use iceflow.Prelude.Errors.{Result, ok, throw, runtime_error}
use iceflow.Prelude.Dict.{Dict, lookup, insert}
use iceflow.Stats.{EdgeStats, EdgeProductionStats, EdgeConsumptionStats, CongestionReason}
use iceflow.Services.{
  Status, StatusCode, RepartitionRequest, RepartitionResponse, StatsResponse, UnitStats,
  CongestionReportRequest,
}

-- The generated client `NodeInstance::Stub`.
pub record Stub (W : Type 0) : Type 0 where
  pub repartition : RepartitionRequest → RepartitionResponse → W → Status × RepartitionResponse × W
  pub query_stats : W → Status × StatsResponse × W

-- `IceflowExecutor`, without its addresses and its server. The callback acts on the application's
-- world `A`.
pub record IceflowExecutor (W A : Type 0) : Type 0 where
  pub node_instance_service : Option (Stub W)
  pub congestion_report_callback : CongestionReason → String → A → A

module _ {W A : Type 0} where
  -- Without a client nothing is done; the status of the call is only logged.
  unfoldable pub repartition : IceflowExecutor W A → String → (lower upper : ℕ) → W → W
  repartition x edge_name lower upper w = elim x.node_instance_service [
    | none ↦ w
    | some stub ↦
        (let request : RepartitionRequest = record {
          edge_name = edge_name;
          lower_partition_bound = lower;
          upper_partition_bound = upper;
        } in
          let response : RepartitionResponse = record {
            edge_name = "";
            success = false;
            lower_partition_bound = 0;
            upper_partition_bound = 0;
          } in
          (stub.repartition request response w).2)
  ]

  unfoldable pub receive_congestion_report : IceflowExecutor W A → CongestionReason → String → A → A
  receive_congestion_report x reason edge_name a = x.congestion_report_callback reason edge_name a

  -- `NodeExecutorService::ReportCongestion`, by whether the executor is still there
  unfoldable pub report_congestion :
      Option (IceflowExecutor W A) → CongestionReportRequest → A → Status × A
  unfolding receive_congestion_report
  report_congestion (some x) request a =
      (Status.success, receive_congestion_report x request.congestion_reason request.edge_name a)
  report_congestion none request a =
      (Status.failure StatusCode.internal "NodeExecutorService has already been shut down", a)

-- `IceflowScaler::reportCongestion`, through the client that its constructor makes; the status is
-- only logged.
unfoldable pub scaler_report_congestion :
    {A : Type 0} → (CongestionReportRequest → A → Status × A) → CongestionReason → String → A → A
scaler_report_congestion client reason edge_name a =
    (client (record { edge_name = edge_name; congestion_reason = reason }) a).1

-- the loop over the production statistics
add_production : List UnitStats → Dict EdgeStats → Dict EdgeStats
add_production [] result = result
add_production (stat ∷ stats) result =
    let internal : EdgeProductionStats = record {
      units_produced = stat.units;
      idle_time = stat.idle_time;
    } in
    add_production stats (
      insert stat.edge_name (record { production_stats = some internal; consumption_stats = none })
        result)

-- The entry that a consumption statistic makes of what is there.
with_consumption : EdgeConsumptionStats → Option EdgeStats → EdgeStats
with_consumption internal none = record {
  production_stats = none;
  consumption_stats = some internal;
}
with_consumption internal (some edge_stats) = record edge_stats {
  consumption_stats = some internal;
}

-- the loop over the consumption statistics
add_consumption : List UnitStats → Dict EdgeStats → Dict EdgeStats
unfolding with_consumption
add_consumption [] result = result
add_consumption (stat ∷ stats) result =
    let internal : EdgeConsumptionStats = record {
      units_consumed = stat.units;
      idle_time = stat.idle_time;
    } in
    add_consumption stats
      (insert stat.edge_name (with_consumption internal (lookup stat.edge_name result)) result)

-- `queryEdgeStats`, through a client that is there: the code takes that for granted.
unfoldable pub query_edge_stats : {W : Type 0} → Stub W → W → Result (Dict EdgeStats) × W
unfolding add_production add_consumption
query_edge_stats stub w =
    let (status, response, w') = stub.query_stats w in
    elim status [
      | Status.success ↦ (
        ok (
            add_consumption response.consumption_stats
              (add_production response.production_stats [])),
        w',
      )
      | Status.failure _ _ ↦ (throw (runtime_error "Failed to query stats from NodeInstance."), w')
    ]
