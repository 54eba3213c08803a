-- ===== src/Stats.antt =====
-- include/iceflow/stats.hpp and include/iceflow/congestion-reporter.hpp: the numbers that an edge
-- reports, and a congestion report.
use iceflow.Prelude.{ℕ, Option, String}

pub record EdgeProductionStats : Type 0 where
  pub units_produced : ℕ
  pub idle_time : ℕ

pub record EdgeConsumptionStats : Type 0 where
  pub units_consumed : ℕ
  pub idle_time : ℕ

pub record EdgeStats : Type 0 where
  pub production_stats : Option EdgeProductionStats
  pub consumption_stats : Option EdgeConsumptionStats

pub data CongestionReason : Type 0 where
  network processing : CongestionReason

-- The call `reportCongestion(reason, edge)` that is made on a reporter `R`.
pub record Report (R : Type 0) : Type 0 where
  pub reporter : R
  pub reason : CongestionReason
  pub edge_name : String
