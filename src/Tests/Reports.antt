-- ===== src/Tests/Reports.antt =====
-- A congestion report of the word count example.
use iceflow.Prelude.{◌≡◌, refl, Option, none, some, List, [], ◌∷◌, String, false}
use iceflow.Prelude.Errors.{Result, ok, throw}
use iceflow.Ndn.Plain.{plain_ndn, listed_words}
use iceflow.Json.Plain.{Tree}
use iceflow.Stats.{CongestionReason, processing}
use iceflow.Dag.{find_node_by_name, find_if, find_upstream_edges_of, find_upstream_edges}
use iceflow.Consumer
use iceflow.Producer
use iceflow.Flow.{Flow, create}
use iceflow.Services.Executor.{IceflowExecutor}
use iceflow.Services.Executor.Reports.{Scaler, make_reports, scaler_of, reports_reach}
use iceflow.Tests.{graph, splitter}

-- An executor that keeps the edges that are reported to it.
abbrev Kept : Type 0
Kept = List (CongestionReason × String)

abbrev keeping : Option (Option (IceflowExecutor (Unit {0}) Kept))
keeping = some (
    some (record {
      node_instance_service = none;
      congestion_report_callback = λ reason edge_name kept. (reason, edge_name) ∷ kept;
    }))

abbrev Reporter : Type 0
Reporter = Flow plain_ndn listed_words Tree (Unit {0}) (Scaler Kept)

-- A node that runs nowhere, in place of one that could not be made.
abbrev no_flow : Reporter
no_flow = record {
  running = false;
  svs = none;
  node_prefix = "";
  sync_prefix = "";
  producers = [];
  consumers = [];
  congestion_reporter = none;
  node = splitter;
  downstream_edges = [];
  upstream_edges = [];
}

abbrev made_or : {A : Type 0} → A → Result A → A
made_or other (ok a) = a
made_or other (throw e) = other

abbrev made : Result Reporter
made = create plain_ndn listed_words graph "lines2words" (scaler_of keeping) "0" 7 0

abbrev reporting : Reporter
reporting = made_or no_flow made

reporting-made : made ≡ ok reporting
unfolding create find_node_by_name find_if find_upstream_edges_of Producer.create
    Producer.set_topic_partitions Consumer.create Consumer.destroy find_upstream_edges
reporting-made = refl

abbrev two_reports : List (String × CongestionReason)
two_reports = ("words", processing) ∷ ("lines", processing) ∷ []

reports_reach_example :
    make_reports reporting two_reports [] ≡ (processing, "lines") ∷ (processing, "words") ∷ []
reports_reach_example =
    reports_reach plain_ndn listed_words graph "lines2words" "0" 7 0 keeping reporting two_reports
      [] reporting-made
