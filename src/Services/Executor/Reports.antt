-- ===== src/Services/Executor/Reports.antt =====
-- The way of a node's congestion reports: over the scaler that it was made with, to the callback of
-- the executor.
use iceflow.Prelude.{ℕ, ◌≡◌, refl, ap, ◌∙◌, Option, none, some, List, [], ◌∷◌, String}
use iceflow.Prelude.Errors.{ok}
use iceflow.Ndn.{Ndn, Generator}
use iceflow.Stats.{CongestionReason, Report}
use iceflow.Dag.{DagParser}
use iceflow.Flow
use iceflow.Flow.{Flow, IceFlow, create}
use iceflow.Flow.Setup.Reporting.{create_reporter}
use iceflow.Services.{Status, CongestionReportRequest}
use iceflow.Services.Executor.{
  IceflowExecutor, receive_congestion_report, report_congestion, scaler_report_congestion,
}

-- A scaler, by the client that it reports through.
abbrev pub Scaler : Type 0 → Type 0
Scaler A = CongestionReportRequest → A → Status × A

-- What a report, if there is one, does.
abbrev pub make_report : {A : Type 0} → Option (Report (Scaler A)) → A → A
make_report none a = a
make_report (some r) a = scaler_report_congestion r.reporter r.reason r.edge_name a

-- A scaler that is connected to the service of an executor, which may be gone.
abbrev pub connected_to : {W A : Type 0} → Option (IceflowExecutor W A) → Scaler A
connected_to executor = report_congestion executor

-- The executor's callback, if both are there, is called once.
abbrev pub called_back :
    {W A : Type 0} → Option (Option (IceflowExecutor W A)) → CongestionReason → String → A → A
called_back none reason edge_name a = a
called_back (some none) reason edge_name a = a
called_back (some (some x)) reason edge_name a = x.congestion_report_callback reason edge_name a

abbrev pub scaler_of : {W A : Type 0} → Option (Option (IceflowExecutor W A)) → Option (Scaler A)
scaler_of none = none
scaler_of (some executor) = some (connected_to executor)

-- the report that a node makes
abbrev report_of : {R : Type 0} → Option R → CongestionReason → String → Option (Report R)
report_of reporter reason edge_name = elim reporter [
  | none ↦ none
  | some r ↦ some (record { reporter = r; reason = reason; edge_name = edge_name })
]

module _ {W A : Type 0} where
  reaches_scaler :
      (executor : Option (Option (IceflowExecutor W A))) (reason : CongestionReason)
      (edge_name : String) (a : A)
      → make_report (report_of (scaler_of executor) reason edge_name) a
        ≡ called_back executor reason edge_name a
  unfolding scaler_report_congestion report_congestion receive_congestion_report
  reaches_scaler none reason edge_name a = refl
  reaches_scaler (some none) reason edge_name a = refl
  reaches_scaler (some (some x)) reason edge_name a = refl

  reaches :
      (executor : Option (Option (IceflowExecutor W A))) (reporter : Option (Scaler A))
      (reason : CongestionReason) (edge_name : String) (a : A)
      → reporter ≡ scaler_of executor
      → make_report (report_of reporter reason edge_name) a
        ≡ called_back executor reason edge_name a
  reaches executor reporter reason edge_name a same =
      ap (λ r. make_report (report_of r reason edge_name) a) same
      ∙ reaches_scaler executor reason edge_name a

-- What the reports of a node do, one after the other.
abbrev pub make_reports :
    {C S G K A : Type 0} → IceFlow C S G K (Scaler A) → List (String × CongestionReason) → A → A
make_reports t [] a = a
make_reports t ((edge_name, reason) ∷ reports) a =
    make_reports t reports (make_report (Flow.report_congestion edge_name reason t) a)

-- The executor's callback, if both are there, is called once for each.
abbrev pub all_called_back :
    {W A : Type 0}
    → Option (Option (IceflowExecutor W A))
    → List (String × CongestionReason)
    → A
    → A
all_called_back executor [] a = a
all_called_back executor ((edge_name, reason) ∷ reports) a =
    all_called_back executor reports (called_back executor reason edge_name a)

module _ (N : Ndn) (E : Generator) {C J K W A : Type 0} where
  -- The scaler that a node is made with leads to an executor. Then the reports that the node makes
  -- call the executor's callback, once for each and in their order, with its reason and its edge's
  -- name. A node without a scaler, or whose executor is gone, reports nothing.
  pub reports_reach :
      (dag : DagParser C J) (name uuid : String) (seed now : ℕ)
      (executor : Option (Option (IceflowExecutor W A))) (t : Flow N E C K (Scaler A))
      (reports : List (String × CongestionReason)) (a : A)
      → create N E dag name (scaler_of executor) uuid seed now ≡ ok t
      → make_reports t reports a ≡ all_called_back executor reports a
  unfolding Flow.report_congestion
  reports_reach dag name uuid seed now executor t [] a made = refl
  reports_reach dag name uuid seed now executor t ((edge_name, reason) ∷ reports) a made =
      reports_reach dag name uuid seed now executor t reports
        (make_report (Flow.report_congestion edge_name reason t) a) made
      ∙ ap (all_called_back executor reports) (
          reaches executor t.congestion_reporter reason edge_name a
            (create_reporter N E dag name (scaler_of executor) uuid seed now t made))
