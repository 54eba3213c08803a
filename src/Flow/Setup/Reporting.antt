-- ===== src/Flow/Setup/Reporting.antt =====
-- Whom a new node reports congestion to.
use iceflow.Prelude.{ℕ, ◌≡◌, refl, Option, [], String}
use iceflow.Prelude.Errors.{Ensures, ok-Ensures, >>=-Ensures}
use iceflow.Ndn.{Ndn, Generator}
use iceflow.Dag.{DagParser, find_node_by_name}
use iceflow.Flow.{Flow, create_producers, create}

module _ (N : Ndn) (E : Generator) {C J K R : Type 0} where
  pub create_reporter :
      (dag : DagParser C J) (name : String) (reporter : Option R) (uuid : String) (seed now : ℕ)
      → Ensures
          (λ (t : Flow N E C K R). t.congestion_reporter ≡ reporter)
          (create N E dag name reporter uuid seed now)
  unfolding create
  create_reporter dag name reporter uuid seed now =
      >>=-Ensures _ (find_node_by_name dag name) _ (λ node _.
        >>=-Ensures _ (create_producers N E _ _ reporter seed node.downstream [] _) _
          (λ produced _. ok-Ensures _ _ refl))
