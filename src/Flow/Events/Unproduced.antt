-- ===== src/Flow/Events/Unproduced.antt =====
-- What a node tells of its producers, from when it is made.
use iceflow.Prelude.{ℕ, ◌≡◌, ◌⊎◌, none, some, Option, List, String}
use iceflow.Prelude.Errors.{ok}
use iceflow.Prelude.Dict.{lookup}
use iceflow.Ndn.{Ndn, IsLawful, Generator}
use iceflow.Json.{Json}
use iceflow.Dag.{DagParser}
use iceflow.Stats.{EdgeProductionStats}
use iceflow.Flow.{Flow, create, get_producer_stats}
use iceflow.Flow.Setup.Connected.{create-IsConnected}
use iceflow.Flow.Statistics.{get_producer_stats_zero}
use iceflow.Flow.Events.{Application, CallbackOf, Event, run}
use iceflow.Flow.Events.Running.{run-IsReady}

module _ (N : Ndn) (L : IsLawful N) (E : Generator) (A : Application) {C T R : Type 0}
    (J : Json) where
  -- A node that has been made and run, whatever was delivered to it and pushed or called on it in
  -- whatever rounds, reports for each of its producers, and for no other edge, that no unit was
  -- produced.
  pub run-get_producer_stats :
      (dag : DagParser C T) (name : String) (reporter : Option R) (uuid : String) (seed now : ℕ)
      (t : Flow N E C (CallbackOf A) R) (a : A.State) (rounds : List (List (Event (CallbackOf A))))
      (later : ℕ) (edge : String)
      → create N E dag name reporter uuid seed now ≡ ok t
      → let v = (run N E A J rounds (t, a)).1.0 in
        ((lookup edge v.producers ≡ none) × (lookup edge (get_producer_stats later v) ≡ none))
        ⊎ ((stats : EdgeProductionStats) × (lookup edge (get_producer_stats later v) ≡ some stats)
            × (stats.units_produced ≡ 0))
  run-get_producer_stats dag name reporter uuid seed now t a rounds later edge made =
      get_producer_stats_zero later edge (run N E A J rounds (t, a)).1.0 (
        run-IsReady N L E A J rounds (t, a)
          (create-IsConnected N E dag name reporter uuid seed now t made).ready)
