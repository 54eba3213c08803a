-- ===== src/Tests/Events.antt =====
-- What reaches a node that runs.
use iceflow.Prelude.{ℕ, ◌≡◌, refl, none, some, List, [], ◌∷◌, ◌++◌, arith, true, false, ◌⊎◌}
use iceflow.Prelude.Errors.{ok, throw, runtime_error}
use iceflow.Ndn.{Handler}
use iceflow.Ndn.Plain.{plain_ndn, plain_ndn-IsLawful, listed_words, Instance}
use iceflow.Json.Plain.{plain, plain_dumps, Tree}
use iceflow.Producer.Backchannel.{data_name}
use iceflow.Flow.{push_data}
use iceflow.Consumer.{SubscriptionData}
use iceflow.Flow.Setup.{IsReady}
use iceflow.Flow.Events.{
  Event, delivery, call, CallbackOf, prosuming, invoke, deliver, run, stop, push_all, World,
}
use iceflow.Flow.Events.Running.{run-IsReady, RunsThrough, run-Halted}
use iceflow.Flow.Events.Acknowledged.{acknowledgement-erases}
use iceflow.Tests.{passing, splitter_world, splitter_flow-IsReady, lines_consumer}

abbrev a_line : SubscriptionData
a_line = record { seq_no = 5; payload = 104 ∷ 105 ∷ [] }

abbrev arrival : Event (CallbackOf passing)
arrival = delivery (Handler.consumer "lines") a_line 10

run-IsReady_example :
    IsReady
      (run plain_ndn listed_words passing plain
        ((arrival ∷ []) ∷ (call stop ∷ []) ∷ [])
        splitter_world).1.0
run-IsReady_example =
    run-IsReady plain_ndn plain_ndn-IsLawful listed_words passing plain
      ((arrival ∷ []) ∷ (call stop ∷ []) ∷ []) splitter_world splitter_flow-IsReady

invoked :
    (invoke plain_ndn listed_words passing (prosuming tt) a_line.payload splitter_world).0 ≡ ok tt
unfolding invoke push_all push_data
invoked = refl

acknowledgement-erases_example :
    let before =
      (invoke plain_ndn listed_words passing
        (prosuming tt)
        a_line.payload
        splitter_world).1.0.svs in
    let (_, w') =
      deliver plain_ndn listed_words passing plain
        (Handler.consumer "lines")
        a_line
        10
        splitter_world in
    (payload : List ℕ) × (s s' s'' : Instance) × (before ≡ some s)
    × (w'.0.svs ≡ some s')
    × (s'.log
        ≡ s.log ++ (plain_ndn.append (plain_ndn.parse_name "wc/lines") "backchannel", payload) ∷ [])
    × (let reply : SubscriptionData = record { seq_no = 1; payload = payload } in
        (deliver plain_ndn listed_words passing plain
          (Handler.backchannel "/node-wc/0" "wc")
          reply
          20
          splitter_world).1.0.svs
        ≡ some s'')
    × (plain_ndn.stored s'' (data_name plain_ndn "/node-wc/0" "wc" 5) ≡ none)
acknowledgement-erases_example =
    acknowledgement-erases plain_ndn plain_ndn-IsLawful listed_words passing plain plain_dumps
      "lines" a_line 10 splitter_world lines_consumer (prosuming tt) "/node-wc/0" "wc" 1 20
      splitter_world splitter_flow-IsReady refl refl invoked (omega arith) splitter_flow-IsReady

run-Halted_example :
    let rounds : List (List (Event (CallbackOf passing))) =
      (arrival ∷ []) ∷ (call stop ∷ []) ∷ (arrival ∷ []) ∷ [] in
    let started : World plain_ndn listed_words passing Tree ℕ =
      (record splitter_world.0 { running = true }, splitter_world.1) in
    let (result, v) = run plain_ndn listed_words passing plain rounds splitter_world in
    ((splitter_world.0.running ≡ true)
      × (result ≡ some (throw (runtime_error "Iceflow instance is already running!")))
      × (v ≡ splitter_world))
    ⊎ ((splitter_world.0.running ≡ false)
        × RunsThrough plain_ndn listed_words passing plain rounds started result v)
run-Halted_example =
    run-Halted plain_ndn listed_words passing plain
      ((arrival ∷ []) ∷ (call stop ∷ []) ∷ (arrival ∷ []) ∷ []) splitter_world
