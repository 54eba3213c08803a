-- ===== src/Tests/Group.antt =====
-- Two nodes of the word count application.
use iceflow.Prelude.{ℕ, zero, suc, ◌<◌, arith, ◌≡◌, refl, ◌⊎◌, none, some, List, [], ◌∷◌}
use mathlib.Core.List.{Memᴰ}
use iceflow.Prelude.Errors.{Result, ok, throw}
use iceflow.Ndn.{Handler}
use iceflow.Ndn.Plain.{
  plain_ndn, plain_ndn-IsLawful, plain_ndn-TellsApart, listed_words, text, number, Instance,
}
use iceflow.Json.Plain.{plain, Tree}
use iceflow.Dag.{
  find_node_by_name, find_if, find_upstream_edges, find_upstream_edges_of, get_application_name,
}
use iceflow.Prelude.Dict.{lookup}
use iceflow.Consumer
use iceflow.Consumer.{Consumer}
use iceflow.Producer
use iceflow.Producer.{Producer}
use iceflow.Stats.{EdgeProductionStats}
use iceflow.Flow.{Flow, create, push_data, repartition_consumer, get_producer_stats}
use iceflow.Flow.Events.Unproduced.{run-get_producer_stats}
use iceflow.Flow.Setup.{IsReady}
use iceflow.Flow.Setup.Connected.{create-IsConnected}
use iceflow.Flow.Events.{
  Call, push, repartition_consumers, stop, run, Event, call, CallbackOf, World, make_call,
  handle_event,
}
use iceflow.Flow.Events.Network.{Matches, Reach, join, act, alone, then_step}
use iceflow.Flow.Events.Network.Arriving.{Share, IsShared, serving, push_data-Matches}
use iceflow.Flow.Events.Network.Crosstalk.{Matches-Received, Received}
use iceflow.Tests.{passing, graph, splitter_flow}

abbrev WcFlow : Type 0
WcFlow = Flow plain_ndn listed_words Tree (CallbackOf passing) ℕ

abbrev WcWorld : Type 0
WcWorld = World plain_ndn listed_words passing Tree ℕ

abbrev or_else : Result WcFlow → WcFlow
or_else (ok t) = t
or_else (throw e) = splitter_flow

abbrev lines_flow : WcFlow
lines_flow = or_else (create plain_ndn listed_words graph "text2lines" none "0" 7 0)

abbrev words_flow : WcFlow
words_flow = or_else (create plain_ndn listed_words graph "lines2words" none "1" 7 0)

lines_made : create plain_ndn listed_words graph "text2lines" none "0" 7 0 ≡ ok lines_flow
unfolding create find_node_by_name find_if Producer.create Producer.set_topic_partitions
lines_made = refl

words_made : create plain_ndn listed_words graph "lines2words" none "1" 7 0 ≡ ok words_flow
unfolding create find_node_by_name find_if Producer.create Producer.set_topic_partitions
words_made = refl

abbrev after_call : Call (CallbackOf passing) → WcWorld → WcWorld
after_call c w = (handle_event plain_ndn listed_words passing plain (call c) w).1

abbrev a_push : Call (CallbackOf passing)
a_push = push "lines" (104 ∷ [])

abbrev to_listen : Call (CallbackOf passing)
to_listen = repartition_consumers "lines" (0 ∷ 1 ∷ [])

abbrev pushed : WcWorld
pushed = after_call a_push (lines_flow, [])

abbrev listening : WcWorld
listening = after_call to_listen (words_flow, [])

-- The node that splits words asks for two partitions, and the other node publishes a line.
both_acted : Reach plain_ndn listed_words passing Tree ℕ plain "wc" (listening ∷ pushed ∷ [])
unfolding get_application_name
both_acted =
    then_step _ _
      (then_step _ _
        (then_step _ _
          (then_step _ _ alone
            (join [] graph "text2lines" none "0" 7 0 [] lines_flow refl lines_made))
          (join ((lines_flow, []) ∷ []) graph "lines2words" none "1" 7 0 [] words_flow refl
            words_made))
        (act [] ((lines_flow, []) ∷ []) (words_flow, []) to_listen))
      (act (listening ∷ []) [] (lines_flow, []) a_push)

abbrev publisher : Instance
publisher = record {
  entries =
      (1, text "wc/lines" ∷ text "backchannel" ∷ [], Handler.backchannel "/node-wc/0" "wc") ∷ [];
  log = (text "wc/lines" ∷ number 1 ∷ [], 104 ∷ []) ∷ [];
  data_store = [];
}

abbrev subscriber : Instance
subscriber = record {
  entries =
      (4, text "wc/lines" ∷ number 1 ∷ [], Handler.consumer "lines")
      ∷ (2, text "wc/lines" ∷ number 0 ∷ [], Handler.consumer "lines")
      ∷ (1, text "wc/words" ∷ text "backchannel" ∷ [], Handler.backchannel "/node-wc/1" "wc")
      ∷ [];
  log = [];
  data_store = [];
}

pushed_lem : pushed.0.svs ≡ some publisher
unfolding create handle_event make_call push_data find_node_by_name find_if Producer.create
    Producer.set_topic_partitions Producer.push_data find_upstream_edges_of find_upstream_edges
    get_application_name
pushed_lem = refl

listening_lem : listening.0.svs ≡ some subscriber
unfolding create handle_event make_call repartition_consumer find_node_by_name find_if
    Producer.create Producer.set_topic_partitions find_upstream_edges_of find_upstream_edges
    Consumer.repartition Consumer.destroy Consumer.create get_application_name
listening_lem = refl

abbrev a_match :
    Matches plain_ndn listed_words passing Tree ℕ pushed listening
      (Handler.consumer "lines")
      (104 ∷ [])
a_match = record {
  sender = publisher;
  receiver = subscriber;
  handle = 4;
  subscribed = text "wc/lines" ∷ number 1 ∷ [];
  name = text "wc/lines" ∷ number 1 ∷ [];
  sends = pushed_lem;
  receives = listening_lem;
  published = Memᴰ.head refl;
  subscription = refl;
  begins = refl;
}

Matches-Received_example :
    Received plain_ndn plain "wc"
      (text "wc/lines" ∷ number 1 ∷ [])
      (Handler.consumer "lines")
      (text "wc/lines" ∷ number 1 ∷ [], 104 ∷ [])
Matches-Received_example =
    Matches-Received plain_ndn plain_ndn-IsLawful plain_ndn-TellsApart listed_words passing plain
      "wc" (listening ∷ pushed ∷ []) pushed listening (Handler.consumer "lines") (104 ∷ []) a_match
      both_acted (Memᴰ.tail (Memᴰ.head refl)) (Memᴰ.head refl)

abbrev lines_producer : Producer (List ℕ) ℕ
lines_producer = record {
  pub_topic = "wc/lines";
  node_prefix = "/node-wc/0";
  sync_prefix = "wc";
  number_of_partitions = 2;
  topic_partitions = 0 ∷ 1 ∷ [];
  random_number_generator = 7 ∷ [];
  congestion_reporter = none;
  production_timestamps = [];
  max_production_timestamp_age = 1_000_000_000;
  downstream_edge_name = "lines";
  idle_since = 0;
}

abbrev new_consumer : Consumer (CallbackOf passing) ℕ
new_consumer = record {
  sub_topic = "wc/lines";
  upstream_edge_name = "lines";
  subscription_handles = [];
  consumption_timestamps = [];
  max_consumption_age = 1_000_000_000;
  consumer_callback = none;
  congestion_reporter = none;
  idle_since = 0;
}

lines_producer_found : lookup "lines" lines_flow.producers ≡ some lines_producer
unfolding create find_node_by_name find_if Producer.create Producer.set_topic_partitions
    get_application_name find_upstream_edges_of find_upstream_edges
lines_producer_found = refl

new_consumer_found : lookup "lines" words_flow.consumers ≡ some new_consumer
unfolding create find_node_by_name find_if Producer.create Producer.set_topic_partitions
    find_upstream_edges_of find_upstream_edges Consumer.create get_application_name
new_consumer_found = refl

same_application : words_flow.sync_prefix ≡ lines_flow.sync_prefix
unfolding create find_node_by_name find_if Producer.create Producer.set_topic_partitions
    get_application_name find_upstream_edges_of find_upstream_edges
same_application = refl

words_flow-IsReady : IsReady words_flow
words_flow-IsReady =
    (create-IsConnected plain_ndn listed_words graph "lines2words" none "1" 7 0 words_flow
      words_made).ready

lines_flow-IsReady : IsReady lines_flow
lines_flow-IsReady =
    (create-IsConnected plain_ndn listed_words graph "text2lines" none "0" 7 0 lines_flow
      lines_made).ready

-- One splitter has the partition 0, and another one the partition 1.
abbrev halves : List (Share plain_ndn listed_words passing Tree ℕ)
halves =
    record { node = (words_flow, []); partitions = 0 ∷ [] }
    ∷ record { node = (words_flow, []); partitions = 1 ∷ [] }
    ∷ []

halves-IsShared : (k : ℕ) → k < 2 → IsShared plain_ndn listed_words passing Tree ℕ halves k
halves-IsShared zero h = (_, Memᴰ.head refl, refl)
halves-IsShared (suc zero) h = (_, Memᴰ.tail (Memᴰ.head refl), refl)
halves-IsShared (suc (suc k)) h = absurd (omega arith)

push_data-Matches_example :
    (share : Share plain_ndn listed_words passing Tree ℕ) × Memᴰ share halves
    × Matches plain_ndn listed_words passing Tree ℕ
        ((push_data plain_ndn listed_words "lines" (104 ∷ []) lines_flow).1, [])
        (serving plain_ndn listed_words passing Tree ℕ "lines" share)
        (Handler.consumer "lines")
        (104 ∷ [])
push_data-Matches_example =
    push_data-Matches plain_ndn plain_ndn-IsLawful listed_words passing "lines" (104 ∷ [])
      lines_flow [] lines_producer halves lines_flow-IsReady lines_producer_found
      (
        (words_flow-IsReady, same_application, (new_consumer, new_consumer_found)),
        ((words_flow-IsReady, same_application, (new_consumer, new_consumer_found)), tt),
      )
      halves-IsShared

-- A round in which the splitter pushes and is then shut down.
abbrev a_round : List (List (Event (CallbackOf passing)))
a_round = (call (push "words" (5 ∷ [])) ∷ call stop ∷ []) ∷ []

run-get_producer_stats_example :
    let v = (run plain_ndn listed_words passing plain a_round (words_flow, [])).1.0 in
    ((lookup "words" v.producers ≡ none) × (lookup "words" (get_producer_stats 9 v) ≡ none))
    ⊎ ((stats : EdgeProductionStats) × (lookup "words" (get_producer_stats 9 v) ≡ some stats)
        × (stats.units_produced ≡ 0))
run-get_producer_stats_example =
    run-get_producer_stats plain_ndn plain_ndn-IsLawful listed_words passing plain graph
      "lines2words" none "1" 7 0 words_flow [] a_round 9 "words" words_made
