-- ===== src/Tests/Applications.antt =====
-- The nodes of the word count example, from the graph to what they publish.
use iceflow.Prelude.{
  ℕ, ◌+◌, ◌≡◌, refl, some, none, Option, List, [], ◌∷◌, ◌++◌, map, flatten, String, arith, All,
  false,
}
use iceflow.Prelude.Errors.{Result, ok, throw}
use iceflow.Prelude.Dict.{Dict, insert-AllEntries}
use iceflow.Ndn.{Handler}
use iceflow.Ndn.Plain.{plain_ndn, plain_ndn-IsLawful, listed_words, Instance}
use iceflow.Json.{Json}
use iceflow.Dag.Parser.{parse_from_file}
use iceflow.Json.Plain.{Tree, text, number, array, fields, to_entries, to_trees, plain}
use iceflow.Dag.{find_node_by_name, find_if, find_upstream_edges_of, find_upstream_edges}
use iceflow.Consumer
use iceflow.Producer
use iceflow.Consumer.{Consumer, SubscriptionData}
use iceflow.Producer.{Producer}
use iceflow.Flow.{Flow, create, create_from_file}
use iceflow.Flow.Setup.{IsReady, ServesEdge, ListensTo, no_entries}
use iceflow.Flow.Events.{CallbackOf, consuming, prosuming, World, deliver, process_events}
use iceflow.Flow.Events.Pushing.{PushedAll}
use iceflow.WordCount.Text.{split_words, split_lines}
use iceflow.WordCount.Splitting.{text2lines}
use iceflow.WordCount.Counting.{count_of, to_lower}
use iceflow.WordCount.Counting.Counts.{occurrences}
use iceflow.WordCount.Nodes.{
  splitting, counting, SplittingFlow, CountingFlow, push_text, run_lines2words, run_wordcount,
}
use iceflow.WordCount.Nodes.Splitters.{Countable, Ran, run_lines2words_lem}
use iceflow.WordCount.Nodes.CounterStart.{RanCounter, run_wordcount_lem}
use iceflow.WordCount.Nodes.Delivering.{SplitAndAcknowledged, deliver_splits, push_text_published}
use iceflow.WordCount.Nodes.Counters.{
  Arrival, payloads, deliveries, acknowledgements, process_events_counts,
}
use iceflow.Tests.{edge_to, words_producer, instance_of_wc, splitter}
use iceflow.Tests.Words.{
  a_folder, print, ticks, fresh, line_a_b, line_b, two_lines, splitter_at, counter,
}

-- A consumer of lines, and a node with it, for callbacks of any kind.
abbrev consumer_of : {K : Type 0} → K → Consumer K ℕ
consumer_of callback = record {
  sub_topic = "wc/lines";
  upstream_edge_name = "lines";
  subscription_handles = 1 ∷ [];
  consumption_timestamps = [];
  max_consumption_age = 1_000_000_000;
  consumer_callback = some callback;
  congestion_reporter = none;
  idle_since = 0;
}

abbrev flow_of : {K : Type 0} → K → Flow plain_ndn listed_words Tree K ℕ
flow_of callback = record {
  running = false;
  svs = some instance_of_wc;
  node_prefix = "/node-wc/0";
  sync_prefix = "wc";
  producers = ("words", words_producer) ∷ [];
  consumers = ("lines", consumer_of callback) ∷ [];
  congestion_reporter = none;
  node = splitter;
  downstream_edges = splitter.downstream;
  upstream_edges = edge_to "lines" "lines2words" ∷ [];
}

flow_of-IsReady : {K : Type 0} (callback : K) → IsReady (flow_of callback)
flow_of-IsReady callback = record {
  live = (instance_of_wc, refl);
  producing =
      insert-AllEntries (ServesEdge "wc") "words" words_producer []
        (record { positive = omega arith; topic = refl; unstamped = refl }) (no_entries _);
  consuming =
      insert-AllEntries (ListensTo "wc") "lines" (consumer_of callback) []
        (record { topic = refl; edge = refl }) (no_entries _);
}

abbrev to_words : CallbackOf (splitting print ticks)
to_words = prosuming "words"

abbrev splitting_world : World plain_ndn listed_words (splitting print ticks) Tree ℕ
splitting_world = (flow_of to_words, splitter_at 0)

abbrev a_line : SubscriptionData
a_line = record { seq_no = 5; payload = line_a_b }

deliver_splits_example :
    SplitAndAcknowledged plain_ndn plain_ndn-IsLawful listed_words plain print ticks "lines" "words"
      a_line 2 splitting_world
      (deliver plain_ndn listed_words
        (splitting print ticks)
        plain
        (Handler.consumer "lines")
        a_line
        10
        splitting_world)
deliver_splits_example =
    deliver_splits plain_ndn plain_ndn-IsLawful listed_words plain print ticks "lines" "words"
      a_line 10 splitting_world (consumer_of to_words) words_producer (flow_of-IsReady to_words)
      refl refl refl

push_text_published_example :
    PushedAll plain_ndn plain_ndn-IsLawful listed_words "wc/words" 2
      (split_lines two_lines)
      instance_of_wc
      (text2lines print ticks (some two_lines) fresh).1
      (push_text plain_ndn listed_words print ticks "words"
        (some two_lines)
        fresh
        (flow_of to_words))
push_text_published_example =
    push_text_published plain_ndn plain_ndn-IsLawful listed_words plain print ticks "words"
      two_lines fresh (flow_of to_words) words_producer instance_of_wc (flow_of-IsReady to_words)
      refl refl

abbrev to_count : CallbackOf (counting print ticks)
to_count = consuming tt

abbrev counting_world : World plain_ndn listed_words (counting print ticks) Tree ℕ
counting_world = (flow_of to_count, counter)

abbrev two_words : List Arrival
two_words =
    (record { seq_no = 5; payload = 98 ∷ [] }, 10)
    ∷ (record { seq_no = 6; payload = line_b }, 11)
    ∷ []

process_events_counts_example :
    let (result, w') =
      process_events plain_ndn listed_words
        (counting print ticks)
        plain
        (deliveries "lines" two_words)
        counting_world in
    (s s' : Instance) × (counting_world.0.svs ≡ some s)
    × (result ≡ ok tt)
    × (w'.0.svs ≡ some s')
    × IsReady w'.0
    × (s'.log ≡ s.log ++ acknowledgements plain_ndn plain "wc/lines" two_words)
    × (count_of (98 ∷ []) w'.1.word_count_map
        ≡ 0
          + occurrences
              (98 ∷ [])
              (map (map to_lower) (flatten (map split_words (payloads two_words)))))
process_events_counts_example =
    process_events_counts plain_ndn plain_ndn-IsLawful listed_words plain print ticks "lines"
      two_words counting_world (98 ∷ [])
      (record {
        ready = flow_of-IsReady to_count;
        consumer = consumer_of to_count;
        found = refl;
        registered = refl;
      })

abbrev configuration : Dict Tree
configuration = ("measurementsSaveThreshold", number 3) ∷ []

abbrev object : Dict Tree → Tree
object members = fields (to_entries members)

-- A node of the graph's document, with at most one edge.
abbrev node_tree : String → List Tree → Tree
node_tree name edges = object (
    ("task", text name)
    ∷ ("name", text name)
    ∷ ("description", text "")
    ∷ ("executor", text "")
    ∷ (
      "container",
      object (
          ("image", text "image")
          ∷ ("resources", object (("cpu", number 1) ∷ ("memory", number 2) ∷ []))
          ∷ []),
    )
    ∷ ("scalingParameters", object (("taskComplexity", number 1) ∷ []))
    ∷ ("downstream", array (to_trees edges))
    ∷ ("applicationConfiguration", object configuration)
    ∷ [])

abbrev edge_tree : String → String → Tree
edge_tree id target =
    object (("id", text id) ∷ ("target", text target) ∷ ("maxPartitions", number 2) ∷ [])

-- What the file of the graph is read as.
abbrev wc_document : Tree
wc_document = object (
    ("applicationName", text "wc")
    ∷ (
      "nodes",
      array (
          to_trees (
            node_tree "text2lines" (edge_tree "lines" "lines2words" ∷ [])
            ∷ node_tree "lines2words" (edge_tree "words" "wordcount" ∷ [])
            ∷ node_tree "wordcount" []
            ∷ [])),
    )
    ∷ [])

abbrev reading : Json
reading = record plain { parse = λ bytes. ok wc_document }

abbrev wc_file : Option (List ℕ)
wc_file = some []

-- A node that was made, or another where making it threw.
abbrev made_or : {A : Type 0} → A → Result A → A
made_or other (ok a) = a
made_or other (throw e) = other

abbrev new_splitter : SplittingFlow plain_ndn listed_words reading print ticks ℕ
new_splitter =
    made_or (flow_of to_words)
      (create_from_file plain_ndn listed_words reading "wc.json" wc_file "lines2words" none "0" 7 0)

new_splitter-made :
    create_from_file plain_ndn listed_words reading "wc.json" wc_file "lines2words" none "0" 7 0
    ≡ ok new_splitter
unfolding create_from_file create parse_from_file find_node_by_name find_if find_upstream_edges_of
    Producer.create Producer.set_topic_partitions Consumer.create Consumer.destroy
    find_upstream_edges
new_splitter-made = refl

new_splitter-Countable : All (Countable 9) new_splitter.upstream_edges
unfolding create_from_file create parse_from_file find_node_by_name find_if find_upstream_edges_of
    Producer.create Producer.set_topic_partitions Consumer.create Consumer.destroy
    find_upstream_edges
new_splitter-Countable = omega arith

run_lines2words_lem_example :
    Ran plain_ndn plain_ndn-IsLawful listed_words reading print ticks a_folder 0 "lines2words" 1
      new_splitter
      (run_lines2words plain_ndn listed_words reading print ticks a_folder 0 9 "lines2words"
        "wc.json" wc_file "0" 7 0 1 2)
run_lines2words_lem_example =
    run_lines2words_lem plain_ndn plain_ndn-IsLawful listed_words reading print ticks a_folder 0
      "lines2words" "wc.json" wc_file "0" 7 0 9 1 2 new_splitter new_splitter-made
      new_splitter-Countable

abbrev new_counter : CountingFlow plain_ndn listed_words reading print ticks ℕ
new_counter =
    made_or (flow_of to_count)
      (create_from_file plain_ndn listed_words reading "wc.json" wc_file "wordcount" none "0" 7 0)

new_counter-made :
    create_from_file plain_ndn listed_words reading "wc.json" wc_file "wordcount" none "0" 7 0
    ≡ ok new_counter
unfolding create_from_file create parse_from_file find_node_by_name find_if find_upstream_edges_of
    Producer.create Producer.set_topic_partitions Consumer.create Consumer.destroy
    find_upstream_edges
new_counter-made = refl

run_wordcount_lem_example :
    RanCounter plain_ndn plain_ndn-IsLawful listed_words reading print ticks a_folder 0 "wordcount"
      new_counter
      (run_wordcount plain_ndn listed_words reading print ticks a_folder 0 "wordcount" "wc.json"
        wc_file "0" 7 0)
run_wordcount_lem_example =
    run_wordcount_lem plain_ndn plain_ndn-IsLawful listed_words reading print ticks a_folder 0
      "wordcount" "wc.json" wc_file "0" 7 0 new_counter new_counter-made
