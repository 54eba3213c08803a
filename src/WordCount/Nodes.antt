-- ===== src/WordCount/Nodes.antt =====
-- The `run` functions of examples/wordCount up to the call of `IceFlow::run`: a node is made from the
-- graph, and the application's callback is registered with it. The classes are applications in the
-- sense of Flow/Events.antt; a prosumer callback is given by the downstream edge that it captures.
pub mod Starting
pub mod Edges
pub mod Splitters
pub mod Counters
pub mod CounterStart
pub mod Delivering
use iceflow.Prelude.{ℕ, ◌≡◌, Option, none, some, List, [], ◌∷◌, String}
use iceflow.Prelude.Errors.{Result, ok, throw, bad_optional_access, ◌>>=◌}
use iceflow.Ndn.{Ndn, Generator}
use iceflow.Json.{Json}
use iceflow.Dag.{Edge, DagParser}
use iceflow.Measurements
use iceflow.Measurements.{Measurement, Directory}
use iceflow.Flow.{
  Flow, create_from_file, get_node_prefix, get_upstream_edge, get_downstream_edge,
  get_application_parameter, register_consumer_callback, repartition_consumer,
}
use iceflow.Flow.Events.{Application, CallbackOf, consuming, prosuming, World, push_all}
use iceflow.Flow.Events.Pushing.{to_edge}
use iceflow.WordCount.{create_consumer_partitions}
use iceflow.WordCount.Recording.{Recorder}
use iceflow.WordCount.Splitting.{WordSplitter, lines2words, text2lines}
use iceflow.WordCount.Counting.{WordCounter, count_word}

-- `std::optional::value`
unfoldable pub value {ℓ} : {A : Type ℓ} → Option A → Result A
value none = throw bad_optional_access
value (some v) = ok v

module _ (to_string : ℕ → String) (clock : ℕ → ℕ) where
  -- `prosumerCallback` of lines2words.cpp
  unfoldable pub split_line :
      String → List ℕ → WordSplitter → List (WordSplitter × String × List ℕ) × WordSplitter
  split_line downstream_edge_name payload s =
      let (pushes, s') = lines2words to_string clock payload s in
      (to_edge downstream_edge_name pushes, s')

  abbrev pub splitting : Application
  splitting = record {
    State = WordSplitter;
    ConsumerCallback = ⊥;
    ProsumerCallback = String;
    consume = λ callback payload s. (ok tt, s);
    prosume = split_line;
  }

  abbrev pub counting : Application
  counting = record {
    State = WordCounter;
    ConsumerCallback = Unit {0};
    ProsumerCallback = ⊥;
    consume = λ callback payload c. (ok tt, count_word to_string clock payload c);
    prosume = λ callback payload c. ([], c);
  }

module _ (N : Ndn) (E : Generator) (J : Json) {K R : Type 0} where
  -- The handler of the measurements, as each application makes it.
  make_handler : String → Flow N E J.Object K R → Result Measurement
  unfolding value get_node_prefix
  make_handler node_name t = do
    save_threshold ← value (get_application_parameter J J.get_uint64 "measurementsSaveThreshold" t)
    ok (Measurements.create node_name (get_node_prefix t) save_threshold "A")

  -- From `saveThreshold` on: the callback is registered, and the consumer gets its partitions.
  unfoldable pub attach :
      String
      → (upstream_edge_name : String) → (callback : K) → (partitions : List ℕ)
      → Flow N E J.Object K R
      → Result (Flow N E J.Object K R × Measurement)
  unfolding make_handler
  attach node_name upstream_edge_name callback partitions t = do
    handler ← make_handler node_name t
    let registered = register_consumer_callback upstream_edge_name callback t
    _ ← registered.0
    let repartitioned = repartition_consumer N E upstream_edge_name partitions registered.1
    _ ← repartitioned.0
    ok (repartitioned.1, handler)

  first_upstream : Flow N E J.Object K R → Result (Edge J.Object)
  unfolding value
  first_upstream t = get_upstream_edge 0 t >>= value

  first_downstream : Flow N E J.Object K R → Result (Edge J.Object)
  unfolding value
  first_downstream t = get_downstream_edge 0 t >>= value

  -- The two edges of lines2words.cpp
  unfoldable pub edges_of : Flow N E J.Object K R → Result (Edge J.Object × Edge J.Object)
  unfolding first_upstream first_downstream
  edges_of t = do
    upstream ← first_upstream t
    downstream ← first_downstream t
    ok (upstream, downstream)

  -- `run` of text2lines.cpp, up to the threads: the edge, the handler, and the name of the text
  unfoldable pub start_reader :
      String → Flow N E J.Object K R → Result (Edge J.Object × Measurement × String)
  unfolding first_downstream value get_node_prefix
  start_reader node_name t = do
    downstream ← first_downstream t
    save_threshold ← value (get_application_parameter J J.get_uint64 "measurementsSaveThreshold" t)
    source_text_file_name ← value (get_application_parameter J J.get_string "sourceTextFileName" t)
    let handler = Measurements.create node_name (get_node_prefix t) save_threshold "A"
    ok (downstream, handler, source_text_file_name)

module _ (N : Ndn) (E : Generator) (J : Json) {K R : Type 0} where
  -- `run` of text2lines.cpp up to the threads, with the node
  unfoldable pub run_text2lines :
      (node_name dag_file_name : String)
      → (file : Option (List ℕ)) → (uuid : String) → (seed now : ℕ)
      → Result (Flow N E J.Object K R × Edge J.Object × Measurement × String)
  unfolding start_reader
  run_text2lines node_name dag_file_name file uuid seed now = do
    t ← create_from_file N E J dag_file_name file node_name none uuid seed now
    started ← start_reader N E J node_name t
    ok (t, started.0, started.1, started.2)

-- The second thread of text2lines.cpp, on what the file holds, from the node that the first thread
-- runs; a push that throws ends it.
module _ (N : Ndn) (E : Generator) (to_string : ℕ → String) (clock : ℕ → ℕ) {C K R : Type 0} where
  unfoldable pub push_text :
      (downstream_edge_name : String)
      → Option (List ℕ)
      → Recorder
      → Flow N E C K R
      → Result (Unit {0}) × (Flow N E C K R × Recorder)
  push_text downstream_edge_name file r t =
      let (pushes, r') = text2lines to_string clock file r in
      push_all N E (to_edge downstream_edge_name pushes) r' t

module _ (N : Ndn) (E : Generator) (J : Json) (to_string : ℕ → String) (clock : ℕ → ℕ)
    (R : Type 0) where
  abbrev pub SplittingFlow : Type 0
  SplittingFlow = Flow N E J.Object (CallbackOf (splitting to_string clock)) R

  abbrev pub CountingFlow : Type 0
  CountingFlow = Flow N E J.Object (CallbackOf (counting to_string clock)) R

-- `files` and `readings` are what the directory and the clock are when the process starts.
module _ (N : Ndn) (E : Generator) (J : Json) (to_string : ℕ → String) (clock : ℕ → ℕ) {R : Type 0}
    (files : Directory) (readings : ℕ) where
  splitter_state :
      SplittingFlow N E J to_string clock R × Measurement
      → World N E (splitting to_string clock) J.Object R
  splitter_state (t, m) = (
    t,
    record {
      compute_counter = 0;
      recorder = record { measurement = m; files = files; readings = readings };
    },
  )

  -- `run` of lines2words.cpp from the node on; `none` where the loop over the partitions does not end
  -- within the fuel
  unfoldable pub start_splitter :
      (fuel : ℕ)
      → String
      → (consumer_index number_of_consumers : ℕ) → SplittingFlow N E J to_string clock R
      → Option (Result (World N E (splitting to_string clock) J.Object R))
  unfolding edges_of splitter_state
  start_splitter fuel node_name consumer_index number_of_consumers t = elim (edges_of N E J t) [
    | throw e ↦ some (throw e)
    | ok (upstream, downstream) ↦
        (elim (create_consumer_partitions fuel upstream.max_partitions consumer_index 2) [
          | none ↦ none
          | some partitions ↦ some (
              attach N E J node_name upstream.id (prosuming downstream.id) partitions t
              >>= λ started. ok (splitter_state started))
        ])
  ]

  -- `run` of lines2words.cpp up to `IceFlow::run`
  unfoldable pub run_lines2words :
      (fuel : ℕ)
      → (node_name dag_file_name : String) → (file : Option (List ℕ)) → (uuid : String)
      → (seed now : ℕ) → (consumer_index number_of_consumers : ℕ)
      → Option (Result (World N E (splitting to_string clock) J.Object R))
  unfolding start_splitter
  run_lines2words fuel node_name dag_file_name file uuid seed now consumer_index number =
      let made : Result (SplittingFlow N E J to_string clock R) =
        create_from_file N E J dag_file_name file node_name none uuid seed now in
      elim made [
        | throw e ↦ some (throw e)
        | ok t ↦ start_splitter fuel node_name consumer_index number t
      ]

  counter_state :
      CountingFlow N E J to_string clock R × Measurement
      → World N E (counting to_string clock) J.Object R
  counter_state (t, m) = (
    t,
    record {
      word_count_map = [];
      compute_counter = 0;
      recorder = record { measurement = m; files = files; readings = readings };
    },
  )

  -- `run` of wordcount.cpp from the node on
  unfoldable pub start_counter :
      String
      → CountingFlow N E J to_string clock R
      → Result (World N E (counting to_string clock) J.Object R)
  unfolding first_upstream counter_state
  start_counter node_name t = do
    upstream ← first_upstream N E J t
    started ← attach N E J node_name upstream.id (consuming tt) (0 ∷ []) t
    ok (counter_state started)

  -- `run` of wordcount.cpp up to `IceFlow::run`
  unfoldable pub run_wordcount :
      (node_name dag_file_name : String)
      → (file : Option (List ℕ)) → (uuid : String) → (seed now : ℕ)
      → Result (World N E (counting to_string clock) J.Object R)
  unfolding start_counter
  run_wordcount node_name dag_file_name file uuid seed now = do
    t ← create_from_file N E J dag_file_name file node_name none uuid seed now
    start_counter node_name t
