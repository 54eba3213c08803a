-- ===== src/Tests.antt =====
-- The word count example (examples/wordCount) with small parts in place of NDN, JSON and the random
-- numbers: what the theorems say at concrete inputs.
pub mod Graph
pub mod Ends
pub mod Nodes
pub mod Events
pub mod Remote
pub mod Queues
pub mod Reports
pub mod Words
pub mod Applications
pub mod Group
pub mod Instances
use iceflow.Prelude.{
  ℕ, ◌+◌, ◌<◌, ◌≡◌, refl, Bool, true, false, Option, none, some, List, [], ◌∷◌, String, arith,
}
use iceflow.Prelude.Errors.{Result, ok}
use iceflow.Ndn.{Handler}
use iceflow.Prelude.Dict.{insert-AllEntries}
use iceflow.Ndn.Plain.{plain_ndn, listed_words, text, number, Instance}
use iceflow.Json.Plain.{Tree, fields, end}
use iceflow.Dag.{Resources, Container, ScalingParameters, Edge, Node, DagParser}
use iceflow.Consumer.{Consumer}
use iceflow.Producer.{Producer}
use iceflow.Flow.{Flow}
use iceflow.Flow.Setup.{IsReady, ServesEdge, ListensTo, no_entries}
use iceflow.Flow.Events.{Application, CallbackOf, consuming, prosuming, World}

abbrev pub nothing : Tree
nothing = fields end

abbrev pub small_container : Container
small_container = record {
  image = "image";
  tag = "latest";
  envs = [];
  mounts = ("here", "there") ∷ [];
  resources = record { cpu = 1; memory = 2 };
}

abbrev pub edge_to : String → String → Edge Tree
edge_to id target = record {
  id = id;
  target = target;
  max_partitions = 2;
  application_configuration = nothing;
}

abbrev pub node_of : String → List (Edge Tree) → Node Tree
node_of name downstream = record {
  task = name;
  name = name;
  description = "";
  executor = "";
  container = small_container;
  scaling_parameters = record { task_complexity = 1 };
  downstream = downstream;
  application_configuration = nothing;
}

abbrev pub splitter : Node Tree
splitter = node_of "lines2words" (edge_to "words" "wordcount" ∷ [])

abbrev pub graph : DagParser Tree Tree
graph = record {
  application_name = "wc";
  nodes =
      node_of "text2lines" (edge_to "lines" "lines2words" ∷ [])
      ∷ splitter
      ∷ node_of "wordcount" []
      ∷ [];
  json = none;
}

-- An application that keeps what it gets, and whose prosumer passes it on.
abbrev pub passing : Application
passing = record {
  State = List (List ℕ);
  ConsumerCallback = Unit {0};
  ProsumerCallback = Unit {0};
  consume = λ callback payload received. (ok tt, payload ∷ received);
  prosume = λ callback payload received. ((received, "words", payload) ∷ [], payload ∷ received);
}

abbrev pub words_producer : Producer (List ℕ) ℕ
words_producer = record {
  pub_topic = "wc/words";
  node_prefix = "/node-wc/0";
  sync_prefix = "wc";
  number_of_partitions = 2;
  topic_partitions = 0 ∷ 1 ∷ [];
  random_number_generator = 7 ∷ 4 ∷ [];
  congestion_reporter = none;
  production_timestamps = [];
  max_production_timestamp_age = 1_000_000_000;
  downstream_edge_name = "words";
  idle_since = 0;
}

abbrev pub lines_consumer : Consumer (CallbackOf passing) ℕ
lines_consumer = record {
  sub_topic = "wc/lines";
  upstream_edge_name = "lines";
  subscription_handles = 1 ∷ [];
  consumption_timestamps = [];
  max_consumption_age = 1_000_000_000;
  consumer_callback = some (prosuming tt);
  congestion_reporter = none;
  idle_since = 0;
}

abbrev pub instance_of_wc : Instance
instance_of_wc = record {
  entries =
      (2, text "wc/other" ∷ [], Handler.consumer "other")
      ∷ (1, text "wc/lines" ∷ number 0 ∷ [], Handler.consumer "lines")
      ∷ [];
  log = [];
  data_store = (text "/node-wc/0" ∷ text "wc" ∷ number 5 ∷ [], 9 ∷ []) ∷ [];
}

abbrev pub splitter_flow : Flow plain_ndn listed_words Tree (CallbackOf passing) ℕ
splitter_flow = record {
  running = false;
  svs = some instance_of_wc;
  node_prefix = "/node-wc/0";
  sync_prefix = "wc";
  producers = ("words", words_producer) ∷ [];
  consumers = ("lines", lines_consumer) ∷ [];
  congestion_reporter = none;
  node = splitter;
  downstream_edges = splitter.downstream;
  upstream_edges = edge_to "lines" "lines2words" ∷ [];
}

abbrev pub splitter_world : World plain_ndn listed_words passing Tree ℕ
splitter_world = (splitter_flow, [])

pub splitter_flow-IsReady : IsReady splitter_flow
splitter_flow-IsReady = record {
  live = (instance_of_wc, refl);
  producing =
      insert-AllEntries (ServesEdge "wc") "words" words_producer []
        (record { positive = omega arith; topic = refl; unstamped = refl }) (no_entries _);
  consuming =
      insert-AllEntries (ListensTo "wc") "lines" lines_consumer []
        (record { topic = refl; edge = refl }) (no_entries _);
}
