-- ===== src/Tests/Ends.antt =====
-- One producer and one consumer.
use iceflow.Prelude.{ℕ, ◌≡◌, true, ◌⊎◌, none, some, List, [], ◌∷◌, arith, is_listed, if◌then◌else◌}
use iceflow.Prelude.Errors.{ok}
use iceflow.Ndn.Plain.{plain_ndn, plain_ndn-IsLawful, PlainName, Instance}
use iceflow.Json.Plain.{plain, plain_dumps}
use iceflow.Consumer
use iceflow.Consumer.{Consumer, Surroundings, SubscriptionData}
use iceflow.Consumer.Partitions.{Serves, Others, repartition_lem}
use iceflow.Consumer.Window.{save_all, get_consumption_stats-save_all}
use iceflow.Producer
use iceflow.Producer.{Producer}
use iceflow.Producer.Backchannel.{data_name, handle_backchannel-dump_number}
use iceflow.Flow.Events.{CallbackOf}
use iceflow.Tests.{lines_consumer, instance_of_wc, passing}

abbrev ConsumerCallbacks : Type 0
ConsumerCallbacks = CallbackOf passing

abbrev two : ℕ
two = 2

abbrev three : ℕ
three = 3

repartition_lem_example :
    let ps : List ℕ = 3 ∷ 1 ∷ [] in
    (handles : List ℕ) × (s' : Instance) × (Consumer.repartition plain_ndn ps lines_consumer
        (some instance_of_wc)
      ≡ (true, record lines_consumer { subscription_handles = handles }, some s'))
    × Serves plain_ndn "wc/lines" "lines" ps handles s'
    × Others plain_ndn (1 ∷ []) instance_of_wc s'
    × ((k : ℕ)
        → (is_listed k handles ≡ true)
          ⊎ (plain_ndn.subscription s' k
              ≡ (if is_listed k (1 ∷ []) then none else plain_ndn.subscription instance_of_wc k)))
repartition_lem_example =
    repartition_lem plain_ndn plain_ndn-IsLawful (3 ∷ 1 ∷ []) lines_consumer instance_of_wc

get_consumption_stats-save_all_example :
    (Consumer.get_consumption_stats 9_000_000_000 (
      save_all
        (100 ∷ 100 ∷ 7_000_000_000 ∷ [])
        (Consumer.create {K = ConsumerCallbacks} {R = ℕ} "wc" "lines" none 50))).0.units_consumed
    ≡ 3
get_consumption_stats-save_all_example =
    get_consumption_stats-save_all ConsumerCallbacks "wc" "lines" none 50 9_000_000_000
      (100 ∷ 100 ∷ 7_000_000_000 ∷ []) (ground arith) (omega arith)

handle_backchannel-dump_number_example :
    let s' =
      Producer.handle_backchannel plain_ndn plain "/node-wc/0" "wc"
        (plain.dump_number 5)
        instance_of_wc in
    (plain_ndn.stored s' (data_name plain_ndn "/node-wc/0" "wc" 5) ≡ none)
    × ((other : PlainName)
        → (other ≡ data_name plain_ndn "/node-wc/0" "wc" 5)
          ⊎ (plain_ndn.stored s' other ≡ plain_ndn.stored instance_of_wc other))
handle_backchannel-dump_number_example =
    handle_backchannel-dump_number plain_ndn plain_ndn-IsLawful plain plain_dumps "/node-wc/0" "wc"
      5 instance_of_wc (omega arith)

abbrev surrounding : Surroundings plain_ndn (Unit {0}) Instance
surrounding = record {
  svs = λ w. some w;
  with_svs = λ s w. s;
  invoke = λ callback payload w. (ok tt, w);
}

abbrev idle_consumer : Consumer (Unit {0}) ℕ
idle_consumer = record {
  sub_topic = "wc/lines";
  upstream_edge_name = "lines";
  subscription_handles = [];
  consumption_timestamps = [];
  max_consumption_age = 1_000_000_000;
  consumer_callback = some tt;
  congestion_reporter = none;
  idle_since = 0;
}

abbrev a_line : SubscriptionData
a_line = record { seq_no = 5; payload = 104 ∷ 105 ∷ [] }
