-- ===== src/Producer.antt =====
-- include/iceflow/producer.hpp and src/producer.cpp: the producing end of one edge. As in
-- Consumer.antt the SVS instance is an option and the clock's readings are arguments. `R` stands for
-- the application's congestion reporters.
pub mod Topics
pub mod Backchannel
pub mod Publishing
use Prim.Native.String.{◌++◌ as ◌<>◌}
use iceflow.Prelude.{
  ℕ, zero, suc, ◌+◌, ◌%◌, ◌^◌, Bool, true, false, Option, none, some, List, [], ◌∷◌, ◌++◌, String,
  length, is_listed, ◌==◌, if◌then◌else◌,
}
use iceflow.Prelude.Errors.{Result, ok, throw, invalid_argument, ◌>>=◌}
use iceflow.Ndn.{Ndn, Handler, Generator}
use iceflow.Json.{Json}
use iceflow.Stats.{EdgeProductionStats, CongestionReason, Report}
use iceflow.Timestamps.{one_second, clean_up_timestamps, save_timestamp, determine_idle_time}

-- `IceflowProducer`, without the pointer to the SVS instance. `downstream_edge_name` is what
-- `m_downstreamEdgeName`, a reference, refers to in the constructor. `topic_partitions` is an
-- `std::unordered_set`: a list without repetitions.
pub record Producer (G R : Type 0) : Type 0 where
  pub pub_topic : String
  pub node_prefix : String
  pub sync_prefix : String
  pub number_of_partitions : ℕ
  pub topic_partitions : List ℕ
  pub random_number_generator : G
  pub congestion_reporter : Option R
  pub production_timestamps : List ℕ
  pub max_production_timestamp_age : ℕ
  pub downstream_edge_name : String
  pub idle_since : ℕ

-- `emplace_hint` of a set of `uint32_t`
set_emplace : ℕ → List ℕ → List ℕ
set_emplace p partitions = if is_listed p partitions then partitions else partitions ++ p ∷ []

-- The `for` loop from `i` on, with `left` rounds to go; the `uint64_t` is narrowed to `uint32_t`.
emplace_partitions : ℕ → ℕ → List ℕ → List ℕ
unfolding set_emplace
emplace_partitions zero i partitions = partitions
emplace_partitions (suc left) i partitions =
    emplace_partitions left (i + 1) (set_emplace (i % 2 ^ 32) partitions)

module _ {G R : Type 0} where
  unfoldable pub set_topic_partitions : ℕ → Producer G R → Result (Producer G R)
  unfolding emplace_partitions
  set_topic_partitions number_of_partitions p =
      if number_of_partitions == 0
      then throw (invalid_argument "At least one topic partition has to be defined!")
      else ok (record p { topic_partitions = emplace_partitions number_of_partitions 0 [] })

  -- `saveTimestamp`; nothing in the repository calls it.
  unfoldable pub save_production : ℕ → Producer G R → Producer G R
  save_production timestamp p = record p {
    production_timestamps =
        save_timestamp p.max_production_timestamp_age timestamp p.production_timestamps;
  }

  -- `getProductionStats`, at time `now`
  unfoldable pub get_production_stats : ℕ → Producer G R → EdgeProductionStats × Producer G R
  get_production_stats now p =
      let kept = clean_up_timestamps p.max_production_timestamp_age now p.production_timestamps in
      (
        record { units_produced = length kept; idle_time = determine_idle_time p.idle_since now },
        record p { production_timestamps = kept },
      )

  -- `m_downstreamEdgeName` is a reference; `edge_name` is what it refers to at the time of the call.
  unfoldable pub report_congestion :
      CongestionReason → (edge_name : String) → Producer G R → Option (Report R)
  report_congestion reason edge_name p = elim p.congestion_reporter [
    | none ↦ none
    | some reporter ↦ some (record { reporter = reporter; reason = reason; edge_name = edge_name })
  ]

module _ (E : Generator) {R : Type 0} where
  -- The next word of the generator modulo `m_numberOfPartitions`. A producer that was made has at
  -- least one partition; without one the C++ division would be undefined.
  unfoldable pub get_next_partition_number : Producer E.State R → ℕ × Producer E.State R
  get_next_partition_number p =
      let (word, state) = E.next p.random_number_generator in
      (word % p.number_of_partitions, record p { random_number_generator = state })

-- The lambda that `setupBackchannel` subscribes, with what it captures: it forgets the data whose
-- sequence number has been acknowledged, and ignores whatever it cannot read.
module _ (N : Ndn) (J : Json) where
  erase_acknowledged : String → String → Result ℕ → N.Svs → N.Svs
  erase_acknowledged node_prefix sync_prefix (throw e) s = s
  erase_acknowledged node_prefix sync_prefix (ok sequence_number) s =
      let data_name = N.append (N.parse_name node_prefix) sync_prefix in
      N.erase (N.append_number data_name sequence_number) s

  read_number : J.Value → String → String → N.Svs → N.Svs
  unfolding erase_acknowledged
  read_number json node_prefix sync_prefix s =
      if J.is_number_integer json
      then erase_acknowledged node_prefix sync_prefix (J.get_uint64 json) s
      else s

  unfoldable pub handle_backchannel : String → String → List ℕ → N.Svs → N.Svs
  unfolding read_number
  handle_backchannel node_prefix sync_prefix bytes s = elim (J.parse bytes) [
    | throw e ↦ s
    | ok json ↦ read_number json node_prefix sync_prefix s
  ]

module _ (N : Ndn) (E : Generator) {R : Type 0} where
  open N use {Name, Svs}

  unfoldable pub prepare_data_name : ℕ → Producer E.State R → Name
  prepare_data_name partition p = N.append_number (N.parse_name p.pub_topic) partition

  setup_backchannel : Producer E.State R → Option Svs → Option Svs
  setup_backchannel p none = none
  setup_backchannel p (some s) =
      some
        (N.subscribe (N.append (N.parse_name p.pub_topic) "backchannel")
          (Handler.backchannel p.node_prefix p.sync_prefix) s).1

  blank : String → String → String → ℕ → Option R → ℕ → Producer E.State R
  blank node_prefix sync_prefix edge_name number_of_partitions reporter seed = record {
    pub_topic = sync_prefix <> ("/" <> edge_name);
    node_prefix = node_prefix;
    sync_prefix = sync_prefix;
    number_of_partitions = number_of_partitions;
    topic_partitions = [];
    random_number_generator = E.seeded seed;
    congestion_reporter = reporter;
    production_timestamps = [];
    max_production_timestamp_age = one_second;
    downstream_edge_name = edge_name;
    idle_since = 0;
  }

  -- the constructor; `seed` is `time(nullptr)`, and `m_idleSince` starts at the clock's epoch
  unfoldable pub create :
      String
      → String
      → String
      → ℕ
      → Option R
      → ℕ
      → Option Svs
      → Result (Producer E.State R × Option Svs)
  unfolding blank setup_backchannel
  create node_prefix sync_prefix edge_name number_of_partitions reporter seed svs = do
    p ←
        set_topic_partitions number_of_partitions
          (blank node_prefix sync_prefix edge_name number_of_partitions reporter seed)
    ok (p, setup_backchannel p svs)

  -- `pushData`: one message, to a partition that is drawn at random, kept fresh for four seconds
  unfoldable pub push_data :
      List ℕ → Producer E.State R → Option Svs → Producer E.State R × Option Svs
  unfolding get_next_partition_number prepare_data_name
  push_data payload p svs = elim svs [
    | none ↦ (p, none)
    | some s ↦
        let (partition, p') = get_next_partition_number E p in
        (
          p',
          some
              (N.publish_as (prepare_data_name partition p') payload (N.parse_name p.node_prefix) 4
                s).1,
        )
  ]
