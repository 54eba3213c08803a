-- ===== src/Consumer.antt =====
-- include/iceflow/consumer.hpp and src/consumer.cpp: the consuming end of one edge. The
-- `std::weak_ptr` to the SVS instance is an option, `none` once the instance has expired. `K` stands
-- for the callbacks of an application and `R` for its congestion reporters; the clock's readings are
-- arguments.
pub mod Partitions
pub mod Delivery
pub mod Window
pub mod Listening
use Prim.Native.String.{◌++◌ as ◌<>◌}
use iceflow.Prelude.{ℕ, Bool, true, false, Option, none, some, List, [], ◌∷◌, ◌++◌, String, length}
use iceflow.Prelude.Errors.{Result, ok, throw, runtime_error}
use iceflow.Ndn.{Ndn, Handler}
use iceflow.Json.{Json}
use iceflow.Stats.{EdgeConsumptionStats, CongestionReason, Report}
use iceflow.Timestamps.{one_second, clean_up_timestamps, save_timestamp, determine_idle_time}

-- `IceflowConsumer`, without the pointer to the SVS instance. `upstream_edge_name` is what
-- `m_upstreamEdgeName`, a reference, refers to in the constructor.
pub record Consumer (K R : Type 0) : Type 0 where
  pub sub_topic : String
  pub upstream_edge_name : String
  pub subscription_handles : List ℕ
  pub consumption_timestamps : List ℕ
  pub max_consumption_age : ℕ
  pub consumer_callback : Option K
  pub congestion_reporter : Option R
  pub idle_since : ℕ

-- `ndn::svs::SVSPubSub::SubscriptionData`
pub record SubscriptionData : Type 0 where
  pub seq_no : ℕ
  pub payload : List ℕ

module _ {K R : Type 0} where
  -- the constructor, at time `now`
  unfoldable pub create : String → String → Option R → ℕ → Consumer K R
  create sync_prefix upstream_edge_name congestion_reporter now = record {
    sub_topic = sync_prefix <> ("/" <> upstream_edge_name);
    upstream_edge_name = upstream_edge_name;
    subscription_handles = [];
    consumption_timestamps = [];
    max_consumption_age = one_second;
    consumer_callback = none;
    congestion_reporter = congestion_reporter;
    idle_since = now;
  }

  unfoldable pub set_consumer_callback : K → Consumer K R → Consumer K R
  set_consumer_callback callback c = record c { consumer_callback = some callback }

  -- `saveTimestamp`, at time `now`
  unfoldable pub save_consumption : ℕ → Consumer K R → Consumer K R
  save_consumption now c = record c {
    consumption_timestamps = save_timestamp c.max_consumption_age now c.consumption_timestamps;
    idle_since = now;
  }

  -- `getConsumptionStats`, at time `now`
  unfoldable pub get_consumption_stats : ℕ → Consumer K R → EdgeConsumptionStats × Consumer K R
  get_consumption_stats now c =
      let kept = clean_up_timestamps c.max_consumption_age now c.consumption_timestamps in
      (
        record { units_consumed = length kept; idle_time = determine_idle_time c.idle_since now },
        record c { consumption_timestamps = kept },
      )

  -- The report that is made, if there is a reporter to make it to. `m_upstreamEdgeName` is a reference;
  -- `edge_name` is what it refers to at the time of the call.
  unfoldable pub report_congestion :
      CongestionReason → (edge_name : String) → Consumer K R → Option (Report R)
  report_congestion reason edge_name c = elim c.congestion_reporter [
    | none ↦ none
    | some reporter ↦ some (record { reporter = reporter; reason = reason; edge_name = edge_name })
  ]

unsubscribe_all : (N : Ndn) → List ℕ → N.Svs → N.Svs
unsubscribe_all N [] s = s
unsubscribe_all N (handle ∷ handles) s = unsubscribe_all N handles (N.unsubscribe handle s)

-- The state outlives an exception, so it is returned beside the result.
abbrev pub Subscribed : Type 0 → Type 0 → Type 0 → Type 0
Subscribed Svs K R = Result (Unit {0}) × Consumer K R × Option Svs

module _ (N : Ndn) {K R : Type 0} where
  open N use {Name, Svs}

  unfoldable pub prepare_data_name : ℕ → Consumer K R → Name
  prepare_data_name partition c = N.append_number (N.parse_name c.sub_topic) partition

  unfoldable pub unsubscribe_from_all_partitions :
      Consumer K R → Option Svs → Consumer K R × Option Svs
  unfolding unsubscribe_all
  unsubscribe_from_all_partitions c svs = (
    record c { subscription_handles = [] },
    elim svs [ none ↦ none | some s ↦ some (unsubscribe_all N c.subscription_handles s) ],
  )

  subscribe_to_topic_partition : ℕ → Consumer K R → Option Svs → Subscribed Svs K R
  unfolding prepare_data_name
  subscribe_to_topic_partition partition c none =
      (throw (runtime_error "SVS instance has already expired."), c, none)
  subscribe_to_topic_partition partition c (some s) =
      let (handle, s') =
        N.subscribe (prepare_data_name partition c) (Handler.consumer c.upstream_edge_name) s in
      (ok tt, record c { subscription_handles = c.subscription_handles ++ handle ∷ [] }, some s')

  -- the loop of `repartition`; an exception leaves it
  subscribe_to_partitions : List ℕ → Consumer K R → Option Svs → Subscribed Svs K R
  unfolding subscribe_to_topic_partition
  subscribe_to_partitions [] c svs = (ok tt, c, svs)
  subscribe_to_partitions (partition ∷ partitions) c svs =
      let (result, c', svs') = subscribe_to_topic_partition partition c svs in
      elim result [
        | ok _ ↦ subscribe_to_partitions partitions c' svs'
        | throw e ↦ (throw e, c', svs')
      ]

  -- `true` unless a `std::runtime_error` was caught; nothing else is thrown there.
  unfoldable pub repartition : List ℕ → Consumer K R → Option Svs → Bool × Consumer K R × Option Svs
  unfolding subscribe_to_partitions unsubscribe_from_all_partitions
  repartition partitions c svs =
      let (c', svs') = unsubscribe_from_all_partitions c svs in
      let (result, c'', svs'') = subscribe_to_partitions partitions c' svs' in
      (elim result [ ok _ ↦ true | throw _ ↦ false ], c'', svs'')

  -- `~IceflowConsumer`: what it leaves of the SVS instance
  unfoldable pub destroy : Consumer K R → Option Svs → Option Svs
  unfolding unsubscribe_from_all_partitions
  destroy c svs = (unsubscribe_from_all_partitions c svs).1

-- The world around a consumer, in which its callback runs: `W` holds the SVS instance and whatever
-- else the callback acts on. The callback does not reach the consumer itself.
pub record Surroundings (N : Ndn) (K W : Type 0) : Type 0 where
  pub svs : W → Option N.Svs
  pub with_svs : N.Svs → W → W
  pub invoke : K → List ℕ → W → Result (Unit {0}) × W

module _ (N : Ndn) (J : Json) {K R W : Type 0} (S : Surroundings N K W) where
  -- the message on the back channel that acknowledges a sequence number
  unfoldable pub acknowledge : ℕ → Consumer K R → W → W
  acknowledge seq_no c w = elim (S.svs w) [
    | none ↦ w
    | some s ↦
        let topic = N.append (N.parse_name c.sub_topic) "backchannel" in
        S.with_svs (N.publish topic (J.dump_number seq_no) s).1 w
  ]

  after_callback :
      Result (Unit {0}) → ℕ → ℕ → Consumer K R → W → Result (Unit {0}) × Consumer K R × W
  after_callback (throw e) seq_no now c w = (throw e, c, w)
  after_callback (ok _) seq_no now c w = (ok tt, save_consumption now c, acknowledge seq_no c w)

  with_callback :
      Option K → SubscriptionData → ℕ → Consumer K R → W → Result (Unit {0}) × Consumer K R × W
  unfolding after_callback
  with_callback none sub_data now c w = (ok tt, c, w)
  with_callback (some callback) sub_data now c w =
      let (result, w') = S.invoke callback sub_data.payload w in
      after_callback result sub_data.seq_no now c w'

  -- `subscribeCallBack`, where the callback returns at time `now`; without one, or if it throws,
  -- nothing is recorded or acknowledged.
  unfoldable pub subscribe_callback :
      SubscriptionData → ℕ → Consumer K R → W → Result (Unit {0}) × Consumer K R × W
  unfolding with_callback
  subscribe_callback sub_data now c w = with_callback c.consumer_callback sub_data now c w
