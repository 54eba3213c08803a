-- ===== src/Flow/Events.antt =====
-- What reaches a running node: deliveries of the SVS instance, and calls of other threads. Each event
-- is a whole call; IceFlow::run processes them in rounds. The application's callbacks are parameters:
-- a consumer callback acts on the application's own state, and a prosumer callback also makes a list
-- of calls of the producer callback that it is given, each in a state of the application, without
-- catching what they throw.
pub mod Calls
pub mod Deliveries
pub mod Pushing
pub mod Running
pub mod Unproduced
pub mod Acknowledged
pub mod Network
use iceflow.Prelude.{
  ℕ, Bool, true, false, not, Option, none, some, List, [], ◌∷◌, String, if◌then◌else◌,
}
use iceflow.Prelude.Errors.{Result, ok, throw, runtime_error}
use iceflow.Prelude.Dict.{lookup, insert}
use iceflow.Ndn.{Ndn, Generator, Handler}
use iceflow.Json.{Json}
use iceflow.Consumer
use iceflow.Consumer.{Consumer, SubscriptionData, Surroundings}
use iceflow.Producer
use iceflow.Flow.{
  IceFlow, Flow, push_data, repartition_consumer, repartition_producer, register_consumer_callback,
  get_consumer_stats, shutdown,
}

-- A callback as it is registered: by `registerConsumerCallback`, or by `registerProsumerCallback`.
pub data Callback (U P : Type 0) : Type 0 where
  consuming : U → Callback U P
  prosuming : P → Callback U P

pub record Application : Type 1 where
  pub State : Type 0
  pub ConsumerCallback : Type 0
  pub ProsumerCallback : Type 0
  pub consume : ConsumerCallback → List ℕ → State → Result (Unit {0}) × State
  pub prosume : ProsumerCallback → List ℕ → State → List (State × String × List ℕ) × State

abbrev pub CallbackOf : Application → Type 0
CallbackOf A = Callback A.ConsumerCallback A.ProsumerCallback

module _ {C S G U P R : Type 0} where
  unfoldable pub register_prosumer_callback :
      String
      → P
      → IceFlow C S G (Callback U P) R
      → Result (Unit {0}) × IceFlow C S G (Callback U P) R
  register_prosumer_callback edge_name callback =
      register_consumer_callback edge_name (prosuming callback)

-- A call of one of the methods of a node.
pub data Call (K : Type 0) : Type 0 where
  push : String → List ℕ → Call K
  repartition_consumers : String → List ℕ → Call K
  repartition_producers : String → ℕ → Call K
  register : String → K → Call K
  ask_consumers : ℕ → Call K
  stop : Call K

pub data Event (K : Type 0) : Type 0 where
  delivery : Handler → SubscriptionData → (now : ℕ) → Event K
  call : Call K → Event K

module _ (N : Ndn) (E : Generator) {C K R : Type 0} where
  unfoldable pub make_call : Call K → Flow N E C K R → Result (Unit {0}) × Flow N E C K R
  make_call (push edge_name payload) t = push_data N E edge_name payload t
  make_call (repartition_consumers edge_name partitions) t =
      repartition_consumer N E edge_name partitions t
  make_call (repartition_producers edge_name count) t = repartition_producer edge_name count t
  make_call (register edge_name callback) t = register_consumer_callback edge_name callback t
  make_call (ask_consumers now) t = (ok tt, (get_consumer_stats N E now t).1)
  make_call stop t = (ok tt, shutdown t)

  -- The calls of the producer callback, up to the first that throws, which leaves the application in
  -- the state that it was made in; `after` is the state after them all.
  unfoldable pub push_all :
      {S : Type 0}
      → List (S × String × List ℕ)
      → (after : S) → Flow N E C K R
      → Result (Unit {0}) × (Flow N E C K R × S)
  push_all [] after t = (ok tt, (t, after))
  push_all ((now, edge_name, payload) ∷ pushes) after t =
      let (result, t') = push_data N E edge_name payload t in
      elim result [ throw e ↦ (throw e, (t', now)) | ok _ ↦ push_all pushes after t' ]

-- The node and the application's state.
abbrev pub World : Ndn → Generator → Application → Type 0 → Type 0 → Type 0
World N E A C R = Flow N E C (CallbackOf A) R × A.State

module _ (N : Ndn) (E : Generator) (A : Application) {C R : Type 0} where
  unfoldable pub invoke :
      CallbackOf A → List ℕ → World N E A C R → Result (Unit {0}) × World N E A C R
  unfolding push_all
  invoke (consuming callback) payload (t, a) =
      let (result, a') = A.consume callback payload a in (result, (t, a'))
  invoke (prosuming callback) payload (t, a) =
      let (pushes, a') = A.prosume callback payload a in push_all N E pushes a' t

  abbrev surroundings : Surroundings N (CallbackOf A) (World N E A C R)
  surroundings = record {
    svs = λ w. w.0.svs;
    with_svs = λ s w. (record w.0 { svs = some s }, w.1);
    invoke = invoke;
  }

  -- A delivery to the consumer that the node keeps for the edge.
  deliver_to :
      (J : Json)
      → String
      → SubscriptionData
      → ℕ
      → Option (Consumer (CallbackOf A) R)
      → World N E A C R
      → Result (Unit {0}) × World N E A C R
  deliver_to J edge_name sub_data now none w = (ok tt, w)
  deliver_to J edge_name sub_data now (some c) w =
      let (result, c', w') = Consumer.subscribe_callback N J surroundings sub_data now c w in
      (result, (record w'.0 { consumers = insert edge_name c' w'.0.consumers }, w'.1))

  acknowledged :
      (J : Json) → String → String → List ℕ → Option N.Svs → World N E A C R → World N E A C R
  acknowledged J node_prefix sync_prefix payload none w = w
  acknowledged J node_prefix sync_prefix payload (some s) w = (
    record w.0 { svs = some (Producer.handle_backchannel N J node_prefix sync_prefix payload s) },
    w.1,
  )

  unfoldable pub deliver :
      (J : Json)
      → Handler
      → SubscriptionData
      → ℕ
      → World N E A C R
      → Result (Unit {0}) × World N E A C R
  unfolding deliver_to acknowledged invoke
  deliver J (Handler.consumer edge_name) sub_data now w =
      deliver_to J edge_name sub_data now (lookup edge_name w.0.consumers) w
  deliver J (Handler.backchannel node_prefix sync_prefix) sub_data now w =
      (ok tt, acknowledged J node_prefix sync_prefix sub_data.payload w.0.svs w)

  unfoldable pub handle_event :
      (J : Json) → Event (CallbackOf A) → World N E A C R → Result (Unit {0}) × World N E A C R
  unfolding deliver
  handle_event J (delivery handler sub_data now) w = deliver J handler sub_data now w
  handle_event J (call c) w = let (result, t) = make_call N E c w.0 in (result, (t, w.1))

  -- `processEvents`: the events of one round; the first that throws ends the round
  unfoldable pub process_events :
      (J : Json)
      → List (Event (CallbackOf A))
      → World N E A C R
      → Result (Unit {0}) × World N E A C R
  unfolding handle_event
  process_events J [] w = (ok tt, w)
  process_events J (event ∷ events) w =
      let (result, w') = handle_event J event w in
      elim result [ throw e ↦ (throw e, w') | ok _ ↦ process_events J events w' ]

  -- The loop of the thread that `run` starts, through the rounds that have come so far; what a round
  -- throws is logged. It has ended if the node no longer runs at the start of a round.
  unfoldable pub run_loop :
      (J : Json) → List (List (Event (CallbackOf A))) → World N E A C R → Bool × World N E A C R
  run_loop J [] w = (not w.0.running, w)
  run_loop J (events ∷ rounds) w =
      let rest = run_loop J rounds (process_events J events w).1 in
      if w.0.running then rest else (true, w)

  -- `none` while the loop goes on after the rounds that have come so far
  unfoldable pub run :
      (J : Json)
      → List (List (Event (CallbackOf A)))
      → World N E A C R
      → Option (Result (Unit {0})) × World N E A C R
  unfolding run_loop
  run J rounds w =
      if w.0.running
      then (some (throw (runtime_error "Iceflow instance is already running!")), w)
      else (let (ended, v) = run_loop J rounds (record w.0 { running = true }, w.1) in
          (if ended then some (ok tt) else none, v))
