-- ===== src/WordCount/Nodes/Starting.antt =====
-- How the applications start.
use Prim.Native.String.{◌++◌ as ◌<>◌}
use iceflow.Prelude.{ℕ, ◌≡◌, refl, subst, ◌∙◌, Option, none, some, List, String, str_eq_iff}
use iceflow.Prelude.Errors.{Result, ok, throw, bad_optional_access}
use iceflow.Prelude.Dict.{Dict, lookup, insert, lookup-insert}
use iceflow.Ndn.{Ndn, IsLawful, Generator}
use iceflow.Json.{Json}
use iceflow.Consumer
use iceflow.Consumer.{Consumer}
use iceflow.Consumer.Partitions.{Serves}
use iceflow.Measurements
use iceflow.Measurements.{Measurement}
use iceflow.Flow.{Flow, get_application_parameter, register_consumer_callback}
use iceflow.Flow.Setup.{IsReady}
use iceflow.Flow.Routing.{repartition_consumer_lem}
use iceflow.Flow.Events.Calls.{register-IsReady, repartition_consumer-IsReady}
use iceflow.WordCount.Nodes.{value, make_handler, attach}

-- The number of entries that the handler keeps in memory, as the graph's configuration gives it.
abbrev pub save_threshold :
    (N : Ndn) (E : Generator) (J : Json) {K R : Type 0} → Flow N E J.Object K R → Option ℕ
save_threshold N E J t = get_application_parameter J J.get_uint64 "measurementsSaveThreshold" t

-- A node whose consumer of an edge has a callback and serves some partitions of the edge's topic.
pub record IsAttached (N : Ndn) (E : Generator) {C K R : Type 0} (edge_name : String) (callback : K)
    (partitions : List ℕ) (t : Flow N E C K R) : Type 0 where
  pub ready : IsReady t
  pub consumer : Consumer K R
  pub found : lookup edge_name t.consumers ≡ some consumer
  pub registered : consumer.consumer_callback ≡ some callback
  pub svs : N.Svs
  pub live : t.svs ≡ some svs
  pub serves :
      Serves N
        (t.sync_prefix <> ("/" <> edge_name))
        edge_name
        partitions
        consumer.subscription_handles
        svs

module _ (N : Ndn) (L : IsLawful N) (E : Generator) (J : Json) {K R : Type 0} where
  registered-known :
      (edge : String) (callback : K) (t : Flow N E J.Object K R) (c : Consumer K R)
      → lookup edge t.consumers ≡ some c
      → register_consumer_callback edge callback t ≡ (
        ok tt,
        record t {
          consumers = insert edge (Consumer.set_consumer_callback callback c) t.consumers;
        },
      )
  unfolding register_consumer_callback
  registered-known edge callback t c e = rw (e, register_consumer_callback)

  lookup-insert_self :
      (edge : String) (c : Consumer K R) (d : Dict (Consumer K R))
      → lookup edge (insert edge c d) ≡ some c
  lookup-insert_self edge c d = lookup-insert edge edge c d ∙ rw ((str_eq_iff edge edge).1 refl)

  make_handler_known :
      (node_name : String) (t : Flow N E J.Object K R) (threshold : ℕ)
      → save_threshold N E J t ≡ some threshold
      → make_handler N E J node_name t
        ≡ ok (Measurements.create node_name t.node_prefix threshold "A")
  unfolding make_handler value
  make_handler_known node_name t threshold configured = rw (configured, make_handler)

  -- Without the parameter, or where it is no number, no application starts.
  pub attach_unset :
      (node_name edge : String) (callback : K) (partitions : List ℕ) (t : Flow N E J.Object K R)
      → save_threshold N E J t ≡ none
      → attach N E J node_name edge callback partitions t ≡ throw bad_optional_access
  unfolding attach make_handler value
  attach_unset node_name edge callback partitions t unset = rw (unset, make_handler, attach)

  -- What the handler and the node are once an application has started.
  abbrev pub Attached :
      String
      → String
      → K
      → List ℕ
      → Flow N E J.Object K R
      → ℕ
      → Result (Flow N E J.Object K R × Measurement)
      → Type 0
  Attached node_name edge callback partitions t threshold r =
      (t' : Flow N E J.Object K R) × (r
        ≡ ok (t', Measurements.create node_name t.node_prefix threshold "A"))
      × IsAttached N E edge callback partitions t'
      × (t'.producers ≡ t.producers)
      × (t'.sync_prefix ≡ t.sync_prefix)

  pub attach_lem :
      (node_name edge : String) (callback : K) (partitions : List ℕ) (t : Flow N E J.Object K R)
      (c : Consumer K R) (threshold : ℕ)
      → IsReady t
      → lookup edge t.consumers ≡ some c
      → save_threshold N E J t ≡ some threshold
      → Attached node_name edge callback partitions t threshold
          (attach N E J node_name edge callback partitions t)
  unfolding attach Consumer.set_consumer_callback
  attach_lem node_name edge callback partitions t c threshold ready found configured =
      let c₁ : Consumer K R = Consumer.set_consumer_callback callback c in
      let t₁ : Flow N E J.Object K R = record t { consumers = insert edge c₁ t.consumers } in
      let known = registered-known edge callback t c found in
      let ready₁ : IsReady t₁ =
        subst (λ (r : Result (Unit {0}) × Flow N E J.Object K R). IsReady r.1) known
          (register-IsReady N L E edge callback t ready) in
      let found₁ : lookup edge t₁.consumers ≡ some c₁ = lookup-insert_self edge c₁ t.consumers in
      let (handles, s, s', live, f, serves, _, _) =
        repartition_consumer_lem N L E edge partitions t₁ c₁ ready₁ found₁ in
      let c₂ : Consumer K R = record c₁ { subscription_handles = handles } in
      let t₂ : Flow N E J.Object K R = record t₁ {
        svs = some s';
        consumers = insert edge c₂ t₁.consumers;
      } in
      (
        t₂,
        rw (make_handler_known node_name t threshold configured, known, f, attach),
        record {
          ready =
              subst (λ (r : Result (Unit {0}) × Flow N E J.Object K R). IsReady r.1) f
                (repartition_consumer-IsReady N L E edge partitions t₁ ready₁);
          consumer = c₂;
          found = lookup-insert_self edge c₂ t₁.consumers;
          registered = refl;
          svs = s';
          live = refl;
          serves = serves;
        },
        refl,
        refl,
      )
